-- ===== src/Par/Dynamic.antt =====
-- The dynamic schedule: whatever the order in which the threads ask, each index is run once.
use moty.Base.{
  ℕ, zero, suc, ◌+◌, ◌-◌, ◌<◌, ◌≤◌, ◌≡◌, refl, ap, Bool, true, false, some, List, [], ◌∷◌,
  get_elem?, set, replicate, ltb, if◌then◌else◌, arith, Bool-cases, inl, inr, ◌⊎◌,
}
use moty.Par.{Region, published, Step, take_chunk, stop, Steps, start, next_step, runs, Covers}

-- How many threads still ask.
abbrev pub asking_count : List Bool → ℕ
asking_count [] = 0
asking_count (true ∷ bs) = suc (asking_count bs)
asking_count (false ∷ bs) = asking_count bs

module _ (n chunk : ℕ) where
  -- What is handed out so far covers the indices below the counter; a thread that stopped has seen
  -- that none are left.
  pub record IsHanded (s : Region) : Type 0 where
    pub covers : Covers (if ltb s.next n then s.next else n) s.calls
    pub stopped : (t : ℕ) → get_elem? s.asking t ≡ some false → n ≤ s.next

  count_set-false :
      (bs : List Bool) (t : ℕ)
      → get_elem? bs t ≡ some true
      → asking_count bs ≡ suc (asking_count (set bs t false))
  count_set-false [] t e = cc
  count_set-false (b ∷ bs) zero e = let q : b ≡ true = ground (arith, e) in rw q refl
  count_set-false (true ∷ bs) (suc t) e = ap suc (count_set-false bs t e)
  count_set-false (false ∷ bs) (suc t) e = count_set-false bs t e

  Step-IsHanded : (s s' : Region) → Step n chunk s s' → IsHanded s → IsHanded s'
  unfolding runs
  Step-IsHanded s s' (take_chunk t a lt) h = record {
    covers = λ i. let c = h.covers i in ground arith;
    stopped = λ u e. omega (arith, h.stopped u e);
  }
  Step-IsHanded s s' (stop t a le) h = record {
    covers = λ i. let c = h.covers i in ground arith;
    stopped = λ u e. omega (arith, le);
  }

  never_stopped : (team t : ℕ) → get_elem? (replicate team true) t ≡ some false → n ≤ 0
  never_stopped zero t e = cc
  never_stopped (suc team) zero e = absurd (ground arith)
  never_stopped (suc team) (suc t) e = never_stopped team t e

  published-IsHanded : (team : ℕ) → IsHanded (published team)
  unfolding runs
  published-IsHanded team = record { covers = λ i. ground arith; stopped = never_stopped team }

  -- In every state that the threads reach, in any order of their steps, what is handed out covers
  -- the indices below the counter.
  pub Steps-IsHanded : (team k : ℕ) (s : Region) → Steps n chunk (published team) k s → IsHanded s
  Steps-IsHanded team k s start = published-IsHanded team
  Steps-IsHanded team k s (next_step steps step) =
      Step-IsHanded _ s step (Steps-IsHanded team _ _ steps)

  -- What is left to do, which every step lessens.
  abbrev left : Region → ℕ
  left s = (n - s.next) + asking_count s.asking

  Step-left : (s s' : Region) → 0 < chunk → Step n chunk s s' → left s' < left s
  Step-left s s' pos (take_chunk t a lt) = omega arith
  Step-left s s' pos (stop t a le) = omega (arith, count_set-false s.asking t a)

  Steps-left : (s s' : Region) (k : ℕ) → 0 < chunk → Steps n chunk s k s' → k + left s' ≤ left s
  Steps-left s s' k pos start = omega arith
  Steps-left s s' k pos (next_step steps step) =
      omega (arith, Steps-left s _ _ pos steps, Step-left _ s' pos step)

  -- Once a thread has found no indices left, the calls handed out run each index below `n` once and
  -- no other, whatever the order in which the threads asked.
  pub dynamic-Covers :
      (team k : ℕ) (s : Region)
      → Steps n chunk (published team) k s
      → (t : ℕ) → get_elem? s.asking t ≡ some false
      → Covers n s.calls
  dynamic-Covers team k s steps t e i =
      let h = Steps-IsHanded team k s steps in
      let all = h.stopped t e in let c = h.covers i in ground arith

  count_replicate : (team : ℕ) → asking_count (replicate team true) ≡ team
  count_replicate zero = refl
  count_replicate (suc team) = ap suc (count_replicate team)

  some_asking : (bs : List Bool) → (asking_count bs ≡ 0) ⊎ ((t : ℕ) × (get_elem? bs t ≡ some true))
  some_asking [] = inl refl
  some_asking (true ∷ bs) = inr (0, refl)
  some_asking (false ∷ bs) = elim (some_asking bs) [ inl e ↦ inl e | inr (t, e) ↦ inr (suc t, e) ]

  -- With chunks of at least one index the threads take at most `n` steps and one for each thread,
  -- in any order, and until all have stopped another step can be taken.
  pub dynamic_ends :
      (team k : ℕ) (s : Region)
      → 0 < chunk
      → Steps n chunk (published team) k s
      → (k ≤ n + team) × ((asking_count s.asking ≡ 0) ⊎ ((s' : Region) × Step n chunk s s'))
  dynamic_ends team k s pos steps = (
    omega (arith, Steps-left (published team) s k pos steps, count_replicate team),
    elim (some_asking s.asking) [
      | inl e ↦ inl e
      | inr (t, e) ↦ inr (elim (Bool-cases (ltb s.next n)) [
        | inl lt ↦ (_, take_chunk t e (ground arith))
        | inr le ↦ (_, stop t e (ground arith))
      ])
    ],
  )
