-- ===== src/ExpertCache/Touched.antt =====
-- A valid cache, the count of a use, and the search for an expert.
use moty.Base.{
  ℤ, int_eq, ℕ, suc, ◌+◌, ◌-◌, ◌%◌, ◌≤◌, ◌<◌, ◌≡◌, ◌≢◌, refl, ◌∙◌, ◌⊎◌, inl, inr, true, false, none,
  some, List, [], ◌∷◌, length, get_elem?, set, ltb, if◌then◌else◌, All, Bool-cases, arith,
  get_elem?_total, All-get_elem?, ltb→lt, lt→ltb, All-set, length-set, int_eq→≡, int_eq_refl,
}
use moty.Tier.{word}
use moty.ExpertCache.{Slot, ExpertCache, read, touch, find}
use moty.ExpertCache.Victim.{HasArrays, IsExpert}

module _ {W : Type 0} (load : ℤ → W) where
  -- A cache that tracks its experts: its slots, at most `cap`, hold the weights of experts.
  pub record IsCache (lc : ExpertCache W) : Type 0 where
    pub arrays : HasArrays lc
    pub known : All (λ t. IsExpert lc.n_experts t.eid) lc.slots
    pub held : All (λ t. t.weights ≡ load t.eid) lc.slots
    pub fits : length lc.slots ≤ lc.cap
    pub room : 0 < lc.cap

  -- A use of an expert changes the counts only.
  pub record IsTouched (lc lc' : ExpertCache W) : Type 0 where
    pub valid : IsCache lc'
    pub slots : lc'.slots ≡ lc.slots
    pub cap : lc'.cap ≡ lc.cap
    pub n_experts : lc'.n_experts ≡ lc.n_experts
    pub pinned : lc'.pinned ≡ lc.pinned
    pub hits : lc'.hits ≡ lc.hits
    pub misses : lc'.misses ≡ lc.misses

  pub touch-IsTouched :
      (lc : ExpertCache W) (eid : ℤ)
      → IsCache lc
      → IsExpert lc.n_experts eid
      → (lc' : ExpertCache W) × (touch lc eid ≡ some lc') × IsTouched lc lc'
  unfolding touch read
  touch-IsTouched lc eid c (k, q, lt) =
      let (h, e) = get_elem?_total lc.heat k (omega (arith, c.arrays.heat_length)) in
      let small = All-get_elem? (λ x. x < word) lc.heat k h c.arrays.heat_bound e in
      let on : ltb 0 lc.n_experts ≡ true = lt→ltb 0 _ c.arrays.some_experts in
      let here : ltb k lc.n_experts ≡ true = lt→ltb k _ lt in
      let heats : List ℕ = if ltb h (word - 1) then set lc.heat k (suc h) else lc.heat in
      let lasts = set lc.last k lc.clock in
      let tick = suc lc.clock % word in
      (
        record lc { heat = heats; last = lasts; clock = tick },
        rw (q, on, here, e) refl,
        record {
          valid = record {
            arrays = record {
              some_experts = c.arrays.some_experts;
              heat_length = counts_length h k (Bool-cases (ltb h (word - 1)));
              last_length = length-set lc.last k lc.clock ∙ c.arrays.last_length;
              pinned_length = c.arrays.pinned_length;
              heat_bound = counts_bound h k small (Bool-cases (ltb h (word - 1)));
            };
            known = c.known;
            held = c.held;
            fits = c.fits;
            room = c.room;
          };
          slots = refl;
          cap = refl;
          n_experts = refl;
          pinned = refl;
          hits = refl;
          misses = refl;
        },
      )
    where
      counts_length :
          (h k : ℕ)
          → (ltb h (word - 1) ≡ true) ⊎ (ltb h (word - 1) ≡ false)
          → length (if ltb h (word - 1) then set lc.heat k (suc h) else lc.heat) ≡ lc.n_experts
      counts_length h k (inl a) = rw a (length-set lc.heat k (suc h) ∙ c.arrays.heat_length)
      counts_length h k (inr a) = rw a c.arrays.heat_length

      counts_bound :
          (h k : ℕ)
          → h < word
          → (ltb h (word - 1) ≡ true) ⊎ (ltb h (word - 1) ≡ false)
          → All (λ x. x < word) (if ltb h (word - 1) then set lc.heat k (suc h) else lc.heat)
      counts_bound h k small (inl a) = rw a (
          All-set (λ x. x < word) lc.heat k (suc h) c.arrays.heat_bound
            (omega (arith, ltb→lt h (word - 1) a)))
      counts_bound h k small (inr a) = rw a c.arrays.heat_bound

module _ {W : Type 0} where
  -- A search finds the slot of the expert, or no slot holds it.
  pub record IsAt (slots : List (Slot W)) (eid : ℤ) (i j : ℕ) : Type 0 where
    pub offset : ℕ
    pub number : j ≡ i + offset
    pub slot : Slot W
    pub there : get_elem? slots offset ≡ some slot
    pub same : slot.eid ≡ eid

  abbrev pub Absent : List (Slot W) → ℤ → Type 0
  Absent slots eid = All (λ t. t.eid ≢ eid) slots

  pub find-cases :
      (slots : List (Slot W)) (eid : ℤ) (i : ℕ)
      → ((find slots eid i ≡ none) × Absent slots eid)
        ⊎ ((j : ℕ) × (find slots eid i ≡ some j) × IsAt slots eid i j)
  unfolding find
  find-cases [] eid i = inl (refl, tt)
  find-cases (t ∷ slots) eid i = elim (Bool-cases (int_eq t.eid eid)) [
    | inl e ↦ inr (
      i,
      rw e refl,
      record {
        offset = 0;
        number = omega arith;
        slot = t;
        there = refl;
        same = int_eq→≡ t.eid eid e;
      },
    )
    | inr e ↦ elim (find-cases slots eid (suc i)) [
      | inl (q, a) ↦
          inl (
            rw e q,
            (λ s. absurd (let e' = rw s at e in let x = int_eq_refl eid in ground arith), a),
          )
      | inr (j, q, a) ↦ inr (
        j,
        rw e q,
        record {
          offset = suc a.offset;
          number = omega (arith, a.number);
          slot = a.slot;
          there = a.there;
          same = a.same;
        },
      )
    ]
  ]
