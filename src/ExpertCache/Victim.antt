-- ===== src/ExpertCache/Victim.antt =====
-- The slot that `expert_get` evicts, and that its reads stay in bounds.
use moty.Base.{
  ℤ, pos, ℕ, zero, suc, ◌+◌, ◌-◌, ◌^◌, ◌≤◌, ◌<◌, ◌≡◌, refl, sym, ◌∙◌, ◌⊎◌, inl, inr, Bool, true,
  false, Option, some, List, [], ◌∷◌, length, get_elem?, ltb, All, Bool-cases, arith,
  get_elem?_total, All-get_elem?, ltb→lt, lt→ltb,
}
use moty.Tier.{word, lfru_score}
use moty.Tier.Laws.{lfru_score_bounds}
use moty.ExpertCache.{Slot, ExpertCache, read, tracks, is_pinned, victim_loop, victim}

-- The number of an expert.
abbrev pub IsExpert : ℕ → ℤ → Type 0
IsExpert n e = (k : ℕ) × (e ≡ pos k) × (k < n)

module _ {W : Type 0} where
  -- The arrays have an entry for every expert, and a count is a `uint32_t`.
  pub record HasArrays (lc : ExpertCache W) : Type 0 where
    pub some_experts : 0 < lc.n_experts
    pub heat_length : length lc.heat ≡ lc.n_experts
    pub last_length : length lc.last ≡ lc.n_experts
    pub pinned_length : length lc.pinned ≡ lc.n_experts
    pub heat_bound : All (λ h. h < word) lc.heat

  abbrev pub IsPinned : ExpertCache W → ℤ → Type 0
  IsPinned lc e = read lc.pinned e ≡ some true

  -- The score of an expert, from its counts.
  abbrev pub HasScore : ExpertCache W → ℤ → ℕ → Type 0
  HasScore lc e s =
      (heat : ℕ) × (last : ℕ) × (read lc.heat e ≡ some heat)
      × (read lc.last e ≡ some last)
      × (s ≡ lfru_score heat last lc.clock)

  module _ (lc : ExpertCache W) (h : HasArrays lc) (e : ℤ) (x : IsExpert lc.n_experts e) where
    pub reads_pinned : (p : Bool) × (read lc.pinned e ≡ some p) × (is_pinned lc e ≡ some p)
    unfolding read is_pinned
    reads_pinned =
        let (k, q, lt) = x in
        let (p, r) = get_elem?_total lc.pinned k (omega (arith, h.pinned_length)) in
        let on : ltb 0 lc.n_experts ≡ true = lt→ltb 0 _ h.some_experts in
        let here : ltb k lc.n_experts ≡ true = lt→ltb k _ lt in
        (p, rw q r, rw (q, on, here, r) refl)

    pub reads_score :
        (heat : ℕ) × (last : ℕ) × (read lc.heat e ≡ some heat)
        × (read lc.last e ≡ some last)
        × (lfru_score heat last lc.clock < 2 ^ 64 - 1)
    unfolding read
    reads_score =
        let (k, q, lt) = x in
        let (heat, r) = get_elem?_total lc.heat k (omega (arith, h.heat_length)) in
        let (last, r') = get_elem?_total lc.last k (omega (arith, h.last_length)) in
        let small = All-get_elem? (λ c. c < word) lc.heat k heat h.heat_bound r in
        (
          heat,
          last,
          rw q r,
          rw q r',
          omega (arith, small, (lfru_score_bounds heat last lc.clock).1),
        )

  -- No unpinned expert of the slots has a score below `s`.
  abbrev pub NoneBelow : ExpertCache W → ℕ → List (Slot W) → Type 0
  NoneBelow lc s slots =
      All (λ t. read lc.pinned t.eid ≡ some false → (s' : ℕ) → HasScore lc t.eid s' → s ≤ s') slots

  -- A slot of the list, from the number `i` on, whose expert is not pinned and has the least score.
  pub record IsLeast (lc : ExpertCache W) (slots : List (Slot W)) (i worst v : ℕ) : Type 0 where
    pub offset : ℕ
    pub slot : Slot W
    pub there : get_elem? slots offset ≡ some slot
    pub number : v ≡ i + offset
    pub free : read lc.pinned slot.eid ≡ some false
    pub score : ℕ
    pub has_score : HasScore lc slot.eid score
    pub below : score < worst
    pub least : NoneBelow lc score slots

  module _ (lc : ExpertCache W) where
    later :
        {slots : List (Slot W)} {i worst v : ℕ} (t : Slot W) (worst' : ℕ)
        → (l : IsLeast lc slots (suc i) worst v) → worst ≤ worst'
        → (read lc.pinned t.eid ≡ some false → (s' : ℕ) → HasScore lc t.eid s' → l.score ≤ s')
        → IsLeast lc (t ∷ slots) i worst' v
    later t worst' l le head = record {
      offset = suc l.offset;
      slot = l.slot;
      there = l.there;
      number = omega (arith, l.number);
      free = l.free;
      score = l.score;
      has_score = l.has_score;
      below = omega (arith, l.below);
      least = (head, l.least);
    }

    -- The loop ends on the slot it began with, if no score is below the bound it began with, or on
    -- a slot of the least score.
    pub record Found (slots : List (Slot W)) (i v worst : ℕ) (r : Option ℕ) : Type 0 where
      pub number : ℕ
      pub returns : r ≡ some number
      pub which : ((number ≡ v) × NoneBelow lc worst slots) ⊎ IsLeast lc slots i worst number

    some_eq : {a b : ℕ} → some a ≡ some b → a ≡ b
    some_eq q = ground (arith, q)

    same_score :
        (e : ℤ) (heat last s' : ℕ)
        → read lc.heat e ≡ some heat
        → read lc.last e ≡ some last
        → HasScore lc e s'
        → lfru_score heat last lc.clock ≡ s'
    same_score e heat last s' a b (heat', last', a', b', q) =
        let p : heat ≡ heat' = some_eq (sym a ∙ a') in
        let p' : last ≡ last' = some_eq (sym b ∙ b') in rw (p, p', q) refl

    module _ (t : Slot W) (slots : List (Slot W)) (heat last : ℕ)
        (a : read lc.heat t.eid ≡ some heat) (b : read lc.last t.eid ≡ some last)
        (i v worst : ℕ) where
      lower :
          Found slots
            (suc i)
            i
            (lfru_score heat last lc.clock)
            (victim_loop lc slots (suc i) i (lfru_score heat last lc.clock))
          → read lc.pinned t.eid ≡ some false
          → lfru_score heat last lc.clock < worst
          → Found
              (t ∷ slots)
              i
              v
              worst
              (victim_loop lc slots (suc i) i (lfru_score heat last lc.clock))
      lower r e lt = record {
        number = r.number;
        returns = r.returns;
        which = elim r.which [
          | inl (q, l) ↦ inr (record {
            offset = 0;
            slot = t;
            there = refl;
            number = omega (arith, q);
            free = e;
            score = lfru_score heat last lc.clock;
            has_score = (heat, last, a, b, refl);
            below = lt;
            least =
                ((λ _ s' c. let q' = same_score t.eid heat last s' a b c in omega (arith, q')), l);
          })
          | inr l ↦ inr (
              later t worst l (omega arith) (λ _ s' c.
                let q = same_score t.eid heat last s' a b c in omega (arith, q, l.below)))
        ];
      }

      higher :
          Found slots (suc i) v worst (victim_loop lc slots (suc i) v worst)
          → worst ≤ lfru_score heat last lc.clock
          → Found (t ∷ slots) i v worst (victim_loop lc slots (suc i) v worst)
      higher r le = record {
        number = r.number;
        returns = r.returns;
        which = elim r.which [
          | inl (q, l) ↦ inl (
            q,
            ((λ _ s' c. let q' = same_score t.eid heat last s' a b c in omega (arith, q')), l),
          )
          | inr l ↦ inr (
              later t worst l (omega arith) (λ _ s' c.
                let q = same_score t.eid heat last s' a b c in omega (arith, q, l.below)))
        ];
      }

      held :
          Found slots (suc i) v worst (victim_loop lc slots (suc i) v worst)
          → read lc.pinned t.eid ≡ some true
          → Found (t ∷ slots) i v worst (victim_loop lc slots (suc i) v worst)
      held r e = record {
        number = r.number;
        returns = r.returns;
        which = elim r.which [
          | inl (q, l) ↦ inl (q, ((λ c. absurd (let q' = sym e ∙ c in ground arith)), l))
          | inr l ↦
              inr (later t worst l (omega arith) (λ c. absurd (let q' = sym e ∙ c in ground arith)))
        ];
      }

    pub victim_loop-Found :
        HasArrays lc
        → (slots : List (Slot W)) (i v worst : ℕ) → All (λ t. IsExpert lc.n_experts t.eid) slots
        → Found slots i v worst (victim_loop lc slots i v worst)
    unfolding victim_loop
    victim_loop-Found h [] i v worst known = record {
      number = v;
      returns = refl;
      which = inl (refl, tt);
    }
    victim_loop-Found h (t ∷ slots) i v worst known =
        let (p, e, e') = reads_pinned lc h t.eid known.0 in
        elim (Bool-cases p) [
          | inl pin ↦
              let (heat, last, a, b, _) = reads_score lc h t.eid known.0 in
              rw (e', pin)
                (held t slots heat last a b i v worst
                  (victim_loop-Found h slots (suc i) v worst known.1) (rw pin at e))
          | inr free ↦
              let (heat, last, a, b, _) = reads_score lc h t.eid known.0 in
              let sc = lfru_score heat last lc.clock in
              elim (Bool-cases (ltb sc worst)) [
                | inl less ↦
                    rw (e', free, a, b, less)
                      (lower t slots heat last a b i v worst
                        (victim_loop-Found h slots (suc i) i sc known.1) (rw free at e)
                        (ltb→lt sc worst less))
                | inr more ↦
                    rw (e', free, a, b, more)
                      (higher t slots heat last a b i v worst
                        (victim_loop-Found h slots (suc i) v worst known.1) (ground arith))
              ]
        ]

  -- The slot that `expert_get` evicts: if an expert of the slots is not pinned, one of those, of
  -- the least score; else the first.
  pub record IsVictim (lc : ExpertCache W) (slots : List (Slot W)) (v : ℕ) : Type 0 where
    pub in_slots : v < length slots
    pub which :
        ((v ≡ 0) × All (λ t. IsPinned lc t.eid) slots)
        ⊎ ((slot : Slot W) × (s : ℕ) × (get_elem? slots v ≡ some slot)
            × (read lc.pinned slot.eid ≡ some false)
            × HasScore lc slot.eid s
            × NoneBelow lc s slots)

  module _ (lc : ExpertCache W) (h : HasArrays lc) where
    none_free :
        (slots : List (Slot W))
        → All (λ t. IsExpert lc.n_experts t.eid) slots
        → NoneBelow lc (2 ^ 64 - 1) slots
        → All (λ t. IsPinned lc t.eid) slots
    none_free [] known l = tt
    none_free (t ∷ slots) known l =
        let (p, e, _) = reads_pinned lc h t.eid known.0 in
        let (heat, last, a, b, lt) = reads_score lc h t.eid known.0 in
        let rest = none_free slots known.1 l.1 in
        elim (Bool-cases p) [
          | inl pin ↦ (rw pin at e, rest)
          | inr free ↦ absurd (omega (arith, lt, l.0 (rw free at e) _ (heat, last, a, b, refl)))
        ]

    get_elem?-below :
        (slots : List (Slot W)) (i : ℕ) (t : Slot W) → get_elem? slots i ≡ some t → i < length slots
    get_elem?-below [] i t e = cc
    get_elem?-below (s ∷ slots) zero t e = omega arith
    get_elem?-below (s ∷ slots) (suc i) t e = omega (arith, get_elem?-below slots i t e)

    pub victim-IsVictim :
        All (λ t. IsExpert lc.n_experts t.eid) lc.slots
        → 0 < length lc.slots
        → (v : ℕ) × (victim lc ≡ some v) × IsVictim lc lc.slots v
    unfolding victim
    victim-IsVictim known full =
        let r = victim_loop-Found lc h lc.slots 0 0 (2 ^ 64 - 1) known in
        let on : tracks lc ≡ true = lt→ltb 0 _ h.some_experts in
        (
          r.number,
          rw on r.returns,
          elim r.which [
            | inl (q, l) ↦ record {
              in_slots = omega (arith, q);
              which = inl (q, none_free lc.slots known l);
            }
            | inr l ↦
                let q : r.number ≡ l.offset = omega (arith, l.number) in
                record {
                  in_slots = omega (arith, get_elem?-below lc.slots l.offset l.slot l.there);
                  which = inr (l.slot, l.score, rw q l.there, l.free, l.has_score, l.least);
                }
          ],
        )
