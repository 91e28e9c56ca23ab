-- ===== src/ExpertCache/Resident.antt =====
-- A cache with a slot for every expert evicts none.
use moty.Base.{
  ℤ, pos, ℕ, suc, ◌≤◌, ◌<◌, ◌≡◌, ◌≢◌, refl, sym, ap, ◌∙◌, some, List, [], ◌∷◌, ◌++◌, map, length,
  All, arith, Distinct, length-Distinct,
}
use moty.ExpertCache.{Slot, ExpertCache, index, loaded, expert_get}
use moty.ExpertCache.Victim.{IsExpert}
use moty.ExpertCache.Touched.{IsCache}
use moty.ExpertCache.Get.{Change, hit, filled, evicted, expert_get-IsGot}

module _ {W : Type 0} where
  -- The experts of the slots.
  abbrev pub eids : List (Slot W) → List ℤ
  eids = map (λ (t : Slot W). t.eid)

  abbrev numbers : List (Slot W) → List ℕ
  numbers = map (λ (t : Slot W). index t.eid)

  length-numbers : (slots : List (Slot W)) → length (numbers slots) ≡ length slots
  length-numbers [] = refl
  length-numbers (t ∷ slots) = ap suc (length-numbers slots)

  numbers-below :
      (n : ℕ) (slots : List (Slot W))
      → All (λ t. IsExpert n t.eid) slots
      → All (λ k. k < n) (numbers slots)
  numbers-below n [] h = tt
  numbers-below n (t ∷ slots) h = let (k, e, lt) = h.0 in (rw e lt, numbers-below n slots h.1)

  others :
      (n : ℕ) (e : ℤ)
      → IsExpert n e
      → (slots : List (Slot W)) → All (λ t. IsExpert n t.eid) slots
      → All (λ x. x ≢ e) (eids slots)
      → All (λ k. k ≢ index e) (numbers slots)
  others n e x [] h a = tt
  others n e x (t ∷ slots) h a =
      let (k, q, _) = h.0 in
      let (j, q', _) = x in
      (
        (λ s. let s' : k ≡ j = rw (q, q') at s in a.0 (q ∙ ap pos s' ∙ sym q')),
        others n e x slots h.1 a.1,
      )

  Distinct-numbers :
      (n : ℕ) (slots : List (Slot W))
      → All (λ t. IsExpert n t.eid) slots
      → Distinct (eids slots)
      → Distinct (numbers slots)
  Distinct-numbers n [] h d = tt
  Distinct-numbers n (t ∷ slots) h d =
      (others n t.eid h.0 slots h.1 d.0, Distinct-numbers n slots h.1 d.1)

  absent-eids :
      (slots : List (Slot W)) (e : ℤ) → All (λ t. t.eid ≢ e) slots → All (λ x. x ≢ e) (eids slots)
  absent-eids [] e a = tt
  absent-eids (t ∷ slots) e a = (a.0, absent-eids slots e a.1)

  -- An expert that is in no slot leaves one of `n` slots free.
  room_for :
      (n : ℕ) (slots : List (Slot W)) (e : ℤ)
      → IsExpert n e
      → All (λ t. IsExpert n t.eid) slots
      → Distinct (eids slots)
      → All (λ t. t.eid ≢ e) slots
      → length slots < n
  room_for n slots e x h d a =
      let all =
        length-Distinct n (index e ∷ numbers slots)
          ((let (k, q, lt) = x in rw q lt), numbers-below n slots h)
          (others n e x slots h (absent-eids slots e a), Distinct-numbers n slots h d) in
      omega (arith, all, length-numbers slots)

  Distinct-append :
      (slots : List (Slot W)) (s : Slot W)
      → Distinct (eids slots)
      → All (λ t. t.eid ≢ s.eid) slots
      → Distinct (eids (slots ++ s ∷ []))
  Distinct-append [] s d a = (tt, tt)
  Distinct-append (t ∷ slots) s d a = (apart slots d.0, Distinct-append slots s d.1 a.1)
    where
      apart :
          (us : List (Slot W))
          → All (λ x. x ≢ t.eid) (eids us)
          → All (λ x. x ≢ t.eid) (eids (us ++ s ∷ []))
      apart [] h = ((λ q. a.0 (sym q)), tt)
      apart (u ∷ us) h = (h.0, apart us h.1)

  module _ (load : ℤ → W) where
    -- Every expert that was in a slot is still there, in that slot, and none is in two.
    pub record IsKept (lc lc' : ExpertCache W) : Type 0 where
      pub more : List (Slot W)
      pub kept : lc'.slots ≡ lc.slots ++ more
      pub distinct : Distinct (eids lc'.slots)

    append-nil : (xs : List (Slot W)) → xs ++ [] ≡ xs
    append-nil [] = refl
    append-nil (x ∷ xs) = ap (λ ys. x ∷ ys) (append-nil xs)

    Change-IsKept :
        (lc lc' : ExpertCache W) (eid : ℤ) (i : ℕ)
        → IsCache load lc
        → IsExpert lc.n_experts eid
        → Distinct (eids lc.slots)
        → lc.n_experts ≤ lc.cap
        → Change load lc eid lc' i
        → IsKept lc lc'
    Change-IsKept lc lc' eid i c x d big (hit e m) = record {
      more = [];
      kept = e ∙ sym (append-nil lc.slots);
      distinct = rw e d;
    }
    Change-IsKept lc lc' eid i c x d big (filled a lt e m) = record {
      more = loaded load eid ∷ [];
      kept = e;
      distinct = rw e (Distinct-append lc.slots (loaded load eid) d a);
    }
    Change-IsKept lc lc' eid i c x d big (evicted a full v e m) =
        absurd (omega (arith, full, room_for lc.n_experts lc.slots eid x c.known d a, big))

    -- A cache of at least as many slots as there are experts, none of them in two slots, evicts
    -- none: `expert_get` returns with every slot as it was, at most one more, and again no expert
    -- in two slots.
    pub expert_get-IsKept :
        (lc : ExpertCache W) (eid : ℤ)
        → IsCache load lc
        → IsExpert lc.n_experts eid
        → Distinct (eids lc.slots)
        → lc.n_experts ≤ lc.cap
        → (r : ExpertCache W × ℕ) × (expert_get load lc eid ≡ some r) × IsKept lc r.0
    expert_get-IsKept lc eid c x d big =
        let (r, e, g) = expert_get-IsGot load lc eid c x in
        (r, e, Change-IsKept lc r.0 eid r.1 c x d big g.change)
