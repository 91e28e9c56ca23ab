-- ===== src/Hash/Walk.antt =====
-- A search of c/tok/tok.h and c/io/st.h as the slots it passes, how a write changes it, and that a
-- free slot ends it.
use moty.Base.{
  ℕ, zero, suc, ◌<◌, ◌≡◌, ◌≢◌, refl, ◌∙◌, inl, inr, ◌⊎◌, Bool, true, false, Option, none, some,
  List, length, get_elem?, set, arith, Bool-cases, Option-cases, length-set, get_elem?-set_ne,
  get_elem?-set_self,
}
use moty.Hash.Probe.{Probe, found, free, full, next_slot, probe_at, probe}

module _ {A : Type 0} (fits : A → Bool) where
  -- A search that does not run out, step by step.
  pub data Walk (table : List (Option A)) : ℕ → ℕ → Probe A → Type 0 where
    vacant : {fuel h : ℕ} → get_elem? table h ≡ some none → Walk table (suc fuel) h (free h)
    hit :
        {fuel h : ℕ} {a : A}
        → get_elem? table h ≡ some (some a)
        → fits a ≡ true
        → Walk table (suc fuel) h (found h a)
    pass :
        {fuel h : ℕ} {a : A} {r : Probe A}
        → get_elem? table h ≡ some (some a)
        → fits a ≡ false
        → Walk table fuel (next_slot table h) r
        → Walk table (suc fuel) h r

  pub Walk→probe :
      (table : List (Option A)) (fuel h : ℕ) (r : Probe A)
      → Walk table fuel h r
      → probe fits table fuel h ≡ r
  unfolding probe probe_at
  Walk→probe table zero h r w = elim w [ ]
  Walk→probe table (suc fuel) h r (vacant e) = rw (e, probe_at) refl
  Walk→probe table (suc fuel) h r (hit e f) = rw (e, probe_at, f) refl
  Walk→probe table (suc fuel) h r (pass e f w) = rw (e, probe_at, f) (Walk→probe table fuel _ r w)

  pub probe→Walk :
      (table : List (Option A)) (fuel h : ℕ)
      → (probe fits table fuel h ≡ full) ⊎ Walk table fuel h (probe fits table fuel h)
  unfolding probe probe_at
  probe→Walk table zero h = inl refl
  probe→Walk table (suc fuel) h = elim (Option-cases (get_elem? table h)) [
    | inl out ↦ rw (out, probe_at) (inl refl)
    | inr (none, at) ↦ rw (at, probe_at) (inr (vacant at))
    | inr (some a, at) ↦ elim (Bool-cases (fits a)) [
      | inl f ↦ rw (at, probe_at, f) (inr (hit at f))
      | inr f ↦
          rw (at, probe_at, f)
            (elim (probe→Walk table fuel (next_slot table h)) [
              | inl e ↦ inl e
              | inr w ↦ inr (pass at f w)
            ])
    ]
  ]

  -- An entry found is stored, and fits.
  pub Walk-found :
      (table : List (Option A)) (fuel h p : ℕ) (a : A)
      → Walk table fuel h (found p a)
      → (get_elem? table p ≡ some (some a)) × (fits a ≡ true)
  Walk-found table fuel h p a (hit e f) = (e, f)
  Walk-found table fuel h p a (pass e f w) = Walk-found table _ _ p a w

  pub Walk-free :
      (table : List (Option A)) (fuel h i : ℕ)
      → Walk table fuel h (free i)
      → get_elem? table i ≡ some none
  Walk-free table fuel h i (vacant e) = e
  Walk-free table fuel h i (pass e f w) = Walk-free table _ _ i w

  module _ (table : List (Option A)) (i : ℕ) (new : A) where
    taken_ne :
        (h : ℕ) (a : A) → get_elem? table i ≡ some none → get_elem? table h ≡ some (some a) → i ≢ h
    taken_ne h a gap at same = absurd (let x = rw same at gap in ground arith)

    taken-set :
        (h : ℕ) (a : A)
        → get_elem? table i ≡ some none
        → get_elem? table h ≡ some (some a)
        → get_elem? (set table i (some new)) h ≡ some (some a)
    taken-set h a gap at = get_elem?-set_ne table i h (some new) (taken_ne h a gap at) ∙ at

    pass-set :
        {fuel h : ℕ} {a : A} {r : Probe A}
        → get_elem? table i ≡ some none
        → get_elem? table h ≡ some (some a)
        → fits a ≡ false
        → Walk (set table i (some new)) fuel (next_slot table h) r
        → Walk (set table i (some new)) (suc fuel) h r
    pass-set gap at f w = pass (taken-set _ _ gap at) f (rw (length-set table i (some new)) w)

    -- A write to a free slot loses no entry that was found before.
    pub Walk-set_found :
        (fuel h p : ℕ) (b : A)
        → get_elem? table i ≡ some none
        → Walk table fuel h (found p b)
        → Walk (set table i (some new)) fuel h (found p b)
    Walk-set_found fuel h p b gap (hit e f) = hit (taken-set h b gap e) f
    Walk-set_found fuel h p b gap (pass e f w) = pass-set gap e f (Walk-set_found _ _ p b gap w)

    -- A search that ended at the slot written finds the entry there.
    pub Walk-set_free :
        (fuel h : ℕ)
        → i < length table
        → fits new ≡ true
        → Walk table fuel h (free i)
        → Walk (set table i (some new)) fuel h (found i new)
    Walk-set_free fuel h lt f (vacant e) = hit (get_elem?-set_self table i (some new) lt) f
    Walk-set_free fuel h lt f (pass e g w) =
        pass-set (Walk-free table _ _ i w) e g (Walk-set_free _ _ lt f w)

-- Inserting skips every entry, and ends where a search ended that met no entry to its liking.
pub Walk-never :
    {A : Type 0}
    → (fits : A → Bool) (table : List (Option A)) (fuel h i : ℕ) → Walk fits table fuel h (free i)
    → Walk (λ a. false) table fuel h (free i)
Walk-never fits table fuel h i (vacant e) = vacant e
Walk-never fits table fuel h i (pass e f w) = pass e refl (Walk-never fits table _ _ i w)
