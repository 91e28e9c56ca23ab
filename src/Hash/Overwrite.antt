-- ===== src/Hash/Overwrite.antt =====
-- Writing over the entry found for a key, as hm_put of c/tok/tok.h does.
use moty.Base.{
  get_elem?_below, ℕ, zero, suc, ◌≡◌, ◌≢◌, refl, sym, ap, ◌∙◌, inl, inr, ◌⊎◌, Bool, true, false,
  Option, none, some, List, [], ◌∷◌, length, get_elem?, set, if◌then◌else◌, arith, Bool-cases, ◌==◌,
  length-set, get_elem?-set_self, get_elem?-set_ne,
}
use moty.Hash.Mask.{masked}
use moty.Hash.Probe.{Probe, found, free, full}
use moty.Hash.Walk.{Walk, vacant, hit, pass, Walk→probe, Walk-found}
use moty.Hash.Represents.{Agrees, Represents, locate, taken_count}
use moty.Hash.Insert.{found_or_not}

-- The value of a key replaced.
abbrev pub update : {K A : Type 0} → (K → K → Bool) → (A → K) → A → (K → Option A) → K → Option A
update eqb key new m k = if eqb (key new) k then some new else m k

abbrev replace : {A : Type 0} → ℕ → A → Probe A → Probe A
replace p new (found q c) = if q == p then found q new else found q c
replace p new (free i) = free i
replace p new full = full

module _ {A : Type 0} where
  taken_count-replace :
      (xs : List (Option A)) (p : ℕ) (b new : A)
      → get_elem? xs p ≡ some (some b)
      → taken_count (set xs p (some new)) ≡ taken_count xs
  taken_count-replace [] p b new e = refl
  taken_count-replace (none ∷ xs) zero b new e = absurd (ground arith)
  taken_count-replace (some c ∷ xs) zero b new e = refl
  taken_count-replace (none ∷ xs) (suc p) b new e = taken_count-replace xs p b new e
  taken_count-replace (some c ∷ xs) (suc p) b new e = ap suc (taken_count-replace xs p b new e)

  module _ (table : List (Option A)) (p : ℕ) (b new : A)
      (at_p : get_elem? table p ≡ some (some b)) where
    -- A slot of the table written.
    written :
        (h : ℕ) (a : A)
        → get_elem? table h ≡ some (some a)
        → ((h ≡ p) × (a ≡ b) × (get_elem? (set table p (some new)) h ≡ some (some new)))
          ⊎ (((h == p) ≡ false) × (get_elem? (set table p (some new)) h ≡ some (some a)))
    written h a at = elim (Bool-cases (h == p)) [
      | inl e ↦
          let same : h ≡ p = ground arith in
          let there = get_elem?-set_self table p (some new) (get_elem?_below table p at_p) in
          let old = rw same at at in inl (same, ground arith, rw same there)
      | inr e ↦
          let other : p ≢ h = ground arith in
          inr (e, get_elem?-set_ne table p h (some new) other ∙ at)
    ]

    not_vacant : (h : ℕ) → get_elem? table h ≡ some none → p ≢ h
    not_vacant h e same = absurd (let x = rw same at at_p in ground arith)

    pub Walk-replace :
        (fits : A → Bool) (fuel h : ℕ) (r : Probe A)
        → fits new ≡ fits b
        → Walk fits table fuel h r
        → Walk fits (set table p (some new)) fuel h (replace p new r)
    Walk-replace fits zero h r alike w = elim w [ ]
    Walk-replace fits (suc fuel) h r alike (vacant e) =
        vacant (get_elem?-set_ne table p h (some new) (not_vacant h e) ∙ e)
    Walk-replace fits (suc fuel) h r alike (hit {a} e f) = elim (written h a e) [
      | inl (here, same, now) ↦
          let is : (h == p) ≡ true = ground arith in rw is (hit now (alike ∙ rw same at f))
      | inr (ne, now) ↦ rw ne (hit now f)
    ]
    Walk-replace fits (suc fuel) h r alike (pass {a} e f w) = elim (written h a e) [
      | inl (here, same, now) ↦
          pass now (alike ∙ rw same at f)
            (rw (length-set table p (some new)) (Walk-replace fits fuel _ r alike w))
      | inr (ne, now) ↦
          pass now f (rw (length-set table p (some new)) (Walk-replace fits fuel _ r alike w))
    ]

module _ {K A : Type 0} (eqb : K → K → Bool) (key : A → K) (home : K → ℕ)
    (eqb_refl : (k : K) → eqb k k ≡ true) (eqb→≡ : (a b : K) → eqb a b ≡ true → a ≡ b) where
  module _ (table : List (Option A)) (m : K → Option A) (p : ℕ) (b new : A)
      (rep : Represents eqb key home table m)
      (here : locate eqb key home table (key new) ≡ found p b) where
    abbrev fits_key : K → A → Bool
    fits_key k a = eqb (key a) k

    here_walk :
        Walk
          (fits_key (key new))
          table
          (length table)
          (masked (home (key new)) (length table))
          (found p b)
    here_walk = found_or_not (fits_key (key new)) table _ (found p b) here (λ x. ground arith)

    at_p : get_elem? table p ≡ some (some b)
    at_p = (Walk-found (fits_key (key new)) table _ _ p b here_walk).0

    same_key : key b ≡ key new
    same_key = eqb→≡ (key b) (key new) (Walk-found (fits_key (key new)) table _ _ p b here_walk).1

    replaced_case :
        (k : K) (r : Probe A)
        → locate eqb key home table k ≡ r
        → Agrees r (m k)
        → Agrees (replace p new r) (update eqb key new m k)
    replaced_case k (found q c) e agree = elim (Bool-cases (eqb (key new) k)) [
      | inl same ↦
          let is = eqb→≡ (key new) k same in
          let clash = sym e ∙ rw is at here in
          let at : (q == p) ≡ true = ground arith in rw (at, same) refl
      | inr differs ↦ elim (Bool-cases (q == p)) [
        | inl at ↦
            let is : q ≡ p = ground arith in
            let (there, fit) =
              Walk-found (fits_key k) table _ _ q c
                (found_or_not (fits_key k) table _ (found q c) e (λ x. ground arith)) in
            let there_p = rw is at there in
            let both = sym there_p ∙ at_p in
            let alike : c ≡ b = ground arith in
            let fits_b = rw (alike, same_key) at fit in absurd (ground arith)
        | inr apart ↦ rw (apart, differs, agree) refl
      ]
    ]
    replaced_case k (free i) e agree = elim (Bool-cases (eqb (key new) k)) [
      | inl same ↦
          let is = eqb→≡ (key new) k same in
          let clash = rw is at here in absurd (let x = sym e ∙ clash in ground arith)
      | inr differs ↦ rw (differs, agree) refl
    ]
    replaced_case k full e agree = absurd agree

    abbrev replaced : List (Option A)
    replaced = set table p (some new)

    no_full : (k : K) (r : Probe A) → Agrees r (m k) → r ≢ full
    no_full k (found q c) agree x = ground arith
    no_full k (free i) agree x = ground arith
    no_full k full agree x = agree

    find-replaced :
        (k : K) → locate eqb key home replaced k ≡ replace p new (locate eqb key home table k)
    find-replaced k =
        let w = found_or_not (fits_key k) table _ _ refl (no_full k _ (rep.agrees k)) in
        rw (length-set table p (some new)) (
          Walk→probe (fits_key k) replaced (length table) _ _
            (Walk-replace table p b new at_p (fits_key k) _ _ _ (rw same_key refl) w))

    is_some : (x : A) → some x ≢ none
    is_some x e = ground arith

    stored_at :
        (q : ℕ) (a : A) → get_elem? replaced q ≡ some (some a) → update eqb key new m (key a) ≢ none
    stored_at q a at = elim (Bool-cases (eqb (key new) (key a))) [
      | inl same ↦ rw same (is_some new)
      | inr differs ↦ elim (Bool-cases (p == q)) [
        | inl e ↦
            let is : p ≡ q = ground arith in
            let there = get_elem?-set_self table p (some new) (get_elem?_below table p at_p) in
            let here_q = rw is at there in
            let same : a ≡ new = ground arith in
            absurd (let x = rw (same, eqb_refl (key new)) at differs in ground arith)
        | inr e ↦
            let other : p ≢ q = ground arith in
            rw differs (rep.stored q a (sym (get_elem?-set_ne table p q (some new) other) ∙ at))
      ]
    ]

    -- The table then stands for what it stood for, with the new value of the key.
    pub replaced-Represents : Represents eqb key home replaced (update eqb key new m)
    replaced-Represents = record {
      agrees = λ k. rw (find-replaced k) (replaced_case k _ refl (rep.agrees k));
      stored = stored_at;
      spare =
          omega (
            arith,
            rep.spare,
            length-set table p (some new),
            taken_count-replace table p b new at_p,
          );
      pow2 = rw (length-set table p (some new)) rep.pow2;
    }
