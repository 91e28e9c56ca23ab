-- ===== src/Hash/Insert.antt =====
-- Filling the first free slot of a chain adds an entry, as hm_put of c/tok/tok.h and st_hash_build
-- of c/io/st.h do; hm_put also writes over the entry of the same key.
use moty.Base.{
  get_elem?_below, ℕ, suc, ◌<◌, ◌≡◌, ◌≢◌, refl, sym, ap, ◌∙◌, inl, inr, ◌⊎◌, Bool, true, false,
  Option, none, some, List, length, get_elem?, set, if◌then◌else◌, arith, Bool-cases, ◌==◌,
  length-set, get_elem?-set_self, get_elem?-set_ne,
}
use mathlib.Core.Path.{subst}
use moty.Hash.Mask.{masked, IsPow2, masked-lt}
use moty.Hash.Probe.{Probe, found, free, full, probe_all}
use moty.Hash.Walk.{
  Walk, Walk→probe, probe→Walk, Walk-found, Walk-free, Walk-set_found, Walk-set_free, Walk-never,
}
use moty.Hash.Ends.{probe_ends}
use moty.Hash.Represents.{
  Agrees, Represents, or_else, insert, locate, free_slot, taken_count, taken_count-set,
}

abbrev slot_of : {A : Type 0} → Probe A → ℕ
slot_of (found p a) = p
slot_of (free i) = i
slot_of full = 0

module _ {A : Type 0} where
  pub found_or_not :
      (fits : A → Bool) (table : List (Option A)) (h : ℕ) (r : Probe A)
      → probe_all fits table h ≡ r
      → r ≢ full
      → Walk fits table (length table) h r
  found_or_not fits table h r e ne = elim (probe→Walk fits table (length table) h) [
    | inl f ↦ absurd (ne (sym e ∙ f))
    | inr w ↦ rw e at w
  ]

  -- A search that finds nothing of the kind it looks for.
  pub not_found :
      (fits : A → Bool) (table : List (Option A)) (h : ℕ)
      → IsPow2 (length table)
      → taken_count table < length table
      → h < length table
      → ((p : ℕ) (a : A) → get_elem? table p ≡ some (some a) → fits a ≢ true)
      → (r : Probe A) → probe_all fits table h ≡ r
      → Agrees r none
  not_found fits table h pow2 spare below none_fits (found p a) e =
      let (at, f) =
        Walk-found fits table _ h p a
          (found_or_not fits table h (found p a) e (λ x. ground arith)) in
      absurd (none_fits p a at f)
  not_found fits table h pow2 spare below none_fits (free i) e = refl
  not_found fits table h pow2 spare below none_fits full e =
      let (j, gap, lt) = free_slot table spare in probe_ends fits table j pow2 h gap lt below e

module _ {K A : Type 0} (eqb : K → K → Bool) (key : A → K) (home : K → ℕ)
    (eqb_refl : (k : K) → eqb k k ≡ true) (eqb→≡ : (a b : K) → eqb a b ≡ true → a ≡ b) where
  module _ (table : List (Option A)) (m : K → Option A) (i : ℕ) (new : A)
      (rep : Represents eqb key home table m) (room : suc (taken_count table) < length table)
      (chain : Walk
        (λ a. false)
        table
        (length table)
        (masked (home (key new)) (length table))
        (free i)) where
    abbrev filled : List (Option A)
    filled = set table i (some new)

    abbrev fits_key : K → A → Bool
    fits_key k a = eqb (key a) k

    gap : get_elem? table i ≡ some none
    gap = Walk-free _ table _ _ i chain

    below : i < length table
    below = get_elem?_below table i gap

    stored-filled :
        (p : ℕ) (a : A)
        → get_elem? filled p ≡ some (some a)
        → (a ≡ new) ⊎ (get_elem? table p ≡ some (some a))
    stored-filled p a at = elim (Bool-cases (i == p)) [
      | inl e ↦
          let same : i ≡ p = ground arith in
          let there = get_elem?-set_self table i (some new) below in
          let here = rw same at there in inl (ground arith)
      | inr e ↦
          let other : i ≢ p = ground arith in
          inr (sym (get_elem?-set_ne table i p (some new) other) ∙ at)
    ]

    spare-filled : taken_count filled < length filled
    spare-filled =
        omega (arith, room, length-set table i (some new), taken_count-set table i new gap)

    IsPow2-filled : IsPow2 (length filled)
    IsPow2-filled = rw (length-set table i (some new)) rep.pow2

    absent-filled :
        (k : K)
        → m k ≡ none
        → eqb (key new) k ≡ false
        → (p : ℕ) (a : A) → get_elem? filled p ≡ some (some a)
        → fits_key k a ≢ true
    absent-filled k without differs p a at fit = elim (stored-filled p a at) [
      | inl e ↦ absurd (let x = rw e at fit in ground arith)
      | inr there ↦ let same = eqb→≡ (key a) k fit in rep.stored p a there (rw same without)
    ]

    -- The searches in the filled table, of which the length is the same.
    find-filled :
        (k : K) (r : Probe A)
        → Walk (fits_key k) filled (length table) (masked (home k) (length table)) r
        → locate eqb key home filled k ≡ r
    find-filled k r w =
        rw (length-set table i (some new)) (Walk→probe (fits_key k) filled (length table) _ r w)

    fresh_at :
        (k : K) (j : ℕ)
        → Walk (fits_key k) table (length table) (masked (home k) (length table)) (free j)
        → m k ≡ none
        → Agrees (locate eqb key home filled k) (if eqb (key new) k then some new else none)
    fresh_at k j w without = elim (Bool-cases (eqb (key new) k)) [
      | inl same ↦
          let here = eqb→≡ (key new) k same in
          let here_chain = rw here at chain in
          let skip = Walk-never (fits_key k) table _ _ j w in
          let slots = sym (Walk→probe _ table _ _ _ here_chain) ∙ Walk→probe _ table _ _ _ skip in
          let at_i =
            subst
              (λ x.
                Walk (fits_key k) table (length table) (masked (home k) (length table)) (free x))
              (sym (ap slot_of slots)) w in
          rw
            (
              same,
              find-filled k (found i new)
                  (Walk-set_free (fits_key k) table i new _ _ below same at_i),
            )
            refl
      | inr differs ↦
          let start = masked-lt (home k) (length filled) IsPow2-filled in
          rw differs (
            not_found (fits_key k) filled (masked (home k) (length filled)) IsPow2-filled
              spare-filled start (absent-filled k without differs) _ refl)
    ]

    inserted_case :
        (k : K) (r : Probe A)
        → locate eqb key home table k ≡ r
        → Agrees r (m k)
        → Agrees (locate eqb key home filled k) (insert eqb key new m k)
    inserted_case k (found p a) e agree =
        let w = found_or_not (fits_key k) table _ (found p a) e (λ x. ground arith) in
        rw (agree, find-filled k _ (Walk-set_found (fits_key k) table i new _ _ p a gap w)) refl
    inserted_case k (free j) e without =
        let w = found_or_not (fits_key k) table _ (free j) e (λ x. ground arith) in
        rw without (fresh_at k j w without)
    inserted_case k full e agree = absurd agree

    not_missing : (o : Option A) (x : A) → or_else o (some x) ≢ none
    not_missing none x e = absurd (ground arith)
    not_missing (some a) x e = absurd (ground arith)

    still_there : (o p : Option A) → o ≢ none → or_else o p ≢ none
    still_there none p h = absurd (h refl)
    still_there (some a) p h = h

    -- The table then stands for what it stood for, with the entry for its key unless there was one.
    pub filled-Represents : Represents eqb key home filled (insert eqb key new m)
    filled-Represents = record {
      agrees = λ k. inserted_case k _ refl (rep.agrees k);
      stored = λ p a at. elim (stored-filled p a at) [
        | inl e ↦ rw (e, eqb_refl (key new)) (not_missing (m (key new)) new)
        | inr there ↦ still_there (m (key a)) _ (rep.stored p a there)
      ];
      spare = spare-filled;
      pow2 = IsPow2-filled;
    }
