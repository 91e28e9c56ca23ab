-- ===== src/Hash/Represents.antt =====
-- What a table of c/tok/tok.h or c/io/st.h stands for: a partial function from keys to entries.
use moty.Base.{
  ℕ, zero, suc, ◌≤◌, ◌<◌, ◌≡◌, ◌≢◌, refl, ap, Bool, Option, none, some, List, [], ◌∷◌, length,
  get_elem?, set, if◌then◌else◌, arith,
}
use mathlib.Core.Path.{subst}
use moty.Hash.Mask.{masked, IsPow2}
use moty.Hash.Probe.{Probe, found, free, full, probe_all}

-- The result of a search, as the entry or its absence.
abbrev pub Agrees : {A : Type 0} → Probe A → Option A → Type 0
Agrees (found p a) o = o ≡ some a
Agrees (free i) o = o ≡ none
Agrees full o = ⊥

-- How many slots are taken.
abbrev pub taken_count : {A : Type 0} → List (Option A) → ℕ
taken_count [] = 0
taken_count (none ∷ xs) = taken_count xs
taken_count (some a ∷ xs) = suc (taken_count xs)

module _ {A : Type 0} where
  pub taken_count-set :
      (xs : List (Option A)) (i : ℕ) (a : A)
      → get_elem? xs i ≡ some none
      → taken_count (set xs i (some a)) ≡ suc (taken_count xs)
  taken_count-set [] i a e = cc
  taken_count-set (none ∷ xs) zero a e = refl
  taken_count-set (some b ∷ xs) zero a e = absurd (ground arith)
  taken_count-set (none ∷ xs) (suc i) a e = taken_count-set xs i a e
  taken_count-set (some b ∷ xs) (suc i) a e = ap suc (taken_count-set xs i a e)

  -- A write takes one more slot at most.
  pub taken_count-set_le :
      (xs : List (Option A)) (i : ℕ) (a : A)
      → taken_count (set xs i (some a)) ≤ suc (taken_count xs)
  taken_count-set_le [] i a = omega arith
  taken_count-set_le (none ∷ xs) zero a = omega arith
  taken_count-set_le (some b ∷ xs) zero a = omega arith
  taken_count-set_le (none ∷ xs) (suc i) a = taken_count-set_le xs i a
  taken_count-set_le (some b ∷ xs) (suc i) a = omega (arith, taken_count-set_le xs i a)

  pub free_slot :
      (xs : List (Option A))
      → taken_count xs < length xs
      → (j : ℕ) × (get_elem? xs j ≡ some none) × (j < length xs)
  free_slot [] lt = absurd (omega arith)
  free_slot (none ∷ xs) lt = (0, refl, ground arith)
  free_slot (some b ∷ xs) lt =
      let (j, e, below) = free_slot xs (ground arith) in (suc j, e, ground arith)

-- The first entry of a key stays.
abbrev pub or_else : {A : Type 0} → Option A → Option A → Option A
or_else none o = o
or_else (some a) o = some a

abbrev pub insert : {K A : Type 0} → (K → K → Bool) → (A → K) → A → (K → Option A) → K → Option A
insert eqb key new m k = or_else (m k) (if eqb (key new) k then some new else none)

module _ {K A : Type 0} (eqb : K → K → Bool) (key : A → K) (home : K → ℕ) where
  -- The search for a key.
  abbrev pub locate : List (Option A) → K → Probe A
  locate table k = probe_all (λ a. eqb (key a) k) table (masked (home k) (length table))

  pub record Represents (table : List (Option A)) (m : K → Option A) : Type 0 where
    pub agrees : (k : K) → Agrees (locate table k) (m k)
    pub stored : (p : ℕ) (a : A) → get_elem? table p ≡ some (some a) → m (key a) ≢ none
    pub spare : taken_count table < length table
    pub pow2 : IsPow2 (length table)

  pub Represents-same :
      (table : List (Option A)) (m m' : K → Option A)
      → ((k : K) → m k ≡ m' k)
      → Represents table m
      → Represents table m'
  Represents-same table m m' same h = record {
    agrees = λ k. subst (Agrees (locate table k)) (same k) (h.agrees k);
    stored = λ p a at. subst (λ o. o ≢ none) (same (key a)) (h.stored p a at);
    spare = h.spare;
    pow2 = h.pow2;
  }
