-- ===== src/Hash/Empty.antt =====
-- The empty table, `calloc` in c/tok/tok.h and the loop over -1 in c/io/st.h.
use moty.Base.{
  ℕ, zero, suc, ◌+◌, ◌<◌, ◌≡◌, ◌≢◌, refl, Bool, Option, none, some, length, get_elem?, replicate,
  arith, length-replicate,
}
use moty.Hash.Mask.{IsPow2, IsPow2-pos, masked-lt}
use moty.Hash.Represents.{Represents, taken_count}
use moty.Hash.Insert.{not_found}

module _ (A : Type 0) where
  abbrev vacant_slot : Option A
  vacant_slot = none

  no_entry : (n p : ℕ) (a : A) → get_elem? (replicate n none) p ≢ some (some a)
  no_entry zero p a at = ground arith
  no_entry (suc n) zero a at = ground arith
  no_entry (suc n) (suc p) a at = no_entry n p a at

  none_taken : (n : ℕ) → taken_count (replicate n vacant_slot) ≡ 0
  none_taken zero = refl
  none_taken (suc n) = none_taken n

  cap_of : (n : ℕ) → length (replicate n vacant_slot) ≡ n
  cap_of n = length-replicate n _

  pub empty_room :
      (cap entries : ℕ)
      → entries < cap
      → taken_count (replicate cap vacant_slot) + entries < length (replicate cap vacant_slot)
  empty_room cap entries lt = omega (arith, lt, none_taken cap, cap_of cap)

  pub empty-Represents :
      {K : Type 0}
      → (eqb : K → K → Bool) (key : A → K) (home : K → ℕ) (cap : ℕ) → IsPow2 cap
      → Represents eqb key home (replicate cap none) (λ k. none)
  empty-Represents eqb key home cap pow2 =
      let some_slot = IsPow2-pos cap pow2 in
      let there = rw (← cap_of cap) at pow2 in
      record {
        agrees = λ k.
            not_found _ (replicate cap none) _ there
              (omega (arith, some_slot, none_taken cap, cap_of cap)) (masked-lt (home k) _ there)
              (λ p a at. absurd (no_entry cap p a at)) _ refl;
        stored = λ p a at. absurd (no_entry cap p a at);
        spare = omega (arith, some_slot, none_taken cap, cap_of cap);
        pow2 = there;
      }
