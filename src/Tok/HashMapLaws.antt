-- ===== src/Tok/HashMapLaws.antt =====
-- A map of c/tok/tok.h that is filled with fewer pairs than it has slots: every loop ends, and the
-- value read is the last one written.
use moty.Base.{
  ℕ, suc, ◌+◌, ◌≤◌, ◌<◌, ◌≡◌, refl, sym, inl, inr, Option, none, some, List, [], ◌∷◌, length, ℤ,
  negsuc, ◌>>=◌, if◌then◌else◌, arith, Bool-cases, bytes_equal, bytes_equal→≡, bytes_equal_refl,
  length-set,
}
use moty.Hash.Mask.{IsPow2}
use moty.Hash.Fnv.{fnv}
use moty.Hash.Probe.{Probe, found, free, full}
use moty.Hash.Walk.{Walk-never}
use moty.Hash.Represents.{
  Agrees, Represents, or_else, insert, taken_count, taken_count-set_le, Represents-same,
}
use moty.Hash.Insert.{filled-Represents, found_or_not}
use moty.Hash.Empty.{empty-Represents, empty_room}
use moty.Hash.Overwrite.{update, replaced-Represents}
use moty.Tok.HashMap.{Ment, Hmap, hm_init, hm_search, put_at, hm_put, get_at, hm_get, hm_puts}

abbrev Stands : Hmap → (List ℕ → Option Ment) → Type 0
Stands = Represents bytes_equal (λ e. e.k) fnv

-- The value of a key after the pairs, from left to right.
abbrev pub last_put : List (List ℕ × ℤ) → List ℕ → ℤ → ℤ
last_put [] k before = before
last_put ((k', v) ∷ kvs) k before = last_put kvs k (if bytes_equal k' k then v else before)

abbrev value_or_missing : Option Ment → ℤ
value_or_missing none = negsuc 0
value_or_missing (some e) = e.v

or_else-none : (o : Option Ment) → or_else o none ≡ o
or_else-none none = refl
or_else-none (some a) = refl

inserted-update :
    (e : Ment) (m : List ℕ → Option Ment) (k : List ℕ)
    → m e.k ≡ none
    → insert bytes_equal (λ e. e.k) e m k ≡ update bytes_equal (λ e. e.k) e m k
inserted-update e m k without = elim (Bool-cases (bytes_equal e.k k)) [
  | inl same ↦
      let here = bytes_equal→≡ e.k k same in let gone = rw here at without in rw (same, gone) refl
  | inr differs ↦ rw (differs, or_else-none (m k)) refl
]

-- What a put leaves: the new map, which stands for the updated function and has one more entry at
-- most.
abbrev Put : Hmap → (List ℕ → Option Ment) → Ment → Option Hmap → Type 0
Put t m e none = ⊥
Put t m e (some t') =
    Stands t' (update bytes_equal (λ e. e.k) e m)
    × (taken_count t' ≤ suc (taken_count t))
    × (length t' ≡ length t)

module _ (t : Hmap) (m : List ℕ → Option Ment) (e : Ment) (h : Stands t m)
    (room : suc (taken_count t) < length t) where
  probe_case :
      (r : Probe Ment) → hm_search t e.k ≡ r → Agrees r (m e.k) → Put t m e (put_at t e.k e.v r)
  probe_case (found p b) at agree = (
    replaced-Represents bytes_equal (λ e. e.k) fnv bytes_equal_refl bytes_equal→≡ t m p b e h at,
    taken_count-set_le t p e,
    length-set t p (some e),
  )
  probe_case (free i) at without =
      let w = found_or_not (λ b. bytes_equal b.k e.k) t _ (free i) at (λ x. ground arith) in
      let skip = Walk-never _ t _ _ i w in
      (
        Represents-same bytes_equal (λ e. e.k) fnv _ _ _ (λ k. inserted-update e m k without)
            (filled-Represents bytes_equal (λ e. e.k) fnv bytes_equal_refl bytes_equal→≡ t m i e h
              room skip),
        taken_count-set_le t i e,
        length-set t i (some e),
      )
  probe_case full at agree = absurd agree

  entry_stored : Put t m e (hm_put t e.k e.v)
  unfolding hm_put
  entry_stored = probe_case _ refl (h.agrees e.k)

module _ where
  read_case : (o : Option Ment) (r : Probe Ment) → Agrees r o → get_at r ≡ some (value_or_missing o)
  read_case o (found p a) agree = rw agree refl
  read_case o (free i) agree = rw agree refl
  read_case o full agree = absurd agree

  read_back :
      (t : Hmap) (m : List ℕ → Option Ment) (k : List ℕ)
      → Stands t m
      → hm_get t k ≡ some (value_or_missing (m k))
  unfolding hm_get
  read_back t m k h = read_case (m k) _ (h.agrees k)

  value-update :
      (m : List ℕ → Option Ment) (e : Ment) (k : List ℕ)
      → value_or_missing (update bytes_equal (λ e. e.k) e m k)
        ≡ (if bytes_equal e.k k then e.v else value_or_missing (m k))
  value-update m e k = elim (Bool-cases (bytes_equal e.k k)) [
    | inl same ↦ rw same refl
    | inr differs ↦ rw differs refl
  ]

  abbrev Filled : List (List ℕ × ℤ) → (List ℕ → ℤ) → Option Hmap → Type 0
  Filled kvs before o =
      (t : Hmap) × (o ≡ some t) × ((k : List ℕ) → hm_get t k ≡ some (last_put kvs k (before k)))

  -- The pairs left, whichever map the first put leaves.
  fill_on :
      (kvs : List (List ℕ × ℤ)) (t : Hmap) (m : List ℕ → Option Ment) (e : Ment) (o : Option Hmap)
      → taken_count t + suc (length kvs) < length t
      → ((t' : Hmap) (m' : List ℕ → Option Ment)
          → Stands t' m'
          → taken_count t' + length kvs < length t'
          → Filled kvs (λ k. value_or_missing (m' k)) (hm_puts kvs t'))
      → Put t m e o
      → Filled ((e.k, e.v) ∷ kvs) (λ k. value_or_missing (m k)) (o >>= hm_puts kvs)
  fill_on kvs t m e none room others put = absurd put
  fill_on kvs t m e (some t') room others put =
      let (t'', done, reads) = others t' _ put.0 (omega (arith, room, put.1, put.2)) in
      (t'', done, λ k. rw (sym (value-update m e k)) (reads k))

  fill_up :
      (kvs : List (List ℕ × ℤ)) (t : Hmap) (m : List ℕ → Option Ment)
      → Stands t m
      → taken_count t + length kvs < length t
      → Filled kvs (λ k. value_or_missing (m k)) (hm_puts kvs t)
  unfolding hm_puts
  fill_up [] t m h room = (t, refl, λ k. read_back t m k h)
  fill_up ((k, v) ∷ kvs) t m h room =
      fill_on kvs t m (record { k = k; v = v }) _ room (fill_up kvs)
        (entry_stored t m _ h (omega (arith, room)))

  -- Filling an empty map, of which the slots are a power of 2 and more than the pairs, every loop
  -- ends, and so does every read afterwards: the value is the last one given for the key, and -1 for
  -- a key that is not among them.
  pub hm_get-hm_puts :
      (cap : ℕ) (kvs : List (List ℕ × ℤ))
      → IsPow2 cap
      → length kvs < cap
      → (t : Hmap) × (hm_puts kvs (hm_init cap) ≡ some t)
        × ((k : List ℕ) → hm_get t k ≡ some (last_put kvs k (negsuc 0)))
  hm_get-hm_puts cap kvs pow2 room =
      fill_up kvs (hm_init cap) (λ k. none) (empty-Represents _ bytes_equal (λ e. e.k) fnv cap pow2)
        (empty_room _ cap (length kvs) room)
