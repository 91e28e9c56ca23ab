-- ===== src/Shards/Find.antt =====
-- The hash index of c/io/st.h finds what the scan finds.
use moty.Base.{
  ℕ, suc, ◌+◌, ◌^◌, ◌<◌, ◌≤◌, ◌≡◌, refl, sym, ap, ◌∙◌, Bool, true, false, Option, none, some, List,
  [], ◌∷◌, length, replicate, if◌then◌else◌, ◌>>=◌, arith, bytes_equal, bytes_equal→≡,
  bytes_equal_refl, length-set,
}
use moty.Hash.Mask.{masked, masked-lt}
use moty.Hash.Fnv.{fnv}
use moty.Hash.Probe.{Probe, found, free, full, probe_all}
use moty.Hash.Walk.{Walk-found}
use moty.Hash.Ends.{probe_ends}
use moty.Hash.Represents.{
  Agrees, Represents, or_else, insert, taken_count, taken_count-set_le, Represents-same, free_slot,
}
use moty.Hash.Insert.{filled-Represents, found_or_not}
use moty.Hash.Empty.{empty-Represents, empty_room}
use moty.Hash.Capacity.{capacity_enough}
use moty.Shards.Tensor.{StTensor, StShards}
use moty.Shards.Index.{
  name_at, put_index, index_from, st_hash_build, scan, index_found, st_find_exact,
}

or_else_assoc : (a b c : Option ℕ) → or_else (or_else a b) c ≡ or_else a (or_else b c)
or_else_assoc none b c = refl
or_else_assoc (some x) b c = refl

scan_step :
    (b : Bool) (i : ℕ) (o : Option ℕ)
    → or_else (if b then some i else none) o ≡ (if b then some i else o)
scan_step true i o = refl
scan_step false i o = refl

or_else-none : (o : Option ℕ) → or_else o none ≡ o
or_else-none none = refl
or_else-none (some x) = refl

found_scan : (o : Option ℕ) (r : Probe ℕ) → Agrees r o → index_found r ≡ some o
found_scan o (found h i) agree = rw agree refl
found_scan o (free h) agree = rw agree refl
found_scan o full agree = absurd agree

module _ (ts : List StTensor) where
  -- The index stands for a function from names to numbers.
  abbrev IndexOf : List (Option ℕ) → (List ℕ → Option ℕ) → Type 0
  IndexOf = Represents bytes_equal (name_at ts) fnv

  -- The part of the tensors from a number on.
  abbrev From : ℕ → List StTensor → Type 0
  From i rest = (j : ℕ) → name_at ts (i + j) ≡ name_at rest j

  scan_after :
      (i : ℕ) (t : StTensor) (rest : List StTensor) (m : List ℕ → Option ℕ) (k : List ℕ)
      → name_at ts i ≡ t.name
      → or_else (insert bytes_equal (name_at ts) i m k) (scan rest (suc i) k)
        ≡ or_else (m k) (scan (t ∷ rest) i k)
  scan_after i t rest m k named =
      or_else_assoc (m k) _ _
      ∙ ap (or_else (m k)) (rw named (scan_step (bytes_equal t.name k) i (scan rest (suc i) k)))

  -- What the loop leaves, from a state on.
  abbrev IndexLeft : List StTensor → ℕ → (List ℕ → Option ℕ) → Option (List (Option ℕ)) → Type 0
  IndexLeft rest i m o =
      (hidx : List (Option ℕ)) × (o ≡ some hidx) × IndexOf hidx (λ k. or_else (m k) (scan rest i k))

  put_left :
      (t : StTensor) (rest : List StTensor) (i : ℕ) (hidx : List (Option ℕ)) (m : List ℕ → Option ℕ)
      (r : Probe ℕ)
      → IndexOf hidx m
      → taken_count hidx + suc (length rest) < length hidx
      → name_at ts i ≡ t.name
      → ((hidx' : List (Option ℕ)) (m' : List ℕ → Option ℕ)
          → IndexOf hidx' m'
          → taken_count hidx' + length rest < length hidx'
          → IndexLeft rest (suc i) m' (index_from rest (suc i) hidx'))
      → probe_all (λ j. false) hidx (masked (fnv t.name) (length hidx)) ≡ r
      → IndexLeft (t ∷ rest) i m (put_index hidx i r >>= index_from rest (suc i))
  put_left t rest i hidx m (found h j) rep room named others at = absurd (
      let (there, f) = Walk-found _ hidx _ _ h j (found_or_not _ hidx _ _ at (λ x. ground arith)) in
      ground arith)
  put_left t rest i hidx m (free h) rep room named others at =
      let chain = found_or_not (λ j. false) hidx _ (free h) at (λ x. ground arith) in
      let chain_i = rw (sym named) at chain in
      let next =
        filled-Represents bytes_equal (name_at ts) fnv bytes_equal_refl bytes_equal→≡ hidx m h i rep
          (omega (arith, room)) chain_i in
      let (table, done, final) =
        others _ _ next
          (omega (arith, room, taken_count-set_le hidx h i, length-set hidx h (some i))) in
      (
        table,
        done,
        Represents-same bytes_equal (name_at ts) fnv table _ _ (λ k. scan_after i t rest m k named)
            final,
      )
  put_left t rest i hidx m full rep room named others at =
      let (j, gap, lt) = free_slot hidx rep.spare in
      absurd
        (probe_ends (λ j. false) hidx j rep.pow2 _ gap lt (masked-lt (fnv t.name) _ rep.pow2) at)

  first_name :
      (t : StTensor) (rest : List StTensor) (i : ℕ) → From i (t ∷ rest) → name_at ts i ≡ t.name
  first_name t rest i from = let at = from 0 in let e : i + 0 ≡ i = omega arith in rw e at at

  next_names : (t : StTensor) (rest : List StTensor) (i : ℕ) → From i (t ∷ rest) → From (suc i) rest
  next_names t rest i from j =
      let at = from (suc j) in let e : i + suc j ≡ suc i + j = omega arith in rw e at at

  index_all :
      (rest : List StTensor) (i : ℕ) (hidx : List (Option ℕ)) (m : List ℕ → Option ℕ)
      → From i rest
      → IndexOf hidx m
      → taken_count hidx + length rest < length hidx
      → IndexLeft rest i m (index_from rest i hidx)
  index_all [] i hidx m from rep room = (
    hidx,
    refl,
    Represents-same bytes_equal (name_at ts) fnv hidx _ _ (λ k. sym (or_else-none (m k))) rep,
  )
  index_all (t ∷ rest) i hidx m from rep room =
      put_left t rest i hidx m _ rep room (first_name t rest i from)
        (λ hidx' m' rep' room'.
          index_all rest (suc i) hidx' m' (next_names t rest i from) rep' room')
        refl

-- Building the index of at most 2^29 tensors ends, and every lookup through it ends and finds what
-- the scan through the tensors finds, the first of that name or NULL.
pub st_find_exact-st_hash_build :
    (S : StShards)
    → length S.t ≤ 2 ^ 29
    → (slots : List (Option ℕ)) × (st_hash_build S ≡ some (record S { hidx = some slots }))
      × ((name : List ℕ)
          → st_find_exact (record S { hidx = some slots }) name
            ≡ st_find_exact (record S { hidx = none }) name)
unfolding st_hash_build st_find_exact
st_find_exact-st_hash_build S few =
    let (cap, sized, room, pow2) = capacity_enough (length S.t) few in
    let (slots, done, rep) =
      index_all S.t S.t 0 (replicate cap none) (λ k. none) (λ j. ap (name_at S.t) (omega arith))
        (empty-Represents _ bytes_equal (name_at S.t) fnv cap pow2)
        (empty_room _ cap (length S.t) room) in
    (slots, rw sized (rw done refl), λ name. found_scan (scan S.t 0 name) _ (rep.agrees name))
