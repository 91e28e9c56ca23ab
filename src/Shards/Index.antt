-- ===== src/Shards/Index.antt =====
-- `st_hash_build` and the lookups by name, `st_find_exact`, `st_find` and those that call it.
use moty.Base.{
  ℕ, zero, suc, ◌-◌, Bool, true, false, ◌&&◌, not, Option, none, some, List, [], ◌∷◌, ◌++◌, length,
  take, get_elem?, set, replicate, ltb, leb, ◌==◌, if◌then◌else◌, ◌>>=◌, bytes_equal, ℤ, pos,
  negsuc,
}
use moty.Hash.Mask.{masked}
use moty.Hash.Probe.{Probe, found, free, full, probe_all}
use moty.Hash.Fnv.{fnv}
use moty.Hash.Capacity.{capacity}
use moty.Shards.Tensor.{StTensor, StShards}

-- `S->t[i].name`
abbrev pub name_at : List StTensor → ℕ → List ℕ
name_at [] i = []
name_at (t ∷ ts) zero = t.name
name_at (t ∷ ts) (suc i) = name_at ts i

abbrev pub put_index : List (Option ℕ) → ℕ → Probe ℕ → Option (List (Option ℕ))
put_index hidx i (found h j) = none
put_index hidx i (free h) = some (set hidx h (some i))
put_index hidx i full = none

-- The loop of `st_hash_build` over the tensors left, from number `i` on: each goes to the first free
-- slot of its chain. `none` where the search does not end.
abbrev pub index_from : List StTensor → ℕ → List (Option ℕ) → Option (List (Option ℕ))
index_from [] i hidx = some hidx
index_from (t ∷ ts) i hidx =
    put_index hidx i (probe_all (λ j. false) hidx (masked (fnv t.name) (length hidx)))
    >>= index_from ts (suc i)

-- `st_hash_build`; `none` too where the loop over the capacity does not end.
unfoldable pub st_hash_build : StShards → Option StShards
st_hash_build S = capacity (length S.t) >>= λ cap.
    index_from S.t 0 (replicate cap none) >>= λ hidx. some (record S { hidx = some hidx })

-- The scan in the order of the files, from number `i` on.
abbrev pub scan : List StTensor → ℕ → List ℕ → Option ℕ
scan [] i name = none
scan (t ∷ ts) i name =
    let others = scan ts (suc i) name in if bytes_equal t.name name then some i else others

abbrev pub index_found : Probe ℕ → Option (Option ℕ)
index_found (found h i) = some (some i)
index_found (free h) = some none
index_found full = none

-- `st_find_exact`: the number of a tensor, or `some none` for NULL; `none` where the loop does not
-- end.
unfoldable pub st_find_exact : StShards → List ℕ → Option (Option ℕ)
st_find_exact S name = elim S.hidx [
  | some hidx ↦
      index_found
        (probe_all (λ i. bytes_equal (name_at S.t i) name) hidx (masked (fnv name) (length hidx)))
  | none ↦ some (scan S.t 0 name)
]

-- `model.` and `model.language_model.`
abbrev pub model_prefix : List ℕ
model_prefix = b'm' ∷ b'o' ∷ b'd' ∷ b'e' ∷ b'l' ∷ b'.' ∷ []

abbrev pub language_prefix : List ℕ
language_prefix =
    model_prefix
    ++ b'l' ∷ b'a' ∷ b'n' ∷ b'g' ∷ b'u' ∷ b'a' ∷ b'g' ∷ b'e' ∷ b'_' ∷ b'm' ∷ b'o' ∷ b'd' ∷ b'e'
      ∷ b'l' ∷ b'.' ∷ []

-- What stands behind a prefix, `strncmp(name, prefix, n) == 0`.
abbrev pub behind_prefix : List ℕ → List ℕ → Option (List ℕ)
behind_prefix [] name = some name
behind_prefix (p ∷ ps) [] = none
behind_prefix (p ∷ ps) (c ∷ name) =
    let rest = behind_prefix ps name in if p == c then rest else none

-- The second attempt of `st_find`, for a name with the prefix `model.`; `alt` has 512 bytes.
abbrev pub find_alt : StShards → Option (List ℕ) → Option (Option ℕ)
find_alt S none = some none
find_alt S (some rest) =
    if leb 512 (length (language_prefix ++ rest))
    then some none
    else st_find_exact S (language_prefix ++ rest)

abbrev pub find_next : StShards → List ℕ → Option ℕ → Option (Option ℕ)
find_next S name (some i) = some (some i)
find_next S name none = find_alt S (behind_prefix model_prefix name)

-- `st_find`
unfoldable pub st_find : StShards → List ℕ → Option (Option ℕ)
st_find S name = st_find_exact S name >>= find_next S name

abbrev pub canon_of : List ℕ → ℕ → Option (List ℕ) → List ℕ
canon_of name n none = name
canon_of name n (some rest) = take (n - 1) (model_prefix ++ rest)

-- `st_canon`, with a buffer of `n` bytes, `n` not 0.
unfoldable pub st_canon : List ℕ → ℕ → List ℕ
st_canon name n = canon_of name n (behind_prefix language_prefix name)

-- `st_has`
abbrev pub st_has : StShards → List ℕ → Option Bool
st_has S name = st_find S name >>= λ o. elim o [ none ↦ some false | some i ↦ some true ]

abbrev pub mark_used : List StTensor → ℕ → List StTensor
mark_used [] i = []
mark_used (t ∷ ts) zero = record t { used = true } ∷ ts
mark_used (t ∷ ts) (suc i) = t ∷ mark_used ts i

-- What `st_expect` comes to: the tensor's number, with the state in which it is marked, or a failure.
pub data Expected : Type 0 where
  as_expected : ℕ → StShards → Expected
  missing : Expected
  mismatch : Expected

abbrev pub expect_numel : StShards → ℤ → ℕ → Option StTensor → Expected
expect_numel S expect i none = missing
expect_numel S (negsuc e) i (some t) = as_expected i (record S { t = mark_used S.t i })
expect_numel S (pos e) i (some t) =
    if ltb 0 e && not (t.numel == e)
    then mismatch
    else as_expected i (record S { t = mark_used S.t i })

-- `st_expect`: a number of elements that is not positive asks for the tensor only.
unfoldable pub st_expect : StShards → List ℕ → ℤ → Option Expected
st_expect S name expect = st_find S name >>= λ o. elim o [
  | none ↦ some missing
  | some i ↦ some (expect_numel S expect i (get_elem? S.t i))
]

-- `st_numel`, `st_nbytes` and `st_dtype` read a field of the tensor; -1 if there is none.
abbrev pub st_field : (StTensor → ℤ) → StShards → List ℕ → Option ℤ
st_field read S name = st_find S name >>= λ o. elim o [
  | none ↦ some (negsuc 0)
  | some i ↦ elim (get_elem? S.t i) [ none ↦ some (negsuc 0) | some t ↦ some (read t) ]
]
