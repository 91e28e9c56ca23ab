-- ===== src/Shards/Tests.antt =====
-- A file of c/io/st.h with one tensor, of two bytes.
use moty.Base.{
  ℕ, ◌+◌, ◌-◌, ◌*◌, ◌≡◌, refl, Option, none, some, bytes_equal, List, [], ◌∷◌, ◌++◌, pos, arith,
  false,
}
use moty.Hash.Probe.{probe, probe_at}
use moty.Hash.Fnv.{fnv}
use moty.Hash.Capacity.{capacity, grown_cap}
use moty.Json.Strings.{parse_str_raw, str_loop}
use moty.Json.Values.{
  parse_val, json_parse, dispatch, scalar, bracketed, array_items, object_members, keyed,
  after_value, behind_value, skip_byte, skip_white,
}
use moty.Shards.Tensor.{StTensor, StShards}
use moty.Shards.Index.{language_prefix, st_hash_build, st_find_exact, st_find, st_canon}
use moty.Shards.File.{Indexed, indexed, st_index_file, st_init_file}
use moty.Shards.Find.{st_find_exact-st_hash_build}
use moty.Shards.Canon.{st_find-st_canon}
use moty.Shards.Opened.{AllPlacedIn, st_index_file-AllPlacedIn, Served, st_init_file-Served}

abbrev w_header : List ℕ
w_header =
    b'{' ∷ b'"' ∷ b'w' ∷ b'"' ∷ b':' ∷ b'{' ∷ b'"' ∷ b'd' ∷ b't' ∷ b'y' ∷ b'p' ∷ b'e' ∷ b'"' ∷ b':'
    ∷ b'"' ∷ b'U' ∷ b'8' ∷ b'"' ∷ b',' ∷ b'"' ∷ b'd' ∷ b'a' ∷ b't' ∷ b'a' ∷ b'_' ∷ b'o' ∷ b'f'
    ∷ b'f' ∷ b's' ∷ b'e' ∷ b't' ∷ b's' ∷ b'"' ∷ b':' ∷ b'[' ∷ b'0' ∷ b',' ∷ b'2' ∷ b']' ∷ b','
    ∷ b'"' ∷ b's' ∷ b'h' ∷ b'a' ∷ b'p' ∷ b'e' ∷ b'"' ∷ b':' ∷ b'[' ∷ b'2' ∷ b']' ∷ b'}' ∷ b'}' ∷ []

-- Its length is 53.
abbrev w_file : List ℕ
w_file = 53 ∷ 0 ∷ 0 ∷ 0 ∷ 0 ∷ 0 ∷ 0 ∷ 0 ∷ [] ++ (w_header ++ 5 ∷ 6 ∷ [])

-- `strtoul` and `strtod` on digits.
abbrev hex_value : List ℕ → ℕ
hex_value s = go s 0
  where
    go : List ℕ → ℕ → ℕ
    go [] acc = acc
    go (d ∷ ds) acc = go ds (acc * 16 + (d - b'0'))

abbrev one_digit : List ℕ → ℕ × ℕ
one_digit [] = (0, 0)
one_digit (c ∷ s) = (c - b'0', 1)

abbrev one_file : List ℕ → Option (List ℕ)
one_file path = some w_file

abbrev w_tensor : StTensor
w_tensor = record {
  name = b'w' ∷ [];
  fd = 0;
  off = pos 61;
  nbytes = 2;
  dtype = 3;
  numel = 2;
  used = false;
}

abbrev w_shards : StShards
w_shards = record { t = w_tensor ∷ []; paths = (b'p' ∷ []) ∷ []; hidx = some (some 0 ∷ none ∷ []) }

w_opened : st_init_file pos hex_value one_digit one_file (b'p' ∷ []) ≡ some (indexed w_shards)
unfolding st_init_file st_index_file json_parse parse_val dispatch scalar bracketed array_items
    object_members keyed after_value behind_value skip_byte skip_white parse_str_raw str_loop
    st_hash_build capacity grown_cap fnv probe probe_at bytes_equal
w_opened = refl

st_init_file-Served_example :
    (r : Indexed) × (st_init_file pos hex_value one_digit one_file (b'p' ∷ []) ≡ some r)
    × Served pos hex_value one_digit one_file r
st_init_file-Served_example = st_init_file-Served pos hex_value one_digit one_file (b'p' ∷ [])

-- A tensor under the longer prefix, looked up by the name that an engine has for it.
abbrev x_tensor : StTensor
x_tensor = record w_tensor { name = language_prefix ++ b'x' ∷ [] }

st_find-st_canon_example :
    st_find
      (record w_shards { t = x_tensor ∷ []; hidx = none })
      (st_canon (language_prefix ++ b'x' ∷ []) 256)
    ≡ some (some 0)
unfolding st_find_exact bytes_equal
st_find-st_canon_example =
    st_find-st_canon (record w_shards { t = x_tensor ∷ []; hidx = none }) (b'x' ∷ []) 256 0 refl
      refl (omega arith) (omega arith)

-- A second tensor of the same name.
abbrev two_shards : StShards
two_shards = record w_shards { t = w_tensor ∷ w_tensor ∷ []; hidx = none }

st_find_exact-st_hash_build_example :
    (slots : List (Option ℕ)) × (st_hash_build two_shards
      ≡ some (record two_shards { hidx = some slots }))
    × ((name : List ℕ)
        → st_find_exact (record two_shards { hidx = some slots }) name
          ≡ st_find_exact (record two_shards { hidx = none }) name)
st_find_exact-st_hash_build_example = st_find_exact-st_hash_build two_shards (omega arith)

st_index_file-AllPlacedIn_example : AllPlacedIn pos hex_value one_digit one_file (
    st_index_file pos hex_value one_digit one_file
      (record { t = []; paths = []; hidx = none })
      (b'q' ∷ []))
st_index_file-AllPlacedIn_example =
    st_index_file-AllPlacedIn pos hex_value one_digit one_file
      (record { t = []; paths = []; hidx = none }) (b'q' ∷ []) tt
