-- ===== src/Shards/File.antt =====
-- `st_index_file` and `st_init_file`: the tensors that the header of a file declares.
use moty.Base.{
  ℕ, suc, ◌+◌, ◌-◌, ◌*◌, ◌%◌, ◌^◌, Bool, false, ◌&&◌, ◌||◌, Option, none, some, List, [], ◌∷◌, ◌++◌,
  length, take, drop, ltb, if◌then◌else◌, ◌>>=◌, bytes_equal, ℤ, pos, negsuc,
}
use moty.Json.Values.{
  Jval, j_obj, Kids, no_kids, kid, Fields, no_fields, field, Got, got, past_end, no_rounds,
  json_parse,
}
use moty.Json.Access.{c_str, same_str, json_get, num, str_of, kids_of}
use moty.Shards.Tensor.{
  StTensor, StShards, Failure, io, format, st_dtype_code, int64_bits, to_int64,
}
use moty.Shards.Index.{st_hash_build}

-- The number that bytes write, the least significant first.
abbrev pub little_endian : List ℕ → ℕ
little_endian [] = 0
little_endian (b ∷ bs) = b + 256 * little_endian bs

-- `data_start + b0 > fsz` on `int64_t`: a sum of `2^63` or more wraps around and is negative.
abbrev pub past_file : ℕ → ℕ → Bool
past_file fsz stop = ltb stop (2 ^ 63) && ltb fsz stop

-- `data_offsets` against the file: where the data starts and how many bytes it has.
abbrev pub place_of : ℕ → ℕ → ℤ → ℤ → Option (ℤ × ℕ)
place_of fsz data_start (pos a0) (pos b0) =
    if ltb b0 a0 || past_file fsz (data_start + b0)
    then none
    else some (to_int64 (data_start + a0), b0 - a0)
place_of fsz data_start (pos a0) (negsuc b0) = none
place_of fsz data_start (negsuc a0) b0 = none

-- The number of a path among those that are open, from `i` on.
abbrev pub fd_from : List (List ℕ) → ℕ → List ℕ → Option ℕ
fd_from [] i path = none
fd_from (p ∷ ps) i path =
    let others = fd_from ps (suc i) path in if bytes_equal p path then some i else others

-- `st_open_fd` on a file that there is.
abbrev pub st_open_fd : StShards → List ℕ → ℕ × StShards
st_open_fd S path = elim (fd_from S.paths 0 path) [
  | some fd ↦ (fd, S)
  | none ↦ (length S.paths, record S { paths = S.paths ++ path ∷ [] })
]

-- What `st_index_file` comes to: the state, a failure, or a read of the header past its NUL.
pub data Indexed : Type 0 where
  indexed : StShards → Indexed
  failed : Failure → Indexed
  unread : Indexed

abbrev pub metadata : List ℕ
metadata = b'_' ∷ b'_' ∷ b'm' ∷ b'e' ∷ b't' ∷ b'a' ∷ b'd' ∷ b'a' ∷ b't' ∷ b'a' ∷ b'_' ∷ b'_' ∷ []

abbrev pub with_tensors : StShards → Option (List StTensor) → Indexed
with_tensors S none = failed format
with_tensors S (some ts) = indexed (record S { t = ts })

abbrev pub with_index : Indexed → Option Indexed
with_index (indexed S) = st_hash_build S >>= λ S'. some (indexed S')
with_index (failed f) = some (failed f)
with_index unread = some unread

-- The conversion of the 64 bits of a `double` to `int64_t`.
module _ (int_of : ℕ → ℤ) where
  -- The product of a shape, on 64 bits.
  abbrev pub numel_from : ℕ → Kids → ℕ
  numel_from n no_kids = n
  numel_from n (kid v ks) = numel_from (n * int64_bits (int_of (num v)) % 2 ^ 64) ks

  abbrev pub tensor_of : List ℕ → ℕ → ℕ → Kids → Option (ℤ × ℕ) → Option ℕ → Option StTensor
  tensor_of name fd fsz shape (some (off, nbytes)) (some dtype) = some (record {
    name = c_str name;
    fd = fd;
    off = off;
    nbytes = nbytes;
    dtype = dtype;
    numel = numel_from 1 shape;
    used = false;
  })
  tensor_of name fd fsz shape none dtype = none
  tensor_of name fd fsz shape (some place) none = none

  -- The three members of a tensor's description, if they have the types they should.
  abbrev pub declared :
      List ℕ → ℕ → ℕ → ℕ → Option (List ℕ) → Option Kids → Option Kids → Option StTensor
  declared name fd fsz data_start (some dt) (some (kid a (kid b more))) (some shape) =
      tensor_of name fd fsz shape (place_of fsz data_start (int_of (num a)) (int_of (num b)))
        (st_dtype_code dt)
  declared name fd fsz data_start dt off shape = none

  -- The body of the loop over the header: `none` where it fails.
  abbrev pub tensor_at : ℕ → ℕ → ℕ → List ℕ → Jval → Option StTensor
  tensor_at fd fsz data_start name m =
      declared name fd fsz data_start
        (str_of (json_get (some m) (b'd' ∷ b't' ∷ b'y' ∷ b'p' ∷ b'e' ∷ [])))
        (kids_of (
          json_get (some m) (
            b'd' ∷ b'a' ∷ b't' ∷ b'a' ∷ b'_' ∷ b'o' ∷ b'f' ∷ b'f' ∷ b's' ∷ b'e' ∷ b't' ∷ b's'
            ∷ [])))
        (kids_of (json_get (some m) (b's' ∷ b'h' ∷ b'a' ∷ b'p' ∷ b'e' ∷ [])))

  -- The loop over the members of the header.
  abbrev pub index_fields : ℕ → ℕ → ℕ → Fields → List StTensor → Option (List StTensor)
  index_fields fd fsz data_start no_fields ts = some ts
  index_fields fd fsz data_start (field name m fs) ts =
      let skipped = index_fields fd fsz data_start fs ts in
      if same_str name metadata
      then skipped
      else tensor_at fd fsz data_start name m >>= λ t.
          index_fields fd fsz data_start fs (ts ++ t ∷ [])

  -- The header, once it is parsed. That the parser runs out of rounds does not occur.
  abbrev pub index_root : ℕ → ℕ → ℕ → StShards → Got Jval → Indexed
  index_root fd fsz data_start S (got (j_obj fs) rest) =
      with_tensors S (index_fields fd fsz data_start fs S.t)
  index_root fd fsz data_start S (got v rest) = failed format
  index_root fd fsz data_start S past_end = unread
  index_root fd fsz data_start S no_rounds = unread

  -- `strtoul` and `strtod` as in the parser.
  module _ (strtoul : List ℕ → ℕ) (strtod : List ℕ → ℕ × ℕ) where
    -- The length of the header is that of its bytes; `ST_MAX_HEADER` bounds it.
    abbrev pub index_header : ℕ → List ℕ → StShards → Indexed
    index_header fd file S =
        let hlen = little_endian (take 8 file) in
        if ltb (length file) 8
        then failed io
        else if ltb (length file - 8) hlen || ltb (512 * 2 ^ 20) hlen
        then failed format
        else index_root fd (length file) (8 + hlen) S
            (json_parse strtoul strtod (c_str (take hlen (drop 8 file))))

    abbrev pub index_opened : StShards → List ℕ → Option (List ℕ) → Indexed
    index_opened S path none = failed io
    index_opened S path (some file) = let o = st_open_fd S path in index_header o.0 file o.1

    -- The files that there are, by path, and their bytes; reads and allocations succeed.
    module _ (files : List ℕ → Option (List ℕ)) where
      -- `st_index_file`
      unfoldable pub st_index_file : StShards → List ℕ → Indexed
      st_index_file S path = index_opened S path (files path)

      -- `st_init_file`: `none` where `st_hash_build` does not end.
      unfoldable pub st_init_file : List ℕ → Option Indexed
      st_init_file path =
          with_index (st_index_file (record { t = []; paths = []; hidx = none }) path)
