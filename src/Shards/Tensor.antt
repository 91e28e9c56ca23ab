-- ===== src/Shards/Tensor.antt =====
-- `st_tensor`, `shards` and the types of elements.
use moty.Base.{
  ℕ, ◌-◌, ◌%◌, ◌^◌, Bool, Option, none, some, List, [], ◌∷◌, ℤ, pos, negsuc, ltb, ◌==◌,
  if◌then◌else◌,
}
use moty.Json.Access.{same_str}

-- `st_tensor`. A file is known by its number in `fds`; `numel` is the 64 bits of an `int64_t`.
pub record StTensor : Type 0 where
  pub name : List ℕ
  pub fd : ℕ
  pub off : ℤ
  pub nbytes : ℕ
  pub dtype : ℕ
  pub numel : ℕ
  pub used : Bool

-- `shards`, without the mappings: the tensors, the paths of the open files, and the hash index with
-- `none` for a free slot, or NULL.
pub record StShards : Type 0 where
  pub t : List StTensor
  pub paths : List (List ℕ)
  pub hidx : Option (List (Option ℕ))

-- What `moty_fail_code` is called with.
pub data Failure : Type 0 where
  io : Failure
  format : Failure

-- `st_dtype_code`: `none` where it fails.
abbrev pub st_dtype_code : List ℕ → Option ℕ
st_dtype_code s =
    if same_str s (b'B' ∷ b'F' ∷ b'1' ∷ b'6' ∷ [])
    then some 0
    else if same_str s (b'F' ∷ b'1' ∷ b'6' ∷ [])
    then some 1
    else if same_str s (b'F' ∷ b'3' ∷ b'2' ∷ [])
    then some 2
    else if same_str s (b'U' ∷ b'8' ∷ [])
    then some 3
    else (if same_str s (b'I' ∷ b'8' ∷ []) then some 3 else none)

-- `st_qblock`: how many elements a block has, and in how many bytes.
abbrev pub st_qblock : ℕ → Option (ℕ × ℕ)
st_qblock dtype =
    if dtype == 4
    then some (32, 34)
    else if dtype == 5
    then some (32, 18)
    else if dtype == 6
    then some (256, 144)
    else (if dtype == 7 then some (256, 176) else (if dtype == 8 then some (256, 210) else none))

-- The 64 bits of a number, and the `int64_t` of 64 bits.
abbrev pub int64_bits : ℤ → ℕ
int64_bits (pos n) = n % 2 ^ 64
int64_bits (negsuc n) = 2 ^ 64 - 1 - n % 2 ^ 64

abbrev pub to_int64 : ℕ → ℤ
to_int64 n = if ltb n (2 ^ 63) then pos n else negsuc (2 ^ 64 - 1 - n)
