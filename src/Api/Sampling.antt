-- ===== src/Api/Sampling.antt =====
-- `moty_sampling_init` and the checks of the parameters of `moty_generate`.
use moty.Base.{
  ℕ, suc, ◌%◌, ◌^◌, ℤ, pos, negsuc, int_eq, Bool, true, false, ◌&&◌, ◌||◌, Option, none, some, List,
  [], ◌∷◌, take, ltb, leb, ◌==◌, if◌then◌else◌,
}
use moty.Api.Types.{Sampling}

-- `x < 0`, `x > 0` and the value of an int that is not negative.
abbrev pub negative : ℤ → Bool
negative (pos a) = false
negative (negsuc a) = true

abbrev pub above_zero : ℤ → Bool
above_zero (pos a) = ltb 0 a
above_zero (negsuc a) = false

abbrev pub value : ℤ → ℕ
value (pos a) = a
value (negsuc a) = 0

-- `x < 0` and `x == 0` for a float: -0 and a NaN are not below 0.
abbrev pub float_negative : ℕ → Bool
float_negative bits = ltb (2 ^ 31) bits && leb bits 0xFF800000

abbrev pub float_zero : ℕ → Bool
float_zero bits = bits == 0 || bits == 2 ^ 31

-- `sizeof(moty_sampling)` and `MOTY_SAMPLING_V1_SIZE`, with pointers of eight bytes.
abbrev pub sampling_size : ℤ
sampling_size = pos 48

abbrev pub sampling_v1_size : ℤ
sampling_v1_size = pos 32

-- `moty_sampling_init`
unfoldable pub sampling_init : Sampling
sampling_init = record {
  size = sampling_size;
  temperature = 0;
  top_p = 0x3F733333;
  seed = 0;
  max_new_tokens = pos 64;
  ignore_eos = false;
  draft = none;
  n_draft = pos 0;
  draft_k = pos 0;
}

-- The caller's parameters: a struct of the first version keeps the defaults of the later fields.
-- `none` for a size that is neither.
unfoldable pub sampling_of : Option Sampling → Option Sampling
sampling_of none = some sampling_init
sampling_of (some sp) =
    if int_eq sp.size sampling_size
    then some sp
    else if int_eq sp.size sampling_v1_size
    then some (record sp { size = sampling_size; draft = none; n_draft = pos 0; draft_k = pos 0 })
    else none

abbrev is_null : Option (List ℤ) → Bool
is_null none = true
is_null (some l) = false

unfoldable pub bad_sampling : Sampling → Bool
bad_sampling s =
    negative s.max_new_tokens
    || float_negative s.temperature
    || negative s.n_draft
    || negative s.draft_k
    || (above_zero s.n_draft && is_null s.draft)

-- The `n` first numbers at a pointer.
abbrev pub numbers_at : Option (List ℤ) → ℤ → List ℤ
numbers_at none n = []
numbers_at (some l) n = take (value n) l

-- `ids[i] < 0 || ids[i] >= V`, for no `i`.
unfoldable pub in_vocab : ℕ → List ℤ → Bool
in_vocab V [] = true
in_vocab V (negsuc a ∷ ids) = false
in_vocab V (pos a ∷ ids) = ltb a V && in_vocab V ids

-- The ids, none of which is negative.
abbrev pub values : List ℤ → List ℕ
values [] = []
values (i ∷ ids) = value i ∷ values ids

-- `n_ph`, if there are embeddings.
unfoldable pub placeholders : ℤ → List ℤ → ℕ
placeholders embed_token [] = 0
placeholders embed_token (i ∷ ids) =
    let more = placeholders embed_token ids in if int_eq i embed_token then suc more else more

-- A sum of ints that are not negative, `> ctx`, as a machine computes it that wraps around.
unfoldable pub exceeds : ℕ → ℕ → Bool
exceeds sum ctx = let w = sum % 2 ^ 32 in ltb w (2 ^ 31) && ltb ctx w
