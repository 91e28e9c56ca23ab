-- ===== src/Shards/Canon.antt =====
-- `st_canon` and `st_find` of c/io/st.h: the name that an engine has for a tensor finds it.
use moty.Base.{ℕ, ◌-◌, ◌<◌, ◌≡◌, false, none, some, List, ◌++◌, length, take, leb, take_all, arith}
use moty.Shards.Tensor.{StShards}
use moty.Shards.Index.{model_prefix, language_prefix, st_find_exact, st_find, st_canon}

-- A tensor under `model.language_model.`, whose name fits the 512 bytes of the second attempt, is
-- found by its canonical name, in a buffer that holds that, unless there is a tensor of that name.
pub st_find-st_canon :
    (S : StShards) (rest : List ℕ) (n i : ℕ)
    → st_find_exact S (language_prefix ++ rest) ≡ some (some i)
    → st_find_exact S (model_prefix ++ rest) ≡ some none
    → length (language_prefix ++ rest) < 512
    → length (model_prefix ++ rest) < n
    → st_find S (st_canon (language_prefix ++ rest) n) ≡ some (some i)
unfolding st_find st_canon
st_find-st_canon S rest n i there absent short fits =
    let whole : take (n - 1) (model_prefix ++ rest) ≡ model_prefix ++ rest =
      take_all (n - 1) (model_prefix ++ rest) (omega arith) in
    let room : leb 512 (length (language_prefix ++ rest)) ≡ false = ground arith in
    rw (whole, absent, room) there
