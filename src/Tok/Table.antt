-- ===== src/Tok/Table.antt =====
-- `Tok`: the tables of a tokenizer, once it is loaded.
use moty.Base.{ℕ, Bool, Option, List}

-- `Special`
pub record Special : Type 0 where
  pub str : List ℕ
  pub id : ℕ

-- `Tok`. A string is the list of its bytes. The maps are functions: `hm_get` on `vocab` and on
-- `merges`, whose keys are the left part, a NUL and the right part, with `none` for -1; `id2str` is
-- `none` for an id out of range or without a string. `sentencepiece` is `mode == 1`.
pub record Tok : Type 0 where
  pub vocab : List ℕ → Option ℕ
  pub merges : List ℕ → Option ℕ
  pub id2str : ℕ → Option (List ℕ)
  pub id_added : ℕ → Bool
  pub specials : List Special
  pub sentencepiece : Bool
  pub add_dummy_prefix : Bool
  pub digit_presplit : Bool
  pub byte_tok : ℕ → Option ℕ
  pub id2byte : ℕ → Option ℕ
