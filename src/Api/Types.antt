-- ===== src/Api/Types.antt =====
-- The types of c/api/moty.h and of c/runtime/engine_api.h, and the state of a handle.
use moty.Base.{ℕ, ℤ, Bool, Option, List}

-- `moty_status`
pub data Status : Type 0 where
  ok : Status
  err_arg : Status
  err_io : Status
  err_format : Status
  err_oom : Status
  err_context : Status
  err_aborted : Status
  err_unsupported : Status

-- The codes of a failure, `MOTY_FAIL_*`.
pub data FailCode : Type 0 where
  fail_generic : FailCode
  fail_io : FailCode
  fail_oom : FailCode
  fail_format : FailCode

unfoldable pub status_of : FailCode → Status
status_of fail_io = err_io
status_of fail_oom = err_oom
status_of fail_format = err_format
status_of fail_generic = err_format

-- `MOTY_STOP_*`
pub data Stop : Type 0 where
  stop_length : Stop
  stop_eos : Stop
  stop_callback : Stop
  stop_abort : Stop

-- What a call under a trap comes to: it returns, or it fails and the trap is sprung.
pub data Result (A : Type 0) : Type 0 where
  returned : A → Result A
  trapped : FailCode → Result A

-- `moty_sampling`. A float is its 32 bits; the pointer `draft` is `none` for NULL, else what stands
-- there.
pub record Sampling : Type 0 where
  pub size : ℤ
  pub temperature : ℕ
  pub top_p : ℕ
  pub seed : ℕ
  pub max_new_tokens : ℤ
  pub ignore_eos : Bool
  pub draft : Option (List ℤ)
  pub n_draft : ℤ
  pub draft_k : ℤ

-- `MotyEngineOps`, the sampler and what other threads do. `E` is the state of the instance and of the
-- sampler, `U` that of the caller, who may raise the abort flag at any time; `L` is a row of logits
-- and `X` are the caller's rows. `verify` gives the rows of all positions; `can_verify` is false for
-- a NULL operation. `sampled` writes the sampler's globals and `pick` is `moty_pick_tok`.
pub record Engine (E U L X : Type 0) : Type 0 where
  pub vocab : E → ℕ
  pub ctx : E → ℕ
  pub is_stop : E → ℕ → Bool
  pub piece : E → ℕ → List ℕ
  pub prefill : E → U → List ℕ → ℕ → Option X → ℤ → ℤ → Result (Option L) × E × U
  pub step : E → ℕ → ℕ → Result L × E
  pub can_verify : Bool
  pub verify : E → List ℤ → ℕ → Result (Option (ℕ → L)) × E
  pub reset : E → E
  pub sampled : E → Sampling → E
  pub pick : E → L → Result ℕ × E
  pub load_abort : U → Bool × U

-- `moty_token_cb`, with the caller's state.
abbrev pub Callback : Type 0 → Type 0
Callback U = Option (U → ℕ → List ℕ → Bool × U)

-- `moty_model`, between calls. `pending` is `none` for -1.
pub record Model (E : Type 0) : Type 0 where
  pub e : E
  pub n_past : ℕ
  pub pending : Option ℕ

-- `moty_stats`, without the times.
pub record Stats : Type 0 where
  pub prompt_tokens : ℕ
  pub new_tokens : ℕ
  pub stop : Stop

-- `moty_model` and the caller during a call; `gen` is `none` for NULL.
pub record Turn (E U : Type 0) : Type 0 where
  pub e : E
  pub u : U
  pub n_past : ℕ
  pub pending : Option ℕ
  pub new_tokens : ℕ
  pub stop : Stop
  pub gen : Option (List ℕ)
