-- ===== src/Api/Open.antt =====
-- `moty_model_open_with` and `moty_model_close`: the options, the choice of an engine, and what a
-- failure leaves.
use moty.Base.{
  ℕ, ℤ, pos, int_eq, Bool, not, ◌&&◌, ◌||◌, Option, none, some, List, [], ◌∷◌, take, if◌then◌else◌,
}
use moty.Api.Types.{
  Status, err_arg, err_io, err_format, err_oom, err_unsupported, Result, returned, trapped,
  status_of,
}
use moty.Api.Sampling.{negative}

-- `moty_options`
pub record Options : Type 0 where
  pub size : ℤ
  pub threads : ℤ
  pub threads_decode : ℤ
  pub ctx : ℤ
  pub qbits : ℤ
  pub kv_bits : ℤ
  pub embed_disk : ℤ
  pub head_topk : ℤ
  pub prefill_chunk : ℤ
  pub log_level : ℤ
  pub pool_spin_us : ℤ
  pub pin_threads : ℤ
  pub mmap_weights : ℤ

-- `sizeof(moty_options)` and `MOTY_OPTIONS_V1_SIZE`, with ints of four bytes.
abbrev pub options_size : ℤ
options_size = pos 52

abbrev pub options_v1_size : ℤ
options_v1_size = pos 48

-- `moty_options_init`
unfoldable pub options_init : Options
options_init = record {
  size = options_size;
  threads = pos 0;
  threads_decode = pos 0;
  ctx = pos 0;
  qbits = pos 4;
  kv_bits = pos 0;
  embed_disk = pos 0;
  head_topk = pos 0;
  prefill_chunk = pos 64;
  log_level = pos 1;
  pool_spin_us = pos 1000;
  pin_threads = pos 1;
  mmap_weights = pos 1;
}

-- The caller's options: a struct of the first version keeps the default of `mmap_weights`. `none` for
-- a size that is neither.
unfoldable pub options_of : Option Options → Option Options
options_of none = some options_init
options_of (some o) =
    if int_eq o.size options_size
    then some o
    else if int_eq o.size options_v1_size
    then some (record o { size = options_size; mmap_weights = pos 1 })
    else none

abbrev pub is_one_of : ℤ → ℤ → ℤ → Bool
is_one_of a b x = int_eq x a || int_eq x b

unfoldable pub good_options : Options → Bool
good_options o =
    is_one_of (pos 4) (pos 8) o.qbits
    && is_one_of (pos 0) (pos 8) o.kv_bits
    && (is_one_of (pos 0) (pos 1) o.mmap_weights || int_eq o.mmap_weights (pos 2))
    && not (
        negative o.threads
        || negative o.threads_decode
        || negative o.ctx
        || negative o.head_topk
        || negative o.prefill_chunk
        || negative o.pool_spin_us)

unfoldable pub with_ctx : Options → Options
with_ctx o = if int_eq o.ctx (pos 0) then record o { ctx = pos 4096 } else o

-- `MotyEngineOpen`; `q4fmt` is fixed when the program is built.
pub record EngineOpen : Type 0 where
  pub qbits : ℤ
  pub ctx : ℤ
  pub kv_bits : ℤ
  pub embed_disk : ℤ
  pub head_topk : ℤ
  pub log_level : ℤ
  pub mmap : ℤ

-- What the open takes of an engine. `W` is the state of the process and `I` an instance. `open` also
-- gives what it wrote to `inst_out`: an instance, as soon as there is one.
pub record Opener (W I : Type 0) : Type 0 where
  pub accepts : List ℕ → Bool
  pub open_inst : W → List ℕ → EngineOpen → Result I × Option I × W
  pub close_inst : I → W → W

-- The file config.json of a directory: whether it can be opened, what `slurp_file` reads, `none` if it
-- fails, and the string at `model_type`, if it is JSON with one.
pub record Files : Type 0 where
  pub opens : List ℕ → Bool
  pub reads : List ℕ → Option (List ℕ)
  pub model_type : List ℕ → Option (List ℕ)

-- What `model_type_of` comes to: a type, an error, or the end of the process, since no trap is armed
-- when `slurp_file` fails.
pub data Typed : Type 0 where
  typed : List ℕ → Typed
  untyped : Status → Typed
  exits : Typed

-- The buffer `type` has room for 127 bytes.
abbrev pub typed_by : Option (List ℕ) → Typed
typed_by none = untyped err_format
typed_by (some type) = typed (take 127 type)

unfoldable pub model_type_of : Files → List ℕ → Typed
model_type_of files dir =
    if files.opens dir
    then elim (files.reads dir) [ none ↦ exits | some text ↦ typed_by (files.model_type text) ]
    else untyped err_io

-- `moty_model`, as it is opened: `ops`, `inst` and `opt`; the conversation is empty.
pub record Handle (W I : Type 0) : Type 0 where
  pub ops : Opener W I
  pub inst : I
  pub opt : Options
  pub n_past : ℕ
  pub pending : Option ℕ

pub data Opening (W I : Type 0) : Type 0 where
  opened : Handle W I → W → Opening W I
  refused_open : Status → W → Opening W I
  exited : W → Opening W I

abbrev pub engine_open : Options → EngineOpen
engine_open o = record {
  qbits = o.qbits;
  ctx = o.ctx;
  kv_bits = o.kv_bits;
  embed_disk = o.embed_disk;
  head_topk = o.head_topk;
  log_level = o.log_level;
  mmap = o.mmap_weights;
}

module _ {W I : Type 0} where
  -- The first engine that accepts the type.
  unfoldable pub find_engine : List (Opener W I) → List ℕ → Option (Opener W I)
  find_engine [] type = none
  find_engine (ops ∷ engines) type =
      let later = find_engine engines type in if ops.accepts type then some ops else later

  unfoldable pub choose_engine :
      Option (Opener W I) → List (Opener W I) → List ℕ → Option (Opener W I)
  choose_engine none engines type = find_engine engines type
  choose_engine (some ops) engines type = if ops.accepts type then some ops else none

  -- `if (m->inst) m->ops->close(m->inst)`
  unfoldable pub close_opened : Opener W I → Option I → W → W
  close_opened ops none w = w
  close_opened ops (some i) w = ops.close_inst i w

  -- The two ends of the open: a handle, or the instance closed.
  unfoldable pub open_end : Opener W I → Options → Result I × Option I × W → Opening W I
  open_end ops o (returned i, out, w) =
      opened (record { ops = ops; inst = i; opt = o; n_past = 0; pending = none }) w
  open_end ops o (trapped c, out, w) = refused_open (status_of c) (close_opened ops out w)

  -- With the engine chosen; `room` is whether there is memory for the handle.
  unfoldable pub open_chosen : Bool → W → List ℕ → Options → Option (Opener W I) → Opening W I
  open_chosen room w path o none = refused_open err_unsupported w
  open_chosen room w path o (some ops) =
      if room then open_end ops o (ops.open_inst w path (engine_open o)) else refused_open err_oom w

  unfoldable pub open_typed :
      Bool → W → Option (Opener W I) → List (Opener W I) → List ℕ → Options → Typed → Opening W I
  open_typed room w ops engines path o exits = exited w
  open_typed room w ops engines path o (untyped status) = refused_open status w
  open_typed room w ops engines path o (typed type) =
      open_chosen room w path o (choose_engine ops engines type)

  -- `moty_model_open_with`, with a path and a place for the handle.
  unfoldable pub open_with :
      Files
      → Bool
      → W
      → Option (Opener W I)
      → List (Opener W I)
      → List ℕ
      → Option Options
      → Opening W I
  open_with files room w ops engines path opt = elim (options_of opt) [
    | none ↦ refused_open err_arg w
    | some o ↦
        if good_options o
        then open_typed room w ops engines path (with_ctx o) (model_type_of files path)
        else refused_open err_arg w
  ]

  -- `moty_model_close`, with a handle.
  unfoldable pub close : Handle W I → W → W
  close m w = m.ops.close_inst m.inst w
