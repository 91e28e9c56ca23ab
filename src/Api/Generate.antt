-- ===== src/Api/Generate.antt =====
-- `moty_generate`, `moty_reset` and `moty_abort`.
use moty.Base.{
  ℕ, ◌+◌, ℤ, Bool, true, false, not, ◌&&◌, ◌||◌, Option, none, some, List, [], ◌∷◌, length, ltb,
  ◌==◌, if◌then◌else◌,
}
use moty.Api.Types.{
  Status, ok, err_arg, err_oom, err_context, err_aborted, FailCode, fail_oom, status_of,
  stop_length, stop_abort, Stop, Result, returned, trapped, Sampling, Engine, Callback, Model,
  Stats, Turn,
}
use moty.Api.Sampling.{
  above_zero, negative, value, float_zero, sampling_of, bad_sampling, numbers_at, in_vocab, values,
  placeholders, exceeds,
}
use moty.Api.Decode.{decode_loop}

-- The arguments of `moty_generate` but the handle, the parameters and the callback. The pointers are
-- `none` for NULL.
pub record Request (X : Type 0) : Type 0 where
  pub ids : Option (List ℤ)
  pub n : ℤ
  pub embeds : Option X
  pub n_rows : ℤ
  pub embed_token : ℤ

-- What a call leaves: `stats` is `none` if `*st` is not written.
pub record Outcome (E U : Type 0) : Type 0 where
  pub status : Status
  pub model : Model E
  pub u : U
  pub stats : Option Stats

-- Whether the two blocks of the call are there: the prompt and, to look ahead, the answer.
pub record Memory : Type 0 where
  pub prompt : Bool
  pub answer : Bool

abbrev is_none : {X : Type 0} → Option X → Bool
is_none none = true
is_none (some x) = false

-- The first test of the arguments.
unfoldable pub bad_request : {X : Type 0} → Request X → Bool
bad_request r =
    (is_none r.ids && above_zero r.n)
    || negative r.n
    || negative r.n_rows
    || (not (is_none r.embeds) && (value r.n_rows == 0))

abbrev pub request_ids : {X : Type 0} → Request X → List ℤ
request_ids r = numbers_at r.ids r.n

-- `embeds && n_ph != n_rows`
unfoldable pub bad_rows : {X : Type 0} → Request X → Bool
bad_rows r =
    not (is_none r.embeds) && not (placeholders r.embed_token (request_ids r) == value r.n_rows)

-- The pending token goes first.
abbrev pub prompt : Option ℕ → List ℤ → List ℕ
prompt none ids = values ids
prompt (some t) ids = t ∷ values ids

module _ {E U L X : Type 0} (ops : Engine E U L X) where
  -- The tests up to the range of the ids and the rows, in their order: the parameters, if all hold.
  -- Each failure is `MOTY_ERR_ARG`, and nothing is changed.
  unfoldable pub arguments : Model E → Request X → Option Sampling → Option Sampling
  arguments m r sp = if bad_request r then none else elim (sampling_of sp) [
    | none ↦ none
    | some s ↦
        if bad_sampling s
        then none
        else if in_vocab (ops.vocab m.e) (request_ids r)
        then (if bad_rows r then none else some s)
        else none
  ]

  abbrev pub refused : Status → Model E → U → Outcome E U
  refused status m u = record { status = status; model = m; u = u; stats = none }

  -- `la`
  unfoldable pub looks_ahead : Sampling → Bool
  looks_ahead s =
      not (is_none s.draft) && above_zero s.n_draft && float_zero s.temperature && ops.can_verify

  abbrev pub reset_model : E → Model E
  reset_model e = record { e = ops.reset e; n_past = 0; pending = none }

  -- The statistics, and a failed call's model.
  abbrev pub stats_of : ℕ → Turn E U → Stop → Stats
  stats_of np t stop = record { prompt_tokens = np; new_tokens = t.new_tokens; stop = stop }

  -- The end of the call. A failure and a raised abort reset the conversation.
  unfoldable pub settled_call : ℕ → Option FailCode × Turn E U → Outcome E U
  settled_call np (some c, t) = record {
    status = status_of c;
    model = reset_model t.e;
    u = t.u;
    stats = some (stats_of np t t.stop);
  }
  settled_call np (none, t) =
      let (raised, u) = ops.load_abort t.u in
      if raised
      then record {
        status = err_aborted;
        model = reset_model t.e;
        u = u;
        stats = some (stats_of np t stop_abort);
      }
      else record {
        status = ok;
        model = record { e = t.e; n_past = t.n_past; pending = t.pending };
        u = u;
        stats = some (stats_of np t t.stop);
      }

  module _ (s : Sampling) (cb : Callback U) where
    -- The first token, and the loop, if any token is asked for.
    unfoldable pub start_decode : Turn E U → Result ℕ × E → Option FailCode × Turn E U
    start_decode t (trapped c, e) = (some c, record t { e = e })
    start_decode t (returned y, e) =
        if ltb 0 (value s.max_new_tokens)
        then decode_loop ops s cb (value s.max_new_tokens) (record t { e = e }) y
        else (none, record t { e = e })

    -- The logits of the prompt, NULL if the abort was raised meanwhile.
    unfoldable pub first_token : Turn E U → Option L → Option FailCode × Turn E U
    first_token t none = (none, t)
    first_token t (some lo) = start_decode t (ops.pick t.e lo)

    -- After the prefill of `np` tokens: the answer's buffer, and the decode.
    unfoldable pub prefilled :
        Model E → ℕ → Bool → Result (Option L) × E × U → Option FailCode × Turn E U
    prefilled m np room (trapped c, e, u) = (
      some c,
      record {
        e = e;
        u = u;
        n_past = m.n_past;
        pending = m.pending;
        new_tokens = 0;
        stop = stop_length;
        gen = none;
      },
    )
    prefilled m np room (returned lo, e, u) =
        let la = looks_ahead s in
        let t : Turn E U = record {
          e = e;
          u = u;
          n_past = m.n_past + np;
          pending = none;
          new_tokens = 0;
          stop = stop_length;
          gen = if la then some [] else none;
        } in
        if la && not room then (some fail_oom, record t { gen = none }) else first_token t lo

    -- The call, once its arguments are accepted: `pr` is the prompt.
    unfoldable pub run : Memory → Model E → U → Request X → List ℕ → Outcome E U
    run mem m u r pr = settled_call (length pr) (
        prefilled m (length pr) mem.answer
          (ops.prefill (ops.sampled m.e s) u pr m.n_past r.embeds r.n_rows r.embed_token))

  abbrev pub aborted_stats : Stats
  aborted_stats = record { prompt_tokens = 0; new_tokens = 0; stop = stop_abort }

  module _ (mem : Memory) (m : Model E) (u : U) (r : Request X) where
    -- The tests that may fail otherwise, and the call.
    unfoldable pub admitted : Callback U → Option Sampling → Outcome E U
    admitted cb none = refused err_arg m u
    admitted cb (some s) =
        let (raised, u') = ops.load_abort u in
        let pr = prompt m.pending (request_ids r) in
        let np = length pr in
        if raised
        then record { status = err_aborted; model = m; u = u'; stats = some aborted_stats }
        else if np == 0
        then refused err_arg m u'
        else if exceeds (m.n_past + np + value s.max_new_tokens) (ops.ctx m.e)
        then refused err_context m u'
        else if mem.prompt
        then run s cb mem m u' r pr
        else refused err_oom m u'

    -- `moty_generate`, with a handle that is not NULL.
    unfoldable pub generate : Option Sampling → Callback U → Outcome E U
    generate sp cb = admitted cb (arguments m r sp)

  -- `moty_reset`, but for the abort flag, which is the caller's: it is cleared.
  unfoldable pub reset_handle : Model E → Model E
  reset_handle m = reset_model m.e
