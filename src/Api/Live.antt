-- ===== src/Api/Live.antt =====
-- A handle owns an instance; an open that fails leaves none behind.
use moty.Base.{ℕ, suc, ◌≡◌, refl, inl, inr, Bool, Option, none, some, List, if_cases, Option-cases}
use moty.Api.Types.{Result, returned, trapped}
use moty.Api.Open.{
  Options, options_of, good_options, with_ctx, EngineOpen, Opener, Files, Typed, typed, untyped,
  exits, model_type_of, Opening, opened, refused_open, exited, choose_engine, engine_open,
  close_opened, open_end, open_chosen, open_typed, open_with, close,
}
use moty.Api.Opened.{IsAmong, Accepting, choose_engine-Accepting}

module _ {W I : Type 0} where
  module _ (live : W → ℕ) where
    -- With `n` instances before: an open makes one; if it fails, then only if `inst_out` holds it.
    abbrev pub MakesOne : ℕ → Result I × Option I × W → Type 0
    MakesOne n (returned i, out, w) = live w ≡ suc n
    MakesOne n (trapped c, some i, w) = live w ≡ suc n
    MakesOne n (trapped c, none, w) = live w ≡ n

    -- An engine whose operations count the instances.
    pub record IsCounted (ops : Opener W I) : Type 0 where
      pub opens :
          (w : W) (path : List ℕ) (eo : EngineOpen) → MakesOne (live w) (ops.open_inst w path eo)
      pub closes : (w : W) (i : I) (n : ℕ) → live w ≡ suc n → live (ops.close_inst i w) ≡ n

    -- A handle owns an instance, which `close` frees; a failure leaves none.
    abbrev pub LeavesNone : ℕ → Opening W I → Type 0
    LeavesNone n (opened m w) = (live w ≡ suc n) × (live (close m w) ≡ n)
    LeavesNone n (refused_open status w) = live w ≡ n
    LeavesNone n (exited w) = live w ≡ n

    module _ (own : Option (Opener W I)) (engines : List (Opener W I))
        (counted : (ops : Opener W I) → IsAmong own engines ops → IsCounted ops) where
      open_end-LeavesNone :
          (n : ℕ) (ops : Opener W I) (o : Options) (r : Result I × Option I × W)
          → IsCounted ops
          → MakesOne n r
          → LeavesNone n (open_end ops o r)
      unfolding open_end close_opened close
      open_end-LeavesNone n ops o (returned i, out, w) c made = (made, c.closes w i n made)
      open_end-LeavesNone n ops o (trapped code, some i, w) c made = c.closes w i n made
      open_end-LeavesNone n ops o (trapped code, none, w) c made = made

      open_chosen-LeavesNone :
          (room : Bool) (w : W) (path : List ℕ) (o : Options) (type : List ℕ)
          (c : Option (Opener W I))
          → Accepting type (IsAmong own engines) c
          → LeavesNone (live w) (open_chosen room w path o c)
      unfolding open_chosen
      open_chosen-LeavesNone room w path o type none a = refl
      open_chosen-LeavesNone room w path o type (some ops) a =
          if_cases (LeavesNone (live w)) room _ _
            (λ _.
              open_end-LeavesNone (live w) ops o _ (counted ops a.1)
                ((counted ops a.1).opens w path (engine_open o)))
            (λ _. refl)

      open_typed-LeavesNone :
          (room : Bool) (w : W) (path : List ℕ) (o : Options) (t : Typed)
          → LeavesNone (live w) (open_typed room w own engines path o t)
      unfolding open_typed
      open_typed-LeavesNone room w path o exits = refl
      open_typed-LeavesNone room w path o (untyped status) = refl
      open_typed-LeavesNone room w path o (typed type) =
          open_chosen-LeavesNone room w path o type (choose_engine own engines type)
            (choose_engine-Accepting own engines type)

      -- With engines whose operations count the instances: an open that gives a handle leaves one
      -- instance more, which closing the handle frees; any other open leaves as many as before.
      pub open_with-LeavesNone :
          (files : Files) (room : Bool) (w : W) (path : List ℕ) (opt : Option Options)
          → LeavesNone (live w) (open_with files room w own engines path opt)
      unfolding open_with
      open_with-LeavesNone files room w path opt = elim (Option-cases (options_of opt)) [
        | inl e ↦ rw (e, open_with) refl
        | inr (o, e) ↦
            rw (e, open_with)
              (if_cases (LeavesNone (live w)) (good_options o) _ _
                (λ _. open_typed-LeavesNone room w path (with_ctx o) (model_type_of files path))
                (λ _. refl))
      ]
