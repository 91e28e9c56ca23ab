-- ===== src/Api/OpenTests.antt =====
-- Two engines for types of one byte: the first fails once an instance is there, the second opens.
use moty.Base.{
  ℕ, suc, ◌-◌, ◌≡◌, refl, Bool, true, false, none, some, List, [], ◌∷◌, ◌==◌, arith, inl, inr,
}
use mathlib.Core.Path.{subst}
use moty.Api.Types.{returned, trapped, fail_oom, err_oom, status_of}
use moty.Api.Open.{
  options_init, Opener, Files, refused_open, options_of, good_options, with_ctx, model_type_of,
  open_typed, open_chosen, choose_engine, find_engine, open_end, close_opened, open_with,
}
use moty.Api.Opened.{OpensReady, IsAmong, open_with-OpensReady}
use moty.Api.Live.{LeavesNone, IsCounted, open_with-LeavesNone}

abbrev accepts_byte : ℕ → List ℕ → Bool
accepts_byte a [] = false
accepts_byte a (b ∷ []) = b == a
accepts_byte a (b ∷ c ∷ type) = false

-- The state of the process is the number of instances, and an instance a number.
abbrev failing : Opener ℕ ℕ
failing = record {
  accepts = accepts_byte b'a';
  open_inst = λ w path eo. (trapped fail_oom, some 7, suc w);
  close_inst = λ i w. w - 1;
}

abbrev opening : Opener ℕ ℕ
opening = record {
  accepts = accepts_byte b'b';
  open_inst = λ w path eo. (returned 7, some 7, suc w);
  close_inst = λ i w. w - 1;
}

abbrev both : List (Opener ℕ ℕ)
both = failing ∷ opening ∷ []

-- The text of a config.json is its type.
abbrev simple : Files
simple = record { opens = λ dir. true; reads = λ dir. some dir; model_type = λ text. some text }

a_refused : open_with simple true 4 none both (b'a' ∷ []) none ≡ refused_open err_oom 4
unfolding options_of options_init good_options with_ctx model_type_of open_typed open_chosen
    choose_engine find_engine open_end close_opened open_with status_of
a_refused = refl

open_with-OpensReady_example :
    OpensReady none both
      (model_type_of simple (b'b' ∷ []))
      (open_with simple true 4 none both (b'b' ∷ []) (some options_init))
open_with-OpensReady_example =
    open_with-OpensReady none both simple true 4 (b'b' ∷ []) (some options_init)

both-IsCounted : (ops : Opener ℕ ℕ) → IsAmong none both ops → IsCounted (λ w. w) ops
both-IsCounted ops (inl e) =
    subst (IsCounted (λ w. w)) e
      (record { opens = λ w path eo. refl; closes = λ w i n live. omega (arith, live) })
both-IsCounted ops (inr (inl e)) =
    subst (IsCounted (λ w. w)) e
      (record { opens = λ w path eo. refl; closes = λ w i n live. omega (arith, live) })
both-IsCounted ops (inr (inr e)) = absurd e

open_with-LeavesNone_example :
    LeavesNone (λ w. w) 4 (open_with simple true 4 none both (b'a' ∷ []) (some options_init))
open_with-LeavesNone_example =
    open_with-LeavesNone (λ w. w) none both both-IsCounted simple true 4 (b'a' ∷ [])
      (some options_init)
