-- ===== src/Feed/Tests.antt =====
-- A preamble, a word of a small grammar, and a start anew.
use moty.Base.{
  ℕ, zero, suc, replicate, ◌≡◌, refl, inr, Bool, true, false, Option, none, some, List, [], ◌∷◌,
  ◌++◌, arith, ◌==◌,
}
use moty.Grammar.Syntax.{Sym, cls, Grammar, IsRunnable, alts_of, alt_of}
use moty.Grammar.Walker.{
  Walk, ok, frame_eq, stack_eq, has_stack, set_add, each_alt, top_at, top_of, branch, normalize,
  init_loop, accept_loop, State, state_init, accept,
}
use moty.Grammar.Safety.{state_init-IsValid}
use moty.Grammar.Accept.{Returns, state_init-InLanguage}
use moty.Tok.Table.{Tok}
use moty.Tok.Decode.{string_bytes, token_bytes, text_of, tok_decode}
use moty.Feed.{Drafts, grammar_reset, rearm, feed_byte, feed_bytes, gr_feed}
use moty.Feed.Follows.{Follows, gr_feed-Follows}

walker : Unit {0}
unfolding alts_of alt_of frame_eq stack_eq has_stack set_add each_alt top_at top_of branch normalize
    init_loop accept_loop state_init accept grammar_reset rearm feed_byte feed_bytes gr_feed
    string_bytes token_bytes text_of tok_decode
walker = tt

abbrev only : ℕ → Sym
only c = cls (λ b. b == c)

-- root ::= "ab"
abbrev word : Grammar
word = record {
  rules = record { name = []; alts = (only b'a' ∷ only b'b' ∷ []) ∷ [] } ∷ [];
  root = 0;
}

abbrev begun : State
begun = record { stacks = (record { r = 0; a = 0; s = 0 } ∷ []) ∷ []; alive = true }

abbrev fresh : Drafts
fresh = record { on = true; armed = false; gst = begun }

abbrev flags : Walk Drafts → Option (Bool × Bool)
flags (ok d) = some (d.on, d.armed)
flags _ = none

-- The token 0 is "xa", the token 1 is of 64 bytes, the last an "a", and the others are "b".
abbrev long : List ℕ
long = replicate 63 b'x' ++ b'a' ∷ []

abbrev string_of : ℕ → List ℕ
string_of zero = b'x' ∷ b'a' ∷ []
string_of (suc zero) = long
string_of (suc (suc t)) = b'b' ∷ []

abbrev three : Tok
three = record {
  vocab = λ s. none;
  merges = λ s. none;
  id2str = λ t. some (string_of t);
  id_added = λ t. true;
  specials = [];
  sentencepiece = false;
  add_dummy_prefix = false;
  digit_presplit = false;
  byte_tok = λ b. none;
  id2byte = λ t. none;
}

preamble : flags (gr_feed word three 0 fresh) ≡ some (true, true)
unfolding walker
preamble = refl

waits : flags (gr_feed word three 2 fresh) ≡ some (true, false)
unfolding walker
waits = refl

-- The last byte of the long token is not seen.
cut : flags (gr_feed word three 1 fresh) ≡ some (true, false)
unfolding walker
cut = refl

restarts : flags (feed_bytes word (b'a' ∷ b'x' ∷ []) fresh) ≡ some (true, false)
unfolding walker
restarts = refl

renewed : grammar_reset word (record { on = true; armed = true; gst = begun }) ≡ ok fresh
unfolding walker
renewed = refl

begun-is_init : state_init word ≡ ok begun
unfolding walker
begun-is_init = refl

word-IsRunnable : IsRunnable word
word-IsRunnable = record {
  closed = record { root_in = omega arith; refs_in = omega arith };
  narrow = record { few_rules = omega arith; few_alts = omega arith };
}

fresh-Follows : Follows word [] fresh
fresh-Follows = record {
  valid = rw begun-is_init at (state_init-IsValid word word-IsRunnable);
  on_word = λ _ e. cc;
  waiting = λ _ _. inr (state_init-InLanguage word word-IsRunnable.narrow begun begun-is_init refl);
}

gr_feed-Follows_example :
    Returns (Follows word ([] ++ tok_decode three (0 ∷ []) 63)) (gr_feed word three 0 fresh)
unfolding walker
gr_feed-Follows_example =
    gr_feed-Follows word word-IsRunnable three 0 [] fresh (omega arith) fresh-Follows
