-- ===== src/Grammar/ParserTests.antt =====
-- The parser on small texts.
use moty.Base.{ℕ, ◌≡◌, refl, true, false, Option, none, some, List, [], ◌∷◌, length, map}
use moty.Grammar.Syntax.{Rule, Grammar, IsNarrow}
use moty.Grammar.Build.{
  modify, alts_at, syms_at, set_alts, alt_new, edit, push, bytes_eq, find_name, rule_new, rule,
  decimal, anon, push_all, repeated, postfix,
}
use moty.Grammar.Lexer.{
  Parsed, ok, error, overread, Text, ws_step, skip, idch, ident, hex, esc_hex, simple_escape, esc,
  read_byte, lit, upper, cls_loop, class, unexpected_close, undefined_rule,
}
use moty.Grammar.Parser.{
  definition, is_some, item_at, after_item, name_item, close_group, items, alternates,
  definition_of, rules_loop, find_root, finish, parse,
}
use moty.Grammar.LexerLaws.{Gives}
use moty.Grammar.Parse.{IsReady, parse-IsReady, parse-Recognises}
use moty.Base.{arith}
use moty.Grammar.Syntax.{alts_of, alt_of}
use moty.Grammar.Walker.{
  Walk, frame_eq, stack_eq, has_stack, set_add, each_alt, top_at, top_of, branch, normalize,
  init_loop, State, state_init,
}
use moty.Grammar.Safety.{IsValidState}
use moty.Grammar.Accept.{Returns, feed, Recognises}
use Prim.Native.Char.{code}
use Prim.Native.String.{String}

abbrev codes : String → List ℕ
codes String.[] = []
codes (String.◌∷◌ c s) = code c ∷ codes s

parser : Unit {0}
unfolding modify alts_at syms_at set_alts alt_new edit push bytes_eq find_name rule_new rule decimal
    anon push_all repeated postfix ws_step skip idch ident hex esc_hex simple_escape esc read_byte
    lit upper cls_loop class definition is_some item_at after_item name_item close_group items
    alternates definition_of rules_loop find_root finish parse
parser = tt

-- The number of symbols of each alternate of each rule.
abbrev shape : Parsed Grammar → Option (List (List ℕ))
shape (ok g) = some (map (λ (rule : Rule). map length rule.alts) g.rules)
shape _ = none

star :
    shape (parse (codes "root ::= [a]* # comment"))
    ≡ some (((1 ∷ []) ∷ (1 ∷ []) ∷ (2 ∷ 0 ∷ []) ∷ []))
unfolding parser
star = refl

objects :
    shape (parse (codes "root ::= obj+ obj ::= \"{\" (\"a\" | \"bc\")? \"}\\x0a\""))
    ≡ some (
        ((1 ∷ [])
          ∷ (4 ∷ [])
          ∷ (1 ∷ [])
          ∷ (2 ∷ 1 ∷ [])
          ∷ (1 ∷ 2 ∷ [])
          ∷ (1 ∷ [])
          ∷ (1 ∷ 0 ∷ [])
          ∷ []))
unfolding parser
objects = refl

overread_at_end : parse (codes "root ::= \"\\x") ≡ overread
unfolding parser
overread_at_end = refl

unclosed : parse (codes "root ::= a )") ≡ error unexpected_close
unfolding parser
unclosed = refl

missing : parse (codes "root ::= a") ≡ error (undefined_rule (codes "a"))
unfolding parser
missing = refl

parse-IsReady_example : Gives IsReady (parse (codes "root ::= [a]*"))
parse-IsReady_example = parse-IsReady (codes "root ::= [a]*")

-- One grammar, its initial state and two bytes.
abbrev ab_text : Text
ab_text = codes "root ::= \"ab\" root?"

abbrev ab : Grammar
ab = elim (parse ab_text) [ ok g ↦ g | _ ↦ record { rules = []; root = 0 } ]

ab-parsed : parse ab_text ≡ ok ab
unfolding parser
ab-parsed = refl

abbrev ab_begun : State
ab_begun = elim (state_init ab) [ Walk.ok st ↦ st | _ ↦ record { stacks = []; alive = false } ]

ab_begun-is_init : state_init ab ≡ Walk.ok ab_begun
unfolding parser alts_of alt_of frame_eq stack_eq has_stack set_add each_alt top_at top_of branch
    normalize init_loop state_init
ab_begun-is_init = refl

ab_begun-alive : ab_begun.alive ≡ true
unfolding parser alts_of alt_of frame_eq stack_eq has_stack set_add each_alt top_at top_of branch
    normalize init_loop state_init
ab_begun-alive = refl

ab-IsNarrow : IsNarrow ab
unfolding parser
ab-IsNarrow = record { few_rules = omega arith; few_alts = omega arith }

parse-Recognises_example :
    Returns
      (λ r. IsValidState ab r.1 × Recognises ab (b'a' ∷ b'b' ∷ []) r)
      (feed ab (b'a' ∷ b'b' ∷ []) ab_begun)
parse-Recognises_example =
    parse-Recognises ab_text ab ab-parsed ab-IsNarrow ab_begun ab_begun-is_init ab_begun-alive
      (b'a' ∷ b'b' ∷ []) (omega arith, (omega arith, tt))
