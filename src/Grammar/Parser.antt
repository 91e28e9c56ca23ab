-- ===== src/Grammar/Parser.antt =====
-- `gr__alts` and `gr_parse` of c/util/grammar.h: the GBNF parser. The fuel bounds the rounds of the
-- loops; one more than the length of the text is enough.
use moty.Base.{
  ℕ, zero, suc, Bool, true, false, not, ◌&&◌, ◌||◌, Option, none, some, List, [], ◌∷◌, length, ltb,
  ◌==◌, if◌then◌else◌,
}
use moty.Grammar.Syntax.{ref, Rule, Grammar}
use moty.Grammar.Build.{alts_at, syms_at, alt_new, push, bytes_eq, rule, anon, postfix}
use moty.Grammar.Lexer.{
  Error, grammar_too_large, nested_too_deeply, missing_close, unexpected_close,
  unexpected_character, too_many_rules, expected_rule, expected_definition, duplicate_rule,
  undefined_rule, missing_root, Parsed, ok, error, no_fuel, ◌>>=◌, Text, peek, ws, idch, ident,
  tail, lit, class,
}

-- `strncmp(p,"::=",3)` is 0; the text after it.
unfoldable pub definition : Text → Option Text
definition (a ∷ b ∷ c ∷ t) = if a == b':' && (b == b':' && c == b'=') then some t else none
definition (a ∷ b ∷ []) = none
definition (a ∷ []) = none
definition [] = none

unfoldable pub is_some : Option Text → Bool
is_some none = false
is_some (some t) = true

-- An option as a result, with the error that none stands for.
abbrev pub or_error {ℓ} : {A : Type ℓ} → Error → Option A → Parsed A
or_error e none = error e
or_error e (some a) = ok a

-- What begins at a byte of an alternate.
pub data Item : Type 0 where
  at_end at_close at_bar at_quote at_bracket at_open at_name at_other : Item

unfoldable pub item_at : Text → Item
item_at [] = at_end
item_at (c ∷ t) =
    if c == b')'
    then at_close
    else if c == b'|'
    then at_bar
    else if c == b'"'
    then at_quote
    else if c == b'['
    then at_bracket
    else if c == b'('
    then at_open
    else if idch c
    then at_name
    else at_other

-- The postfix operator behind an item, if there is one.
unfoldable pub after_item : ℕ → ℕ → ℕ → Grammar × Text → Parsed (Grammar × Text)
after_item ri ai n0 (g, t) =
    let p = ws t in
    if peek p == b'?' || (peek p == b'*' || peek p == b'+')
    then or_error grammar_too_large (postfix g ri ai n0 (peek p)) >>= (λ g'. ok (g', tail p))
    else ok (g, p)

-- A reference to a rule by its name.
unfoldable pub name_item : Grammar → ℕ → ℕ → Text → Parsed (Grammar × Text)
name_item g ri ai p =
    let (name, rest) = ident p in
    or_error too_many_rules (rule g name) >>= λ r. ok (push r.1 ri ai (ref r.0), rest)

-- The end of a group: a `)`, and a reference to the group's rule.
unfoldable pub close_group : ℕ → ℕ → ℕ → Grammar × Text → Parsed (Grammar × Text)
close_group ri ai gi (g, t) =
    let p = ws t in
    if peek p == b')' then ok (push g ri ai (ref gi), tail p) else error missing_close

-- The loop of `gr__alts` over the items of alternate `ai` of rule `ri`. `groups` is the number of
-- nested groups that may still begin, and `in_group` says whether a `)` ends the alternates.
-- The text that is left begins at the `)` or at the name of the next rule.
unfoldable pub items : ℕ → ℕ → Bool → Grammar → ℕ → ℕ → Text → Parsed (Grammar × Text)
items zero groups in_group g ri ai t = no_fuel
items (suc fuel) groups in_group g ri ai t =
    let p = ws t in
    let n0 = length (syms_at g ri ai) in
    let next = λ (r : Grammar × Text). items fuel groups in_group r.0 ri ai r.1 in
    elim (item_at p) [
      | at_end ↦ if in_group then error missing_close else ok (g, p)
      | at_close ↦ if in_group then ok (g, p) else error unexpected_close
      | at_bar ↦ (let (ai', g') = alt_new g ri in items fuel groups in_group g' ri ai' (tail p))
      | at_quote ↦ lit fuel g ri ai (tail p) >>= after_item ri ai n0 >>= next
      | at_bracket ↦ class fuel g ri ai (tail p) >>= after_item ri ai n0 >>= next
      | at_open ↦ or_error grammar_too_large (anon g) >>= λ r. (elim groups [
        | zero ↦ error nested_too_deeply
        | suc more ↦
            (let (a₀, g') = alt_new r.1 r.0 in
              items fuel more true g' r.0 a₀ (tail p)
              >>= close_group ri ai r.0
              >>= after_item ri ai n0
              >>= next)
      ])
      | at_name ↦ elim (not in_group && is_some (definition (ws (ident p).1))) [
        | true ↦ ok (g, p)
        | false ↦ name_item g ri ai p >>= after_item ri ai n0 >>= next
      ]
      | at_other ↦ error (unexpected_character (peek p))
    ]

-- `gr__alts` for a rule, outside any group.
unfoldable pub alternates : ℕ → Grammar → ℕ → Text → Parsed (Grammar × Text)
alternates fuel g ri t = let (ai, g') = alt_new g ri in items fuel 32 false g' ri ai t

-- One rule of `gr_parse`, from its name on.
unfoldable pub definition_of : ℕ → Grammar → Text → Text → Parsed (Grammar × Text)
definition_of fuel g [] rest = error (expected_rule (peek rest))
definition_of fuel g (c ∷ name) rest =
    or_error (expected_definition (c ∷ name)) (definition (ws rest)) >>= λ body.
    or_error too_many_rules (rule g (c ∷ name)) >>= λ r.
    if ltb 0 (length (alts_at r.1 r.0))
    then error (duplicate_rule (c ∷ name))
    else alternates fuel r.1 r.0 body

-- The loop of `gr_parse` over the rules.
unfoldable pub rules_loop : ℕ → Grammar → Text → Parsed Grammar
rules_loop zero g t = no_fuel
rules_loop (suc fuel) g t = elim (ws t) [
  | [] ↦ ok g
  | c ∷ p ↦
      definition_of fuel g (ident (c ∷ p)).0 (ident (c ∷ p)).1 >>= λ r. rules_loop fuel r.0 r.1
]

abbrev pub root_name : List ℕ
root_name = b'r' ∷ b'o' ∷ b'o' ∷ b't' ∷ []

-- The last loop of `gr_parse`, from rule `i` on: every rule is defined, and one is named `root`.
unfoldable pub find_root : List Rule → ℕ → Option ℕ → Parsed (Option ℕ)
find_root [] i root = ok root
find_root (rule ∷ rules) i root = elim rule.alts [
  | [] ↦ error (undefined_rule rule.name)
  | alt ∷ alts ↦ find_root rules (suc i) (if bytes_eq rule.name root_name then some i else root)
]

-- The grammar once its rules are read.
unfoldable pub finish : Grammar → Parsed Grammar
finish g = find_root g.rules 0 none >>= λ root.
    or_error missing_root root >>= λ i. ok (record g { root = i })

-- `gr_parse`
unfoldable pub parse : Text → Parsed Grammar
parse t = rules_loop (suc (length t)) (record { rules = []; root = 0 }) t >>= finish
