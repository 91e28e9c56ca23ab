-- ===== src/Grammar/Parse.antt =====
-- `gr_parse` as a whole: it ends on every text, and what it accepts is a grammar that the walker runs.
use moty.Base.{
  ℕ, zero, suc, ◌+◌, ◌≤◌, ◌<◌, ◌≡◌, ◌≢◌, refl, sym, ap, ◌∙◌, inl, inr, true, false, Option, none,
  some, List, [], ◌∷◌, length, All, arith, Bool-cases, if◌then◌else◌, get_elem?, ltb,
}
use moty.Grammar.Syntax.{Alt, Rule, Grammar, IsClosed, IsNarrow}
use moty.Grammar.Build.{max_rules, alts_at, alt_new, rule, bytes_eq}
use moty.Grammar.Built.{IsBuilt, Grows, Grows-trans, Grows-refl, alt_new-Grows}
use moty.Grammar.BuiltRules.{rule-Grows}
use moty.Grammar.Lexer.{Parsed, ok, error, ◌>>=◌, Text, ws, ident, undefined_rule, missing_root}
use moty.Grammar.LexerLaws.{Gives, Gives-bind, Gives-map, Steps, length-skip, length-ident_some}
use moty.Grammar.ItemLaws.{or_error-Gives}
use moty.Grammar.ParserLaws.{items-Steps}
use moty.Grammar.Parser.{
  or_error, definition, alternates, definition_of, rules_loop, root_name, find_root, finish, parse,
}
use moty.Grammar.Walker.{Walk, State, state_init}
use moty.Grammar.Safety.{IsValidState}
use moty.Grammar.Accept.{Returns, feed, Recognises, feed-Recognises}

alternates-Steps :
    (fuel : ℕ) (g : Grammar)
    → IsBuilt g
    → (ri : ℕ) (t : Text) → length t < fuel
    → Gives (Steps g (length t)) (alternates fuel g ri t)
unfolding alternates
alternates-Steps fuel g b ri t lt =
    let s = alt_new-Grows g b ri in
    Gives-map _ (Steps (alt_new g ri).1 (length t)) (Steps g (length t))
      (items-Steps fuel 32 false (alt_new g ri).1 s.built ri (alt_new g ri).0 t lt)
      (λ r k. (Grows-trans g _ r.0 s k.0, k.1))

definition-lt : (t body : Text) → definition t ≡ some body → length body < length t
unfolding definition
definition-lt [] body h = cc
definition-lt (a ∷ []) body h = cc
definition-lt (a ∷ b ∷ []) body h = cc
definition-lt (a ∷ b ∷ c ∷ t) body h =
    let same : t ≡ body = ground arith in rw (← same) (omega arith)

definition_of-Steps :
    (fuel : ℕ) (g : Grammar)
    → IsBuilt g
    → (name rest : Text) → length rest < fuel
    → Gives (Steps g (length rest)) (definition_of fuel g name rest)
unfolding definition_of
definition_of-Steps fuel g b [] rest lt = tt
definition_of-Steps fuel g b (c ∷ name) rest lt =
    Gives-bind (or_error _ (definition (ws rest))) _ (λ body. length body < length rest) _
      (or_error-Gives _ (definition (ws rest)) (λ body. length body < length rest)
        (λ body e. omega (arith, definition-lt (ws rest) body e, length-skip false rest)))
      (λ body short.
        Gives-bind (or_error _ (rule g (c ∷ name))) _ (λ r. Grows g r.1) _
          (or_error-Gives _ (rule g (c ∷ name)) (λ r. Grows g r.1)
            (λ r e. (rule-Grows g b (c ∷ name) r.0 r.1 e).0))
          (λ r k. elim (Bool-cases (ltb 0 (length (alts_at r.1 r.0)))) [
            | inl e ↦ rw e tt
            | inr e ↦ rw e (
                Gives-map _ (Steps r.1 (length body)) (Steps g (length rest))
                  (alternates-Steps fuel r.1 k.built r.0 body (omega arith))
                  (λ q j. (Grows-trans g r.1 q.0 k j.0, omega (arith, j.1))))
          ]))

abbrev LoopGrows : ℕ → Type 0
LoopGrows fuel =
    (g : Grammar) → IsBuilt g → (t : Text) → length t < fuel → Gives (Grows g) (rules_loop fuel g t)

rule-Grows_next :
    (fuel : ℕ)
    → LoopGrows fuel
    → (g : Grammar) → IsBuilt g
    → (p : Text) → length p ≤ fuel
    → (name : Text) → (ident p).0 ≡ name
    → Gives (Grows g) (definition_of fuel g name (ident p).1 >>= λ r. rules_loop fuel r.0 r.1)
unfolding definition_of
rule-Grows_next fuel loop g b p le [] e = tt
rule-Grows_next fuel loop g b p le (d ∷ name) e =
    let rest = (ident p).1 in
    let short = length-ident_some p d name e in
    Gives-bind (definition_of fuel g (d ∷ name) rest) _ (Steps g (length rest)) (Grows g)
      (definition_of-Steps fuel g b (d ∷ name) rest (omega arith))
      (λ r k.
        Gives-map (rules_loop fuel r.0 r.1) (Grows r.0) (Grows g)
          (loop r.0 k.0.built r.1 (omega (arith, k.1))) (λ g' j. Grows-trans g r.0 g' k.0 j))

rule-Grows_first :
    (fuel : ℕ)
    → LoopGrows fuel
    → (g : Grammar) → IsBuilt g
    → (p : Text) → length p ≤ fuel
    → Gives (Grows g) (elim p [
      | [] ↦ ok g
      | c ∷ q ↦
          definition_of fuel g (ident (c ∷ q)).0 (ident (c ∷ q)).1 >>= λ r. rules_loop fuel r.0 r.1
    ])
rule-Grows_first fuel loop g b [] le = Grows-refl g b
rule-Grows_first fuel loop g b (c ∷ q) le =
    rule-Grows_next fuel loop g b (c ∷ q) le (ident (c ∷ q)).0 refl

rules_loop-Grows : (fuel : ℕ) → LoopGrows fuel
unfolding rules_loop
rules_loop-Grows zero g b t lt = absurd (omega arith)
rules_loop-Grows (suc fuel) g b t lt =
    rule-Grows_first fuel (rules_loop-Grows fuel) g b (ws t) (omega (arith, length-skip false t))

-- The rule `i` is there and is named `root`.
abbrev pub IsRoot : List Rule → ℕ → Type 0
IsRoot rules i =
    (rule : Rule) × (get_elem? rules i ≡ some rule) × (bytes_eq rule.name root_name ≡ true)

abbrev RootOf : List Rule → Option ℕ → Type 0
RootOf rules none = Unit
RootOf rules (some i) = IsRoot rules i

-- The rule is defined.
abbrev pub IsDefined : Rule → Type 0
IsDefined rule = rule.alts ≢ []

next_root :
    (all : List Rule) (rule : Rule) (i : ℕ) (root : Option ℕ)
    → get_elem? all i ≡ some rule
    → RootOf all root
    → RootOf all (if bytes_eq rule.name root_name then some i else root)
next_root all rule i root e h = elim (Bool-cases (bytes_eq rule.name root_name)) [
  | inl q ↦ rw q (rule, e, q)
  | inr q ↦ rw q h
]

if_defined :
    {A : Type 0} (alts : List Alt) (name : List ℕ) (m : Parsed A) (P : A → Type 0)
    → Gives P m
    → Gives
        (λ o. P o × (alts ≢ []))
        (elim alts [ [] ↦ error (undefined_rule name) | alt ∷ rest ↦ m ])
if_defined [] name m P h = tt
if_defined (alt ∷ rest) name m P h = Gives-map m P _ h (λ o k. (k, λ e. cc))

find_root-RootOf :
    (all rules : List Rule) (i : ℕ) (root : Option ℕ)
    → ((k : ℕ) → get_elem? rules k ≡ get_elem? all (i + k))
    → RootOf all root
    → Gives (λ o. RootOf all o × All IsDefined rules) (find_root rules i root)
unfolding find_root
find_root-RootOf all [] i root agree h = (h, tt)
find_root-RootOf all (rule ∷ rules) i root agree h =
    let here : get_elem? all i ≡ some rule = sym (agree 0 ∙ ap (get_elem? all) (omega arith)) in
    let next : Option ℕ = if bytes_eq rule.name root_name then some i else root in
    Gives-map _ (λ o. (RootOf all o × All IsDefined rules) × (rule.alts ≢ []))
      (λ o. RootOf all o × All IsDefined (rule ∷ rules))
      (if_defined rule.alts rule.name (find_root rules (suc i) next)
        (λ o. RootOf all o × All IsDefined rules)
        (find_root-RootOf all rules (suc i) next
          (λ k. agree (suc k) ∙ ap (get_elem? all) (omega arith))
          (next_root all rule i root here h)))
      (λ o k. (k.0.0, (k.1, k.0.1)))

get_elem?-lt : {A : Type 0} (xs : List A) (i : ℕ) (x : A) → get_elem? xs i ≡ some x → i < length xs
get_elem?-lt [] i x h = cc
get_elem?-lt (y ∷ xs) zero x h = omega arith
get_elem?-lt (y ∷ xs) (suc i) x h = omega (arith, get_elem?-lt xs i x h)

-- A grammar that the walker can run: closed, with every rule defined, a root of that name and no
-- more rules than the array holds.
pub record IsReady (g : Grammar) : Type 0 where
  pub closed : IsClosed g
  pub defined : All IsDefined g.rules
  pub rooted : IsRoot g.rules g.root
  pub few : length g.rules ≤ max_rules

finish-IsReady : (g : Grammar) → IsBuilt g → Gives IsReady (finish g)
unfolding finish
finish-IsReady g b =
    Gives-bind (find_root g.rules 0 none) _ (λ o. RootOf g.rules o × All IsDefined g.rules) IsReady
      (find_root-RootOf g.rules g.rules 0 none (λ k. ap (get_elem? g.rules) (omega arith)) tt)
      (λ o k. with_root o k.0 k.1)
  where
    with_root :
        (o : Option ℕ)
        → RootOf g.rules o
        → All IsDefined g.rules
        → Gives IsReady (or_error missing_root o >>= (λ i. ok (record g { root = i })))
    with_root none h d = tt
    with_root (some i) h d = record {
      closed = record { root_in = get_elem?-lt g.rules i h.0 h.1; refs_in = b.refs };
      defined = d;
      rooted = h;
      few = b.few;
    }

-- On every text `gr_parse` ends before its fuel does, and what it accepts is ready to run: every
-- reference and the root name a rule, every rule has an alternate, the root is named `root`, and
-- there are at most 1024 rules.
pub parse-IsReady : (t : Text) → Gives IsReady (parse t)
unfolding parse
parse-IsReady t =
    let empty : Grammar = record { rules = []; root = 0 } in
    Gives-bind (rules_loop (suc (length t)) empty t) finish (Grows empty) IsReady
      (rules_loop-Grows (suc (length t)) empty (record { refs = tt; few = omega arith }) t
        (omega arith))
      (λ g k. finish-IsReady g k.built)

-- On a grammar that `gr_parse` accepted, with at most 2^15 rules, at most 2^15 alternates in a rule
-- and fewer than 2^15 symbols in an alternate, feeding any bytes to a live initial state returns in
-- a valid state and recognises the words of the grammar, as in `feed-Recognises`.
pub parse-Recognises :
    (t : Text) (g : Grammar)
    → parse t ≡ ok g
    → IsNarrow g
    → (st : State) → state_init g ≡ Walk.ok st
    → st.alive ≡ true
    → (u : List ℕ) → All (λ b. b < 256) u
    → Returns (λ r. IsValidState g r.1 × Recognises g u r) (feed g u st)
parse-Recognises t g h narrow st e on u bytes =
    let ready = rw h at (parse-IsReady t) in
    feed-Recognises g st (record { closed = ready.closed; narrow = narrow }) e on u bytes
