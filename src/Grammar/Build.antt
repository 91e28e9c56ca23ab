-- ===== src/Grammar/Build.antt =====
-- How c/util/grammar.h builds a grammar: `gr__alt_new`, `gr__push`, `gr__rule`, `gr__anon` and
-- `gr__postfix`. The arrays grow by `realloc`, which is taken to succeed.
use moty.Base.{
  ℕ, zero, suc, ◌+◌, ◌/◌, ◌%◌, Bool, true, false, ◌&&◌, ◌||◌, Option, none, some, List, [], ◌∷◌,
  ◌++◌, get_elem?, length, take, drop, leb, ltb, ◌==◌, if◌then◌else◌, ◌>>=◌,
}
use moty.Grammar.Syntax.{Sym, ref, Alt, Rule, Grammar}

-- `GR_MAX_RULES`
abbrev pub max_rules : ℕ
max_rules = 1024

module _ {ℓ} {A : Type ℓ} where
  -- The array with one entry changed.
  unfoldable pub modify : List A → ℕ → (A → A) → List A
  modify [] i f = []
  modify (x ∷ xs) zero f = f x ∷ xs
  modify (x ∷ xs) (suc i) f = x ∷ modify xs i f

-- The alternates of a rule and the symbols of an alternate, none where there is no such entry.
unfoldable pub alts_at : Grammar → ℕ → List Alt
alts_at g ri = elim (get_elem? g.rules ri) [ none ↦ [] | some rule ↦ rule.alts ]

unfoldable pub syms_at : Grammar → ℕ → ℕ → Alt
syms_at g ri ai = elim (get_elem? (alts_at g ri) ai) [ none ↦ [] | some alt ↦ alt ]

unfoldable pub set_alts : (List Alt → List Alt) → Rule → Rule
set_alts f rule = record rule { alts = f rule.alts }

-- `gr__alt_new`: an empty alternate at the end of rule `ri`, with its index.
unfoldable pub alt_new : Grammar → ℕ → ℕ × Grammar
alt_new g ri = (
  length (alts_at g ri),
  record g { rules = modify g.rules ri (set_alts (λ alts. alts ++ [] ∷ [])) },
)

-- `G->r[ri].a[ai]` with its symbols changed.
unfoldable pub edit : Grammar → ℕ → ℕ → (Alt → Alt) → Grammar
edit g ri ai f = record g { rules = modify g.rules ri (set_alts (λ alts. modify alts ai f)) }

-- `gr__push`
unfoldable pub push : Grammar → ℕ → ℕ → Sym → Grammar
push g ri ai sy = edit g ri ai (λ alt. alt ++ sy ∷ [])

unfoldable pub bytes_eq : List ℕ → List ℕ → Bool
bytes_eq [] [] = true
bytes_eq [] (y ∷ ys) = false
bytes_eq (x ∷ xs) [] = false
bytes_eq (x ∷ xs) (y ∷ ys) = x == y && bytes_eq xs ys

-- The loop of `gr__rule`: the first rule of that name, counting from `i`.
unfoldable pub find_name : List ℕ → List Rule → ℕ → Option ℕ
find_name name [] i = none
find_name name (rule ∷ rules) i =
    if bytes_eq rule.name name then some i else find_name name rules (suc i)

-- A new rule with no alternate, if there is room.
unfoldable pub rule_new : Grammar → List ℕ → Option (ℕ × Grammar)
rule_new g name =
    if leb max_rules (length g.rules)
    then none
    else some
        (length g.rules, record g { rules = g.rules ++ record { name = name; alts = [] } ∷ [] })

-- `gr__rule`: a name is cut to 63 bytes.
unfoldable pub rule : Grammar → List ℕ → Option (ℕ × Grammar)
rule g name = elim (find_name (take 63 name) g.rules 0) [
  | some i ↦ some (i, g)
  | none ↦ rule_new g (take 63 name)
]

-- The decimal digits of a number before `rest`, on fuel.
unfoldable pub decimal : ℕ → ℕ → List ℕ → List ℕ
decimal zero n rest = rest
decimal (suc fuel) n rest =
    let more = decimal fuel (n / 10) ((b'0' + n % 10) ∷ rest) in
    if ltb n 10 then (b'0' + n) ∷ rest else more

-- `gr__anon`: a rule named `$` and the number of rules.
unfoldable pub anon : Grammar → Option (ℕ × Grammar)
anon g = let n = length g.rules in rule_new g (b'$' ∷ decimal (suc n) n [])

-- The loop of `gr__postfix` that copies the item's symbols.
unfoldable pub push_all : Grammar → ℕ → ℕ → List Sym → Grammar
push_all g ri ai [] = g
push_all g ri ai (sy ∷ sys) = push_all (push g ri ai sy) ri ai sys

-- The alternates of the rule `rr` for an item with the rule `ii`, and the reference to `rr` in the
-- alternate that the item stood in.
unfoldable pub repeated : Grammar → ℕ → ℕ → ℕ → ℕ → Bool → Bool → Grammar
repeated g ri ai ii rr again once =
    let (a₀, g₁) = alt_new g rr in
    let g₂ = push g₁ rr a₀ (ref ii) in
    let g₃ = if again then push g₂ rr a₀ (ref rr) else g₂ in
    let (a₁, g₄) = alt_new g₃ rr in
    let g₅ = if once then push g₄ rr a₁ (ref ii) else g₄ in push g₅ ri ai (ref rr)

-- `gr__postfix` on the item that begins at `n0`: with `I` a rule for the item and `R` a new rule, the
-- item becomes `R`, where `R ::= I | ""` for `?`, `R ::= I R | ""` for `*` and `R ::= I R | I` for `+`.
unfoldable pub postfix : Grammar → ℕ → ℕ → ℕ → ℕ → Option Grammar
postfix g ri ai n0 op =
    let item = drop n0 (syms_at g ri ai) in
    if length item == 0 then some g else (do
      (ii, g₁) ← anon g
      let (ia, g₂) = alt_new g₁ ii
      let g₃ = push_all g₂ ii ia item
      let g₄ = edit g₃ ri ai (take n0)
      (rr, g₅) ← anon g₄
      some (repeated g₅ ri ai ii rr (op == b'*' || op == b'+') (op == b'+')))
