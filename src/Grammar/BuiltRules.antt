-- ===== src/Grammar/BuiltRules.antt =====
-- What looking up, naming and repeating rules keeps.
use moty.Base.{
  ℕ, suc, ◌+◌, ◌≤◌, ◌<◌, ◌≡◌, inl, inr, Bool, true, false, ◌||◌, Option, some, List, [], ◌∷◌,
  length, take, drop, All, arith, Bool-cases, Option-cases, ◌==◌, if◌then◌else◌, >>=-eq-some,
}
use moty.Grammar.Syntax.{Sym, ref, Rule, Grammar, SymBelow}
use mathlib.Core.Path.{subst}
use moty.Grammar.Build.{
  syms_at, alt_new, edit, push, find_name, bytes_eq, rule, anon, push_all, repeated, postfix,
}
use moty.Grammar.Built.{
  All-take, All-drop, SymBelow-mono, IsBuilt, Grows, Grows-trans, Grows-refl, alt_new-Grows,
  edit-Grows, push-Grows, syms_at-All, rule_new-Grows,
}

some_eq : {A : Type 0} (a b : A) → some a ≡ some b → a ≡ b
some_eq a b h = cc

find_name-lt :
    (name : List ℕ) (rules : List Rule) (i j : ℕ)
    → find_name name rules i ≡ some j
    → j < i + length rules
unfolding find_name
find_name-lt name [] i j h = cc
find_name-lt name (rule ∷ rules) i j h = elim (Bool-cases (bytes_eq rule.name name)) [
  | inl e ↦ (let same : i ≡ j = ground arith in omega arith)
  | inr e ↦ omega (arith, find_name-lt name rules (suc i) j (rw e at h))
]

module _ (g : Grammar) (b : IsBuilt g) where
  -- The rule that `gr__rule` returns is there, old or new.
  pub rule-Grows :
      (name : List ℕ) (i : ℕ) (g' : Grammar)
      → rule g name ≡ some (i, g')
      → Grows g g' × (i < length g'.rules)
  unfolding rule
  rule-Grows name i g' h = elim (Option-cases (find_name (take 63 name) g.rules 0)) [
    | inl e ↦ rule_new-Grows g b (take 63 name) i g' (rw (e, rule) at h)
    | inr (j, e) ↦
        let q : ◌≡◌ {A = Option (ℕ × Grammar)} (some (j, g)) (some (i, g')) = rw (e, rule) at h in
        let same : g ≡ g' = ground arith in
        let index : j ≡ i = ground arith in
        rw (← same, ← index)
          (Grows-refl g b, omega (arith, find_name-lt (take 63 name) g.rules 0 j e))
  ]

  pub anon-Grows :
      (i : ℕ) (g' : Grammar) → anon g ≡ some (i, g') → Grows g g' × (i < length g'.rules)
  unfolding anon
  anon-Grows i g' h = rule_new-Grows g b _ i g' h

pub push_all-Grows :
    (g : Grammar) (b : IsBuilt g) (ri ai n : ℕ) (sys : List Sym)
    → n ≤ length g.rules
    → All (SymBelow n) sys
    → Grows g (push_all g ri ai sys)
unfolding push_all
push_all-Grows g b ri ai n [] le h = Grows-refl g b
push_all-Grows g b ri ai n (sy ∷ sys) le h =
    let one = push-Grows g b ri ai sy (SymBelow-mono n (length g.rules) le sy h.0) in
    Grows-trans g (push g ri ai sy) _ one
      (push_all-Grows (push g ri ai sy) one.built ri ai n sys (omega (arith, one.more)) h.1)

push_if-Grows :
    (g : Grammar) (b : IsBuilt g) (test : Bool) (ri ai r : ℕ)
    → r < length g.rules
    → Grows g (if test then push g ri ai (ref r) else g)
push_if-Grows g b true ri ai r h = push-Grows g b ri ai (ref r) h
push_if-Grows g b false ri ai r h = Grows-refl g b

-- The part of `gr__postfix` behind the item's own rule `ii`.
repeated-Grows :
    (g : Grammar) (b : IsBuilt g) (ri ai ii rr : ℕ) (again once : Bool)
    → ii < length g.rules
    → rr < length g.rules
    → Grows g (repeated g ri ai ii rr again once)
unfolding repeated
repeated-Grows g b ri ai ii rr again once hi hr =
    let (a₀, g₁) = alt_new g rr in
    let s₁ = alt_new-Grows g b rr in
    let s₂ = push-Grows g₁ s₁.built rr a₀ (ref ii) (omega (arith, s₁.more)) in
    let g₂ = push g₁ rr a₀ (ref ii) in
    let s₃ = push_if-Grows g₂ s₂.built again rr a₀ rr (omega (arith, s₁.more, s₂.more)) in
    let g₃ : Grammar = if again then push g₂ rr a₀ (ref rr) else g₂ in
    let s₄ = alt_new-Grows g₃ s₃.built rr in
    let (a₁, g₄) = alt_new g₃ rr in
    let s₅ =
      push_if-Grows g₄ s₄.built once rr a₁ ii (omega (arith, s₁.more, s₂.more, s₃.more, s₄.more)) in
    let g₅ : Grammar = if once then push g₄ rr a₁ (ref ii) else g₄ in
    let s₆ =
      push-Grows g₅ s₅.built ri ai (ref rr)
        (omega (arith, s₁.more, s₂.more, s₃.more, s₄.more, s₅.more)) in
    record {
      built = s₆.built;
      more = omega (arith, s₁.more, s₂.more, s₃.more, s₄.more, s₅.more, s₆.more);
    }

pub postfix-Grows :
    (g : Grammar) (b : IsBuilt g) (ri ai n0 op : ℕ) (g' : Grammar)
    → postfix g ri ai n0 op ≡ some g'
    → Grows g g'
unfolding postfix
postfix-Grows g b ri ai n0 op g' h = elim (Bool-cases (length (drop n0 (syms_at g ri ai)) == 0)) [
  | inl e ↦
      let q : some g ≡ some g' = rw e at h in
      let same : g ≡ g' = ground arith in rw (← same) (Grows-refl g b)
  | inr e ↦
      let item = drop n0 (syms_at g ri ai) in
      let ((ii, g₁), first, h₁) = >>=-eq-some (anon g) _ (rw e at h) in
      let (s₁, i₁) = anon-Grows g b ii g₁ first in
      let s₂ = alt_new-Grows g₁ s₁.built ii in
      let (ia, g₂) = alt_new g₁ ii in
      let s₃ =
        push_all-Grows g₂ s₂.built ii ia (length g.rules) item (omega (arith, s₁.more, s₂.more))
          (All-drop _ n0 _ (syms_at-All g b ri ai)) in
      let g₃ = push_all g₂ ii ia item in
      let s₄ = edit-Grows g₃ s₃.built ri ai (take n0) (λ alt k. All-take _ n0 alt k) in
      let g₄ = edit g₃ ri ai (take n0) in
      let ((rr, g₅), second, h₂) = >>=-eq-some (anon g₄) _ h₁ in
      let (s₅, i₅) = anon-Grows g₄ s₄.built rr g₅ second in
      let s₆ =
        repeated-Grows g₅ s₅.built ri ai ii rr (op == b'*' || op == b'+') (op == b'+')
          (omega (arith, s₂.more, s₃.more, s₄.more, s₅.more)) i₅ in
      let same : repeated g₅ ri ai ii rr (op == b'*' || op == b'+') (op == b'+') ≡ g' =
        some_eq _ _ h₂ in
      subst (λ x. Grows g x) same
        (record {
          built = s₆.built;
          more = omega (arith, s₁.more, s₂.more, s₃.more, s₄.more, s₅.more, s₆.more);
        })
]
