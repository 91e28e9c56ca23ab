-- ===== src/Grammar/Built.antt =====
-- What building keeps: every reference stays below the number of rules, which never falls and never
-- passes the size of the array.
use moty.Base.{
  ℕ, zero, suc, ◌≤◌, ◌<◌, ◌≡◌, refl, ap, inl, inr, some, List, [], ◌∷◌, ◌++◌, get_elem?, length,
  take, drop, All, All-append, All-get_elem?, length-append, arith, Bool-cases, Option-cases, leb,
}
use moty.Grammar.Syntax.{Sym, cls, ref, Alt, Rule, Grammar, SymBelow, RefsBelow}
use moty.Grammar.Build.{
  max_rules, modify, alts_at, syms_at, set_alts, alt_new, edit, push, rule_new, rule,
}

module _ {A : Type 0} (P : A → Type 0) where
  pub All-modify :
      (xs : List A) (i : ℕ) (f : A → A)
      → All P xs
      → ((x : A) → P x → P (f x))
      → All P (modify xs i f)
  unfolding modify
  All-modify [] i f h k = h
  All-modify (x ∷ xs) zero f h k = (k x h.0, h.1)
  All-modify (x ∷ xs) (suc i) f h k = (h.0, All-modify xs i f h.1 k)

  pub All-mono : (Q : A → Type 0) (xs : List A) → ((x : A) → P x → Q x) → All P xs → All Q xs
  All-mono Q [] k h = h
  All-mono Q (x ∷ xs) k h = (k x h.0, All-mono Q xs k h.1)

  pub All-take : (n : ℕ) (xs : List A) → All P xs → All P (take n xs)
  All-take zero xs h = tt
  All-take (suc n) [] h = tt
  All-take (suc n) (x ∷ xs) h = (h.0, All-take n xs h.1)

  pub All-drop : (n : ℕ) (xs : List A) → All P xs → All P (drop n xs)
  All-drop zero xs h = h
  All-drop (suc n) [] h = tt
  All-drop (suc n) (x ∷ xs) h = All-drop n xs h.1

length-modify : {A : Type 0} (xs : List A) (i : ℕ) (f : A → A) → length (modify xs i f) ≡ length xs
unfolding modify
length-modify [] i f = refl
length-modify (x ∷ xs) zero f = refl
length-modify (x ∷ xs) (suc i) f = ap suc (length-modify xs i f)

pub SymBelow-mono : (n m : ℕ) → n ≤ m → (sy : Sym) → SymBelow n sy → SymBelow m sy
SymBelow-mono n m le (cls c) h = tt
SymBelow-mono n m le (ref r) h = omega arith

RefsBelow-mono : (n m : ℕ) → n ≤ m → (rules : List Rule) → RefsBelow n rules → RefsBelow m rules
RefsBelow-mono n m le rules h =
    All-mono _ _ rules
      (λ rule alts.
        All-mono _ _ rule.alts (λ alt syms. All-mono _ _ alt (SymBelow-mono n m le) syms) alts)
      h

pub record IsBuilt (g : Grammar) : Type 0 where
  pub refs : RefsBelow (length g.rules) g.rules
  pub few : length g.rules ≤ max_rules

-- `g'` is built from `g`.
pub record Grows (g g' : Grammar) : Type 0 where
  pub built : IsBuilt g'
  pub more : length g.rules ≤ length g'.rules

pub Grows-trans : (g g' g'' : Grammar) → Grows g g' → Grows g' g'' → Grows g g''
Grows-trans g g' g'' a b = record { built = b.built; more = omega (arith, a.more, b.more) }

pub Grows-refl : (g : Grammar) → IsBuilt g → Grows g g
Grows-refl g b = record { built = b; more = omega arith }

module _ (g : Grammar) (b : IsBuilt g) where
  modify-Grows :
      (ri : ℕ) (f : List Alt → List Alt)
      → ((alts : List Alt)
          → All (All (SymBelow (length g.rules))) alts
          → All (All (SymBelow (length g.rules))) (f alts))
      → Grows g (record g { rules = modify g.rules ri (set_alts f) })
  unfolding set_alts
  modify-Grows ri f keep =
      let same = length-modify g.rules ri (set_alts f) in
      record {
        built = record {
          refs =
              rw same
                (All-modify _ g.rules ri (set_alts f) b.refs (λ rule alts. keep rule.alts alts));
          few = omega (arith, b.few);
        };
        more = omega arith;
      }

  pub alt_new-Grows : (ri : ℕ) → Grows g (alt_new g ri).1
  unfolding alt_new
  alt_new-Grows ri =
      modify-Grows ri (λ alts. alts ++ [] ∷ []) (λ alts h. All-append _ alts ([] ∷ []) h (tt, tt))

  pub edit-Grows :
      (ri ai : ℕ) (f : Alt → Alt)
      → ((alt : Alt)
          → All (SymBelow (length g.rules)) alt
          → All (SymBelow (length g.rules)) (f alt))
      → Grows g (edit g ri ai f)
  unfolding edit
  edit-Grows ri ai f keep =
      modify-Grows ri (λ alts. modify alts ai f) (λ alts h. All-modify _ alts ai f h keep)

  pub push-Grows : (ri ai : ℕ) (sy : Sym) → SymBelow (length g.rules) sy → Grows g (push g ri ai sy)
  unfolding push
  push-Grows ri ai sy h =
      edit-Grows ri ai (λ alt. alt ++ sy ∷ []) (λ alt k. All-append _ alt (sy ∷ []) k (h, tt))

  pub syms_at-All : (ri ai : ℕ) → All (SymBelow (length g.rules)) (syms_at g ri ai)
  unfolding syms_at alts_at
  syms_at-All ri ai = elim (Option-cases (get_elem? g.rules ri)) [
    | inl e ↦ rw (e, syms_at, alts_at) tt
    | inr (rule, e) ↦ elim (Option-cases (get_elem? rule.alts ai)) [
      | inl q ↦ rw (e, q, syms_at, alts_at) tt
      | inr (alt, q) ↦
          let alts =
            All-get_elem? (λ (r : Rule). All (All (SymBelow (length g.rules))) r.alts) g.rules ri
              rule b.refs e in
          rw (e, q, syms_at, alts_at) (All-get_elem? _ rule.alts ai alt alts q)
    ]
  ]

  -- A new rule is the last one, and names itself.
  pub rule_new-Grows :
      (name : List ℕ) (i : ℕ) (g' : Grammar)
      → rule_new g name ≡ some (i, g')
      → Grows g g' × (i < length g'.rules)
  unfolding rule_new
  rule_new-Grows name i g' h = elim (Bool-cases (leb max_rules (length g.rules))) [
    | inl full ↦ absurd (ground arith)
    | inr room ↦
        let added : Rule = record { name = name; alts = [] } in
        let grown : Grammar = record g { rules = g.rules ++ added ∷ [] } in
        let size : length (g.rules ++ added ∷ []) ≡ suc (length g.rules) =
          rw length-append (omega arith) in
        let same : g' ≡ grown = ground arith in
        let index : i ≡ length g.rules = ground arith in
        rw (same, index)
          (
            record {
              built = record {
                refs = rw size (
                    All-append _ g.rules (added ∷ [])
                      (RefsBelow-mono _ _ (omega arith) g.rules b.refs) (tt, tt));
                few = (let r = room in ground (arith, size));
              };
              more = omega (arith, size);
            },
            omega (arith, size),
          )
  ]
