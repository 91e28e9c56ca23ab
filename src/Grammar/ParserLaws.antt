-- ===== src/Grammar/ParserLaws.antt =====
-- The parser of c/util/grammar.h ends on every text, and gives grammars that the walker can run.
use moty.Base.{
  ℕ, zero, suc, ◌≤◌, ◌<◌, inl, inr, Bool, true, false, not, ◌&&◌, length, arith, Bool-cases,
  if◌then◌else◌,
}
use moty.Grammar.Syntax.{Grammar}
use moty.Grammar.Build.{syms_at, alt_new, anon}
use moty.Grammar.Built.{IsBuilt, Grows, Grows-trans, Grows-refl, alt_new-Grows}
use moty.Grammar.BuiltRules.{anon-Grows}
use moty.Grammar.Lexer.{
  Parsed, ok, error, ◌>>=◌, Text, tail, ws, ident, lit, class, nested_too_deeply, missing_close,
  unexpected_close,
}
use moty.Grammar.LexerLaws.{
  Gives, Gives-bind, Gives-map, Steps, length-skip, lit-Steps, class-Steps,
}
use moty.Grammar.ItemLaws.{
  or_error-Gives, after_item-Steps, name_item-Steps, close_group-Steps, is_end, is_close, is_bar,
  is_quote, is_bracket, is_open, is_name, is_other, item-cases,
}
use moty.Grammar.Parser.{or_error, definition, is_some, after_item, name_item, close_group, items}

-- The loop over the items keeps its promise on one amount of fuel.
abbrev pub Loops : ℕ → Type 0
Loops fuel =
    (groups : ℕ) (in_group : Bool) (g : Grammar)
    → IsBuilt g
    → (ri ai : ℕ) (t : Text) → length t < fuel
    → Gives (Steps g (length t)) (items fuel groups in_group g ri ai t)

-- An item, its postfix and the rest of the alternates.
item_next :
    (fuel : ℕ)
    → Loops fuel
    → (groups : ℕ) (in_group : Bool) (g : Grammar) (ri ai n0 n : ℕ) → n < fuel
    → (m : Parsed (Grammar × Text)) → Gives (Steps g n) m
    → Gives
        (Steps g n)
        (m >>= after_item ri ai n0 >>= (λ r. items fuel groups in_group r.0 ri ai r.1))
item_next fuel loop groups in_group g ri ai n0 n lt m h =
    Gives-bind (m >>= after_item ri ai n0) _ (Steps g n) _
      (Gives-bind m _ (Steps g n) (Steps g n) h (λ r s.
        Gives-map (after_item ri ai n0 r) _ (Steps g n)
          (after_item-Steps ri ai n0 r.0 s.0.built r.1)
          (λ q k. (Grows-trans g r.0 q.0 s.0 k.0, omega (arith, s.1, k.1)))))
      (λ r s.
        Gives-map (items fuel groups in_group r.0 ri ai r.1) _ (Steps g n)
          (loop groups in_group r.0 s.0.built ri ai r.1 (omega (arith, s.1)))
          (λ q k. (Grows-trans g r.0 q.0 s.0 k.0, omega (arith, s.1, k.1))))

weaken :
    (g : Grammar) (n n' : ℕ)
    → n ≤ n'
    → (m : Parsed (Grammar × Text)) → Gives (Steps g n) m
    → Gives (Steps g n') m
weaken g n n' le m h = Gives-map m (Steps g n) (Steps g n') h (λ r s. (s.0, omega (arith, s.1)))

-- A group: its rule, its alternates, its end.
group-Steps :
    (fuel : ℕ)
    → Loops fuel
    → (more : ℕ) (g : Grammar) → IsBuilt g
    → (ri ai gi : ℕ) → gi < length g.rules
    → (t : Text) → length t < fuel
    → Gives
        (Steps g (length t))
        (items fuel more true (alt_new g gi).1 gi (alt_new g gi).0 t >>= close_group ri ai gi)
group-Steps fuel loop more g b ri ai gi lt t le =
    let s = alt_new-Grows g b gi in
    Gives-bind (items fuel more true (alt_new g gi).1 gi (alt_new g gi).0 t) _
      (Steps (alt_new g gi).1 (length t)) _
      (loop more true (alt_new g gi).1 s.built gi (alt_new g gi).0 t le)
      (λ r k.
        Gives-map (close_group ri ai gi r) _ _
          (close_group-Steps ri ai gi r.0 k.0.built (omega (arith, s.more, k.0.more)) r.1)
          (λ q j. (Grows-trans g r.0 q.0 (Grows-trans g _ r.0 s k.0) j.0, omega (arith, k.1, j.1))))

-- A group as an item, with the nested groups that may still begin.
opened :
    (fuel : ℕ)
    → Loops fuel
    → (groups : ℕ) (in_group : Bool) (g : Grammar) (ri ai n0 : ℕ) (t : Text) → length t < fuel
    → (r : ℕ × Grammar) → Grows g r.1 × (r.0 < length r.1.rules)
    → (nested : ℕ)
    → Gives (Steps g (length t)) (elim nested [
      | zero ↦ error nested_too_deeply
      | suc more ↦
          (let (a₀, g') = alt_new r.1 r.0 in
            items fuel more true g' r.0 a₀ t
            >>= close_group ri ai r.0
            >>= after_item ri ai n0
            >>= (λ q. items fuel groups in_group q.0 ri ai q.1))
    ])
opened fuel loop groups in_group g ri ai n0 t lt r k zero = tt
opened fuel loop groups in_group g ri ai n0 t lt r k (suc more) =
    item_next fuel loop groups in_group g ri ai n0 (length t) lt _ (
      Gives-map _ (Steps r.1 (length t)) (Steps g (length t))
        (group-Steps fuel loop more r.1 k.0.built ri ai r.0 k.1 t lt)
        (λ q j. (Grows-trans g r.1 q.0 k.0 j.0, j.1)))

ends :
    (P : Grammar × Text → Type 0) (test : Bool) (r : Grammar × Text)
    → P r
    → Gives P (if test then error missing_close else ok r)
ends P true r h = tt
ends P false r h = h

closes :
    (P : Grammar × Text → Type 0) (test : Bool) (r : Grammar × Text)
    → P r
    → Gives P (if test then ok r else error unexpected_close)
closes P true r h = h
closes P false r h = tt

pub items-Steps : (fuel : ℕ) → Loops fuel
unfolding items
items-Steps zero groups in_group g b ri ai t lt = absurd (omega arith)
items-Steps (suc fuel) groups in_group g b ri ai t lt =
    let p = ws t in
    let le = length-skip false t in
    let n0 = length (syms_at g ri ai) in
    elim (item-cases p) [
      | is_end e ↦ rw (e, items) (ends _ in_group (g, p) (Grows-refl g b, le))
      | is_close e ↦ rw (e, items) (closes _ in_group (g, p) (Grows-refl g b, le))
      | is_bar e short ↦
          let s = alt_new-Grows g b ri in
          rw (e, items)
            (Gives-map (items fuel groups in_group (alt_new g ri).1 ri (alt_new g ri).0 (tail p)) _
              _
              (items-Steps fuel groups in_group _ s.built ri _ (tail p) (omega (arith, le, short)))
              (λ r k. (Grows-trans g _ r.0 s k.0, omega (arith, le, short, k.1))))
      | is_quote e short ↦
          rw (e, items)
            (weaken g (length (tail p)) (length t) (omega (arith, le, short)) _ (
              item_next fuel (items-Steps fuel) groups in_group g ri ai n0 (length (tail p))
                (omega (arith, le, short)) (lit fuel g ri ai (tail p))
                (lit-Steps fuel g b ri ai (tail p) (omega (arith, le, short)))))
      | is_bracket e short ↦
          rw (e, items)
            (weaken g (length (tail p)) (length t) (omega (arith, le, short)) _ (
              item_next fuel (items-Steps fuel) groups in_group g ri ai n0 (length (tail p))
                (omega (arith, le, short)) (class fuel g ri ai (tail p))
                (class-Steps fuel g b ri ai (tail p) (omega (arith, le, short)))))
      | is_open e short ↦
          rw (e, items)
            (Gives-bind (or_error _ (anon g)) _ (λ r. Grows g r.1 × (r.0 < length r.1.rules)) _
              (or_error-Gives _ (anon g) (λ r. Grows g r.1 × (r.0 < length r.1.rules))
                (λ r. anon-Grows g b r.0 r.1))
              (λ r k. weaken g (length (tail p)) (length t) (omega (arith, le, short)) _ (
                opened fuel (items-Steps fuel) groups in_group g ri ai n0 (tail p)
                  (omega (arith, le, short)) r k groups)))
      | is_name e short ↦
          elim (Bool-cases (not in_group && is_some (definition (ws (ident p).1)))) [
            | inl q ↦ rw (e, q, items) (Grows-refl g b, le)
            | inr q ↦
                rw (e, q, items)
                  (weaken g (length (ident p).1) (length t) (omega (arith, le, short)) _ (
                    item_next fuel (items-Steps fuel) groups in_group g ri ai n0
                      (length (ident p).1) (omega (arith, le, short)) (name_item g ri ai p)
                      (name_item-Steps g b ri ai p)))
          ]
      | is_other e ↦ rw (e, items) tt
    ]
