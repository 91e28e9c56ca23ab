-- ===== src/Grammar/ItemLaws.antt =====
-- What one item of an alternate takes of the text and makes of the grammar.
use moty.Base.{
  ℕ, ◌<◌, ◌≡◌, refl, inl, inr, true, false, ◌||◌, Option, none, some, [], ◌∷◌, length, arith,
  Bool-cases, ◌==◌,
}
use moty.Grammar.Syntax.{ref, Grammar}
use moty.Grammar.Build.{rule, postfix}
use moty.Grammar.Built.{IsBuilt, Grows, Grows-trans, Grows-refl, push-Grows}
use moty.Grammar.BuiltRules.{rule-Grows, postfix-Grows}
use moty.Grammar.Lexer.{Text, peek, tail, ws, idch, ident, Error}
use moty.Grammar.LexerLaws.{Gives, Gives-bind, Steps, length-skip, length-ident, length-tail}
use moty.Grammar.Parser.{
  or_error, Item, at_end, at_close, at_bar, at_quote, at_bracket, at_open, at_name, at_other,
  item_at, after_item, name_item, close_group,
}

pub or_error-Gives :
    {A : Type 0} (e : Error) (o : Option A) (P : A → Type 0)
    → ((a : A) → o ≡ some a → P a)
    → Gives P (or_error e o)
or_error-Gives e none P k = tt
or_error-Gives e (some a) P k = k a refl

pub after_item-Steps :
    (ri ai n0 : ℕ) (g : Grammar)
    → IsBuilt g
    → (t : Text) → Gives (Steps g (length t)) (after_item ri ai n0 (g, t))
unfolding after_item
after_item-Steps ri ai n0 g b t =
    let p = ws t in
    let shorter = length-skip false t in
    elim (Bool-cases (peek p == b'?' || (peek p == b'*' || peek p == b'+'))) [
      | inl e ↦ rw e (
          Gives-bind (or_error _ (postfix g ri ai n0 (peek p))) _ (Grows g) _
            (or_error-Gives _ (postfix g ri ai n0 (peek p)) (Grows g)
              (postfix-Grows g b ri ai n0 (peek p)))
            (λ g' k. (k, omega (arith, length-tail p))))
      | inr e ↦ rw e (Grows-refl g b, omega arith)
    ]

pub name_item-Steps :
    (g : Grammar)
    → IsBuilt g
    → (ri ai : ℕ) (p : Text) → Gives (Steps g (length (ident p).1)) (name_item g ri ai p)
unfolding name_item
name_item-Steps g b ri ai p =
    let (name, rest) = ident p in
    Gives-bind (or_error _ (rule g name)) _ (λ r. Grows g r.1 × (r.0 < length r.1.rules)) _
      (or_error-Gives _ (rule g name) (λ r. Grows g r.1 × (r.0 < length r.1.rules))
        (λ r. rule-Grows g b name r.0 r.1))
      (λ r k. (Grows-trans g r.1 _ k.0 (push-Grows r.1 k.0.built ri ai (ref r.0) k.1), omega arith))

pub close_group-Steps :
    (ri ai gi : ℕ) (g : Grammar)
    → IsBuilt g
    → gi < length g.rules
    → (t : Text) → Gives (Steps g (length t)) (close_group ri ai gi (g, t))
unfolding close_group
close_group-Steps ri ai gi g b lt t =
    let p = ws t in
    let shorter = length-skip false t in
    elim (Bool-cases (peek p == b')')) [
      | inl e ↦ rw e (push-Grows g b ri ai (ref gi) lt, omega (arith, length-tail p))
      | inr e ↦ rw e tt
    ]

-- The item at a text, with the bytes that it leaves behind its first.
pub data ItemCase (p : Text) : Type 0 where
  is_end : item_at p ≡ at_end → ItemCase p
  is_close : item_at p ≡ at_close → ItemCase p
  is_bar : item_at p ≡ at_bar → length (tail p) < length p → ItemCase p
  is_quote : item_at p ≡ at_quote → length (tail p) < length p → ItemCase p
  is_bracket : item_at p ≡ at_bracket → length (tail p) < length p → ItemCase p
  is_open : item_at p ≡ at_open → length (tail p) < length p → ItemCase p
  is_name : item_at p ≡ at_name → length (ident p).1 < length p → ItemCase p
  is_other : item_at p ≡ at_other → ItemCase p

name-idch : (c : ℕ) (t : Text) → item_at (c ∷ t) ≡ at_name → idch c ≡ true
unfolding item_at
name-idch c t h = ground arith

ident-lt : (c : ℕ) (t : Text) → idch c ≡ true → length (ident (c ∷ t)).1 < length (c ∷ t)
unfolding ident
ident-lt c t h = rw h (omega (arith, length-ident t))

pub item-cases : (p : Text) → ItemCase p
unfolding item_at
item-cases [] = is_end refl
item-cases (c ∷ t) = of_item (item_at (c ∷ t)) refl
  where
    of_item : (i : Item) → item_at (c ∷ t) ≡ i → ItemCase (c ∷ t)
    of_item at_end e = is_end e
    of_item at_close e = is_close e
    of_item at_bar e = is_bar e (omega arith)
    of_item at_quote e = is_quote e (omega arith)
    of_item at_bracket e = is_bracket e (omega arith)
    of_item at_open e = is_open e (omega arith)
    of_item at_name e = is_name e (ident-lt c t (name-idch c t e))
    of_item at_other e = is_other e
