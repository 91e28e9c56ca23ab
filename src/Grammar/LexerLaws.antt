-- ===== src/Grammar/LexerLaws.antt =====
-- The readers of c/util/grammar.h end: each leaves no more text than it was given, and on enough fuel
-- the loops do not run out of it.
use moty.Base.{
  ℕ, zero, suc, ◌≤◌, ◌<◌, ◌≡◌, inl, inr, Bool, false, not, ◌&&◌, Option, none, some, [], ◌∷◌,
  length, arith, Bool-cases, Option-cases, ◌==◌,
}
use moty.Grammar.Syntax.{cls, ByteSet, Grammar}
use moty.Grammar.Build.{push}
use moty.Grammar.Built.{IsBuilt, Grows, Grows-trans, Grows-refl, push-Grows}
use moty.Grammar.Lexer.{
  Parsed, ok, error, overread, no_fuel, ◌>>=◌, Text, peek, tail, ws_step, skip, idch, ident, hex,
  esc_hex, esc, simple_escape, read_byte, single, lit, invalid_escape_in_literal,
  invalid_escape_in_class, upper, add_range, cls_loop, class,
}

-- A result satisfies `P`, and the fuel did not run out.
abbrev pub Gives : {A : Type 0} → (A → Type 0) → Parsed A → Type 0
Gives P (ok a) = P a
Gives P (error e) = Unit
Gives P overread = Unit
Gives P no_fuel = ⊥

pub Gives-bind :
    {A B : Type 0} (m : Parsed A) (f : A → Parsed B) (P : A → Type 0) (Q : B → Type 0)
    → Gives P m
    → ((a : A) → P a → Gives Q (f a))
    → Gives Q (m >>= f)
Gives-bind (ok a) f P Q h k = k a h
Gives-bind (error e) f P Q h k = tt
Gives-bind overread f P Q h k = tt
Gives-bind no_fuel f P Q h k = h

pub Gives-map :
    {A : Type 0} (m : Parsed A) (P Q : A → Type 0) → Gives P m → ((a : A) → P a → Q a) → Gives Q m
Gives-map (ok a) P Q h k = k a h
Gives-map (error e) P Q h k = tt
Gives-map overread P Q h k = tt
Gives-map no_fuel P Q h k = h

-- The grammar is built from `g`, and at most `n` bytes are left.
abbrev pub Steps : Grammar → ℕ → Grammar × Text → Type 0
Steps g n r = Grows g r.0 × (length r.1 ≤ n)

-- A byte that was read leaves at most `n` bytes.
abbrev pub Leaves : ℕ → Option (ℕ × Text) → Type 0
Leaves n none = Unit
Leaves n (some r) = length r.1 ≤ n

pub length-skip : (comment : Bool) (t : Text) → length (skip comment t) ≤ length t
unfolding skip
length-skip comment [] = omega arith
length-skip comment (c ∷ t) = elim (Option-cases (ws_step comment c)) [
  | inl e ↦ rw (e, skip) (omega arith)
  | inr (mode, e) ↦ rw (e, skip) (omega (arith, length-skip mode t))
]

pub length-ident : (t : Text) → length (ident t).1 ≤ length t
unfolding ident
length-ident [] = omega arith
length-ident (c ∷ t) = elim (Bool-cases (idch c)) [
  | inl e ↦ rw e (omega (arith, length-ident t))
  | inr e ↦ rw e (omega arith)
]

-- An identifier that is not empty takes a byte.
pub length-ident_some :
    (t : Text) (c : ℕ) (name : Text) → (ident t).0 ≡ c ∷ name → length (ident t).1 < length t
unfolding ident
length-ident_some [] c name h = cc
length-ident_some (d ∷ t) c name h = elim (Bool-cases (idch d)) [
  | inl e ↦ rw e (omega (arith, length-ident t))
  | inr e ↦ absurd (let q = rw e at h in cc)
]

pub length-tail : (t : Text) → length (tail t) ≤ length t
length-tail [] = omega arith
length-tail (c ∷ t) = omega arith

esc_hex-Leaves : (t : Text) → Gives (Leaves (length t)) (esc_hex t)
unfolding esc_hex
esc_hex-Leaves [] = tt
esc_hex-Leaves (h ∷ t) = elim (Option-cases (hex h)) [
  | inl e ↦ rw (e, esc_hex) tt
  | inr (hi, e) ↦ elim (Option-cases (hex (peek t))) [
    | inl q ↦ rw (e, q, esc_hex) tt
    | inr (lo, q) ↦ rw (e, q, esc_hex) (omega (arith, length-tail t))
  ]
]

Leaves-suc : (n : ℕ) (o : Option (ℕ × Text)) → Leaves n o → Leaves (suc n) o
Leaves-suc n none h = tt
Leaves-suc n (some r) h = omega arith

esc-Leaves : (t : Text) → Gives (Leaves (length t)) (esc t)
unfolding esc
esc-Leaves [] = tt
esc-Leaves (c ∷ t) = elim (Option-cases (simple_escape c)) [
  | inr (b, e) ↦ rw (e, esc) (omega arith)
  | inl e ↦ elim (Bool-cases (c == b'x')) [
    | inl q ↦ rw (e, q, esc) (Gives-map (esc_hex t) _ _ (esc_hex-Leaves t) (Leaves-suc (length t)))
    | inr q ↦ rw (e, q, esc) tt
  ]
]

pub read_byte-Leaves : (c : ℕ) (t : Text) → Gives (Leaves (length t)) (read_byte c t)
unfolding read_byte
read_byte-Leaves c t = elim (Bool-cases (c == b'\\')) [
  | inl e ↦ rw e (esc-Leaves t)
  | inr e ↦ rw e (omega arith)
]

-- One round of a loop over bytes, from the loop on less fuel.
lit_next :
    (fuel : ℕ) (g : Grammar) (b : IsBuilt g) (ri ai n : ℕ)
    → n < fuel
    → ((g' : Grammar)
        → IsBuilt g'
        → (ri ai : ℕ) (t : Text) → length t < fuel
        → Gives (Steps g' (length t)) (lit fuel g' ri ai t))
    → (o : Option (ℕ × Text)) → Leaves n o
    → Gives (Steps g (suc n)) (elim o [
      | none ↦ error invalid_escape_in_literal
      | some (x, rest) ↦ lit fuel (push g ri ai (cls (single x))) ri ai rest
    ])
lit_next fuel g b ri ai n lt loop none h = tt
lit_next fuel g b ri ai n lt loop (some (x, rest)) h =
    let one = push-Grows g b ri ai (cls (single x)) tt in
    Gives-map (lit fuel (push g ri ai (cls (single x))) ri ai rest) _ _
      (loop _ one.built ri ai rest (omega arith))
      (λ r s. (Grows-trans g _ r.0 one s.0, omega (arith, s.1)))

pub lit-Steps :
    (fuel : ℕ) (g : Grammar)
    → IsBuilt g
    → (ri ai : ℕ) (t : Text) → length t < fuel
    → Gives (Steps g (length t)) (lit fuel g ri ai t)
unfolding lit
lit-Steps zero g b ri ai t lt = absurd (omega arith)
lit-Steps (suc fuel) g b ri ai [] lt = tt
lit-Steps (suc fuel) g b ri ai (c ∷ t) lt = elim (Bool-cases (c == b'"')) [
  | inl e ↦ rw (e, lit) (Grows-refl g b, omega arith)
  | inr e ↦
      rw (e, lit)
        (Gives-bind (read_byte c t) _ _ _ (read_byte-Leaves c t)
          (lit_next fuel g b ri ai (length t) (omega arith) (lit-Steps fuel)))
]

upper-Leaves : (lo : ℕ) (t : Text) → Gives (Leaves (length t)) (upper lo t)
unfolding upper
upper-Leaves lo [] = omega arith
upper-Leaves lo (c ∷ []) = omega arith
upper-Leaves lo (c ∷ d ∷ t) = elim (Bool-cases (c == b'-' && not (d == b']'))) [
  | inl e ↦ rw e (
      Gives-map (read_byte d t) _ _ (read_byte-Leaves d t)
        (λ o h. Leaves-suc (suc (length t)) o (Leaves-suc (length t) o h)))
  | inr e ↦ rw e (omega arith)
]

cls_next :
    (fuel : ℕ) (m : ByteSet) (lo n : ℕ)
    → n < fuel
    → ((m' : ByteSet) (t : Text)
        → length t < fuel
        → Gives (λ r. length r.1 ≤ length t) (cls_loop fuel m' t))
    → (o : Option (ℕ × Text)) → Leaves n o
    → Gives
        (λ r. length r.1 ≤ suc n)
        (elim o [
          | none ↦ error invalid_escape_in_class
          | some (hi, rest) ↦ cls_loop fuel (add_range m lo hi) rest
        ])
cls_next fuel m lo n lt loop none h = tt
cls_next fuel m lo n lt loop (some (hi, rest)) h =
    Gives-map (cls_loop fuel (add_range m lo hi) rest) _ _ (loop _ rest (omega arith))
      (λ r s. omega arith)

cls_first :
    (fuel : ℕ) (m : ByteSet) (n : ℕ)
    → n < fuel
    → ((m' : ByteSet) (t : Text)
        → length t < fuel
        → Gives (λ r. length r.1 ≤ length t) (cls_loop fuel m' t))
    → (o : Option (ℕ × Text)) → Leaves n o
    → Gives
        (λ r. length r.1 ≤ suc n)
        (elim o [
          | none ↦ error invalid_escape_in_class
          | some (lo, after) ↦ upper lo after >>= λ q. elim q [
            | none ↦ error invalid_escape_in_class
            | some (hi, rest) ↦ cls_loop fuel (add_range m lo hi) rest
          ]
        ])
cls_first fuel m n lt loop none h = tt
cls_first fuel m n lt loop (some (lo, after)) h =
    Gives-bind (upper lo after) _ _ _ (upper-Leaves lo after) (λ o k.
      Gives-map _ (λ r. length r.1 ≤ suc (length after)) _
        (cls_next fuel m lo (length after) (omega arith) loop o k) (λ r s. omega arith))

cls_loop-le :
    (fuel : ℕ) (m : ByteSet) (t : Text)
    → length t < fuel
    → Gives (λ r. length r.1 ≤ length t) (cls_loop fuel m t)
unfolding cls_loop
cls_loop-le zero m t lt = absurd (omega arith)
cls_loop-le (suc fuel) m [] lt = tt
cls_loop-le (suc fuel) m (c ∷ t) lt = elim (Bool-cases (c == b']')) [
  | inl e ↦ rw (e, cls_loop) (omega arith)
  | inr e ↦
      rw (e, cls_loop)
        (Gives-bind (read_byte c t) _ _ _ (read_byte-Leaves c t)
          (cls_first fuel m (length t) (omega arith) (cls_loop-le fuel)))
]

pub class-Steps :
    (fuel : ℕ) (g : Grammar)
    → IsBuilt g
    → (ri ai : ℕ) (t : Text) → length t < fuel
    → Gives (Steps g (length t)) (class fuel g ri ai t)
unfolding class
class-Steps fuel g b ri ai t lt = elim (Bool-cases (peek t == b'^')) [
  | inl e ↦ rw e (
      Gives-bind (cls_loop fuel (λ b. false) (tail t)) _ _ _
        (cls_loop-le fuel (λ b. false) (tail t) (omega (arith, length-tail t)))
        (λ r h. (push-Grows g b ri ai (cls (λ x. not (r.0 x))) tt, omega (arith, length-tail t))))
  | inr e ↦ rw e (
      Gives-bind (cls_loop fuel (λ b. false) t) _ _ _ (cls_loop-le fuel (λ b. false) t lt)
        (λ r h. (push-Grows g b ri ai (cls r.0) tt, h)))
]
