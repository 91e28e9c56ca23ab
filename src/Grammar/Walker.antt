-- ===== src/Grammar/Walker.antt =====
-- The walker of c/util/grammar.h: a pushdown automaton that follows a set of stacks.
use moty.Base.{
  ℕ, zero, suc, Bool, true, false, ◌&&◌, ◌||◌, Option, none, some, List, [], ◌∷◌, ◌++◌, get_elem?,
  length, leb, ◌==◌, if◌then◌else◌,
}
use moty.Grammar.Syntax.{
  Sym, cls, ref, ByteSet, Alt, Grammar, Frame, Stack, alts_of, alt_of, int16, all_nonneg,
}

-- `GR_MAX_STACKS` and `GR_MAX_DEPTH`.
abbrev pub max_stacks : ℕ
max_stacks = 64

abbrev pub max_depth : ℕ
max_depth = 64

-- `overflow` is the code's 0, the fail-safe; `fault` is a read outside an array.
pub data Walk {ℓ} (A : Type ℓ) : Type ℓ where
  ok : A → Walk A
  overflow : Walk A
  fault : Walk A

infixl 5 ◌>>=◌
abbrev pub ◌>>=◌ {ℓ κ} : {A : Type ℓ} {B : Type κ} → Walk A → (A → Walk B) → Walk B
ok a >>= f = f a
overflow >>= f = overflow
fault >>= f = fault

-- The symbol at the top frame: its alternate is missing, exhausted, or at a class or a reference.
pub data Top : Type 0 where
  broken : Top
  exhausted : Top
  terminal : ByteSet → Top
  call : ℕ → Top

abbrev pub as_top : Option Sym → Top
as_top none = exhausted
as_top (some (cls c)) = terminal c
as_top (some (ref r)) = call r

unfoldable pub frame_eq : Frame → Frame → Bool
frame_eq f f' = f.r == f'.r && (f.a == f'.a && f.s == f'.s)

-- The comparison of `gr__set_add`: equal depths and equal frames.
unfoldable pub stack_eq : Stack → Stack → Bool
stack_eq [] [] = true
stack_eq [] (f' ∷ k') = false
stack_eq (f ∷ k) [] = false
stack_eq (f ∷ k) (f' ∷ k') = frame_eq f f' && stack_eq k k'

unfoldable pub has_stack : Stack → List Stack → Bool
has_stack k [] = false
has_stack k (k' ∷ ks) = stack_eq k' k || has_stack k ks

-- `gr__set_add`
unfoldable pub set_add : List Stack → Stack → Walk (List Stack)
set_add out k =
    if has_stack k out
    then ok out
    else if leb max_stacks (length out)
    then overflow
    else ok (out ++ k ∷ [])

-- The frame at the start of an alternate; `t->s++`.
abbrev pub new_frame : ℕ → ℕ → Frame
new_frame r a = record { r = int16 r; a = int16 a; s = 0 }

abbrev pub step_frame : Frame → Frame
step_frame f = record f { s = int16 (suc f.s) }

-- The loop over the alternates of a referenced rule: one copy of the stack for each.
unfoldable pub each_alt :
    (Stack → List Stack → Walk (List Stack))
    → ℕ
    → Stack
    → List Alt
    → ℕ
    → List Stack
    → Walk (List Stack)
each_alt go r k [] a out = ok out
each_alt go r k (alt ∷ alts) a out =
    if leb max_depth (length k)
    then overflow
    else go (new_frame r a ∷ k) out >>= each_alt go r k alts (suc a)

module _ (g : Grammar) where
  unfoldable pub top_at : Frame → Top
  top_at f = elim (alt_of g f.r f.a) [ none ↦ broken | some alt ↦ as_top (get_elem? alt f.s) ]

  unfoldable pub top_of : Frame → Top
  top_of f = if all_nonneg f then top_at f else broken

  unfoldable pub branch :
      (Stack → List Stack → Walk (List Stack)) → ℕ → Stack → List Stack → Walk (List Stack)
  branch go r k out = elim (alts_of g r) [ none ↦ fault | some alts ↦ each_alt go r k alts 0 out ]

  -- `gr__normalize`; the first argument is `GR_MAX_DEPTH - depth`.
  unfoldable pub normalize : ℕ → Stack → List Stack → Walk (List Stack)
  normalize d [] out = set_add out []
  normalize zero (f ∷ k) out = elim (top_of f) [
    | broken ↦ fault
    | exhausted ↦ normalize zero k out
    | terminal c ↦ set_add out (f ∷ k)
    | call r ↦ overflow
  ]
  normalize (suc d) (f ∷ k) out = elim (top_of f) [
    | broken ↦ fault
    | exhausted ↦ normalize (suc d) k out
    | terminal c ↦ set_add out (f ∷ k)
    | call r ↦ branch (normalize d) r (step_frame f ∷ k) out
  ]

  -- The loop of `gr_state_init` over the alternates of the root rule.
  unfoldable pub init_loop : List Alt → ℕ → List Stack → Walk (List Stack)
  init_loop [] a out = ok out
  init_loop (alt ∷ alts) a out =
      normalize max_depth (new_frame g.root a ∷ []) out >>= init_loop alts (suc a)

  -- The loop of `gr_accept` over the stacks. The class of a reference has no bit set.
  unfoldable pub accept_loop : ℕ → List Stack → List Stack → Walk (List Stack)
  accept_loop b [] out = ok out
  accept_loop b ([] ∷ ks) out = accept_loop b ks out
  accept_loop b ((f ∷ k) ∷ ks) out = elim (top_of f) [
    | broken ↦ fault
    | exhausted ↦ fault
    | call r ↦ accept_loop b ks out
    | terminal c ↦
        (if c b then normalize max_depth (step_frame f ∷ k) out else ok out) >>= accept_loop b ks
  ]

-- `GrState`, for a fixed grammar.
pub record State : Type 0 where
  pub stacks : List Stack
  pub alive : Bool

-- The results 1, 0 and -1 of `gr_accept`.
pub data Outcome : Type 0 where
  consumed refused off : Outcome

-- What an initial set of stacks makes of the state.
abbrev pub start : Walk (List Stack) → Walk State
start fault = fault
start overflow = ok (record { stacks = []; alive = false })
start (ok []) = ok (record { stacks = []; alive = false })
start (ok (k ∷ ks)) = ok (record { stacks = k ∷ ks; alive = true })

-- What the stacks after a byte make of the state.
abbrev pub settle : State → Walk (List Stack) → Walk (Outcome × State)
settle st fault = fault
settle st overflow = ok (off, record st { alive = false })
settle st (ok []) = ok (refused, st)
settle st (ok (k ∷ ks)) = ok (consumed, record st { stacks = k ∷ ks })

module _ (g : Grammar) where
  unfoldable pub state_init : Walk State
  state_init = elim (alts_of g g.root) [ none ↦ fault | some alts ↦ start (init_loop g alts 0 []) ]

  unfoldable pub accept : ℕ → State → Walk (Outcome × State)
  accept b st = if st.alive then settle st (accept_loop g b st.stacks []) else ok (off, st)
