-- ===== src/Grammar/Tests.antt =====
-- The walker on small grammars, and its theorems at one of them.
use moty.Base.{ℕ, ◌≡◌, refl, true, Option, none, some, [], ◌∷◌, replicate, arith, ◌==◌}
use moty.Grammar.Syntax.{Sym, cls, ref, Grammar, IsClosed, IsRunnable, alts_of, alt_of}
use moty.Grammar.Walker.{
  Walk, ok, frame_eq, stack_eq, has_stack, set_add, each_alt, top_at, top_of, branch, normalize,
  init_loop, accept_loop, State, Outcome, consumed, refused, off, state_init, accept,
}
use moty.Grammar.Safety.{IsValidState, state_init-IsValid}
use moty.Grammar.Accept.{Returns, IsResidual, accept-IsResidual, feed, Recognises, feed-Recognises}
use moty.Grammar.Draft.{mask_loop, count_set, admissible, first_set, forced_loop, forced}
use moty.Grammar.Admissible.{IsAdmissible, admissible-IsAdmissible}
use moty.Grammar.Forced.{IsForced, forced-IsForced}

-- root ::= "ab" tail        tail ::= "c" | "d" tail
abbrev only : ℕ → Sym
only c = cls (λ b. b == c)

abbrev sample : Grammar
sample = record {
  rules =
      record { name = []; alts = (only b'a' ∷ only b'b' ∷ ref 1 ∷ []) ∷ [] }
      ∷ record { name = []; alts = (only b'c' ∷ []) ∷ (only b'd' ∷ ref 1 ∷ []) ∷ [] }
      ∷ [];
  root = 0;
}

walker : Unit {0}
unfolding alts_of alt_of frame_eq stack_eq has_stack set_add each_alt top_at top_of branch normalize
    init_loop accept_loop state_init accept feed mask_loop count_set admissible first_set
    forced_loop forced
walker = tt

abbrev begun : State
begun = record { stacks = (record { r = 0; a = 0; s = 0 } ∷ []) ∷ []; alive = true }

begun-is_init : state_init sample ≡ ok begun
unfolding walker
begun-is_init = refl

forced_ab : forced sample 8 begun ≡ ok (b'a' ∷ b'b' ∷ [])
unfolding walker
forced_ab = refl

abbrev outcome : Walk (Outcome × State) → Option Outcome
outcome (ok r) = some r.0
outcome _ = none

fed : outcome (feed sample (b'a' ∷ b'b' ∷ b'd' ∷ b'c' ∷ []) begun) ≡ some consumed
unfolding walker
fed = refl

fed_wrong : outcome (feed sample (b'a' ∷ b'c' ∷ []) begun) ≡ some refused
unfolding walker
fed_wrong = refl

-- root ::= [a]*, as `gr__postfix` builds it
abbrev many : Grammar
many = record {
  rules =
      record { name = []; alts = (ref 2 ∷ []) ∷ [] }
      ∷ record { name = []; alts = (only b'a' ∷ []) ∷ [] }
      ∷ record { name = []; alts = (ref 1 ∷ ref 2 ∷ []) ∷ [] ∷ [] }
      ∷ [];
  root = 0;
}

abbrev run_many : ℕ → Option Outcome
run_many n = elim (state_init many) [ ok st ↦ outcome (feed many (replicate n b'a') st) | _ ↦ none ]

sixty_one : run_many 60 ≡ some consumed
unfolding walker
sixty_one = refl

sixty_four : run_many 64 ≡ some off
unfolding walker
sixty_four = refl

sample-IsClosed : IsClosed sample
sample-IsClosed = record { root_in = omega arith; refs_in = omega arith }

sample-IsRunnable : IsRunnable sample
sample-IsRunnable = record {
  closed = sample-IsClosed;
  narrow = record { few_rules = omega arith; few_alts = omega arith };
}

begun-IsValid : IsValidState sample begun
begun-IsValid = rw begun-is_init at (state_init-IsValid sample sample-IsRunnable)

accept-IsResidual_example :
    Returns
      (λ r. IsValidState sample r.1 × IsResidual sample b'a' begun r)
      (accept sample b'a' begun)
accept-IsResidual_example =
    accept-IsResidual sample sample-IsRunnable b'a' (omega arith) begun begun-IsValid

feed-Recognises_example :
    Returns
      (λ r. IsValidState sample r.1 × Recognises sample (b'a' ∷ b'c' ∷ []) r)
      (feed sample (b'a' ∷ b'c' ∷ []) begun)
feed-Recognises_example =
    feed-Recognises sample begun sample-IsRunnable begun-is_init refl (b'a' ∷ b'c' ∷ [])
      (omega arith)

forced-IsForced_example : Returns (IsForced sample 8 begun) (forced sample 8 begun)
forced-IsForced_example = forced-IsForced sample sample-IsRunnable 8 begun begun-IsValid

admissible-IsAdmissible_example :
    Returns (IsAdmissible sample begun.stacks) (admissible sample begun.stacks)
admissible-IsAdmissible_example = admissible-IsAdmissible sample begun.stacks begun-IsValid
