-- ===== src/Grammar/Language.antt =====
-- What a grammar means: the words of bytes that a sequence of symbols derives. This is the
-- description that the walker of c/util/grammar.h is compared with.
use moty.Base.{ℕ, ◌<◌, ◌≡◌, true, none, some, List, [], ◌∷◌, ◌++◌, drop, Any}
use moty.Grammar.Syntax.{Sym, cls, ref, ByteSet, Alt, Grammar, Frame, Stack, alt_of}

module _ (g : Grammar) where
  -- A class takes one byte; a reference is replaced by one of the rule's alternates.
  pub data Matches : List Sym → List ℕ → Type 0 where
    done : Matches [] []
    byte :
        {c : ByteSet} {b : ℕ} {ss : List Sym} {w : List ℕ}
        → b < 256
        → c b ≡ true
        → Matches ss w
        → Matches (cls c ∷ ss) (b ∷ w)
    expand :
        {r : ℕ} {ss : List Sym} {w : List ℕ} (a : ℕ) (alt : Alt)
        → alt_of g r a ≡ some alt
        → Matches (alt ++ ss) w
        → Matches (ref r ∷ ss) w

  -- The words of the grammar.
  abbrev pub InLanguage : List ℕ → Type 0
  InLanguage w = Matches (ref g.root ∷ []) w

  -- What is left to read in a frame, and in a stack: the symbols from each frame's position on.
  unfoldable pub rest_of : Frame → List Sym
  rest_of f = elim (alt_of g f.r f.a) [ none ↦ [] | some alt ↦ drop f.s alt ]

  unfoldable pub symbols : Stack → List Sym
  symbols [] = []
  symbols (f ∷ k) = rest_of f ++ symbols k

  -- A set of stacks derives what one of its stacks does.
  abbrev pub Accepts : List Stack → List ℕ → Type 0
  Accepts ks w = Any (λ k. Matches (symbols k) w) ks
