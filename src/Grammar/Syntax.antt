-- ===== src/Grammar/Syntax.antt =====
-- The data of c/util/grammar.h: byte classes, symbols, alternates, rules, grammars and the frames
-- of the walker's stacks.
use moty.Base.{
  ℕ, ◌<◌, ◌≤◌, ◌%◌, ◌^◌, Bool, ◌&&◌, Option, none, some, List, get_elem?, All, length, ltb,
}

-- The bitmap of `GrCls`, as its membership test: bit `b & 7` of `bits[b >> 3]` is the value at `b`.
abbrev pub ByteSet : Type 0
ByteSet = ℕ → Bool

pub data Sym : Type 0 where
  cls : ByteSet → Sym
  ref : ℕ → Sym

abbrev pub Alt : Type 0
Alt = List Sym

pub record Rule : Type 0 where
  pub name : List ℕ
  pub alts : List Alt

pub record Grammar : Type 0 where
  pub rules : List Rule
  pub root : ℕ

-- The 16 bits of an `int16_t`, and whether they stand for a number that is not negative.
abbrev pub int16 : ℕ → ℕ
int16 n = n % 2 ^ 16

abbrev pub nonneg : ℕ → Bool
nonneg n = ltb n (2 ^ 15)

-- `GrFrame`: a position inside an alternate, each number as its 16 bits.
pub record Frame : Type 0 where
  pub r : ℕ
  pub a : ℕ
  pub s : ℕ

-- An index of the frame is negative, and its use reads outside an array, unless all are in range.
abbrev pub all_nonneg : Frame → Bool
all_nonneg f = nonneg f.r && (nonneg f.a && nonneg f.s)

-- `GrStack`, its top first.
abbrev pub Stack : Type 0
Stack = List Frame

module _ (g : Grammar) where
  -- `G->r[r]`: the alternates of a rule.
  unfoldable pub alts_of : ℕ → Option (List Alt)
  alts_of r = elim (get_elem? g.rules r) [ none ↦ none | some rule ↦ some rule.alts ]

  -- `G->r[r].a[a]`: an alternate.
  unfoldable pub alt_of : ℕ → ℕ → Option Alt
  alt_of r a = elim (alts_of r) [ none ↦ none | some alts ↦ get_elem? alts a ]

-- A reference is to a rule below `n`.
abbrev pub SymBelow : ℕ → Sym → Type 0
SymBelow n (cls c) = Unit
SymBelow n (ref r) = r < n

abbrev pub RefsBelow : ℕ → List Rule → Type 0
RefsBelow n rules = All (λ (rule : Rule). All (All (SymBelow n)) rule.alts) rules

-- Every reference names a rule, and so does the root.
pub record IsClosed (g : Grammar) : Type 0 where
  pub root_in : g.root < length g.rules
  pub refs_in : RefsBelow (length g.rules) g.rules

-- The numbers of rules, of the alternates of a rule and of the symbols of an alternate are such that
-- every position is an `int16_t`.
pub record IsNarrow (g : Grammar) : Type 0 where
  pub few_rules : length g.rules ≤ 2 ^ 15
  pub few_alts :
      All
        (λ (rule : Rule).
          (length rule.alts ≤ 2 ^ 15) × All (λ (alt : Alt). length alt < 2 ^ 15) rule.alts)
        g.rules

-- A grammar that the walker can run.
pub record IsRunnable (g : Grammar) : Type 0 where
  pub closed : IsClosed g
  pub narrow : IsNarrow g
