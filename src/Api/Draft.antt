-- ===== src/Api/Draft.antt =====
-- The proposals of the lookahead decode: what follows the answer's suffix in the draft.
use moty.Base.{
  ℕ, zero, suc, ◌-◌, ℤ, pos, int_eq, Option, none, some, List, [], ◌∷◌, take, drop, length, ltb,
  if◌then◌else◌,
}
use moty.Api.Types.{Sampling}
use moty.Api.Sampling.{above_zero, value, numbers_at}

-- What follows the answer's tokens, if the draft begins with them.
unfoldable pub after_suffix : List ℕ → List ℤ → Option (List ℤ)
after_suffix [] draft = some draft
after_suffix (t ∷ ts) [] = none
after_suffix (t ∷ ts) (d ∷ draft) =
    let rest = after_suffix ts draft in if int_eq d (pos t) then rest else none

abbrev pub orelse : List ℤ → List ℤ → List ℤ
orelse [] other = other
orelse (q ∷ qs) other = q ∷ qs

abbrev pub listed : Option (List ℤ) → List ℤ
listed none = []
listed (some qs) = qs

-- The loop over the positions `j` of the draft.
unfoldable pub followers : ℕ → List ℕ → List ℤ → List ℤ
followers kmax suffix [] = []
followers kmax suffix (d ∷ draft) =
    orelse (take kmax (listed (after_suffix suffix (d ∷ draft)))) (followers kmax suffix draft)

-- The loop over the lengths of the suffix, from `len` down.
unfoldable pub suffixes : ℕ → ℕ → List ℕ → List ℤ → List ℤ
suffixes zero kmax gen draft = []
suffixes (suc len) kmax gen draft =
    orelse (followers kmax (drop (length gen - suc len) gen) draft) (suffixes len kmax gen draft)

abbrev pub smaller : ℕ → ℕ → ℕ
smaller a b = if ltb a b then a else b

-- `dk`
abbrev pub draft_step : Sampling → ℕ
draft_step s = if above_zero s.draft_k then value s.draft_k else 2

-- `prop`, with the tokens that may still be emitted; `gen` is NULL unless the decode looks ahead.
unfoldable pub proposals : Sampling → ℕ → Option (List ℕ) → List ℤ
proposals s budget none = []
proposals s budget (some gen) =
    if ltb 0 budget
    then suffixes (smaller (length gen) 3) (smaller (smaller (draft_step s) 15) budget) gen
        (numbers_at s.draft s.n_draft)
    else []
