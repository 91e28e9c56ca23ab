-- ===== src/Tier.antt =====
-- c/io/tier.c: the LFRU score of an expert, and which resident expert to replace by which other.
use moty.Base.{
  ℤ, pos, negsuc, sub, ℕ, zero, suc, ◌+◌, ◌-◌, ◌*◌, ◌/◌, ◌%◌, ◌^◌, Bool, true, false, not, ◌&&◌,
  ◌||◌, Option, none, some, List, [], ◌∷◌, map, length, ltb, leb, ◌==◌, if◌then◌else◌,
}
pub mod Laws
pub mod Hottest
pub mod Picks
mod Tests

-- The values of `uint32_t`.
abbrev pub word : ℕ
word = 2 ^ 32

-- `tier_lfru_score`: `recent` is below 256, so that `(heat<<8)|recent` is a sum.
unfoldable pub lfru_score : ℕ → ℕ → ℕ → ℕ
lfru_score heat last clock =
    let age = (clock + word - last) % word in
    let recent = if ltb age 255 then 255 - age else 0 in heat * 256 + recent

-- The first index of a least score: the rest of the list, its index, and the best so far.
unfoldable pub coldest : (ℕ → ℕ) → List ℕ → ℕ → ℕ → ℕ → ℕ × ℕ
coldest score [] z cold fc = (cold, fc)
coldest score (e ∷ es) z cold fc =
    let less = ltb (score e) fc in
    coldest score es (suc z) (if less then z else cold) (if less then score e else fc)

unfoldable pub resident : ℕ → List ℕ → Bool
resident e [] = false
resident e (p ∷ ps) = p == e || resident e ps

-- The scan of `tier_pick_swap` over the experts that are not resident: the first of the greatest heat
-- above 0, with the number of experts left.
unfoldable pub hottest : (ℕ → ℕ) → List ℕ → ℕ → ℕ → Option ℕ → ℕ → Option ℕ × ℕ
hottest heat pinned zero e hot fh = (hot, fh)
hottest heat pinned (suc n) e hot fh =
    let more = not (resident e pinned) && ltb fh (heat e) in
    hottest heat pinned n (suc e) (if more then some e else hot) (if more then heat e else fh)

abbrev pub is_none : Option ℕ → Bool
is_none none = true
is_none (some e) = false

-- The scan of `tier_pick_lfru`, which takes the first expert whatever its score.
unfoldable pub hottest_score : (ℕ → ℕ) → List ℕ → ℕ → ℕ → Option ℕ → ℕ → Option ℕ × ℕ
hottest_score score pinned zero e hot hs = (hot, hs)
hottest_score score pinned (suc n) e hot hs =
    let more = not (resident e pinned) && (is_none hot || ltb hs (score e)) in
    hottest_score score pinned n (suc e) (if more then some e else hot)
      (if more then score e else hs)

-- The slot to replace, the expert to put there and what is gained.
pub record Swap : Type 0 where
  pub slot : ℕ
  pub eid : ℕ
  pub gain : ℤ

-- The end of `tier_pick_swap`: the threshold is computed in 32 bits.
unfoldable pub swap_if_worth : ℕ → ℕ → Option ℕ × ℕ → Option Swap
swap_if_worth cold fc (none, fh) = none
swap_if_worth cold fc (some hot, fh) =
    if leb fh ((fc + fc / 4 + 4) % word)
    then none
    else some (record { slot = cold; eid = hot; gain = sub fh fc })

-- `tier_pick_swap` over `nexpert` experts. (Its null checks are on arrays that are there.)
unfoldable pub pick_swap : (ℕ → ℕ) → ℕ → List ℕ → Option Swap
pick_swap heat zero pinned = none
pick_swap heat (suc n) [] = none
pick_swap heat (suc n) (p ∷ ps) =
    let (cold, fc) = coldest heat ps 1 0 (heat p) in
    swap_if_worth cold fc (hottest heat (p ∷ ps) (suc n) 0 none 0)

-- The end of `tier_pick_lfru`, in 64 bits, which the scores do not fill.
unfoldable pub lfru_if_worth : ℕ → ℕ → Option ℕ × ℕ → Option Swap
lfru_if_worth cold cs (none, hs) = none
lfru_if_worth cold cs (some hot, hs) =
    if leb hs (cs + cs / 4 + 1024)
    then none
    else some (record { slot = cold; eid = hot; gain = pos ((hs - cs) / 256) })

-- `tier_pick_lfru`
unfoldable pub pick_lfru : (ℕ → ℕ) → (ℕ → ℕ) → ℕ → ℕ → List ℕ → Option Swap
pick_lfru heat last clock zero pinned = none
pick_lfru heat last clock (suc n) [] = none
pick_lfru heat last clock (suc n) (p ∷ ps) =
    let score = λ (e : ℕ). lfru_score (heat e) (last e) clock in
    let (cold, cs) = coldest score ps 1 0 (score p) in
    lfru_if_worth cold cs (hottest_score score (p ∷ ps) (suc n) 0 none 0)

-- `tier_decay`
unfoldable pub decay : List ℕ → List ℕ
decay = map (λ h. h / 2)
