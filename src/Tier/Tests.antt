-- ===== src/Tier/Tests.antt =====
-- The picks on small counts.
use moty.Base.{
  pos, negsuc, ℕ, ◌≡◌, refl, none, some, [], ◌∷◌, arith, ◌^◌, ◌-◌, ◌*◌, ◌==◌, ltb, if◌then◌else◌,
}
use moty.Tier.{
  lfru_score, coldest, resident, hottest, hottest_score, swap_if_worth, pick_swap, lfru_if_worth,
  pick_lfru, decay,
}
use moty.Tier.Picks.{Picks, score_now, pick_lfru-Picks, pick_swap-Picks}

picker : Unit {0}
unfolding lfru_score coldest resident hottest hottest_score swap_if_worth pick_swap lfru_if_worth
    pick_lfru decay
picker = tt

-- Six experts of heat 0, 5, 10, 15, 20 and 100.
abbrev heats : ℕ → ℕ
heats e = if ltb e 5 then 5 * e else 100

abbrev lasts : ℕ → ℕ
lasts _ = 7

swapped : pick_swap heats 6 (2 ∷ 1 ∷ 3 ∷ []) ≡ some (record { slot = 1; eid = 5; gain = pos 95 })
unfolding picker
swapped = refl

kept : pick_swap heats 5 (4 ∷ 3 ∷ 2 ∷ []) ≡ none
unfolding picker
kept = refl

swapped_lfru :
    pick_lfru heats lasts 9 6 (2 ∷ 1 ∷ 3 ∷ []) ≡ some (record { slot = 1; eid = 5; gain = pos 95 })
unfolding picker
swapped_lfru = refl

-- The threshold of `tier_pick_swap` wraps around: a heat of 2^32 - 1 is replaced by one of 2^31.
abbrev hot_resident : ℕ → ℕ
hot_resident e = if e == 0 then 2 ^ 32 - 1 else 2 ^ 31

wrapped :
    pick_swap hot_resident 2 (0 ∷ [])
    ≡ some (record { slot = 0; eid = 1; gain = negsuc (2 ^ 31 - 2) })
unfolding picker
wrapped = refl

halved : decay (5 ∷ 0 ∷ 8 ∷ []) ≡ 2 ∷ 0 ∷ 4 ∷ []
unfolding picker
halved = refl

pick_lfru-Picks_example :
    Picks
      (score_now heats lasts 9)
      1024
      256
      6
      (2 ∷ 1 ∷ 3 ∷ [])
      (pick_lfru heats lasts 9 6 (2 ∷ 1 ∷ 3 ∷ []))
pick_lfru-Picks_example = pick_lfru-Picks heats lasts 9 6 (2 ∷ 1 ∷ 3 ∷ []) (omega arith)

pick_swap-Picks_example : Picks heats 4 1 6 (2 ∷ 1 ∷ 3 ∷ []) (pick_swap heats 6 (2 ∷ 1 ∷ 3 ∷ []))
pick_swap-Picks_example = pick_swap-Picks heats 6 (2 ∷ 1 ∷ 3 ∷ []) (omega arith) (λ e. ground arith)
