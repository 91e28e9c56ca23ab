-- ===== src/Tier/Picks.antt =====
-- What `tier_pick_swap` and `tier_pick_lfru` choose.
use moty.Base.{
  ℤ, pos, sub, ℕ, zero, suc, ◌+◌, ◌-◌, ◌/◌, ◌%◌, ◌^◌, ◌≤◌, ◌<◌, ◌≡◌, refl, true, false, Option,
  none, some, List, [], ◌∷◌, leb, arith, Bool-cases, ◌⊎◌, inl, inr,
}
use moty.Tier.{
  word, lfru_score, coldest, resident, Swap, swap_if_worth, pick_swap, lfru_if_worth, pick_lfru,
}
use moty.Tier.Laws.{IsColdest, coldest-IsColdest}
use moty.Tier.Hottest.{IsHottest, hottest-all, hottest_score-all}

module _ (score : ℕ → ℕ) (margin unit n : ℕ) (pinned : List ℕ) where
  -- The score that a newcomer must exceed to replace an expert of score `s`.
  abbrev pub threshold : ℕ → ℕ
  threshold s = s + s / 4 + margin

  -- A swap of the coldest resident for the hottest non-resident, which exceeds the threshold.
  pub record IsBest (sw : Swap) : Type 0 where
    pub cold : ℕ
    pub is_coldest : IsColdest score pinned sw.slot cold
    pub in_range : sw.eid < n
    pub absent : resident sw.eid pinned ≡ false
    pub hottest : (e : ℕ) → e < n → resident e pinned ≡ false → score e ≤ score sw.eid
    pub worth : threshold cold < score sw.eid
    pub gained : sw.gain ≡ pos ((score sw.eid - cold) / unit)

  -- No swap is worth it: no newcomer exceeds the threshold of the coldest resident.
  pub record IsSettled : Type 0 where
    pub slot : ℕ
    pub cold : ℕ
    pub is_coldest : IsColdest score pinned slot cold
    pub unworthy : (e : ℕ) → e < n → resident e pinned ≡ false → score e ≤ threshold cold

  abbrev pub Picks : Option Swap → Type 0
  Picks none = (pinned ≡ []) ⊎ IsSettled
  Picks (some sw) = IsBest sw

  module _ (slot cs : ℕ) (c : IsColdest score pinned slot cs) where
    settled :
        (s : ℕ)
        → ((e : ℕ) → e < n → resident e pinned ≡ false → score e ≤ s)
        → s ≤ threshold cs
        → IsSettled
    settled s h le = record {
      slot = slot;
      cold = cs;
      is_coldest = c;
      unworthy = λ e lt q. omega (arith, h e lt q);
    }

    module _ (reach hot hs : ℕ) (h : IsHottest score pinned reach n (some hot, hs)) where
      pub Picks-none : hs ≤ threshold cs → Picks none
      Picks-none le = inr (settled hs h.greatest le)

      pub Picks-some :
          (gain : ℤ)
          → threshold cs < hs
          → gain ≡ pos ((hs - cs) / unit)
          → Picks (some (record { slot = slot; eid = hot; gain = gain }))
      Picks-some gain lt q =
          let (less, free, s) = h.there hot refl in
          record {
            cold = cs;
            is_coldest = c;
            in_range = less;
            absent = free;
            hottest = λ e le a. omega (arith, h.greatest e le a, s);
            worth = omega (arith, s);
            gained = rw (s, q) refl;
          }

    pub Picks-nothing :
        (reach hs : ℕ)
        → IsHottest score pinned reach n (none, hs)
        → reach ≤ suc (threshold cs)
        → Picks none
    Picks-nothing reach hs h le =
        inr (settled (reach - 1) (λ e lt q. omega (arith, (h.nothing refl).1 e lt q)) (omega arith))

module _ (heat last : ℕ → ℕ) (clock : ℕ) where
  -- The score of an expert at the present tick.
  abbrev pub score_now : ℕ → ℕ
  score_now e = lfru_score (heat e) (last e) clock

  lfru_if_worth-Picks :
      (n : ℕ) (pinned : List ℕ) (slot cs : ℕ) (r : Option ℕ × ℕ)
      → IsColdest score_now pinned slot cs
      → IsHottest score_now pinned 0 n r
      → Picks score_now 1024 256 n pinned (lfru_if_worth slot cs r)
  unfolding lfru_if_worth
  lfru_if_worth-Picks n pinned slot cs (none, hs) c h =
      Picks-nothing score_now 1024 256 n pinned slot cs c 0 hs h (omega arith)
  lfru_if_worth-Picks n pinned slot cs (some hot, hs) c h =
      elim (Bool-cases (leb hs (cs + cs / 4 + 1024))) [
        | inl small ↦
            rw small (Picks-none score_now 1024 256 n pinned slot cs c 0 hot hs h (ground arith))
        | inr large ↦
            rw large
              (Picks-some score_now 1024 256 n pinned slot cs c 0 hot hs h _ (ground arith) refl)
      ]

  -- `tier_pick_lfru` picks the slot of least score, and the non-resident expert of greatest score
  -- to replace it if that score exceeds the least one by more than a quarter and 1024; it picks
  -- none if nothing is resident or no non-resident expert is so much hotter.
  pub pick_lfru-Picks :
      (nexpert : ℕ) (pinned : List ℕ)
      → 0 < nexpert
      → Picks score_now 1024 256 nexpert pinned (pick_lfru heat last clock nexpert pinned)
  unfolding pick_lfru
  pick_lfru-Picks zero pinned h = absurd (omega arith)
  pick_lfru-Picks (suc n) [] h = inl refl
  pick_lfru-Picks (suc n) (p ∷ ps) h =
      let (slot, cs) = coldest score_now ps 1 0 (score_now p) in
      lfru_if_worth-Picks (suc n) (p ∷ ps) slot cs _ (coldest-IsColdest score_now p ps slot cs refl)
        (hottest_score-all score_now (p ∷ ps) (suc n))

sub_pos : (a b : ℕ) → b ≤ a → sub a b ≡ pos ((a - b) / 1)
sub_pos a b le =
    let one : (a - b) / 1 ≡ a - b = omega arith in
    let le' : leb b a ≡ true = ground arith in rw (one, le') refl

module _ (heat : ℕ → ℕ) where
  swap_if_worth-Picks :
      (n : ℕ) (pinned : List ℕ) (slot fc : ℕ) (r : Option ℕ × ℕ)
      → IsColdest heat pinned slot fc
      → IsHottest heat pinned 1 n r
      → fc + fc / 4 + 4 < word
      → Picks heat 4 1 n pinned (swap_if_worth slot fc r)
  unfolding swap_if_worth
  swap_if_worth-Picks n pinned slot fc (none, fh) c h fits =
      Picks-nothing heat 4 1 n pinned slot fc c 1 fh h (omega arith)
  swap_if_worth-Picks n pinned slot fc (some hot, fh) c h fits =
      let whole : (fc + fc / 4 + 4) % word ≡ fc + fc / 4 + 4 = omega arith in
      elim (Bool-cases (leb fh (fc + fc / 4 + 4))) [
        | inl small ↦
            rw (whole, small) (Picks-none heat 4 1 n pinned slot fc c 1 hot fh h (ground arith))
        | inr large ↦
            rw (whole, large)
              (Picks-some heat 4 1 n pinned slot fc c 1 hot fh h (sub fh fc) (ground arith)
                (sub_pos fh fc (ground arith)))
      ]

  -- `tier_pick_swap` picks the slot of least heat, and the non-resident expert of greatest heat to
  -- replace it if that heat exceeds the least one by more than a quarter and 4; it picks none if
  -- nothing is resident or no non-resident expert is so much hotter. The counts of heat are
  -- below 2^31, so that the threshold fits 32 bits.
  pub pick_swap-Picks :
      (nexpert : ℕ) (pinned : List ℕ)
      → 0 < nexpert
      → ((e : ℕ) → heat e < 2 ^ 31)
      → Picks heat 4 1 nexpert pinned (pick_swap heat nexpert pinned)
  unfolding pick_swap
  pick_swap-Picks zero pinned h small = absurd (omega arith)
  pick_swap-Picks (suc n) [] h small = inl refl
  pick_swap-Picks (suc n) (p ∷ ps) h small =
      let (slot, fc) = coldest heat ps 1 0 (heat p) in
      let c = coldest-IsColdest heat p ps slot fc refl in
      let (e, _, same) = c.there in
      swap_if_worth-Picks (suc n) (p ∷ ps) slot fc _ c (hottest-all heat (p ∷ ps) (suc n))
        (omega (arith, small e, same))
