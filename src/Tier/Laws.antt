-- ===== src/Tier/Laws.antt =====
-- What the score orders by, and what the picks choose.
use moty.Base.{
  ℕ, suc, ◌+◌, ◌*◌, ◌≤◌, ◌<◌, ◌≡◌, refl, false, some, List, [], ◌∷◌, All, get_elem?, ltb, arith,
  Bool-cases, ltb→lt, ◌⊎◌, inl, inr, sym, ap, ◌∙◌,
}
use moty.Tier.{word, lfru_score, coldest}

-- An access adds at most 255 to the score, and a count of the heat 256.
pub lfru_score_bounds :
    (heat last clock : ℕ)
    → (heat * 256 ≤ lfru_score heat last clock) × (lfru_score heat last clock < heat * 256 + 256)
unfolding lfru_score
lfru_score_bounds heat last clock = ground arith

-- The hotter of two experts has the greater score, however recent the other is.
pub lfru_score_hotter :
    (heat heat' last last' clock : ℕ)
    → heat < heat'
    → lfru_score heat last clock < lfru_score heat' last' clock
lfru_score_hotter heat heat' last last' clock h =
    omega (arith, lfru_score_bounds heat last clock, lfru_score_bounds heat' last' clock)

-- Of two experts of one heat, the one used later has no smaller score.
pub lfru_score_recent :
    (heat last last' clock : ℕ)
    → last ≤ last'
    → last' ≤ clock
    → clock < word
    → lfru_score heat last clock ≤ lfru_score heat last' clock
unfolding lfru_score
lfru_score_recent heat last last' clock a b c = ground arith

ltb-le : (a b : ℕ) → ltb a b ≡ false → b ≤ a
ltb-le a b h = ground arith

one_more : (p : ℕ) (ps : List ℕ) (k : ℕ) → get_elem? (p ∷ ps) (1 + k) ≡ get_elem? ps k
one_more p ps k = let q : 1 + k ≡ suc k = omega arith in ap (get_elem? (p ∷ ps)) q

-- The scan for the coldest: what it ends on is the start or a later member, and is least of all.
record IsLeast (score : ℕ → ℕ) (es : List ℕ) (z cold fc : ℕ) (r : ℕ × ℕ) : Type 0 where
  pub at_most : r.1 ≤ fc
  pub least : All (λ e. r.1 ≤ score e) es
  pub there :
      (r ≡ (cold, fc)) ⊎ ((k : ℕ) × (e : ℕ) × (get_elem? es k ≡ some e) × (r ≡ (z + k, score e)))

coldest-IsLeast :
    (score : ℕ → ℕ) (es : List ℕ) (z cold fc : ℕ)
    → IsLeast score es z cold fc (coldest score es z cold fc)
unfolding coldest
coldest-IsLeast score [] z cold fc = record { at_most = omega arith; least = tt; there = inl refl }
coldest-IsLeast score (e ∷ es) z cold fc = elim (Bool-cases (ltb (score e) fc)) [
  | inl less ↦
      let h = coldest-IsLeast score es (suc z) z (score e) in
      rw less (record {
        at_most = omega (arith, h.at_most, ltb→lt (score e) fc less);
        least = (h.at_most, h.least);
        there = inr (elim h.there [
          | inl q ↦ (0, e, refl, q ∙ ap (λ n. (n, score e)) (omega arith))
          | inr (k, e', g, q) ↦ (suc k, e', g, q ∙ ap (λ n. (n, score e')) (omega arith))
        ]);
      })
  | inr less ↦
      let h = coldest-IsLeast score es (suc z) cold fc in
      rw less (record {
        at_most = h.at_most;
        least = (omega (arith, h.at_most, ltb-le (score e) fc less), h.least);
        there = elim h.there [
          | inl q ↦ inl q
          | inr (k, e', g, q) ↦ inr (suc k, e', g, q ∙ ap (λ n. (n, score e')) (omega arith))
        ];
      })
]

-- The slot of a resident expert of least score, with that score.
pub record IsColdest (score : ℕ → ℕ) (es : List ℕ) (slot s : ℕ) : Type 0 where
  pub there : (e : ℕ) × (get_elem? es slot ≡ some e) × (score e ≡ s)
  pub least : All (λ e. s ≤ score e) es

pub coldest-IsColdest :
    (score : ℕ → ℕ) (p : ℕ) (ps : List ℕ) (slot s : ℕ)
    → coldest score ps 1 0 (score p) ≡ (slot, s)
    → IsColdest score (p ∷ ps) slot s
coldest-IsColdest score p ps slot s e =
    let h : IsLeast score ps 1 0 (score p) (slot, s) =
      rw e at (coldest-IsLeast score ps 1 0 (score p)) in
    record {
      there = elim h.there [
        | inl q ↦ (p, rw (ap (λ (r : ℕ × ℕ). r.0) q) refl, sym (ap (λ (r : ℕ × ℕ). r.1) q))
        | inr (k, e', g, q) ↦ (
          e',
          rw (ap (λ (r : ℕ × ℕ). r.0) q) (one_more p ps k ∙ g),
          sym (ap (λ (r : ℕ × ℕ). r.1) q),
        )
      ];
      least = (h.at_most, h.least);
    }
