-- ===== src/ExpertCache/Pins.antt =====
-- A pinned expert stays in its slot while another can be evicted, and `expert_pin` keeps the cache valid.
use moty.Base.{
  ℤ, pos, negsuc, ℕ, zero, suc, ◌+◌, ◌≤◌, ◌<◌, ◌≡◌, ◌≢◌, refl, sym, ◌∙◌, ◌⊎◌, inl, inr, Bool, true,
  false, Option, some, List, [], ◌∷◌, ◌++◌, length, All, arith, get_elem?, set, get_elem?-set_ne,
  Bool-cases, ltb, length-set, length-append, All-append, All-set, ltb→lt, lt→ltb,
  get_elem?-append_self, get_elem?-set_self, All-get_elem?,
}
use moty.ExpertCache.{
  Slot, ExpertCache, read, tracks, loaded, expert_get, unpinned_slot, fill, expert_pin,
}
use moty.ExpertCache.Victim.{HasArrays, IsExpert, IsPinned, reads_pinned}
use moty.ExpertCache.Touched.{IsCache}
use moty.ExpertCache.Get.{Change, hit, filled, evicted, expert_get-IsGot, refilled-IsCache}

module _ {W : Type 0} (load : ℤ → W) where
  get_elem?-append_left :
      (xs ys : List (Slot W)) (i : ℕ) (t : Slot W)
      → get_elem? xs i ≡ some t
      → get_elem? (xs ++ ys) i ≡ some t
  get_elem?-append_left [] ys i t e = cc
  get_elem?-append_left (x ∷ xs) ys zero t e = e
  get_elem?-append_left (x ∷ xs) ys (suc i) t e = get_elem?-append_left xs ys i t e

  Change-keeps :
      (lc lc' : ExpertCache W) (eid : ℤ) (i : ℕ)
      → lc'.pinned ≡ lc.pinned
      → Change load lc eid lc' i
      → (j : ℕ) (t : Slot W) → get_elem? lc.slots j ≡ some t
      → IsPinned lc t.eid
      → (k : ℕ) (u : Slot W) → get_elem? lc.slots k ≡ some u
      → read lc.pinned u.eid ≡ some false
      → get_elem? lc'.slots j ≡ some t
  Change-keeps lc lc' eid i p (hit e m) j t at pin k u at' free = rw e at
  Change-keeps lc lc' eid i p (filled a lt e m) j t at pin k u at' free =
      rw e (get_elem?-append_left lc.slots _ j t at)
  Change-keeps lc lc' eid i p (evicted a full v e m) j t at pin k u at' free = elim v.which [
    | inl (_, all) ↦
        let held = rw p at (All-get_elem? _ lc.slots k u all at') in
        absurd (let q = sym free ∙ held in ground arith)
    | inr (slot, s, there, unpinned, _, _) ↦
        rw e (get_elem?-set_ne lc.slots i j (loaded load eid) (other slot there unpinned) ∙ at)
  ]
    where
      other :
          (slot : Slot W)
          → get_elem? lc.slots i ≡ some slot
          → read lc'.pinned slot.eid ≡ some false
          → i ≢ j
      other slot there unpinned same =
          let there' = rw same at there in
          let q : t ≡ slot = ground (arith, sym at ∙ there') in
          let held = rw q at pin in
          let open' = rw p at unpinned in absurd (let x = sym held ∙ open' in ground arith)

  -- While a slot holds an expert that is not pinned, `expert_get` of any expert returns with every
  -- pinned expert in the slot where it was.
  pub expert_get-keeps_pinned :
      (lc : ExpertCache W) (eid : ℤ)
      → IsCache load lc
      → IsExpert lc.n_experts eid
      → (j : ℕ) (t : Slot W) → get_elem? lc.slots j ≡ some t
      → IsPinned lc t.eid
      → (k : ℕ) (u : Slot W) → get_elem? lc.slots k ≡ some u
      → read lc.pinned u.eid ≡ some false
      → (r : ExpertCache W × ℕ) × (expert_get load lc eid ≡ some r)
        × (get_elem? r.0.slots j ≡ some t)
  expert_get-keeps_pinned lc eid c x j t at pin k u at' free =
      let (r, e, g) = expert_get-IsGot load lc eid c x in
      (r, e, Change-keeps lc r.0 eid r.1 g.pinned g.change j t at pin k u at' free)

  -- What `expert_pin` leaves: a valid cache with the expert pinned, loaded in the slot returned.
  pub record HasPinned (lc : ExpertCache W) (eid : ℤ) (r : ExpertCache W × ℕ) : Type 0 where
    pub valid : IsCache load r.0
    pub slot : get_elem? r.0.slots r.1 ≡ some (loaded load eid)
    pub pinned : IsPinned r.0 eid
    pub others : (e : ℤ) → IsPinned lc e → IsPinned r.0 e

  unpinned_slot-below :
      (lc : ExpertCache W) (slots : List (Slot W)) (i : ℕ)
      → HasArrays lc
      → All (λ t. IsExpert lc.n_experts t.eid) slots
      → (v : ℕ) × (unpinned_slot lc slots i ≡ some v) × ((v ≡ 0) ⊎ (v < i + length slots))
  unfolding unpinned_slot
  unpinned_slot-below lc [] i h known = (0, refl, inl refl)
  unpinned_slot-below lc (t ∷ slots) i h known =
      let (p, e, _) = reads_pinned lc h t.eid known.0 in
      let on : tracks lc ≡ true = lt→ltb 0 _ h.some_experts in
      elim (Bool-cases p) [
        | inl held ↦
            let (v, q, b) = unpinned_slot-below lc slots (suc i) h known.1 in
            (v, rw (on, e, held) q, elim b [ inl z ↦ inl z | inr lt ↦ inr (omega (arith, lt)) ])
        | inr free ↦ (i, rw (on, e, free) refl, inr (omega arith))
      ]

  -- The cache with one more expert marked as pinned.
  abbrev marked : ExpertCache W → ℕ → ExpertCache W
  marked lc k = record lc { pinned = set lc.pinned k true }

  marked-IsCache : (lc : ExpertCache W) (k : ℕ) → IsCache load lc → IsCache load (marked lc k)
  marked-IsCache lc k c = record {
    arrays = record {
      some_experts = c.arrays.some_experts;
      heat_length = c.arrays.heat_length;
      last_length = c.arrays.last_length;
      pinned_length = length-set lc.pinned k true ∙ c.arrays.pinned_length;
      heat_bound = c.arrays.heat_bound;
    };
    known = c.known;
    held = c.held;
    fits = c.fits;
    room = c.room;
  }

  set-keeps :
      (ps : List Bool) (k : ℕ) (e : ℤ) → read ps e ≡ some true → read (set ps k true) e ≡ some true
  unfolding read
  set-keeps ps k (negsuc e) h = cc
  set-keeps [] k (pos e) h = cc
  set-keeps (p ∷ ps) zero (pos zero) h = refl
  set-keeps (p ∷ ps) zero (pos (suc e)) h = h
  set-keeps (p ∷ ps) (suc k) (pos zero) h = h
  set-keeps (p ∷ ps) (suc k) (pos (suc e)) h = set-keeps ps k (pos e) h

  -- A slot filled in a cache that is valid and at most full.
  pub filled_slot :
      (lc : ExpertCache W) (eid : ℤ) (choose : Option ℕ)
      → IsCache load lc
      → IsExpert lc.n_experts eid
      → (v : ℕ) × (choose ≡ some v) × ((v ≡ 0) ⊎ (v < length lc.slots))
      → (r : ExpertCache W × ℕ) × (fill load lc choose eid ≡ some r)
        × IsCache load r.0
        × (get_elem? r.0.slots r.1 ≡ some (loaded load eid))
        × (r.0.pinned ≡ lc.pinned)
  unfolding fill
  filled_slot lc eid choose c x (v, q, b) = elim (Bool-cases (ltb (length lc.slots) lc.cap)) [
    | inl less ↦ (
      (record lc { slots = lc.slots ++ loaded load eid ∷ [] }, length lc.slots),
      rw less refl,
      refilled-IsCache load lc (lc.slots ++ loaded load eid ∷ []) lc.hits lc.misses c
          (All-append _ lc.slots _ c.known (x, tt)) (All-append _ lc.slots _ c.held (refl, tt))
          (omega (arith, length-append lc.slots (loaded load eid ∷ []), ltb→lt _ _ less)),
      get_elem?-append_self lc.slots (loaded load eid),
      refl,
    )
    | inr full ↦
        let at_cap : lc.cap ≤ length lc.slots = ground arith in
        (
          (record lc { slots = set lc.slots v (loaded load eid) }, v),
          rw (full, q) refl,
          refilled-IsCache load lc (set lc.slots v (loaded load eid)) lc.hits lc.misses c
              (All-set _ lc.slots v _ c.known x) (All-set _ lc.slots v _ c.held refl)
              (omega (arith, length-set lc.slots v (loaded load eid), c.fits)),
          get_elem?-set_self lc.slots v (loaded load eid)
              (elim b [ inl z ↦ omega (arith, at_cap, c.room, z) | inr lt ↦ lt ]),
          refl,
        )
  ]

  -- On a cache that tracks its experts, `expert_pin` of an expert returns, with no read out of
  -- bounds, in a valid cache: the expert is pinned, the slot of the number returned holds it and its
  -- weights, and every pin before it stays.
  pub expert_pin-HasPinned :
      (lc : ExpertCache W) (eid : ℤ)
      → IsCache load lc
      → IsExpert lc.n_experts eid
      → (r : ExpertCache W × ℕ) × (expert_pin load lc eid ≡ some r) × HasPinned lc eid r
  unfolding expert_pin read
  expert_pin-HasPinned lc eid c (k, e, lt) =
      let m = marked lc k in
      let c' = marked-IsCache lc k c in
      let on : ltb 0 lc.n_experts ≡ true = lt→ltb 0 _ c.arrays.some_experts in
      let here : ltb k lc.n_experts ≡ true = lt→ltb k _ lt in
      let (r, q, valid, slot, pins) =
        filled_slot m eid (unpinned_slot m m.slots 0) c' (k, e, lt)
          (let (v, q, b) = unpinned_slot-below m m.slots 0 c'.arrays c'.known in
            (v, q, elim b [ inl z ↦ inl z | inr l ↦ inr (omega (arith, l)) ])) in
      (
        r,
        rw (e, on, here) (rw e at q),
        record {
          valid = valid;
          slot = slot;
          pinned =
              rw (pins, e)
                (get_elem?-set_self lc.pinned k true (omega (arith, c.arrays.pinned_length)));
          others = λ x h. rw pins (set-keeps lc.pinned k x h);
        },
      )
