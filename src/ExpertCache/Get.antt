-- ===== src/ExpertCache/Get.antt =====
-- `expert_get` returns the slot of the expert, with its weights, and keeps the cache valid.
use moty.Base.{
  ℤ, ℕ, suc, ◌+◌, ◌≤◌, ◌<◌, ◌≡◌, refl, ap, inl, inr, false, Option, some, List, [], ◌∷◌, ◌++◌,
  length, get_elem?, set, ltb, All, Bool-cases, arith, All-get_elem?, ltb→lt, All-set, All-append,
  length-set, length-append, get_elem?-set_self, get_elem?-append_self,
}
use mathlib.Core.Path.{subst}
use moty.ExpertCache.{Slot, ExpertCache, touch, victim, loaded, fill, expert_get}
use moty.ExpertCache.Victim.{IsExpert, IsVictim, victim-IsVictim}
use moty.ExpertCache.Touched.{IsCache, IsTouched, touch-IsTouched, IsAt, Absent, find-cases}

module _ {W : Type 0} (load : ℤ → W) where
  -- What happened to the slots of `lc`: nothing, one more slot, or another expert in one slot.
  pub data Change (lc : ExpertCache W) (eid : ℤ) (lc' : ExpertCache W) (i : ℕ) : Type 0 where
    hit : lc'.slots ≡ lc.slots → lc'.misses ≡ lc.misses → Change lc eid lc' i
    filled :
        Absent lc.slots eid
        → length lc.slots < lc.cap
        → lc'.slots ≡ lc.slots ++ loaded load eid ∷ []
        → lc'.misses ≡ suc lc.misses
        → Change lc eid lc' i
    evicted :
        Absent lc.slots eid
        → length lc.slots ≡ lc.cap
        → IsVictim lc' lc.slots i
        → lc'.slots ≡ set lc.slots i (loaded load eid)
        → lc'.misses ≡ suc lc.misses
        → Change lc eid lc' i

  -- The slot returned holds the expert and its weights, and the use is counted once.
  pub record IsGot (lc : ExpertCache W) (eid : ℤ) (r : ExpertCache W × ℕ) : Type 0 where
    pub valid : IsCache load r.0
    pub slot : get_elem? r.0.slots r.1 ≡ some (loaded load eid)
    pub counted : r.0.hits + r.0.misses ≡ suc (lc.hits + lc.misses)
    pub pinned : r.0.pinned ≡ lc.pinned
    pub cap : r.0.cap ≡ lc.cap
    pub n_experts : r.0.n_experts ≡ lc.n_experts
    pub change : Change lc eid r.0 r.1

  abbrev Gets : ExpertCache W → ℤ → Option (ExpertCache W × ℕ) → Type 0
  Gets lc eid r = (q : ExpertCache W × ℕ) × (r ≡ some q) × IsGot lc eid q

  ltb_ge : (a b : ℕ) → ltb a b ≡ false → b ≤ a
  ltb_ge a b h = ground arith

  loaded-eq : (s : Slot W) (eid : ℤ) → s.eid ≡ eid → s.weights ≡ load s.eid → s ≡ loaded load eid
  loaded-eq s eid e w = rw (← e, ← w) refl

  pub refilled-IsCache :
      (lc : ExpertCache W) (slots : List (Slot W)) (hits misses : ℕ)
      → IsCache load lc
      → All (λ t. IsExpert lc.n_experts t.eid) slots
      → All (λ t. t.weights ≡ load t.eid) slots
      → length slots ≤ lc.cap
      → IsCache load (record lc { slots = slots; hits = hits; misses = misses })
  refilled-IsCache lc slots hits misses c known held fits = record {
    arrays = record {
      some_experts = c.arrays.some_experts;
      heat_length = c.arrays.heat_length;
      last_length = c.arrays.last_length;
      pinned_length = c.arrays.pinned_length;
      heat_bound = c.arrays.heat_bound;
    };
    known = known;
    held = held;
    fits = fits;
    room = c.room;
  }

  module _ (lc lc' : ExpertCache W) (eid : ℤ) (x : IsExpert lc'.n_experts eid)
      (t : IsTouched load lc lc') where
    IsGot-hit :
        (i : ℕ) → IsAt lc'.slots eid 0 i → IsGot lc eid (record lc' { hits = suc lc'.hits }, i)
    IsGot-hit i a =
        let at : i ≡ a.offset = omega (arith, a.number) in
        let w : a.slot.weights ≡ load a.slot.eid =
          All-get_elem? (λ s. s.weights ≡ load s.eid) lc'.slots a.offset a.slot t.valid.held
            a.there in
        record {
          valid =
              refilled-IsCache lc' lc'.slots (suc lc'.hits) lc'.misses t.valid t.valid.known
                t.valid.held t.valid.fits;
          slot = rw (at, a.there) (ap some (loaded-eq a.slot eid a.same w));
          counted = omega (arith, t.hits, t.misses);
          pinned = t.pinned;
          cap = t.cap;
          n_experts = t.n_experts;
          change = Change.hit t.slots t.misses;
        }

    IsGot-filled :
        Absent lc'.slots eid
        → length lc'.slots < lc'.cap
        → IsGot lc eid (
          record lc' { slots = lc'.slots ++ loaded load eid ∷ []; misses = suc lc'.misses },
          length lc'.slots,
        )
    IsGot-filled a lt = record {
      valid =
          refilled-IsCache lc' (lc'.slots ++ loaded load eid ∷ []) lc'.hits (suc lc'.misses) t.valid
            (All-append _ lc'.slots _ t.valid.known (x, tt))
            (All-append _ lc'.slots _ t.valid.held (refl, tt))
            (omega (arith, length-append lc'.slots (loaded load eid ∷ [])));
      slot = get_elem?-append_self lc'.slots (loaded load eid);
      counted = omega (arith, t.hits, t.misses);
      pinned = t.pinned;
      cap = t.cap;
      n_experts = t.n_experts;
      change =
          Change.filled (rw t.slots at a) (rw (t.slots, t.cap) at lt)
            (ap (λ s. s ++ loaded load eid ∷ []) t.slots) (ap suc t.misses);
    }

    IsGot-evicted :
        (v : ℕ)
        → Absent lc'.slots eid
        → length lc'.slots ≡ lc'.cap
        → IsVictim lc' lc'.slots v
        → IsGot lc eid
            (record lc' { slots = set lc'.slots v (loaded load eid); misses = suc lc'.misses }, v)
    IsGot-evicted v a full victim =
        let after : ExpertCache W = record lc' {
          slots = set lc'.slots v (loaded load eid);
          misses = suc lc'.misses;
        } in
        let moved : IsVictim after lc'.slots v = record {
          in_slots = victim.in_slots;
          which = victim.which;
        } in
        record {
          valid =
              refilled-IsCache lc' (set lc'.slots v (loaded load eid)) lc'.hits (suc lc'.misses)
                t.valid (All-set _ lc'.slots v _ t.valid.known x)
                (All-set _ lc'.slots v _ t.valid.held refl)
                (omega (arith, length-set lc'.slots v (loaded load eid)));
          slot = get_elem?-set_self lc'.slots v (loaded load eid) victim.in_slots;
          counted = omega (arith, t.hits, t.misses);
          pinned = t.pinned;
          cap = t.cap;
          n_experts = t.n_experts;
          change =
              Change.evicted (rw t.slots at a) (rw (t.slots, t.cap) at full)
                (subst (λ s. IsVictim after s v) t.slots moved)
                (ap (λ s. set s v (loaded load eid)) t.slots) (ap suc t.misses);
        }

  expert_get_touched :
      (lc lc' : ExpertCache W) (eid : ℤ)
      → touch lc eid ≡ some lc'
      → IsExpert lc'.n_experts eid
      → IsTouched load lc lc'
      → (r : ExpertCache W × ℕ) × (expert_get load lc eid ≡ some r) × IsGot lc eid r
  unfolding expert_get fill
  expert_get_touched lc lc' eid e x' t = elim (find-cases lc'.slots eid 0) [
    | inr (i, q, a) ↦
        ((record lc' { hits = suc lc'.hits }, i), rw (e, q) refl, IsGot-hit lc lc' eid x' t i a)
    | inl (q, a) ↦ elim (Bool-cases (ltb (length lc'.slots) lc'.cap)) [
      | inl less ↦ (
        (
          record lc' { slots = lc'.slots ++ loaded load eid ∷ []; misses = suc lc'.misses },
          length lc'.slots,
        ),
        rw (e, q, less) refl,
        IsGot-filled lc lc' eid x' t a (ltb→lt _ _ less),
      )
      | inr full ↦
          let lc2 : ExpertCache W = record lc' { misses = suc lc'.misses } in
          let c2 =
            refilled-IsCache lc' lc'.slots lc'.hits (suc lc'.misses) t.valid t.valid.known
              t.valid.held t.valid.fits in
          let size : length lc'.slots ≡ lc'.cap = omega (arith, ltb_ge _ _ full, t.valid.fits) in
          let (v, r, w) =
            victim-IsVictim lc2 c2.arrays c2.known (omega (arith, size, t.valid.room)) in
          (
            (record lc' { slots = set lc'.slots v (loaded load eid); misses = suc lc'.misses }, v),
            rw (e, q, full, r) refl,
            IsGot-evicted lc lc' eid x' t v a size
                (record { in_slots = w.in_slots; which = w.which }),
          )
    ]
  ]

  -- On a cache that tracks its experts, `expert_get` of an expert returns, with no read out of
  -- bounds, in a valid cache whose slot of the number returned holds the expert and its weights.
  -- The use is counted as one hit or miss; the pins stay. A hit leaves the slots as they are; a
  -- miss, when no slot holds the expert, fills the next slot if there is one, and else replaces one
  -- expert: of those that are not pinned one of the least score, if any is not pinned.
  pub expert_get-IsGot :
      (lc : ExpertCache W) (eid : ℤ)
      → IsCache load lc
      → IsExpert lc.n_experts eid
      → (r : ExpertCache W × ℕ) × (expert_get load lc eid ≡ some r) × IsGot lc eid r
  expert_get-IsGot lc eid c x =
      let (lc', e, t) = touch-IsTouched load lc eid c x in
      expert_get_touched lc lc' eid e (rw (← t.n_experts) at x) t
