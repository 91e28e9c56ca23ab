-- ===== src/ExpertCache/Tests.antt =====
-- The cache on three experts and two slots, and its theorems there.
use moty.Base.{
  ℤ, pos, ℕ, ◌+◌, ◌*◌, ◌≤◌, ◌≡◌, refl, true, false, Option, none, some, ◌>>=◌, List, [], ◌∷◌, arith,
  get_elem?, Distinct,
}
use moty.Tier.{lfru_score}
use moty.ExpertCache.{
  ExpertCache, expert_cache_init, read, index, touch, find, is_pinned, victim_loop, victim,
  unpinned_slot, loaded, fill, expert_get, expert_pin,
}
use moty.ExpertCache.Touched.{IsCache}
use moty.ExpertCache.Get.{IsGot, expert_get-IsGot}
use moty.ExpertCache.Pins.{expert_get-keeps_pinned, HasPinned, expert_pin-HasPinned}
use moty.ExpertCache.Resident.{eids, IsKept, expert_get-IsKept}

cache : Unit {0}
unfolding lfru_score expert_cache_init read touch find is_pinned victim_loop victim unpinned_slot
    fill expert_get expert_pin
cache = tt

abbrev weights : ℤ → ℕ
weights e = 10 * index e + 1

abbrev gets : List ℕ → ExpertCache ℕ → Option (ExpertCache ℕ × ℕ)
gets [] lc = some (lc, 0)
gets (e ∷ []) lc = expert_get weights lc (pos e)
gets (e ∷ e' ∷ es) lc = expert_get weights lc (pos e) >>= λ r. gets (e' ∷ es) r.0

abbrev resident_after : Option (ExpertCache ℕ × ℕ) → Option (List ℤ × ℕ × ℕ × ℕ)
resident_after none = none
resident_after (some r) = some (eids r.0.slots, r.1, r.0.hits, r.0.misses)

-- Expert 1, used once, makes room for expert 2.
evicts_coldest :
    resident_after (gets (0 ∷ 1 ∷ 0 ∷ 2 ∷ []) (expert_cache_init 2 3))
    ≡ some (pos 0 ∷ pos 2 ∷ [], 1, 1, 3)
unfolding cache
evicts_coldest = refl

-- A pin of an expert that is in a slot puts it in a second one.
pinned_twice :
    resident_after
      (expert_get weights (expert_cache_init 2 2) (pos 0) >>= λ r. expert_pin weights r.0 (pos 0))
    ≡ some (pos 0 ∷ pos 0 ∷ [], 1, 0, 1)
unfolding cache
pinned_twice = refl

-- When every slot is pinned, the expert of slot 0 is evicted all the same.
evicts_pinned :
    resident_after
      (expert_pin weights (expert_cache_init 1 2) (pos 0) >>= λ r. expert_get weights r.0 (pos 1))
    ≡ some (pos 1 ∷ [], 0, 0, 1)
unfolding cache
evicts_pinned = refl

-- Without counts every eviction takes slot 1.
evicts_second :
    resident_after (gets (0 ∷ 1 ∷ 2 ∷ 3 ∷ []) (expert_cache_init 2 0))
    ≡ some (pos 0 ∷ pos 3 ∷ [], 1, 0, 4)
unfolding cache
evicts_second = refl

-- A cache of three experts with the first two in its slots.
abbrev full : ℕ → ExpertCache ℕ
full cap = record {
  slots = loaded weights (pos 0) ∷ loaded weights (pos 1) ∷ [];
  cap = cap;
  heat = 2 ∷ 1 ∷ 0 ∷ [];
  last = 2 ∷ 1 ∷ 0 ∷ [];
  pinned = false ∷ true ∷ false ∷ [];
  n_experts = 3;
  clock = 3;
  hits = 1;
  misses = 2;
}

full_valid : (cap : ℕ) → 2 ≤ cap → IsCache weights (full cap)
full_valid cap le = record {
  arrays = record {
    some_experts = omega arith;
    heat_length = refl;
    last_length = refl;
    pinned_length = refl;
    heat_bound = (omega arith, (omega arith, (omega arith, tt)));
  };
  known = ((0, refl, omega arith), ((1, refl, omega arith), tt));
  held = (refl, (refl, tt));
  fits = omega arith;
  room = omega arith;
}

full-Distinct : Distinct (eids (full 3).slots)
full-Distinct = (((λ e. cc), tt), (tt, tt))

expert_get-IsGot_example :
    (r : ExpertCache ℕ × ℕ) × (expert_get weights (full 2) (pos 2) ≡ some r)
    × IsGot weights (full 2) (pos 2) r
expert_get-IsGot_example =
    expert_get-IsGot weights (full 2) (pos 2) (full_valid 2 (omega arith)) (2, refl, omega arith)

expert_get-IsKept_example :
    (r : ExpertCache ℕ × ℕ) × (expert_get weights (full 3) (pos 2) ≡ some r)
    × IsKept weights (full 3) r.0
expert_get-IsKept_example =
    expert_get-IsKept weights (full 3) (pos 2) (full_valid 3 (omega arith)) (2, refl, omega arith)
      full-Distinct (omega arith)

pin1 : read (full 2).pinned (pos 1) ≡ some true
unfolding cache
pin1 = refl

pin0 : read (full 2).pinned (pos 0) ≡ some false
unfolding cache
pin0 = refl

expert_get-keeps_pinned_example :
    (r : ExpertCache ℕ × ℕ) × (expert_get weights (full 2) (pos 2) ≡ some r)
    × (get_elem? r.0.slots 1 ≡ some (loaded weights (pos 1)))
expert_get-keeps_pinned_example =
    expert_get-keeps_pinned weights (full 2) (pos 2) (full_valid 2 (omega arith))
      (2, refl, omega arith) 1 (loaded weights (pos 1)) refl pin1 0 (loaded weights (pos 0)) refl
      pin0

expert_pin-HasPinned_example :
    (r : ExpertCache ℕ × ℕ) × (expert_pin weights (full 2) (pos 2) ≡ some r)
    × HasPinned weights (full 2) (pos 2) r
expert_pin-HasPinned_example =
    expert_pin-HasPinned weights (full 2) (pos 2) (full_valid 2 (omega arith))
      (2, refl, omega arith)
