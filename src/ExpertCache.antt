-- ===== src/ExpertCache.antt =====
-- c/runtime/moecache.c and moe.h: the cache of a layer's experts, with its heat counts and its pins.
-- The engine's hook `LoadExpertFn`, which fills a slot with the weights of an expert, is the
-- parameter `load`; the buffers that a slot allocates once are part of its weights.
use moty.Base.{
  ℤ, pos, negsuc, int_eq, ℕ, zero, suc, ◌+◌, ◌-◌, ◌%◌, ◌^◌, Bool, true, false, not, ◌&&◌, Option,
  none, some, ◌>>=◌, List, [], ◌∷◌, ◌++◌, length, get_elem?, set, replicate, ltb, if◌then◌else◌,
}
use moty.Tier.{word, lfru_score}
pub mod Victim
pub mod Touched
pub mod Get
pub mod Resident
pub mod Pins
mod Tests

-- `ExpertSlot`
pub record Slot (W : Type 0) : Type 0 where
  pub eid : ℤ
  pub weights : W

-- `ExpertCache`: `slots` holds the first `n` slots, the filled ones. The arrays are there if
-- `n_experts` is not 0, and have then that length.
pub record ExpertCache (W : Type 0) : Type 0 where
  pub slots : List (Slot W)
  pub cap : ℕ
  pub heat : List ℕ
  pub last : List ℕ
  pub pinned : List Bool
  pub n_experts : ℕ
  pub clock : ℕ
  pub hits : ℕ
  pub misses : ℕ

-- `expert_cache_init`
unfoldable pub expert_cache_init : {W : Type 0} → ℕ → ℕ → ExpertCache W
expert_cache_init cap n_experts = record {
  slots = [];
  cap = if ltb cap 1 then 1 else cap;
  heat = replicate n_experts 0;
  last = replicate n_experts 0;
  pinned = replicate n_experts false;
  n_experts = n_experts;
  clock = 0;
  hits = 0;
  misses = 0;
}

-- A read of an array at a signed index; `none` is a read out of its bounds.
unfoldable pub read : {A : Type 0} → List A → ℤ → Option A
read xs (pos i) = get_elem? xs i
read xs (negsuc i) = none

abbrev pub index : ℤ → ℕ
index (pos e) = e
index (negsuc e) = 0

module _ {W : Type 0} where
  -- The arrays are allocated, for `n_experts > 0`.
  abbrev pub tracks : ExpertCache W → Bool
  tracks lc = ltb 0 lc.n_experts

  -- `eid >= 0 && eid < lc->n_experts`
  abbrev pub in_range : ExpertCache W → ℤ → Bool
  in_range lc (pos e) = ltb e lc.n_experts
  in_range lc (negsuc e) = false

  -- The start of `expert_get`: one use of the expert, at a tick of the clock.
  unfoldable pub touch : ExpertCache W → ℤ → Option (ExpertCache W)
  touch lc eid =
      if tracks lc && in_range lc eid
      then (read lc.heat eid >>= λ h. some (record lc {
        heat = if ltb h (word - 1) then set lc.heat (index eid) (suc h) else lc.heat;
        last = set lc.last (index eid) lc.clock;
        clock = suc lc.clock % word;
      }))
      else some lc

  -- The slot of the expert, from the slot number `i` on.
  unfoldable pub find : List (Slot W) → ℤ → ℕ → Option ℕ
  find [] eid i = none
  find (s ∷ slots) eid i = if int_eq s.eid eid then some i else find slots eid (suc i)

  -- `lc->pinned && e >= 0 && e < lc->n_experts && lc->pinned[e]`
  unfoldable pub is_pinned : ExpertCache W → ℤ → Option Bool
  is_pinned lc e = if tracks lc && in_range lc e then read lc.pinned e else some false

  -- The eviction loop of `expert_get`: the first slot of the least score among those not pinned.
  unfoldable pub victim_loop : ExpertCache W → List (Slot W) → ℕ → ℕ → ℕ → Option ℕ
  victim_loop lc [] i v worst = some v
  victim_loop lc (s ∷ slots) i v worst = is_pinned lc s.eid >>= λ p.
      if p
      then victim_loop lc slots (suc i) v worst
      else (read lc.heat s.eid >>= λ heat. read lc.last s.eid >>= λ last.
          let sc = lfru_score heat last lc.clock in
          let less = ltb sc worst in
          victim_loop lc slots (suc i) (if less then i else v) (if less then sc else worst))

  -- Without the arrays the loop stops at slot 1, the first it looks at, since no pin is recorded.
  abbrev pub fallback : List (Slot W) → ℕ
  fallback [] = 0
  fallback (s ∷ []) = 0
  fallback (s ∷ t ∷ slots) = 1

  unfoldable pub victim : ExpertCache W → Option ℕ
  victim lc =
      if tracks lc then victim_loop lc lc.slots 0 0 (2 ^ 64 - 1) else some (fallback lc.slots)

  -- The search of `expert_pin` for a slot to sacrifice, whose read of `pinned` has no guard.
  unfoldable pub unpinned_slot : ExpertCache W → List (Slot W) → ℕ → Option ℕ
  unpinned_slot lc [] i = some 0
  unpinned_slot lc (s ∷ slots) i =
      if tracks lc
      then (read lc.pinned s.eid >>= λ p. if p then unpinned_slot lc slots (suc i) else some i)
      else some i

  module _ (load : ℤ → W) where
    abbrev pub loaded : ℤ → Slot W
    loaded eid = record { eid = eid; weights = load eid }

    -- The next free slot, or else the one that `choose` gives, filled by the hook.
    unfoldable pub fill : ExpertCache W → Option ℕ → ℤ → Option (ExpertCache W × ℕ)
    fill lc choose eid =
        if ltb (length lc.slots) lc.cap
        then some (record lc { slots = lc.slots ++ loaded eid ∷ [] }, length lc.slots)
        else (choose >>= λ v. some (record lc { slots = set lc.slots v (loaded eid) }, v))

    -- The rest of `expert_get`, after the search: a hit, or a miss that fills a slot.
    abbrev pub place : ExpertCache W → ℤ → Option ℕ → Option (ExpertCache W × ℕ)
    place lc eid (some i) = some (record lc { hits = suc lc.hits }, i)
    place lc eid none =
        let missed = record lc { misses = suc lc.misses } in fill missed (victim missed) eid

    -- `expert_get`: the cache and the number of the slot.
    unfoldable pub expert_get : ExpertCache W → ℤ → Option (ExpertCache W × ℕ)
    expert_get lc eid = touch lc eid >>= λ lc. place lc eid (find lc.slots eid 0)

    -- `expert_pin`
    unfoldable pub expert_pin : ExpertCache W → ℤ → Option (ExpertCache W × ℕ)
    expert_pin lc eid =
        let marked =
          if tracks lc && in_range lc eid
          then record lc { pinned = set lc.pinned (index eid) true }
          else lc in
        fill marked (unpinned_slot marked marked.slots 0) eid
