-- ===== src/Hash/Probe.antt =====
-- The search of a table with open addressing: from a slot on, around the end, up to an entry that
-- fits or a free slot.
use moty.Base.{ℕ, zero, suc, Bool, Option, none, some, List, length, get_elem?, if◌then◌else◌}
use moty.Hash.Mask.{masked}

-- The slot of an entry that fits, with the entry; a free slot; or all slots passed.
pub data Probe (A : Type 0) : Type 0 where
  found : ℕ → A → Probe A
  free : ℕ → Probe A
  full : Probe A

module _ {A : Type 0} where
  -- `h = (h + 1) & (cap - 1)`
  abbrev pub next_slot : List (Option A) → ℕ → ℕ
  next_slot table h = masked (suc h) (length table)

  -- One slot, and the way on.
  unfoldable pub probe_at : (A → Bool) → ℕ → Probe A → Option (Option A) → Probe A
  probe_at fits h others none = full
  probe_at fits h others (some none) = free h
  probe_at fits h others (some (some a)) = if fits a then found h a else others

  -- The loop, with the slots left.
  unfoldable pub probe : (A → Bool) → List (Option A) → ℕ → ℕ → Probe A
  probe fits table zero h = full
  probe fits table (suc fuel) h =
      let others = probe fits table fuel (next_slot table h) in
      probe_at fits h others (get_elem? table h)

  -- From a slot on, all slots.
  abbrev pub probe_all : (A → Bool) → List (Option A) → ℕ → Probe A
  probe_all fits table h = probe fits table (length table) h
