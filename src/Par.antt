-- ===== src/Par.antt =====
-- c/nn/par.h and par.c: how a parallel loop hands out its indices, for both schedules.
use moty.Base.{
  ℕ, zero, suc, ◌+◌, ◌-◌, ◌*◌, ◌/◌, ◌%◌, ◌<◌, ◌≤◌, ◌≡◌, Bool, true, false, ◌&&◌, ◌||◌, some, List,
  [], ◌∷◌, ◌++◌, get_elem?, set, replicate, ltb, leb, ◌==◌, if◌then◌else◌,
}
pub mod Static
pub mod Dynamic
mod Tests

-- A call of the body: the indices from `first` up to `last`, on thread `tid`.
pub record Call : Type 0 where
  pub first : ℕ
  pub last : ℕ
  pub tid : ℕ

-- `moty_par_range`: the first index of thread `t` of `nt`, and the end of its range.
unfoldable pub range_first : ℕ → ℕ → ℕ → ℕ
range_first n t nt = let r = n % nt in t * (n / nt) + (if ltb t r then t else r)

unfoldable pub range_last : ℕ → ℕ → ℕ → ℕ
range_last n t nt = range_first n t nt + n / nt + (if ltb t (n % nt) then 1 else 0)

-- `run_share` with the static schedule: one call, unless the range is empty.
unfoldable pub share : ℕ → ℕ → ℕ → List Call
share n nt t =
    let first = range_first n t nt in
    let last = range_last n t nt in
    if ltb first last then record { first = first; last = last; tid = t } ∷ [] else []

-- The shares of the first `m` threads.
unfoldable pub shares : ℕ → ℕ → ℕ → List Call
shares n nt zero = []
shares n nt (suc m) = shares n nt m ++ share n nt m

-- `moty_par_for` with `chunk <= 0`: inside a region, or with one thread, one call does it all.
unfoldable pub par_for_static : ℕ → ℕ → Bool → ℕ → List Call
par_for_static zero team inside tid = []
par_for_static (suc n) team inside tid =
    if inside || team == 1
    then record { first = 0; last = suc n; tid = tid } ∷ []
    else shares (suc n) team team

-- A region with the dynamic schedule: the counter `next`, the calls handed out, the latest first,
-- and which threads still ask for more.
pub record Region : Type 0 where
  pub next : ℕ
  pub calls : List Call
  pub asking : List Bool

-- `P.next` is 0 when the region is published to the team.
abbrev pub published : ℕ → Region
published team = record { next = 0; calls = []; asking = replicate team true }

-- One `atomic_fetch_add` of `run_share`, by any thread that still asks: it takes a chunk, or finds
-- none left and stops.
pub data Step (n chunk : ℕ) (s : Region) : Region → Type 0 where
  take_chunk :
      (t : ℕ)
      → get_elem? s.asking t ≡ some true
      → s.next < n
      → Step n chunk s (record s {
        next = s.next + chunk;
        calls =
            record {
              first = s.next;
              last = if ltb (s.next + chunk) n then s.next + chunk else n;
              tid = t;
            }
            ∷ s.calls;
      })
  stop :
      (t : ℕ)
      → get_elem? s.asking t ≡ some true
      → n ≤ s.next
      → Step n chunk s (record s { next = s.next + chunk; asking = set s.asking t false })

-- `k` steps of the threads, in any order.
pub data Steps (n chunk : ℕ) (s : Region) : ℕ → Region → Type 0 where
  start : Steps n chunk s 0 s
  next_step :
      {k : ℕ} {s' s'' : Region}
      → Steps n chunk s k s'
      → Step n chunk s' s''
      → Steps n chunk s (suc k) s''

-- The number of calls that run the index `i`.
unfoldable pub runs : ℕ → List Call → ℕ
runs i [] = 0
runs i (c ∷ calls) = (if leb c.first i && ltb i c.last then 1 else 0) + runs i calls

-- Every index below `n` is run by exactly one call, and no other index by any.
abbrev pub Covers : ℕ → List Call → Type 0
Covers n calls = (i : ℕ) → runs i calls ≡ (if ltb i n then 1 else 0)
