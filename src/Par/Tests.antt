-- ===== src/Par/Tests.antt =====
-- Small loops under both schedules.
use moty.Base.{◌+◌, ◌≤◌, ◌≡◌, ◌⊎◌, refl, true, false, [], ◌∷◌, arith}
use moty.Par.{
  range_first, range_last, share, shares, par_for_static, Region, published, Step, take_chunk, stop,
  Steps, start, next_step, runs, Covers,
}
use moty.Par.Static.{par_for_static-Covers}
use moty.Par.Dynamic.{asking_count, dynamic-Covers, dynamic_ends}

loop : Unit {0}
unfolding range_first range_last share shares par_for_static runs
loop = tt

-- Seven indices over three threads.
seven :
    par_for_static 7 3 false 0
    ≡ record { first = 0; last = 3; tid = 0 }
      ∷ record { first = 3; last = 5; tid = 1 }
      ∷ record { first = 5; last = 7; tid = 2 }
      ∷ []
unfolding loop
seven = refl

-- Five indices by twos: the second thread takes two chunks, and stops.
abbrev after : Region
after = record {
  next = 8;
  calls =
      record { first = 4; last = 5; tid = 1 }
      ∷ record { first = 2; last = 4; tid = 1 }
      ∷ record { first = 0; last = 2; tid = 0 }
      ∷ [];
  asking = true ∷ false ∷ [];
}

taken : Steps 5 2 (published 2) 4 after
taken =
    next_step
      (next_step
        (next_step (next_step start (take_chunk 0 refl (omega arith)))
          (take_chunk 1 refl (omega arith)))
        (take_chunk 1 refl (omega arith)))
      (stop 1 refl (omega arith))

par_for_static-Covers_example : Covers 7 (par_for_static 7 3 false 0)
par_for_static-Covers_example = par_for_static-Covers 7 3 false 0 (omega arith)

dynamic-Covers_example : Covers 5 after.calls
dynamic-Covers_example = dynamic-Covers 5 2 2 4 after taken 1 refl

dynamic_ends_example :
    (4 ≤ 5 + 2) × ((asking_count after.asking ≡ 0) ⊎ ((s : Region) × Step 5 2 after s))
dynamic_ends_example = dynamic_ends 5 2 2 4 after (omega arith) taken
