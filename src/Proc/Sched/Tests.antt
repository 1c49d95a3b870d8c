-- ===== src/Proc/Sched/Tests.antt =====
-- Runs of the scheduler, and the theorems at them.
use muos.Common.{◌≡◌, refl, some, replicate, arith}
use muos.Proc.Samples.{table}
use muos.Proc.Sched.{sched_pick_next, pick_from}
use muos.Proc.Sched.Rotation.{goes_on, IsPick, PickedIn, turns, sched_pick_next-IsPick, turns-all}

picks : (sched_pick_next (some 1) table ≡ some 2) × (sched_pick_next (some 2) table ≡ some 2)
unfolding sched_pick_next pick_from
picks = (refl, refl)

sched_pick_next-IsPick_example : IsPick 2 0 8 table (sched_pick_next (some 1) table)
sched_pick_next-IsPick_example = sched_pick_next-IsPick (some 1) table

turns-all_example : PickedIn 2 (turns 1 (replicate 8 (goes_on, table)))
turns-all_example =
    turns-all 1 2 (replicate 8 (goes_on, table)) (omega arith) (omega arith) refl
      (refl, (refl, (refl, (refl, (refl, (refl, (refl, (refl, tt))))))))
