-- ===== src/Spinlock/Tests.antt =====
-- A run of 01 UseInterlocked.cpp of CppProject/22.10.12 - Spinlock in which the threads go round once.
use simple_poject.Common.{◌+◌, ◌*◌, ◌≤◌, ◌≡◌, refl, Bool, true, false, arith}
use simple_poject.Spinlock.{
  System, Step, goes_round, ends, takes, spins, loads, stores, unlocks, Reach, start, later, ended,
}
use simple_poject.Spinlock.Counting.{holds, Reach-counts}

record Run : Type 0 where
  last : System
  reach : Reach 1 last

abbrev then_step : (r : Run) (i : Bool) {t : System} → Step 1 r.last i t → Run
then_step r i st = record { last = _; reach = later r.reach i st }

abbrev taken : Run
taken =
    then_step (then_step (record { last = _; reach = start }) false (goes_round refl (omega arith)))
      false (takes refl refl)

-- Thread 1 finds the lock taken.
abbrev waited : Run
waited =
    then_step
      (then_step (then_step taken true (goes_round refl (omega arith))) true
        (spins refl (omega arith)))
      false (loads refl)

abbrev released : Run
released =
    then_step (then_step (then_step waited false (stores refl)) false (unlocks refl)) true
      (takes refl refl)

abbrev all_done : Run
all_done =
    then_step
      (then_step
        (then_step (then_step (then_step released true (loads refl)) true (stores refl)) true
          (unlocks refl))
        true (ends refl (omega arith)))
      false (ends refl (omega arith))

both_counted : all_done.last.cnt ≡ 2
both_counted = refl

Reach-counts_example :
    (holds (all_done.last.pc false) + holds (all_done.last.pc true) ≤ 1)
    × (all_done.last.pc false ≡ ended → all_done.last.pc true ≡ ended → all_done.last.cnt ≡ 2 * 1)
Reach-counts_example = Reach-counts (omega arith) all_done.reach
