-- ===== src/Peterson/Tests.antt =====
-- Runs of Peterson's algorithm, as CppProject/22.10.19 - 피터슨 알고리즘 버그 찾기 and
-- CppProject/22.10.12 - Spinlock write it.
use simple_poject.Common.{◌≡◌, refl, Bool, true, false, arith}
use simple_poject.Peterson.{
  System, Step, raise, fence, yield_turn, flag_down, flag_up, turn_own, drain, Reach, start, later,
  is_critical,
}
use simple_poject.Peterson.Places.{IsDrained}
use simple_poject.Peterson.Exclusion.{mutual_exclusion}

record Run (fenced : Bool) : Type 0 where
  last : System
  reach : Reach fenced last

abbrev then_step :
    {fenced : Bool} (r : Run fenced) (i : Bool) {t : System} → Step fenced r.last i t → Run fenced
then_step r i st = record { last = _; reach = later r.reach i st }

-- Thread 0 has come in with all its writes in memory, and thread 1 waits at turn.
abbrev up : (fenced : Bool) → Run fenced
up fenced =
    then_step (then_step (record { last = _; reach = start }) false (raise refl)) false (drain refl)

abbrev in_0 : Run true
in_0 =
    then_step
      (then_step (then_step (then_step (up true) false (fence refl refl)) false (yield_turn refl))
        false (drain refl))
      false (flag_down refl refl)

abbrev up_1 : Run true
up_1 =
    then_step (then_step (then_step in_0 true (raise refl)) true (drain refl)) true
      (fence refl refl)

abbrev waits_1 : Run true
waits_1 =
    then_step (then_step (then_step up_1 true (yield_turn refl)) true (drain refl)) true
      (flag_up refl refl)

waits_1-IsDrained : IsDrained waits_1.reach
waits_1-IsDrained = (((((((((((((tt, tt), tt), tt), tt), tt), refl), tt), tt), tt), tt), tt), refl))

mutual_exclusion_example : is_critical (waits_1.last.pc true) ≡ false
mutual_exclusion_example = mutual_exclusion waits_1.reach waits_1-IsDrained refl

-- The fence stands before the write of turn, which may still wait when the flag is read: thread 0 comes
-- in, thread 1 writes turn and waits, and then thread 0's write of turn lets it in as well.
abbrev in_early : Run true
in_early =
    then_step (then_step (then_step (up true) false (fence refl refl)) false (yield_turn refl))
      false (flag_down refl refl)

abbrev other_up : Run true
other_up =
    then_step (then_step (then_step in_early true (raise refl)) true (drain refl)) true
      (fence refl refl)

abbrev other_waits : Run true
other_waits =
    then_step (then_step (then_step other_up true (yield_turn refl)) true (drain refl)) true
      (flag_up refl refl)

abbrev both_in : Run true
both_in = then_step (then_step other_waits false (drain refl)) true (turn_own refl (omega arith))

fence_too_early :
    (is_critical (both_in.last.pc false) ≡ true) × (is_critical (both_in.last.pc true) ≡ true)
fence_too_early = (refl, refl)
