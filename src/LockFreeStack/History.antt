-- ===== src/LockFreeStack/History.antt =====
-- What the callers of Push and Pop of LockFreeStack.h in CppProject/22.12.03 - LockFreeStack see of a run.
use simple_poject.Common.{ℕ, List, [], Option, none, some}
use simple_poject.LockFreeStack.State.{Memory, Pc}
use simple_poject.LockFreeStack.Access.{Move, call_push, count_push, call_pop, give}
use simple_poject.LockFreeStack.System.{System, Reach, pick, start, later}
use simple_poject.LockFreeStack.Spec.{Event, push_call, push_return, pop_call, pop_return, heard}

module _ {A : Type 0} where
  -- Thread `i` calls Push or Pop, or one of them returns to it; all other accesses are inside them.
  abbrev pub event : ℕ → {m m' : Memory A} {p p' : Pc A} → Move m p m' p' → Option (Event A)
  event i (call_push d) = some (push_call i d)
  event i count_push = some (push_return i)
  event i call_pop = some (pop_call i)
  event i (give {r = r}) = some (pop_return i r)
  event i mv = none

  -- The calls and returns of the run, with their values and answers, the latest first.
  abbrev pub history :
      {pool : ℕ} {value : ℕ → A} {s : System A} → Reach pool value s → List (Event A)
  history start = []
  history (later r (pick i mv)) = heard (event i mv) (history r)
