-- ===== src/LockFreeStack/Tests.antt =====
-- Runs of LockFreeStack.h of CppProject/22.12.03 - LockFreeStack on concrete schedules.
use simple_poject.Common.{
  ℕ, zero, suc, ◌*◌, ◌+◌, ◌^◌, ◌≤◌, ◌≡◌, ◌≢◌, ◌⊎◌, refl, List, [], ◌∷◌, Bool, true, false, Option,
  none, some, arith, if◌then◌else◌, inl, inr,
}
use simple_poject.World.Distinct.{distinct}
use simple_poject.LockFreeStack.State.{
  Memory, Pc, update, node_of, passes, idle, alloc_start, alloc_load, alloc_test, alloc_swap,
  alloc_count, new_capacity, new_count, new_node, clear, fill, push_start, push_load, push_link,
  push_swap, push_count, pop_start, pop_load, pop_test, pop_swap, pop_count, pop_read, free_check,
  free_start, free_load, free_link, free_swap, free_count, answered, failed,
}
use simple_poject.LockFreeStack.Access.{
  Move, call_push, alloc_number, alloc_top, alloc_empty, alloc_next, alloc_retry, alloc_take,
  count_alloc, count_capacity, count_new, create, clear_node, fill_node, push_number, push_top,
  link_node, push_retry, push_put, count_push, call_pop, pop_number, pop_top, pop_empty, pop_next,
  pop_retry, pop_take, count_pop, read_value, check_passed, check_failed, free_number, free_top,
  link_free, free_retry, free_put, count_free, give,
}
use simple_poject.LockFreeStack.System.{System, Reach, pick, init, start, later}
use simple_poject.LockFreeStack.Top.{unique_word, address_of, increment64}
use simple_poject.LockFreeStack.Versioned.{Chain}
use mathlib.Core.Logic.{dite}
use mathlib.Core.List.{foldl}
use native.Mathlib.Decide.{dec_lt, ℕ_discrete}
use simple_poject.LockFreeStack.History.{history}
use simple_poject.LockFreeStack.Spec.{push_call, push_return, pop_call, SpecReach}
use simple_poject.LockFreeStack.Refines.{spec_of}
use simple_poject.LockFreeStack.Runs.{
  IsFew, InOnePlace, Reach-ne-failed, Reach-refines, Reach-one_place,
}
use simple_poject.LockFreeStack.Client.{
  Client, ClientReach, begin, goes_on, asks, next_call, AreFew, monitor_crashes,
}
use simple_poject.LockFreeStack.Client
use simple_poject.LockFreeStack.Monitor.{monitor_lem}

abbrev Next : Memory ℕ → Pc ℕ → Type 0
Next m p = Option ((m' : Memory ℕ) × (p' : Pc ℕ) × Move m p m' p')

test_of : (b : Bool) → (b ≡ true) ⊎ (b ≡ false)
test_of true = inl refl
test_of false = inr refl

-- A move, if the memory is there.
when_made : {m : Memory ℕ} {p : Pc ℕ} (a : ℕ) → (m.made a ≡ true → Next m p) → Next m p
unfolding test_of
when_made {m} a f = elim (test_of (m.made a)) [ inl there ↦ f there | inr gone ↦ none ]

-- A thread's next access. A thread at rest calls Push of a value, or Pop; `new` answers 1000, 1064, ...
next_access : (m : Memory ℕ) → Option ℕ → (p : Pc ℕ) → Next m p
unfolding ℕ_discrete when_made test_of address_of increment64 unique_word dec_lt
next_access m (some d) idle = some (_, _, call_push d)
next_access m none idle = some (_, _, call_pop)
next_access m w (alloc_start d) = some (_, _, alloc_number)
next_access m w (alloc_load d u) = some (_, _, alloc_top)
next_access m w (alloc_test d u c) =
    dite (ℕ_discrete (address_of c) 0) (λ e. some (_, _, alloc_empty e))
      (λ e. when_made (address_of c) (λ there. some (_, _, alloc_next e there)))
next_access m w (alloc_swap d u c n) =
    dite (ℕ_discrete c m.pool_top) (λ e. some (_, _, alloc_take e))
      (λ e. some (_, _, alloc_retry e))
next_access m w (alloc_count d o) = some (_, _, count_alloc)
next_access m w (new_capacity d) = some (_, _, count_capacity)
next_access m w (new_count d) = some (_, _, count_new)
next_access m w (new_node d) =
    let a : ℕ = 936 + 64 * m.capacity in
    elim (test_of (m.made a)) [
      | inl there ↦ none
      | inr new ↦
          dite (dec_lt (a + 16) (2 ^ 47)) (λ small. some (_, _, create a new (omega arith) small))
            (λ large. none)
    ]
next_access m w (clear d o) = when_made (node_of o) (λ there. some (_, _, clear_node there))
next_access m w (fill d o) = when_made (node_of o) (λ there. some (_, _, fill_node there))
next_access m w (push_start d o) = some (_, _, push_number)
next_access m w (push_load d o u) = some (_, _, push_top)
next_access m w (push_link d o u c) = when_made (node_of o) (λ there. some (_, _, link_node there))
next_access m w (push_swap d o u c) =
    dite (ℕ_discrete c m.unique_top) (λ e. some (_, _, push_put e)) (λ e. some (_, _, push_retry e))
next_access m w push_count = some (_, _, count_push)
next_access m w pop_start = some (_, _, pop_number)
next_access m w (pop_load u) = some (_, _, pop_top)
next_access m w (pop_test u c) =
    dite (ℕ_discrete (address_of c) 0) (λ e. some (_, _, pop_empty e))
      (λ e. when_made (node_of (address_of c)) (λ there. some (_, _, pop_next e there)))
next_access m w (pop_swap u c n) =
    dite (ℕ_discrete c m.unique_top) (λ e. some (_, _, pop_take e)) (λ e. some (_, _, pop_retry e))
next_access m w (pop_count o) = some (_, _, count_pop)
next_access m w (pop_read o) = when_made (node_of o) (λ there. some (_, _, read_value there))
next_access m w (free_check v o) = when_made (node_of o) (λ there.
    elim (test_of (passes m (node_of o))) [
      | inl test ↦ some (_, _, check_passed there test)
      | inr test ↦ some (_, _, check_failed there test)
    ])
next_access m w (free_start v o) = some (_, _, free_number)
next_access m w (free_load v o u) = some (_, _, free_top)
next_access m w (free_link v o u c) = when_made (node_of o) (λ there. some (_, _, link_free there))
next_access m w (free_swap v o u c) =
    dite (ℕ_discrete c m.pool_top) (λ e. some (_, _, free_put e)) (λ e. some (_, _, free_retry e))
next_access m w (free_count v) = some (_, _, count_free)
next_access m w (answered r) = some (_, _, give)
next_access m w failed = none

record Run : Type 1 where
  last : System ℕ
  reach : Reach 5000 (λ o. 0) last
  few : IsFew reach

turn : Run → ℕ × Option ℕ → Run
unfolding next_access dec_lt
turn r (i, w) = elim (next_access r.last.mem w (r.last.pc i)) [
  | none ↦ r
  | some (m', p', mv) ↦
      dite (dec_lt m'.pool_unique (2 ^ 17))
        (λ pool_few.
          dite (dec_lt m'.unique (2 ^ 17))
            (λ few. record {
              last = record { mem = m'; pc = update r.last.pc i p' };
              reach = later r.reach (pick i mv);
              few = (r.few, pool_few, few);
            })
            (λ many. r))
        (λ many. r)
]

run : List (ℕ × Option ℕ) → Run
unfolding turn init
run = foldl turn (record { last = init 5000 (λ o. 0); reach = start; few = tt })

abbrev repeat : ℕ → ℕ × Option ℕ → List (ℕ × Option ℕ) → List (ℕ × Option ℕ)
repeat zero x rest = rest
repeat (suc n) x rest = x ∷ repeat n x rest

-- Thread 0 pushes 7; thread 1, with 8, is about to swap; thread 0 has popped 7 and not yet counted it.
abbrev contended : Run
contended = run (repeat 14 (0, some 7) (repeat 12 (1, some 8) (repeat 5 (0, none) [])))

contended_state :
    (contended.last.pc 0 ≡ pop_count 1016)
    × (address_of contended.last.mem.unique_top ≡ 0)
    × (contended.last.mem.node_count ≡ 1)
    × (contended.last.mem.capacity ≡ 2)
unfolding run
contended_state = (refl, refl, refl, refl)

-- Then thread 1's swap fails, it tries again, and pushes 8; thread 0 has 7.
settled :
    let r = run (
      repeat 14
        (0, some 7)
        (repeat 12 (1, some 8) (repeat 13 (0, none) (repeat 5 (1, some 8) [])))) in
    (r.last.pc 0 ≡ answered (some 7))
    × (r.last.pc 1 ≡ idle)
    × (address_of r.last.mem.unique_top ≡ 1080)
    × (r.last.mem.node_count ≡ 1)
    × (r.last.mem.use_count ≡ 1)
unfolding run
settled = (refl, refl, refl, refl, refl)

-- Thread 0 has called Push of 7, which has returned, and then Pop; thread 1 has called Push of 8 meanwhile.
contended_history :
    history contended.reach ≡ pop_call 0 ∷ push_call 1 8 ∷ push_return 0 ∷ push_call 0 7 ∷ []
unfolding run
contended_history = refl

Reach-ne-failed_example : contended.last.pc 1 ≢ failed
unfolding run
Reach-ne-failed_example = Reach-ne-failed contended.reach contended.few 1

Reach-refines_example :
    (nodes : List ℕ) × Chain contended.last.mem.p_next
      (address_of contended.last.mem.unique_top)
      nodes
    × SpecReach (history contended.reach) (spec_of contended.last nodes)
unfolding run
Reach-refines_example = Reach-refines contended.reach contended.few

Reach-one_place_example :
    (free_nodes nodes : List ℕ) × Chain contended.last.mem.next_node
      (address_of contended.last.mem.pool_top)
      free_nodes
    × Chain contended.last.mem.p_next (address_of contended.last.mem.unique_top) nodes
    × (distinct free_nodes ≡ true)
    × (distinct nodes ≡ true)
    × ((a : ℕ) → contended.last.mem.made a ≡ true → InOnePlace contended.last free_nodes nodes a)
unfolding run
Reach-one_place_example = Reach-one_place contended.reach contended.few

record ClientRun : Type 1 where
  last : Client ℕ
  reach : ClientReach 2 5000 (λ o. 0) last
  few : AreFew reach

client_turn : ClientRun → ℕ → ClientRun
unfolding next_access dec_lt test_of asks next_call
client_turn r i =
    let b = r.last.pops_next i in
    elim (next_access r.last.sys.mem (if b then none else some (i + 7)) (r.last.sys.pc i)) [
      | none ↦ r
      | some (m', p', mv) ↦ elim (test_of (asks b (r.last.sys.pc i) p')) [
        | inr refused ↦ r
        | inl asked ↦
            dite (dec_lt i 2)
              (λ lt.
                dite (dec_lt m'.pool_unique (2 ^ 17))
                  (λ pool_few.
                    dite (dec_lt m'.unique (2 ^ 17))
                      (λ few. record {
                        last = _;
                        reach = goes_on r.reach (Client.turn i lt mv asked);
                        few = (r.few, pool_few, few);
                      })
                      (λ many. r))
                  (λ many. r))
              (λ out. r)
      ]
    ]

client_run : List ℕ → ClientRun
unfolding client_turn init
client_run = foldl client_turn (record { last = _; reach = begin; few = tt })

abbrev times : ℕ → ℕ → List ℕ → List ℕ
times zero i rest = rest
times (suc n) i rest = i ∷ times n i rest

-- Thread 0 has pushed and taken a node off again, thread 1 has put its node on and not yet counted it.
abbrev two_clients : ClientRun
two_clients = client_run (times 14 0 (times 5 0 (times 13 1 [])))

two_clients_state :
    (two_clients.last.sys.pc 1 ≡ push_count) × (two_clients.last.sys.mem.node_count ≡ 1)
unfolding client_run
two_clients_state = (refl, refl)

monitor_lem_example :
    (monitor_crashes 2 two_clients.last.sys.mem ≡ false)
    × (two_clients.last.sys.mem.node_count ≤ 2)
    × ((i : ℕ) → two_clients.last.sys.pc i ≢ answered none)
unfolding client_run
monitor_lem_example = monitor_lem (omega arith) two_clients.reach two_clients.few
