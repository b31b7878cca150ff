-- ===== src/LockFreeStack/Monitor.antt =====
-- What main.cpp of CppProject/22.12.03 - LockFreeStack sees of the stack.
use simple_poject.Common.{
  ℕ, length, ◌+◌, ◌^◌, ◌<◌, ◌≤◌, ◌≡◌, ◌≢◌, refl, sym, ap, List, [], ◌∷◌, Bool, true, false, none,
  arith, ◌==◌, Bool-cases, inl, inr,
}
use mathlib.Core.Path.{subst}
use simple_poject.LockFreeStack.State.{Memory, Pc, update, pop_test, answered}
use simple_poject.LockFreeStack.Access.{Move, pop_top, pop_empty, pop_take, check_failed, stray}
use simple_poject.LockFreeStack.System.{System, pick, init}
use simple_poject.LockFreeStack.Top.{address_of}
use simple_poject.LockFreeStack.Versioned.{tail}
use simple_poject.LockFreeStack.Places.{Place, IsSound, stack_after}
use simple_poject.LockFreeStack.Turns.{Move-ne-failed}
use simple_poject.LockFreeStack.Refines.{top_nil}
use simple_poject.LockFreeStack.Runs.{Kept, init-Kept, Step-Kept}
use simple_poject.LockFreeStack.Client.{
  Client, asks, next_call, ClientStep, turn, ClientReach, begin, goes_on, monitor_crashes, AreFew,
  in_stack, counted, total, total-change, total-ge, total-small, total-nothing,
}

length-tail : (nodes : List ℕ) → 0 < length nodes → length (tail nodes) + 1 ≡ length nodes
length-tail [] h = absurd (omega arith)
length-tail (o ∷ rest) h = omega arith

module _ {A : Type 0} where
  -- No Pop of these threads finds the stack empty.
  abbrev NeverEmpty : Pc A → Type 0
  NeverEmpty (pop_test u c) = address_of c ≢ 0
  NeverEmpty (answered none) = ⊥
  NeverEmpty _ = Unit {0}

  abbrev in_stack_of : Client A → ℕ → ℕ
  in_stack_of c j = in_stack (c.pops_next j) (c.sys.pc j)

  abbrev counted_of : Client A → ℕ → ℕ
  counted_of c j = counted (c.pops_next j) (c.sys.pc j)

  in_stack-small : (b : Bool) (p : Pc A) → in_stack b p ≤ 1
  in_stack-small b p = ground arith

  counted-small : (b : Bool) (p : Pc A) → counted b p ≤ 1
  counted-small b p = ground arith

  -- The nodes in the stack, and the count, are those of the threads.
  record IsCounted (threads : ℕ) (c : Client A) (nodes : List ℕ) : Type 0 where
    lengths : length nodes ≡ total threads (in_stack_of c)
    counts : c.sys.mem.node_count ≡ total threads (counted_of c)
    never_empty : (j : ℕ) → NeverEmpty (c.sys.pc j)

  module _ {s : System A} {free_nodes nodes : List ℕ} {place : ℕ → Place}
      (k : IsSound s free_nodes nodes place) (i : ℕ) (b : Bool) where
    Move-lengths :
        {m' : Memory A} {p p' : Pc A} (mv : Move s.mem p m' p')
        → asks b p p' ≡ true
        → NeverEmpty p
        → in_stack b p ≤ length nodes
        → s.pc i ≡ p
        → length (stack_after mv nodes) + in_stack b p ≡ length nodes + in_stack (next_call b p) p'
    unfolding asks next_call
    Move-lengths (pop_take e) h f some_node at =
        let t = length-tail nodes (omega arith) in omega arith
    Move-lengths (pop_empty e) h f some_node at = absurd (f e)
    Move-lengths (check_failed there test) h f some_node at =
        absurd (Move-ne-failed k i (check_failed there test) at refl)
    Move-lengths (stray t no_node) h f some_node at =
        absurd (Move-ne-failed k i (stray t no_node) at refl)
    Move-lengths mv h f some_node at = ground arith

    Move-counts :
        {m' : Memory A} {p p' : Pc A} (mv : Move s.mem p m' p')
        → asks b p p' ≡ true
        → NeverEmpty p
        → counted b p ≤ s.mem.node_count
        → s.mem.node_count < 2 ^ 31
        → s.pc i ≡ p
        → m'.node_count + counted b p ≡ s.mem.node_count + counted (next_call b p) p'
    unfolding asks next_call
    Move-counts (pop_empty e) h f there few at = absurd (f e)
    Move-counts (check_failed ok test) h f there few at =
        absurd (Move-ne-failed k i (check_failed ok test) at refl)
    Move-counts (stray t no_node) h f there few at =
        absurd (Move-ne-failed k i (stray t no_node) at refl)
    Move-counts mv h f there few at = ground arith

    Move-NeverEmpty :
        {m' : Memory A} {p p' : Pc A} (mv : Move s.mem p m' p')
        → NeverEmpty p
        → in_stack b p ≤ length nodes
        → s.pc i ≡ p
        → NeverEmpty p'
    Move-NeverEmpty pop_top f some_node at =
        λ e. let h = top_nil k i e in let l = ap length h in absurd (omega arith)
    Move-NeverEmpty (pop_empty e) f some_node at = absurd (f e)
    Move-NeverEmpty mv f some_node at = tt

  module _ {threads : ℕ} (few_threads : threads < 2 ^ 31) where
    Step-IsCounted :
        {c c' : Client A} (st : ClientStep threads c c')
        → (pool_few : c'.sys.mem.pool_unique < 2 ^ 17) → (few : c'.sys.mem.unique < 2 ^ 17)
        → (k : Kept c.sys) → IsCounted threads c k.nodes
        → (k' : Kept c'.sys) × IsCounted threads c' k'.nodes
    unfolding Step-Kept
    Step-IsCounted {c} (turn i {m = m'} {p = p'} lt mv allowed) pool_few few k w =
        let b = c.pops_next i in
        let p = c.sys.pc i in
        let c' : Client A = record {
          sys = record { mem = m'; pc = update c.sys.pc i p' };
          pops_next = update c.pops_next i (next_call b p);
        } in
        let here : (i == i) ≡ true = ground arith in
        let fine = w.never_empty i in
        let lengths = w.lengths in
        let counts = w.counts in
        let l = total-ge threads i (in_stack_of c) lt in
        let n = total-ge threads i (counted_of c) lt in
        let small =
          total-small threads (counted_of c) (λ j. counted-small (c.pops_next j) (c.sys.pc j)) in
        let dl = Move-lengths k.sound i b mv allowed fine (omega arith) refl in
        let dn = Move-counts k.sound i b mv allowed fine (omega arith) (omega arith) refl in
        let sl = total-change threads i (in_stack_of c) (in_stack_of c') lt (λ j o. rw o refl) in
        let sn = total-change threads i (counted_of c) (counted_of c') lt (λ j o. rw o refl) in
        let il : in_stack_of c' i ≡ in_stack (next_call b p) p' = rw here refl in
        let ic : counted_of c' i ≡ counted (next_call b p) p' = rw here refl in
        (
          Step-Kept (pick i mv) pool_few few k,
          record {
            lengths = omega arith;
            counts = omega arith;
            never_empty = λ j. elim (Bool-cases (i == j)) [
              | inl own ↦ rw own (Move-NeverEmpty k.sound i b mv fine (omega arith) refl)
              | inr other ↦ rw other (w.never_empty j)
            ];
          },
        )

    ClientReach-IsCounted :
        {pool : ℕ} {value : ℕ → A} {c : Client A} (r : ClientReach threads pool value c)
        → AreFew r
        → (k : Kept c.sys) × IsCounted threads c k.nodes
    unfolding init-Kept init
    ClientReach-IsCounted {pool} {value} begin few = (
      init-Kept pool value,
      record {
        lengths = sym (total-nothing threads _ (λ j. refl));
        counts = sym (total-nothing threads _ (λ j. refl));
        never_empty = λ j. tt;
      },
    )
    ClientReach-IsCounted (goes_on r st) (few, pool_few, stack_few) =
        let (k, w) = ClientReach-IsCounted r few in Step-IsCounted st pool_few stack_few k w

    -- Whatever the order in which at most 2147483647 threads of main.cpp run, while no more than 131071
    -- numbers have been given out: node_count is at least 0 and at most the number of threads, so that the
    -- monitor's test does not end the program, and no Pop has found the stack empty.
    pub monitor_lem :
        {pool : ℕ} {value : ℕ → A} {c : Client A} (r : ClientReach threads pool value c)
        → AreFew r
        → (monitor_crashes threads c.sys.mem ≡ false)
          × (c.sys.mem.node_count ≤ threads)
          × ((i : ℕ) → c.sys.pc i ≢ answered none)
    unfolding monitor_crashes
    monitor_lem {c = c} r few =
        let (k, w) = ClientReach-IsCounted r few in
        let small =
          total-small threads (counted_of c) (λ j. counted-small (c.pops_next j) (c.sys.pc j)) in
        let counts = w.counts in
        let bound : c.sys.mem.node_count ≤ threads = omega arith in
        (ground arith, bound, λ i e. subst NeverEmpty e (w.never_empty i))
