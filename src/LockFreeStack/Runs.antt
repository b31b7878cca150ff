-- ===== src/LockFreeStack/Runs.antt =====
-- What holds of LockFreeStack.h of CppProject/22.12.03 - LockFreeStack whatever the order in which the
-- threads run.
use simple_poject.Common.{
  ℕ, ◌+◌, ◌^◌, ◌<◌, ◌≡◌, ◌≢◌, refl, ap, ◌∙◌, List, [], true, false, some, arith, ◌==◌, Bool-cases,
  inl, inr,
}
use simple_poject.World.{has}
use simple_poject.World.Distinct.{distinct}
use simple_poject.LockFreeStack.State.{failed}
use simple_poject.LockFreeStack.System.{System, Step, Reach, pick, init, start, later}
use simple_poject.LockFreeStack.Top.{address_of}
use simple_poject.LockFreeStack.Versioned.{Chain}
use simple_poject.LockFreeStack.Places.{
  Place, unmade, pooled, stacked, with_thread, is_pooled, is_stacked, held, IsSound, pool_after,
  stack_after, place_after,
}
use simple_poject.LockFreeStack.Turns.{Move-ne-failed}
use simple_poject.LockFreeStack.Sound.{Move-IsSound, init-IsSound}
use simple_poject.LockFreeStack.History.{history}
use simple_poject.LockFreeStack.Spec.{SpecReach, empty}
use simple_poject.LockFreeStack.Refines.{spec_of, Move-refines}

module _ {A : Type 0} where
  -- The two lists, and where each node is.
  pub record Kept (s : System A) : Type 0 where
    pub free_nodes : List ℕ
    pub nodes : List ℕ
    pub place : ℕ → Place
    pub sound : IsSound s free_nodes nodes place
    pub safe : (i : ℕ) → s.pc i ≢ failed

  unfoldable pub Step-Kept :
      {s t : System A}
      → Step s t
      → t.mem.pool_unique < 2 ^ 17
      → t.mem.unique < 2 ^ 17
      → Kept s
      → Kept t
  Step-Kept {s} (pick i mv) pool_few few k = record {
    free_nodes = pool_after mv k.free_nodes;
    nodes = stack_after mv k.nodes;
    place = place_after i mv k.place;
    sound = Move-IsSound k.sound i mv refl pool_few few;
    safe = λ j. elim (Bool-cases (i == j)) [
      | inl here ↦ rw here (Move-ne-failed k.sound i mv refl)
      | inr other ↦ rw other (k.safe j)
    ];
  }

  unfoldable pub init-Kept : (pool : ℕ) (value : ℕ → A) → Kept (init pool value)
  unfolding init
  init-Kept pool value = record {
    free_nodes = [];
    nodes = [];
    place = λ o. unmade;
    sound = init-IsSound pool value;
    safe = λ i. cc;
  }

  -- Where the node at `a` is, and that it is nowhere else.
  pub data InOnePlace (s : System A) (free_nodes nodes : List ℕ) (a : ℕ) : Type 0 where
    is_free :
        has a free_nodes ≡ true
        → has (a + 16) nodes ≡ false
        → ((j : ℕ) → held (s.pc j) ≢ some (a + 16))
        → InOnePlace s free_nodes nodes a
    is_in_stack :
        has (a + 16) nodes ≡ true
        → has a free_nodes ≡ false
        → ((j : ℕ) → held (s.pc j) ≢ some (a + 16))
        → InOnePlace s free_nodes nodes a
    is_held :
        (i : ℕ)
        → held (s.pc i) ≡ some (a + 16)
        → has a free_nodes ≡ false
        → has (a + 16) nodes ≡ false
        → ((j : ℕ) → held (s.pc j) ≡ some (a + 16) → i ≡ j)
        → InOnePlace s free_nodes nodes a

  one_place :
      {s : System A} {free_nodes nodes : List ℕ} {place : ℕ → Place}
      → IsSound s free_nodes nodes place
      → (a : ℕ) → s.mem.made a ≡ true
      → InOnePlace s free_nodes nodes a
  one_place {s} {free_nodes} {nodes} {place} v a made = by_place (place (a + 16)) refl
    where
      open v.placed use {in_pool, in_stack, holder, kept, is_node}

      by_place : (q : Place) → place (a + 16) ≡ q → InOnePlace s free_nodes nodes a
      by_place unmade e = absurd (let h = is_node a in ground arith)
      by_place pooled e =
          is_free (in_pool a ∙ ap is_pooled e) (in_stack (a + 16) ∙ ap is_stacked e)
            (λ j h. let w = holder j (a + 16) h in ground arith)
      by_place stacked e =
          is_in_stack (in_stack (a + 16) ∙ ap is_stacked e) (in_pool a ∙ ap is_pooled e)
            (λ j h. let w = holder j (a + 16) h in ground arith)
      by_place (with_thread i) e =
          is_held i (kept i (a + 16) e) (in_pool a ∙ ap is_pooled e)
            (in_stack (a + 16) ∙ ap is_stacked e)
            (λ j h. let w = holder j (a + 16) h in ground arith)

module _ {A : Type 0} {pool : ℕ} {value : ℕ → A} where
  -- All numbers given out up to now fit in the bits that are left for them.
  abbrev pub IsFew : {s : System A} → Reach pool value s → Type 0
  IsFew start = Unit {0}
  IsFew (later {t = t} r st) = IsFew r × (t.mem.pool_unique < 2 ^ 17) × (t.mem.unique < 2 ^ 17)

  pub Reach-Kept : {s : System A} (r : Reach pool value s) → IsFew r → Kept s
  Reach-Kept start few = init-Kept pool value
  Reach-Kept (later r st) (few, pool_few, stack_few) =
      Step-Kept st pool_few stack_few (Reach-Kept r few)

  -- While no more than 131071 numbers have been given out, no thread crashes or uses memory that is no
  -- node, whatever the order in which the threads run.
  pub Reach-ne-failed :
      {s : System A} (r : Reach pool value s) → IsFew r → (i : ℕ) → s.pc i ≢ failed
  Reach-ne-failed r few = (Reach-Kept r few).safe

  Reach-SpecReach :
      {s : System A} (r : Reach pool value s) (few : IsFew r)
      → SpecReach (history r) (spec_of s (Reach-Kept r few).nodes)
  unfolding Reach-Kept Step-Kept init-Kept init
  Reach-SpecReach start few = empty
  Reach-SpecReach (later r (pick i mv)) (few, pool_few, stack_few) =
      Move-refines (Reach-Kept r few).sound i mv refl (Reach-SpecReach r few)

  -- While no more than 131071 numbers have been given out, the stack is linearizable: for each run of the
  -- threads there is a run of one stack with the same calls and returns in the same order, the same
  -- values pushed and the same answers, in which each Push and each Pop acts at one moment between its
  -- call and its return, and each Pop answers what it took there. At the end the nodes from unique_top on
  -- hold what this stack holds, and the same calls are under way.
  pub Reach-refines :
      {s : System A} (r : Reach pool value s)
      → IsFew r
      → (nodes : List ℕ) × Chain s.mem.p_next (address_of s.mem.unique_top) nodes
        × SpecReach (history r) (spec_of s nodes)
  Reach-refines r few =
      let k = Reach-Kept r few in (k.nodes, k.sound.stack.chain, Reach-SpecReach r few)

  -- While no more than 131071 numbers have been given out, each node that `new` has made is in exactly
  -- one place, and once: in the pool, in the stack, or with one thread. So no node is lost, none is handed
  -- out twice, and no thread works on a node that is in a list.
  pub Reach-one_place :
      {s : System A} (r : Reach pool value s)
      → IsFew r
      → (free_nodes nodes : List ℕ) × Chain s.mem.next_node (address_of s.mem.pool_top) free_nodes
        × Chain s.mem.p_next (address_of s.mem.unique_top) nodes
        × (distinct free_nodes ≡ true)
        × (distinct nodes ≡ true)
        × ((a : ℕ) → s.mem.made a ≡ true → InOnePlace s free_nodes nodes a)
  Reach-one_place r few =
      let k = Reach-Kept r few in
      let v = k.sound in
      (
        k.free_nodes,
        k.nodes,
        v.pool.chain,
        v.stack.chain,
        v.pool.distinct_nodes,
        v.stack.distinct_nodes,
        λ a made. one_place v a made,
      )
