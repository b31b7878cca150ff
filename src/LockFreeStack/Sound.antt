-- ===== src/LockFreeStack/Sound.antt =====
-- Whatever a thread of LockFreeStack.h of CppProject/22.12.03 - LockFreeStack does next, the two lists,
-- the places of the nodes and what the threads know of them stay sound.
use simple_poject.Common.{
  ℕ, ◌+◌, ◌^◌, ◌<◌, ◌≡◌, ◌≢◌, refl, sym, ap, ◌∙◌, List, [], true, some, arith, ◌==◌, Bool-cases,
  inl, inr,
}
use mathlib.Core.Path.{subst, fun_ext}
use simple_poject.World.{has}
use simple_poject.World.Distinct.{distinct}
use simple_poject.LockFreeStack.State.{
  Memory, Pc, update, node_of, push_start, push_load, push_link, push_swap, free_swap,
}
use simple_poject.LockFreeStack.Access.{
  Move, alloc_top, create, clear_node, fill_node, push_number, push_top, link_node, push_retry,
  pop_top, free_top, link_free,
}
use simple_poject.LockFreeStack.System.{System, init}
use simple_poject.LockFreeStack.Top.{address_of, number-zero, address-zero}
use simple_poject.LockFreeStack.Versioned.{View, copy, Chain, IsVersioned}
use simple_poject.LockFreeStack.Versioned.Kept.{Turn-IsVersioned}
use simple_poject.LockFreeStack.Places.{
  Place, unmade, with_thread, is_made, held, pool_view, stack_view, pool_cell, stack_cell, IsLinked,
  IsSound, pool_after, stack_after, place_after,
}
use simple_poject.LockFreeStack.Turns.{own, pool_turn, stack_turn}
use simple_poject.LockFreeStack.Placing.{
  Chain-head, Move-in_pool, Move-in_stack, Move-holder, Move-kept, Move-made, Move-bounds,
  Move-is_node, Move-whole,
}

-- A view of every thread, after one has moved.
view-update :
    {A : Type 0} (view : Pc A → View) (pc : ℕ → Pc A) (i : ℕ) (p : Pc A)
    → ◌≡◌ {A = ℕ → View} (update (λ j. view (pc j)) i (view p)) (λ j. view (update pc i p j))
view-update view pc i p =
    fun_ext
      (λ j. elim (Bool-cases (i == j)) [ inl here ↦ rw here refl | inr other ↦ rw other refl ])

module _ {A : Type 0} {s : System A} {free_nodes nodes : List ℕ} {place : ℕ → Place}
    (k : IsSound s free_nodes nodes place) (i : ℕ) where
  open k.placed use {
    in_pool, in_stack, holder, bounds, is_node, pool_copy, stack_copy, whole, linked,
  }

  pool_top-made :
      (c : ℕ) → c ≡ s.mem.pool_top → address_of c ≢ 0 → is_made (place (address_of c + 16)) ≡ true
  pool_top-made c e some_node =
      let (first, rest) =
        Chain-head s.mem.next_node (address_of c) free_nodes
          (subst (λ t. Chain s.mem.next_node (address_of t) free_nodes) (sym e) k.pool.chain)
          k.pool.distinct_nodes some_node in
      let h = in_pool (address_of c) in ground arith

  stack_top-made :
      (c : ℕ) → c ≡ s.mem.unique_top → address_of c ≢ 0 → is_made (place (address_of c)) ≡ true
  stack_top-made c e some_node =
      let (first, rest) =
        Chain-head s.mem.p_next (address_of c) nodes
          (subst (λ t. Chain s.mem.p_next (address_of t) nodes) (sym e) k.stack.chain)
          k.stack.distinct_nodes some_node in
      let h = in_stack (address_of c) in ground arith

  Move-pool_copy :
      {m' : Memory A} {p p' : Pc A} (mv : Move s.mem p m' p')
      → s.pc i ≡ p
      → (j c : ℕ) → copy (pool_view (update s.pc i p' j)) ≡ some c
      → address_of c ≢ 0
      → is_made (place (address_of c + 16)) ≡ true
  Move-pool_copy alloc_top at j c h some_node = ground (arith, pool_copy j c, pool_top-made c)
  Move-pool_copy free_top at j c h some_node = ground (arith, pool_copy j c, pool_top-made c)
  Move-pool_copy mv at j c h some_node = ground (arith, pool_copy j c, pool_copy i c)

  Move-stack_copy :
      {m' : Memory A} {p p' : Pc A} (mv : Move s.mem p m' p')
      → s.pc i ≡ p
      → (j c : ℕ) → copy (stack_view (update s.pc i p' j)) ≡ some c
      → address_of c ≢ 0
      → is_made (place (address_of c)) ≡ true
  Move-stack_copy push_top at j c h some_node = ground (arith, stack_copy j c, stack_top-made c)
  Move-stack_copy pop_top at j c h some_node = ground (arith, stack_copy j c, stack_top-made c)
  Move-stack_copy mv at j c h some_node = ground (arith, stack_copy j c, stack_copy i c)

  -- What a thread has written to its node, another does not write over.
  pub record IsLeft (m' : Memory A) (o : ℕ) : Type 0 where
    pub value_left : m'.value o ≡ s.mem.value o
    p_next_left : m'.p_next o ≡ s.mem.p_next o
    next_node_left : m'.next_node (node_of o) ≡ s.mem.next_node (node_of o)

  pub Move-IsLeft :
      {m' : Memory A} {p p' : Pc A} (mv : Move s.mem p m' p')
      → s.pc i ≡ p
      → (o : ℕ) → is_made (place o) ≡ true
      → place o ≢ with_thread i
      → IsLeft m' o
  Move-IsLeft (create a new pos small) at o made away =
      let e = is_node a in let b = bounds o made in ground arith
  Move-IsLeft (clear_node {o = o'} there) at o made away =
      let w = (own k i o' (rw at refl)).at in ground arith
  Move-IsLeft (fill_node {o = o'} there) at o made away =
      let w = (own k i o' (rw at refl)).at in ground arith
  Move-IsLeft (link_node {o = o'} there) at o made away =
      let w = (own k i o' (rw at refl)).at in ground arith
  Move-IsLeft (link_free {o = o'} there) at o made away =
      let w = (own k i o' (rw at refl)).at in
      let n = (own k i o' (rw at refl)).above in let b = bounds o made in ground arith
  Move-IsLeft mv at o made away = record {
    value_left = refl;
    p_next_left = refl;
    next_node_left = refl;
  }

  IsLinked-left :
      (m' : Memory A) (p : Pc A)
      → ((o : ℕ) → held p ≡ some o → IsLeft m' o)
      → IsLinked s.mem p
      → IsLinked m' p
  IsLinked-left m' (push_start d o) l h = (l o refl).value_left ∙ h
  IsLinked-left m' (push_load d o u) l h = (l o refl).value_left ∙ h
  IsLinked-left m' (push_link d o u c) l h = (l o refl).value_left ∙ h
  IsLinked-left m' (push_swap d o u c) l h =
      ((l o refl).value_left ∙ h.0, (l o refl).p_next_left ∙ h.1)
  IsLinked-left m' (free_swap v o u c) l h = (l o refl).next_node_left ∙ h
  IsLinked-left m' p l h = tt

  Move-own : {m' : Memory A} {p p' : Pc A} (mv : Move s.mem p m' p') → s.pc i ≡ p → IsLinked m' p'
  Move-own (fill_node there) at = ground arith
  Move-own push_number at = subst (IsLinked s.mem) at (linked i)
  Move-own push_top at = subst (IsLinked s.mem) at (linked i)
  Move-own (link_node there) at = let h = subst (IsLinked s.mem) at (linked i) in (h, ground arith)
  Move-own (push_retry e) at = (subst (IsLinked s.mem) at (linked i)).0
  Move-own (link_free there) at = ground arith
  Move-own mv at = tt

  Move-IsLinked :
      {m' : Memory A} {p p' : Pc A} (mv : Move s.mem p m' p')
      → s.pc i ≡ p
      → (j : ℕ) → IsLinked m' (update s.pc i p' j)
  Move-IsLinked {m'} mv at j = elim (Bool-cases (i == j)) [
    | inl here ↦ rw here (Move-own mv at)
    | inr other ↦ rw other (
        IsLinked-left m' (s.pc j)
          (λ o h. let w = holder j o h in Move-IsLeft mv at o (ground arith) (ground arith))
          (linked j))
  ]

  -- The step of thread `i`, while the numbers are small.
  pub Move-IsSound :
      {m' : Memory A} {p p' : Pc A} (mv : Move s.mem p m' p')
      → s.pc i ≡ p
      → m'.pool_unique < 2 ^ 17
      → m'.unique < 2 ^ 17
      → IsSound
          (record { mem = m'; pc = update s.pc i p' })
          (pool_after mv free_nodes)
          (stack_after mv nodes)
          (place_after i mv place)
  Move-IsSound {m'} {p} {p'} mv at pool_few few = record {
    pool =
        subst (IsVersioned (pool_cell m') (pool_after mv free_nodes))
          (view-update pool_view s.pc i p')
          (Turn-IsVersioned k.pool i (pool_turn k i mv at) (ap pool_view at) pool_few);
    stack =
        subst (IsVersioned (stack_cell m') (stack_after mv nodes))
          (view-update stack_view s.pc i p')
          (Turn-IsVersioned k.stack i (stack_turn k i mv at) (ap stack_view at) few);
    placed = record {
      in_pool = Move-in_pool k i mv at;
      in_stack = Move-in_stack k i mv at;
      holder = Move-holder k i mv at;
      kept = Move-kept k i mv at;
      bounds = Move-bounds k i mv at;
      is_node = Move-is_node k i mv at;
      pool_copy = λ j c h e. Move-made k i mv _ (Move-pool_copy mv at j c h e);
      stack_copy = λ j c h e. Move-made k i mv _ (Move-stack_copy mv at j c h e);
      whole = Move-whole k i mv;
      linked = Move-IsLinked mv at;
    };
  }

pub init-IsSound :
    {A : Type 0} (pool : ℕ) (value : ℕ → A) → IsSound (init pool value) [] [] (λ o. unmade)
unfolding init has distinct
init-IsSound pool value = record {
  pool = record {
    few = omega arith;
    numbers = λ i u h. cc;
    once = λ i j u h. cc;
    top_spent = record { below = rw number-zero (omega arith); gone = λ i h. cc };
    copy_spent = λ i w h. cc;
    fresh = λ i. tt;
    chain = address-zero;
    distinct_nodes = refl;
  };
  stack = record {
    few = omega arith;
    numbers = λ i u h. cc;
    once = λ i j u h. cc;
    top_spent = record { below = rw number-zero (omega arith); gone = λ i h. cc };
    copy_spent = λ i w h. cc;
    fresh = λ i. tt;
    chain = address-zero;
    distinct_nodes = refl;
  };
  placed = record {
    in_pool = λ a. refl;
    in_stack = λ o. refl;
    holder = λ i o h. cc;
    kept = λ i o h. cc;
    bounds = λ o h. cc;
    is_node = λ a. refl;
    pool_copy = λ i c h. cc;
    stack_copy = λ i c h. cc;
    whole = λ a h. cc;
    linked = λ i. tt;
  };
}
