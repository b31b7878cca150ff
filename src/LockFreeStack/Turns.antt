-- ===== src/LockFreeStack/Turns.antt =====
-- Each access of a thread of LockFreeStack.h of CppProject/22.12.03 - LockFreeStack is a step on the
-- list of the pool, one on the list of the stack, or neither.
use simple_poject.Common.{
  ℕ, ◌+◌, ◌^◌, ◌<◌, ◌≡◌, ◌≢◌, refl, ◌∙◌, List, true, false, some, arith, ◌==◌, Bool-cases, inl, inr,
}
use mathlib.Core.Path.{subst}
use simple_poject.World.{has}
use simple_poject.LockFreeStack.State.{
  Memory, Pc, node_of, touched, alloc_test, clear, fill, push_link, pop_test, pop_read, free_check,
  free_link, failed,
}
use simple_poject.LockFreeStack.Access.{
  Move, alloc_number, alloc_top, alloc_empty, alloc_next, alloc_retry, alloc_take, create,
  clear_node, push_number, push_top, link_node, push_retry, push_put, pop_number, pop_top,
  pop_empty, pop_next, pop_retry, pop_take, check_failed, free_number, free_top, link_free,
  free_retry, free_put, stray,
}
use simple_poject.LockFreeStack.System.{System}
use simple_poject.LockFreeStack.Top.{address_of}
use simple_poject.LockFreeStack.Versioned.{
  Turn, stay, count, load, follow, retry_seen, retry_ready, leave, put, take, write,
}
use simple_poject.LockFreeStack.Places.{
  Place, with_thread, is_made, held, pool_view, stack_view, pool_cell, stack_cell, IsLinked,
  IsSound, pool_after, stack_after,
}

module _ {A : Type 0} {s : System A} {free_nodes nodes : List ℕ} {place : ℕ → Place}
    (k : IsSound s free_nodes nodes place) (i : ℕ) where
  open k.placed use {
    in_pool, in_stack, holder, bounds, is_node, pool_copy, stack_copy, whole, linked,
  }

  -- What is known of a node that a thread has for itself.
  pub record IsOwn (o : ℕ) : Type 0 where
    pub at : place o ≡ with_thread i
    pub above : 16 < o
    pub small : o < 2 ^ 47
    pub node : node_of o + 16 ≡ o
    pub not_free : has (node_of o) free_nodes ≡ false
    pub not_stacked : has o nodes ≡ false
    pub there : s.mem.made (node_of o) ≡ true

  pub own : (o : ℕ) → held (s.pc i) ≡ some o → IsOwn o
  own o h =
      let at : place o ≡ with_thread i = holder i o h in
      let made : is_made (place o) ≡ true = rw at refl in
      let (above, small) = bounds o made in
      let node : node_of o + 16 ≡ o = omega arith in
      record {
        at = at;
        above = above;
        small = small;
        node = node;
        not_free = in_pool (node_of o) ∙ rw (node, at) refl;
        not_stacked = in_stack o ∙ rw at refl;
        there = is_node (node_of o) ∙ rw node made;
      }

  -- The memory that a thread is about to use is a node.
  pub touched-made : (p : Pc A) → s.pc i ≡ p → (a : ℕ) → touched p ≡ some a → s.mem.made a ≡ true
  touched-made (alloc_test d u c) at a h = elim (Bool-cases (address_of c == 0)) [
    | inl none_there ↦ ground arith
    | inr there ↦
        let e : address_of c ≡ a = ground arith in
        rw (← e) (is_node (address_of c) ∙ pool_copy i c (rw at refl) (ground arith))
  ]
  touched-made (pop_test u c) at a h = elim (Bool-cases (address_of c == 0)) [
    | inl none_there ↦ ground arith
    | inr there ↦
        let made = stack_copy i c (rw at refl) (ground arith) in
        let b = bounds (address_of c) made in
        let node : node_of (address_of c) + 16 ≡ address_of c = omega arith in
        let e : node_of (address_of c) ≡ a = ground arith in
        rw (← e) (is_node (node_of (address_of c)) ∙ rw node made)
  ]
  touched-made (clear d o) at a h =
      let e : node_of o ≡ a = cc in rw (← e) (own o (rw at refl)).there
  touched-made (fill d o) at a h = let e : node_of o ≡ a = cc in rw (← e) (own o (rw at refl)).there
  touched-made (push_link d o u c) at a h =
      let e : node_of o ≡ a = cc in rw (← e) (own o (rw at refl)).there
  touched-made (pop_read o) at a h =
      let e : node_of o ≡ a = cc in rw (← e) (own o (rw at refl)).there
  touched-made (free_check v o) at a h =
      let e : node_of o ≡ a = cc in rw (← e) (own o (rw at refl)).there
  touched-made (free_link v o u c) at a h =
      let e : node_of o ≡ a = cc in rw (← e) (own o (rw at refl)).there
  touched-made p at a h = cc

  -- No move goes wrong: memory that is used is a node, and Free's tests pass.
  pub Move-ne-failed : {m' : Memory A} {p p' : Pc A} → Move s.mem p m' p' → s.pc i ≡ p → p' ≢ failed
  Move-ne-failed (check_failed {o = o} there test) at e =
      absurd (ground (arith, whole (node_of o) there))
  Move-ne-failed (stray {p = p} {a = a} t unmade_there) at e =
      let there = touched-made p at a t in absurd (ground arith)
  Move-ne-failed mv at e = cc

  pub pool_turn :
      {m' : Memory A} {p p' : Pc A} (mv : Move s.mem p m' p')
      → s.pc i ≡ p
      → Turn
          (pool_cell s.mem)
          free_nodes
          (pool_view p)
          (pool_cell m')
          (pool_after mv free_nodes)
          (pool_view p')
  pool_turn alloc_number at = count
  pool_turn alloc_top at = load
  pool_turn (alloc_empty e) at = leave
  pool_turn (alloc_next some_node there) at = follow some_node
  pool_turn (alloc_retry e) at = retry_ready
  pool_turn (alloc_take e) at = take e
  pool_turn (create a new pos small) at =
      write a 0 (in_pool a ∙ let e = is_node a in ground arith) pos
  pool_turn free_number at = count
  pool_turn free_top at = load
  pool_turn (link_free {o = o} {c = c} there) at =
      let h = own o (rw at refl) in
      let above = h.above in write (node_of o) (address_of c) h.not_free (omega arith)
  pool_turn (free_retry e) at = retry_seen
  pool_turn (free_put {o = o} e) at =
      let h = own o (rw at refl) in
      let above = h.above in
      let small = h.small in
      put (node_of o) e (subst (IsLinked s.mem) at (linked i)) h.not_free (omega arith)
        (omega arith)
  pool_turn (check_failed there test) at = absurd (Move-ne-failed (check_failed there test) at refl)
  pool_turn (stray t no_node) at = absurd (Move-ne-failed (stray t no_node) at refl)
  pool_turn mv at = stay

  pub stack_turn :
      {m' : Memory A} {p p' : Pc A} (mv : Move s.mem p m' p')
      → s.pc i ≡ p
      → Turn
          (stack_cell s.mem)
          nodes
          (stack_view p)
          (stack_cell m')
          (stack_after mv nodes)
          (stack_view p')
  stack_turn (create a new pos small) at =
      write (a + 16) 0 (in_stack (a + 16) ∙ let e = is_node a in ground arith) (omega arith)
  stack_turn (clear_node {o = o} there) at =
      let h = own o (rw at refl) in let above = h.above in write o 0 h.not_stacked (omega arith)
  stack_turn push_number at = count
  stack_turn push_top at = load
  stack_turn (link_node {o = o} {c = c} there) at =
      let h = own o (rw at refl) in
      let above = h.above in write o (address_of c) h.not_stacked (omega arith)
  stack_turn (push_retry e) at = retry_seen
  stack_turn (push_put {o = o} e) at =
      let h = own o (rw at refl) in
      let above = h.above in
      put o e (subst (IsLinked s.mem) at (linked i)).1 h.not_stacked (omega arith) h.small
  stack_turn pop_number at = count
  stack_turn pop_top at = load
  stack_turn (pop_empty e) at = leave
  stack_turn (pop_next some_node there) at = follow some_node
  stack_turn (pop_retry e) at = retry_ready
  stack_turn (pop_take e) at = take e
  stack_turn (check_failed there test) at =
      absurd (Move-ne-failed (check_failed there test) at refl)
  stack_turn (stray t no_node) at = absurd (Move-ne-failed (stray t no_node) at refl)
  stack_turn mv at = stay
