-- ===== src/LockFreeStack/Placing.antt =====
-- Each access of a thread of LockFreeStack.h of CppProject/22.12.03 - LockFreeStack keeps every node in
-- one place.
use simple_poject.Common.{
  ℕ, ◌+◌, ◌^◌, ◌<◌, ◌≡◌, ◌≢◌, refl, sym, ◌∙◌, List, [], ◌∷◌, true, false, some, arith, ◌==◌,
  if◌then◌else◌, Bool-cases, inl, inr,
}
use mathlib.Core.Path.{subst}
use simple_poject.World.{has}
use simple_poject.World.Distinct.{distinct}
use simple_poject.LockFreeStack.State.{Memory, Pc, update, passes, alloc_swap, pop_swap}
use simple_poject.LockFreeStack.Access.{
  Move, alloc_take, create, push_put, pop_take, check_failed, free_put, stray,
}
use simple_poject.LockFreeStack.System.{System}
use simple_poject.LockFreeStack.Top.{address_of}
use simple_poject.LockFreeStack.Versioned.{tail, Chain, IsFresh}
use simple_poject.LockFreeStack.Places.{
  Place, pooled, stacked, with_thread, is_pooled, is_stacked, is_made, held, pool_view, stack_view,
  pool_cell, stack_cell, IsSound, pool_after, stack_after, place_after,
}
use simple_poject.LockFreeStack.Turns.{own, Move-ne-failed}

-- The node on top is in the list, and is the one that leaves it.
pub Chain-head :
    (next : ℕ → ℕ) (p : ℕ) (nodes : List ℕ)
    → Chain next p nodes
    → distinct nodes ≡ true
    → p ≢ 0
    → (has p nodes ≡ true)
      × ((a : ℕ) → has a (tail nodes) ≡ (if p == a then false else has a nodes))
unfolding has distinct
Chain-head next p [] c once some_node = absurd (some_node c)
Chain-head next p (b ∷ rest) (at, pos, small, c) once some_node =
    let own : (b == b) ≡ true = ground arith in
    let gone : has b rest ≡ false = ground arith in
    (
      rw (at, own) refl,
      λ a. rw at (elim (Bool-cases (b == a)) [
        | inl same ↦ let e : b ≡ a = ground arith in rw same (rw (← e) gone)
        | inr other ↦ rw other refl
      ]),
    )

module _ {A : Type 0} {s : System A} {free_nodes nodes : List ℕ} {place : ℕ → Place}
    (k : IsSound s free_nodes nodes place) (i : ℕ) where
  open k.placed use {
    in_pool, in_stack, holder, kept, bounds, is_node, pool_copy, stack_copy, whole, linked,
  }

  -- The node that Alloc takes.
  pool_head :
      {d : A} {u c n : ℕ}
      → s.pc i ≡ alloc_swap d u c n
      → c ≡ s.mem.pool_top
      → (place (address_of c + 16) ≡ pooled)
        × ((a : ℕ)
            → has a (tail free_nodes) ≡ (if address_of c == a then false else has a free_nodes))
  pool_head {d} {u} {c} {n} at e =
      let f = subst (λ p. IsFresh (pool_cell s.mem) (pool_view p)) at (k.pool.fresh i) in
      let (first, rest) =
        Chain-head s.mem.next_node (address_of c) free_nodes
          (subst (λ t. Chain s.mem.next_node (address_of t) free_nodes) (sym e) k.pool.chain)
          k.pool.distinct_nodes f.0 in
      (let h = in_pool (address_of c) in ground arith, rest)

  stack_head :
      {u c n : ℕ}
      → s.pc i ≡ pop_swap u c n
      → c ≡ s.mem.unique_top
      → (place (address_of c) ≡ stacked)
        × ((a : ℕ) → has a (tail nodes) ≡ (if address_of c == a then false else has a nodes))
  stack_head {u} {c} {n} at e =
      let f = subst (λ p. IsFresh (stack_cell s.mem) (stack_view p)) at (k.stack.fresh i) in
      let (first, rest) =
        Chain-head s.mem.p_next (address_of c) nodes
          (subst (λ t. Chain s.mem.p_next (address_of t) nodes) (sym e) k.stack.chain)
          k.stack.distinct_nodes f.0 in
      (let h = in_stack (address_of c) in ground arith, rest)

  pub Move-in_pool :
      {m' : Memory A} {p p' : Pc A} (mv : Move s.mem p m' p')
      → s.pc i ≡ p
      → (a : ℕ) → has a (pool_after mv free_nodes) ≡ is_pooled (place_after i mv place (a + 16))
  Move-in_pool (alloc_take {c = c} e) at a =
      let (was, rest) = pool_head at e in rest a ∙ ground (arith, in_pool a)
  Move-in_pool (create b new pos small) at a = let e = is_node b in ground (arith, in_pool a)
  Move-in_pool (push_put {o = o} e) at a =
      let h = (own k i o (rw at refl)).at in ground (arith, in_pool a)
  Move-in_pool (pop_take {c = c} e) at a =
      let (was, rest) = stack_head at e in ground (arith, in_pool a)
  Move-in_pool (free_put {o = o} e) at a =
      let h = (own k i o (rw at refl)).node in unfold has in ground (arith, in_pool a)
  Move-in_pool mv at a = in_pool a

  pub Move-in_stack :
      {m' : Memory A} {p p' : Pc A} (mv : Move s.mem p m' p')
      → s.pc i ≡ p
      → (o : ℕ) → has o (stack_after mv nodes) ≡ is_stacked (place_after i mv place o)
  Move-in_stack (alloc_take {c = c} e) at o =
      let (was, rest) = pool_head at e in ground (arith, in_stack o)
  Move-in_stack (create b new pos small) at o = let e = is_node b in ground (arith, in_stack o)
  Move-in_stack (push_put {o = o'} e) at o = unfold has in ground (arith, in_stack o)
  Move-in_stack (pop_take {c = c} e) at o =
      let (was, rest) = stack_head at e in rest o ∙ ground (arith, in_stack o)
  Move-in_stack (free_put {o = o'} e) at o =
      let h = (own k i o' (rw at refl)).at in ground (arith, in_stack o)
  Move-in_stack mv at o = in_stack o

  -- The node of a thread goes where the thread puts it, and it has what it took.
  pub Move-holder :
      {m' : Memory A} {p p' : Pc A} (mv : Move s.mem p m' p')
      → s.pc i ≡ p
      → (j o : ℕ) → held (update s.pc i p' j) ≡ some o
      → place_after i mv place o ≡ with_thread j
  Move-holder (alloc_take {c = c} e) at j o h =
      let (was, rest) = pool_head at e in ground (arith, holder j o)
  Move-holder (create b new pos small) at j o h = let e = is_node b in ground (arith, holder j o)
  Move-holder (push_put {o = o'} e) at j o h =
      let w = (own k i o' (rw at refl)).at in ground (arith, holder j o)
  Move-holder (pop_take {c = c} e) at j o h =
      let (was, rest) = stack_head at e in ground (arith, holder j o)
  Move-holder (free_put {o = o'} e) at j o h =
      let w = (own k i o' (rw at refl)).at in ground (arith, holder j o)
  Move-holder mv at j o h = ground (arith, holder j o)

  -- No thread loses its node.
  pub Move-kept :
      {m' : Memory A} {p p' : Pc A} (mv : Move s.mem p m' p')
      → s.pc i ≡ p
      → (j o : ℕ) → place_after i mv place o ≡ with_thread j
      → held (update s.pc i p' j) ≡ some o
  Move-kept (check_failed there test) at j o h =
      absurd (Move-ne-failed k i (check_failed there test) at refl)
  Move-kept (stray t no_node) at j o h = absurd (Move-ne-failed k i (stray t no_node) at refl)
  Move-kept mv at j o h = ground (arith, kept j o)

  -- A node stays one.
  pub Move-made :
      {m' : Memory A} {p p' : Pc A} (mv : Move s.mem p m' p')
      → (o : ℕ) → is_made (place o) ≡ true
      → is_made (place_after i mv place o) ≡ true
  Move-made (alloc_take e) o h = ground arith
  Move-made (create b new pos small) o h = ground arith
  Move-made (push_put e) o h = ground arith
  Move-made (pop_take e) o h = ground arith
  Move-made (free_put e) o h = ground arith
  Move-made mv o h = h

  pub Move-bounds :
      {m' : Memory A} {p p' : Pc A} (mv : Move s.mem p m' p')
      → s.pc i ≡ p
      → (o : ℕ) → is_made (place_after i mv place o) ≡ true
      → (16 < o) × (o < 2 ^ 47)
  Move-bounds (alloc_take e) at o h = let (was, rest) = pool_head at e in ground (arith, bounds o)
  Move-bounds (create b new pos small) at o h = ground (arith, bounds o)
  Move-bounds (push_put {o = o'} e) at o h =
      let w = (own k i o' (rw at refl)).at in ground (arith, bounds o)
  Move-bounds (pop_take e) at o h = let (was, rest) = stack_head at e in ground (arith, bounds o)
  Move-bounds (free_put {o = o'} e) at o h =
      let w = (own k i o' (rw at refl)).at in ground (arith, bounds o)
  Move-bounds mv at o h = bounds o h

  pub Move-is_node :
      {m' : Memory A} {p p' : Pc A} (mv : Move s.mem p m' p')
      → s.pc i ≡ p
      → (a : ℕ) → m'.made a ≡ is_made (place_after i mv place (a + 16))
  Move-is_node (alloc_take e) at a = let (was, rest) = pool_head at e in ground (arith, is_node a)
  Move-is_node (create b new pos small) at a = ground (arith, is_node a)
  Move-is_node (push_put {o = o'} e) at a =
      let w = (own k i o' (rw at refl)).at in ground (arith, is_node a)
  Move-is_node (pop_take e) at a = let (was, rest) = stack_head at e in ground (arith, is_node a)
  Move-is_node (free_put {o = o'} e) at a =
      let w = (own k i o' (rw at refl)).at in ground (arith, is_node a)
  Move-is_node mv at a = is_node a

  pub Move-whole :
      {m' : Memory A} {p p' : Pc A} (mv : Move s.mem p m' p')
      → (a : ℕ) → m'.made a ≡ true
      → passes m' a ≡ true
  Move-whole (create b new pos small) a h = ground (arith, whole a)
  Move-whole mv a h = whole a h
