-- ===== src/LockFreeStack/Places.antt =====
-- Where the nodes of LockFreeStack.h of CppProject/22.12.03 - LockFreeStack are: in the pool, in the
-- stack, or with one thread.
use simple_poject.Common.{
  ℕ, ◌+◌, ◌^◌, ◌<◌, ◌≡◌, ◌≢◌, List, ◌∷◌, Bool, true, false, Option, none, some,
}
use simple_poject.World.{has}
use simple_poject.LockFreeStack.State.{
  Memory, Pc, update, node_of, passes, alloc_load, alloc_test, alloc_swap, alloc_count, clear, fill,
  push_start, push_load, push_link, push_swap, pop_load, pop_test, pop_swap, pop_count, pop_read,
  free_check, free_start, free_load, free_link, free_swap,
}
use simple_poject.LockFreeStack.Access.{Move, alloc_take, create, push_put, pop_take, free_put}
use simple_poject.LockFreeStack.System.{System}
use simple_poject.LockFreeStack.Top.{address_of}
use simple_poject.LockFreeStack.Versioned.{
  Cell, View, outside, numbered, seen, ready, copy, tail, IsVersioned,
}

pub data Place : Type 0 where
  unmade : Place
  pooled : Place
  stacked : Place
  with_thread : (i : ℕ) → Place

abbrev pub is_pooled : Place → Bool
is_pooled pooled = true
is_pooled _ = false

abbrev pub is_stacked : Place → Bool
is_stacked stacked = true
is_stacked _ = false

abbrev pub is_made : Place → Bool
is_made unmade = false
is_made _ = true

module _ {A : Type 0} where
  -- The node that a thread has for itself.
  abbrev pub held : Pc A → Option ℕ
  held (alloc_count d o) = some o
  held (clear d o) = some o
  held (fill d o) = some o
  held (push_start d o) = some o
  held (push_load d o u) = some o
  held (push_link d o u c) = some o
  held (push_swap d o u c) = some o
  held (pop_count o) = some o
  held (pop_read o) = some o
  held (free_check v o) = some o
  held (free_start v o) = some o
  held (free_load v o u) = some o
  held (free_link v o u c) = some o
  held (free_swap v o u c) = some o
  held _ = none

  -- What a thread knows of the tops of the pool and of the stack.
  abbrev pub pool_view : Pc A → View
  pool_view (alloc_load d u) = numbered u
  pool_view (alloc_test d u c) = seen u c
  pool_view (alloc_swap d u c n) = ready u c n
  pool_view (free_load v o u) = numbered u
  pool_view (free_link v o u c) = seen u c
  pool_view (free_swap v o u c) = seen u c
  pool_view _ = outside

  abbrev pub stack_view : Pc A → View
  stack_view (push_load d o u) = numbered u
  stack_view (push_link d o u c) = seen u c
  stack_view (push_swap d o u c) = seen u c
  stack_view (pop_load u) = numbered u
  stack_view (pop_test u c) = seen u c
  stack_view (pop_swap u c n) = ready u c n
  stack_view _ = outside

  abbrev pub pool_cell : Memory A → Cell
  pool_cell m = record { unique = m.pool_unique; top = m.pool_top; next = m.next_node }

  abbrev pub stack_cell : Memory A → Cell
  stack_cell m = record { unique = m.unique; top = m.unique_top; next = m.p_next }

  -- What a thread has written to its node.
  abbrev pub IsLinked : Memory A → Pc A → Type 0
  IsLinked m (push_start d o) = m.value o ≡ d
  IsLinked m (push_load d o u) = m.value o ≡ d
  IsLinked m (push_link d o u c) = m.value o ≡ d
  IsLinked m (push_swap d o u c) = (m.value o ≡ d) × (m.p_next o ≡ address_of c)
  IsLinked m (free_swap v o u c) = m.next_node (node_of o) ≡ address_of c
  IsLinked m _ = Unit {0}

  -- Each node, by the address of its object, is in one place.
  pub record IsPlaced (s : System A) (free_nodes nodes : List ℕ) (place : ℕ → Place) : Type 0 where
    pub in_pool : (a : ℕ) → has a free_nodes ≡ is_pooled (place (a + 16))
    pub in_stack : (o : ℕ) → has o nodes ≡ is_stacked (place o)
    pub holder : (i o : ℕ) → held (s.pc i) ≡ some o → place o ≡ with_thread i
    pub kept : (i o : ℕ) → place o ≡ with_thread i → held (s.pc i) ≡ some o
    pub bounds : (o : ℕ) → is_made (place o) ≡ true → (16 < o) × (o < 2 ^ 47)
    pub is_node : (a : ℕ) → s.mem.made a ≡ is_made (place (a + 16))
    pub pool_copy :
        (i c : ℕ)
        → copy (pool_view (s.pc i)) ≡ some c
        → address_of c ≢ 0
        → is_made (place (address_of c + 16)) ≡ true
    pub stack_copy :
        (i c : ℕ)
        → copy (stack_view (s.pc i)) ≡ some c
        → address_of c ≢ 0
        → is_made (place (address_of c)) ≡ true
    pub whole : (a : ℕ) → s.mem.made a ≡ true → passes s.mem a ≡ true
    pub linked : (i : ℕ) → IsLinked s.mem (s.pc i)

  pub record IsSound (s : System A) (free_nodes nodes : List ℕ) (place : ℕ → Place) : Type 0 where
    pub pool : IsVersioned (pool_cell s.mem) free_nodes (λ i. pool_view (s.pc i))
    pub stack : IsVersioned (stack_cell s.mem) nodes (λ i. stack_view (s.pc i))
    pub placed : IsPlaced s free_nodes nodes place

  module _ {m : Memory A} where
    -- What a move does to the two lists, and to the places when thread `i` makes it.
    abbrev pub pool_after : {m' : Memory A} {p p' : Pc A} → Move m p m' p' → List ℕ → List ℕ
    pool_after (alloc_take e) free_nodes = tail free_nodes
    pool_after (free_put {o = o} e) free_nodes = node_of o ∷ free_nodes
    pool_after _ free_nodes = free_nodes

    abbrev pub stack_after : {m' : Memory A} {p p' : Pc A} → Move m p m' p' → List ℕ → List ℕ
    stack_after (pop_take e) nodes = tail nodes
    stack_after (push_put {o = o} e) nodes = o ∷ nodes
    stack_after _ nodes = nodes

    abbrev pub place_after :
        {m' : Memory A} {p p' : Pc A} → ℕ → Move m p m' p' → (ℕ → Place) → ℕ → Place
    place_after i (alloc_take {c = c} e) place = update place (address_of c + 16) (with_thread i)
    place_after i (create a e pos small) place = update place (a + 16) (with_thread i)
    place_after i (push_put {o = o} e) place = update place o stacked
    place_after i (pop_take {c = c} e) place = update place (address_of c) (with_thread i)
    place_after i (free_put {o = o} e) place = update place o pooled
    place_after i _ place = place
