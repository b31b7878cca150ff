-- ===== src/LockFreeStack/Access.antt =====
-- Push and Pop of LockFreeStack.h, with Alloc and Free of ObjectPool.h, of CppProject/22.12.03 - LockFreeStack, one
-- access to shared memory at a time.
use simple_poject.Common.{ℕ, ◌+◌, ◌^◌, ◌<◌, ◌≡◌, ◌≢◌, true, false, Option, none, some}
use simple_poject.Common.Word.{add32, sub32}
use simple_poject.ObjectPool.{object_offset}
use simple_poject.LockFreeStack.Top.{unique_word, address_of, increment64}
use simple_poject.LockFreeStack.State.{
  Memory, Pc, update, node_of, passes, make, touched, idle, alloc_start, alloc_load, alloc_test,
  alloc_swap, alloc_count, new_capacity, new_count, new_node, clear, fill, push_start, push_load,
  push_link, push_swap, push_count, pop_start, pop_load, pop_test, pop_swap, pop_count, pop_read,
  free_check, free_start, free_load, free_link, free_swap, free_count, answered, failed,
}

-- One access of one thread. `create` takes any answer that `new` may give: memory that is no node yet,
-- below the bits of the numbers.
pub data Move {A : Type 0} (m : Memory A) : Pc A → Memory A → Pc A → Type 0 where
  -- Push
  call_push : (d : A) → Move m idle m (alloc_start d)
  -- ObjectPool::Alloc
  alloc_number :
      {d : A}
      → Move m
          (alloc_start d)
          (record m { pool_unique = increment64 m.pool_unique })
          (alloc_load d (increment64 m.pool_unique))
  alloc_top : {d : A} {u : ℕ} → Move m (alloc_load d u) m (alloc_test d u m.pool_top)
  alloc_empty : {d : A} {u c : ℕ} → address_of c ≡ 0 → Move m (alloc_test d u c) m (new_capacity d)
  alloc_next :
      {d : A} {u c : ℕ}
      → address_of c ≢ 0
      → m.made (address_of c) ≡ true
      → Move m (alloc_test d u c) m (alloc_swap d u c (m.next_node (address_of c)))
  alloc_retry :
      {d : A} {u c n : ℕ} → c ≢ m.pool_top → Move m (alloc_swap d u c n) m (alloc_load d u)
  alloc_take :
      {d : A} {u c n : ℕ}
      → c ≡ m.pool_top
      → Move m
          (alloc_swap d u c n)
          (record m { pool_top = unique_word u n })
          (alloc_count d (address_of c + object_offset))
  count_alloc :
      {d : A} {o : ℕ}
      → Move m (alloc_count d o) (record m { use_count = add32 m.use_count 1 }) (clear d o)
  count_capacity :
      {d : A} → Move m (new_capacity d) (record m { capacity = add32 m.capacity 1 }) (new_count d)
  count_new :
      {d : A} → Move m (new_count d) (record m { use_count = add32 m.use_count 1 }) (new_node d)
  create :
      {d : A} (a : ℕ)
      → m.made a ≡ false
      → 0 < a
      → a + object_offset < 2 ^ 47
      → Move m (new_node d) (make m a) (clear d (a + object_offset))
  -- the rest of Push
  clear_node :
      {d : A} {o : ℕ}
      → m.made (node_of o) ≡ true
      → Move m (clear d o) (record m { p_next = update m.p_next o 0 }) (fill d o)
  fill_node :
      {d : A} {o : ℕ}
      → m.made (node_of o) ≡ true
      → Move m (fill d o) (record m { value = update m.value o d }) (push_start d o)
  push_number :
      {d : A} {o : ℕ}
      → Move m
          (push_start d o)
          (record m { unique = increment64 m.unique })
          (push_load d o (increment64 m.unique))
  push_top : {d : A} {o u : ℕ} → Move m (push_load d o u) m (push_link d o u m.unique_top)
  link_node :
      {d : A} {o u c : ℕ}
      → m.made (node_of o) ≡ true
      → Move m
          (push_link d o u c)
          (record m { p_next = update m.p_next o (address_of c) })
          (push_swap d o u c)
  push_retry :
      {d : A} {o u c : ℕ} → c ≢ m.unique_top → Move m (push_swap d o u c) m (push_load d o u)
  push_put :
      {d : A} {o u c : ℕ}
      → c ≡ m.unique_top
      → Move m (push_swap d o u c) (record m { unique_top = unique_word u o }) push_count
  count_push : Move m push_count (record m { node_count = add32 m.node_count 1 }) idle
  -- Pop
  call_pop : Move m idle m pop_start
  pop_number :
      Move m pop_start
        (record m { unique = increment64 m.unique })
        (pop_load (increment64 m.unique))
  pop_top : {u : ℕ} → Move m (pop_load u) m (pop_test u m.unique_top)
  pop_empty : {u c : ℕ} → address_of c ≡ 0 → Move m (pop_test u c) m (answered none)
  pop_next :
      {u c : ℕ}
      → address_of c ≢ 0
      → m.made (node_of (address_of c)) ≡ true
      → Move m (pop_test u c) m (pop_swap u c (m.p_next (address_of c)))
  pop_retry : {u c n : ℕ} → c ≢ m.unique_top → Move m (pop_swap u c n) m (pop_load u)
  pop_take :
      {u c n : ℕ}
      → c ≡ m.unique_top
      → Move m
          (pop_swap u c n)
          (record m { unique_top = unique_word u n })
          (pop_count (address_of c))
  count_pop :
      {o : ℕ} → Move m (pop_count o) (record m { node_count = sub32 m.node_count 1 }) (pop_read o)
  read_value :
      {o : ℕ} → m.made (node_of o) ≡ true → Move m (pop_read o) m (free_check (m.value o) o)
  -- ObjectPool::Free
  check_passed :
      {v : A} {o : ℕ}
      → m.made (node_of o) ≡ true
      → passes m (node_of o) ≡ true
      → Move m (free_check v o) m (free_start v o)
  check_failed :
      {v : A} {o : ℕ}
      → m.made (node_of o) ≡ true
      → passes m (node_of o) ≡ false
      → Move m (free_check v o) m failed
  free_number :
      {v : A} {o : ℕ}
      → Move m
          (free_start v o)
          (record m { pool_unique = increment64 m.pool_unique })
          (free_load v o (increment64 m.pool_unique))
  free_top : {v : A} {o u : ℕ} → Move m (free_load v o u) m (free_link v o u m.pool_top)
  link_free :
      {v : A} {o u c : ℕ}
      → m.made (node_of o) ≡ true
      → Move m
          (free_link v o u c)
          (record m { next_node = update m.next_node (node_of o) (address_of c) })
          (free_swap v o u c)
  free_retry : {v : A} {o u c : ℕ} → c ≢ m.pool_top → Move m (free_swap v o u c) m (free_load v o u)
  free_put :
      {v : A} {o u c : ℕ}
      → c ≡ m.pool_top
      → Move m
          (free_swap v o u c)
          (record m { pool_top = unique_word u (node_of o) })
          (free_count v)
  count_free :
      {v : A}
      → Move m (free_count v) (record m { use_count = sub32 m.use_count 1 }) (answered (some v))
  give : {r : Option A} → Move m (answered r) m idle
  -- an access to memory that is no node
  stray : {p : Pc A} {a : ℕ} → touched p ≡ some a → m.made a ≡ false → Move m p m failed
