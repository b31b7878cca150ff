-- ===== src/LockFreeStack/State.antt =====
-- LockFreeStack.h and ObjectPool.h of CppProject/22.12.03 - LockFreeStack: the memory that the threads share, and where
-- a thread stands in Push and Pop.
use simple_poject.Common.{ℕ, ◌+◌, ◌-◌, Bool, true, ◌&&◌, Option, none, some, ◌==◌, if◌then◌else◌}
use simple_poject.ObjectPool.{mem_guard, object_offset}
use simple_poject.LockFreeStack.Top.{address_of}

abbrev pub update : {B : Type 0} → (ℕ → B) → ℕ → B → ℕ → B
update f i b j = if i == j then b else f j

-- The node that a pointer to an object lies in.
abbrev pub node_of : ℕ → ℕ
node_of object = object - object_offset

-- The fields of the stack, those of its node_pool, and the nodes: of a pool's node at its address, of
-- a stack's node at the address of the object. `made` says which addresses `new` has answered.
pub record Memory (A : Type 0) : Type 0 where
  pub unique : ℕ
  pub unique_top : ℕ
  pub node_count : ℕ
  pub pool_integrity : ℕ
  pub pool_unique : ℕ
  pub pool_top : ℕ
  pub capacity : ℕ
  pub use_count : ℕ
  pub made : ℕ → Bool
  pub integrity : ℕ → ℕ
  pub under : ℕ → ℕ
  pub over : ℕ → ℕ
  pub next_node : ℕ → ℕ
  pub value : ℕ → A
  pub p_next : ℕ → ℕ

-- Where a thread stands in Push or Pop, with Alloc and Free in them, and its local variables: `d` is the
-- argument of Push, `o` a pointer to a node of the stack, `u` the thread's unique_num, `c` its copy of
-- the top, `n` what it has read from the node there, `v` what Pop has moved to *dst.
pub data Pc (A : Type 0) : Type 0 where
  idle : Pc A
  alloc_start : (d : A) → Pc A
  alloc_load : (d : A) (u : ℕ) → Pc A
  alloc_test : (d : A) (u c : ℕ) → Pc A
  alloc_swap : (d : A) (u c n : ℕ) → Pc A
  alloc_count : (d : A) (o : ℕ) → Pc A
  new_capacity : (d : A) → Pc A
  new_count : (d : A) → Pc A
  new_node : (d : A) → Pc A
  clear : (d : A) (o : ℕ) → Pc A
  fill : (d : A) (o : ℕ) → Pc A
  push_start : (d : A) (o : ℕ) → Pc A
  push_load : (d : A) (o u : ℕ) → Pc A
  push_link : (d : A) (o u c : ℕ) → Pc A
  push_swap : (d : A) (o u c : ℕ) → Pc A
  push_count : Pc A
  pop_start : Pc A
  pop_load : (u : ℕ) → Pc A
  pop_test : (u c : ℕ) → Pc A
  pop_swap : (u c n : ℕ) → Pc A
  pop_count : (o : ℕ) → Pc A
  pop_read : (o : ℕ) → Pc A
  free_check : (v : A) (o : ℕ) → Pc A
  free_start : (v : A) (o : ℕ) → Pc A
  free_load : (v : A) (o u : ℕ) → Pc A
  free_link : (v : A) (o u c : ℕ) → Pc A
  free_swap : (v : A) (o u c : ℕ) → Pc A
  free_count : (v : A) → Pc A
  answered : (r : Option A) → Pc A  -- Pop returns true with *dst set, or false
  failed : Pc A  -- CRASH, or an access to memory that is no node

-- The node that the next access of a thread is to.
abbrev pub touched : {A : Type 0} → Pc A → Option ℕ
touched (alloc_test d u c) = if address_of c == 0 then none else some (address_of c)
touched (clear d o) = some (node_of o)
touched (fill d o) = some (node_of o)
touched (push_link d o u c) = some (node_of o)
touched (pop_test u c) = if address_of c == 0 then none else some (node_of (address_of c))
touched (pop_read o) = some (node_of o)
touched (free_check v o) = some (node_of o)
touched (free_link v o u c) = some (node_of o)
touched _ = none

-- The three tests of Free.
abbrev pub passes : {A : Type 0} → Memory A → ℕ → Bool
passes m a = m.pool_integrity == m.integrity a && mem_guard == m.over a && mem_guard == m.under a

-- Node's constructor of the pool, with that of the stack's node, which leaves the value as it is.
abbrev pub make : {A : Type 0} → Memory A → ℕ → Memory A
make m a = record m {
  made = update m.made a true;
  integrity = update m.integrity a m.pool_integrity;
  under = update m.under a mem_guard;
  over = update m.over a mem_guard;
  next_node = update m.next_node a 0;
  p_next = update m.p_next (a + object_offset) 0;
}
