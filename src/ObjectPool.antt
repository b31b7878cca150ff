-- ===== src/ObjectPool.antt =====
-- The pool of objects: ObjectPool.h of CppProject/22.10.10 - MMO TCPFighter Server. Nodes lie in a heap, by
-- their addresses; what `new` answers and what T's constructor makes are parameters. The destructor
-- is left out.
pub mod Kept
pub mod Init
pub mod Tests
use simple_poject.Common.{
  ℕ, ◌+◌, ◌-◌, List, [], ◌∷◌, Bool, true, false, not, Option, none, some, ◌==◌, if◌then◌else◌,
  length,
}
use simple_poject.Common.Word.{add32, sub32}
use simple_poject.Common.Outcome.{Outcome, returned, thrown, ◌>>=◌}
use simple_poject.World.{deref}

-- MEM_GUARD of a 64-bit build
abbrev pub mem_guard : ℕ
mem_guard = 18302063728033398269

-- Pool_Node; `next_node` is none for nullptr.
pub record PoolNode (A : Type 0) : Type 0 where
  pub integrity : ℕ
  pub under : ℕ
  pub object : A
  pub over : ℕ
  pub next_node : Option ℕ

-- `integrity` is the address of the pool.
pub record ObjectPool (A : Type 0) : Type 0 where
  pub nodes : ℕ → Option (PoolNode A)
  pub integrity : ℕ
  pub flag_placement_new : Bool
  pub top : Option ℕ
  pub capacity : ℕ
  pub use_count : ℕ

-- The bytes in front of the object in a node: integrity and the guard.
abbrev pub object_offset : ℕ
object_offset = 16

-- A write to a node.
abbrev pub write_node :
    {A : Type 0} → (ℕ → Option (PoolNode A)) → ℕ → PoolNode A → ℕ → Option (PoolNode A)
write_node nodes a n b = if b == a then some n else nodes b

-- Pool_Node's constructor; `object` is what T's makes.
abbrev pub new_node : {A : Type 0} → ℕ → A → PoolNode A
new_node integrity object = record {
  integrity = integrity;
  under = mem_guard;
  object = object;
  over = mem_guard;
  next_node = none;
}

-- The constructor: a node at each address that `new` answers, put on top of the others.
pub push_new : {A : Type 0} → A → List ℕ → ObjectPool A → ObjectPool A
push_new object [] p = p
push_new object (a ∷ rest) p = push_new object rest (record p {
  nodes = write_node p.nodes a (record (new_node p.integrity object) { next_node = p.top });
  top = some a;
})

pub init : {A : Type 0} → A → (ℕ → Option (PoolNode A)) → ℕ → Bool → List ℕ → ObjectPool A
unfolding push_new
init object heap this flag_placement_new addresses = push_new object addresses (record {
  nodes = heap;
  integrity = this;
  flag_placement_new = flag_placement_new;
  top = none;
  capacity = length addresses;
  use_count = 0;
})

-- The branches of Alloc, on `top`: the pointer to the object, and the pool. `object` is what T's
-- constructor makes, `address` what `new` would answer.
pub alloc_from : {A : Type 0} → A → ℕ → ObjectPool A → Option ℕ → Outcome (ℕ × ObjectPool A)
alloc_from object address p none = returned (
  address + object_offset,
  record p {
    nodes = write_node p.nodes address (new_node p.integrity object);
    capacity = add32 p.capacity 1;
    use_count = add32 p.use_count 1;
  },
)
alloc_from object address p (some a) = deref (p.nodes a) >>= λ n.
    let n' = if p.flag_placement_new then record n { object = object } else n in
    returned (
      a + object_offset,
      record p {
        nodes = write_node p.nodes a n';
        top = n.next_node;
        use_count = add32 p.use_count 1;
      },
    )

pub alloc : {A : Type 0} → A → ℕ → ObjectPool A → Outcome (ℕ × ObjectPool A)
unfolding alloc_from
alloc object address p = alloc_from object address p p.top

-- Free, with its three tests; the destructor that flag_placement_new asks for leaves the node alone.
pub free : {A : Type 0} → ℕ → ObjectPool A → Outcome (ObjectPool A)
free p_object p =
    let a = p_object - object_offset in
    deref (p.nodes a) >>= λ n.
    if not (p.integrity == n.integrity)
    then thrown
    else if not (mem_guard == n.over)
    then thrown
    else if not (mem_guard == n.under)
    then thrown
    else returned (record p {
      use_count = sub32 p.use_count 1;
      nodes = write_node p.nodes a (record n { next_node = p.top });
      top = some a;
    })
