-- ===== src/LockFreeStack/System.antt =====
-- The threads on one stack of LockFreeStack.h of CppProject/22.12.03 - LockFreeStack, in any order.
use simple_poject.Common.{ℕ, false}
use simple_poject.LockFreeStack.State.{Memory, Pc, update, idle}
use simple_poject.LockFreeStack.Access.{Move}

pub record System (A : Type 0) : Type 0 where
  pub mem : Memory A
  pub pc : ℕ → Pc A

-- Any thread makes its next access.
pub data Step {A : Type 0} (s : System A) : System A → Type 0 where
  pick :
      (i : ℕ) {m : Memory A} {p : Pc A}
      → Move s.mem (s.pc i) m p
      → Step s (record { mem = m; pc = update s.pc i p })

-- The constructors of LockFreeStack and of its node_pool, whose address is `pool`.
unfoldable pub init : {A : Type 0} → ℕ → (ℕ → A) → System A
init pool value = record {
  mem = record {
    unique = 0;
    unique_top = 0;
    node_count = 0;
    pool_integrity = pool;
    pool_unique = 0;
    pool_top = 0;
    capacity = 0;
    use_count = 0;
    made = λ a. false;
    integrity = λ a. 0;
    under = λ a. 0;
    over = λ a. 0;
    next_node = λ a. 0;
    value = value;
    p_next = λ a. 0;
  };
  pc = λ i. idle;
}

pub data Reach {A : Type 0} (pool : ℕ) (value : ℕ → A) : System A → Type 0 where
  start : Reach pool value (init pool value)
  later : {s t : System A} → Reach pool value s → Step s t → Reach pool value t
