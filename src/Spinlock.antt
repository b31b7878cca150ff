-- ===== src/Spinlock.antt =====
-- The lock and the two counting threads of 01 UseInterlocked.cpp of CppProject/22.10.12 - Spinlock, one
-- access to shared memory at a time, in any order.
pub mod Counting
pub mod Tests
use simple_poject.Common.{ℕ, ◌+◌, ◌<◌, ◌≤◌, ◌≡◌, ◌≢◌, Bool, true, false, not, if◌then◌else◌}
use simple_poject.Common.Word.{add32}

-- A thread in the loop of f: at its head, in JLock, before each access of cnt++, in JUnlock, and at the
-- end.
pub data Pc : Type 0 where
  looping : Pc
  locking : Pc
  critical : Pc
  adding : (n : ℕ) → Pc
  unlocking : Pc
  ended : Pc

-- The globals, and the place and the i of each of the two threads.
pub record System : Type 0 where
  pub lock : ℕ
  pub cnt : ℕ
  pub pc : Bool → Pc
  pub round : Bool → ℕ

abbrev pub same : Bool → Bool → Bool
same true b = b
same false b = not b

abbrev pub update : {A : Type 0} → (Bool → A) → Bool → A → Bool → A
update f i a j = if same i j then a else f j

abbrev pub go : System → Bool → Pc → System
go s i p = record s { pc = update s.pc i p }

-- One access of thread `i`, where the loop runs `rounds` times.
pub data Step (rounds : ℕ) (s : System) (i : Bool) : System → Type 0 where
  goes_round : s.pc i ≡ looping → s.round i < rounds → Step rounds s i (go s i locking)
  ends : s.pc i ≡ looping → rounds ≤ s.round i → Step rounds s i (go s i ended)
  -- InterlockedExchange(&lock, 1) answers 0
  takes : s.pc i ≡ locking → s.lock ≡ 0 → Step rounds s i (record (go s i critical) { lock = 1 })
  -- ... or not
  spins : s.pc i ≡ locking → s.lock ≢ 0 → Step rounds s i (record s { lock = 1 })
  loads : s.pc i ≡ critical → Step rounds s i (go s i (adding s.cnt))
  stores :
      {n : ℕ} → s.pc i ≡ adding n → Step rounds s i (record (go s i unlocking) { cnt = add32 n 1 })
  unlocks :
      s.pc i ≡ unlocking
      → Step rounds s i
          (record (go s i looping) { lock = 0; round = update s.round i (s.round i + 1) })

abbrev pub init : System
init = record { lock = 0; cnt = 0; pc = λ i. looping; round = λ i. 0 }

pub data Reach (rounds : ℕ) : System → Type 0 where
  start : Reach rounds init
  later : {s t : System} → Reach rounds s → (i : Bool) → Step rounds s i t → Reach rounds t
