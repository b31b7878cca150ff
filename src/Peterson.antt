-- ===== src/Peterson.antt =====
-- Peterson's algorithm as CppProject/22.10.19 - 피터슨 알고리즘 버그 찾기 and 02 DontUseInterlocked.cpp of
-- CppProject/22.10.12 - Spinlock write it, on a machine with store buffers, such as x64: a thread's
-- writes wait in order in its buffer, and it sees them before the other thread does.
pub mod Writes
pub mod Places
pub mod Moved
pub mod Exclusion
pub mod Tests
use simple_poject.Common.{
  ℕ, ◌+◌, ◌≡◌, ◌≢◌, Bool, true, false, not, List, [], ◌∷◌, ◌++◌, if◌then◌else◌,
}
use simple_poject.Common.Word.{add32}

-- The thread of f is false, that of f2 is true; the index of a thread in `flag`.
abbrev pub index : Bool → ℕ
index false = 0
index true = 1

abbrev pub same : Bool → Bool → Bool
same true b = b
same false b = not b

pub record Memory : Type 0 where
  pub flag : Bool → Bool
  pub turn : ℕ
  pub cnt : ℕ

pub data Write : Type 0 where
  set_flag : (i b : Bool) → Write
  set_turn : (n : ℕ) → Write
  set_cnt : (n : ℕ) → Write

abbrev pub apply : Memory → Write → Memory
apply m (set_flag i b) = record m { flag = λ j. if same i j then b else m.flag j }
apply m (set_turn n) = record m { turn = n }
apply m (set_cnt n) = record m { cnt = n }

-- Memory as a thread sees it, with the writes in its buffer.
abbrev pub seen : Memory → List Write → Memory
seen m [] = m
seen m (w ∷ ws) = seen (apply m w) ws

-- A thread in its loop: before flag[i] = true, at the fence, before turn = ..., at the two tests of the
-- while loop, and before each access of cnt++ and the last write.
pub data Pc : Type 0 where
  entering : Pc
  fencing : Pc
  yielding : Pc
  testing_flag : Pc
  testing_turn : Pc
  critical : Pc
  adding : (n : ℕ) → Pc
  leaving : Pc

pub record System : Type 0 where
  pub mem : Memory
  pub buffer : Bool → List Write
  pub pc : Bool → Pc

abbrev pub update : {A : Type 0} → (Bool → A) → Bool → A → Bool → A
update f i a j = if same i j then a else f j

-- A thread goes on, with a write for its buffer or without.
abbrev pub go : System → Bool → Pc → System
go s i p = record s { pc = update s.pc i p }

abbrev pub put : System → Bool → Write → Pc → System
put s i w p = record s { buffer = update s.buffer i (s.buffer i ++ w ∷ []); pc = update s.pc i p }

-- One access of thread `i`, or a write that leaves its buffer. `fenced` tells the two programs apart: the
-- first has a fence between the writes of flag and turn.
pub data Step (fenced : Bool) (s : System) (i : Bool) : System → Type 0 where
  raise :
      s.pc i ≡ entering
      → Step fenced s i (put s i (set_flag i true) (if fenced then fencing else yielding))
  fence : s.pc i ≡ fencing → s.buffer i ≡ [] → Step fenced s i (go s i yielding)
  yield_turn : s.pc i ≡ yielding → Step fenced s i (put s i (set_turn (index (not i))) testing_flag)
  flag_down :
      s.pc i ≡ testing_flag
      → (seen s.mem (s.buffer i)).flag (not i) ≡ false
      → Step fenced s i (go s i critical)
  flag_up :
      s.pc i ≡ testing_flag
      → (seen s.mem (s.buffer i)).flag (not i) ≡ true
      → Step fenced s i (go s i testing_turn)
  turn_other :
      s.pc i ≡ testing_turn
      → (seen s.mem (s.buffer i)).turn ≡ index (not i)
      → Step fenced s i (go s i testing_flag)
  turn_own :
      s.pc i ≡ testing_turn
      → (seen s.mem (s.buffer i)).turn ≢ index (not i)
      → Step fenced s i (go s i critical)
  load_cnt : s.pc i ≡ critical → Step fenced s i (go s i (adding (seen s.mem (s.buffer i)).cnt))
  store_cnt : {n : ℕ} → s.pc i ≡ adding n → Step fenced s i (put s i (set_cnt (add32 n 1)) leaving)
  lower : s.pc i ≡ leaving → Step fenced s i (put s i (set_flag i false) entering)
  drain :
      {w : Write} {ws : List Write}
      → s.buffer i ≡ w ∷ ws
      → Step fenced s i (record s { mem = apply s.mem w; buffer = update s.buffer i ws })

-- The globals, with both threads at the start of their loops.
abbrev pub init : System
init = record {
  mem = record { flag = λ i. false; turn = 2; cnt = 0 };
  buffer = λ i. [];
  pc = λ i. entering;
}

pub data Reach (fenced : Bool) : System → Type 0 where
  start : Reach fenced init
  later : {s t : System} → Reach fenced s → (i : Bool) → Step fenced s i t → Reach fenced t

-- Whether a thread is between the while loop and flag[i] = false.
abbrev pub is_critical : Pc → Bool
is_critical critical = true
is_critical (adding n) = true
is_critical leaving = true
is_critical p = false
