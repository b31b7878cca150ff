-- ===== src/LockFreeStack/Client.antt =====
-- The threads of main.cpp of CppProject/22.12.03 - LockFreeStack, each of which pushes and pops in
-- turn, and the monitor's test.
use simple_poject.Common.{
  ℕ, zero, suc, ◌+◌, ◌^◌, ◌<◌, ◌≤◌, ◌≡◌, refl, sym, ap₂, not, ◌||◌, Bool, true, false, arith, ◌==◌,
  if◌then◌else◌,
}
use native.Mathlib.Decide.{dec_lt}
use mathlib.Core.Path.{subst}
use simple_poject.LockFreeStack.State.{
  Memory, Pc, update, idle, alloc_start, push_count, pop_start, pop_load, pop_test, pop_swap,
  pop_count, answered,
}
use simple_poject.LockFreeStack.Access.{Move}
use simple_poject.LockFreeStack.System.{System, init}
use simple_poject.Common.Word.{is_negative, slt32}

-- The system, and whether a thread has pushed a value in its loop and is to pop next.
pub record Client (A : Type 0) : Type 0 where
  pub sys : System A
  pub pops_next : ℕ → Bool

module _ {A : Type 0} where
  -- The loop of f: the calls are a Push and a Pop in turn.
  unfoldable pub asks : Bool → Pc A → Pc A → Bool
  asks b idle (alloc_start d) = not b
  asks b idle pop_start = b
  asks b p p' = true

  -- A Push that returns makes a Pop the next call, and the other way round.
  unfoldable pub next_call : Bool → Pc A → Bool
  next_call b push_count = true
  next_call b (answered r) = false
  next_call b p = b

  pub data ClientStep (threads : ℕ) (c : Client A) : Client A → Type 0 where
    turn :
        (i : ℕ) {m : Memory A} {p : Pc A}
        → i < threads
        → Move c.sys.mem (c.sys.pc i) m p
        → asks (c.pops_next i) (c.sys.pc i) p ≡ true
        → ClientStep threads c (record {
          sys = record { mem = m; pc = update c.sys.pc i p };
          pops_next = update c.pops_next i (next_call (c.pops_next i) (c.sys.pc i));
        })

  pub data ClientReach (threads pool : ℕ) (value : ℕ → A) : Client A → Type 0 where
    begin :
        ClientReach threads pool value (record { sys = init pool value; pops_next = λ i. false })
    goes_on :
        {c c' : Client A}
        → ClientReach threads pool value c
        → ClientStep threads c c'
        → ClientReach threads pool value c'

  -- All numbers given out up to now fit in the bits that are left for them.
  abbrev pub AreFew :
      {threads pool : ℕ} {value : ℕ → A} {c : Client A} → ClientReach threads pool value c → Type 0
  AreFew begin = Unit {0}
  AreFew (goes_on {c' = c'} r st) =
      AreFew r × (c'.sys.mem.pool_unique < 2 ^ 17) × (c'.sys.mem.unique < 2 ^ 17)

  -- The test of monitor_func, on the int that GetUseCount returns: n < 0 || n > THREAD_NUM.
  unfoldable pub monitor_crashes : ℕ → Memory A → Bool
  monitor_crashes threads m = is_negative m.node_count || slt32 threads m.node_count

  -- Whether a node in the stack is this thread's doing, and whether node_count says so.
  abbrev pub in_stack : Bool → Pc A → ℕ
  in_stack b idle = if b then 1 else 0
  in_stack b push_count = 1
  in_stack b pop_start = 1
  in_stack b (pop_load u) = 1
  in_stack b (pop_test u c) = 1
  in_stack b (pop_swap u c n) = 1
  in_stack b p = 0

  abbrev pub counted : Bool → Pc A → ℕ
  counted b idle = if b then 1 else 0
  counted b pop_start = 1
  counted b (pop_load u) = 1
  counted b (pop_test u c) = 1
  counted b (pop_swap u c n) = 1
  counted b (pop_count o) = 1
  counted b p = 0

-- A sum over the threads below `n`.
unfoldable pub total : ℕ → (ℕ → ℕ) → ℕ
total zero f = 0
total (suc n) f = total n f + f n

pub total-beyond : (n : ℕ) (f g : ℕ → ℕ) → ((j : ℕ) → j < n → f j ≡ g j) → total n f ≡ total n g
unfolding total
total-beyond zero f g h = refl
total-beyond (suc n) f g h =
    ap₂ ◌+◌ (total-beyond n f g (λ j lt. h j (omega arith))) (h n (omega arith))

pub total-change :
    (n i : ℕ) (f g : ℕ → ℕ)
    → i < n
    → ((j : ℕ) → (i == j) ≡ false → f j ≡ g j)
    → total n f + g i ≡ total n g + f i
unfolding total
total-change zero i f g lt h = absurd (omega arith)
total-change (suc n) i f g lt h = elim (dec_lt i n) [
  | yes below ↦ let r = total-change n i f g below h in let e = h n (ground arith) in omega arith
  | no last ↦
      let same : i ≡ n = omega arith in
      let r = total-beyond n f g (λ j b. h j (ground arith)) in
      rw (← same) (let r' = subst (λ t. total t f ≡ total t g) (sym same) r in omega arith)
]

pub total-ge : (n i : ℕ) (f : ℕ → ℕ) → i < n → f i ≤ total n f
unfolding total
total-ge zero i f lt = absurd (omega arith)
total-ge (suc n) i f lt = elim (dec_lt i n) [
  | yes below ↦ let r = total-ge n i f below in omega arith
  | no last ↦ let same : i ≡ n = omega arith in rw same (omega arith)
]

pub total-small : (n : ℕ) (f : ℕ → ℕ) → ((j : ℕ) → f j ≤ 1) → total n f ≤ n
unfolding total
total-small zero f h = omega arith
total-small (suc n) f h = omega (arith, total-small n f h, h n)

pub total-nothing : (n : ℕ) (f : ℕ → ℕ) → ((j : ℕ) → f j ≡ 0) → total n f ≡ 0
unfolding total
total-nothing zero f h = refl
total-nothing (suc n) f h = omega (arith, total-nothing n f h, h n)
