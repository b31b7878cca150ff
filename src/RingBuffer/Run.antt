-- ===== src/RingBuffer/Run.antt =====
-- Whole runs of calls on a ring buffer, against the queue that a caller relies on.
use simple_poject.Common.{
  ℕ, ◌-◌, ◌≡◌, refl, List, [], ◌∷◌, ◌++◌, arith, length, take, drop, min, nil_of_length,
}
use simple_poject.RingBuffer.{RingBuffer, clear, get_use_size, enqueue, dequeue, peek}
use simple_poject.RingBuffer.Bounds.{IsValid, clear-IsValid}
use simple_poject.RingBuffer.Pieces.{contents, length-contents}
use simple_poject.RingBuffer.Fifo.{enqueue_refines, dequeue_refines, peek-dequeue}

-- A caller's calls.
pub data Call : Type 0 where
  put : List ℕ → Call
  get : ℕ → Call
  look : ℕ → Call
  reset : Call

-- What a call returns, and what it writes through `dst`.
abbrev pub Reply : Type 0
Reply = ℕ × List ℕ

pub run : RingBuffer → List Call → List Reply
run r [] = []
run r (put src ∷ calls) = let (n, r') = enqueue r src in (n, []) ∷ run r' calls
run r (get size ∷ calls) = let (n, dst, r') = dequeue r size in (n, dst) ∷ run r' calls
run r (look size ∷ calls) = peek r size ∷ run r calls
run r (reset ∷ calls) = (0, []) ∷ run (clear r) calls

-- The same calls on a queue of at most 8191 bytes, oldest first.
pub run_queue : List ℕ → List Call → List Reply
run_queue q [] = []
run_queue q (put src ∷ calls) =
    let n = min (length src) (8191 - length q) in (n, []) ∷ run_queue (q ++ take n src) calls
run_queue q (get size ∷ calls) =
    let n = min size (length q) in (n, take n q) ∷ run_queue (drop n q) calls
run_queue q (look size ∷ calls) = let n = min size (length q) in (n, take n q) ∷ run_queue q calls
run_queue q (reset ∷ calls) = (0, []) ∷ run_queue [] calls

contents-clear : (r : RingBuffer) → contents (clear r) ≡ []
unfolding clear get_use_size
contents-clear r =
    nil_of_length (contents (clear r)) (omega (arith, length-contents (clear r), none_used))
  where
    none_used : get_use_size (clear r) ≡ 0
    none_used = ground arith

-- No sequence of calls of Enqueue, Dequeue, Peek and Clear tells a valid ring buffer from the bounded
-- queue of the bytes that it holds.
pub run_refines :
    (calls : List Call) {r : RingBuffer} → IsValid r → run r calls ≡ run_queue (contents r) calls
unfolding run run_queue
run_refines [] v = refl
run_refines (put src ∷ calls) {r} v =
    let e = enqueue_refines src v in rw (run_refines calls e.2, e.1, e.0)
run_refines (get size ∷ calls) {r} v =
    let e = dequeue_refines size v in rw (run_refines calls e.3, e.2, e.1, e.0)
run_refines (look size ∷ calls) {r} v =
    let e = dequeue_refines size v in rw (peek-dequeue size v, run_refines calls v, e.1, e.0)
run_refines (reset ∷ calls) {r} v = rw (run_refines calls (clear-IsValid v), contents-clear)
