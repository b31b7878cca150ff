-- ===== src/RingBuffer.antt =====
-- The ring buffer of a session: RingBuffer.h and RingBuffer.cpp of
-- CppProject/22.10.10 - MMO TCPFighter Server. Pointers are addresses; `begin` is what
-- _aligned_malloc returned, a multiple of BUF_SIZE. An operation returns the new buffer.
pub mod Window
pub mod Bounds
pub mod Pieces
pub mod Fifo
pub mod Run
pub mod Tests
use simple_poject.Common.{
  ℕ, ◌+◌, ◌-◌, ◌%◌, List, ◌++◌, Bool, ltb, leb, ◌==◌, if◌then◌else◌, length, take, drop,
}
use simple_poject.Common.Memory.{Memory, store, load}

-- BUF_SIZE
abbrev pub buf_size : ℕ
buf_size = 8192

-- MASKING_BIT: `& 0x1fff` keeps the low thirteen bits.
abbrev pub masking_bit : ℕ → ℕ
masking_bit n = n % 8192

pub record RingBuffer : Type 0 where
  pub mem : Memory
  pub begin : ℕ
  pub end : ℕ
  pub front : ℕ
  pub rear : ℕ
  pub read_pos : ℕ
  pub write_pos : ℕ

pub init : Memory → ℕ → RingBuffer
init mem begin = record {
  mem = mem;
  begin = begin;
  end = begin + buf_size;
  front = begin;
  rear = begin;
  read_pos = begin + 1;
  write_pos = begin + 1;
}

pub set_read_pos : RingBuffer → RingBuffer
set_read_pos r = record r { read_pos = r.begin + masking_bit (r.front + 1) }

pub set_write_pos : RingBuffer → RingBuffer
set_write_pos r = record r { write_pos = r.begin + masking_bit (r.rear + 1) }

pub move_front : RingBuffer → ℕ → RingBuffer
unfolding set_read_pos
move_front r size = set_read_pos (record r { front = r.begin + masking_bit (r.front + size) })

pub move_rear : RingBuffer → ℕ → RingBuffer
unfolding set_write_pos
move_rear r size = set_write_pos (record r { rear = r.begin + masking_bit (r.rear + size) })

pub empty : RingBuffer → Bool
empty r = r.front == r.rear

pub full : RingBuffer → Bool
full r = r.front == r.write_pos

pub clear : RingBuffer → RingBuffer
clear r = record r {
  front = r.begin;
  rear = r.begin;
  write_pos = r.begin + 1;
  read_pos = r.begin + 1;
}

pub direct_enqueue_size : RingBuffer → ℕ
direct_enqueue_size r =
    if ltb r.front r.write_pos then r.end - r.write_pos else r.front - r.write_pos

pub remain_enqueue_size : RingBuffer → ℕ
remain_enqueue_size r = if leb r.write_pos r.front then 0 else r.front - r.begin

pub direct_dequeue_size : RingBuffer → ℕ
direct_dequeue_size r =
    if ltb r.write_pos r.read_pos then r.end - r.read_pos else r.write_pos - r.read_pos

pub remain_dequeue_size : RingBuffer → ℕ
remain_dequeue_size r = if leb r.read_pos r.write_pos then 0 else r.write_pos - r.begin

pub get_free_size : RingBuffer → ℕ
unfolding direct_enqueue_size remain_enqueue_size
get_free_size r = direct_enqueue_size r + remain_enqueue_size r

pub get_use_size : RingBuffer → ℕ
unfolding direct_dequeue_size remain_dequeue_size
get_use_size r = direct_dequeue_size r + remain_dequeue_size r

-- `if (limit < size) size = limit;`
abbrev pub clip : ℕ → ℕ → ℕ
clip limit size = if ltb limit size then limit else size

-- The list is what `src` points to, `size` its length.
pub must_enqueue : RingBuffer → List ℕ → RingBuffer
must_enqueue r src = move_rear (record r { mem = store r.mem r.write_pos src }) (length src)

-- The list is what is written through `dst`.
pub must_dequeue : RingBuffer → ℕ → List ℕ × RingBuffer
must_dequeue r size = (load r.mem r.read_pos size, move_front r size)

-- The number is what the function returns.
pub enqueue : RingBuffer → List ℕ → ℕ × RingBuffer
enqueue r src =
    let size = clip (get_free_size r) (length src) in
    let direct_size = direct_enqueue_size r in
    if leb size direct_size then (size, must_enqueue r (take size src)) else (
      direct_size + (size - direct_size),
      must_enqueue (must_enqueue r (take direct_size src))
          (take (size - direct_size) (drop direct_size src)),
    )

pub dequeue : RingBuffer → ℕ → ℕ × List ℕ × RingBuffer
dequeue r size =
    let size = clip (get_use_size r) size in
    let direct_size = direct_dequeue_size r in
    if leb size direct_size
    then (let (dst, r') = must_dequeue r size in (size, dst, r'))
    else let (dst, r') = must_dequeue r direct_size in
      let (rest, r'') = must_dequeue r' (size - direct_size) in
      (direct_size + (size - direct_size), dst ++ rest, r'')

pub peek : RingBuffer → ℕ → ℕ × List ℕ
peek r size =
    let size = clip (get_use_size r) size in
    let direct_size = direct_dequeue_size r in
    if leb size direct_size then (size, load r.mem r.read_pos size) else (
      direct_size + (size - direct_size),
      load r.mem r.read_pos direct_size ++ load r.mem r.begin (size - direct_size),
    )
