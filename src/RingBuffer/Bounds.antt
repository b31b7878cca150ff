-- ===== src/RingBuffer/Bounds.antt =====
-- The invariant of the ring buffer, and the sizes that it reports.
use simple_poject.Common.{ℕ, ◌+◌, ◌-◌, ◌%◌, ◌≤◌, ◌<◌, ◌≡◌, ◌↔◌, true, arith}
use simple_poject.Common.Memory.{Memory}
use simple_poject.RingBuffer.{
  RingBuffer, init, move_front, move_rear, empty, full, clear, get_free_size, get_use_size,
}

pub record IsValid (r : RingBuffer) : Type 0 where
  pub aligned : r.begin % 8192 ≡ 0
  pub end_at : r.end ≡ r.begin + 8192
  pub front_from : r.begin ≤ r.front
  pub front_below : r.front < r.begin + 8192
  pub rear_from : r.begin ≤ r.rear
  pub rear_below : r.rear < r.begin + 8192
  pub read_at : r.read_pos ≡ r.begin + (r.front + 1) % 8192
  pub write_at : r.write_pos ≡ r.begin + (r.rear + 1) % 8192

pub init-IsValid : (mem : Memory) (begin : ℕ) → begin % 8192 ≡ 0 → IsValid (init mem begin)
unfolding init
init-IsValid mem begin h = ground arith

pub clear-IsValid : {r : RingBuffer} → IsValid r → IsValid (clear r)
unfolding clear
clear-IsValid v = ground arith

-- After Clear nothing is left.
pub get_use_size-clear : (r : RingBuffer) → get_use_size (clear r) ≡ 0
unfolding clear get_use_size
get_use_size-clear r = ground arith

pub move_front-IsValid : {r : RingBuffer} (size : ℕ) → IsValid r → IsValid (move_front r size)
unfolding move_front
move_front-IsValid size v = ground arith

pub move_rear-IsValid : {r : RingBuffer} (size : ℕ) → IsValid r → IsValid (move_rear r size)
unfolding move_rear
move_rear-IsValid size v = ground arith

-- The two parts of the used bytes make up the distance from front to rear, round the block.
pub get_use_size_lem :
    {r : RingBuffer} → IsValid r → get_use_size r ≡ (r.rear + 8192 - r.front) % 8192
unfolding get_use_size
get_use_size_lem v = ground arith

-- In a valid buffer free and used bytes make up the block less the one byte that is never used.
pub get_free_size-add-get_use_size :
    {r : RingBuffer} → IsValid r → get_free_size r + get_use_size r ≡ 8191
unfolding get_free_size get_use_size
get_free_size-add-get_use_size v = ground arith

-- Full tells of a valid buffer exactly that no byte is free.
pub full_iff : {r : RingBuffer} → IsValid r → (full r ≡ true) ↔ (get_free_size r ≡ 0)
unfolding full get_free_size
full_iff v = (λ h. ground arith, λ h. ground arith)

pub empty_iff : {r : RingBuffer} → IsValid r → (empty r ≡ true) ↔ (get_use_size r ≡ 0)
unfolding empty get_use_size
empty_iff v = (λ h. ground arith, λ h. ground arith)
