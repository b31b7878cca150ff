-- ===== src/RingBuffer/Pieces.antt =====
-- The bytes that the ring buffer holds, and what one contiguous piece adds or takes: MustEnqueue and
-- MustDequeue of RingBuffer.h.
use simple_poject.Common.{
  ℕ, ◌+◌, ◌-◌, ◌%◌, ◌≤◌, ◌<◌, ◌≡◌, refl, sym, drop, drop-append-left, ap, ap₂, ◌∙◌, ◌⊎◌, List, ◌++◌,
  arith, length,
}
use simple_poject.Common.Memory.{load, store-outside}
use simple_poject.RingBuffer.{
  RingBuffer, move_front, move_rear, direct_enqueue_size, direct_dequeue_size, get_free_size,
  get_use_size, must_enqueue, must_dequeue,
}
use simple_poject.RingBuffer.Window.{
  window, length-window, window-add, window-eq-load, window-extend,
}
use simple_poject.RingBuffer.Bounds.{
  IsValid, get_use_size_lem, get_free_size-add-get_use_size, move_front-IsValid,
}

-- The bytes in the buffer, oldest first.
unfoldable pub contents : RingBuffer → List ℕ
contents r = window r.mem r.begin (r.read_pos - r.begin) (get_use_size r)

pub length-contents : (r : RingBuffer) → length (contents r) ≡ get_use_size r
unfolding contents
length-contents r = length-window r.mem r.begin (r.read_pos - r.begin) (get_use_size r)

-- What `must_enqueue` and a `recv` into the buffer do: bytes behind the last one, then `move_rear`.
pub record Appended (r r' : RingBuffer) (src : List ℕ) : Type 0 where
  pub valid : IsValid r'
  pub bytes : contents r' ≡ contents r ++ src
  pub used : get_use_size r' ≡ get_use_size r + length src
  pub block : (r'.begin ≡ r.begin) × (r'.end ≡ r.end)
  pub inside : (q : ℕ) → (q < r.begin) ⊎ (r.end ≤ q) → r'.mem q ≡ r.mem q

pub direct_enqueue_bounds :
    {r : RingBuffer}
    → IsValid r
    → (direct_enqueue_size r ≤ get_free_size r)
      × (r.write_pos + direct_enqueue_size r ≤ r.begin + 8192)
unfolding get_free_size
direct_enqueue_bounds v = ground arith

must_enqueue-IsValid : {r : RingBuffer} (src : List ℕ) → IsValid r → IsValid (must_enqueue r src)
unfolding must_enqueue move_rear
must_enqueue-IsValid src v = ground arith

must_enqueue-use :
    {r : RingBuffer} (src : List ℕ)
    → IsValid r
    → length src ≤ get_free_size r
    → get_use_size (must_enqueue r src) ≡ get_use_size r + length src
unfolding must_enqueue move_rear
must_enqueue-use {r} src v h = omega (
  arith,
  get_use_size_lem v,
  get_free_size-add-get_use_size v,
  get_use_size_lem (must_enqueue-IsValid src v),
)

pub must_enqueue-Appended :
    {r : RingBuffer} (src : List ℕ)
    → IsValid r
    → length src ≤ direct_enqueue_size r
    → Appended r (must_enqueue r src) src
unfolding must_enqueue move_rear contents
must_enqueue-Appended {r} src v h = record {
  valid = must_enqueue-IsValid src v;
  used = used;
  block = (refl, refl);
  inside = λ q out. store-outside r.mem r.write_pos src q (omega (arith, fits));
  bytes = rw used (
      window-extend r.mem r.begin (r.write_pos - r.begin) r.write_pos src (r.read_pos - r.begin)
        (get_use_size r) (omega arith) (omega arith) (omega (arith, get_use_size_lem v))
        (omega (arith, fits, free)) (omega (arith, fits)));
}
  where
    fits :
        (direct_enqueue_size r ≤ get_free_size r)
        × (r.write_pos + direct_enqueue_size r ≤ r.begin + 8192)
    fits = direct_enqueue_bounds v

    free : get_free_size r + get_use_size r ≡ 8191
    free = get_free_size-add-get_use_size v

    used : get_use_size (must_enqueue r src) ≡ get_use_size r + length src
    used = must_enqueue-use src v (omega (arith, fits))

-- Behind the bytes of a full first piece lies the rest of the free bytes.
pub must_enqueue-rest :
    {r : RingBuffer} (src : List ℕ)
    → IsValid r
    → length src ≡ direct_enqueue_size r
    → get_free_size r ≡ direct_enqueue_size r + direct_enqueue_size (must_enqueue r src)
unfolding must_enqueue move_rear get_free_size
must_enqueue-rest src v h = ground arith

pub direct_dequeue_bounds :
    {r : RingBuffer}
    → IsValid r
    → (direct_dequeue_size r ≤ get_use_size r)
      × (r.read_pos + direct_dequeue_size r ≤ r.begin + 8192)
unfolding get_use_size
direct_dequeue_bounds v = ground arith

-- What `must_dequeue` hands out and leaves.
pub record Removed (r : RingBuffer) (size : ℕ) (out : List ℕ × RingBuffer) : Type 0 where
  pub valid : IsValid out.1
  pub bytes : contents r ≡ out.0 ++ contents out.1
  pub used : get_use_size r ≡ size + get_use_size out.1

must_dequeue-IsValid : {r : RingBuffer} (size : ℕ) → IsValid r → IsValid (must_dequeue r size).1
unfolding must_dequeue
must_dequeue-IsValid size v = move_front-IsValid size v

must_dequeue-use :
    {r : RingBuffer} (size : ℕ)
    → IsValid r
    → size ≤ get_use_size r
    → get_use_size r ≡ size + get_use_size (must_dequeue r size).1
unfolding must_dequeue move_front
must_dequeue-use size v h =
    omega (arith, get_use_size_lem v, get_use_size_lem (must_dequeue-IsValid size v))

pub must_dequeue-Removed :
    {r : RingBuffer} (size : ℕ)
    → IsValid r
    → size ≤ direct_dequeue_size r
    → Removed r size (must_dequeue r size)
unfolding must_dequeue move_front contents
must_dequeue-Removed {r} size v h = record {
  valid = must_dequeue-IsValid size v;
  used = used;
  bytes = rw used (
      window-add r.mem r.begin o size left (omega arith)
      ∙ ap₂ ◌++◌
          (window-eq-load r.mem r.begin o size (omega (arith, fits))
            ∙ ap (λ p. load r.mem p size) at)
          (ap (λ q. window r.mem r.begin q left) next));
}
  where
    o : ℕ
    o = r.read_pos - r.begin

    left : ℕ
    left = get_use_size (must_dequeue r size).1

    fits :
        (direct_dequeue_size r ≤ get_use_size r)
        × (r.read_pos + direct_dequeue_size r ≤ r.begin + 8192)
    fits = direct_dequeue_bounds v

    used : get_use_size r ≡ size + left
    used = must_dequeue-use size v (omega (arith, fits))

    at : r.begin + (r.read_pos - r.begin) ≡ r.read_pos
    at = omega arith

    next : (o + size) % 8192 ≡ (must_dequeue r size).1.read_pos - (must_dequeue r size).1.begin
    next = omega arith

-- Behind a full first piece lies the rest of the used bytes, from the start of the block on.
pub must_dequeue-rest :
    {r : RingBuffer}
    → IsValid r
    → get_use_size r
      ≡ direct_dequeue_size r + direct_dequeue_size (must_dequeue r (direct_dequeue_size r)).1
unfolding must_dequeue move_front get_use_size
must_dequeue-rest v = ground arith

-- MoveFront drops as many of the oldest bytes.
pub move_front-drop :
    {r : RingBuffer} (size : ℕ)
    → IsValid r
    → size ≤ get_use_size r
    → contents (move_front r size) ≡ drop size (contents r)
unfolding move_front contents must_dequeue
move_front-drop {r} size v h = sym (
    ap (drop size)
      (ap (window r.mem r.begin o) used ∙ window-add r.mem r.begin o size left (omega arith))
    ∙ drop-append-left size (window r.mem r.begin o size) _
        (sym (length-window r.mem r.begin o size))
    ∙ ap (λ q. window r.mem r.begin q left) next)
  where
    o : ℕ
    o = r.read_pos - r.begin

    left : ℕ
    left = get_use_size (move_front r size)

    used : get_use_size r ≡ size + left
    used = must_dequeue-use size v h

    next : (o + size) % 8192 ≡ (move_front r size).read_pos - (move_front r size).begin
    next = omega arith

-- MoveFront inside the first piece takes the bytes at GetReadPos off.
pub move_front-load :
    {r : RingBuffer} (size : ℕ)
    → IsValid r
    → size ≤ direct_dequeue_size r
    → contents r ≡ load r.mem r.read_pos size ++ contents (move_front r size)
unfolding must_dequeue
move_front-load size v h = (must_dequeue-Removed size v h).bytes
