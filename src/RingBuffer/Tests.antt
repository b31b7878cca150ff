-- ===== src/RingBuffer/Tests.antt =====
-- Runs on a ring buffer whose bytes go round the end of its block.
use simple_poject.Common.{refl, ℕ, ◌%◌, ◌≤◌, ◌≡◌, inl, List, [], ◌∷◌, arith, ◌==◌, if◌then◌else◌}
use simple_poject.RingBuffer.{
  RingBuffer, get_use_size, direct_enqueue_size, direct_dequeue_size, enqueue,
}
use simple_poject.RingBuffer.Bounds.{IsValid}
use simple_poject.RingBuffer.Pieces.{contents}
use simple_poject.RingBuffer.Window.{window}
use simple_poject.RingBuffer.Fifo.{enqueue_inside}
use simple_poject.RingBuffer.Run.{Call, put, get, look, run, run_queue, run_refines}

-- Two bytes, at the last address of the block and at the first.
abbrev wrapped : RingBuffer
wrapped = record {
  mem = λ q. q % 256;
  begin = 8192;
  end = 16384;
  front = 16382;
  rear = 8192;
  read_pos = 16383;
  write_pos = 8193;
}

-- The last free address is the one before the end.
abbrev at_end : RingBuffer
at_end = record wrapped { front = 16380; rear = 16381; read_pos = 16381; write_pos = 16382 }

-- A packet of three and five bytes round the end of the block, and the first byte of another.
abbrev pub filled : RingBuffer
filled = record {
  mem = λ q.
      if q == 16382
      then 137
      else if q == 16383
      then 5
      else if q == 8192
      then 10
      else if q == 8193
      then 4
      else if q == 8194
      then 204
      else if q == 8196
      then 50
      else if q == 8198
      then 137
      else 0;
  begin = 8192;
  end = 16384;
  front = 16381;
  rear = 8198;
  read_pos = 16382;
  write_pos = 8199;
}

pub filled-IsValid : IsValid filled
filled-IsValid = omega arith

pub filled-contents : contents filled ≡ 137 ∷ 5 ∷ 10 ∷ 4 ∷ 204 ∷ 0 ∷ 50 ∷ 0 ∷ 137 ∷ []
unfolding contents window get_use_size
filled-contents = refl

-- The first two bytes of the payload only, and what stands behind the header.
abbrev pub partial : RingBuffer
partial = record filled { rear = 8194; write_pos = 8195 }

abbrev pub shifted : RingBuffer
shifted = record filled { front = 8192; read_pos = 8193 }

pub partial-IsValid : IsValid partial
partial-IsValid = omega arith

pub shifted-IsValid : IsValid shifted
shifted-IsValid = omega arith

pub partial-contents : contents partial ≡ 137 ∷ 5 ∷ 10 ∷ 4 ∷ 204 ∷ []
unfolding contents window get_use_size
partial-contents = refl

pub shifted-contents : contents shifted ≡ 4 ∷ 204 ∷ 0 ∷ 50 ∷ 0 ∷ 137 ∷ []
unfolding contents window get_use_size
shifted-contents = refl

wrapped-IsValid : IsValid wrapped
wrapped-IsValid = omega arith

at_end-IsValid : IsValid at_end
at_end-IsValid = omega arith

abbrev two : List ℕ
two = 1 ∷ 2 ∷ []

abbrev three : List ℕ
three = 5 ∷ 6 ∷ 7 ∷ []

abbrev calls : List Call
calls = put three ∷ look 3 ∷ get 4 ∷ []

run_refines_example : run at_end calls ≡ run_queue (contents at_end) calls
run_refines_example = run_refines calls at_end-IsValid

two_direct : 2 ≤ direct_enqueue_size at_end
unfolding direct_enqueue_size
two_direct = omega arith

enqueue_inside_example : (enqueue at_end three).1.mem 8191 ≡ at_end.mem 8191
enqueue_inside_example = enqueue_inside three 8191 at_end-IsValid (inl (omega arith))

pub filled-direct : direct_dequeue_size filled ≡ 2
unfolding direct_dequeue_size
filled-direct = refl
