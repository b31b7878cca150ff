-- ===== src/ProtocolBuffer/Tests.antt =====
-- Runs on a buffer that has unread bytes.
use simple_poject.Common.{ℕ, ◌≤◌, ◌≡◌, refl, List, [], ◌∷◌, ◌++◌, arith, length}
use simple_poject.Common.Memory.{load}
use simple_poject.Common.Outcome.{returned}
use simple_poject.ProtocolBuffer.{
  ProtocolBuffer, get_free_size, get_use_size, get_data, put_number, get_number,
}
use simple_poject.ProtocolBuffer.Put.{IsValid, contents}
use simple_poject.ProtocolBuffer.Get.{put-get_number}

abbrev half : ProtocolBuffer
half = record { mem = λ q. q; begin = 64; end = 80; buf_size = 16; write_pos = 68; read_pos = 65 }

half-IsValid : IsValid half
half-IsValid = omega arith

abbrev bytes : List ℕ
bytes = 65 ∷ 66 ∷ []

abbrev two : List ℕ
two = 1 ∷ 2 ∷ []

room : length two ≤ get_free_size half
unfolding get_free_size
room = omega arith

room_of_four : 4 ≤ get_free_size half
unfolding get_free_size
room_of_four = omega arith

half-bytes : contents half ≡ bytes ++ 67 ∷ []
unfolding contents load
half-bytes = refl

put-get_number_example :
    (p' q q' : ProtocolBuffer) × (put_number half 4 4660 ≡ returned p')
    × (get_data p' (get_use_size half) ≡ returned (contents half, q))
    × (get_number q 4 ≡ returned (4660, q'))
    × (contents q' ≡ [])
put-get_number_example = put-get_number 4 4660 half-IsValid room_of_four (omega arith)
