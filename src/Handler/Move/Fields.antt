-- ===== src/Handler/Move/Fields.antt =====
-- The fields of a client's packet, read by the handlers of Server.cpp in
-- CppProject/22.10.10 - MMO TCPFighter Server.
use simple_poject.Common.{ℕ, ◌<◌, ◌≡◌, refl, inl, inr, List, ◌++◌, arith}
use simple_poject.Common.Word.{to_bytes}
use simple_poject.Common.Word.{extend16}
use simple_poject.Common.Outcome.{returned, thrown}
use simple_poject.ProtocolBuffer.{ProtocolBuffer, get_use_size}
use simple_poject.ProtocolBuffer.Put.{IsValid, contents}
use simple_poject.ProtocolBuffer.Get.{get_number_lem, get_number-cases, get_number-thrown}
use simple_poject.World.{World}
use simple_poject.Handler.Move.{read_fields, proc_packet_move_start, proc_packet_move_stop}

-- From a valid buffer that holds a byte and two shorts, each in range, the three fields are read back as
-- they were written, the shorts with their sign; what stands behind them makes no difference.
pub read_fields_lem :
    {payload : ProtocolBuffer} (first x y : ℕ) (rest : List ℕ)
    → IsValid payload
    → contents payload ≡ to_bytes 1 first ++ (to_bytes 2 x ++ (to_bytes 2 y ++ rest))
    → first < 256
    → x < 65536
    → y < 65536
    → read_fields payload ≡ returned (first, extend16 x, extend16 y)
unfolding read_fields
read_fields_lem first x y rest valid e first_in x_in y_in =
    let (p, get_first, l) =
      get_number_lem 1 first (to_bytes 2 x ++ (to_bytes 2 y ++ rest)) first_in e valid in
    let (q, get_x, m) = get_number_lem 2 x (to_bytes 2 y ++ rest) x_in l.bytes l.valid in
    let (r, get_y, _) = get_number_lem 2 y rest y_in m.bytes m.valid in
    rw (get_first, get_x, get_y) refl

-- A payload of fewer than five bytes.
read_fields-thrown :
    {payload : ProtocolBuffer}
    → IsValid payload
    → get_use_size payload < 5
    → read_fields payload ≡ thrown
unfolding read_fields
read_fields-thrown v h = elim (get_number-cases 1 v) [
  | inr e ↦ rw e refl
  | inl a ↦ elim (get_number-cases 2 a.valid) [
    | inr e ↦ rw (a.runs, e) refl
    | inl b ↦
        rw (a.runs, b.runs, get_number-thrown 2 b.valid (omega (arith, a.size_left, b.size_left)))
          refl
  ]
]

-- A MOVE_START or MOVE_STOP packet with a valid payload of fewer than five bytes ends the program, whatever
-- the world is.
pub proc_packet_move-thrown :
    (w : World) (id : ℕ) {payload : ProtocolBuffer}
    → IsValid payload
    → get_use_size payload < 5
    → (proc_packet_move_start w id payload ≡ thrown) × (proc_packet_move_stop w id payload ≡ thrown)
unfolding proc_packet_move_start proc_packet_move_stop
proc_packet_move-thrown w id v h =
    (rw (read_fields-thrown v h) refl, rw (read_fields-thrown v h) refl)
