-- ===== src/MakePacket/Tests.antt =====
-- A packet in a cleared buffer of the pool.
use simple_poject.Common.{◌≤◌, ◌≡◌, arith, length}
use simple_poject.Common.Outcome.{returned}
use simple_poject.ProtocolBuffer.{ProtocolBuffer, clear, get_free_size}
use simple_poject.ProtocolBuffer.Put.{IsValid, Written, clear-IsValid, get_free_size-clear}
use simple_poject.MakePacket.Layout.{
  Packet, make_packet, packet_bytes, length-packet_bytes, make_packet-Written,
}

abbrev used : ProtocolBuffer
used = record {
  mem = λ q. 137;
  begin = 64;
  end = 4064;
  buf_size = 4000;
  write_pos = 74;
  read_pos = 64;
}

used-IsValid : IsValid used
used-IsValid = omega arith

abbrev moving : Packet
moving = Packet.move_start 7 4 190 100

room : length (packet_bytes moving) ≤ get_free_size (clear used)
room = omega (arith, length-packet_bytes moving, get_free_size-clear used-IsValid)

make_packet-Written_example :
    (p' : ProtocolBuffer) × (make_packet moving (clear used) ≡ returned p')
    × Written (clear used) p' (packet_bytes moving)
make_packet-Written_example = make_packet-Written moving (clear-IsValid used-IsValid) room
