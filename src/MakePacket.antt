-- ===== src/MakePacket.antt =====
-- The packets that the server sends: MakePacket.cpp of CppProject/22.10.10 - MMO TCPFighter Server,
-- with PACKET_HEADER and the packet types of its Protocol.h. A field is its bit pattern.
pub mod Layout
pub mod Tests
use simple_poject.Common.{ℕ, List, [], ◌∷◌}
use simple_poject.Common.Outcome.{Outcome, returned, thrown, ◌>>=◌}
use simple_poject.ProtocolBuffer.{
  ProtocolBuffer, put_data, put_ulong, put_uchar, put_char, put_short,
}

-- PACKET_CODE
abbrev pub packet_code : ℕ
packet_code = 0x89

-- PACKET_HEADER, in the order of its members
pub record PacketHeader : Type 0 where
  pub by_code : ℕ
  pub by_size : ℕ
  pub by_type : ℕ

-- The three bytes of a header in memory.
abbrev pub header_bytes : PacketHeader → List ℕ
header_bytes h = h.by_code ∷ h.by_size ∷ h.by_type ∷ []

unfoldable pub make_packet_create_my_character :
    ProtocolBuffer → ℕ → ℕ → ℕ → ℕ → ℕ → Outcome ProtocolBuffer
make_packet_create_my_character p session_id dir x y hp = do
  let packet_header : PacketHeader = record { by_code = packet_code; by_size = 10; by_type = 0 }
  p ← put_data p (header_bytes packet_header)
  p ← put_ulong p session_id
  p ← put_uchar p dir
  p ← put_short p x
  p ← put_short p y
  put_char p hp

unfoldable pub make_packet_create_other_character :
    ProtocolBuffer → ℕ → ℕ → ℕ → ℕ → ℕ → Outcome ProtocolBuffer
make_packet_create_other_character p session_id dir x y hp = do
  let packet_header : PacketHeader = record { by_code = packet_code; by_size = 10; by_type = 1 }
  p ← put_data p (header_bytes packet_header)
  p ← put_ulong p session_id
  p ← put_uchar p dir
  p ← put_short p x
  p ← put_short p y
  put_char p hp

unfoldable pub make_packet_delete_character : ProtocolBuffer → ℕ → Outcome ProtocolBuffer
make_packet_delete_character p session_id = do
  let packet_header : PacketHeader = record { by_code = packet_code; by_size = 4; by_type = 2 }
  p ← put_data p (header_bytes packet_header)
  put_ulong p session_id

unfoldable pub make_packet_move_start : ProtocolBuffer → ℕ → ℕ → ℕ → ℕ → Outcome ProtocolBuffer
make_packet_move_start p session_id action x y = do
  let packet_header : PacketHeader = record { by_code = packet_code; by_size = 9; by_type = 11 }
  p ← put_data p (header_bytes packet_header)
  p ← put_ulong p session_id
  p ← put_uchar p action
  p ← put_short p x
  put_short p y

unfoldable pub make_packet_move_stop : ProtocolBuffer → ℕ → ℕ → ℕ → ℕ → Outcome ProtocolBuffer
make_packet_move_stop p session_id dir x y = do
  let packet_header : PacketHeader = record { by_code = packet_code; by_size = 9; by_type = 13 }
  p ← put_data p (header_bytes packet_header)
  p ← put_ulong p session_id
  p ← put_uchar p dir
  p ← put_short p x
  put_short p y

unfoldable pub make_packet_attack1 : ProtocolBuffer → ℕ → ℕ → ℕ → ℕ → Outcome ProtocolBuffer
make_packet_attack1 p session_id dir x y = do
  let packet_header : PacketHeader = record { by_code = packet_code; by_size = 9; by_type = 21 }
  p ← put_data p (header_bytes packet_header)
  p ← put_ulong p session_id
  p ← put_uchar p dir
  p ← put_short p x
  put_short p y

unfoldable pub make_packet_attack2 : ProtocolBuffer → ℕ → ℕ → ℕ → ℕ → Outcome ProtocolBuffer
make_packet_attack2 p session_id dir x y = do
  let packet_header : PacketHeader = record { by_code = packet_code; by_size = 9; by_type = 23 }
  p ← put_data p (header_bytes packet_header)
  p ← put_ulong p session_id
  p ← put_uchar p dir
  p ← put_short p x
  put_short p y

unfoldable pub make_packet_attack3 : ProtocolBuffer → ℕ → ℕ → ℕ → ℕ → Outcome ProtocolBuffer
make_packet_attack3 p session_id dir x y = do
  let packet_header : PacketHeader = record { by_code = packet_code; by_size = 9; by_type = 25 }
  p ← put_data p (header_bytes packet_header)
  p ← put_ulong p session_id
  p ← put_uchar p dir
  p ← put_short p x
  put_short p y

unfoldable pub make_packet_damage : ProtocolBuffer → ℕ → ℕ → ℕ → Outcome ProtocolBuffer
make_packet_damage p attack_id damage_id damage_hp = do
  let packet_header : PacketHeader = record { by_code = packet_code; by_size = 9; by_type = 30 }
  p ← put_data p (header_bytes packet_header)
  p ← put_ulong p attack_id
  p ← put_ulong p damage_id
  put_char p damage_hp

unfoldable pub make_packet_sync : ProtocolBuffer → ℕ → ℕ → ℕ → Outcome ProtocolBuffer
make_packet_sync p session_id x y = do
  let packet_header : PacketHeader = record { by_code = packet_code; by_size = 8; by_type = 251 }
  p ← put_data p (header_bytes packet_header)
  p ← put_ulong p session_id
  p ← put_short p x
  put_short p y
