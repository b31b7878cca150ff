-- ===== src/Handler/Move.antt =====
-- Proc_Packet_MOVE_START and Proc_Packet_MOVE_STOP of Server.cpp in
-- CppProject/22.10.10 - MMO TCPFighter Server.
pub mod Fields
pub mod Kept
pub mod Total
pub mod Returns
pub mod Tests
use simple_poject.Common.{
  ℕ, List, [], ◌∷◌, Bool, true, false, ◌||◌, Option, none, some, ltb, ◌==◌, if◌then◌else◌,
}
use simple_poject.Common.Word.{sub32, abs32, extend16}
use simple_poject.Common.Outcome.{Outcome, returned, thrown, ◌>>=◌}
use simple_poject.ProtocolBuffer.{ProtocolBuffer, get_uchar, get_short}
use simple_poject.MakePacket.Layout.{Packet}
use simple_poject.Sector.{get_sector_around}
use simple_poject.Character.{
  Character, move_ll, move_lu, move_ru, move_rr, move_rd, move_ld, stop, dir_ll, dir_rr,
}
use simple_poject.World.{World, find_character, set_character, packet_of, send_packet_around}
use simple_poject.Handler.{short, sync_sector}

-- SYNC_RANGE
abbrev pub sync_range : ℕ
sync_range = 50

-- The test of the handlers; x and y are the client's, extended to int.
pub is_far : Character → ℕ → ℕ → Bool
is_far c x y = ltb sync_range (abs32 (sub32 c.x x)) || ltb sync_range (abs32 (sub32 c.y y))

-- character_map.find, whose failure throws.
pub character_of : World → ℕ → Outcome Character
character_of w id = elim (find_character id w.characters) [ none ↦ thrown | some c ↦ returned c ]

-- The packet goes to everybody round the character.
pub send_round : World → Character → Packet → Outcome World
send_round w c k = do
  packet ← packet_of w (k ∷ [])
  send_packet_around w (get_sector_around c.cur_sector.x c.cur_sector.y) packet none

-- The three fields that the handlers read.
pub read_fields : ProtocolBuffer → Outcome (ℕ × ℕ × ℕ)
read_fields payload = do
  (first, payload) ← get_uchar payload
  (x, payload) ← get_short payload
  (y, _) ← get_short payload
  returned (first, extend16 x, extend16 y)

-- The position that the handlers go on with: the client's, unless it is far off.
pub moved_to : Character → ℕ → ℕ → Character
moved_to c x y = if is_far c x y then c else record c { x = x; y = y }

-- The sync message, if the client's position is far off.
pub send_sync : World → Character → ℕ → ℕ → Outcome World
send_sync w c x y =
    if is_far c x y
    then send_round w c (Packet.sync c.session_id (short c.x) (short c.y))
    else returned w

-- The switch over the action that a client starts.
pub dir_of : ℕ → ℕ → ℕ
dir_of action dir =
    if action == move_rr || (action == move_ru || action == move_rd)
    then dir_rr
    else if action == move_ll || (action == move_lu || action == move_ld)
    then dir_ll
    else dir

pub proc_packet_move_start : World → ℕ → ProtocolBuffer → Outcome World
proc_packet_move_start w id payload = do
  (action, x, y) ← read_fields payload
  c ← character_of w id
  w ← send_sync w c x y
  let c' = record (moved_to c x y) { action = action; dir = dir_of action c.dir }
  (c'', w) ← sync_sector (record w { characters = set_character c' w.characters }) c'
  send_round w c'' (Packet.move_start id action (short c''.x) (short c''.y))

pub proc_packet_move_stop : World → ℕ → ProtocolBuffer → Outcome World
proc_packet_move_stop w id payload = do
  (dir, x, y) ← read_fields payload
  c ← character_of w id
  w ← send_sync w c x y
  let c' = record (moved_to c x y) { dir = dir; action = stop }
  (c'', w) ← sync_sector (record w { characters = set_character c' w.characters }) c'
  send_round w c'' (Packet.move_stop id c''.dir (short c''.x) (short c''.y))
