-- ===== src/Handler.antt =====
-- What the server sends when characters come, move between sectors and go: SCPacket of Server.cpp in
-- CppProject/22.10.10 - MMO TCPFighter Server; its packet handlers are the children.
pub mod Move
pub mod Attack
pub mod Sends
pub mod Tests
use simple_poject.Common.{
  ℕ, ◌%◌, ◌^◌, List, [], ◌∷◌, ◌++◌, Bool, true, false, not, Option, none, some, ltb, ◌==◌,
  if◌then◌else◌,
}
use simple_poject.Common.Outcome.{Outcome, returned, ◌>>=◌}
use simple_poject.MakePacket.Layout.{Packet}
use simple_poject.Sector.{SectorPos, get_sector_around, get_changed_sector_around}
use simple_poject.Character.{Character, stop}
use simple_poject.World.{
  World, find_character, deref, sector_at, packet_of, send_packet_unicast, send_packet_sector_one,
  send_packet_around, update_sector_pos,
}

-- (short) of an int
abbrev pub short : ℕ → ℕ
short v = v % 2 ^ 16

abbrev pub create_my : Character → Packet
create_my c = Packet.create_my_character c.session_id c.dir (short c.x) (short c.y) c.hp

abbrev pub create_other : Character → Packet
create_other c = Packet.create_other_character c.session_id c.dir (short c.x) (short c.y) c.hp

abbrev pub start_of : Character → Packet
start_of c = Packet.move_start c.session_id c.action (short c.x) (short c.y)

-- A character with its movement, if it moves: the two tests of the source.
abbrev pub create_acting : Character → List Packet
create_acting c =
    if not (c.action == stop) then create_other c ∷ start_of c ∷ [] else create_other c ∷ []

abbrev pub create_moving : Character → List Packet
create_moving c =
    if ltb c.action stop then create_other c ∷ start_of c ∷ [] else create_other c ∷ []

-- The inner loops that tell session `id` about each character of a sector; `pass` is left out.
pub tell_each : World → ℕ → List ℕ → (Character → List Packet) → Option ℕ → Outcome World
tell_each w id [] tell pass = returned w
tell_each w id (other ∷ ids) tell pass =
    let send = deref (find_character other w.characters) >>= λ c. packet_of w (tell c) >>= λ packet.
    send_packet_unicast w id packet >>= λ w'. tell_each w' id ids tell pass in
    let next = tell_each w id ids tell pass in
    elim pass [ none ↦ send | some p ↦ if other == p then next else send ]

-- The outer loops, over sectors.
pub tell_sectors : World → ℕ → List SectorPos → (Character → List Packet) → Option ℕ → Outcome World
tell_sectors w id [] tell pass = returned w
tell_sectors w id (p ∷ ps) tell pass =
    sector_at w p >>= λ ids. tell_each w id ids tell pass >>= λ w'. tell_sectors w' id ps tell pass

-- SCPacket::CREATE_MY_CHARACTER
pub create_my_character : World → Character → Outcome World
create_my_character w c = do
  let around = get_sector_around c.cur_sector.x c.cur_sector.y
  mine ← packet_of w (create_my c ∷ [])
  w ← send_packet_unicast w c.session_id mine
  other ← packet_of w (create_other c ∷ [])
  w ← send_packet_around w around other (some c.session_id)
  tell_sectors w c.session_id around create_acting (some c.session_id)

-- SCPacket::CharacterSectorUpdate
pub character_sector_update : World → Character → Outcome World
character_sector_update w c = do
  let (removed, added) = get_changed_sector_around c.old_sector c.cur_sector
  gone ← packet_of w (Packet.delete_character c.session_id ∷ [])
  w ← send_packet_around w removed gone none
  w ← tell_sectors w c.session_id removed (λ d. Packet.delete_character d.session_id ∷ []) none
  come ← packet_of w (create_moving c)
  w ← send_packet_around w added come none
  tell_sectors w c.session_id added create_moving none

-- SCPacket::Disconnect_Character
pub disconnect_character : World → Character → Outcome World
disconnect_character w c = do
  gone ← packet_of w (Packet.delete_character c.session_id ∷ [])
  send_packet_around w (get_sector_around c.cur_sector.x c.cur_sector.y) gone (some c.session_id)

-- Update_SectorPos, and CharacterSectorUpdate if it reports a change.
pub sync_sector : World → Character → Outcome (Character × World)
sync_sector w c = do
  (changed, c', w') ← update_sector_pos w c
  if changed
      then (character_sector_update w' c' >>= λ w''. returned (c', w''))
      else returned (c', w')
