-- ===== src/Handler/Attack.antt =====
-- Proc_Packet_ATTACK1, 2 and 3 of Server.cpp in CppProject/22.10.10 - MMO TCPFighter Server: one body
-- over the ranges and the damage.
pub mod Reach
pub mod Kept
pub mod Total
pub mod Returns
pub mod Tests
use simple_poject.Common.{
  ℕ, ◌+◌, ◌-◌, ◌/◌, ◌%◌, List, [], ◌∷◌, ◌++◌, Bool, true, false, not, ◌&&◌, ◌||◌, Option, none,
  some, ltb, ◌==◌, if◌then◌else◌, length,
}
use simple_poject.Common.Word.{add32, sub32, slt32}
use simple_poject.Common.Outcome.{Outcome, returned, ◌>>=◌}
use simple_poject.ProtocolBuffer.{ProtocolBuffer}
use simple_poject.MakePacket.Layout.{Packet}
use simple_poject.Sector.{SectorPos, sector_size, sector_max_x, sector_max_y}
use simple_poject.Character.{Character, stop, dir_ll, dir_rr}
use simple_poject.World.{World, find_character, set_character, deref, sector_at}
use simple_poject.Handler.{short, sync_sector}
use simple_poject.Handler.Move.{character_of, read_fields, moved_to, send_sync, send_round}

-- The rows above or below, behind the sectors found so far; `x` is the column to the side.
damage_rows : Character → ℕ → ℕ → List SectorPos → List SectorPos
damage_rows c x range_y found =
    let cur = c.cur_sector in
    let offset_y = c.y % sector_size in
    let row = λ (y : ℕ) (here : List SectorPos).
      if length here == 3 then here ++ record { x = x; y = y } ∷ [] else here in
    if ltb offset_y range_y && slt32 0 cur.y
    then row (sub32 cur.y 1) (found ++ record { x = cur.x; y = sub32 cur.y 1 } ∷ [])
    else if ltb (sector_size - range_y) offset_y && ltb cur.y (sector_max_y - 1)
    then row (add32 cur.y 1) (found ++ record { x = cur.x; y = add32 cur.y 1 } ∷ [])
    else found

-- The character's sector, and the one beside it in column `x` if the test holds.
abbrev pub sectors_ahead : Character → ℕ → Bool → List SectorPos
sectors_ahead c x test =
    if test then c.cur_sector ∷ record { x = x; y = c.cur_sector.y } ∷ [] else c.cur_sector ∷ []

-- The tests for the sector to the right and to the left.
abbrev pub reaches_right : Character → ℕ → Bool
reaches_right c range_x =
    ltb c.cur_sector.x (sector_max_x - 1)
    && add32 c.cur_sector.x 1 == add32 c.x range_x / sector_size

abbrev pub reaches_left : Character → ℕ → Bool
reaches_left c range_x =
    slt32 0 c.cur_sector.x && sub32 c.cur_sector.x 1 == sub32 c.x range_x / sector_size

-- The sectors that the attack may reach, in the order of the search.
pub damage_sectors : Character → ℕ → ℕ → List SectorPos
damage_sectors c range_x range_y =
    let right = add32 c.cur_sector.x 1 in
    let left = sub32 c.cur_sector.x 1 in
    if c.dir == dir_rr
    then damage_rows c right range_y (sectors_ahead c right (reaches_right c range_x))
    else damage_rows c left range_y (sectors_ahead c left (reaches_left c range_x))

-- The tests of the search that pass over a character, all failing.
pub is_hit : Character → Character → ℕ → ℕ → Bool
is_hit c other range_x range_y =
    if slt32 (add32 other.y range_y) c.y
    then false
    else if slt32 c.y (sub32 other.y range_y)
    then false
    else if c.dir == dir_ll
    then not (slt32 c.x other.x || slt32 (add32 other.x range_x) c.x)
    else if c.dir == dir_rr
    then not (slt32 other.x c.x || slt32 (add32 c.x range_x) other.x)
    else true

-- The inner loop, up to its `goto`.
pub find_hit : World → Character → ℕ → ℕ → List ℕ → Outcome (Option Character)
find_hit w c range_x range_y [] = returned none
find_hit w c range_x range_y (id ∷ ids) =
    let rest = find_hit w c range_x range_y ids in
    if id == c.session_id
    then rest
    else (deref (find_character id w.characters) >>= λ other.
        if is_hit c other range_x range_y then returned (some other) else rest)

-- The outer loop.
pub find_target : World → Character → ℕ → ℕ → List SectorPos → Outcome (Option Character)
find_target w c range_x range_y [] = returned none
find_target w c range_x range_y (p ∷ ps) =
    let rest = find_target w c range_x range_y ps in
    sector_at w p >>= λ ids. find_hit w c range_x range_y ids >>= λ hit. elim hit [
      | none ↦ rest
      | some other ↦ returned (some other)
    ]

-- hp is a char: it wraps.
pub hurt : Character → ℕ → Character
hurt c damage = record c { hp = (c.hp + 256 - damage) % 256 }

pub damage_target : World → ℕ → ℕ → Option Character → Outcome World
damage_target w id damage none = returned w
damage_target w id damage (some other) =
    let other' = hurt other damage in
    send_round (record w { characters = set_character other' w.characters }) other'
      (Packet.damage id other'.session_id other'.hp)

-- `packet` is the MakePacket function of the attack.
pub proc_packet_attack :
    World → ℕ → ProtocolBuffer → ℕ → ℕ → ℕ → (ℕ → ℕ → ℕ → ℕ → Packet) → Outcome World
proc_packet_attack w id payload range_x range_y damage packet = do
  (dir, x, y) ← read_fields payload
  c ← character_of w id
  w ← send_sync w c x y
  let c' = record (moved_to c x y) { dir = dir; action = stop }
  (c'', w) ← sync_sector (record w { characters = set_character c' w.characters }) c'
  w ← send_round w c'' (packet id c''.dir (short c''.x) (short c''.y))
  target ← find_target w c'' range_x range_y (damage_sectors c'' range_x range_y)
  damage_target w id damage target

pub proc_packet_attack1 : World → ℕ → ProtocolBuffer → Outcome World
unfolding proc_packet_attack
proc_packet_attack1 w id payload = proc_packet_attack w id payload 80 10 1 Packet.attack1

pub proc_packet_attack2 : World → ℕ → ProtocolBuffer → Outcome World
unfolding proc_packet_attack
proc_packet_attack2 w id payload = proc_packet_attack w id payload 90 10 2 Packet.attack2

pub proc_packet_attack3 : World → ℕ → ProtocolBuffer → Outcome World
unfolding proc_packet_attack
proc_packet_attack3 w id payload = proc_packet_attack w id payload 100 20 3 Packet.attack3
