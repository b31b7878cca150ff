-- ===== src/Handler/Attack/Tests.antt =====
-- An attack across a sector line, and one that misses a row.
use simple_poject.Common.{
  ◌≡◌, ◌↔◌, refl, inr, [], ◌++◌, true, false, Option, arith, ◌==◌, if◌then◌else◌,
}
use simple_poject.Common.Memory.{load}
use simple_poject.Common.Word.{to_bytes, extend16}
use simple_poject.Common.Outcome.{returned}
use simple_poject.ProtocolBuffer.{ProtocolBuffer}
use simple_poject.ProtocolBuffer.Put.{IsValid, contents}
use simple_poject.MakePacket.Layout.{Packet}
use simple_poject.Sector.{contains}
use simple_poject.Character.{Character, stop}
use simple_poject.Character.Movement.{Placed}
use simple_poject.World.{World}
use simple_poject.World.Tests.{attacker, victim, pair, pair-IsConsistent, pair-attacker}
use simple_poject.Handler.Move.{read_fields, moved_to}
use simple_poject.Handler.Move.Fields.{read_fields_lem}
use simple_poject.Handler.Move.Kept.{Finished}
use simple_poject.Handler.Attack.{damage_sectors, is_hit, proc_packet_attack}
use simple_poject.Handler.Attack.Reach.{
  Facing, damage_sectors_cover, damage_sectors_miss, is_hit_iff,
}
use simple_poject.Handler.Attack.Kept.{Hit}
use simple_poject.Handler.Attack.Total.{Damaged, proc_packet_attack-Damaged}

-- Direction 4 at (190, 40).
abbrev strike : ProtocolBuffer
strike = record {
  mem = λ q. if q == 0 then 4 else if q == 1 then 190 else if q == 3 then 40 else 0;
  begin = 0;
  end = 4000;
  buf_size = 4000;
  write_pos = 5;
  read_pos = 0;
}

strike-IsValid : IsValid strike
strike-IsValid = omega arith

strike-bytes : contents strike ≡ to_bytes 1 4 ++ (to_bytes 2 190 ++ (to_bytes 2 40 ++ []))
unfolding contents load to_bytes
strike-bytes = refl

strike-fields : read_fields strike ≡ returned (4, extend16 190, extend16 40)
strike-fields =
    read_fields_lem 4 190 40 [] strike-IsValid strike-bytes (omega arith) (omega arith)
      (omega arith)

proc_packet_attack-Damaged_example :
    (mid : World) × (after : Character) × (target : Option Character) × Finished pair
      (record (moved_to attacker 190 40) { dir = 4; action = stop })
      after
      (returned mid)
    × Hit mid after 80 10 target
    × Damaged mid 1 target (proc_packet_attack pair 1 strike 80 10 1 Packet.attack1)
proc_packet_attack-Damaged_example =
    proc_packet_attack-Damaged 1 strike 80 10 1 Packet.attack1 pair-IsConsistent strike-fields
      pair-attacker (λ near. (omega arith, omega arith))

attacker-Placed : Placed attacker
attacker-Placed = record { map = omega arith; sector = omega arith }

victim-Placed : Placed victim
victim-Placed = record { map = omega arith; sector = omega arith }

ahead : Facing attacker victim 80 10
ahead = record {
  above = omega arith;
  below = omega arith;
  ahead = inr (refl, omega arith, omega arith);
}

damage_sectors_cover_example : contains (damage_sectors attacker 80 10) victim.cur_sector ≡ true
damage_sectors_cover_example =
    damage_sectors_cover 80 10 attacker-Placed victim-Placed (omega arith) (omega arith)
      (omega arith) ahead (inr (omega arith))

is_hit_iff_example : (is_hit attacker victim 80 10 ≡ true) ↔ Facing attacker victim 80 10
is_hit_iff_example =
    is_hit_iff 80 10 attacker-Placed.map victim-Placed.map (omega arith) (omega arith) (inr refl)

-- Ten above the line below, and ten lower: on the line.
abbrev above_line : Character
above_line = record attacker { y = 190 }

abbrev on_line : Character
on_line = record victim { x = 195; y = 200; cur_sector = record { x = 0; y = 1 } }

above_line-Placed : Placed above_line
above_line-Placed = record { map = omega arith; sector = omega arith }

on_line-Placed : Placed on_line
on_line-Placed = record { map = omega arith; sector = omega arith }

damage_sectors_miss_example :
    (is_hit above_line on_line 80 10 ≡ true)
    × (contains (damage_sectors above_line 80 10) on_line.cur_sector ≡ false)
damage_sectors_miss_example =
    damage_sectors_miss 80 10 above_line-Placed on_line-Placed (omega arith) (omega arith)
      (omega arith)
      (record {
        above = omega arith;
        below = omega arith;
        ahead = inr (refl, omega arith, omega arith);
      })
      (omega arith) (omega arith)
