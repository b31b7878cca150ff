-- ===== src/Character/Tests.antt =====
-- A character in the lower right corner of the map, going down and right.
use simple_poject.Common.{arith}
use simple_poject.Character.{Character, update_position}
use simple_poject.Character.Movement.{Moved, update_position-Moved}

abbrev cornered : Character
cornered = record {
  session_id = 3;
  action = 5;
  dir = 4;
  x = 6390;
  y = 6397;
  cur_sector = record { x = 31; y = 31 };
  old_sector = record { x = 31; y = 31 };
  hp = 50;
}

update_position-Moved_example : Moved cornered (update_position cornered)
update_position-Moved_example =
    update_position-Moved (record { x_in = omega arith; y_in = omega arith })
