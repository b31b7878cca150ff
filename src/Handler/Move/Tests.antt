-- ===== src/Handler/Move/Tests.antt =====
-- Packets of a client that walks over a sector line, stops, leaves the map or sends too little.
use simple_poject.Common.{◌≡◌, refl, inr, [], ◌++◌, false, arith, length, ◌==◌, if◌then◌else◌}
use simple_poject.Common.Memory.{load}
use simple_poject.Common.Word.{to_bytes, extend16}
use simple_poject.Common.Outcome.{returned, thrown, undefined}
use simple_poject.ProtocolBuffer.{ProtocolBuffer}
use simple_poject.ProtocolBuffer.Put.{IsValid, contents}
use simple_poject.ProtocolBuffer.Get.{length-contents}
use simple_poject.Character.{Character, stop}
use simple_poject.World.Tests.{attacker, pair, pair-IsConsistent, pair-attacker}
use simple_poject.Handler.Move.{
  is_far, read_fields, moved_to, proc_packet_move_start, proc_packet_move_stop,
}
use simple_poject.Handler.Move.Fields.{read_fields_lem, proc_packet_move-thrown}
use simple_poject.Handler.Move.Kept.{Finished}
use simple_poject.Handler.Move.Total.{
  proc_packet_move_stop-Finished, proc_packet_move_start-undefined,
}

-- The bytes of action 4 and the position (204, 50).
abbrev pub walk_right : ProtocolBuffer
walk_right = record {
  mem = λ q. if q == 0 then 4 else if q == 1 then 204 else if q == 3 then 50 else 0;
  begin = 0;
  end = 4000;
  buf_size = 4000;
  write_pos = 5;
  read_pos = 0;
}

-- Action 2 and the position (190, -1), above the map.
abbrev walk_out : ProtocolBuffer
walk_out = record walk_right {
  mem = λ q.
      if q == 0
      then 2
      else if q == 1
      then 190
      else if q == 3
      then 255
      else if q == 4
      then 255
      else 0;
}

abbrev cut_off : ProtocolBuffer
cut_off = record walk_right { write_pos = 3 }

walk_right-IsValid : IsValid walk_right
walk_right-IsValid = omega arith

walk_right-bytes : contents walk_right ≡ to_bytes 1 4 ++ (to_bytes 2 204 ++ (to_bytes 2 50 ++ []))
unfolding contents load to_bytes
walk_right-bytes = refl

read_fields_lem_example : read_fields walk_right ≡ returned (4, extend16 204, extend16 50)
read_fields_lem_example =
    read_fields_lem 4 204 50 [] walk_right-IsValid walk_right-bytes (omega arith) (omega arith)
      (omega arith)

walk_out-IsValid : IsValid walk_out
walk_out-IsValid = omega arith

walk_out-bytes : contents walk_out ≡ to_bytes 1 2 ++ (to_bytes 2 190 ++ (to_bytes 2 65535 ++ []))
unfolding contents load to_bytes
walk_out-bytes = refl

walk_out-fields : read_fields walk_out ≡ returned (2, extend16 190, extend16 65535)
walk_out-fields =
    read_fields_lem 2 190 65535 [] walk_out-IsValid walk_out-bytes (omega arith) (omega arith)
      (omega arith)

cut_off-IsValid : IsValid cut_off
cut_off-IsValid = omega arith

three_left : length (contents cut_off) ≡ 3
unfolding contents load
three_left = refl

proc_packet_move-thrown_example :
    (proc_packet_move_start pair 1 cut_off ≡ thrown)
    × (proc_packet_move_stop pair 1 cut_off ≡ thrown)
proc_packet_move-thrown_example =
    proc_packet_move-thrown pair 1 cut_off-IsValid
      (omega (arith, length-contents cut_off, three_left))

proc_packet_move_stop-Finished_example :
    (after : Character) × Finished pair
      (record (moved_to attacker 204 50) { dir = 4; action = stop })
      after
      (proc_packet_move_stop pair 1 walk_right)
proc_packet_move_stop-Finished_example =
    proc_packet_move_stop-Finished 1 walk_right pair-IsConsistent read_fields_lem_example
      pair-attacker (λ near. (omega arith, omega arith))

walk_out-near : is_far attacker 190 (extend16 65535) ≡ false
unfolding is_far
walk_out-near = refl

proc_packet_move_start-undefined_example : proc_packet_move_start pair 1 walk_out ≡ undefined
proc_packet_move_start-undefined_example =
    proc_packet_move_start-undefined 1 walk_out pair-IsConsistent walk_out-fields pair-attacker
      walk_out-near (inr (omega arith))
