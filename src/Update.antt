-- ===== src/Update.antt =====
-- The logic frame: Update of Server.cpp in CppProject/22.10.10 - MMO TCPFighter Server. The moves of
-- its switch are Character.update_position.
pub mod Kept
pub mod Ended
pub mod Tests
use simple_poject.Common.{
  ℕ, List, [], ◌∷◌, Bool, true, false, ◌||◌, Option, none, some, leb, ltb, ◌==◌, if◌then◌else◌, map,
}
use simple_poject.Common.Word.{add32, sub32, slt32}
use simple_poject.Common.Outcome.{Outcome, returned, ◌>>=◌}
use simple_poject.Character.{Character, update_position}
use simple_poject.World.{
  World, Session, find_character, find_session, set_character, deref, input_disconnect_queue,
}
use simple_poject.Handler.{sync_sector}

-- dfNETWORK_PACKET_RECV_TIMEOUT
abbrev pub recv_timeout : ℕ
recv_timeout = 30000

abbrev pub frame_ms : ℕ
frame_ms = 40

-- hp <= 0 of a char
abbrev pub is_dead : Character → Bool
is_dead c = c.hp == 0 || leb 128 c.hp

-- A DWORD difference
abbrev pub is_late : ℕ → Session → Bool
is_late now s = ltb recv_timeout (sub32 now s.last_recv_time)

-- The body of the loop.
pub update_character : World → ℕ → ℕ → Outcome World
update_character w now id = deref (find_character id w.characters) >>= λ c.
    deref (find_session c.session_id w.sessions) >>= λ s.
    if is_dead c || is_late now s
    then returned (input_disconnect_queue w s)
    else let (c', is_move) = update_position c in
      let w' = record w { characters = set_character c' w.characters } in
      if is_move then (sync_sector w' c' >>= λ (_, v). returned v) else returned w'

-- The loop over character_map, to which the body adds nothing.
pub update_each : World → ℕ → List ℕ → Outcome World
update_each w now [] = returned w
update_each w now (id ∷ ids) = update_character w now id >>= λ v. update_each v now ids

-- logic_timer and logic_cur_time, and the world.
pub update : World → ℕ → ℕ → ℕ → Outcome (ℕ × World)
update w logic_timer delta_time logic_cur_time =
    let timer = add32 logic_timer delta_time in
    if slt32 timer frame_ms
    then returned (timer, w)
    else (update_each w logic_cur_time (map (λ c. c.session_id) w.characters) >>= λ v.
        returned (sub32 timer frame_ms, v))
