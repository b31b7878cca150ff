-- ===== src/Handler/Move/Total.antt =====
-- Proc_Packet_MOVE_START and Proc_Packet_MOVE_STOP of Server.cpp in
-- CppProject/22.10.10 - MMO TCPFighter Server on a consistent world.
use simple_poject.Common.{
  ℕ, ◌<◌, ◌≤◌, ◌≡◌, refl, ◌∙◌, ◌⊎◌, inl, inr, false, some, Bool-cases, arith,
}
use simple_poject.Common.Outcome.{returned, undefined}
use simple_poject.ProtocolBuffer.{ProtocolBuffer}
use simple_poject.MakePacket.Layout.{Packet}
use simple_poject.Character.{Character, stop}
use simple_poject.Character.Movement.{InMap}
use simple_poject.World.{World, find_character}
use simple_poject.World.Lookup.{find_character-id}
use simple_poject.World.Frame.{Sent, Sent-refl}
use simple_poject.World.Consistent.{IsConsistent}
use simple_poject.World.Resector.{resector-undefined, Stepped, written}
use simple_poject.Handler.{sync_sector, short}
use simple_poject.Handler.Move.Kept.{Finished, finish, send_sync-Sends}
use simple_poject.Handler.Move.{
  is_far, read_fields, moved_to, send_sync, dir_of, proc_packet_move_start, proc_packet_move_stop,
  character_of,
}

-- A client's position that is far off is not taken over.
pub InMap-moved_to :
    (c : Character) (x y : ℕ)
    → InMap c
    → (is_far c x y ≡ false → (x < 6400) × (y < 6400))
    → InMap (moved_to c x y)
unfolding moved_to
InMap-moved_to c x y m h = elim (Bool-cases (is_far c x y)) [
  | inl far ↦ rw far m
  | inr near ↦ let (hx, hy) = h near in rw near (record { x_in = hx; y_in = hy })
]

pub character_of-returned :
    (w : World) (id : ℕ) {c : Character}
    → find_character id w.characters ≡ some c
    → character_of w id ≡ returned c
unfolding character_of
character_of-returned w id e = rw (e, character_of) refl

pub moved_to-same_sector : (c : Character) (x y : ℕ) → (moved_to c x y).cur_sector ≡ c.cur_sector
unfolding moved_to
moved_to-same_sector c x y = elim (Bool-cases (is_far c x y)) [
  | inl h ↦ rw h refl
  | inr h ↦ rw h refl
]

pub moved_to-same_id : (c : Character) (x y : ℕ) → (moved_to c x y).session_id ≡ c.session_id
unfolding moved_to
moved_to-same_id c x y = elim (Bool-cases (is_far c x y)) [ inl h ↦ rw h refl | inr h ↦ rw h refl ]

-- The same character may be written in the world after the sync message.
pub stepped :
    {w v : World} {c d : Character} (id x y : ℕ)
    → IsConsistent w
    → Sent w v
    → find_character id w.characters ≡ some c
    → d.session_id ≡ (moved_to c x y).session_id
    → d.cur_sector ≡ (moved_to c x y).cur_sector
    → Stepped v d
stepped {w} {v} {c} {d} id x y k s there same_id same_sector =
    let own : d.session_id ≡ id =
      same_id ∙ moved_to-same_id c x y ∙ find_character-id id w.characters there in
    record {
      before = c;
      found = rw (s.characters, own) there;
      same_sector = same_sector ∙ moved_to-same_sector c x y;
    }

-- The actions go round the compass: 3, 4 and 5 lead right, which is the direction 4, and 7, 0 and 1 lead
-- left, which is 0; up, down and what is no move leave the direction as it was.
pub record Heading (action before dir : ℕ) : Type 0 where
  pub right : 3 ≤ action → action ≤ 5 → dir ≡ 4
  pub left : (action ≤ 1) ⊎ (action ≡ 7) → dir ≡ 0
  pub other : (action ≡ 2) ⊎ (action ≡ 6) ⊎ (7 < action) → dir ≡ before

dir_of-Heading : (action before : ℕ) → Heading action before (dir_of action before)
unfolding dir_of
dir_of-Heading action before = record {
  right = λ l h. ground arith;
  left = λ h. ground arith;
  other = λ h. ground arith;
}

pub proc_packet_move_start-Finished :
    {w : World} (id : ℕ) (payload : ProtocolBuffer) {action x y : ℕ} {c : Character}
    → IsConsistent w
    → read_fields payload ≡ returned (action, x, y)
    → find_character id w.characters ≡ some c
    → (is_far c x y ≡ false → (x < 6400) × (y < 6400))
    → (dir : ℕ) × Heading action c.dir dir
      × (after : Character) × Finished w
          (record (moved_to c x y) { action = action; dir = dir })
          after
          (proc_packet_move_start w id payload)
unfolding proc_packet_move_start
proc_packet_move_start-Finished {w} id payload {action} {x} {y} {c} k read there inside =
    let (v, e, s) = send_sync-Sends w c x y k in
    let m = InMap-moved_to c x y (k.placed id c there).map inside in
    let dir = dir_of action c.dir in
    let t : Stepped v (record (moved_to c x y) { action = action; dir = dir }) =
      stepped id x y k s there refl refl in
    let (after, f) =
      finish (λ d. Packet.move_start id action (short d.x) (short d.y)) s k t
        (record { x_in = m.x_in; y_in = m.y_in }) in
    (dir, dir_of-Heading action c.dir, after, rw (read, character_of-returned w id there, e) f)

-- On a consistent world a MOVE_STOP packet returns, if it holds its three fields, its character is
-- there, and the client's position lies in the map unless it is far off. The world is consistent
-- afterwards, the character has the client's position, or its own if that is far off, has stopped
-- and looks in the direction of the packet, and nobody else has changed.
pub proc_packet_move_stop-Finished :
    {w : World} (id : ℕ) (payload : ProtocolBuffer) {dir x y : ℕ} {c : Character}
    → IsConsistent w
    → read_fields payload ≡ returned (dir, x, y)
    → find_character id w.characters ≡ some c
    → (is_far c x y ≡ false → (x < 6400) × (y < 6400))
    → (after : Character) × Finished w
        (record (moved_to c x y) { dir = dir; action = stop })
        after
        (proc_packet_move_stop w id payload)
unfolding proc_packet_move_stop
proc_packet_move_stop-Finished {w} id payload {x = x} {y = y} {c = c} k read there inside =
    let (v, e, s) = send_sync-Sends w c x y k in
    let m = InMap-moved_to c x y (k.placed id c there).map inside in
    rw (read, character_of-returned w id there, e)
      (finish (λ d. Packet.move_stop id d.dir (short d.x) (short d.y)) s k
        (stepped id x y k s there refl refl) (record { x_in = m.x_in; y_in = m.y_in }))

-- A near position is taken over without a sync message.
pub stays-near :
    (w : World) (c : Character) (x y : ℕ)
    → is_far c x y ≡ false
    → (send_sync w c x y ≡ returned w) × (moved_to c x y ≡ record c { x = x; y = y })
unfolding send_sync moved_to
stays-near w c x y near = (rw near refl, rw near refl)

pub sync_sector-undefined :
    {w : World} {c : Character}
    → IsConsistent w
    → Stepped w c
    → (6400 ≤ c.x) ⊎ (6400 ≤ c.y)
    → sync_sector (written w c) c ≡ undefined
unfolding sync_sector
sync_sector-undefined k s out = rw (resector-undefined k s out) refl

-- On a consistent world a MOVE_START packet that holds its three fields, whose character is there,
-- and whose position is not far from the character's but lies outside the map, makes the handler
-- reach outside the array of sectors.
pub proc_packet_move_start-undefined :
    {w : World} (id : ℕ) (payload : ProtocolBuffer) {action x y : ℕ} {c : Character}
    → IsConsistent w
    → read_fields payload ≡ returned (action, x, y)
    → find_character id w.characters ≡ some c
    → is_far c x y ≡ false
    → (6400 ≤ x) ⊎ (6400 ≤ y)
    → proc_packet_move_start w id payload ≡ undefined
unfolding proc_packet_move_start
proc_packet_move_start-undefined {w} id payload {action} {x} {y} {c} k read there near out =
    let (e, at) = stays-near w c x y near in
    let d = record c { x = x; y = y; action = action; dir = dir_of action c.dir } in
    let s : Stepped w d = stepped id x y k (Sent-refl w) there (rw at refl) (rw at refl) in
    rw (read, character_of-returned w id there, e, at, sync_sector-undefined k s out) refl

-- So does a MOVE_STOP packet.
pub proc_packet_move_stop-undefined :
    {w : World} (id : ℕ) (payload : ProtocolBuffer) {dir x y : ℕ} {c : Character}
    → IsConsistent w
    → read_fields payload ≡ returned (dir, x, y)
    → find_character id w.characters ≡ some c
    → is_far c x y ≡ false
    → (6400 ≤ x) ⊎ (6400 ≤ y)
    → proc_packet_move_stop w id payload ≡ undefined
unfolding proc_packet_move_stop
proc_packet_move_stop-undefined {w} id payload {dir} {x} {y} {c} k read there near out =
    let (e, at) = stays-near w c x y near in
    let s : Stepped w (record c { x = x; y = y; dir = dir; action = stop }) =
      stepped id x y k (Sent-refl w) there (rw at refl) (rw at refl) in
    rw (read, character_of-returned w id there, e, at, sync_sector-undefined k s out) refl
