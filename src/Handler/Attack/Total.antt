-- ===== src/Handler/Attack/Total.antt =====
-- The attack handlers of Server.cpp in CppProject/22.10.10 - MMO TCPFighter Server, from the packet to
-- the damage.
use simple_poject.Common.{
  ℕ, ◌+◌, ◌-◌, ◌%◌, ◌<◌, ◌≡◌, refl, ap, ◌∙◌, false, Option, none, some, arith, ◌==◌, if◌then◌else◌,
}
use simple_poject.Common.Outcome.{Outcome, returned}
use simple_poject.ProtocolBuffer.{ProtocolBuffer}
use simple_poject.MakePacket.Layout.{Packet}
use simple_poject.Character.{Character, stop}
use simple_poject.World.{World, find_character}
use simple_poject.World.Consistent.{IsConsistent, IsConsistent-Sent, IsConsistent-Replaced}
use simple_poject.World.Sessions.{Lasting, Lasting-same, Lasting-trans}
use simple_poject.World.Resector.{Stepped, written, stayed-Replaced}
use simple_poject.Handler.{short}
use simple_poject.Handler.Move.{is_far, read_fields, moved_to}
use simple_poject.Handler.Move.Kept.{
  send_round-Sends, send_sync-Sends, sync_sector-Synced, settled, Finished,
}
use simple_poject.Handler.Move.Total.{stepped, InMap-moved_to, character_of-returned}
use simple_poject.Handler.Attack.{damage_sectors, hurt, damage_target, proc_packet_attack}
use simple_poject.Handler.Attack.Kept.{
  Hit, nobody, somebody, find_target-Search, damage_sectors-inside,
}

-- The damage has been done: whoever was hit has lost that many hp, in 8 bits, nobody else has changed.
pub record Damaged (w : World) (damage : ℕ) (target : Option Character) (o : Outcome World)
    : Type 0 where
  pub world : World
  pub runs : o ≡ returned world
  pub consistent : IsConsistent world
  pub lasting : Lasting w world
  pub find :
      (id : ℕ)
      → find_character id world.characters ≡ elim target [
        | none ↦ find_character id w.characters
        | some other ↦
            if other.session_id == id
            then some (record other { hp = (other.hp + 256 - damage) % 256 })
            else find_character id w.characters
      ]

damage_target-Damaged :
    {w : World} {c : Character} {range_x range_y : ℕ} (id damage : ℕ) (target : Option Character)
    → IsConsistent w
    → Hit w c range_x range_y target
    → Damaged w damage target (damage_target w id damage target)
unfolding damage_target hurt
damage_target-Damaged {w} id damage none k nobody = record {
  world = w;
  runs = refl;
  consistent = k;
  lasting = Lasting-same refl refl;
  find = λ i. refl;
}
damage_target-Damaged {w} id damage (some other) k (somebody there away struck) =
    let p = k.placed other.session_id other there in
    let hurt' = hurt other damage in
    let s : Stepped w hurt' = record { before = other; found = there; same_sector = refl } in
    let r =
      stayed-Replaced k s (record { x_in = p.map.x_in; y_in = p.map.y_in })
        (let q = p.sector in ground arith) in
    let (v, e, t) =
      send_round-Sends (written w hurt') hurt' (Packet.damage id hurt'.session_id hurt'.hp)
        (IsConsistent-Replaced r k) in
    record {
      world = v;
      runs = e;
      consistent = IsConsistent-Sent _ v t (IsConsistent-Replaced r k);
      lasting = Lasting-trans (Lasting-same r.sessions r.queue) t.lasting;
      find = λ i. ap (find_character i) t.characters ∙ r.find i;
    }

-- On a consistent world an attack packet returns, under the conditions of a move: its three fields are
-- there, so is its character, and the client's position lies in the map unless it is far off. The
-- attacker first stops at the position that a MOVE_STOP would leave it at. Then the search finds
-- nobody, or a character other than the attacker that is hit; the damage is taken from its hp, modulo
-- 256, nobody else changes, and the world is consistent.
pub proc_packet_attack-Damaged :
    {w : World} (id : ℕ) (payload : ProtocolBuffer) (range_x range_y damage : ℕ)
    (packet : ℕ → ℕ → ℕ → ℕ → Packet) {dir x y : ℕ} {c : Character}
    → IsConsistent w
    → read_fields payload ≡ returned (dir, x, y)
    → find_character id w.characters ≡ some c
    → (is_far c x y ≡ false → (x < 6400) × (y < 6400))
    → (mid : World) × (after : Character) × (target : Option Character) × Finished w
        (record (moved_to c x y) { dir = dir; action = stop })
        after
        (returned mid)
      × Hit mid after range_x range_y target
      × Damaged mid damage target (proc_packet_attack w id payload range_x range_y damage packet)
unfolding proc_packet_attack
proc_packet_attack-Damaged {w} id payload rx ry damage packet {dir} {x} {y} {c} k read there
      inside =
    let (v, e, s) = send_sync-Sends w c x y k in
    let m = InMap-moved_to c x y (k.placed id c there).map inside in
    let step : Stepped v (record (moved_to c x y) { dir = dir; action = stop }) =
      stepped id x y k s there refl refl in
    let synced =
      sync_sector-Synced (IsConsistent-Sent w v s k) step
        (record { x_in = m.x_in; y_in = m.y_in }) in
    let d = synced.after in
    let (u, f, t) =
      send_round-Sends synced.world d (packet id d.dir (short d.x) (short d.y)) synced.consistent in
    let kept = IsConsistent-Sent _ u t synced.consistent in
    let (target, g, hit) =
      find_target-Search u d rx ry (damage_sectors d rx ry) kept
        (damage_sectors-inside rx ry (synced.consistent.placed _ d synced.found)) in
    let hurt_it = damage_target-Damaged id damage target kept hit in
    (
      u,
      d,
      target,
      settled s synced t,
      hit,
      rw (read, character_of-returned w id there, e, synced.runs, f, g) hurt_it,
    )
