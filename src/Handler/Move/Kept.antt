-- ===== src/Handler/Move/Kept.antt =====
-- The steps that Proc_Packet_MOVE_START and Proc_Packet_MOVE_STOP of Server.cpp in
-- CppProject/22.10.10 - MMO TCPFighter Server share, on a consistent world.
use simple_poject.Common.{
  ℕ, ◌≡◌, refl, ap, ◌∙◌, ◌⊎◌, inl, inr, [], ◌∷◌, Bool, true, false, none, some, arith, ◌==◌,
  if◌then◌else◌, Bool-cases,
}
use simple_poject.Common.Outcome.{Outcome, returned, ◌>>=◌}
use simple_poject.MakePacket.Layout.{Packet}
use simple_poject.Character.{Character}
use simple_poject.Character.Movement.{InMap}
use simple_poject.World.{World, find_character}
use simple_poject.World.Sessions.{Lasting, Lasting-same, Lasting-trans}
use simple_poject.World.Frame.{Sent, Sent-refl, Sends, around-Sends}
use simple_poject.World.Consistent.{
  IsConsistent, IsConsistent-Sent, IsConsistent-Replaced, around-Reachable, Replaced,
}
use simple_poject.World.Resector.{Stepped, written, rehome, resector}
use simple_poject.Handler.{sync_sector, character_sector_update}
use simple_poject.Handler.Sends.{character_sector_update-Sends, packet-Sends}
use simple_poject.Handler.Move.{is_far, send_round, send_sync}

pub send_round-Sends :
    (w : World) (c : Character) (k : Packet) → IsConsistent w → Sends w (send_round w c k)
unfolding send_round
send_round-Sends w c k i =
    packet-Sends (k ∷ []) _ i.pool (ground arith)
      (λ packet. around-Sends w _ packet none (around-Reachable w _ _ i))

pub send_sync-Sends :
    (w : World) (c : Character) (x y : ℕ) → IsConsistent w → Sends w (send_sync w c x y)
unfolding send_sync
send_sync-Sends w c x y i = elim (Bool-cases (is_far c x y)) [
  | inl far ↦ rw far (send_round-Sends w c _ i)
  | inr near ↦ rw near (w, refl, Sent-refl w)
]

-- What sync_sector leaves.
pub record Synced (w : World) (c : Character) (o : Outcome (Character × World)) : Type 0 where
  pub after : Character
  pub world : World
  pub runs : o ≡ returned (after, world)
  pub after_is : (after ≡ c) ⊎ (after ≡ rehome c)
  pub consistent : IsConsistent world
  pub lasting : Lasting w world
  pub found : find_character c.session_id world.characters ≡ some after
  pub others :
      (id : ℕ)
      → (c.session_id == id) ≡ false
      → find_character id world.characters ≡ find_character id w.characters

-- CharacterSectorUpdate, if Update_SectorPos has reported a change.
after_sector : Bool → Character → World → Outcome (Character × World)
after_sector changed c w =
    if changed then (character_sector_update w c >>= λ w'. returned (c, w')) else returned (c, w)

found-after :
    {w w' : World} {d : Character} (c : Character)
    → Replaced w w' d
    → d.session_id ≡ c.session_id
    → find_character c.session_id w'.characters ≡ some d
found-after c r same = r.find c.session_id ∙ rw same (ground arith)

others-after :
    {w w' : World} {d : Character} (c : Character)
    → Replaced w w' d
    → d.session_id ≡ c.session_id
    → (id : ℕ) → (c.session_id == id) ≡ false
    → find_character id w'.characters ≡ find_character id w.characters
others-after c r same id n = r.find id ∙ rw (same, n) refl

after_sector-Synced :
    {w : World} {c : Character} (changed : Bool) (after : Character) (world : World)
    → IsConsistent w
    → after ≡ (if changed then rehome c else c)
    → Replaced w world after
    → Synced w c (after_sector changed after world)
unfolding after_sector
after_sector-Synced {w} {c} true after world k is_after r =
    let same : after.session_id ≡ c.session_id = rw is_after refl in
    let k' = IsConsistent-Replaced r k in
    let (v, e, s) = character_sector_update-Sends world after k' (rw r.sessions r.served) in
    record {
      after = after;
      world = v;
      runs = rw e refl;
      after_is = inr is_after;
      consistent = IsConsistent-Sent world v s k';
      lasting = Lasting-trans (Lasting-same r.sessions r.queue) s.lasting;
      found = rw s.characters (found-after c r same);
      others = λ id n. rw s.characters (others-after c r same id n);
    }
after_sector-Synced {w} {c} false after world k is_after r = record {
  after = after;
  world = world;
  runs = refl;
  after_is = inl is_after;
  consistent = IsConsistent-Replaced r k;
  lasting = Lasting-same r.sessions r.queue;
  found = found-after c r (rw is_after refl);
  others = others-after c r (rw is_after refl);
}

pub sync_sector-Synced :
    {w : World} {c : Character}
    → IsConsistent w
    → Stepped w c
    → InMap c
    → Synced w c (sync_sector (written w c) c)
unfolding sync_sector after_sector
sync_sector-Synced {w} {c} k s m =
    let r = resector k s m in
    rw r.runs (after_sector-Synced r.changed r.after r.world k r.after_is r.replaced)

-- The end of both handlers: the character `c` is written, its sector follows, and the packet goes round.
-- The character is found again, with the action, direction and position of `c`.
pub record Finished (w : World) (c after : Character) (o : Outcome World) : Type 0 where
  pub world : World
  pub runs : o ≡ returned world
  pub consistent : IsConsistent world
  pub lasting : Lasting w world
  pub found : find_character c.session_id world.characters ≡ some after
  pub same_action : after.action ≡ c.action
  pub same_dir : after.dir ≡ c.dir
  pub same_x : after.x ≡ c.x
  pub same_y : after.y ≡ c.y
  pub others :
      (id : ℕ)
      → (c.session_id == id) ≡ false
      → find_character id world.characters ≡ find_character id w.characters

-- The packet has gone round after the sector has followed.
pub settled :
    {w v u : World} {c : Character} {o : Outcome (Character × World)}
    → Sent w v
    → (y : Synced v c o) → Sent y.world u
    → Finished w c y.after (returned u)
settled {w} {v} {u} sent y t = record {
  world = u;
  runs = refl;
  consistent = IsConsistent-Sent y.world u t y.consistent;
  lasting = Lasting-trans sent.lasting (Lasting-trans y.lasting t.lasting);
  found = rw t.characters y.found;
  same_action = ground (arith, y.after_is);
  same_dir = ground (arith, y.after_is);
  same_x = ground (arith, y.after_is);
  same_y = ground (arith, y.after_is);
  others = λ id n.
      ap (find_character id) t.characters ∙ y.others id n ∙ ap (find_character id) sent.characters;
}

pub finish :
    {w v : World} {c : Character} (k : Character → Packet)
    → Sent w v
    → IsConsistent w
    → Stepped v c
    → InMap c
    → (after : Character) × Finished w c after
        (sync_sector (written v c) c >>= λ (d, u). send_round u d (k d))
finish {w} {v} {c} k sent i s m =
    let y = sync_sector-Synced (IsConsistent-Sent w v sent i) s m in
    let (u, e, t) = send_round-Sends y.world y.after (k y.after) y.consistent in
    (y.after, rw (y.runs, e) (settled sent y t))
