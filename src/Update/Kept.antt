-- ===== src/Update/Kept.antt =====
-- A logic frame of Server.cpp in CppProject/22.10.10 - MMO TCPFighter Server on a consistent world.
use simple_poject.Common.{
  ℕ, ◌≡◌, refl, ap, ◌∙◌, inl, inr, List, [], ◌∷◌, Bool, true, false, ◌||◌, some, arith, ◌==◌,
  if◌then◌else◌, Bool-cases, map,
}
use simple_poject.Common.Outcome.{Outcome, returned, ◌>>=◌}
use simple_poject.Sector.{same_pos}
use simple_poject.Character.{Character, update_position}
use simple_poject.Character.Movement.{InMap, Placed, Moved, update_position-Moved}
use simple_poject.World.{World, Session, has, find_character, find_session, input_disconnect_queue}
use simple_poject.World.Lookup.{
  ids-found, has-head, has-tail, find_character-id, find_session-known,
}
use simple_poject.World.Frame.{input_disconnect_queue-Sent}
use simple_poject.World.Consistent.{IsConsistent, IsConsistent-Sent, IsConsistent-Replaced}
use simple_poject.World.Sessions.{Lasting, Lasting-same, Lasting-trans}
use simple_poject.World.Resector.{Stepped, written, home, stayed-Replaced}
use simple_poject.Handler.{sync_sector}
use simple_poject.Handler.Move.Kept.{sync_sector-Synced}
use simple_poject.Common.Word.{add32, sub32, slt32}
use simple_poject.Update.{frame_ms, update_character, update_each, update, is_dead, is_late}

-- The call returns a consistent world with the characters of `w`.
pub record Framed (w : World) (o : Outcome World) : Type 0 where
  pub world : World
  pub runs : o ≡ returned world
  pub consistent : IsConsistent world
  pub lasting : Lasting w world
  pub same_characters :
      (id : ℕ) (c : Character)
      → find_character id w.characters ≡ some c
      → (d : Character) × (find_character id world.characters ≡ some d)

-- Besides, nobody but `id` has changed.
pub record Ticked (w : World) (id : ℕ) (o : Outcome World) : Type 0 where
  pub framed : Framed w o
  pub others :
      (i : ℕ)
      → (id == i) ≡ false
      → find_character i framed.world.characters ≡ find_character i w.characters

-- The move of a character that is alive and in time.
moved-Ticked :
    {w : World} {d : Character} (id : ℕ) (is_move : Bool)
    → d.session_id ≡ id
    → IsConsistent w
    → Stepped w d
    → InMap d
    → (is_move ≡ false → same_pos d.cur_sector (home d) ≡ true)
    → Ticked w id (
        if is_move
        then (sync_sector (written w d) d >>= λ (_, v). returned v)
        else returned (written w d))
moved-Ticked {w} {d} id true own k s m stays =
    let y = sync_sector-Synced k s m in
    record {
      framed = record {
        world = y.world;
        runs = rw y.runs refl;
        consistent = y.consistent;
        lasting = y.lasting;
        same_characters = λ i e h. elim (Bool-cases (d.session_id == i)) [
          | inl same ↦ let j : d.session_id ≡ i = ground arith in (y.after, rw (← j) y.found)
          | inr other ↦ (e, y.others i other ∙ h)
        ];
      };
      others = λ i n. y.others i (ground arith);
    }
moved-Ticked {w} {d} id false own k s m stays =
    let r = stayed-Replaced k s m (stays refl) in
    record {
      framed = record {
        world = written w d;
        runs = refl;
        consistent = IsConsistent-Replaced r k;
        lasting = Lasting-same r.sessions r.queue;
        same_characters = λ i e h. elim (Bool-cases (d.session_id == i)) [
          | inl same ↦ (d, r.find i ∙ rw same refl)
          | inr other ↦ (e, r.find i ∙ rw other h)
        ];
      };
      others = λ i n. r.find i ∙ ground arith;
    }

-- A sector that is right stays right where Update leaves it alone.
stays-home :
    {c : Character}
    → Placed c
    → (m : Moved c (update_position c)) → (update_position c).1 ≡ false
    → same_pos (update_position c).0.cur_sector (home (update_position c).0) ≡ true
stays-home {c} p m still =
    let (at_x, at_y) = m.unmoved still in
    let sector = m.same_sector in rw (sector, at_x, at_y) (ground arith)

queued-Ticked :
    {w : World} (s : Session) (id : ℕ)
    → IsConsistent w
    → find_session s.session_id w.sessions ≡ some s
    → Ticked w id (returned (input_disconnect_queue w s))
queued-Ticked {w} s id k there =
    let sent = input_disconnect_queue-Sent w s there in
    record {
      framed = record {
        world = input_disconnect_queue w s;
        runs = refl;
        consistent = IsConsistent-Sent w _ sent k;
        lasting = sent.lasting;
        same_characters = λ i d e. (d, rw sent.characters e);
      };
      others = λ i n. ap (find_character i) sent.characters;
    }

pub update_character-Ticked :
    (w : World) (now id : ℕ) {c : Character}
    → IsConsistent w
    → find_character id w.characters ≡ some c
    → Ticked w id (update_character w now id)
unfolding update_character
update_character-Ticked w now id {c} k there =
    let p = k.placed id c there in
    let own = find_character-id id w.characters there in
    let (s, session, same) =
      find_session-known c.session_id w.sessions (rw own (k.served id c there)) in
    let m = update_position-Moved p.map in
    let stepped : Stepped w (update_position c).0 = record {
      before = c;
      found = ap (λ i. find_character i w.characters) (m.same_id ∙ own) ∙ there;
      same_sector = m.same_sector;
    } in
    elim (Bool-cases (is_dead c || is_late now s)) [
      | inl out ↦ rw (there, session, out) (queued-Ticked s id k (rw same session))
      | inr live ↦
          rw (there, session, live)
            (moved-Ticked id (update_position c).1 (m.same_id ∙ own) k stepped
              (record { x_in = m.x_in; y_in = m.y_in }) (stays-home p m))
    ]

-- Each id of the list has a character.
abbrev pub AllFound : World → List ℕ → Type 0
AllFound w ids =
    (id : ℕ) → has id ids ≡ true → (c : Character) × (find_character id w.characters ≡ some c)

pub AllFound-Framed :
    {w : World} {o : Outcome World} (i : ℕ) (ids : List ℕ)
    → (f : Framed w o) → AllFound w (i ∷ ids)
    → AllFound f.world ids
AllFound-Framed i ids f all id h =
    let (d, e) = all id (has-tail i id ids h) in f.same_characters id d e

-- The loop.
pub update_each-Framed :
    (w : World) (now : ℕ) (ids : List ℕ)
    → IsConsistent w
    → AllFound w ids
    → Framed w (update_each w now ids)
unfolding update_each
update_each-Framed w now [] k all = record {
  world = w;
  runs = refl;
  consistent = k;
  lasting = Lasting-same refl refl;
  same_characters = λ i d e. (d, e);
}
update_each-Framed w now (id ∷ ids) k all =
    let (c, there) = all id (has-head id ids) in
    let f = (update_character-Ticked w now id k there).framed in
    let r = update_each-Framed f.world now ids f.consistent (AllFound-Framed id ids f all) in
    record {
      world = r.world;
      runs = rw f.runs r.runs;
      consistent = r.consistent;
      lasting = Lasting-trans f.lasting r.lasting;
      same_characters =
          λ i d e. let (d', e') = f.same_characters i d e in r.same_characters i d' e';
    }

-- All characters of the world, in the order of the list.
pub frame-Framed :
    (w : World) (now : ℕ)
    → IsConsistent w
    → Framed w (update_each w now (map (λ c. c.session_id) w.characters))
frame-Framed w now k =
    update_each-Framed w now (map (λ c. c.session_id) w.characters) k
      (λ id. ids-found id w.characters)

-- What Update leaves, and the timer.
pub record Updated (w : World) (timer : ℕ) (o : Outcome (ℕ × World)) : Type 0 where
  pub world : World
  pub runs : o ≡ returned (timer, world)
  pub consistent : IsConsistent world
  pub lasting : Lasting w world
  pub same_characters :
      (id : ℕ) (c : Character)
      → find_character id w.characters ≡ some c
      → (d : Character) × (find_character id world.characters ≡ some d)

pub update-Framed :
    (w : World) (logic_timer delta_time logic_cur_time : ℕ)
    → IsConsistent w
    → (timer : ℕ) × Updated w timer (update w logic_timer delta_time logic_cur_time)
unfolding update
update-Framed w logic_timer delta_time now k =
    elim (Bool-cases (slt32 (add32 logic_timer delta_time) frame_ms)) [
      | inl early ↦ (
        add32 logic_timer delta_time,
        rw early (record {
          world = w;
          runs = refl;
          consistent = k;
          lasting = Lasting-same refl refl;
          same_characters = λ i d e. (d, e);
        }),
      )
      | inr due ↦
          let f = frame-Framed w now k in
          (
            sub32 (add32 logic_timer delta_time) frame_ms,
            rw (due, f.runs)
                (record {
                  world = f.world;
                  runs = refl;
                  consistent = f.consistent;
                  lasting = f.lasting;
                  same_characters = f.same_characters;
                }),
          )
    ]

-- On a consistent world Update returns, whatever the timers say and the characters do, and the world is
-- consistent afterwards.
pub update-IsConsistent :
    (w : World) (logic_timer delta_time logic_cur_time : ℕ)
    → IsConsistent w
    → (timer : ℕ) × (w' : World) × (update w logic_timer delta_time logic_cur_time
        ≡ returned (timer, w'))
      × IsConsistent w'
update-IsConsistent w logic_timer delta_time now k =
    let (timer, f) = update-Framed w logic_timer delta_time now k in
    (timer, f.world, f.runs, f.consistent)
