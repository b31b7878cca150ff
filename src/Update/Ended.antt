-- ===== src/Update/Ended.antt =====
-- A frame of Server.cpp in CppProject/22.10.10 - MMO TCPFighter Server finds those whose time is over.
use simple_poject.Common.{
  ℕ, ◌≡◌, refl, sym, ap, ◌∙◌, inl, inr, List, [], ◌∷◌, true, false, ◌||◌, some, arith, ◌==◌,
  Bool-cases, map,
}
use simple_poject.Common.Outcome.{returned, returned_injective}
use simple_poject.Character.{Character}
use simple_poject.World.{World, Session, find_character, find_session, has, input_disconnect_queue}
use simple_poject.World.Lookup.{find_character-id, has-head, ids-found, found-ids}
use simple_poject.World.Distinct.{find_session-id}
use simple_poject.World.Sessions.{IsSound, Lasting-has}
use simple_poject.World.Queued.{input_disconnect_queue-has}
use simple_poject.World.Consistent.{IsConsistent}
use simple_poject.Common.Word.{add32, sub32, slt32}
use simple_poject.Update.{is_dead, is_late, update_character, update_each, update, frame_ms}
use simple_poject.Update.Kept.{
  Ticked, update_character-Ticked, AllFound, AllFound-Framed, update_each-Framed,
}

-- A character that is dead, or whose session has been silent for too long.
pub record Over (w : World) (now id : ℕ) : Type 0 where
  pub character : Character
  pub session : Session
  pub found : find_character id w.characters ≡ some character
  pub found_session : find_session id w.sessions ≡ some session
  pub over : (is_dead character || is_late now session) ≡ true

update_character-Over :
    (w : World) (now id : ℕ)
    → IsSound w
    → Over w now id
    → (w' : World) × (update_character w now id ≡ returned w') × (has id w'.disconnect_queue ≡ true)
unfolding update_character
update_character-Over w now id k o =
    let c = o.character in
    let s = o.session in
    let own = find_character-id id w.characters o.found in
    let session : find_session c.session_id w.sessions ≡ some s =
      ap (λ i. find_session i w.sessions) own ∙ o.found_session in
    let same = find_session-id id w.sessions o.found_session in
    let itself : find_session s.session_id w.sessions ≡ some s =
      ap (λ i. find_session i w.sessions) same ∙ o.found_session in
    (
      input_disconnect_queue w s,
      rw (o.found, session, o.over) refl,
      ap (λ i. has i (input_disconnect_queue w s).disconnect_queue) (sym same)
          ∙ input_disconnect_queue-has w s k itself,
    )

-- Another character's turn does not change that.
Over-Ticked :
    {w : World} (now i id : ℕ)
    → (t : Ticked w i (update_character w now i)) → (i == id) ≡ false
    → Over w now id
    → Over t.framed.world now id
Over-Ticked {w} now i id t other o =
    let (s', f, _, time, _) = t.framed.lasting.kept id o.session o.found_session in
    record {
      character = o.character;
      session = s';
      found = t.others id other ∙ o.found;
      found_session = f;
      over = rw time o.over;
    }

update_each-Over :
    (w : World) (now id : ℕ) (ids : List ℕ)
    → IsConsistent w
    → IsSound w
    → AllFound w ids
    → has id ids ≡ true
    → Over w now id
    → (w' : World) × (update_each w now ids ≡ returned w') × (has id w'.disconnect_queue ≡ true)
unfolding update_each has
update_each-Over w now id [] k s all h o = cc
update_each-Over w now id (i ∷ ids) k s all h o =
    let (c, there) = all i (has-head i ids) in
    let t = update_character-Ticked w now i k there in
    let f = t.framed in
    let rest = AllFound-Framed i ids f all in
    elim (Bool-cases (i == id)) [
      | inl here ↦
          let own : id ≡ i = ground arith in
          let (v, runs, queued) = update_character-Over w now id s o in
          let same : f.world ≡ v =
            returned_injective (sym f.runs ∙ ap (update_character w now) (sym own) ∙ runs) in
          let r = update_each-Framed f.world now ids f.consistent rest in
          (
            r.world,
            rw f.runs r.runs,
            Lasting-has r.lasting id (ap (λ u. has id u.disconnect_queue) same ∙ queued),
          )
      | inr other ↦
          let (v, runs, queued) =
            update_each-Over f.world now id ids f.consistent (f.lasting.sound s) rest (ground arith)
              (Over-Ticked now i id t other o) in
          (v, rw f.runs runs, queued)
    ]

-- A frame over all characters queues the session of one whose time is over.
pub frame-Over :
    (w : World) (now id : ℕ)
    → IsConsistent w
    → IsSound w
    → Over w now id
    → (w' : World) × (update_each w now (map (λ c. c.session_id) w.characters) ≡ returned w')
      × (has id w'.disconnect_queue ≡ true)
frame-Over w now id k s o =
    update_each-Over w now id (map (λ c. c.session_id) w.characters) k s
      (λ i. ids-found i w.characters) (found-ids id w.characters o.found) o

-- So does Update, if it is due.
pub update-Over :
    (w : World) (logic_timer delta_time logic_cur_time id : ℕ)
    → IsConsistent w
    → IsSound w
    → slt32 (add32 logic_timer delta_time) frame_ms ≡ false
    → Over w logic_cur_time id
    → (w' : World) × (update w logic_timer delta_time logic_cur_time
        ≡ returned (sub32 (add32 logic_timer delta_time) frame_ms, w'))
      × (has id w'.disconnect_queue ≡ true)
unfolding update
update-Over w logic_timer delta_time now id k s due o =
    let (v, runs, queued) = frame-Over w now id k s o in (v, rw (due, runs) refl, queued)
