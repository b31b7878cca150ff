-- ===== src/Server/Ended.antt =====
-- Whoever is dead or silent is gone: Update and then Disconnect_Session of Server.cpp in
-- CppProject/22.10.10 - MMO TCPFighter Server.
use simple_poject.Common.{ℕ, ◌≡◌, refl, sym, ap, ◌∙◌, true, false, none}
use simple_poject.Common.Word.{add32, sub32, slt32}
use simple_poject.Common.Outcome.{returned, returned_injective}
use simple_poject.World.{find_character, has}
use simple_poject.World.Lookup.{known}
use simple_poject.Update.{frame_ms}
use simple_poject.Update.Ended.{Over, update-Over}
use simple_poject.Server.{Server, update_server, disconnect_session}
use simple_poject.Server.Disconnect.{disconnect_session-Gone}
use simple_poject.Server.Accept.{IsUp}
use simple_poject.Server.Steps.{update_server-IsUp, Gone-IsUp}

-- Update that is due, on a server that is up, followed by Disconnect_Session: both return, and a character
-- that was dead, or whose session has been silent for more than the time allowed, is gone, together
-- with its session. The server is up afterwards.
pub disconnect_session-Over :
    (v : Server) (delta_time logic_cur_time id : ℕ)
    → IsUp v
    → slt32 (add32 v.logic_timer delta_time) frame_ms ≡ false
    → Over v.world logic_cur_time id
    → (u : Server) × (w : Server) × (update_server v delta_time logic_cur_time ≡ returned u)
      × (disconnect_session u ≡ returned w)
      × IsUp w
      × (known id w.world.sessions ≡ false)
      × (find_character id w.world.characters ≡ none)
unfolding update_server
disconnect_session-Over v delta now id up due over =
    let (u, runs, up_u) = update_server-IsUp v delta now up in
    let (w, e, queued) =
      update-Over v.world v.logic_timer delta now id up.serving.consistent up.serving.sound due
        over in
    let first : (u_is : Server) × (update_server v delta now ≡ returned u_is)
        × (has id u_is.world.disconnect_queue ≡ true) =
      (
        record v { world = w; logic_timer = sub32 (add32 v.logic_timer delta) frame_ms },
        rw e refl,
        queued,
      ) in
    let same : first.0 ≡ u = returned_injective (sym first.1 ∙ runs) in
    let waits : has id u.world.disconnect_queue ≡ true =
      ap (λ (s : Server). has id s.world.disconnect_queue) (sym same) ∙ first.2 in
    let g = disconnect_session-Gone u up_u.serving in
    (
      u,
      g.server,
      runs,
      g.runs,
      Gone-IsUp up_u g,
      g.known_is id ∙ rw waits refl,
      g.find id ∙ rw waits refl,
    )
