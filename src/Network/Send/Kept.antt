-- ===== src/Network/Send/Kept.antt =====
-- ProcSend of Server.cpp in CppProject/22.10.10 - MMO TCPFighter Server leaves a server that goes on.
use simple_poject.Common.{ℕ, ◌≡◌, refl, List, Bool, true, false, Option, none, some}
use simple_poject.Common.Outcome.{Outcome, returned}
use simple_poject.RingBuffer.{move_front}
use simple_poject.RingBuffer.Bounds.{move_front-IsValid}
use simple_poject.World.{World, Session, find_sock, find_session, input_disconnect_queue}
use simple_poject.World.Distinct.{find_sock-find_session}
use simple_poject.World.Sessions.{Stays}
use simple_poject.World.Rewritten.{Rewritten, with_session, with_session-Stays}
use simple_poject.World.Serving.{IsServing}
use simple_poject.Network.Receive.Dispatch.{with_session-IsServing}
use simple_poject.Network.Receive.Loop.{queued-IsServing, queued-Stays}
use simple_poject.Network.Send.{proc_send, unsent}

-- The bytes sent are taken off the buffer.
abbrev sent_off : Session → ℕ → Session
sent_off s n = record s { send_buf = move_front s.send_buf n }

-- ProcSend for a socket that has a session returns, whatever send says, and the server still serves,
-- with the same sessions under the same sockets.
pub proc_send-IsServing :
    (w : World) (sock : ℕ) (send : List ℕ → Option ℕ) {s : Session}
    → IsServing w
    → find_sock sock w.sessions ≡ some s
    → (b : Bool) × (w' : World) × (proc_send w sock send ≡ returned (b, w'))
      × IsServing w'
      × Stays w w'
unfolding proc_send
proc_send-IsServing w sock send {s} k at =
    let there = find_sock-find_session sock w.sessions k.sound.ids_once at in
    rw at (ends (send (unsent s)) there)
  where
    ends :
        (ret : Option ℕ)
        → find_session s.session_id w.sessions ≡ some s
        → (b : Bool) × (w' : World) × ◌≡◌ {A = Outcome (Bool × World)}
            (elim ret [
              | none ↦ returned (false, input_disconnect_queue w s)
              | some n ↦ returned (true, with_session w (sent_off s n))
            ])
            (returned (b, w'))
          × IsServing w'
          × Stays w w'
    ends none there = (
      false,
      input_disconnect_queue w s,
      refl,
      queued-IsServing s.session_id k there,
      queued-Stays s.session_id there,
    )
    ends (some n) there =
        let r : Rewritten w (sent_off s n) = record {
          old = s;
          found = there;
          same_sock = refl;
          valid_recv = λ v. v;
          valid_send = move_front-IsValid n;
        } in
        (
          true,
          with_session w (sent_off s n),
          refl,
          with_session-IsServing r refl k,
          with_session-Stays r,
        )
