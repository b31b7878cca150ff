-- ===== src/Network/Receive.antt =====
-- ProcRecv of Server.cpp in CppProject/22.10.10 - MMO TCPFighter Server. The socket's recv is a
-- parameter: from the size that it is given, the bytes that it has put at GetWritePos, of which FIN
-- leaves none, or none for SOCKET_ERROR.
pub mod Dispatch
pub mod Cut
pub mod Loop
pub mod Kept
pub mod Failing
use simple_poject.Common.{ℕ, zero, suc, List, [], ◌∷◌, Option, none, some, if◌then◌else◌, length}
use simple_poject.Common.Memory.{store}
use simple_poject.Common.Outcome.{Outcome, returned, thrown, undefined, ◌>>=◌}
use simple_poject.RingBuffer.{full, direct_enqueue_size, move_rear}
use simple_poject.World.{
  World, Session, find_sock, find_session, set_session, deref, input_disconnect_queue,
}
use simple_poject.Network.{Received, handled, incomplete, refused, complete_recv_packet}

-- Input_DisconnectQ of the session that the pointer leads to.
pub drop_session : World → ℕ → Outcome World
drop_session w id =
    deref (find_session id w.sessions) >>= λ s. returned (input_disconnect_queue w s)

-- What the loop makes of a result; `again` is its next round.
pub after_packet :
    (World → Option (Outcome World)) → ℕ → Outcome (Received × World) → Option (Outcome World)
after_packet again id (returned (handled, w)) = again w
after_packet again id (returned (incomplete, w)) = some (returned w)
after_packet again id (returned (refused, w)) = some (drop_session w id)
after_packet again id thrown = some thrown
after_packet again id undefined = some undefined

-- The loop over Complete_RecvPacket, on fuel: none where it would go on.
pub handle_packets : ℕ → World → ℕ → Option (Outcome World)
handle_packets zero w id = none
handle_packets (suc n) w id =
    after_packet (λ v. handle_packets n v id) id (complete_recv_packet w id)

-- The time is noted, and a session whose buffer is full is to be disconnected; recv is called all the
-- same.
pub note_recv : World → Session → ℕ → World
note_recv w s now =
    let s' = record s { last_recv_time = now } in
    let w' = record w { sessions = set_session s' w.sessions } in
    if full s'.recv_buf then input_disconnect_queue w' s' else w'

-- The bytes are in the buffer: MoveRear.
pub received : Session → List ℕ → Session
received s bytes =
    let r = s.recv_buf in
    record s {
      recv_buf = move_rear (record r { mem = store r.mem r.write_pos bytes }) (length bytes);
    }

pub take_bytes : ℕ → World → Session → Option (List ℕ) → Option (Outcome World)
take_bytes fuel w s none = some (returned (input_disconnect_queue w s))
take_bytes fuel w s (some []) = some (returned (input_disconnect_queue w s))
take_bytes fuel w s (some (b ∷ bs)) =
    handle_packets fuel (record w { sessions = set_session (received s (b ∷ bs)) w.sessions })
      s.session_id

-- A pointer that must lead to a session.
abbrev pub through : Option Session → (Session → Option (Outcome World)) → Option (Outcome World)
through none f = some undefined
through (some s) f = f s

-- Behind Input_DisconnectQ the pointer leads to the session as it is then.
pub proc_recv : ℕ → World → ℕ → ℕ → (ℕ → Option (List ℕ)) → Option (Outcome World)
proc_recv fuel w sock now recv = through (find_sock sock w.sessions) (λ s.
    through (find_session s.session_id (note_recv w s now).sessions)
      (λ s'. take_bytes fuel (note_recv w s now) s' (recv (direct_enqueue_size s'.recv_buf))))
