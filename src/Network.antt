-- ===== src/Network.antt =====
-- From a session's bytes to a handler: Complete_RecvPacket and Proc_Packet of Server.cpp in
-- CppProject/22.10.10 - MMO TCPFighter Server.
pub mod Framing
pub mod Send
pub mod Receive
pub mod Tests
use simple_poject.Common.{
  ℕ, ◌+◌, List, [], ◌∷◌, Bool, true, false, not, ltb, ◌==◌, if◌then◌else◌, length,
}
use simple_poject.Common.Memory.{store}
use simple_poject.Common.Outcome.{Outcome, returned, thrown, undefined, ◌>>=◌}
use simple_poject.RingBuffer.{get_use_size, move_front, peek, dequeue}
use simple_poject.ProtocolBuffer.{ProtocolBuffer, clear, move_wp}
use simple_poject.MakePacket.{packet_code, PacketHeader}
use simple_poject.World.{World, Session, find_session, set_session, deref}
use simple_poject.Handler.Move.{proc_packet_move_start, proc_packet_move_stop}
use simple_poject.Handler.Attack.{proc_packet_attack1, proc_packet_attack2, proc_packet_attack3}

-- The five handlers return true.
abbrev pub succeed : Outcome World → Outcome (Bool × World)
succeed (returned w) = returned (true, w)
succeed thrown = thrown
succeed undefined = undefined

-- An echo and an unknown type leave the switch by `break`, behind which the function ends without a
-- value: C++ leaves that undefined.
pub proc_packet : World → ℕ → ℕ → ProtocolBuffer → Outcome (Bool × World)
proc_packet w id packet_type payload =
    if packet_type == 10
    then succeed (proc_packet_move_start w id payload)
    else if packet_type == 12
    then succeed (proc_packet_move_stop w id payload)
    else if packet_type == 20
    then succeed (proc_packet_attack1 w id payload)
    else if packet_type == 22
    then succeed (proc_packet_attack2 w id payload)
    else if packet_type == 24
    then succeed (proc_packet_attack3 w id payload)
    else undefined

-- What the bytes at the address of a PACKET_HEADER are.
pub header_of : List ℕ → Outcome PacketHeader
header_of (by_code ∷ by_size ∷ by_type ∷ []) =
    returned (record { by_code = by_code; by_size = by_size; by_type = by_type })
header_of bytes = undefined

-- The results 0, 1 and -1.
pub data Received : Type 0 where
  handled : Received
  incomplete : Received
  refused : Received

-- The payload is moved from the ring buffer into a cleared buffer of the pool.
pub take_payload : World → Session → PacketHeader → Outcome (ProtocolBuffer × World)
take_payload w s h =
    let (dequeue_size, bytes, recv_buf) = dequeue (move_front s.recv_buf 3) h.by_size in
    let p = clear w.pool_packet in
    let payload = move_wp (record p { mem = store p.mem p.write_pos bytes }) dequeue_size in
    if not (dequeue_size == h.by_size)
    then thrown
    else returned
        (payload, record w { sessions = set_session (record s { recv_buf = recv_buf }) w.sessions })

pub complete_recv_packet : World → ℕ → Outcome (Received × World)
complete_recv_packet w id = do
  s ← deref (find_session id w.sessions)
  let recv_q_size = get_use_size s.recv_buf
  let ask = do
    h ← header_of (peek s.recv_buf 3).1
    if not (packet_code == h.by_code)
        then returned (refused, w)
        else if ltb recv_q_size (h.by_size + 3)
        then returned (incomplete, w)
        else (do
          (payload, w) ← take_payload w s h
          (ret, w) ← proc_packet w id h.by_type payload
          returned (if ret then handled else refused, w))
  if ltb recv_q_size 3 then returned (incomplete, w) else ask
