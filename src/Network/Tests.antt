-- ===== src/Network/Tests.antt =====
-- A session that has received one packet and a part of another.
use simple_poject.Common.{
  some, ◌++◌, Option, ◌≤◌, length, take, true, ℕ, ◌≡◌, refl, List, [], ◌∷◌, arith,
}
use simple_poject.Common.Outcome.{returned, ◌>>=◌}
use simple_poject.Common.Memory.{length-load}
use simple_poject.Network.Send.{unsent, proc_send, proc_send_lem}
use simple_poject.RingBuffer.{direct_dequeue_size, RingBuffer}
use simple_poject.RingBuffer.Bounds
use simple_poject.RingBuffer.Pieces
use simple_poject.RingBuffer.Tests.{filled-direct, filled, filled-IsValid, filled-contents}
use simple_poject.ProtocolBuffer.{ProtocolBuffer}
use simple_poject.ProtocolBuffer.Put
use simple_poject.MakePacket.{PacketHeader}
use simple_poject.World.{World, Session, find_sock, set_session}
use simple_poject.World.Tests.{
  pair, session, pair-IsConsistent, receiving, arrived, arrived-receiving,
}
use simple_poject.Network.{proc_packet, complete_recv_packet}
use simple_poject.Network.Framing.{result, complete_recv_packet_lem}

abbrev header : PacketHeader
header = record { by_code = 137; by_size = 5; by_type = 10 }

abbrev body : List ℕ
body = 4 ∷ 204 ∷ 0 ∷ 50 ∷ 0 ∷ []

complete_recv_packet_lem_example :
    (payload : ProtocolBuffer) × (recv_buf : RingBuffer) × (complete_recv_packet (arrived filled) 1
      ≡ (proc_packet
            (record (arrived filled) {
              sessions =
                  set_session
                    (record (receiving filled) { recv_buf = recv_buf })
                    (arrived filled).sessions;
            })
            1
            10
            payload
          >>= λ (ret, v). returned (result ret, v)))
    × (Put.contents payload ≡ body)
    × Put.IsValid payload
    × (Pieces.contents recv_buf ≡ 137 ∷ [])
    × Bounds.IsValid recv_buf
complete_recv_packet_lem_example =
    complete_recv_packet_lem (arrived filled) 1 header body (137 ∷ []) (arrived-receiving filled)
      pair-IsConsistent.pool filled-IsValid filled-contents refl refl (omega arith)

-- A session with bytes to send, of which the socket takes one.
abbrev sender : Session
sender = record (session 1) { send_buf = filled }

abbrev sending : World
sending = record pair { sessions = session 2 ∷ sender ∷ [] }

sending-sender : find_sock 101 sending.sessions ≡ some sender
unfolding find_sock
sending-sender = refl

abbrev send_one : List ℕ → Option ℕ
send_one bytes = some 1

one_of_two : 1 ≤ length (unsent sender)
unfolding unsent
one_of_two =
    omega
      (arith, length-load filled.mem filled.read_pos (direct_dequeue_size filled), filled-direct)

proc_send_lem_example :
    (send_buf : RingBuffer) × (proc_send sending 101 send_one
      ≡ returned (
        true,
        record sending {
          sessions = set_session (record sender { send_buf = send_buf }) sending.sessions;
        },
      ))
    × (Pieces.contents filled ≡ take 1 (unsent sender) ++ Pieces.contents send_buf)
    × Bounds.IsValid send_buf
proc_send_lem_example =
    proc_send_lem sending 101 1 send_one sending-sender filled-IsValid refl one_of_two
