-- ===== src/Network/Receive/Loop.antt =====
-- The loop of ProcRecv of Server.cpp in CppProject/22.10.10 - MMO TCPFighter Server over the packets that
-- have arrived.
use simple_poject.Common.{ℕ, zero, suc, ◌+◌, ◌*◌, ◌≤◌, ◌<◌, ◌≡◌, refl, ap, ◌∙◌, Option, some, arith}
use simple_poject.Common.Outcome.{Outcome, returned, thrown, undefined, returned_injective}
use simple_poject.RingBuffer.{get_use_size}
use simple_poject.World.{World, Session, find_session, input_disconnect_queue}
use simple_poject.World.Distinct.{find_session-id}
use simple_poject.World.Sessions.{Stays, Stays-refl, Stays-trans, Lasting-Stays}
use simple_poject.World.Frame.{input_disconnect_queue-Sent}
use simple_poject.World.Serving.{IsServing, Evolved-Sent, Evolved-IsServing}
use simple_poject.Network.{Received, handled, incomplete, refused, complete_recv_packet}
use simple_poject.Network.Receive.{drop_session, after_packet, handle_packets}
use simple_poject.Network.Receive.Cut.{Cut, cut, waits, rejected, complete_recv_packet-Cut}

-- The call is over, and what it has left, if it has returned, is a server that goes on, with the
-- same sessions under the same sockets.
abbrev pub Ends : World → Option (Outcome World) → Type 0
Ends w e =
    (o : Outcome World) × (e ≡ some o)
    × ((w' : World) → o ≡ returned w' → IsServing w' × Stays w w')

pub queued-IsServing :
    {w : World} {s : Session} (id : ℕ)
    → IsServing w
    → find_session id w.sessions ≡ some s
    → IsServing (input_disconnect_queue w s)
queued-IsServing {w} {s} id k there =
    let own = find_session-id id w.sessions there in
    let itself : find_session s.session_id w.sessions ≡ some s =
      ap (λ i. find_session i w.sessions) own ∙ there in
    Evolved-IsServing (Evolved-Sent k.consistent (input_disconnect_queue-Sent w s itself)) k

pub queued-Stays :
    {w : World} {s : Session} (id : ℕ)
    → find_session id w.sessions ≡ some s
    → Stays w (input_disconnect_queue w s)
queued-Stays {w} {s} id there =
    let itself : find_session s.session_id w.sessions ≡ some s =
      ap (λ i. find_session i w.sessions) (find_session-id id w.sessions there) ∙ there in
    Lasting-Stays (input_disconnect_queue-Sent w s itself).lasting

pub queued-Ends :
    {w : World} {s : Session} (id : ℕ)
    → IsServing w
    → find_session id w.sessions ≡ some s
    → Ends w (some (returned (input_disconnect_queue w s)))
queued-Ends {w} {s} id k there = (
  returned (input_disconnect_queue w s),
  refl,
  λ v h.
      let is : input_disconnect_queue w s ≡ v = returned_injective h in
      rw (← is) (queued-IsServing id k there, queued-Stays id there),
)

drop_session-Ends :
    {w : World} {s : Session} (id : ℕ)
    → IsServing w
    → find_session id w.sessions ≡ some s
    → Ends w (some (drop_session w id))
unfolding drop_session
drop_session-Ends {w} {s} id k there = rw there (queued-Ends id k there)

-- One round: what the loop makes of the result, if it ends on less.
after_packet-Ends :
    {w : World} {s : Session} (again : World → Option (Outcome World)) (id : ℕ)
    → IsServing w
    → find_session id w.sessions ≡ some s
    → (o : Outcome (Received × World))
    → ((r : Received) (v : World) → o ≡ returned (r, v) → Cut w id s v r)
    → ((v : World) (s' : Session)
        → IsServing v
        → find_session id v.sessions ≡ some s'
        → get_use_size s'.recv_buf + 3 ≤ get_use_size s.recv_buf
        → Ends v (again v))
    → Ends w (after_packet again id o)
unfolding after_packet
after_packet-Ends {w} again id k there (returned (handled, v)) c next = elim (c handled v refl) [
  | cut s' k' f less stays ↦
      let (o, e, l) = next v s' k' f less in
      (o, e, λ u h. let (k'', stays') = l u h in (k'', Stays-trans stays stays'))
]
after_packet-Ends {w} again id k there (returned (incomplete, v)) c next =
    elim (c incomplete v refl) [
      | waits same ↦ (
        returned v,
        refl,
        λ u h. let is : v ≡ u = returned_injective h in rw (← is, ← same) (k, Stays-refl w),
      )
    ]
after_packet-Ends {w} again id k there (returned (refused, v)) c next = elim (c refused v refl) [
  | rejected same ↦ rw (← same) (drop_session-Ends id k there)
]
after_packet-Ends again id k there thrown c next = (thrown, refl, λ u h. cc)
after_packet-Ends again id k there undefined c next = (undefined, refl, λ u h. cc)

-- Each packet takes at least three bytes, so fuel for a third of them is enough.
pub handle_packets-Ends :
    (fuel : ℕ) (w : World) (id : ℕ) {s : Session}
    → IsServing w
    → find_session id w.sessions ≡ some s
    → get_use_size s.recv_buf < 3 * fuel
    → Ends w (handle_packets fuel w id)
unfolding handle_packets
handle_packets-Ends zero w id k there enough = absurd (omega arith)
handle_packets-Ends (suc n) w id k there enough =
    after_packet-Ends (λ v. handle_packets n v id) id k there (complete_recv_packet w id)
      (λ r v e. complete_recv_packet-Cut id k there e)
      (λ v s' k' f less. handle_packets-Ends n v id k' f (omega arith))
