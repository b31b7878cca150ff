-- ===== src/Network/Receive/Kept.antt =====
-- ProcRecv of Server.cpp in CppProject/22.10.10 - MMO TCPFighter Server comes to an end, and leaves a
-- server that goes on, if no packet makes the program fail.
use simple_poject.Common.{
  ℕ, ◌*◌, ◌≤◌, ◌<◌, ◌≡◌, ◌⊎◌, refl, sym, ap, ◌∙◌, inl, inr, List, [], ◌∷◌, true, Option, none, some,
  arith, length, Bool-cases,
}
use simple_poject.Common.Outcome.{Outcome, returned}
use simple_poject.RingBuffer.{direct_enqueue_size, full}
use simple_poject.RingBuffer.Bounds.{IsValid, get_free_size-add-get_use_size}
use simple_poject.RingBuffer.Fifo.{receive_appends}
use simple_poject.World.{World, Session, find_session, find_sock, has, input_disconnect_queue}
use simple_poject.World.Distinct.{find_session-id, find_sock-find_session}
use simple_poject.World.Sessions.{Stays, Stays-trans, Lasting-Stays}
use simple_poject.World.Frame.{input_disconnect_queue-Sent}
use simple_poject.World.Rewritten.{Rewritten, with_session, found-itself, with_session-Stays}
use simple_poject.World.Queued.{input_disconnect_queue-has}
use simple_poject.World.Serving.{IsServing}
use simple_poject.Network.Receive.{note_recv, received, take_bytes, proc_recv}
use simple_poject.Network.Receive.Dispatch.{with_session-IsServing}
use simple_poject.Network.Receive.Loop.{Ends, queued-IsServing, queued-Ends, handle_packets-Ends}

-- The pointer's session after the time was noted.
pub note_recv-kept :
    (w : World) (s : Session) (now : ℕ)
    → IsServing w
    → find_session s.session_id w.sessions ≡ some s
    → (s' : Session) × IsServing (note_recv w s now)
      × (find_session s.session_id (note_recv w s now).sessions ≡ some s')
      × Stays w (note_recv w s now)
unfolding note_recv
note_recv-kept w s now k there =
    let t = record s { last_recv_time = now } in
    let r : Rewritten w t = record {
      old = s;
      found = there;
      same_sock = refl;
      valid_recv = λ v. v;
      valid_send = λ v. v;
    } in
    let k' = with_session-IsServing r refl k in
    let itself = found-itself t r in
    let sent = input_disconnect_queue-Sent (with_session w t) t itself in
    elim (Bool-cases (full t.recv_buf)) [
      | inl no_room ↦
          let (s', f, _, _, _) = sent.lasting.kept t.session_id t itself in
          (
            s',
            rw no_room (queued-IsServing t.session_id k' itself),
            rw no_room f,
            rw no_room (Stays-trans (with_session-Stays r) (Lasting-Stays sent.lasting)),
          )
      | inr room ↦ (t, rw room k', rw room itself, rw room (with_session-Stays r))
    ]

received-IsServing :
    {w : World} {s : Session} (bytes : List ℕ)
    → IsServing w
    → find_session s.session_id w.sessions ≡ some s
    → length bytes ≤ direct_enqueue_size s.recv_buf
    → IsServing (with_session w (received s bytes))
      × (find_session s.session_id (with_session w (received s bytes)).sessions
          ≡ some (received s bytes))
      × IsValid (received s bytes).recv_buf
      × Stays w (with_session w (received s bytes))
unfolding received
received-IsServing {w} {s} bytes k there fits =
    let (valid, _) = k.sound.buffers s.session_id s there in
    let (_, v) = receive_appends bytes valid fits in
    let r : Rewritten w (received s bytes) = record {
      old = s;
      found = there;
      same_sock = refl;
      valid_recv = λ a. v;
      valid_send = λ a. a;
    } in
    (with_session-IsServing r refl k, found-itself (received s bytes) r, v, with_session-Stays r)

-- What recv is documented to do: it puts no more bytes than it has room for.
abbrev pub IsBounded : (ℕ → Option (List ℕ)) → Type 0
IsBounded recv = (size : ℕ) (bytes : List ℕ) → recv size ≡ some bytes → length bytes ≤ size

Ends-after : {u v : World} {e : Option (Outcome World)} → Stays u v → Ends v e → Ends u e
Ends-after {u} {v} stays (o, e, l) = (o, e, λ w h. let (k, t) = l w h in (k, Stays-trans stays t))

take_bytes-Ends :
    (fuel : ℕ) (w : World) (s : Session) (got : Option (List ℕ))
    → IsServing w
    → find_session s.session_id w.sessions ≡ some s
    → ((bytes : List ℕ) → got ≡ some bytes → length bytes ≤ direct_enqueue_size s.recv_buf)
    → 8191 < 3 * fuel
    → Ends w (take_bytes fuel w s got)
unfolding take_bytes
take_bytes-Ends fuel w s none k there fits enough = queued-Ends s.session_id k there
take_bytes-Ends fuel w s (some []) k there fits enough = queued-Ends s.session_id k there
take_bytes-Ends fuel w s (some (b ∷ bs)) k there fits enough =
    let (k', there', valid, stays) = received-IsServing (b ∷ bs) k there (fits (b ∷ bs) refl) in
    Ends-after stays (
      handle_packets-Ends fuel _ s.session_id k' there'
        (omega (arith, get_free_size-add-get_use_size valid)))

-- If the server serves, the socket has a session, recv puts no more bytes than it is given room for,
-- and the fuel is more than a third of the 8191 bytes that a buffer holds, then ProcRecv's loop comes
-- to an end, whatever bytes arrive; if no packet has made the program fail, the server still serves,
-- every session is still there, under its socket, and none is new.
pub proc_recv-Ends :
    (fuel : ℕ) (w : World) (sock now : ℕ) (recv : ℕ → Option (List ℕ)) {s : Session}
    → IsServing w
    → find_sock sock w.sessions ≡ some s
    → IsBounded recv
    → 8191 < 3 * fuel
    → Ends w (proc_recv fuel w sock now recv)
unfolding proc_recv
proc_recv-Ends fuel w sock now recv {s} k at bound enough =
    let there = find_sock-find_session sock w.sessions k.sound.ids_once at in
    let (s', k', there', stays) = note_recv-kept w s now k there in
    let own = find_session-id s.session_id _ there' in
    let itself = ap (λ i. find_session i (note_recv w s now).sessions) own ∙ there' in
    rw (at, there')
      (Ends-after stays (
        take_bytes-Ends fuel (note_recv w s now) s' (recv (direct_enqueue_size s'.recv_buf)) k'
          itself (bound (direct_enqueue_size s'.recv_buf)) enough))

-- If recv tells of an error, or that the client has closed, ProcRecv returns at once, and the session
-- waits to be disconnected; the server still serves.
pub proc_recv-closed :
    (fuel : ℕ) (w : World) (sock now : ℕ) (recv : ℕ → Option (List ℕ)) {s : Session}
    → IsServing w
    → find_sock sock w.sessions ≡ some s
    → ((size : ℕ) → (recv size ≡ none) ⊎ (recv size ≡ some []))
    → (w' : World) × (proc_recv fuel w sock now recv ≡ some (returned w'))
      × IsServing w'
      × (has s.session_id w'.disconnect_queue ≡ true)
unfolding proc_recv take_bytes
proc_recv-closed fuel w sock now recv {s} k at closed =
    let there = find_sock-find_session sock w.sessions k.sound.ids_once at in
    let (s', k', there', stays) = note_recv-kept w s now k there in
    let own = find_session-id s.session_id _ there' in
    let itself = ap (λ i. find_session i (note_recv w s now).sessions) own ∙ there' in
    let v = input_disconnect_queue (note_recv w s now) s' in
    let has_it : has s.session_id v.disconnect_queue ≡ true =
      ap (λ i. has i v.disconnect_queue) (sym own)
      ∙ input_disconnect_queue-has (note_recv w s now) s' k'.sound itself in
    (
      v,
      rw (at, there')
          (elim (closed (direct_enqueue_size s'.recv_buf)) [
            | inl e ↦ rw e refl
            | inr e ↦ rw e refl
          ]),
      queued-IsServing s'.session_id k' itself,
      has_it,
    )
