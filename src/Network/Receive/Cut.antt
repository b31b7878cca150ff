-- ===== src/Network/Receive/Cut.antt =====
-- What one call of Complete_RecvPacket of Server.cpp in CppProject/22.10.10 - MMO TCPFighter Server
-- leaves of a server that goes on, whatever bytes the client has sent.
use simple_poject.Common.{
  ℕ, ◌+◌, ◌-◌, ◌≤◌, ◌≡◌, refl, sym, ap, ◌∙◌, inl, inr, Bool, true, not, some, arith, ltb, ◌==◌,
  if◌then◌else◌, length, length-drop, Bool-cases,
}
use simple_poject.Common.Outcome.{
  Outcome, returned, thrown, ◌>>=◌, >>=-eq-returned, returned_injective,
}
use simple_poject.RingBuffer.{RingBuffer, get_use_size, move_front, peek, dequeue}
use simple_poject.RingBuffer.Bounds.{IsValid, move_front-IsValid}
use simple_poject.RingBuffer.Pieces.{contents, length-contents, move_front-drop}
use simple_poject.RingBuffer.Fifo.{dequeue_refines}
use simple_poject.ProtocolBuffer.{ProtocolBuffer}
use simple_poject.MakePacket.{packet_code, PacketHeader}
use simple_poject.World.{World, Session, find_session}
use simple_poject.World.Distinct.{find_session-id}
use simple_poject.World.Rewritten.{Rewritten, with_session, found-itself, with_session-Stays}
use simple_poject.World.Sessions.{Stays, Stays-trans, Lasting-Stays}
use simple_poject.World.Serving.{IsServing, Evolved-IsServing}
use simple_poject.Network.{
  Received, handled, incomplete, refused, proc_packet, header_of, take_payload,
  complete_recv_packet,
}
use simple_poject.Network.Receive.Dispatch.{proc_packet-Evolved, with_session-IsServing}

-- The bytes left when a header and `size` bytes were taken out.
left_after : RingBuffer → ℕ → RingBuffer
left_after r size = (dequeue (move_front r 3) size).2

left_after-IsValid : {r : RingBuffer} (size : ℕ) → IsValid r → IsValid (left_after r size)
unfolding left_after
left_after-IsValid size v =
    let (_, _, _, valid) = dequeue_refines size (move_front-IsValid 3 v) in valid

left_after-less :
    {r : RingBuffer} (size : ℕ)
    → IsValid r
    → 3 ≤ get_use_size r
    → get_use_size (left_after r size) + 3 ≤ get_use_size r
unfolding left_after
left_after-less {r} size v room =
    let m = move_front r 3 in
    let (_, _, left, _) = dequeue_refines size (move_front-IsValid 3 v) in
    let header : length (contents m) ≡ length (contents r) - 3 =
      ap length (move_front-drop 3 v room) ∙ length-drop 3 (contents r) in
    let payload : length (contents (left_after r size)) ≡ length (contents m) - (dequeue m size).0 =
      ap length left ∙ length-drop _ (contents m) in
    omega (arith, header, payload, length-contents r, length-contents (left_after r size))

taken : Session → ℕ → Session
taken s size = record s { recv_buf = left_after s.recv_buf size }

take_payload-returned :
    (w : World) (s : Session) (h : PacketHeader) {payload : ProtocolBuffer} {w' : World}
    → take_payload w s h ≡ returned (payload, w')
    → with_session w (taken s h.by_size) ≡ w'
unfolding take_payload taken left_after
take_payload-returned w s h {payload} {w'} e =
    elim (Bool-cases ((dequeue (move_front s.recv_buf 3) h.by_size).0 == h.by_size)) [
      | inl same ↦ ap (λ p. p.1) (returned_injective (rw same at e))
      | inr other ↦ let absurd : thrown ≡ returned (payload, w') = rw other at e in cc
    ]

-- How a call of Complete_RecvPacket that returns has ended.
data Ended (w : World) (id : ℕ) (s : Session) (r : Received) (w' : World) : Type 0 where
  early : r ≡ incomplete → w ≡ w' → Ended w id s r w'
  wrong : r ≡ refused → w ≡ w' → Ended w id s r w'
  ran :
      (h : PacketHeader) (payload : ProtocolBuffer) (v : World) (ret : Bool)
      → 3 ≤ get_use_size s.recv_buf
      → take_payload w s h ≡ returned (payload, v)
      → proc_packet v id h.by_type payload ≡ returned (ret, w')
      → (if ret then handled else refused) ≡ r
      → Ended w id s r w'

-- The steps behind the test of the code.
run : World → ℕ → Session → PacketHeader → Outcome (Received × World)
run w id s h = do
  (payload, w) ← take_payload w s h
  (ret, w) ← proc_packet w id h.by_type payload
  returned (if ret then handled else refused, w)

run-Ended :
    (w : World) (id : ℕ) (s : Session) (h : PacketHeader) {r : Received} {w' : World}
    → 3 ≤ get_use_size s.recv_buf
    → run w id s h ≡ returned (r, w')
    → Ended w id s r w'
unfolding run
run-Ended w id s h room e =
    let ((payload, v), took, f) = >>=-eq-returned (take_payload w s h) _ e in
    let ((ret, u), did, g) = >>=-eq-returned (proc_packet v id h.by_type payload) _ f in
    let p = returned_injective g in
    ran h payload v ret room took (did ∙ ap (λ q. returned (ret, q.1)) p) (ap (λ q. q.0) p)

ask : World → ℕ → Session → PacketHeader → Outcome (Received × World)
unfolding run
ask w id s h =
    if not (packet_code == h.by_code)
    then returned (refused, w)
    else if ltb (get_use_size s.recv_buf) (h.by_size + 3)
    then returned (incomplete, w)
    else run w id s h

ask-Ended :
    (w : World) (id : ℕ) (s : Session) (h : PacketHeader) {r : Received} {w' : World}
    → 3 ≤ get_use_size s.recv_buf
    → ask w id s h ≡ returned (r, w')
    → Ended w id s r w'
unfolding ask
ask-Ended w id s h room e = elim (Bool-cases (packet_code == h.by_code)) [
  | inr other ↦
      let p = returned_injective (rw other at e) in wrong (sym (ap (λ q. q.0) p)) (ap (λ q. q.1) p)
  | inl code ↦ elim (Bool-cases (ltb (get_use_size s.recv_buf) (h.by_size + 3))) [
    | inl part ↦
        let p = returned_injective (rw (code, part) at e) in
        early (sym (ap (λ q. q.0) p)) (ap (λ q. q.1) p)
    | inr whole ↦ run-Ended w id s h room (rw (code, whole) at e)
  ]
]

complete_recv_packet-Ended :
    (w : World) (id : ℕ) {s : Session} {r : Received} {w' : World}
    → find_session id w.sessions ≡ some s
    → complete_recv_packet w id ≡ returned (r, w')
    → Ended w id s r w'
unfolding complete_recv_packet ask run
complete_recv_packet-Ended w id {s} there e = elim (Bool-cases (ltb (get_use_size s.recv_buf) 3)) [
  | inl short ↦
      let p = returned_injective (rw (there, short) at e) in
      early (sym (ap (λ q. q.0) p)) (ap (λ q. q.1) p)
  | inr long ↦
      let (h, _, f) =
        >>=-eq-returned (header_of (peek s.recv_buf 3).1) (ask w id s) (rw (there, long) at e) in
      ask-Ended w id s h (ground arith) f
]

-- One call of Complete_RecvPacket, if it returns: a handled packet has taken at least its header out of
-- the session's buffer and left a server that goes on; any other result has changed nothing.
pub data Cut (w : World) (id : ℕ) (s : Session) (w' : World) : Received → Type 0 where
  cut :
      (s' : Session)
      → IsServing w'
      → find_session id w'.sessions ≡ some s'
      → get_use_size s'.recv_buf + 3 ≤ get_use_size s.recv_buf
      → Stays w w'
      → Cut w id s w' handled
  waits : w ≡ w' → Cut w id s w' incomplete
  rejected : w ≡ w' → Cut w id s w' refused

ran-Cut :
    {w v w' : World} {s : Session} (id : ℕ) (h : PacketHeader) (payload : ProtocolBuffer)
    {ret : Bool}
    → IsServing w
    → s.session_id ≡ id
    → find_session id w.sessions ≡ some s
    → 3 ≤ get_use_size s.recv_buf
    → take_payload w s h ≡ returned (payload, v)
    → proc_packet v id h.by_type payload ≡ returned (ret, w')
    → (true ≡ ret) × Cut w id s w' handled
unfolding taken
ran-Cut {w} {v} {w'} {s} id h payload {ret} k own there room took did =
    let (valid, _) = k.sound.buffers id s there in
    let t = taken s h.by_size in
    let r : Rewritten w t = record {
      old = s;
      found = ap (λ i. find_session i w.sessions) own ∙ there;
      same_sock = refl;
      valid_recv = left_after-IsValid h.by_size;
      valid_send = λ a. a;
    } in
    let is : with_session w t ≡ v = take_payload-returned w s h took in
    let (e, evolved) =
      proc_packet-Evolved (with_session w t) id h.by_type payload
        (with_session-IsServing r refl k).consistent (rw is did) in
    let (s', f, buf, _, _) =
      evolved.lasting.kept id t
        (ap (λ i. find_session i (with_session w t).sessions) (sym own) ∙ found-itself t r) in
    (
      e,
      cut s' (Evolved-IsServing evolved (with_session-IsServing r refl k)) f
          (rw buf (left_after-less h.by_size valid room))
          (Stays-trans (with_session-Stays r) (Lasting-Stays evolved.lasting)),
    )

pub complete_recv_packet-Cut :
    {w w' : World} {s : Session} {r : Received} (id : ℕ)
    → IsServing w
    → find_session id w.sessions ≡ some s
    → complete_recv_packet w id ≡ returned (r, w')
    → Cut w id s w' r
complete_recv_packet-Cut {w} {w'} {s} {r} id k there e =
    elim (complete_recv_packet-Ended w id there e) [
      | early is same ↦ rw is (waits same)
      | wrong is same ↦ rw is (rejected same)
      | ran h payload v ret room took did result ↦
          let (yes_it, c) =
            ran-Cut id h payload k (find_session-id id w.sessions there) there room took did in
          rw (← result, ← yes_it) c
    ]
