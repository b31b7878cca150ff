-- ===== src/Network/Framing.antt =====
-- How Complete_RecvPacket of Server.cpp in CppProject/22.10.10 - MMO TCPFighter Server cuts the bytes of
-- a session into packets.
use simple_poject.Common.{
  ℕ, ◌+◌, ◌≤◌, ◌<◌, ◌≡◌, ◌≢◌, ◌⊎◌, inl, inr, refl, sym, ap, ◌∙◌, List, ◌++◌, Bool, true, false,
  some, arith, ltb, drop, ◌==◌, if◌then◌else◌, length, length-append, take-append-left,
  drop-append-left,
}
use simple_poject.Common.Memory.{store}
use simple_poject.Common.Outcome.{Outcome, returned, ◌>>=◌}
use simple_poject.RingBuffer.{RingBuffer, get_use_size, move_front, peek, dequeue}
use simple_poject.RingBuffer.Bounds
use simple_poject.RingBuffer.Pieces
use simple_poject.RingBuffer.Fifo.{dequeue_refines, peek-dequeue}
use simple_poject.ProtocolBuffer.{ProtocolBuffer, clear, move_wp}
use simple_poject.ProtocolBuffer.Put
use simple_poject.MakePacket.{packet_code, PacketHeader, header_bytes}
use simple_poject.World.{World, Session, find_session, set_session}
use simple_poject.World.Packets.{IsPool}
use simple_poject.Network.{
  Received, handled, incomplete, refused, proc_packet, header_of, take_payload,
  complete_recv_packet,
}

-- What the peek of a header sees.
peek-header :
    {r : RingBuffer} (h : PacketHeader) (rest : List ℕ)
    → Bounds.IsValid r
    → Pieces.contents r ≡ header_bytes h ++ rest
    → (3 ≤ get_use_size r) × ((peek r 3).1 ≡ header_bytes h)
peek-header {r} h rest v e =
    let (count, dst, _, _) = dequeue_refines 3 v in
    let size : length (Pieces.contents r) ≡ 3 + length rest = ap length e ∙ omega arith in
    let three : (dequeue r 3).0 ≡ 3 = count ∙ ground (arith, size) in
    (
      omega (arith, Pieces.length-contents r, size),
      ap (λ q. q.1) (peek-dequeue 3 v)
          ∙ dst
          ∙ rw (three, e) (take-append-left 3 (header_bytes h) rest refl),
    )

-- A payload taken out of a session's ring buffer, and what it leaves there.
pub record Taken (w : World) (s : Session) (body rest : List ℕ)
    (o : Outcome (ProtocolBuffer × World)) : Type 0 where
  pub payload : ProtocolBuffer
  pub recv_buf : RingBuffer
  pub runs :
      o
      ≡ returned (
        payload,
        record w { sessions = set_session (record s { recv_buf = recv_buf }) w.sessions },
      )
  pub bytes : Put.contents payload ≡ body
  pub valid : Put.IsValid payload
  pub bytes_left : Pieces.contents recv_buf ≡ rest
  pub valid_left : Bounds.IsValid recv_buf

take_payload-Taken :
    {w : World} {s : Session} (h : PacketHeader) (body rest : List ℕ)
    → IsPool w.pool_packet
    → Bounds.IsValid s.recv_buf
    → Pieces.contents s.recv_buf ≡ header_bytes h ++ (body ++ rest)
    → length body ≡ h.by_size
    → h.by_size < 256
    → Taken w s body rest (take_payload w s h)
unfolding take_payload
take_payload-Taken {w} {s} h body rest pool v e size byte =
    let r = move_front s.recv_buf 3 in
    let (room, _) = peek-header h (body ++ rest) v e in
    let after_header : Pieces.contents r ≡ body ++ rest =
      Pieces.move_front-drop 3 v room
      ∙ ap (drop 3) e
      ∙ drop-append-left 3 (header_bytes h) (body ++ rest) refl in
    let (count, dst, left, valid_left) =
      dequeue_refines h.by_size (Bounds.move_front-IsValid 3 v) in
    let total : length (Pieces.contents r) ≡ length body + length rest =
      ap length after_header ∙ length-append body rest in
    let n_is : (dequeue r h.by_size).0 ≡ h.by_size = count ∙ ground (arith, total) in
    let bytes : (dequeue r h.by_size).1 ≡ body =
      dst ∙ rw (n_is, after_header) (take-append-left h.by_size body rest (sym size)) in
    let left' : Pieces.contents (dequeue r h.by_size).2 ≡ rest =
      left ∙ rw (n_is, after_header) (drop-append-left h.by_size body rest (sym size)) in
    let filled =
      Put.move_wp-clear body h.by_size pool.valid (sym size) (omega (arith, pool.size)) in
    let test : (h.by_size == h.by_size) ≡ true = ground arith in
    record {
      payload =
          move_wp
            (record (clear w.pool_packet) {
              mem = store (clear w.pool_packet).mem (clear w.pool_packet).write_pos body;
            })
            h.by_size;
      recv_buf = (dequeue r h.by_size).2;
      runs = rw (n_is, bytes, test) refl;
      bytes = filled.0;
      valid = filled.1;
      bytes_left = left';
      valid_left = valid_left;
    }

-- The result of a handler's true.
abbrev pub result : Bool → Received
result ret = if ret then handled else refused

-- If a session's bytes start with a header of the right code, a payload of the size that it says, and
-- the pool's buffer is valid and of 4000 bytes, Complete_RecvPacket takes exactly these bytes out of
-- the ring buffer and hands exactly the payload to Proc_Packet, with the header's type.
pub complete_recv_packet_lem :
    (w : World) {s : Session} (id : ℕ) (h : PacketHeader) (body rest : List ℕ)
    → find_session id w.sessions ≡ some s
    → IsPool w.pool_packet
    → Bounds.IsValid s.recv_buf
    → Pieces.contents s.recv_buf ≡ header_bytes h ++ (body ++ rest)
    → h.by_code ≡ packet_code
    → length body ≡ h.by_size
    → h.by_size < 256
    → (payload : ProtocolBuffer) × (recv_buf : RingBuffer) × (complete_recv_packet w id ≡ (
        proc_packet
          (record w { sessions = set_session (record s { recv_buf = recv_buf }) w.sessions })
          id
          h.by_type
          payload
        >>= λ (ret, v). returned (result ret, v)))
      × (Put.contents payload ≡ body)
      × Put.IsValid payload
      × (Pieces.contents recv_buf ≡ rest)
      × Bounds.IsValid recv_buf
unfolding complete_recv_packet header_of
complete_recv_packet_lem w {s} id h body rest there pool v e code size byte =
    let (room, seen) = peek-header h (body ++ rest) v e in
    let t = take_payload-Taken {w = w} {s = s} h body rest pool v e size byte in
    let total : get_use_size s.recv_buf ≡ 3 + (length body + length rest) =
      sym (Pieces.length-contents s.recv_buf)
      ∙ ap length e
      ∙ omega (arith, length-append body rest) in
    let long : ltb (get_use_size s.recv_buf) 3 ≡ false = ground arith in
    let whole : ltb (get_use_size s.recv_buf) (h.by_size + 3) ≡ false = ground (arith, total) in
    let right : (packet_code == h.by_code) ≡ true = ground arith in
    (
      t.payload,
      t.recv_buf,
      rw (there, long, seen, right, whole, t.runs) refl,
      t.bytes,
      t.valid,
      t.bytes_left,
      t.valid_left,
    )

-- As long as the bytes of a session do not hold a whole packet, be it that the header is not there or
-- the payload that it announces, Complete_RecvPacket reports that and changes nothing.
pub complete_recv_packet-incomplete :
    (w : World) {s : Session} (id : ℕ) (h : PacketHeader) (body : List ℕ)
    → find_session id w.sessions ≡ some s
    → Bounds.IsValid s.recv_buf
    → (length (Pieces.contents s.recv_buf) < 3)
      ⊎ ((Pieces.contents s.recv_buf ≡ header_bytes h ++ body)
          × (h.by_code ≡ packet_code)
          × (length body < h.by_size))
    → complete_recv_packet w id ≡ returned (incomplete, w)
unfolding complete_recv_packet header_of
complete_recv_packet-incomplete w {s} id h body there v (inl short) =
    let test : ltb (get_use_size s.recv_buf) 3 ≡ true =
      ground (arith, Pieces.length-contents s.recv_buf) in
    rw (there, test) refl
complete_recv_packet-incomplete w {s} id h body there v (inr (e, code, short)) =
    let (room, seen) = peek-header h body v e in
    let total : get_use_size s.recv_buf ≡ 3 + length body =
      sym (Pieces.length-contents s.recv_buf) ∙ ap length e ∙ omega arith in
    let long : ltb (get_use_size s.recv_buf) 3 ≡ false = ground arith in
    let part : ltb (get_use_size s.recv_buf) (h.by_size + 3) ≡ true = ground (arith, total) in
    let right : (packet_code == h.by_code) ≡ true = ground arith in
    rw (there, long, seen, right, part) refl

-- A header of another code is refused, and nothing changes.
pub complete_recv_packet-refused :
    (w : World) {s : Session} (id : ℕ) (h : PacketHeader) (rest : List ℕ)
    → find_session id w.sessions ≡ some s
    → Bounds.IsValid s.recv_buf
    → Pieces.contents s.recv_buf ≡ header_bytes h ++ rest
    → h.by_code ≢ packet_code
    → complete_recv_packet w id ≡ returned (refused, w)
unfolding complete_recv_packet header_of
complete_recv_packet-refused w {s} id h rest there v e code =
    let (room, seen) = peek-header h rest v e in
    let long : ltb (get_use_size s.recv_buf) 3 ≡ false = ground arith in
    let wrong : (packet_code == h.by_code) ≡ false = ground arith in
    rw (there, long, seen, wrong) refl
