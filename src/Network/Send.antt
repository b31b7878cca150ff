-- ===== src/Network/Send.antt =====
-- ProcSend of Server.cpp in CppProject/22.10.10 - MMO TCPFighter Server. The socket's send is a
-- parameter: from the bytes that it is given, the number that it has sent, or none for SOCKET_ERROR.
pub mod Kept
use simple_poject.Common.{
  ℕ, ◌+◌, ◌-◌, ◌≤◌, ◌≡◌, refl, sym, ap, ◌∙◌, List, [], ◌∷◌, ◌++◌, Bool, true, false, Option, none,
  some, arith, ◌==◌, if◌then◌else◌, length, take, take-append-left,
}
use simple_poject.Common.Memory.{load, load-append, length-load}
use simple_poject.Common.Outcome.{Outcome, returned, ◌>>=◌}
use simple_poject.RingBuffer.{RingBuffer, move_front, direct_dequeue_size}
use simple_poject.RingBuffer.Bounds.{IsValid, move_front-IsValid}
use simple_poject.RingBuffer.Pieces.{contents, move_front-load}
use simple_poject.World.{World, Session, find_sock, set_session, deref, input_disconnect_queue}

-- What send is given: the bytes from GetReadPos on.
unfoldable pub unsent : Session → List ℕ
unsent s = load s.send_buf.mem s.send_buf.read_pos (direct_dequeue_size s.send_buf)

pub proc_send : World → ℕ → (List ℕ → Option ℕ) → Outcome (Bool × World)
unfolding unsent
proc_send w sock send = deref (find_sock sock w.sessions) >>= λ s. elim (send (unsent s)) [
  | none ↦ returned (false, input_disconnect_queue w s)
  | some ret_send ↦
      let s' = record s { send_buf = move_front s.send_buf ret_send } in
      returned (true, record w { sessions = set_session s' w.sessions })
]

-- If send sends some of the bytes that it is given, and the buffer is valid, ProcSend succeeds: the
-- bytes sent are the first of those that wait, the others still wait, in order, and nothing else of
-- the session or the world has changed.
pub proc_send_lem :
    (w : World) {s : Session} (sock ret_send : ℕ) (send : List ℕ → Option ℕ)
    → find_sock sock w.sessions ≡ some s
    → IsValid s.send_buf
    → send (unsent s) ≡ some ret_send
    → ret_send ≤ length (unsent s)
    → (send_buf : RingBuffer) × (proc_send w sock send
        ≡ returned (
          true,
          record w { sessions = set_session (record s { send_buf = send_buf }) w.sessions },
        ))
      × (contents s.send_buf ≡ take ret_send (unsent s) ++ contents send_buf)
      × IsValid send_buf
unfolding proc_send unsent
proc_send_lem w {s} sock n send there v sent some_of =
    let r = s.send_buf in
    let d = direct_dequeue_size r in
    let fits : n ≤ d = omega (arith, length-load r.mem r.read_pos d) in
    let split : load r.mem r.read_pos d
        ≡ load r.mem r.read_pos n ++ load r.mem (r.read_pos + n) (d - n) =
      ap (load r.mem r.read_pos) (omega arith) ∙ load-append r.mem r.read_pos n (d - n) in
    let first : take n (load r.mem r.read_pos d) ≡ load r.mem r.read_pos n =
      ap (take n) split
      ∙ take-append-left n (load r.mem r.read_pos n) _ (sym (length-load r.mem r.read_pos n)) in
    (
      move_front r n,
      rw (there, sent) refl,
      move_front-load n v fits ∙ ap (λ l. l ++ contents (move_front r n)) (sym first),
      move_front-IsValid n v,
    )
