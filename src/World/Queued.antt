-- ===== src/World/Queued.antt =====
-- Input_DisconnectQ of Server.cpp in CppProject/22.10.10 - MMO TCPFighter Server keeps the sessions sound.
use simple_poject.Common.{
  ℕ, ◌≡◌, refl, ◌∙◌, inl, inr, [], ◌∷◌, ◌++◌, true, false, ◌||◌, some, arith, ◌==◌, Bool-cases,
}
use simple_poject.World.{World, Session, find_session, set_session, has, input_disconnect_queue}
use simple_poject.World.Lookup.{known-set_session}
use simple_poject.World.Distinct.{
  ids-set_session, socks-set_session, find-set_session, has-append, distinct-snoc,
}
use simple_poject.World.Sessions.{IsSound, Lasting, Lasting-same}
use simple_poject.World.Rewritten.{
  Rewritten, Unreceived, Kept-Unreceived, buffers-Rewritten, found-set_session,
}

-- The session's flag is set, and it is queued.
abbrev with_queued : World → Session → World
with_queued w s = record w {
  sessions = set_session (record s { flag_disconnect = true }) w.sessions;
  disconnect_queue = w.disconnect_queue ++ s.session_id ∷ [];
}

not-queued :
    {w : World} {s : Session}
    → IsSound w
    → find_session s.session_id w.sessions ≡ some s
    → s.flag_disconnect ≡ false
    → has s.session_id w.disconnect_queue ≡ false
not-queued {w} {s} k there clear = elim (Bool-cases (has s.session_id w.disconnect_queue)) [
  | inl h ↦ let (t, e, f) = k.queued s.session_id h in ground arith
  | inr n ↦ n
]

with_queued-IsSound :
    {w : World} {s : Session}
    → find_session s.session_id w.sessions ≡ some s
    → s.flag_disconnect ≡ false
    → Rewritten w (record s { flag_disconnect = true })
    → IsSound w
    → IsSound (with_queued w s)
unfolding has
with_queued-IsSound {w} {s} there clear r k =
    let s' = record s { flag_disconnect = true } in
    let q = w.disconnect_queue in
    let more : (i : ℕ) → has i (q ++ s.session_id ∷ []) ≡ (has i q || s.session_id == i) =
      λ i. has-append i q (s.session_id ∷ []) ∙ ground arith in
    record {
      ids_once = rw (ids-set_session s' w.sessions) k.ids_once;
      socks_once = rw (socks-set_session s' w.sessions r.found r.same_sock) k.socks_once;
      buffers = buffers-Rewritten r k;
      queue_once = distinct-snoc q s.session_id k.queue_once (not-queued k there clear);
      queued = λ id h. elim (Bool-cases (s.session_id == id)) [
        | inl here ↦ (s', find-set_session id s' w.sessions r.found ∙ rw here refl, refl)
        | inr away ↦
            let (t, e, f) = k.queued id (ground (arith, more id)) in
            (t, find-set_session id s' w.sessions r.found ∙ rw away e, f)
      ];
      flagged =
          found-set_session s' w.sessions
            (λ id t. t.flag_disconnect ≡ true → has id (q ++ s.session_id ∷ []) ≡ true) r.found
            (λ f. more s.session_id ∙ ground arith)
            (λ id t n e f. let h = k.flagged id t e f in more id ∙ ground arith);
    }

-- Input_DisconnectQ for a session that is there.
pub input_disconnect_queue-Lasting :
    (w : World) (s : Session)
    → find_session s.session_id w.sessions ≡ some s
    → Lasting w (input_disconnect_queue w s)
unfolding input_disconnect_queue
input_disconnect_queue-Lasting w s there = elim (Bool-cases s.flag_disconnect) [
  | inl set ↦ rw set (Lasting-same refl refl)
  | inr clear ↦
      let s' = record s { flag_disconnect = true } in
      let u : Unreceived w s' = record {
        rewritten = record {
          old = s;
          found = there;
          same_sock = refl;
          valid_recv = λ v. v;
          valid_send = λ v. v;
        };
        same_recv = refl;
        same_time = refl;
      } in
      let lasting : Lasting w (with_queued w s) = record {
        sessions = λ id. known-set_session id s' w.sessions;
        sound = with_queued-IsSound there clear u.rewritten;
        kept = Kept-Unreceived u;
        appended = s.session_id ∷ [];
        queue = refl;
      } in
      rw clear lasting
]

-- The session waits to be disconnected afterwards, also if it has done so before.
pub input_disconnect_queue-has :
    (w : World) (s : Session)
    → IsSound w
    → find_session s.session_id w.sessions ≡ some s
    → has s.session_id (input_disconnect_queue w s).disconnect_queue ≡ true
unfolding input_disconnect_queue has
input_disconnect_queue-has w s k there = elim (Bool-cases s.flag_disconnect) [
  | inl set ↦ rw set (k.flagged s.session_id s there set)
  | inr clear ↦
      rw clear (has-append s.session_id w.disconnect_queue (s.session_id ∷ []) ∙ ground arith)
]
