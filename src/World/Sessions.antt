-- ===== src/World/Sessions.antt =====
-- The sessions of Server.cpp in CppProject/22.10.10 - MMO TCPFighter Server: sessionMap, the ring
-- buffers and disconnect_queue, and what a handler may do to them.
use simple_poject.Common.{
  ℕ, ◌≡◌, refl, sym, ap, ◌∙◌, List, [], ◌++◌, true, some, append-nil, append_assoc,
}
use simple_poject.RingBuffer.Bounds.{IsValid}
use simple_poject.World.{World, Session, find_session, find_sock, has}
use simple_poject.World.Lookup.{known}
use simple_poject.World.Distinct.{
  distinct, ids, socks, has-append, find_sock-find_session, find_session-find_sock, find_sock-sock,
}

-- sessionMap has no socket and no id twice, the buffers are valid, and disconnect_queue holds exactly
-- the sessions whose flag_disconnect is set, each once.
pub record IsSound (w : World) : Type 0 where
  pub ids_once : distinct (ids w.sessions) ≡ true
  pub socks_once : distinct (socks w.sessions) ≡ true
  pub buffers :
      (id : ℕ) (s : Session)
      → find_session id w.sessions ≡ some s
      → IsValid s.recv_buf × IsValid s.send_buf
  pub queue_once : distinct w.disconnect_queue ≡ true
  pub queued :
      (id : ℕ)
      → has id w.disconnect_queue ≡ true
      → (s : Session) × (find_session id w.sessions ≡ some s) × (s.flag_disconnect ≡ true)
  pub flagged :
      (id : ℕ) (s : Session)
      → find_session id w.sessions ≡ some s
      → s.flag_disconnect ≡ true
      → has id w.disconnect_queue ≡ true

-- The session is still there; what it has received, and when, is as before.
abbrev pub Kept : World → ℕ → Session → Type 0
Kept w id s =
    (s' : Session) × (find_session id w.sessions ≡ some s')
    × (s'.recv_buf ≡ s.recv_buf)
    × (s'.last_recv_time ≡ s.last_recv_time)
    × (s'.sock ≡ s.sock)

-- No session is gone or new, nothing is received, and who waits to be disconnected still does.
pub record Lasting (w w' : World) : Type 0 where
  pub sessions : (id : ℕ) → known id w'.sessions ≡ known id w.sessions
  pub sound : IsSound w → IsSound w'
  pub kept : (id : ℕ) (s : Session) → find_session id w.sessions ≡ some s → Kept w' id s
  pub appended : List ℕ
  pub queue : w'.disconnect_queue ≡ w.disconnect_queue ++ appended

-- The same sessions and the same queue.
pub Lasting-same :
    {w w' : World}
    → w'.sessions ≡ w.sessions
    → w'.disconnect_queue ≡ w.disconnect_queue
    → Lasting w w'
Lasting-same {w} {w'} s q = record {
  sessions = λ id. ap (known id) s;
  sound = λ k. record {
    ids_once = rw s k.ids_once;
    socks_once = rw s k.socks_once;
    buffers = λ id t e. k.buffers id t (rw s at e);
    queue_once = rw q k.queue_once;
    queued = λ id h. rw s (k.queued id (rw q at h));
    flagged = λ id t e f. rw q (k.flagged id t (rw s at e) f);
  };
  kept = λ id t e. (t, rw s e, refl, refl, refl);
  appended = [];
  queue = q ∙ sym (append-nil w.disconnect_queue);
}

pub Lasting-trans : {u v w : World} → Lasting u v → Lasting v w → Lasting u w
Lasting-trans {u} s t = record {
  sessions = λ id. t.sessions id ∙ s.sessions id;
  sound = λ k. t.sound (s.sound k);
  kept = λ id a e.
      let (b, f, r, l, o) = s.kept id a e in
      let (c, g, r', l', o') = t.kept id b f in (c, g, r' ∙ r, l' ∙ l, o' ∙ o);
  appended = s.appended ++ t.appended;
  queue =
      t.queue
      ∙ ap (λ l. l ++ t.appended) s.queue
      ∙ append_assoc u.disconnect_queue s.appended t.appended;
}

-- Who waits to be disconnected still does.
pub Lasting-has :
    {w w' : World}
    → Lasting w w'
    → (id : ℕ) → has id w.disconnect_queue ≡ true
    → has id w'.disconnect_queue ≡ true
Lasting-has {w} l id h =
    ap (has id) l.queue ∙ has-append id w.disconnect_queue l.appended ∙ rw h refl

-- Every session is still there, under its socket, and none is new.
pub record Stays (w w' : World) : Type 0 where
  pub stay :
      (id : ℕ) (s : Session)
      → find_session id w.sessions ≡ some s
      → (s' : Session) × (find_session id w'.sessions ≡ some s') × (s'.sock ≡ s.sock)
  pub same_ids : (id : ℕ) → known id w'.sessions ≡ known id w.sessions

pub Stays-refl : (w : World) → Stays w w
Stays-refl w = record { stay = λ id s e. (s, e, refl); same_ids = λ id. refl }

pub Stays-trans : {u v w : World} → Stays u v → Stays v w → Stays u w
Stays-trans a b = record {
  stay =
      λ id s e. let (t, f, o) = a.stay id s e in let (r, g, o') = b.stay id t f in (r, g, o' ∙ o);
  same_ids = λ id. b.same_ids id ∙ a.same_ids id;
}

pub Lasting-Stays : {w w' : World} → Lasting w w' → Stays w w'
Lasting-Stays l = record {
  stay = λ id s e. let (t, f, _, _, o) = l.kept id s e in (t, f, o);
  same_ids = l.sessions;
}

-- So every socket still has a session.
pub Stays-socks :
    {w w' : World}
    → IsSound w
    → IsSound w'
    → Stays w w'
    → (sock : ℕ) (s : Session) → find_sock sock w.sessions ≡ some s
    → (s' : Session) × (find_sock sock w'.sessions ≡ some s')
Stays-socks {w} {w'} k k' a sock s e =
    let (t, f, o) = a.stay s.session_id s (find_sock-find_session sock w.sessions k.ids_once e) in
    (
      t,
      ap (λ i. find_sock i w'.sessions) (sym (o ∙ find_sock-sock sock w.sessions e))
          ∙ find_session-find_sock s.session_id w'.sessions k'.socks_once f,
    )
