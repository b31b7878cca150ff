-- ===== src/World/Rewritten.antt =====
-- Writes to a session of Server.cpp in CppProject/22.10.10 - MMO TCPFighter Server keep the sessions
-- sound.
use simple_poject.Common.{
  ap, none, append-nil, ℕ, ◌≡◌, refl, sym, ◌∙◌, inl, inr, List, [], true, false, some, arith, ◌==◌,
  Bool-cases,
}
use simple_poject.RingBuffer.Bounds.{IsValid}
use simple_poject.World.{World, Session, find_session, set_session, has}
use simple_poject.World.Lookup.{known-set_session}
use simple_poject.World.Distinct.{ids-set_session, socks-set_session, find-set_session}
use simple_poject.World.Sessions.{IsSound, Kept, Lasting, Stays}

-- A session written over with valid buffers, and all else as it was.
pub record Rewritten (w : World) (s : Session) : Type 0 where
  pub old : Session
  pub found : find_session s.session_id w.sessions ≡ some old
  pub same_sock : s.sock ≡ old.sock
  pub valid_recv : IsValid old.recv_buf → IsValid s.recv_buf
  pub valid_send : IsValid old.send_buf → IsValid s.send_buf

-- Nothing was received.
pub record Unreceived (w : World) (s : Session) : Type 0 where
  pub rewritten : Rewritten w s
  pub same_recv : s.recv_buf ≡ rewritten.old.recv_buf
  pub same_time : s.last_recv_time ≡ rewritten.old.last_recv_time

abbrev pub with_session : World → Session → World
with_session w s = record w { sessions = set_session s w.sessions }

-- Who is found after a session was written.
pub found-set_session :
    (s : Session) (ss : List Session) (P : ℕ → Session → Type 0) {old : Session}
    → find_session s.session_id ss ≡ some old
    → P s.session_id s
    → ((id : ℕ) (t : Session) → (s.session_id == id) ≡ false → find_session id ss ≡ some t → P id t)
    → (id : ℕ) (t : Session) → find_session id (set_session s ss) ≡ some t
    → P id t
found-set_session s ss P {old} found here there id t e =
    let f = find-set_session id s ss found in
    elim (Bool-cases (s.session_id == id)) [
      | inl same ↦
          let own : s.session_id ≡ id = ground arith in
          let is_s : s ≡ t = ground (arith, f) in rw (← own, ← is_s) here
      | inr other ↦ there id t other (ground (arith, f))
    ]

pub found-itself :
    {w : World} (s : Session)
    → Rewritten w s
    → find_session s.session_id (set_session s w.sessions) ≡ some s
found-itself {w} s r = find-set_session s.session_id s w.sessions r.found ∙ ground arith

-- Who was found before is found after the write.
pub Kept-Unreceived :
    {w : World} {s : Session}
    → Unreceived w s
    → (id : ℕ) (t : Session) → find_session id w.sessions ≡ some t
    → Kept (with_session w s) id t
Kept-Unreceived {w} {s} u id t e =
    let r = u.rewritten in
    elim (Bool-cases (s.session_id == id)) [
      | inl same ↦
          let own : s.session_id ≡ id = ground arith in
          let f : find_session s.session_id w.sessions ≡ some t = rw own e in
          let is_old : r.old ≡ t = let g = r.found in ground arith in
          (
            s,
            find-set_session id s w.sessions r.found ∙ rw same refl,
            rw (← is_old) u.same_recv,
            rw (← is_old) u.same_time,
            rw (← is_old) r.same_sock,
          )
      | inr other ↦ (t, find-set_session id s w.sessions r.found ∙ rw other e, refl, refl, refl)
    ]

pub buffers-Rewritten :
    {w : World} {s : Session}
    → Rewritten w s
    → IsSound w
    → (id : ℕ) (t : Session) → find_session id (set_session s w.sessions) ≡ some t
    → IsValid t.recv_buf × IsValid t.send_buf
buffers-Rewritten {w} {s} r k =
    let (recv, send) = k.buffers s.session_id r.old r.found in
    found-set_session s w.sessions (λ id t. IsValid t.recv_buf × IsValid t.send_buf) r.found
      (r.valid_recv recv, r.valid_send send) (λ id t n f. k.buffers id t f)

-- A write that leaves the flag alone.
pub set_session-IsSound :
    {w : World} {s : Session}
    → (r : Rewritten w s) → s.flag_disconnect ≡ r.old.flag_disconnect
    → IsSound w
    → IsSound (with_session w s)
set_session-IsSound {w} {s} r same k = record {
  ids_once = rw (ids-set_session s w.sessions) k.ids_once;
  socks_once = rw (socks-set_session s w.sessions r.found r.same_sock) k.socks_once;
  buffers = buffers-Rewritten r k;
  queue_once = k.queue_once;
  queued = λ id h.
      let (t, e, f) = k.queued id h in
      elim (Bool-cases (s.session_id == id)) [
        | inl here ↦
            let own : s.session_id ≡ id = ground arith in
            let there : find_session s.session_id w.sessions ≡ some t = rw own e in
            let is_old : r.old ≡ t = let g = r.found in ground arith in
            (s, find-set_session id s w.sessions r.found ∙ rw here refl, same ∙ rw is_old f)
        | inr away ↦ (t, find-set_session id s w.sessions r.found ∙ rw away e, f)
      ];
  flagged =
      found-set_session s w.sessions
        (λ id t. t.flag_disconnect ≡ true → has id w.disconnect_queue ≡ true) r.found
        (λ f. k.flagged s.session_id r.old r.found (sym same ∙ f))
        (λ id t n e f. k.flagged id t e f);
}

pub set_session-Lasting :
    {w : World} {s : Session}
    → (u : Unreceived w s) → s.flag_disconnect ≡ u.rewritten.old.flag_disconnect
    → Lasting w (with_session w s)
set_session-Lasting {w} {s} u same = record {
  sessions = λ id. known-set_session id s w.sessions;
  sound = set_session-IsSound u.rewritten same;
  kept = Kept-Unreceived u;
  appended = [];
  queue = sym (append-nil w.disconnect_queue);
}

some_session_injective : {s t : Session} → some s ≡ some t → s ≡ t
some_session_injective {s} h = ap (λ o. elim o [ none ↦ s | some t ↦ t ]) h

pub with_session-Stays : {w : World} {s : Session} → Rewritten w s → Stays w (with_session w s)
with_session-Stays {w} {s} r = record {
  stay = λ id t e. elim (Bool-cases (s.session_id == id)) [
    | inl same ↦
        let own : s.session_id ≡ id = ground arith in
        let f : find_session s.session_id w.sessions ≡ some t =
          ap (λ i. find_session i w.sessions) own ∙ e in
        let is_old : r.old ≡ t = some_session_injective (sym r.found ∙ f) in
        (
          s,
          find-set_session id s w.sessions r.found ∙ rw same refl,
          r.same_sock ∙ ap (λ (u : Session). u.sock) is_old,
        )
    | inr other ↦ (t, find-set_session id s w.sessions r.found ∙ rw other e, refl)
  ];
  same_ids = λ id. known-set_session id s w.sessions;
}
