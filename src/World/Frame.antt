-- ===== src/World/Frame.antt =====
-- Sending: what SendPacket_* may change, and that they succeed.
use simple_poject.Common.{
  ℕ, ◌≡◌, refl, ◌∙◌, inl, inr, List, [], ◌∷◌, ◌++◌, Bool, true, false, Option, none, some, arith,
  ◌==◌, if◌then◌else◌, length, Bool-cases,
}
use simple_poject.Common.Outcome.{Outcome, returned, ◌>>=◌}
use simple_poject.RingBuffer.{enqueue, full}
use simple_poject.RingBuffer.Fifo.{enqueue_refines}
use simple_poject.Sector.{SectorPos, contains}
use simple_poject.World.{
  World, Session, find_session, set_session, in_array, sector_at, has, deliver, send_packet_unicast,
  send_each, send_packet_sector_one, send_packet_around, input_disconnect_queue,
}
use simple_poject.World.Lookup.{known, find_session-known}
use simple_poject.World.Sessions.{Lasting, Lasting-same, Lasting-trans}
use simple_poject.World.Rewritten.{Unreceived, with_session, found-itself, set_session-Lasting}
use simple_poject.World.Queued.{input_disconnect_queue-Lasting}

-- Sending leaves the characters and the sectors alone, and closes no session.
pub record Sent (w w' : World) : Type 0 where
  pub characters : w'.characters ≡ w.characters
  pub sectors : w'.sectors ≡ w.sectors
  pub pool : w'.pool_packet ≡ w.pool_packet
  pub lasting : Lasting w w'

pub Sent-refl : (w : World) → Sent w w
Sent-refl w = record {
  characters = refl;
  sectors = refl;
  pool = refl;
  lasting = Lasting-same refl refl;
}

pub Sent-trans : {u v w : World} → Sent u v → Sent v w → Sent u w
Sent-trans s t = record {
  characters = t.characters ∙ s.characters;
  sectors = t.sectors ∙ s.sectors;
  pool = t.pool ∙ s.pool;
  lasting = Lasting-trans s.lasting t.lasting;
}

-- The call returns, and has only sent.
abbrev pub Sends : World → Outcome World → Type 0
Sends w o = (w' : World) × (o ≡ returned w') × Sent w w'

pub Sends-bind :
    {u v : World} {o : Outcome World} (f : World → Outcome World)
    → o ≡ returned v
    → Sent u v
    → Sends v (f v)
    → Sends u (o >>= f)
Sends-bind f e s (w, g, t) = (w, rw e g, Sent-trans s t)

if-Sent : {w u v : World} (b : Bool) → Sent w u → Sent w v → Sent w (if b then u else v)
if-Sent true s t = s
if-Sent false s t = t

pub input_disconnect_queue-Sent :
    (w : World) (s : Session)
    → find_session s.session_id w.sessions ≡ some s
    → Sent w (input_disconnect_queue w s)
unfolding input_disconnect_queue
input_disconnect_queue-Sent w s there =
    let lasting = input_disconnect_queue-Lasting w s there in
    elim (Bool-cases s.flag_disconnect) [
      | inl set ↦ rw set (Sent-refl w)
      | inr clear ↦
          let l : Lasting w (record w {
            sessions = set_session (record s { flag_disconnect = true }) w.sessions;
            disconnect_queue = w.disconnect_queue ++ s.session_id ∷ [];
          }) =
            rw clear at lasting in
          rw clear (record { characters = refl; sectors = refl; pool = refl; lasting = l })
    ]

deliver-Sent :
    (w : World) (s : Session) (packet : List ℕ)
    → find_session s.session_id w.sessions ≡ some s
    → Sent w (deliver w s packet)
unfolding deliver
deliver-Sent w s packet there =
    let s' = record s { send_buf = (enqueue s.send_buf packet).1 } in
    let w' = with_session w s' in
    let u : Unreceived w s' = record {
      rewritten = record {
        old = s;
        found = there;
        same_sock = refl;
        valid_recv = λ v. v;
        valid_send = λ v. let (_, _, valid) = enqueue_refines packet v in valid;
      };
      same_recv = refl;
      same_time = refl;
    } in
    let sent : Sent w w' = record {
      characters = refl;
      sectors = refl;
      pool = refl;
      lasting = set_session-Lasting u refl;
    } in
    if-Sent ((enqueue s.send_buf packet).0 == length packet) sent (
      if-Sent (full s'.send_buf)
        (Sent-trans sent (input_disconnect_queue-Sent w' s' (found-itself s' u.rewritten))) sent)

pub unicast-Sends :
    (w : World) (id : ℕ) (packet : List ℕ)
    → known id w.sessions ≡ true
    → Sends w (send_packet_unicast w id packet)
unfolding send_packet_unicast
unicast-Sends w id packet h =
    let (s, e, i) = find_session-known id w.sessions h in
    (deliver w s packet, rw e, deliver-Sent w s packet (rw i e))

-- Every id of the list has a session.
abbrev pub AllKnown : List Session → List ℕ → Type 0
AllKnown ss ids = (id : ℕ) → has id ids ≡ true → known id ss ≡ true

pub AllKnown-tail :
    (ss : List Session) (i : ℕ) (ids : List ℕ) → AllKnown ss (i ∷ ids) → AllKnown ss ids
unfolding has
AllKnown-tail ss i ids k id h = k id (ground arith)

pub AllKnown-head :
    (ss : List Session) (i : ℕ) (ids : List ℕ) → AllKnown ss (i ∷ ids) → known i ss ≡ true
unfolding has
AllKnown-head ss i ids k = k i (ground arith)

pub AllKnown-Sent :
    (w w' : World) (ids : List ℕ) → Sent w w' → AllKnown w.sessions ids → AllKnown w'.sessions ids
AllKnown-Sent w w' ids s k id h = s.lasting.sessions id ∙ k id h

send_each-Sends :
    (w : World) (ids packet : List ℕ) (except : Option ℕ)
    → AllKnown w.sessions ids
    → Sends w (send_each w ids packet except)
unfolding send_each
send_each-Sends w [] packet except k = (w, refl, Sent-refl w)
send_each-Sends w (i ∷ ids) packet none k =
    let (v, e, s) = unicast-Sends w i packet (AllKnown-head w.sessions i ids k) in
    Sends-bind (λ w'. send_each w' ids packet none) e s
      (send_each-Sends v ids packet none
        (AllKnown-Sent w v ids s (AllKnown-tail w.sessions i ids k)))
send_each-Sends w (i ∷ ids) packet (some x) k = elim (Bool-cases (i == x)) [
  | inl same ↦ rw same (send_each-Sends w ids packet (some x) (AllKnown-tail w.sessions i ids k))
  | inr other ↦
      let (v, e, s) = unicast-Sends w i packet (AllKnown-head w.sessions i ids k) in
      rw other (
        Sends-bind (λ w'. send_each w' ids packet (some x)) e s
          (send_each-Sends v ids packet (some x)
            (AllKnown-Sent w v ids s (AllKnown-tail w.sessions i ids k))))
]

-- The sectors of the list lie in the array, and their characters have sessions.
abbrev pub Reachable : World → List SectorPos → Type 0
Reachable w ps =
    (p : SectorPos)
    → contains ps p ≡ true
    → (in_array p ≡ true) × AllKnown w.sessions (w.sectors p.y p.x)

pub Reachable-Sent :
    (w w' : World) (ps : List SectorPos) → Sent w w' → Reachable w ps → Reachable w' ps
Reachable-Sent w w' ps s r p h =
    ((r p h).0, rw s.sectors (AllKnown-Sent w w' (w.sectors p.y p.x) s (r p h).1))

pub Reachable-head :
    (w : World) (p : SectorPos) (ps : List SectorPos)
    → Reachable w (p ∷ ps)
    → (in_array p ≡ true) × AllKnown w.sessions (w.sectors p.y p.x)
unfolding contains
Reachable-head w p ps r = r p (ground arith)

pub Reachable-tail :
    (w : World) (p : SectorPos) (ps : List SectorPos) → Reachable w (p ∷ ps) → Reachable w ps
unfolding contains
Reachable-tail w p ps r q h = r q (ground arith)

pub sector_at-eq :
    (w : World) (p : SectorPos) → in_array p ≡ true → sector_at w p ≡ returned (w.sectors p.y p.x)
unfolding sector_at
sector_at-eq w p h = rw h

-- SendPacket_Around over sectors that lie in the array, and whose characters have sessions, returns.
-- The characters, the sectors and the pool's buffer are as before, and no session is gone.
pub around-Sends :
    (w : World) (ps : List SectorPos) (packet : List ℕ) (except : Option ℕ)
    → Reachable w ps
    → Sends w (send_packet_around w ps packet except)
unfolding send_packet_around send_packet_sector_one
around-Sends w [] packet except r = (w, refl, Sent-refl w)
around-Sends w (p ∷ ps) packet except r =
    let head = Reachable-head w p ps r in
    let (v, e, s) = send_each-Sends w (w.sectors p.y p.x) packet except head.1 in
    Sends-bind (λ w'. send_packet_around w' ps packet except) (rw (sector_at-eq w p head.0) e) s
      (around-Sends v ps packet except (Reachable-Sent w v ps s (Reachable-tail w p ps r)))
