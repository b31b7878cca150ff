-- ===== src/Server/Disconnect.antt =====
-- Disconnect_Session of Server.cpp in CppProject/22.10.10 - MMO TCPFighter Server on a server that goes
-- on.
use simple_poject.Common.{
  ℕ, ◌≡◌, refl, sym, ap, ◌∙◌, List, [], ◌∷◌, ◌++◌, not, ◌&&◌, none, some, arith, if◌then◌else◌,
  length, append_assoc, append-nil,
}
use simple_poject.Common.Outcome.{Outcome, returned, ◌>>=◌}
use simple_poject.RingBuffer.Bounds.{IsValid}
use simple_poject.Character.{Character}
use simple_poject.World.{World, Session, find_character, find_session, has}
use simple_poject.World.Lookup.{known, find_character-id, find_session-known, has-head}
use simple_poject.World.Distinct.{find_session-id, known-find_session}
use simple_poject.World.Frame.{Sent}
use simple_poject.World.Sets.{erase_sectors-returned}
use simple_poject.World.Resector.{placed-inside, own-has}
use simple_poject.World.Serving.{IsServing}
use simple_poject.Handler.Sends.{disconnect_character-reaches}
use simple_poject.Server.{Server, pop, front, disconnect_one, disconnect_each, disconnect_session}
use simple_poject.Server.Parting.{
  erased, parted, standing, has-sectors_erased, erased-Reachable, Parting, find-parted,
  known-parted, parted-IsServing,
}

-- The buffers of the free sessions are valid.
abbrev pub IsFree : List Session → Type 0
IsFree [] = Unit
IsFree (s ∷ free) = IsValid s.recv_buf × IsValid s.send_buf × IsFree free

-- The sessions of `ids`, and their characters, are gone; all others are still there. The queue is what
-- stood in it behind them, and what has been added.
pub record Gone (v : Server) (ids rest : List ℕ) (o : Outcome Server) : Type 0 where
  pub server : Server
  pub runs : o ≡ returned server
  pub serving : IsServing server.world
  pub find :
      (i : ℕ)
      → find_character i server.world.characters
        ≡ (if has i ids then none else find_character i v.world.characters)
  pub known_is :
      (i : ℕ) → known i server.world.sessions ≡ (not (has i ids) && known i v.world.sessions)
  pub more : List ℕ
  pub queue : server.world.disconnect_queue ≡ rest ++ more
  pub free : IsFree v.pool_session → IsFree server.pool_session
  pub same_id : server.next_id ≡ v.next_id

-- The round once the session and its character are found.
Sent-Gone :
    {v : Server} {w : World} {t : Session} {c : Character} (id : ℕ) (rest : List ℕ)
    → IsServing v.world
    → v.world.disconnect_queue ≡ id ∷ rest
    → find_character id v.world.characters ≡ some c
    → c.session_id ≡ id
    → Sent (erased v.world c) w
    → find_session id w.sessions ≡ some t
    → Gone v
        (id ∷ [])
        rest
        (returned (record v { world = parted w t c.session_id; pool_session = t ∷ v.pool_session }))
unfolding has
Sent-Gone {v} {w} {t} {c} id rest k q there own sent found =
    let sound = sent.lasting.sound (record {
      ids_once = k.sound.ids_once;
      socks_once = k.sound.socks_once;
      buffers = k.sound.buffers;
      queue_once = k.sound.queue_once;
      queued = k.sound.queued;
      flagged = k.sound.flagged;
    }) in
    let p : Parting v.world w c.session_id t = record {
      before = k;
      sound = sound;
      pool = sent.pool;
      characters = sent.characters;
      sessions = sent.lasting.sessions;
      sectors = λ y x i.
          ap (λ (f : ℕ → ℕ → List ℕ). has i (f y x)) sent.sectors
          ∙ has-sectors_erased id k.consistent there y x i;
      there = ap (λ i. find_session i w.sessions) own ∙ found;
      rest = rest ++ sent.lasting.appended;
      queue =
          sent.lasting.queue
          ∙ ap (λ l. l ++ sent.lasting.appended) q
          ∙ ap (λ i. i ∷ (rest ++ sent.lasting.appended)) (sym own);
    } in
    let buffers = sound.buffers id t found in
    record {
      server = record v { world = parted w t c.session_id; pool_session = t ∷ v.pool_session };
      runs = refl;
      serving = parted-IsServing c.session_id p;
      find = λ i. find-parted c.session_id p i ∙ ground arith;
      known_is = λ i. known-parted c.session_id p i ∙ ground arith;
      more = sent.lasting.appended;
      queue = ap pop p.queue;
      free = λ f. (buffers.0, buffers.1, f);
      same_id = refl;
    }

-- One round: the session is gone.
disconnect_one-Gone :
    (v : Server) (id : ℕ) (rest : List ℕ)
    → IsServing v.world
    → v.world.disconnect_queue ≡ id ∷ rest
    → Gone v (id ∷ []) rest (disconnect_one v id)
unfolding disconnect_one
disconnect_one-Gone v id rest k q =
    let (s, found, _) = k.sound.queued id (ap (has id) q ∙ has-head id rest) in
    let (c, there) = k.hosted id (known-find_session id v.world.sessions found) in
    let own = find_character-id id v.world.characters there in
    let at : find_character s.session_id v.world.characters ≡ some c =
      ap (λ i. find_character i v.world.characters) (find_session-id id v.world.sessions found)
      ∙ there in
    let stands = standing id there in
    let erase =
      erase_sectors-returned v.world c (placed-inside k.consistent stands)
        (own-has k.consistent stands) in
    let (w, sends, sent) =
      disconnect_character-reaches (erased v.world c) c k.consistent.pool
        (erased-Reachable id k.consistent there) in
    let (t, freed, _) =
      find_session-known id w.sessions
        (sent.lasting.sessions id ∙ known-find_session id v.world.sessions found) in
    rw (found, at, erase, sends, freed) (Sent-Gone id rest k q there own sent freed)

Gone-nobody : (v : Server) → IsServing v.world → Gone v [] v.world.disconnect_queue (returned v)
unfolding has
Gone-nobody v k = record {
  server = v;
  runs = refl;
  serving = k;
  find = λ i. refl;
  known_is = λ i. refl;
  more = [];
  queue = sym (append-nil v.world.disconnect_queue);
  free = λ f. f;
  same_id = refl;
}

-- One round and the others.
Gone-then :
    {v : Server} {o : Outcome Server} (f : Server → Outcome Server) (id : ℕ) (is rest : List ℕ)
    → (g : Gone v (id ∷ []) (is ++ rest) o) → Gone g.server is (rest ++ g.more) (f g.server)
    → Gone v (id ∷ is) rest (o >>= f)
unfolding has
Gone-then {v} f id is rest g h = record {
  server = h.server;
  runs = rw g.runs h.runs;
  serving = h.serving;
  find = λ i. let e = g.find i in h.find i ∙ ground arith;
  known_is = λ i. let e = g.known_is i in h.known_is i ∙ ground arith;
  more = g.more ++ h.more;
  queue = h.queue ∙ append_assoc rest g.more h.more;
  free = λ a. h.free (g.free a);
  same_id = h.same_id ∙ g.same_id;
}

disconnect_each-Gone :
    (ids : List ℕ) (v : Server) (rest : List ℕ)
    → IsServing v.world
    → v.world.disconnect_queue ≡ ids ++ rest
    → Gone v ids rest (disconnect_each (length ids) v)
unfolding disconnect_each
disconnect_each-Gone [] v rest k q =
    let e : v.world.disconnect_queue ≡ rest = q in rw (← e) (Gone-nobody v k)
disconnect_each-Gone (id ∷ ids) v rest k q =
    let g = disconnect_one-Gone v id (ids ++ rest) k q in
    let next =
      disconnect_each-Gone ids g.server (rest ++ g.more) g.serving
        (g.queue ∙ append_assoc ids rest g.more) in
    let first : (front v.world.disconnect_queue >>= λ i.
    disconnect_one v i >>= λ v'. disconnect_each (length ids) v')
        ≡ (disconnect_one v id >>= λ v'. disconnect_each (length ids) v') =
      ap (λ o. o >>= λ i. disconnect_one v i >>= λ v'. disconnect_each (length ids) v')
        (ap front q) in
    rw first (Gone-then (disconnect_each (length ids)) id ids rest g next)

-- On a server that serves Disconnect_Session returns, and the server still serves. Exactly the sessions
-- that were queued when it started, and their characters, are gone; who was queued meanwhile, because
-- the packets that tell of them found a send buffer full, waits for the next call.
pub disconnect_session-Gone :
    (v : Server) → IsServing v.world → Gone v v.world.disconnect_queue [] (disconnect_session v)
unfolding disconnect_session
disconnect_session-Gone v k =
    disconnect_each-Gone v.world.disconnect_queue v [] k (sym (append-nil v.world.disconnect_queue))
