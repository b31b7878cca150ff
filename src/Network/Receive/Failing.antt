-- ===== src/Network/Receive/Failing.antt =====
-- ProcRecv of Server.cpp in CppProject/22.10.10 - MMO TCPFighter Server where it does not return.
use simple_poject.Common.{ℕ, ◌≡◌, ◌≢◌, refl, sym, ◌∙◌, List, [], ◌∷◌, Option, none, some}
use simple_poject.Common.Outcome.{Outcome, returned, thrown, undefined}
use simple_poject.RingBuffer.{direct_enqueue_size}
use simple_poject.World.{World, Session, find_session, find_sock}
use simple_poject.World.Distinct.{find_sock-find_session}
use simple_poject.World.Rewritten.{with_session}
use simple_poject.World.Serving.{IsServing}
use simple_poject.Network.Receive.{note_recv, received, take_bytes, handle_packets, proc_recv}
use simple_poject.Network.Receive.Kept.{note_recv-kept}

-- An outcome that is no return.
pub data IsFatal : Outcome World → Type 0 where
  throws : IsFatal thrown
  breaks : IsFatal undefined

-- The socket's session, which is there, and the bytes that have come for it, whose packets fail.
pub record Failing (fuel : ℕ) (w : World) (sock now : ℕ) (recv : ℕ → Option (List ℕ))
    (o : Outcome World) : Type 0 where
  pub session : Session
  pub connected : find_sock sock w.sessions ≡ some session
  pub noted : Session
  pub there : find_session session.session_id (note_recv w session now).sessions ≡ some noted
  pub bytes : List ℕ
  pub some_bytes : bytes ≢ []
  pub arrived : recv (direct_enqueue_size noted.recv_buf) ≡ some bytes
  pub fails :
      handle_packets fuel
        (with_session (note_recv w session now) (received noted bytes))
        noted.session_id
      ≡ some o

returned-ne : {w : World} {o : Outcome World} → IsFatal o → some (returned w) ≢ some o
returned-ne throws h = cc
returned-ne breaks h = cc

-- If ProcRecv of a socket that has a session does not return, the packets of bytes that have come for
-- this session have failed.
pub proc_recv-Failing :
    (fuel : ℕ) (w : World) (sock now : ℕ) (recv : ℕ → Option (List ℕ)) {s : Session}
    {o : Outcome World}
    → IsServing w
    → find_sock sock w.sessions ≡ some s
    → proc_recv fuel w sock now recv ≡ some o
    → IsFatal o
    → Failing fuel w sock now recv o
unfolding proc_recv take_bytes
proc_recv-Failing fuel w sock now recv {s} {o} k at runs fatal =
    let there = find_sock-find_session sock w.sessions k.sound.ids_once at in
    let (s', k', there', stays) = note_recv-kept w s now k there in
    let taken : take_bytes fuel (note_recv w s now) s' (recv (direct_enqueue_size s'.recv_buf))
        ≡ some o =
      let r : proc_recv fuel w sock now recv
          ≡ take_bytes fuel (note_recv w s now) s' (recv (direct_enqueue_size s'.recv_buf)) =
        rw (at, there') refl in
      sym r ∙ runs in
    by_bytes s' there' (recv (direct_enqueue_size s'.recv_buf)) refl taken
  where
    by_bytes :
        (s' : Session)
        → find_session s.session_id (note_recv w s now).sessions ≡ some s'
        → (got : Option (List ℕ)) → recv (direct_enqueue_size s'.recv_buf) ≡ got
        → take_bytes fuel (note_recv w s now) s' got ≡ some o
        → Failing fuel w sock now recv o
    by_bytes s' there' none e h = absurd (returned-ne fatal h)
    by_bytes s' there' (some []) e h = absurd (returned-ne fatal h)
    by_bytes s' there' (some (b ∷ bs)) e h = record {
      session = s;
      connected = at;
      noted = s';
      there = there';
      bytes = b ∷ bs;
      some_bytes = λ n. cc;
      arrived = e;
      fails = h;
    }
