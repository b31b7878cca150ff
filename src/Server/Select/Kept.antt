-- ===== src/Server/Select/Kept.antt =====
-- SelectSocket of Server.cpp in CppProject/22.10.10 - MMO TCPFighter Server on a server that is up: what a
-- call for one place of the table leaves, or why it does not return.
use simple_poject.Common.{
  ℕ, ◌+◌, ◌*◌, ◌≤◌, ◌<◌, ◌≡◌, ◌≢◌, refl, sym, ap, ◌∙◌, List, ◌∷◌, true, false, Option, none, some,
  arith,
}
use mathlib.Core.List.{Memᴰ}
use mathlib.Core.List.Memᴰ.{head, tail}
use simple_poject.Common.Outcome.{Outcome, returned, thrown, undefined, ◌>>=◌, returned_injective}
use simple_poject.World.{World, Session, find_sock}
use simple_poject.World.Sessions.{Stays, Stays-socks}
use simple_poject.World.Serving.{IsServing}
use simple_poject.Network.Receive.{proc_recv}
use simple_poject.Network.Receive.Kept.{IsBounded, proc_recv-Ends}
use simple_poject.Network.Receive.Failing.{IsFatal, throws, breaks, Failing, proc_recv-Failing}
use simple_poject.Server.{Server, proc_accept}
use simple_poject.Server.Accept.{IsUp, IsAligned, proc_accept-Accepted}
use simple_poject.Server.Select.{Slot, in_server}

-- What the calls on a socket are documented to do: recv keeps to the room that it is given, accept gives
-- a socket that is not in use, and new blocks are aligned.
pub record IsDocumented (k : Slot) : Type 0 where
  pub recv : IsBounded k.recv
  pub accept : (ss : List Session) (sock : ℕ) → k.accept ss ≡ some sock → find_sock sock ss ≡ none
  pub allocation : IsAligned k.allocation

-- A place of the table is the listening socket, or there is a session for it.
pub data Served (v : Server) (k : Slot) : Type 0 where
  listening : k.listens ≡ true → k.in_write ≡ false → Served v k
  connected :
      (s : Session) → k.listens ≡ false → find_sock k.sock v.world.sessions ≡ some s → Served v k

-- What a call leaves: a server that is up, in which every socket still has its session, and at most one id
-- more is used.
pub record Goes (v v' : Server) (n : ℕ) : Type 0 where
  pub up : IsUp v'
  pub socks :
      (sock : ℕ) (s : Session)
      → find_sock sock v.world.sessions ≡ some s
      → (s' : Session) × (find_sock sock v'.world.sessions ≡ some s')
  pub next : v'.next_id ≤ v.next_id + n

pub Goes-Stays :
    {v : Server} {w : World}
    → IsUp v
    → IsServing w
    → Stays v.world w
    → Goes v (record v { world = w }) 0
Goes-Stays {v} {w} up k s = record {
  up = record {
    serving = k;
    free = up.free;
    from_one = up.from_one;
    used = λ id h. up.used id (sym (s.same_ids id) ∙ h);
  };
  socks = Stays-socks up.serving.sound k.sound s;
  next = omega arith;
}

pub Goes-trans : {u v w : Server} {m n : ℕ} → Goes u v m → Goes v w n → Goes u w (m + n)
Goes-trans a b = record {
  up = b.up;
  socks = λ sock s e. let (t, f) = a.socks sock s e in b.socks sock t f;
  next = let p = a.next in let q = b.next in omega arith;
}

pub Goes-refl : {v : Server} → IsUp v → Goes v v 0
Goes-refl up = record { up = up; socks = λ sock s e. (s, e); next = omega arith }

pub Goes-more : {v v' : Server} {m : ℕ} (n : ℕ) → m ≤ n → Goes v v' m → Goes v v' n
Goes-more n h g = record { up = g.up; socks = g.socks; next = let p = g.next in omega arith }

-- How what ProcRecv does shows in SelectSocket, where it does not return.
pub data SameFailure : Outcome World → Outcome Server → Type 0 where
  both_throw : SameFailure thrown thrown
  both_break : SameFailure undefined undefined

-- Why the call does not return: ProcRecv was called for a place that was ready to read, on a socket that has its
-- session, on a server that was up, and the packets of the bytes that have come for this session have
-- failed.
pub record Culprit (fuel : ℕ) (ks : List Slot) (v : Server) (n : ℕ) (o : Outcome Server)
    : Type 0 where
  pub slot : Slot
  pub listed : Memᴰ slot ks
  pub in_read : slot.in_read ≡ true
  pub client : slot.listens ≡ false
  pub before : Server
  pub goes : Goes v before n
  pub cause : Outcome World
  pub same : SameFailure cause o
  pub failing : Failing fuel before.world slot.sock slot.now slot.recv cause

-- The call returns and has left a server that is up, or a client's bytes have failed.
pub data Finishes (fuel : ℕ) (ks : List Slot) (v : Server) (n : ℕ) (e : Option (Outcome Server))
    : Type 0 where
  returns : (v' : Server) → e ≡ some (returned v') → Goes v v' n → Finishes fuel ks v n e
  fails : {o : Outcome Server} → Culprit fuel ks v n o → e ≡ some o → Finishes fuel ks v n e

some_outcome_injective : {o o' : Outcome Server} → some o ≡ some o' → o ≡ o'
some_outcome_injective {o} h = ap (λ q. elim q [ none ↦ o | some r ↦ r ]) h

not_returned :
    {cause : Outcome World} {o : Outcome Server} {v' : Server}
    → SameFailure cause o
    → o ≢ returned v'
not_returned both_throw h = cc
not_returned both_break h = cc

-- The same place of another table, seen from another server.
Culprit-moved :
    {fuel : ℕ} {ks ls : List Slot} {u v : Server} {m n : ℕ} {o : Outcome Server}
    (c : Culprit fuel ks v m o)
    → Memᴰ c.slot ls
    → Goes u c.before n
    → Culprit fuel ls u n o
Culprit-moved c listed goes = record {
  slot = c.slot;
  listed = listed;
  in_read = c.in_read;
  client = c.client;
  before = c.before;
  goes = goes;
  cause = c.cause;
  same = c.same;
  failing = c.failing;
}

module _ {fuel : ℕ} {ks : List Slot} where
  pub Finishes-is :
      {v : Server} {n : ℕ} {e f : Option (Outcome Server)}
      → e ≡ f
      → Finishes fuel ks v n f
      → Finishes fuel ks v n e
  Finishes-is h (returns v' r g) = returns v' (h ∙ r) g
  Finishes-is h (fails c r) = fails c (h ∙ r)

  pub Finishes-after :
      {u v : Server} {m n : ℕ} {e : Option (Outcome Server)}
      → Goes u v m
      → Finishes fuel ks v n e
      → Finishes fuel ks u (m + n) e
  Finishes-after g (returns v' r g') = returns v' r (Goes-trans g g')
  Finishes-after g (fails c r) = fails (Culprit-moved c c.listed (Goes-trans g c.goes)) r

  pub Finishes-more :
      {v : Server} {m n : ℕ} {e : Option (Outcome Server)}
      → m ≤ n
      → Finishes fuel ks v m e
      → Finishes fuel ks v n e
  Finishes-more {n = n} h (returns v' r g) = returns v' r (Goes-more n h g)
  Finishes-more {n = n} h (fails c r) = fails (Culprit-moved c c.listed (Goes-more n h c.goes)) r

  -- A longer table.
  pub Finishes-longer :
      {v : Server} {n : ℕ} {e : Option (Outcome Server)} (k : Slot)
      → Finishes fuel ks v n e
      → Finishes fuel (k ∷ ks) v n e
  Finishes-longer k (returns v' r g) = returns v' r g
  Finishes-longer k (fails c r) = fails (Culprit-moved c (tail c.listed) c.goes) r

  -- What a call that has returned leaves.
  pub Finishes-Goes :
      {v v' : Server} {n : ℕ} {e : Option (Outcome Server)}
      → Finishes fuel ks v n e
      → e ≡ some (returned v')
      → Goes v v' n
  Finishes-Goes {v' = v'} (returns u r g) h =
      let is : u ≡ v' = returned_injective (some_outcome_injective (sym r ∙ h)) in rw (← is) g
  Finishes-Goes (fails c r) h = absurd (not_returned c.same (some_outcome_injective (sym r ∙ h)))

pub Served-Goes : {v v' : Server} {k : Slot} {n : ℕ} → Goes v v' n → Served v k → Served v' k
Served-Goes g (listening l w) = listening l w
Served-Goes {k = k} g (connected s l e) = let (t, f) = g.socks k.sock s e in connected t l f

-- ProcRecv for a place that is ready to read and has a session.
pub proc_recv-Finishes :
    (fuel : ℕ) (v : Server) (k : Slot) (ks : List Slot) {s : Session}
    → IsUp v
    → IsDocumented k
    → k.in_read ≡ true
    → k.listens ≡ false
    → find_sock k.sock v.world.sessions ≡ some s
    → 8191 < 3 * fuel
    → Finishes fuel (k ∷ ks) v 0 (in_server v (proc_recv fuel v.world k.sock k.now k.recv))
unfolding in_server
proc_recv-Finishes fuel v k ks up d ready client at enough =
    let (o, ends, l) =
      proc_recv-Ends fuel v.world k.sock k.now k.recv up.serving at d.recv enough in
    by_outcome o ends l
  where
    failed_by :
        {cause : Outcome World} {o : Outcome Server}
        → SameFailure cause o
        → IsFatal cause
        → proc_recv fuel v.world k.sock k.now k.recv ≡ some cause
        → Culprit fuel (k ∷ ks) v 0 o
    failed_by {cause} same fatal ends = record {
      slot = k;
      listed = head refl;
      in_read = ready;
      client = client;
      before = v;
      goes = Goes-refl up;
      cause = cause;
      same = same;
      failing = proc_recv-Failing fuel v.world k.sock k.now k.recv up.serving at ends fatal;
    }

    by_outcome :
        (o : Outcome World)
        → proc_recv fuel v.world k.sock k.now k.recv ≡ some o
        → ((w : World) → o ≡ returned w → IsServing w × Stays v.world w)
        → Finishes fuel (k ∷ ks) v 0 (in_server v (proc_recv fuel v.world k.sock k.now k.recv))
    by_outcome (returned w) ends l =
        let (serving, stays) = l w refl in
        returns (record v { world = w }) (rw ends refl) (Goes-Stays up serving stays)
    by_outcome thrown ends l = fails (failed_by both_throw throws ends) (rw ends refl)
    by_outcome undefined ends l = fails (failed_by both_break breaks ends) (rw ends refl)

pub accepted-Finishes :
    {fuel : ℕ} {ks : List Slot} (v : Server) (k : Slot) (got : Option ℕ)
    → IsUp v
    → IsDocumented k
    → ((sock : ℕ) → got ≡ some sock → find_sock sock v.world.sessions ≡ none)
    → v.next_id + 1 < 4294967296
    → Finishes fuel ks v 1
        (some (proc_accept v got k.allocation k.now k.rand_x k.rand_y >>= λ (_, v'). returned v'))
unfolding proc_accept
accepted-Finishes v k none up d new left = returns v refl (Goes-more 1 (omega arith) (Goes-refl up))
accepted-Finishes v k (some sock) up d new left =
    let a =
      proc_accept-Accepted v sock k.allocation k.now k.rand_x k.rand_y up (new sock refl)
        d.allocation left in
    let g : Goes v a.server 1 = record {
      up = a.up;
      socks = a.socks;
      next = let e = a.id_after in omega arith;
    } in
    returns a.server (rw a.runs refl) g
