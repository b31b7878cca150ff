-- ===== src/Server/Select/Total.antt =====
-- The loop of SelectSocket of Server.cpp in CppProject/22.10.10 - MMO TCPFighter Server.
use simple_poject.Common.{
  ℕ, zero, suc, ◌+◌, ◌*◌, ◌<◌, ◌≡◌, refl, inl, inr, List, [], ◌∷◌, Bool, true, false, Option, some,
  arith, if◌then◌else◌, length, Bool-cases,
}
use simple_poject.Common.Outcome.{Outcome, returned}
use simple_poject.Network.Send.Kept.{proc_send-IsServing}
use simple_poject.World.{World}
use simple_poject.Server.{Server}
use simple_poject.Server.Accept.{IsUp}
use simple_poject.Server.Select.{
  Slot, serve_write, serve_ready, serve_read, serve_slot, left_ready, then_slots, select_slots,
}
use simple_poject.Server.Select.Kept.{
  IsDocumented, Served, listening, connected, Goes, Goes-refl, Goes-more, Goes-Stays, SameFailure,
  both_throw, both_break, Finishes, returns, fails, Finishes-is, Finishes-after, Finishes-more,
  Finishes-longer, Served-Goes, proc_recv-Finishes, accepted-Finishes,
}

serve_ready-Finishes :
    (fuel : ℕ) (v : Server) (k : Slot) (ks : List Slot)
    → IsUp v
    → IsDocumented k
    → Served v k
    → k.in_read ≡ true
    → 8191 < 3 * fuel
    → v.next_id + 1 < 4294967296
    → Finishes fuel (k ∷ ks) v 1 (serve_ready fuel v k)
unfolding serve_ready
serve_ready-Finishes fuel v k ks up d (listening l w) ready enough left =
    Finishes-is (rw l refl)
      (accepted-Finishes v k (k.accept v.world.sessions) up d (d.accept v.world.sessions) left)
serve_ready-Finishes fuel v k ks up d (connected s l e) ready enough left =
    Finishes-is (rw l refl)
      (Finishes-more {m = 0} (omega arith) (proc_recv-Finishes fuel v k ks up d ready l e enough))

-- What the first test has left.
record Wrote (v : Server) (o : Outcome (Bool × Server)) : Type 0 where
  flag : Bool
  server : Server
  runs : o ≡ returned (flag, server)
  goes : Goes v server 0

serve_write-Wrote : (v : Server) (k : Slot) → IsUp v → Served v k → Wrote v (serve_write v k)
unfolding serve_write
serve_write-Wrote v k up (listening l w) =
    rw w (record { flag = true; server = v; runs = refl; goes = Goes-refl up })
serve_write-Wrote v k up (connected s l e) = elim (Bool-cases k.in_write) [
  | inl ready ↦
      let (b, w, runs, serving, stays) = proc_send-IsServing v.world k.sock k.send up.serving e in
      rw (ready, runs)
        (record {
          flag = b;
          server = record v { world = w };
          runs = refl;
          goes = Goes-Stays up serving stays;
        })
  | inr idle ↦ rw idle (record { flag = true; server = v; runs = refl; goes = Goes-refl up })
]

if-Finishes :
    {fuel : ℕ} {ks : List Slot} {v : Server} {n : ℕ} {e f : Option (Outcome Server)} (b : Bool)
    → Finishes fuel ks v n e
    → Finishes fuel ks v n f
    → Finishes fuel ks v n (if b then e else f)
if-Finishes true x y = x
if-Finishes false x y = y

serve_read-Finishes :
    (fuel : ℕ) (v : Server) (k : Slot) (ks : List Slot) (flag : Bool)
    → IsUp v
    → IsDocumented k
    → Served v k
    → 8191 < 3 * fuel
    → v.next_id + 1 < 4294967296
    → Finishes fuel (k ∷ ks) v 1 (serve_read fuel k (returned (flag, v)))
unfolding serve_read
serve_read-Finishes fuel v k ks flag up d s enough left =
    let unchanged : Finishes fuel (k ∷ ks) v 1 (some (returned v)) =
      returns v refl (Goes-more 1 (omega arith) (Goes-refl up)) in
    elim (Bool-cases k.in_read) [
      | inl ready ↦
          let served =
            if-Finishes flag (serve_ready-Finishes fuel v k ks up d s ready enough left)
              unchanged in
          Finishes-is (rw ready refl) served
      | inr idle ↦ Finishes-is (rw idle refl) unchanged
    ]

-- One place of the table.
serve_slot-Finishes :
    (fuel : ℕ) (v : Server) (k : Slot) (ks : List Slot)
    → IsUp v
    → IsDocumented k
    → Served v k
    → 8191 < 3 * fuel
    → v.next_id + 1 < 4294967296
    → Finishes fuel (k ∷ ks) v 1 (serve_slot fuel v k)
unfolding serve_slot
serve_slot-Finishes fuel v k ks up d s enough left =
    let w = serve_write-Wrote v k up s in
    let g = w.goes in
    rw w.runs (
      Finishes-after g (
        serve_read-Finishes fuel w.server k ks w.flag g.up d (Served-Goes g s) enough
          (let n = g.next in omega arith)))

-- Each place of the table is as documented, and is served.
abbrev pub AllServed : Server → List Slot → Type 0
AllServed v [] = Unit
AllServed v (k ∷ ks) = IsDocumented k × Served v k × AllServed v ks

AllServed-Goes :
    {v v' : Server} {n : ℕ} (ks : List Slot) → Goes v v' n → AllServed v ks → AllServed v' ks
AllServed-Goes [] g a = a
AllServed-Goes (k ∷ ks) g (d, s, a) = (d, Served-Goes g s, AllServed-Goes ks g a)

then_slots-fails :
    {cause : Outcome World} {o : Outcome Server} (next : Server → Option (Outcome Server))
    → SameFailure cause o
    → then_slots next (some o) ≡ some o
unfolding then_slots
then_slots-fails next both_throw = refl
then_slots-fails next both_break = refl

then_slots-Finishes :
    {fuel : ℕ} {ks : List Slot} {v : Server} {n : ℕ} {e : Option (Outcome Server)}
    (next : Server → Option (Outcome Server))
    → Finishes fuel ks v 1 e
    → ((v' : Server) → Goes v v' 1 → Finishes fuel ks v' n (next v'))
    → Finishes fuel ks v (suc n) (then_slots next e)
unfolding then_slots
then_slots-Finishes {fuel} {ks} {v} {n} next (returns v' r g) f =
    let one : 1 + n ≡ suc n = omega arith in rw (← one, r) (Finishes-after g (f v' g))
then_slots-Finishes {n = n} next (fails c r) f =
    Finishes-more (omega arith) (fails c (rw r (then_slots-fails next c.same)))

-- On a server that is up SelectSocket comes to an end, however many places of the table it is told are
-- ready, if the calls on the sockets do what they are documented to do, each place is the listening
-- socket, which nothing is sent on, or one that has a session, there is fuel for the packets of a full
-- buffer, and there are ids for the places. Either it returns: then the server is up afterwards, every
-- socket that had a session still has one, and at most an id for each place is used. Or ProcRecv did
-- not return for a place that was ready to read: its socket had a session, the server was up until
-- then, and the packets of the bytes that recv has put for this session have failed in the same way.
pub select_slots-Finishes :
    (fuel ready : ℕ) (ks : List Slot) (v : Server)
    → IsUp v
    → AllServed v ks
    → 8191 < 3 * fuel
    → v.next_id + length ks < 4294967296
    → Finishes fuel ks v (length ks) (select_slots fuel ready ks v)
unfolding select_slots
select_slots-Finishes fuel ready [] v up a enough left = returns v refl (Goes-refl up)
select_slots-Finishes fuel zero (k ∷ ks) v up a enough left =
    returns v refl (Goes-more (length (k ∷ ks)) (omega arith) (Goes-refl up))
select_slots-Finishes fuel (suc n) (k ∷ ks) v up (d, s, a) enough left =
    then_slots-Finishes (select_slots fuel (left_ready (suc n) k) ks)
      (serve_slot-Finishes fuel v k ks up d s enough (omega arith))
      (λ v' g. Finishes-longer k (
        select_slots-Finishes fuel (left_ready (suc n) k) ks v' g.up (AllServed-Goes ks g a) enough
          (let m = g.next in omega arith)))
