-- ===== src/Server/Select.antt =====
-- SelectSocket of Server.cpp in CppProject/22.10.10 - MMO TCPFighter Server. What select and the calls on
-- the sockets say are parameters.
pub mod Kept
pub mod Total
pub mod Tests
use simple_poject.Common.{
  ℕ, zero, suc, ◌+◌, ◌-◌, List, [], ◌∷◌, Bool, true, false, Option, none, some, if◌then◌else◌,
}
use simple_poject.Common.Outcome.{Outcome, returned, thrown, undefined, ◌>>=◌}
use simple_poject.World.{World, Session}
use simple_poject.Network.Send.{proc_send}
use simple_poject.Network.Receive.{proc_recv}
use simple_poject.Server.{Server, Allocation, proc_accept}

-- A place of the table of sockets that is not INVALID_SOCKET, with what select says of it, and what the
-- calls on it find: the time, what send, recv and accept do, the last of which knows the sockets that
-- are in use, and the rest of what ProcAccept asks for.
pub record Slot : Type 0 where
  pub sock : ℕ
  pub listens : Bool
  pub in_write : Bool
  pub in_read : Bool
  pub now : ℕ
  pub send : List ℕ → Option ℕ
  pub recv : ℕ → Option (List ℕ)
  pub accept : List Session → Option ℕ
  pub allocation : Allocation
  pub rand_x : ℕ
  pub rand_y : ℕ

-- A call that has gone on to its end, in the server around the world; `fuel` is for ProcRecv.
pub in_server : Server → Option (Outcome World) → Option (Outcome Server)
in_server v none = none
in_server v (some o) = some (o >>= λ w. returned (record v { world = w }))

-- FD_ISSET of p_WriteSet
pub serve_write : Server → Slot → Outcome (Bool × Server)
serve_write v k =
    if k.in_write
    then (proc_send v.world k.sock k.send >>= λ (ret, w). returned (ret, record v { world = w }))
    else returned (true, v)

-- The branches behind procFlag.
pub serve_ready : ℕ → Server → Slot → Option (Outcome Server)
serve_ready fuel v k =
    if k.listens
    then some (
        proc_accept v (k.accept v.world.sessions) k.allocation k.now k.rand_x k.rand_y
        >>= λ (_, v'). returned v')
    else in_server v (proc_recv fuel v.world k.sock k.now k.recv)

-- FD_ISSET of p_ReadSet, on what the first test has left.
pub serve_read : ℕ → Slot → Outcome (Bool × Server) → Option (Outcome Server)
serve_read fuel k (returned (proc_flag, v)) =
    if k.in_read
    then if proc_flag then serve_ready fuel v k else some (returned v)
    else some (returned v)
serve_read fuel k thrown = some thrown
serve_read fuel k undefined = some undefined

pub serve_slot : ℕ → Server → Slot → Option (Outcome Server)
unfolding serve_write serve_read
serve_slot fuel v k = serve_read fuel k (serve_write v k)

-- --retSelect for each set that a place is in.
pub left_ready : ℕ → Slot → ℕ
left_ready ready k =
    let ready = if k.in_write then ready - 1 else ready in if k.in_read then ready - 1 else ready

pub then_slots :
    (Server → Option (Outcome Server)) → Option (Outcome Server) → Option (Outcome Server)
then_slots next none = none
then_slots next (some (returned v)) = next v
then_slots next (some thrown) = some thrown
then_slots next (some undefined) = some undefined

-- The loop, while some are ready.
pub select_slots : ℕ → ℕ → List Slot → Server → Option (Outcome Server)
unfolding serve_slot left_ready then_slots
select_slots fuel ready [] v = some (returned v)
select_slots fuel zero (k ∷ ks) v = some (returned v)
select_slots fuel (suc n) (k ∷ ks) v =
    then_slots (select_slots fuel (left_ready (suc n) k) ks) (serve_slot fuel v k)
