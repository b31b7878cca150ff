-- ===== src/Server/Steps.antt =====
-- The main loop of main.cpp in CppProject/22.10.10 - MMO TCPFighter Server as steps: ProcessNetIO calls
-- SelectSocket for one table of sockets after the other, then come Update and Disconnect_Session. The
-- steps are taken in any order.
use simple_poject.Common.{ℕ, ◌+◌, ◌*◌, ◌<◌, ◌≡◌, refl, sym, ◌∙◌, List, [], some, arith, length}
use simple_poject.Common.Outcome.{Outcome, returned, returned_injective}
use simple_poject.ProtocolBuffer.{ProtocolBuffer}
use simple_poject.World.{find_character, find_session, has}
use simple_poject.World.Lookup.{known}
use simple_poject.World.Distinct.{distinct}
use simple_poject.World.Packets.{IsPool}
use simple_poject.World.Serving.{Evolved-IsServing}
use simple_poject.Update.Kept.{update-Framed}
use simple_poject.Server.{Server, update_server, disconnect_session}
use simple_poject.Server.Disconnect.{Gone, disconnect_session-Gone}
use simple_poject.Server.Accept.{IsUp}
use simple_poject.Server.Select.{Slot, select_slots}
use simple_poject.Server.Select.Kept.{Finishes-Goes}
use simple_poject.Server.Select.Total.{AllServed, select_slots-Finishes}

-- The server before anybody has come.
unfoldable pub start : ProtocolBuffer → Server
start p = record {
  world = record {
    characters = [];
    sectors = λ y x. [];
    sessions = [];
    disconnect_queue = [];
    pool_packet = p;
  };
  next_id = 1;
  pool_session = [];
  logic_timer = 0;
}

-- A call that has returned.
pub data Step (fuel : ℕ) (v v' : Server) : Type 0 where
  net :
      (ready : ℕ) (ks : List Slot)
      → select_slots fuel ready ks v ≡ some (returned v')
      → Step fuel v v'
  frame :
      (delta_time logic_cur_time : ℕ)
      → update_server v delta_time logic_cur_time ≡ returned v'
      → Step fuel v v'
  disconnect : disconnect_session v ≡ returned v' → Step fuel v v'

pub data Reach (fuel : ℕ) (v : Server) : Server → Type 0 where
  here : Reach fuel v v
  next : {u w : Server} → Reach fuel v u → Step fuel u w → Reach fuel v w

-- What is assumed of a step: each place of the table that SelectSocket gets is the listening socket, which
-- nothing is sent on, or one that has a session, the calls on it do what they are documented to do, and
-- the ids that may be handed out, one for each place, are below 2 ^ 32.
abbrev pub Assumed : {fuel : ℕ} {v v' : Server} → Step fuel v v' → Type 0
Assumed {v = v} (net ready ks e) = AllServed v ks × (v.next_id + length ks < 4294967296)
Assumed (frame delta now e) = Unit
Assumed (disconnect e) = Unit

-- The same of all steps of a run.
abbrev pub AllAssumed : {fuel : ℕ} {u v : Server} → Reach fuel u v → Type 0
AllAssumed here = Unit
AllAssumed (next r s) = AllAssumed r × Assumed s

pub start-IsUp : (p : ProtocolBuffer) → IsPool p → IsUp (start p)
unfolding start known find_character find_session has distinct
start-IsUp p pool = record {
  serving = record {
    consistent = record {
      pool = pool;
      placed = λ id c e. cc;
      listed = λ id c e. cc;
      served = λ id c e. cc;
      members = λ y x id h. cc;
    };
    sound = record {
      ids_once = refl;
      socks_once = refl;
      buffers = λ id s e. cc;
      queue_once = refl;
      queued = λ id h. cc;
      flagged = λ id s e f. cc;
    };
    hosted = λ id h. cc;
  };
  free = tt;
  from_one = omega arith;
  used = λ id h. cc;
}

-- On a server that is up Update returns, and the server is up afterwards.
pub update_server-IsUp :
    (v : Server) (delta_time logic_cur_time : ℕ)
    → IsUp v
    → (v' : Server) × (update_server v delta_time logic_cur_time ≡ returned v') × IsUp v'
unfolding update_server
update_server-IsUp v delta now up =
    let (timer, f) = update-Framed v.world v.logic_timer delta now up.serving.consistent in
    (
      record v { world = f.world; logic_timer = timer },
      rw f.runs refl,
      record {
        serving =
            Evolved-IsServing
              (record { consistent = f.consistent; lasting = f.lasting; hosts = f.same_characters })
              up.serving;
        free = up.free;
        from_one = up.from_one;
        used = λ id h. up.used id (sym (f.lasting.sessions id) ∙ h);
      },
    )

pub Gone-IsUp :
    {v : Server} {ids rest : List ℕ} {o : Outcome Server}
    → IsUp v
    → (g : Gone v ids rest o) → IsUp g.server
Gone-IsUp up g = record {
  serving = g.serving;
  free = g.free up.free;
  from_one = rw g.same_id up.from_one;
  used = λ id h. let e = g.known_is id in let k = up.used id (ground arith) in rw g.same_id k;
}

-- Each step that has returned leaves a server that is up.
Step-IsUp :
    (fuel : ℕ) {v v' : Server}
    → 8191 < 3 * fuel
    → (s : Step fuel v v') → Assumed s
    → IsUp v
    → IsUp v'
Step-IsUp fuel {v} {v'} enough (net ready ks e) (a, left) up =
    let f = select_slots-Finishes fuel ready ks v up a enough left in (Finishes-Goes f e).up
Step-IsUp fuel {v} {v'} enough (frame delta now e) left up =
    let (u, runs, k) = update_server-IsUp v delta now up in
    let is : u ≡ v' = returned_injective (sym runs ∙ e) in rw (← is) k
Step-IsUp fuel {v} {v'} enough (disconnect e) left up =
    let g = disconnect_session-Gone v up.serving in
    let is : g.server ≡ v' = returned_injective (sym g.runs ∙ e) in rw (← is) (Gone-IsUp up g)

-- With a valid buffer of 4000 bytes in the pool, and with fuel for the packets of a full buffer: whatever
-- steps that return the server has taken since its start, it is up, as long as each call of SelectSocket
-- starts with ids below 2 ^ 32 left for all places of its table, each of these is the listening socket, which
-- nothing is sent on, or one that has a session, and the calls on the sockets do what they are documented
-- to do. That the server is up means: characters, sectors and sessions agree, every session has its character, the maps hold no
-- socket and no id twice, all buffers are valid, and the queue holds the flagged sessions, each once.
pub Reach-IsUp :
    (fuel : ℕ) (p : ProtocolBuffer) {v : Server}
    → IsPool p
    → 8191 < 3 * fuel
    → (r : Reach fuel (start p) v) → AllAssumed r
    → IsUp v
Reach-IsUp fuel p pool enough here fine = start-IsUp p pool
Reach-IsUp fuel p pool enough (next r s) (before, fine) =
    Step-IsUp fuel enough s fine (Reach-IsUp fuel p pool enough r before)
