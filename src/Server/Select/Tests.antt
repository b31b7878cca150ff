-- ===== src/Server/Select/Tests.antt =====
-- A server to which a client comes, sends bytes, closes or falls silent.
use simple_poject.Common.{
  ℕ, ◌+◌, ◌<◌, ◌≡◌, refl, sym, ap, ◌∙◌, inr, List, [], ◌∷◌, Bool, true, false, Option, none, some,
  arith, take, length-take, length,
}
use simple_poject.Common.Outcome.{Outcome, returned, ◌>>=◌}
use simple_poject.ProtocolBuffer.{ProtocolBuffer}
use simple_poject.World.{World, Session, find_sock, find_character, has}
use simple_poject.World.Lookup.{known}
use simple_poject.World.Tests.{session}
use simple_poject.World.Distinct.{find_session-find_sock}
use simple_poject.World.Packets.{IsPool}
use simple_poject.World.Serving.{IsServing}
use simple_poject.Update.Ended.{Over}
use simple_poject.Network.Receive.{proc_recv}
use simple_poject.Network.Receive.Loop.{Ends}
use simple_poject.Network.Receive.Kept.{IsBounded, proc_recv-Ends, proc_recv-closed}
use simple_poject.Server.{Server, Allocation, proc_accept, update_server, disconnect_session}
use simple_poject.Server.Accept.{standing, IsUp, IsAligned, Accepted, proc_accept-Accepted}
use simple_poject.Server.Disconnect.{Gone, disconnect_session-Gone}
use simple_poject.Server.Ended.{disconnect_session-Over}
use simple_poject.Server.Steps.{start, start-IsUp, Step, net, here, next, Reach-IsUp}
use simple_poject.Server.Select.{
  Slot, serve_write, serve_ready, serve_read, serve_slot, left_ready, then_slots, select_slots,
}
use simple_poject.Server.Select.Kept.{IsDocumented, listening, Finishes}
use simple_poject.Server.Select.Total.{select_slots-Finishes}

abbrev packet : ProtocolBuffer
packet = record {
  mem = λ q. 0;
  begin = 0;
  end = 4000;
  buf_size = 4000;
  write_pos = 0;
  read_pos = 0;
}

packet-IsPool : IsPool packet
packet-IsPool = record { valid = omega arith; size = refl }

abbrev blocks : Allocation
blocks = record {
  raw = session 0;
  recv_mem = λ q. 0;
  recv_begin = 8192;
  send_mem = λ q. 0;
  send_begin = 16384;
}

blocks-IsAligned : IsAligned blocks
blocks-IsAligned = record { recv_at = omega arith; send_at = omega arith }

new_sock : find_sock 7 (start packet).world.sessions ≡ none
unfolding find_sock start
new_sock = refl

id_left : (start packet).next_id + 1 < 4294967296
unfolding start
id_left = omega arith

-- A client has come on socket 7.
came : Accepted (start packet) 7 5 100 200 (proc_accept (start packet) (some 7) blocks 5 100 200)
came =
    proc_accept-Accepted (start packet) 7 blocks 5 100 200 (start-IsUp packet packet-IsPool)
      new_sock blocks-IsAligned id_left

proc_accept-Accepted_example :
    Accepted (start packet) 7 5 100 200 (proc_accept (start packet) (some 7) blocks 5 100 200)
proc_accept-Accepted_example =
    proc_accept-Accepted (start packet) 7 blocks 5 100 200 (start-IsUp packet packet-IsPool)
      new_sock blocks-IsAligned id_left

-- A MOVE_START packet and a byte more, as much of them as there is room for.
abbrev arriving : ℕ → Option (List ℕ)
arriving n = some (take n (137 ∷ 5 ∷ 10 ∷ 4 ∷ 100 ∷ 0 ∷ 200 ∷ 0 ∷ 137 ∷ []))

some_list_injective : {a b : List ℕ} → some a ≡ some b → a ≡ b
some_list_injective {a} h = ap (λ o. elim o [ none ↦ a | some b ↦ b ]) h

arriving-IsBounded : IsBounded arriving
arriving-IsBounded n bytes h = omega (
  arith,
  ap length (some_list_injective h),
  length-take {A = ℕ} n (137 ∷ 5 ∷ 10 ∷ 4 ∷ 100 ∷ 0 ∷ 200 ∷ 0 ∷ 137 ∷ []),
)

-- The listening socket, at which the client waits.
abbrev listener : Slot
listener = record {
  sock = 1;
  listens = true;
  in_write = false;
  in_read = true;
  now = 5;
  send = λ bytes. none;
  recv = arriving;
  accept = λ ss. elim (find_sock 7 ss) [ none ↦ some 7 | some s ↦ none ];
  allocation = blocks;
  rand_x = 100;
  rand_y = 200;
}

accepting :
    (sock : ℕ) (o : Option Session)
    → ◌≡◌ {A = Option ℕ} (elim o [ none ↦ some 7 | some s ↦ none ]) (some sock)
    → (7 ≡ sock) × (o ≡ none)
accepting sock none h = (ap (λ p. elim p [ none ↦ 7 | some n ↦ n ]) h, refl)
accepting sock (some s) h = cc

listener-IsDocumented : IsDocumented listener
listener-IsDocumented = record {
  recv = arriving-IsBounded;
  accept = λ ss sock h.
      let (e, f) = accepting sock (find_sock 7 ss) h in ap (λ i. find_sock i ss) (sym e) ∙ f;
  allocation = blocks-IsAligned;
}

came-Step : Step 2731 (start packet) came.server
unfolding select_slots serve_slot serve_write serve_read serve_ready then_slots left_ready find_sock
    start
came-Step = net 1 (listener ∷ []) (
    ap
      (λ (o : Outcome (Bool × Server)).
        then_slots (select_slots 2731 0 []) (some (o >>= λ (_, v). returned v)))
      came.runs)

Reach-IsUp_example : IsUp came.server
unfolding came-Step
Reach-IsUp_example =
    Reach-IsUp 2731 packet packet-IsPool (omega arith) (next here came-Step)
      (tt, ((listener-IsDocumented, listening refl refl, tt), id_left))

select_slots-Finishes_example :
    Finishes 2731
      (listener ∷ [])
      (start packet)
      1
      (select_slots 2731 1 (listener ∷ []) (start packet))
select_slots-Finishes_example =
    select_slots-Finishes 2731 1 (listener ∷ []) (start packet) (start-IsUp packet packet-IsPool)
      (listener-IsDocumented, listening refl refl, tt) (omega arith) id_left

client : find_sock 7 came.server.world.sessions ≡ some came.session.0
client =
    let (s, found, at, _, _) = came.session in
    ap (λ i. find_sock i came.server.world.sessions) (sym at)
    ∙ find_session-find_sock _ came.server.world.sessions came.up.serving.sound.socks_once found

proc_recv-Ends_example : Ends came.server.world (proc_recv 2731 came.server.world 7 9 arriving)
proc_recv-Ends_example =
    proc_recv-Ends 2731 came.server.world 7 9 arriving came.up.serving client arriving-IsBounded
      (omega arith)

abbrev closing : ℕ → Option (List ℕ)
closing n = some []

-- The client has closed.
closed :
    (w' : World) × (proc_recv 1 came.server.world 7 9 closing ≡ some (returned w'))
    × IsServing w'
    × (has came.session.0.session_id w'.disconnect_queue ≡ true)
closed = proc_recv-closed 1 came.server.world 7 9 closing came.up.serving client (λ n. inr refl)

proc_recv-closed_example :
    (w' : World) × (proc_recv 1 came.server.world 7 9 closing ≡ some (returned w'))
    × IsServing w'
    × (has came.session.0.session_id w'.disconnect_queue ≡ true)
proc_recv-closed_example =
    proc_recv-closed 1 came.server.world 7 9 closing came.up.serving client (λ n. inr refl)

abbrev leaving : Server
leaving = record came.server { world = closed.0 }

disconnect_session-Gone_example :
    Gone leaving leaving.world.disconnect_queue [] (disconnect_session leaving)
disconnect_session-Gone_example = disconnect_session-Gone leaving closed.2

-- The client has said nothing for 40 seconds when a frame is due.
abbrev silent : Server
silent = record came.server { logic_timer = 30 }

silent-IsUp : IsUp silent
silent-IsUp = record {
  serving = came.up.serving;
  free = came.up.free;
  from_one = came.up.from_one;
  used = came.up.used;
}

silent-Over : Over silent.world 40005 1
unfolding start
silent-Over = record {
  character = standing 1 100 200;
  session = came.session.0;
  found = came.character;
  found_session = came.session.1;
  over = let (s, _, _, _, time) = came.session in ground (arith, time);
}

disconnect_session-Over_example :
    (u : Server) × (w : Server) × (update_server silent 15 40005 ≡ returned u)
    × (disconnect_session u ≡ returned w)
    × IsUp w
    × (known 1 w.world.sessions ≡ false)
    × (find_character 1 w.world.characters ≡ none)
disconnect_session-Over_example =
    disconnect_session-Over silent 15 40005 1 silent-IsUp refl silent-Over
