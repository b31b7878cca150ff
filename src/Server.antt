-- ===== src/Server.antt =====
-- How sessions come and go: ProcAccept and Disconnect_Session of Server.cpp, with Session::Clear,
-- Session::Set and Get_SessionID of Session.cpp, in CppProject/22.10.10 - MMO TCPFighter Server.
-- accept, rand and the allocation of a new session are parameters.
pub mod Erase
pub mod Parting
pub mod Disconnect
pub mod Admit
pub mod Accept
pub mod Select
pub mod Steps
pub mod Ended
use simple_poject.Common.{
  ℕ, zero, suc, ◌+◌, ◌%◌, ◌^◌, List, [], ◌∷◌, Bool, true, false, Option, none, some, ◌==◌,
  if◌then◌else◌, length,
}
use simple_poject.Common.Memory.{Memory}
use simple_poject.Common.Outcome.{Outcome, returned, undefined, ◌>>=◌}
use simple_poject.RingBuffer.{init}
use simple_poject.RingBuffer
use simple_poject.Character.{Character, set, range_move_right, range_move_bottom}
use simple_poject.World.{
  World, Session, find_session, find_sock, find_character, deref, insert_sector, erase_sectors,
}
use simple_poject.Update.{update}
use simple_poject.Handler.{create_my_character, disconnect_character}

-- The world, the static `id` of Get_SessionID, the free sessions of pool_session, the last one freed
-- first, and Update's static logic_timer. The pool of the characters makes no difference: Clear and
-- Set write every field.
pub record Server : Type 0 where
  pub world : World
  pub next_id : ℕ
  pub pool_session : List Session
  pub logic_timer : ℕ

-- What `new` leaves of a session: the blocks of its ring buffers, which RingBuffer's constructor has
-- allocated, and whatever the other fields hold.
pub record Allocation : Type 0 where
  pub raw : Session
  pub recv_mem : Memory
  pub recv_begin : ℕ
  pub send_mem : Memory
  pub send_begin : ℕ

pub new_session : Allocation → Session
new_session a = record a.raw {
  recv_buf = init a.recv_mem a.recv_begin;
  send_buf = init a.send_mem a.send_begin;
  flag_disconnect = false;
}

-- pool_session.Alloc: the last session freed, or a new one.
pub alloc_session : List Session → Allocation → Session × List Session
alloc_session [] a = (new_session a, [])
alloc_session (s ∷ free) a = (s, free)

-- Session::Clear; the two fields that nothing reads are left out.
pub clear_session : Session → Session
clear_session s = record s {
  recv_buf = RingBuffer.clear s.recv_buf;
  send_buf = RingBuffer.clear s.send_buf;
  flag_disconnect = false;
}

-- Session::Set
pub set_fields : Session → ℕ → ℕ → ℕ → Session
set_fields s sock session_id last_recv_time = record s {
  sock = sock;
  session_id = session_id;
  last_recv_time = last_recv_time;
}

-- Get_SessionID: the id, and the static `id`, a DWORD, afterwards.
pub get_session_id : ℕ → ℕ × ℕ
get_session_id id = let id = if id == 0 then id + 1 else id in (id, (id + 1) % 2 ^ 32)

-- insert on the two maps does nothing where the key is there.
pub insert_session : Session → List Session → List Session
insert_session s ss = elim (find_sock s.sock ss) [ none ↦ s ∷ ss | some t ↦ ss ]

pub insert_character : Character → List Character → List Character
insert_character c cs = elim (find_character c.session_id cs) [ none ↦ c ∷ cs | some d ↦ cs ]

-- The character of a session: rand() % RANGE_MOVE_* as a UINT16 that becomes a short.
pub new_character : ℕ → ℕ → ℕ → Character
new_character session_id rand_x rand_y =
    set session_id (rand_x % range_move_right % 2 ^ 16) (rand_y % range_move_bottom % 2 ^ 16) 100

-- The world with the new session and its character in the maps.
pub admit : World → Session → Character → World
admit w s c = record w {
  sessions = insert_session s w.sessions;
  characters = insert_character c w.characters;
}

-- `accept` is none for INVALID_SOCKET.
pub proc_accept : Server → Option ℕ → Allocation → ℕ → ℕ → ℕ → Outcome (Bool × Server)
proc_accept v none a now rand_x rand_y = returned (false, v)
proc_accept v (some sock) a now rand_x rand_y = do
  let (p, free) = alloc_session v.pool_session a
  let (id, next) = get_session_id v.next_id
  let s = set_fields (clear_session p) sock id now
  let c = new_character id rand_x rand_y
  w ← insert_sector (admit v.world s c) c
  w ← create_my_character w c
  returned (true, record v { world = w; next_id = next; pool_session = free })

-- erase on the two maps, by their keys.
pub erase_sock : ℕ → List Session → List Session
erase_sock sock [] = []
erase_sock sock (s ∷ ss) =
    let rest = erase_sock sock ss in if s.sock == sock then rest else s ∷ rest

pub erase_character : ℕ → List Character → List Character
erase_character id [] = []
erase_character id (c ∷ cs) =
    let rest = erase_character id cs in if c.session_id == id then rest else c ∷ rest

-- disconnect_queue.pop()
abbrev pub pop : List ℕ → List ℕ
pop [] = []
pop (id ∷ ids) = ids

-- disconnect_queue.front()
abbrev pub front : List ℕ → Outcome ℕ
front [] = undefined
front (id ∷ ids) = returned id

-- One round of the loop, behind front. pool_session.Free takes the session as it is at the end.
pub disconnect_one : Server → ℕ → Outcome Server
disconnect_one v id = do
  s ← deref (find_session id v.world.sessions)
  c ← deref (find_character s.session_id v.world.characters)
  w ← erase_sectors v.world c
  w ← disconnect_character w c
  freed ← deref (find_session id w.sessions)
  returned (record v {
    world = record w {
      characters = erase_character c.session_id w.characters;
      sessions = erase_sock freed.sock w.sessions;
      disconnect_queue = pop w.disconnect_queue;
    };
    pool_session = freed ∷ v.pool_session;
  })

-- The loop, over as many as are queued when it starts.
pub disconnect_each : ℕ → Server → Outcome Server
disconnect_each zero v = returned v
disconnect_each (suc n) v =
    front v.world.disconnect_queue >>= λ id. disconnect_one v id >>= λ v'. disconnect_each n v'

pub disconnect_session : Server → Outcome Server
disconnect_session v = disconnect_each (length v.world.disconnect_queue) v

-- Update, with its static timer.
pub update_server : Server → ℕ → ℕ → Outcome Server
update_server v delta_time logic_cur_time =
    update v.world v.logic_timer delta_time logic_cur_time >>= λ (timer, w).
    returned (record v { world = w; logic_timer = timer })
