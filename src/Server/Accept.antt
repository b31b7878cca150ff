-- ===== src/Server/Accept.antt =====
-- ProcAccept of Server.cpp in CppProject/22.10.10 - MMO TCPFighter Server on a server that goes on.
use simple_poject.Common.{
  ℕ, ◌+◌, ◌/◌, ◌%◌, ◌≤◌, ◌<◌, ◌≡◌, refl, sym, ap, ◌∙◌, inl, inr, List, [], ◌∷◌, Bool, true, false,
  ◌||◌, none, some, arith, ◌==◌, if◌then◌else◌, Bool-cases,
}
use simple_poject.Common.Outcome.{Outcome, returned}
use simple_poject.RingBuffer.Bounds.{IsValid, init-IsValid, clear-IsValid, get_use_size-clear}
use simple_poject.RingBuffer.{get_use_size}
use simple_poject.Character.{Character}
use simple_poject.Character.Movement.{Placed, set-Placed, set-id, set-inside}
use simple_poject.World.{World, Session, find_character, find_session, find_sock}
use simple_poject.World.Lookup.{known}
use simple_poject.World.Frame.{Sent}
use simple_poject.World.Sessions.{Lasting-Stays, Stays-socks}
use simple_poject.World.Serving.{IsServing, Evolved-Sent, Evolved-IsServing}
use simple_poject.Handler.Sends.{create_my_character-Sends}
use simple_poject.Server.{
  Server, Allocation, new_session, alloc_session, clear_session, set_fields, get_session_id,
  new_character, proc_accept,
}
use simple_poject.Server.Admit.{Newcomer, joined, joined-IsServing, admit-joined}
use simple_poject.Server.Disconnect.{IsFree}

-- The server between two steps: it serves, its free sessions have valid buffers, and Get_SessionID has
-- handed out no id that is still to come.
pub record IsUp (v : Server) : Type 0 where
  pub serving : IsServing v.world
  pub free : IsFree v.pool_session
  pub from_one : 1 ≤ v.next_id
  pub used : (id : ℕ) → known id v.world.sessions ≡ true → id < v.next_id

-- What _aligned_malloc is asked for: blocks at multiples of BUF_SIZE.
pub record IsAligned (a : Allocation) : Type 0 where
  pub recv_at : a.recv_begin % 8192 ≡ 0
  pub send_at : a.send_begin % 8192 ≡ 0

new_character-Placed : (id rand_x rand_y : ℕ) → Placed (new_character id rand_x rand_y)
unfolding new_character
new_character-Placed id rx ry = set-Placed id _ _ 100 (omega arith) (omega arith)

new_character-id : (id rand_x rand_y : ℕ) → (new_character id rand_x rand_y).session_id ≡ id
unfolding new_character
new_character-id id rx ry = set-id id _ _ 100

alloc_session-IsValid :
    (free : List Session) (a : Allocation)
    → IsFree free
    → IsAligned a
    → let (s, left) = alloc_session free a in IsValid s.recv_buf × IsValid s.send_buf × IsFree left
unfolding alloc_session new_session
alloc_session-IsValid [] a f al = (
  init-IsValid a.recv_mem a.recv_begin al.recv_at,
  init-IsValid a.send_mem a.send_begin al.send_at,
  f,
)
alloc_session-IsValid (s ∷ free) a f al = f

get_session_id-next : (id : ℕ) → 1 ≤ id → id + 1 < 4294967296 → get_session_id id ≡ (id, id + 1)
unfolding get_session_id
get_session_id-next id h k =
    let e : (if id == 0 then id + 1 else id) ≡ id = ground arith in
    rw e (ap (λ (n : ℕ). (id, n)) (omega arith))

-- The session that has come in, behind Clear and Set.
abbrev entering : Session → ℕ → ℕ → ℕ → Session
entering p sock id now = set_fields (clear_session p) sock id now

entering-Newcomer :
    {v : Server} (p : Session) (sock now rand_x rand_y : ℕ)
    → IsUp v
    → find_sock sock v.world.sessions ≡ none
    → IsValid p.recv_buf × IsValid p.send_buf
    → Newcomer v.world (entering p sock v.next_id now) (new_character v.next_id rand_x rand_y)
unfolding set_fields clear_session
entering-Newcomer {v} p sock now rx ry up new valid = record {
  serving = up.serving;
  new_id = elim (Bool-cases (known v.next_id v.world.sessions)) [
    | inl there ↦ let below = up.used v.next_id there in ground arith
    | inr absent ↦ absent
  ];
  new_sock = new;
  same_id = new_character-id v.next_id rx ry;
  placed = new_character-Placed v.next_id rx ry;
  buffers = (clear-IsValid valid.0, clear-IsValid valid.1);
  clear = refl;
}

-- A character with 100 hp that stands still at the place, looks to the right, and has its home sector.
abbrev pub standing : ℕ → ℕ → ℕ → Character
standing id x y = record {
  session_id = id;
  action = 8;
  dir = 4;
  x = x;
  y = y;
  cur_sector = record { x = x / 200; y = y / 200 };
  old_sector = record { x = 4294967294; y = 4294967294 };
  hp = 100;
}

-- A client has come in: it has the next id, its socket, the time, and nothing received; its character stands still
-- at the remainders of the two numbers by 6400, and nobody else has changed.
pub record Accepted (v : Server) (sock now rand_x rand_y : ℕ) (o : Outcome (Bool × Server))
    : Type 0 where
  pub server : Server
  pub runs : o ≡ returned (true, server)
  pub up : IsUp server
  pub id_after : server.next_id ≡ v.next_id + 1
  pub character :
      find_character v.next_id server.world.characters
      ≡ some (standing v.next_id (rand_x % 6400) (rand_y % 6400))
  pub others :
      (i : ℕ)
      → (v.next_id == i) ≡ false
      → find_character i server.world.characters ≡ find_character i v.world.characters
  pub known_is :
      (i : ℕ) → known i server.world.sessions ≡ (v.next_id == i || known i v.world.sessions)
  pub socks :
      (other : ℕ) (s : Session)
      → find_sock other v.world.sessions ≡ some s
      → (s' : Session) × (find_sock other server.world.sessions ≡ some s')
  pub session :
      (s : Session) × (find_session v.next_id server.world.sessions ≡ some s)
      × (s.sock ≡ sock)
      × (get_use_size s.recv_buf ≡ 0)
      × (s.last_recv_time ≡ now)

-- Character::Set with what rand says.
new_character-standing :
    (id rand_x rand_y : ℕ)
    → new_character id rand_x rand_y ≡ standing id (rand_x % 6400) (rand_y % 6400)
unfolding new_character
new_character-standing id rx ry =
    let p : rx % 6400 % 65536 ≡ rx % 6400 = omega arith in
    let q : ry % 6400 % 65536 ≡ ry % 6400 = omega arith in
    rw (p, q) (set-inside id (rx % 6400) (ry % 6400) 100 (omega arith) (omega arith))

found_self : (c : Character) (cs : List Character) → find_character c.session_id (c ∷ cs) ≡ some c
unfolding find_character
found_self c cs = ground arith

found-tail :
    (i : ℕ) (c : Character) (cs : List Character)
    → (c.session_id == i) ≡ false
    → find_character i (c ∷ cs) ≡ find_character i cs
unfolding find_character
found-tail i c cs n = rw n refl

session_self : (s : Session) (ss : List Session) → find_session s.session_id (s ∷ ss) ≡ some s
unfolding find_session
session_self s ss = ground arith

sock-still :
    (s : Session) (ss : List Session) (other : ℕ) (t : Session)
    → find_sock other ss ≡ some t
    → (t' : Session) × (find_sock other (s ∷ ss) ≡ some t')
unfolding find_sock
sock-still s ss other t e = elim (Bool-cases (s.sock == other)) [
  | inl same ↦ (s, rw same refl)
  | inr away ↦ (t, rw away e)
]

-- The rest of ProcAccept, behind Insert_Sector.
sent-Accepted :
    {v : Server} {w : World} (p : Session) (free : List Session) (sock now rand_x rand_y : ℕ)
    → IsUp v
    → find_sock sock v.world.sessions ≡ none
    → IsValid p.recv_buf × IsValid p.send_buf
    → IsFree free
    → Sent
        (joined v.world (entering p sock v.next_id now) (new_character v.next_id rand_x rand_y))
        w
    → Accepted v sock now rand_x rand_y
        (returned (true, record v { world = w; next_id = v.next_id + 1; pool_session = free }))
unfolding known set_fields clear_session
sent-Accepted {v} {w} p free sock now rx ry up new valid f sent =
    let s = entering p sock v.next_id now in
    let c = new_character v.next_id rx ry in
    let n = entering-Newcomer p sock now rx ry up new valid in
    let k = joined-IsServing n in
    let known_is : (i : ℕ) → known i w.sessions ≡ (v.next_id == i || known i v.world.sessions) =
      λ i. sent.lasting.sessions i in
    let id = new_character-id v.next_id rx ry in
    let (t, found, recv, time, at) =
      sent.lasting.kept v.next_id s (session_self s v.world.sessions) in
    record {
      server = record v { world = w; next_id = v.next_id + 1; pool_session = free };
      runs = refl;
      up = record {
        serving = Evolved-IsServing (Evolved-Sent k.consistent sent) k;
        free = f;
        from_one = omega arith;
        used = λ i h.
            let e = known_is i in
            elim (Bool-cases (known i v.world.sessions)) [
              | inl old ↦ let below = up.used i old in omega arith
              | inr added ↦ ground arith
            ];
      };
      id_after = refl;
      character =
          ap (find_character v.next_id) sent.characters
          ∙ ap (λ i. find_character i (c ∷ v.world.characters)) (sym id)
          ∙ found_self c v.world.characters
          ∙ ap some (new_character-standing v.next_id rx ry);
      others = λ i o.
          ap (find_character i) sent.characters
          ∙ found-tail i c v.world.characters (ap (λ (j : ℕ). j == i) id ∙ o);
      known_is = known_is;
      socks = λ other a e.
          let (b, g) = sock-still s v.world.sessions other a e in
          Stays-socks k.sound (sent.lasting.sound k.sound) (Lasting-Stays sent.lasting) other b g;
      session = (t, found, at, ap get_use_size recv ∙ get_use_size-clear p.recv_buf, time);
    }

-- On a server that is up, ProcAccept of a socket that no session has returns true, as long as fewer than
-- 2 ^ 32 - 1 ids were handed out. The server is up afterwards, the session has the next id, the socket, the time
-- and nothing received, its character stands at the two numbers of rand modulo 6400 with 100 hp, and nobody
-- else has changed.
pub proc_accept-Accepted :
    (v : Server) (sock : ℕ) (a : Allocation) (now rand_x rand_y : ℕ)
    → IsUp v
    → find_sock sock v.world.sessions ≡ none
    → IsAligned a
    → v.next_id + 1 < 4294967296
    → Accepted v sock now rand_x rand_y (proc_accept v (some sock) a now rand_x rand_y)
unfolding proc_accept
proc_accept-Accepted v sock a now rx ry up new aligned left =
    let (p, free) = alloc_session v.pool_session a in
    let (recv, send, f) = alloc_session-IsValid v.pool_session a up.free aligned in
    let n = entering-Newcomer p sock now rx ry up new (recv, send) in
    let k = joined-IsServing n in
    let c = new_character v.next_id rx ry in
    let served = k.consistent.served c.session_id c (found_self c v.world.characters) in
    let (w, sends, sent) =
      create_my_character-Sends (joined v.world (entering p sock v.next_id now) c) c k.consistent
        served in
    rw (get_session_id-next v.next_id up.from_one left, admit-joined n, sends)
      (sent-Accepted p free sock now rx ry up new (recv, send) f sent)
