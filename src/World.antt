-- ===== src/World.antt =====
-- The server's shared state and what the handlers do with it: the globals and SendPacket_* of
-- Server.cpp and the sector sets of Sector.cpp in CppProject/22.10.10 - MMO TCPFighter Server.
-- A pointer to a session or a character is the session id; the character map and a sector's set are
-- lists, in some order of iteration. Counters for the monitor are left out.
pub mod Lookup
pub mod Distinct
pub mod Sessions
pub mod Rewritten
pub mod Queued
pub mod Frame
pub mod Packets
pub mod Consistent
pub mod Sets
pub mod Resector
pub mod Serving
pub mod Tests
use simple_poject.Common.{
  ℕ, ◌/◌, List, [], ◌∷◌, ◌++◌, Bool, true, false, not, ◌&&◌, ◌||◌, Option, none, some, ltb, ◌==◌,
  if◌then◌else◌, length,
}
use simple_poject.Common.Outcome.{Outcome, returned, thrown, undefined, ◌>>=◌}
use simple_poject.RingBuffer.{RingBuffer, enqueue, full}
use simple_poject.ProtocolBuffer.{ProtocolBuffer, clear}
use simple_poject.ProtocolBuffer.Put.{contents}
use simple_poject.MakePacket.Layout.{Packet, make_packet}
use simple_poject.Sector.{SectorPos, sector_size, sector_max_x, sector_max_y, same_pos}
use simple_poject.Character.{Character}

pub record Session : Type 0 where
  pub sock : ℕ
  pub session_id : ℕ
  pub recv_buf : RingBuffer
  pub send_buf : RingBuffer
  pub last_recv_time : ℕ
  pub flag_disconnect : Bool

-- `sectors y x` are the characters in a sector. `pool_packet` is a buffer of pool_protocolBuf: each
-- use clears it first, so which one the pool hands out makes no difference.
pub record World : Type 0 where
  pub characters : List Character
  pub sectors : ℕ → ℕ → List ℕ
  pub sessions : List Session
  pub disconnect_queue : List ℕ
  pub pool_packet : ProtocolBuffer

unfoldable pub find_character : ℕ → List Character → Option Character
find_character id [] = none
find_character id (c ∷ cs) = if c.session_id == id then some c else find_character id cs

unfoldable pub find_session : ℕ → List Session → Option Session
find_session id [] = none
find_session id (s ∷ ss) = if s.session_id == id then some s else find_session id ss

-- sessionMap.find
unfoldable pub find_sock : ℕ → List Session → Option Session
find_sock sock [] = none
find_sock sock (s ∷ ss) = let rest = find_sock sock ss in if s.sock == sock then some s else rest

-- A write through a pointer to a character, or to a session.
pub set_character : Character → List Character → List Character
set_character c [] = []
set_character c (d ∷ ds) = if d.session_id == c.session_id then c ∷ ds else d ∷ set_character c ds

pub set_session : Session → List Session → List Session
set_session s [] = []
set_session s (t ∷ ts) = if t.session_id == s.session_id then s ∷ ts else t ∷ set_session s ts

-- A pointer that points to nothing.
abbrev pub deref : {A : Type 0} → Option A → Outcome A
deref none = undefined
deref (some a) = returned a

-- The sets of character ids.
unfoldable pub has : ℕ → List ℕ → Bool
has id [] = false
has id (i ∷ is) = i == id || has id is

pub insert_id : ℕ → List ℕ → List ℕ
unfolding has
insert_id id ids = if has id ids then ids else id ∷ ids

pub erase_id : ℕ → List ℕ → List ℕ
erase_id id [] = []
erase_id id (i ∷ is) = let rest = erase_id id is in if i == id then rest else i ∷ rest

-- An index into `sectors`; outside its bounds C++ leaves it undefined.
abbrev pub in_array : SectorPos → Bool
in_array p = ltb p.y sector_max_y && ltb p.x sector_max_x

pub sector_at : World → SectorPos → Outcome (List ℕ)
sector_at w p = if in_array p then returned (w.sectors p.y p.x) else undefined

abbrev pub update_sector : (ℕ → ℕ → List ℕ) → SectorPos → List ℕ → ℕ → ℕ → List ℕ
update_sector f p ids y x = if y == p.y && x == p.x then ids else f y x

pub insert_sector : World → Character → Outcome World
insert_sector w c = do
  ids ← sector_at w c.cur_sector
  returned
      (record w { sectors = update_sector w.sectors c.cur_sector (insert_id c.session_id ids) })

pub erase_sectors : World → Character → Outcome World
erase_sectors w c = do
  ids ← sector_at w c.cur_sector
  if has c.session_id ids
      then returned
          (record w { sectors = update_sector w.sectors c.cur_sector (erase_id c.session_id ids) })
      else thrown

-- Update_SectorPos, with the character as it leaves it.
pub update_sector_pos : World → Character → Outcome (Bool × Character × World)
update_sector_pos w c =
    let update_pos : SectorPos = record { x = c.x / sector_size; y = c.y / sector_size } in
    let c' = record c { old_sector = c.cur_sector; cur_sector = update_pos } in
    if same_pos c.cur_sector update_pos then returned (false, c, w) else (do
      w ← erase_sectors w c
      w ← insert_sector (record w { characters = set_character c' w.characters }) c'
      returned (true, c', w))

pub input_disconnect_queue : World → Session → World
input_disconnect_queue w s = if s.flag_disconnect then w else record w {
  sessions = set_session (record s { flag_disconnect = true }) w.sessions;
  disconnect_queue = w.disconnect_queue ++ s.session_id ∷ [];
}

-- Clear, then the MakePacket functions in turn: the bytes from Get_readPos on.
pub make_packets : ProtocolBuffer → List Packet → Outcome ProtocolBuffer
make_packets p [] = returned p
make_packets p (k ∷ ks) = make_packet k p >>= λ q. make_packets q ks

pub packet_of : World → List Packet → Outcome (List ℕ)
packet_of w ks = make_packets (clear w.pool_packet) ks >>= λ p. returned (contents p)

-- SendPacket_Unicast to the session that the pointer leads to.
pub deliver : World → Session → List ℕ → World
deliver w s packet =
    let (enqueue_size, send_buf) = enqueue s.send_buf packet in
    let s' = record s { send_buf = send_buf } in
    let w' = record w { sessions = set_session s' w.sessions } in
    if enqueue_size == length packet
    then w'
    else if full s'.send_buf
    then input_disconnect_queue w' s'
    else w'

pub send_packet_unicast : World → ℕ → List ℕ → Outcome World
send_packet_unicast w id packet =
    deref (find_session id w.sessions) >>= λ s. returned (deliver w s packet)

-- The loop over a sector's set; `except` is the session that is passed over.
pub send_each : World → List ℕ → List ℕ → Option ℕ → Outcome World
send_each w [] packet except = returned w
send_each w (id ∷ ids) packet except =
    let send = send_packet_unicast w id packet >>= λ w'. send_each w' ids packet except in
    let pass = send_each w ids packet except in
    elim except [ none ↦ send | some e ↦ if id == e then pass else send ]

pub send_packet_sector_one : World → SectorPos → List ℕ → Option ℕ → Outcome World
send_packet_sector_one w p packet except = do ids ← sector_at w p; send_each w ids packet except

pub send_packet_around : World → List SectorPos → List ℕ → Option ℕ → Outcome World
send_packet_around w [] packet except = returned w
send_packet_around w (p ∷ ps) packet except =
    send_packet_sector_one w p packet except >>= λ w'. send_packet_around w' ps packet except
