-- ===== src/World/Tests.antt =====
-- A world of two characters, side by side across a sector line, and runs of World on it.
use simple_poject.Common.{
  ℕ, ◌+◌, ◌≡◌, refl, ◌⊎◌, inl, inr, List, [], ◌∷◌, true, false, ◌&&◌, none, some, arith, ◌==◌,
  if◌then◌else◌, Bool-cases,
}
use simple_poject.Common.Outcome.{returned}
use simple_poject.RingBuffer.{RingBuffer}
use simple_poject.Character.{Character}
use simple_poject.Character.Movement.{Placed}
use simple_poject.MakePacket.Layout.{Packet}
use simple_poject.World.{
  World, Session, find_character, find_session, has, packet_of, update_sector_pos,
}
use simple_poject.World.Resector.{Stepped, Resectored, written, resector}
use simple_poject.World.Lookup.{known, some_injective}
use simple_poject.World.Packets.{packets_bytes, packet_of_lem}
use simple_poject.World.Consistent.{IsConsistent}

abbrev ring : RingBuffer
ring = record {
  mem = λ q. 0;
  begin = 8192;
  end = 16384;
  front = 8192;
  rear = 8192;
  read_pos = 8193;
  write_pos = 8193;
}

abbrev pub session : ℕ → Session
session id = record {
  sock = 100 + id;
  session_id = id;
  recv_buf = ring;
  send_buf = ring;
  last_recv_time = 0;
  flag_disconnect = false;
}

abbrev pub attacker : Character
attacker = record {
  session_id = 1;
  action = 8;
  dir = 4;
  x = 190;
  y = 40;
  cur_sector = record { x = 0; y = 0 };
  old_sector = record { x = 0; y = 0 };
  hp = 100;
}

abbrev pub victim : Character
victim = record {
  session_id = 2;
  action = 4;
  dir = 4;
  x = 230;
  y = 45;
  cur_sector = record { x = 1; y = 0 };
  old_sector = record { x = 0; y = 0 };
  hp = 1;
}

abbrev pub pair_sectors : ℕ → ℕ → List ℕ
pair_sectors y x = if y == 0 && x == 0 then 1 ∷ [] else if y == 0 && x == 1 then 2 ∷ [] else []

abbrev pub pair : World
pair = record {
  characters = attacker ∷ victim ∷ [];
  sectors = pair_sectors;
  sessions = session 1 ∷ session 2 ∷ [];
  disconnect_queue = [];
  pool_packet = record {
    mem = λ q. 0;
    begin = 0;
    end = 4000;
    buf_size = 4000;
    write_pos = 0;
    read_pos = 0;
  };
}

-- The first session with bytes received.
abbrev pub receiving : RingBuffer → Session
receiving r = record (session 1) { recv_buf = r }

abbrev pub arrived : RingBuffer → World
arrived r = record pair { sessions = receiving r ∷ session 2 ∷ [] }

pub arrived-receiving : (r : RingBuffer) → find_session 1 (arrived r).sessions ≡ some (receiving r)
unfolding find_session
arrived-receiving r = refl

pub pair-attacker : find_character 1 pair.characters ≡ some attacker
unfolding find_character
pair-attacker = refl

pair-found :
    (id : ℕ) (c : Character)
    → find_character id pair.characters ≡ some c
    → ((1 ≡ id) × (attacker ≡ c)) ⊎ ((2 ≡ id) × (victim ≡ c))
unfolding find_character
pair-found id c h = elim (Bool-cases (1 == id)) [
  | inl one ↦ inl (ground arith, some_injective (rw one at h))
  | inr more ↦ elim (Bool-cases (2 == id)) [
    | inl two ↦ inr (ground arith, some_injective (rw (more, two) at h))
    | inr other ↦ let absurd : none ≡ some c = rw (more, other) at h in cc
  ]
]

pair-Placed : (id : ℕ) (c : Character) → find_character id pair.characters ≡ some c → Placed c
pair-Placed id c h = elim (pair-found id c h) [
  | inl (i, is) ↦ rw (← is) (record { map = omega arith; sector = omega arith })
  | inr (i, is) ↦ rw (← is) (record { map = omega arith; sector = omega arith })
]

pair-listed :
    (id : ℕ) (c : Character)
    → find_character id pair.characters ≡ some c
    → has id (pair_sectors c.cur_sector.y c.cur_sector.x) ≡ true
unfolding has
pair-listed id c h = elim (pair-found id c h) [
  | inl (i, is) ↦ rw (← i, ← is) refl
  | inr (i, is) ↦ rw (← i, ← is) refl
]

pair-served :
    (id : ℕ) (c : Character)
    → find_character id pair.characters ≡ some c
    → known id pair.sessions ≡ true
unfolding known
pair-served id c h = elim (pair-found id c h) [
  | inl (i, is) ↦ rw (← i) refl
  | inr (i, is) ↦ rw (← i) refl
]

pair-members :
    (y x id : ℕ)
    → has id (pair_sectors y x) ≡ true
    → (c : Character) × (find_character id pair.characters ≡ some c)
      × (c.cur_sector.x ≡ x)
      × (c.cur_sector.y ≡ y)
unfolding has find_character
pair-members y x id h = elim (Bool-cases (y == 0 && x == 0)) [
  | inl here ↦
      let i : 1 ≡ id = ground arith in (attacker, rw (← i) refl, ground arith, ground arith)
  | inr away ↦ elim (Bool-cases (y == 0 && x == 1)) [
    | inl there ↦
        let i : 2 ≡ id = ground arith in (victim, rw (← i) refl, ground arith, ground arith)
    | inr nowhere ↦ let absurd : has id [] ≡ true = rw (away, nowhere) at h in cc
  ]
]

pub pair-IsConsistent : IsConsistent pair
pair-IsConsistent = record {
  pool = record { valid = omega arith; size = refl };
  placed = pair-Placed;
  listed = pair-listed;
  served = pair-served;
  members = pair-members;
}

-- The attacker walks over the sector line.
abbrev pub walker : Character
walker = record attacker { x = 204; action = 4 }

walker-Stepped : Stepped pair walker
walker-Stepped = record { before = attacker; found = pair-attacker; same_sector = refl }

resector_example : Resectored pair walker (update_sector_pos (written pair walker) walker)
resector_example =
    resector pair-IsConsistent walker-Stepped (record { x_in = omega arith; y_in = omega arith })

packet_of_lem_example :
    packet_of pair (Packet.sync 1 190 40 ∷ Packet.delete_character 2 ∷ [])
    ≡ returned (packets_bytes (Packet.sync 1 190 40 ∷ Packet.delete_character 2 ∷ []))
packet_of_lem_example =
    packet_of_lem pair (Packet.sync 1 190 40 ∷ Packet.delete_character 2 ∷ [])
      pair-IsConsistent.pool (omega arith)
