-- ===== src/Character/Movement.antt =====
-- What a frame's movement does to a character: it stays in the map, moves no faster than its speed,
-- and where Update leaves the sector alone the sector is right.
use simple_poject.Common.{
  ℕ, refl, ◌+◌, ◌/◌, ◌≤◌, ◌<◌, ◌≡◌, Bool, true, false, arith, ◌==◌, ltb, if◌then◌else◌,
}
use simple_poject.Character.{
  Character, set, update_position, update_uu, update_dd, update_ll, update_rr, update_lu, update_ld,
  update_ru, update_rd, move_uu, move_dd, move_ll, move_rr, move_lu, move_ld, move_ru, move_rd,
}

pub record InMap (c : Character) : Type 0 where
  pub x_in : c.x < 6400
  pub y_in : c.y < 6400

-- The sector of a character is the one that its position lies in.
pub record InSector (c : Character) : Type 0 where
  pub x_at : c.cur_sector.x ≡ c.x / 200
  pub y_at : c.cur_sector.y ≡ c.y / 200

-- A character that stands in the map, in its own sector.
pub record Placed (c : Character) : Type 0 where
  pub map : InMap c
  pub sector : InSector c

-- What a frame may do to `c`.
pub record Moved (c : Character) (out : Character × Bool) : Type 0 where
  pub x_in : out.0.x < 6400
  pub y_in : out.0.y < 6400
  pub x_near : (out.0.x ≤ c.x + 6) × (c.x ≤ out.0.x + 6)
  pub y_near : (out.0.y ≤ c.y + 4) × (c.y ≤ out.0.y + 4)
  pub same_id : out.0.session_id ≡ c.session_id
  pub same_hp : out.0.hp ≡ c.hp
  pub same_action : out.0.action ≡ c.action
  pub same_sector : out.0.cur_sector ≡ c.cur_sector
  pub unmoved : out.1 ≡ false → (out.0.x / 200 ≡ c.x / 200) × (out.0.y / 200 ≡ c.y / 200)

uu-Moved : {c : Character} → InMap c → Moved c (update_uu c)
unfolding update_uu
uu-Moved h = ground arith

dd-Moved : {c : Character} → InMap c → Moved c (update_dd c)
unfolding update_dd
dd-Moved h = ground arith

ll-Moved : {c : Character} → InMap c → Moved c (update_ll c)
unfolding update_ll
ll-Moved h = ground arith

rr-Moved : {c : Character} → InMap c → Moved c (update_rr c)
unfolding update_rr
rr-Moved h = ground arith

lu-Moved : {c : Character} → InMap c → Moved c (update_lu c)
unfolding update_lu
lu-Moved h = ground arith

ld-Moved : {c : Character} → InMap c → Moved c (update_ld c)
unfolding update_ld
ld-Moved h = ground arith

ru-Moved : {c : Character} → InMap c → Moved c (update_ru c)
unfolding update_ru
ru-Moved h = ground arith

rd-Moved : {c : Character} → InMap c → Moved c (update_rd c)
unfolding update_rd
rd-Moved h = ground arith

stay-Moved : {c : Character} → InMap c → Moved c (c, false)
stay-Moved h = ground arith

if-Moved :
    {c : Character} (b : Bool) {yes_out no_out : Character × Bool}
    → Moved c yes_out
    → Moved c no_out
    → Moved c (if b then yes_out else no_out)
if-Moved true h k = h
if-Moved false h k = k

-- A frame of Update keeps a character that stands in the map there, and moves it at most six points
-- across and four up or down, whatever its action is; it touches neither its id, its hp, its action nor its recorded sector; and
-- where it does not report a move, the position stays in the same sector.
pub update_position-Moved : {c : Character} → InMap c → Moved c (update_position c)
unfolding update_position
update_position-Moved {c} h = if-Moved (c.action == move_uu) (uu-Moved h) (
    if-Moved (c.action == move_dd) (dd-Moved h) (
      if-Moved (c.action == move_ll) (ll-Moved h) (
        if-Moved (c.action == move_rr) (rr-Moved h) (
          if-Moved (c.action == move_lu) (lu-Moved h) (
            if-Moved (c.action == move_ld) (ld-Moved h) (
              if-Moved (c.action == move_ru) (ru-Moved h)
                (if-Moved (c.action == move_rd) (rd-Moved h) (stay-Moved h))))))))

-- Character::Set puts a character in the sector of its position.
pub set-Placed : (session_id x y hp : ℕ) → x < 6400 → y < 6400 → Placed (set session_id x y hp)
unfolding set
set-Placed session_id x y hp x_in y_in = record {
  map = record { x_in = ground arith; y_in = ground arith };
  sector = record { x_at = refl; y_at = refl };
}

pub set-inside :
    (session_id x y hp : ℕ)
    → x < 6400
    → y < 6400
    → set session_id x y hp ≡ record {
      session_id = session_id;
      action = 8;
      dir = 4;
      x = x;
      y = y;
      cur_sector = record { x = x / 200; y = y / 200 };
      old_sector = record { x = 4294967294; y = 4294967294 };
      hp = hp;
    }
unfolding set
set-inside session_id x y hp x_in y_in =
    let p : ltb x 32768 ≡ true = ground arith in
    let q : ltb y 32768 ≡ true = ground arith in rw (p, q) refl

pub set-id : (session_id x y hp : ℕ) → (set session_id x y hp).session_id ≡ session_id
unfolding set
set-id session_id x y hp = refl
