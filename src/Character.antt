-- ===== src/Character.antt =====
-- A character of the game: Character.h and Character.cpp of CppProject/22.10.10 - MMO TCPFighter
-- Server, and the movement that Update of its Server.cpp makes for each character and frame. x and y
-- are 32-bit patterns; the speeds and ranges are unsigned, so the tests compare the patterns.
pub mod Movement
pub mod Tests
use simple_poject.Common.{ℕ, ◌-◌, ◌/◌, Bool, true, false, ◌||◌, leb, ◌==◌, if◌then◌else◌}
use simple_poject.Common.Word.{add32, sub32, extend16}
use simple_poject.Sector.{SectorPos, sector_size, invalid_sector}

-- ACTION, a byte. A value that a client sends is taken as it is.
abbrev pub move_ll : ℕ
move_ll = 0

abbrev pub move_lu : ℕ
move_lu = 1

abbrev pub move_uu : ℕ
move_uu = 2

abbrev pub move_ru : ℕ
move_ru = 3

abbrev pub move_rr : ℕ
move_rr = 4

abbrev pub move_rd : ℕ
move_rd = 5

abbrev pub move_dd : ℕ
move_dd = 6

abbrev pub move_ld : ℕ
move_ld = 7

abbrev pub stop : ℕ
stop = 8

-- DIR, a byte
abbrev pub dir_ll : ℕ
dir_ll = 0

abbrev pub dir_rr : ℕ
dir_rr = 4

-- The session of a character is named by its id.
pub record Character : Type 0 where
  pub session_id : ℕ
  pub action : ℕ
  pub dir : ℕ
  pub x : ℕ
  pub y : ℕ
  pub cur_sector : SectorPos
  pub old_sector : SectorPos
  pub hp : ℕ

-- x and y are shorts.
pub set : ℕ → ℕ → ℕ → ℕ → Character
set session_id x y hp = record {
  session_id = session_id;
  action = stop;
  dir = dir_rr;
  x = extend16 x;
  y = extend16 y;
  cur_sector = record { x = extend16 x / sector_size; y = extend16 y / sector_size };
  old_sector = invalid_sector;
  hp = hp;
}

-- RANGE_MOVE_RIGHT, RANGE_MOVE_BOTTOM; the other two ends are 0.
abbrev pub range_move_right : ℕ
range_move_right = 6400

abbrev pub range_move_bottom : ℕ
range_move_bottom = 6400

abbrev pub speed_player_x : ℕ
speed_player_x = 6

abbrev pub speed_player_y : ℕ
speed_player_y = 4

-- The new coordinate, and whether `is_move` is set.
pub go_up : ℕ → ℕ × Bool
go_up y = if leb y speed_player_y then (0, false) else (sub32 y speed_player_y, true)

pub go_down : ℕ → ℕ × Bool
go_down y =
    if leb (range_move_bottom - speed_player_y) y
    then (range_move_bottom - 1, false)
    else (add32 y speed_player_y, true)

pub go_left : ℕ → ℕ × Bool
go_left x = if leb x speed_player_x then (0, false) else (sub32 x speed_player_x, true)

pub go_right : ℕ → ℕ × Bool
go_right x =
    if leb (range_move_right - speed_player_x) x
    then (range_move_right - 1, false)
    else (add32 x speed_player_x, true)

pub update_uu : Character → Character × Bool
unfolding go_up
update_uu c = let (y, moved) = go_up c.y in (record c { y = y }, moved)

pub update_dd : Character → Character × Bool
unfolding go_down
update_dd c = let (y, moved) = go_down c.y in (record c { y = y }, moved)

pub update_ll : Character → Character × Bool
unfolding go_left
update_ll c = let (x, moved) = go_left c.x in (record c { x = x }, moved)

pub update_rr : Character → Character × Bool
unfolding go_right
update_rr c = let (x, moved) = go_right c.x in (record c { x = x }, moved)

pub update_lu : Character → Character × Bool
unfolding go_left go_up
update_lu c =
    let (x, moved_x) = go_left c.x in
    let (y, moved_y) = go_up c.y in
    if leb c.x 0
    then (c, false)
    else if leb c.y 0
    then (c, false)
    else (record c { x = x; y = y }, moved_x || moved_y)

pub update_ld : Character → Character × Bool
unfolding go_left go_down
update_ld c =
    let (x, moved_x) = go_left c.x in
    let (y, moved_y) = go_down c.y in
    if leb c.x 0
    then (c, false)
    else if leb (range_move_bottom - 1) c.y
    then (c, false)
    else (record c { x = x; y = y }, moved_x || moved_y)

pub update_ru : Character → Character × Bool
unfolding go_right go_up
update_ru c =
    let (x, moved_x) = go_right c.x in
    let (y, moved_y) = go_up c.y in
    if leb (range_move_right - 1) c.x
    then (c, false)
    else if leb c.y 0
    then (c, false)
    else (record c { x = x; y = y }, moved_x || moved_y)

pub update_rd : Character → Character × Bool
unfolding go_right go_down
update_rd c =
    let (x, moved_x) = go_right c.x in
    let (y, moved_y) = go_down c.y in
    if leb (range_move_right - 1) c.x
    then (c, false)
    else if leb (range_move_bottom - 1) c.y
    then (c, false)
    else (record c { x = x; y = y }, moved_x || moved_y)

-- The switch of Update over the action: the character moved, and `is_move`.
pub update_position : Character → Character × Bool
unfolding update_uu update_dd update_ll update_rr update_lu update_ld update_ru update_rd
update_position c =
    if c.action == move_uu
    then update_uu c
    else if c.action == move_dd
    then update_dd c
    else if c.action == move_ll
    then update_ll c
    else if c.action == move_rr
    then update_rr c
    else if c.action == move_lu
    then update_lu c
    else if c.action == move_ld
    then update_ld c
    else if c.action == move_ru
    then update_ru c
    else if c.action == move_rd
    then update_rd c
    else (c, false)
