-- ===== src/Sector.antt =====
-- The sectors of the map: SectorPos, Get_SectorAround and Get_ChangedSectorAround of Sector.h and
-- Sector.cpp in CppProject/22.10.10 - MMO TCPFighter Server. An `int` is its 32-bit pattern, so that a
-- comparison with an unsigned constant is one of numbers, as in C++. SectorAround is the list of its
-- first `count` positions.
pub mod Around
pub mod Changed
pub mod Tests
use simple_poject.Common.{
  ℕ, ◌+◌, List, [], ◌∷◌, ◌++◌, Bool, true, false, not, ◌&&◌, ◌||◌, leb, ◌==◌, if◌then◌else◌,
}
use simple_poject.Common.Word.{add32, sub32, is_negative}

pub record SectorPos : Type 0 where
  pub x : ℕ
  pub y : ℕ

-- SECTOR_SIZE
abbrev pub sector_size : ℕ
sector_size = 200

-- SECTOR_MAX_X and SECTOR_MAX_Y
abbrev pub sector_max_x : ℕ
sector_max_x = 32

abbrev pub sector_max_y : ℕ
sector_max_y = 32

-- INVALID_SECTOR: {-2, -2}
abbrev pub invalid_sector : SectorPos
invalid_sector = record { x = 0xffff_fffe; y = 0xffff_fffe }

-- operator==
abbrev pub same_pos : SectorPos → SectorPos → Bool
same_pos a b = a.x == b.x && a.y == b.y

-- The inner loop, over the values of its counter that are left.
pub around_columns : ℕ → ℕ → List ℕ → List SectorPos
around_columns sector_x y [] = []
around_columns sector_x y (x ∷ xs) =
    let rest = around_columns sector_x y xs in
    if is_negative (add32 sector_x x) || leb sector_max_x (add32 sector_x x)
    then rest
    else record { x = add32 sector_x x; y = y } ∷ rest

-- The outer loop.
pub around_rows : ℕ → ℕ → List ℕ → List SectorPos
around_rows sector_x sector_y [] = []
around_rows sector_x sector_y (y ∷ ys) =
    let rest = around_rows sector_x sector_y ys in
    if is_negative (add32 sector_y y) || leb sector_max_y (add32 sector_y y)
    then rest
    else around_columns sector_x (add32 sector_y y) (0 ∷ 1 ∷ 2 ∷ []) ++ rest

pub get_sector_around : ℕ → ℕ → List SectorPos
get_sector_around sector_x sector_y =
    around_rows (sub32 sector_x 1) (sub32 sector_y 1) (0 ∷ 1 ∷ 2 ∷ [])

-- The search loops of Get_ChangedSectorAround: `find`.
unfoldable pub contains : List SectorPos → SectorPos → Bool
contains [] p = false
contains (q ∷ qs) p = same_pos p q || contains qs p

-- The positions of the first list that the second does not have.
pub without : List SectorPos → List SectorPos → List SectorPos
without [] others = []
without (p ∷ ps) others =
    let rest = without ps others in if not (contains others p) then p ∷ rest else rest

-- The remove sectors and the add sectors.
pub get_changed_sector_around : SectorPos → SectorPos → List SectorPos × List SectorPos
get_changed_sector_around old_sector cur_sector =
    let old_around = get_sector_around old_sector.x old_sector.y in
    let cur_around = get_sector_around cur_sector.x cur_sector.y in
    (without old_around cur_around, without cur_around old_around)
