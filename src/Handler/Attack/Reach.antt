-- ===== src/Handler/Attack/Reach.antt =====
-- The sectors that an attack searches, against the rectangle that it hits.
use native.Mathlib.Decide.{dec_lt}
use simple_poject.Common.{
  ℕ, ◌+◌, ◌-◌, ◌/◌, ◌%◌, ◌≤◌, ◌<◌, ◌≡◌, ◌≢◌, ◌⊎◌, ◌↔◌, inl, inr, Bool, true, false, arith,
}
use simple_poject.Common.Word.{add32, sub32}
use simple_poject.Sector.{SectorPos, contains}
use simple_poject.Character.{Character, dir_ll, dir_rr}
use simple_poject.Character.Movement.{InMap, Placed}
use simple_poject.Handler.Attack.{
  sectors_ahead, reaches_right, reaches_left, damage_rows, damage_sectors, is_hit,
}

-- What `is_hit` tests, of characters in the map, in numbers.
pub record Facing (c other : Character) (range_x range_y : ℕ) : Type 0 where
  pub above : c.y ≤ other.y + range_y
  pub below : other.y ≤ c.y + range_y
  pub ahead :
      ((c.dir ≡ dir_ll) × (other.x ≤ c.x) × (c.x ≤ other.x + range_x))
      ⊎ ((c.dir ≡ dir_rr) × (c.x ≤ other.x) × (other.x ≤ c.x + range_x))

is_hit-Facing :
    {c other : Character} (range_x range_y : ℕ)
    → InMap c
    → InMap other
    → range_x ≤ 100
    → range_y ≤ 20
    → Facing c other range_x range_y
    → is_hit c other range_x range_y ≡ true
unfolding is_hit
is_hit-Facing rx ry h k hx hy f = ground arith

-- The row that `damage_rows` adds, if it adds one.
data Row (c : Character) (range_y : ℕ) (y : ℕ) : Type 0 where
  same : y ≡ c.cur_sector.y → Row c range_y y
  above : c.y % 200 < range_y → 0 < c.cur_sector.y → y ≡ c.cur_sector.y - 1 → Row c range_y y
  below :
      200 - range_y < c.y % 200
      → range_y ≤ c.y % 200
      → c.cur_sector.y < 31
      → y ≡ c.cur_sector.y + 1
      → Row c range_y y

damage_rows_own :
    (c : Character) (x range_y : ℕ) (b : Bool) (p : SectorPos)
    → c.cur_sector.y < 32
    → p.x ≡ c.cur_sector.x
    → Row c range_y p.y
    → contains (damage_rows c x range_y (sectors_ahead c x b)) p ≡ true
unfolding damage_rows contains
damage_rows_own c x ry true p h e (same y) = ground arith
damage_rows_own c x ry true p h e (above a g y) = ground arith
damage_rows_own c x ry true p h e (below a g k y) = ground arith
damage_rows_own c x ry false p h e (same y) = ground arith
damage_rows_own c x ry false p h e (above a g y) = ground arith
damage_rows_own c x ry false p h e (below a g k y) = ground arith

damage_rows_side :
    (c : Character) (x range_y : ℕ) (p : SectorPos)
    → c.cur_sector.y < 32
    → p.x ≡ x
    → Row c range_y p.y
    → contains (damage_rows c x range_y (sectors_ahead c x true)) p ≡ true
unfolding damage_rows contains
damage_rows_side c x ry p h e (same y) = ground arith
damage_rows_side c x ry p h e (above a g y) = ground arith
damage_rows_side c x ry p h e (below a g k y) = ground arith

Row-of_near :
    {c other : Character} (range_y : ℕ)
    → Placed c
    → Placed other
    → 0 < range_y
    → range_y ≤ 20
    → c.y ≤ other.y + range_y
    → other.y ≤ c.y + range_y
    → (c.y % 200 ≢ 200 - range_y) ⊎ (other.y < c.y + range_y)
    → Row c range_y other.cur_sector.y
Row-of_near {c} {other} ry p q pos hy up down edge = elim (dec_lt (other.y / 200) (c.y / 200)) [
  | yes a ↦ above (omega arith) (omega arith) (omega arith)
  | no b ↦ elim (dec_lt (c.y / 200) (other.y / 200)) [
    | yes a ↦ below (omega arith) (omega arith) (omega arith) (omega arith)
    | no d ↦ Row.same (omega arith)
  ]
]

facing_right :
    (c : Character) (rx ry : ℕ)
    → c.dir ≡ dir_rr
    → damage_sectors c rx ry
      ≡ damage_rows c
          (add32 c.cur_sector.x 1)
          ry
          (sectors_ahead c (add32 c.cur_sector.x 1) (reaches_right c rx))
unfolding damage_sectors
facing_right c rx ry d = simp d

facing_left :
    (c : Character) (rx ry : ℕ)
    → c.dir ≡ dir_ll
    → damage_sectors c rx ry
      ≡ damage_rows c
          (sub32 c.cur_sector.x 1)
          ry
          (sectors_ahead c (sub32 c.cur_sector.x 1) (reaches_left c rx))
unfolding damage_sectors
facing_left c rx ry d = simp d

-- For ranges of at most 100 across and from 1 to 20 down, an attack searches the sector of every
-- character in the rectangle ahead of the attacker, where both stand in the map in their own
-- sectors; except that the attacker stands exactly range_y above its lower sector line and the
-- other at least range_y below the attacker.
pub damage_sectors_cover :
    {c other : Character} (range_x range_y : ℕ)
    → Placed c
    → Placed other
    → range_x ≤ 100
    → 0 < range_y
    → range_y ≤ 20
    → Facing c other range_x range_y
    → (c.y % 200 ≢ 200 - range_y) ⊎ (other.y < c.y + range_y)
    → contains (damage_sectors c range_x range_y) other.cur_sector ≡ true
damage_sectors_cover {c} {other} rx ry p q hx pos hy f edge = go f.ahead
  where
    row : Row c ry other.cur_sector.y
    row = Row-of_near ry p q pos hy f.above f.below edge

    own_right :
        other.x / 200 ≡ c.x / 200
        → c.dir ≡ dir_rr
        → contains (damage_sectors c rx ry) other.cur_sector ≡ true
    own_right e d = rw (facing_right c rx ry d) (
        damage_rows_own c (add32 c.cur_sector.x 1) ry (reaches_right c rx) other.cur_sector
          (omega arith) (omega arith) row)

    own_left :
        other.x / 200 ≡ c.x / 200
        → c.dir ≡ dir_ll
        → contains (damage_sectors c rx ry) other.cur_sector ≡ true
    own_left e d = rw (facing_left c rx ry d) (
        damage_rows_own c (sub32 c.cur_sector.x 1) ry (reaches_left c rx) other.cur_sector
          (omega arith) (omega arith) row)

    go :
        ((c.dir ≡ dir_ll) × (other.x ≤ c.x) × (c.x ≤ other.x + rx))
          ⊎ ((c.dir ≡ dir_rr) × (c.x ≤ other.x) × (other.x ≤ c.x + rx))
        → contains (damage_sectors c rx ry) other.cur_sector ≡ true
    go (inl (d, a, b)) = elim (dec_lt (other.x / 200) (c.x / 200)) [
      | yes less ↦
          let test : reaches_left c rx ≡ true = ground arith in
          rw (facing_left c rx ry d, test)
            (damage_rows_side c (sub32 c.cur_sector.x 1) ry other.cur_sector (omega arith)
              (omega arith) row)
      | no level ↦ own_left (omega arith) d
    ]
    go (inr (d, a, b)) = elim (dec_lt (c.x / 200) (other.x / 200)) [
      | yes more ↦
          let test : reaches_right c rx ≡ true = ground arith in
          rw (facing_right c rx ry d, test)
            (damage_rows_side c (add32 c.cur_sector.x 1) ry other.cur_sector (omega arith)
              (omega arith) row)
      | no level ↦ own_right (omega arith) d
    ]

damage_rows_miss :
    (c : Character) (x range_y : ℕ) (b : Bool) (p : SectorPos)
    → c.cur_sector.y < 32
    → 0 < range_y
    → range_y ≤ 20
    → c.y % 200 ≡ 200 - range_y
    → p.y ≡ c.cur_sector.y + 1
    → contains (damage_rows c x range_y (sectors_ahead c x b)) p ≡ false
unfolding damage_rows contains
damage_rows_miss c x ry true p h pos hy at e = ground arith
damage_rows_miss c x ry false p h pos hy at e = ground arith

-- For ranges of at most 100 across and from 1 to 20 down, and two characters in the map, each in its own
-- sector, of whom the other is in the rectangle ahead of the attacker: if the attacker stands exactly
-- range_y above its lower sector line and the other exactly range_y below the attacker, then `is_hit`
-- accepts the other, but the sector that it stands in is not searched.
pub damage_sectors_miss :
    {c other : Character} (range_x range_y : ℕ)
    → Placed c
    → Placed other
    → range_x ≤ 100
    → 0 < range_y
    → range_y ≤ 20
    → Facing c other range_x range_y
    → c.y % 200 ≡ 200 - range_y
    → other.y ≡ c.y + range_y
    → (is_hit c other range_x range_y ≡ true)
      × (contains (damage_sectors c range_x range_y) other.cur_sector ≡ false)
damage_sectors_miss {c} {other} rx ry p q hx pos hy f at edge =
    (is_hit-Facing rx ry p.map q.map hx hy f, go f.ahead)
  where
    miss :
        (x : ℕ) (b : Bool)
        → contains (damage_rows c x ry (sectors_ahead c x b)) other.cur_sector ≡ false
    miss x b = damage_rows_miss c x ry b other.cur_sector (omega arith) pos hy at (omega arith)

    go :
        ((c.dir ≡ dir_ll) × (other.x ≤ c.x) × (c.x ≤ other.x + rx))
          ⊎ ((c.dir ≡ dir_rr) × (c.x ≤ other.x) × (other.x ≤ c.x + rx))
        → contains (damage_sectors c rx ry) other.cur_sector ≡ false
    go (inl (d, a, b)) =
        rw (facing_left c rx ry d) (miss (sub32 c.cur_sector.x 1) (reaches_left c rx))
    go (inr (d, a, b)) =
        rw (facing_right c rx ry d) (miss (add32 c.cur_sector.x 1) (reaches_right c rx))

-- Of characters in the map, for ranges of at most 100 across and 20 down and an attacker with a
-- direction of the game, `is_hit` accepts exactly those that stand in the rectangle ahead of the
-- attacker.
pub is_hit_iff :
    {c other : Character} (range_x range_y : ℕ)
    → InMap c
    → InMap other
    → range_x ≤ 100
    → range_y ≤ 20
    → (c.dir ≡ dir_ll) ⊎ (c.dir ≡ dir_rr)
    → (is_hit c other range_x range_y ≡ true) ↔ Facing c other range_x range_y
unfolding is_hit
is_hit_iff {c} {other} rx ry h k hx hy d = ((λ e. facing d e), is_hit-Facing rx ry h k hx hy)
  where
    facing :
        (c.dir ≡ dir_ll) ⊎ (c.dir ≡ dir_rr) → is_hit c other rx ry ≡ true → Facing c other rx ry
    facing (inl l) e = record {
      above = ground arith;
      below = ground arith;
      ahead = inl (l, ground arith, ground arith);
    }
    facing (inr r) e = record {
      above = ground arith;
      below = ground arith;
      ahead = inr (r, ground arith, ground arith);
    }
