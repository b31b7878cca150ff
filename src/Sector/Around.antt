-- ===== src/Sector/Around.antt =====
-- Get_SectorAround: the sectors that touch a sector.
use simple_poject.Common.{
  ℕ, ◌+◌, ◌*◌, ◌≤◌, ◌<◌, ◌≡◌, refl, ◌↔◌, List, [], ◌∷◌, ◌++◌, Bool, true, false, not, ◌&&◌, ◌||◌,
  arith, leb, ◌==◌, length, length-append,
}
use simple_poject.Common.Word.{add32, sub32, is_negative}
use simple_poject.Sector.{SectorPos, around_columns, around_rows, get_sector_around, contains}

-- Whether one of the loop's counters reaches the coordinate, inside the map.
reaches : ℕ → List ℕ → ℕ → Bool
reaches s [] v = false
reaches s (i ∷ is) v =
    (not (is_negative (add32 s i) || leb 32 (add32 s i)) && v == add32 s i) || reaches s is v

pub contains-append :
    (ps qs : List SectorPos) (p : SectorPos)
    → contains (ps ++ qs) p ≡ (contains ps p || contains qs p)
unfolding contains
contains-append [] qs p = refl
contains-append (q ∷ ps) qs p = ground (arith, contains-append ps qs p)

contains-columns :
    (s y : ℕ) (xs : List ℕ) (p : SectorPos)
    → contains (around_columns s y xs) p ≡ (p.y == y && reaches s xs p.x)
unfolding contains around_columns reaches
contains-columns s y [] p = ground arith
contains-columns s y (x ∷ xs) p = ground (arith, contains-columns s y xs p)

reaches-nil : (s v : ℕ) → reaches s [] v ≡ false
unfolding reaches
reaches-nil s v = refl

reaches-cons :
    (s i : ℕ) (is : List ℕ) (v : ℕ)
    → reaches s (i ∷ is) v
      ≡ ((not (is_negative (add32 s i) || leb 32 (add32 s i)) && v == add32 s i) || reaches s is v)
unfolding reaches
reaches-cons s i is v = refl

contains-rows :
    (s t : ℕ) (ys : List ℕ) (p : SectorPos)
    → contains (around_rows s t ys) p ≡ (reaches t ys p.y && reaches s (0 ∷ 1 ∷ 2 ∷ []) p.x)
unfolding contains around_rows
contains-rows s t [] p = ground (arith, reaches-nil t p.y)
contains-rows s t (y ∷ ys) p = ground (
  arith,
  reaches-cons t y ys p.y,
  contains-rows s t ys p,
  contains-columns s (add32 t y) (0 ∷ 1 ∷ 2 ∷ []) p,
  contains-append (around_columns s (add32 t y) (0 ∷ 1 ∷ 2 ∷ [])) (around_rows s t ys) p,
)

reaches-near :
    (s v : ℕ)
    → s < 32
    → (reaches (sub32 s 1) (0 ∷ 1 ∷ 2 ∷ []) v ≡ true) ↔ ((v < 32) × (s ≤ v + 1) × (v ≤ s + 1))
unfolding reaches
reaches-near s v h = ((λ e. ground arith), (λ e. ground arith))

reaches-below : (s : ℕ) (is : List ℕ) (v : ℕ) → reaches s is v ≡ true → v < 32
unfolding reaches
reaches-below s [] v e = cc
reaches-below s (i ∷ is) v e = ground (arith, reaches-below s is v)

-- Get_SectorAround of a sector of the map lists exactly the sectors of the map that are at most one
-- column and one row away.
pub get_sector_around_iff :
    (sector_x sector_y : ℕ) (p : SectorPos)
    → sector_x < 32
    → sector_y < 32
    → (contains (get_sector_around sector_x sector_y) p ≡ true) ↔ (
        (p.x < 32)
        × (p.y < 32)
        × (sector_x ≤ p.x + 1)
        × (p.x ≤ sector_x + 1)
        × (sector_y ≤ p.y + 1)
        × (p.y ≤ sector_y + 1))
unfolding get_sector_around
get_sector_around_iff sx sy p hx hy =
    ((λ e. ground (arith, rows, column.0, row.0)), (λ h. ground (arith, rows, column.1, row.1)))
  where
    rows :
        contains (around_rows (sub32 sx 1) (sub32 sy 1) (0 ∷ 1 ∷ 2 ∷ [])) p
        ≡ (reaches (sub32 sy 1) (0 ∷ 1 ∷ 2 ∷ []) p.y && reaches (sub32 sx 1) (0 ∷ 1 ∷ 2 ∷ []) p.x)
    rows = contains-rows (sub32 sx 1) (sub32 sy 1) (0 ∷ 1 ∷ 2 ∷ []) p

    column :
        (reaches (sub32 sx 1) (0 ∷ 1 ∷ 2 ∷ []) p.x ≡ true)
        ↔ ((p.x < 32) × (sx ≤ p.x + 1) × (p.x ≤ sx + 1))
    column = reaches-near sx p.x hx

    row :
        (reaches (sub32 sy 1) (0 ∷ 1 ∷ 2 ∷ []) p.y ≡ true)
        ↔ ((p.y < 32) × (sy ≤ p.y + 1) × (p.y ≤ sy + 1))
    row = reaches-near sy p.y hy

length-columns : (s y : ℕ) (xs : List ℕ) → length (around_columns s y xs) ≤ length xs
unfolding around_columns
length-columns s y [] = omega arith
length-columns s y (x ∷ xs) = ground (arith, length-columns s y xs)

length-rows : (s t : ℕ) (ys : List ℕ) → length (around_rows s t ys) ≤ length ys * 3
unfolding around_rows
length-rows s t [] = omega arith
length-rows s t (y ∷ ys) = ground (
  arith,
  length-rows s t ys,
  length-columns s (add32 t y) (0 ∷ 1 ∷ 2 ∷ []),
  length-append (around_columns s (add32 t y) (0 ∷ 1 ∷ 2 ∷ [])) (around_rows s t ys),
)

-- However the sector is given, Get_SectorAround writes at most the nine places of its array.
pub length-get_sector_around :
    (sector_x sector_y : ℕ) → length (get_sector_around sector_x sector_y) ≤ 9
unfolding get_sector_around
length-get_sector_around sx sy = length-rows (sub32 sx 1) (sub32 sy 1) (0 ∷ 1 ∷ 2 ∷ [])

-- The positions that Get_SectorAround lists all lie in the map, however the sector is given.
pub get_sector_around-in_map :
    (sector_x sector_y : ℕ) (p : SectorPos)
    → contains (get_sector_around sector_x sector_y) p ≡ true
    → (p.x < 32) × (p.y < 32)
unfolding get_sector_around
get_sector_around-in_map sx sy p e = ground (
  arith,
  contains-rows (sub32 sx 1) (sub32 sy 1) (0 ∷ 1 ∷ 2 ∷ []) p,
  reaches-below (sub32 sx 1) (0 ∷ 1 ∷ 2 ∷ []) p.x,
  reaches-below (sub32 sy 1) (0 ∷ 1 ∷ 2 ∷ []) p.y,
)

pub contains-head : (p : SectorPos) (ps : List SectorPos) → contains (p ∷ ps) p ≡ true
unfolding contains
contains-head p ps = ground arith

pub contains-tail :
    (p q : SectorPos) (ps : List SectorPos) → contains ps q ≡ true → contains (p ∷ ps) q ≡ true
unfolding contains
contains-tail p q ps h = ground arith
