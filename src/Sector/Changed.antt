-- ===== src/Sector/Changed.antt =====
-- Get_ChangedSectorAround: the sectors that come into view and those that go out of it.
use simple_poject.Common.{◌≤◌, ◌≡◌, refl, List, [], ◌∷◌, true, not, ◌&&◌, arith, length}
use simple_poject.Sector.{
  SectorPos, same_pos, get_sector_around, contains, without, get_changed_sector_around,
}
use simple_poject.Sector.Around.{length-get_sector_around}

contains-of-eq :
    (qs : List SectorPos) (p q : SectorPos) → same_pos p q ≡ true → contains qs p ≡ contains qs q
unfolding contains
contains-of-eq [] p q e = refl
contains-of-eq (r ∷ qs) p q e = ground (arith, contains-of-eq qs p q e)

contains-without :
    (ps qs : List SectorPos) (p : SectorPos)
    → contains (without ps qs) p ≡ (contains ps p && not (contains qs p))
unfolding contains without
contains-without [] qs p = refl
contains-without (r ∷ ps) qs p = ground (arith, contains-without ps qs p, contains-of-eq qs p r)

length-without : (ps qs : List SectorPos) → length (without ps qs) ≤ length ps
unfolding without
length-without [] qs = omega arith
length-without (p ∷ ps) qs = ground (arith, length-without ps qs)

-- The remove sectors are those round the old sector that are not round the current one, the add
-- sectors those round the current one that are not round the old one; neither list outgrows its array.
pub get_changed_sector_around_lem :
    (old_sector cur_sector p : SectorPos)
    → let (remove_sectors, add_sectors) = get_changed_sector_around old_sector cur_sector in
      (contains remove_sectors p ≡ (
        contains (get_sector_around old_sector.x old_sector.y) p
        && not (contains (get_sector_around cur_sector.x cur_sector.y) p)))
      × (contains add_sectors p ≡ (
          contains (get_sector_around cur_sector.x cur_sector.y) p
          && not (contains (get_sector_around old_sector.x old_sector.y) p)))
      × (length remove_sectors ≤ 9)
      × (length add_sectors ≤ 9)
unfolding get_changed_sector_around
get_changed_sector_around_lem o c p =
    let old_around = get_sector_around o.x o.y in
    let cur_around = get_sector_around c.x c.y in
    (
      contains-without old_around cur_around p,
      contains-without cur_around old_around p,
      omega (arith, length-without old_around cur_around, length-get_sector_around o.x o.y),
      omega (arith, length-without cur_around old_around, length-get_sector_around c.x c.y),
    )
