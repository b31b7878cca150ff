-- ===== src/Sector/Tests.antt =====
-- Sectors in a corner and on an edge of the map.
use simple_poject.Common.{◌+◌, ◌≤◌, ◌<◌, ◌≡◌, ◌↔◌, true, not, ◌&&◌, arith, length}
use simple_poject.Sector.{SectorPos, contains, get_sector_around, get_changed_sector_around}
use simple_poject.Sector.Around.{get_sector_around_iff}
use simple_poject.Sector.Changed.{get_changed_sector_around_lem}

abbrev corner : SectorPos
corner = record { x = 31; y = 0 }

abbrev beside : SectorPos
beside = record { x = 30; y = 0 }

get_sector_around_iff_example : (contains (get_sector_around 31 0) beside ≡ true) ↔ (
    (beside.x < 32)
    × (beside.y < 32)
    × (31 ≤ beside.x + 1)
    × (beside.x ≤ 31 + 1)
    × (0 ≤ beside.y + 1)
    × (beside.y ≤ 0 + 1))
get_sector_around_iff_example = get_sector_around_iff 31 0 beside (omega arith) (omega arith)

get_changed_sector_around_lem_example :
    let (remove_sectors, add_sectors) = get_changed_sector_around corner beside in
    (contains remove_sectors corner ≡ (
      contains (get_sector_around corner.x corner.y) corner
      && not (contains (get_sector_around beside.x beside.y) corner)))
    × (contains add_sectors corner ≡ (
        contains (get_sector_around beside.x beside.y) corner
        && not (contains (get_sector_around corner.x corner.y) corner)))
    × (length remove_sectors ≤ 9)
    × (length add_sectors ≤ 9)
get_changed_sector_around_lem_example = get_changed_sector_around_lem corner beside corner
