-- ===== src/World/Resector.antt =====
-- Update_SectorPos of Sector.cpp on a consistent world.
use simple_poject.Common.{
  ℕ, ◌/◌, ◌≤◌, ◌≡◌, refl, sym, ◌∙◌, ◌⊎◌, inl, inr, Bool, true, false, ◌&&◌, some, arith, ◌==◌,
  if◌then◌else◌, Bool-cases,
}
use simple_poject.Common.Outcome.{Outcome, returned, undefined}
use simple_poject.Sector.{SectorPos, same_pos}
use simple_poject.Character.{Character}
use simple_poject.Character.Movement.{InMap}
use simple_poject.World.{
  World, find_character, set_character, has, insert_id, erase_id, update_sector, sector_at,
  insert_sector, update_sector_pos, in_array,
}
use simple_poject.World.Lookup.{some_injective, find-set_character}
use simple_poject.World.Consistent.{IsConsistent, Replaced}
use simple_poject.World.Sets.{
  find-written-twice, has-moved, erase_sectors-returned, insert_sector-returned,
}

-- The sector of a character's position, and the character put there.
abbrev pub home : Character → SectorPos
home c = record { x = c.x / 200; y = c.y / 200 }

abbrev pub rehome : Character → Character
rehome c = record c { old_sector = c.cur_sector; cur_sector = home c }

-- `c` is a character of `w` that was given another position.
pub record Stepped (w : World) (c : Character) : Type 0 where
  pub before : Character
  pub found : find_character c.session_id w.characters ≡ some before
  pub same_sector : c.cur_sector ≡ before.cur_sector

abbrev pub written : World → Character → World
written w c = record w { characters = set_character c w.characters }

-- A character is in its own sector only.
pub has-own :
    {w : World} {c : Character}
    → IsConsistent w
    → Stepped w c
    → (y x : ℕ) → has c.session_id (w.sectors y x) ≡ (y == c.cur_sector.y && x == c.cur_sector.x)
has-own {w} {c} k s y x = elim (Bool-cases (has c.session_id (w.sectors y x))) [
  | inl there ↦
      let (d, f, at_x, at_y) = k.members y x c.session_id there in
      let is_d : s.before ≡ d = some_injective (sym s.found ∙ f) in
      let at_x' : c.cur_sector.x ≡ x = rw (s.same_sector, is_d) at_x in
      let at_y' : c.cur_sector.y ≡ y = rw (s.same_sector, is_d) at_y in there ∙ ground arith
  | inr absent ↦
      let own : has c.session_id (w.sectors c.cur_sector.y c.cur_sector.x) ≡ true =
        rw s.same_sector (k.listed c.session_id s.before s.found) in
      elim (Bool-cases (y == c.cur_sector.y && x == c.cur_sector.x)) [
        | inl here ↦
            let y_is : y ≡ c.cur_sector.y = ground arith in
            let x_is : x ≡ c.cur_sector.x = ground arith in
            let there : has c.session_id (w.sectors y x) ≡ true = rw (y_is, x_is) own in
            there ∙ sym here
        | inr away ↦ absent ∙ sym away
      ]
]

-- Update_SectorPos returns, and the character that it leaves has taken the old one's place.
pub record Resectored (w : World) (c : Character) (o : Outcome (Bool × Character × World))
    : Type 0 where
  pub changed : Bool
  pub after : Character
  pub world : World
  pub runs : o ≡ returned (changed, after, world)
  pub after_is : after ≡ (if changed then rehome c else c)
  pub replaced : Replaced w world after

in_home : {c : Character} → InMap c → in_array (home c) ≡ true
in_home h = ground arith

-- Where the character comes from.
pub placed-inside :
    {w : World} {c : Character} → IsConsistent w → Stepped w c → in_array c.cur_sector ≡ true
placed-inside {w} {c} k s =
    let start = k.placed c.session_id s.before s.found in
    rw (s.same_sector, start.sector.x_at, start.sector.y_at) (in_home start.map)

pub own-has :
    {w : World} {c : Character}
    → IsConsistent w
    → Stepped w c
    → has c.session_id (w.sectors c.cur_sector.y c.cur_sector.x) ≡ true
own-has {w} {c} k s = rw s.same_sector (k.listed c.session_id s.before s.found)

-- The world in which the character has been moved to the sector of its position.
abbrev resectored : World → Character → World
resectored w c =
    let f =
      update_sector w.sectors c.cur_sector
        (erase_id c.session_id (w.sectors c.cur_sector.y c.cur_sector.x)) in
    record w {
      characters = set_character (rehome c) (set_character c w.characters);
      sectors = update_sector f (home c) (insert_id c.session_id (f (home c).y (home c).x));
    }

moved-Replaced :
    {w : World} {c : Character}
    → IsConsistent w
    → Stepped w c
    → InMap c
    → Replaced w (resectored w c) (rehome c)
moved-Replaced {w} {c} k s m = record {
  pool = refl;
  sessions = refl;
  queue = refl;
  served = k.served c.session_id s.before s.found;
  placed = record {
    map = record { x_in = m.x_in; y_in = m.y_in };
    sector = record { x_at = refl; y_at = refl };
  };
  find = λ id. find-written-twice id c (rehome c) w.characters refl s.found;
  has_it = has-moved w.sectors c.cur_sector (home c) c.session_id (has-own k s);
}

pub stayed-Replaced :
    {w : World} {c : Character}
    → IsConsistent w
    → Stepped w c
    → InMap c
    → same_pos c.cur_sector (home c) ≡ true
    → Replaced w (written w c) c
stayed-Replaced {w} {c} k s m same = record {
  pool = refl;
  sessions = refl;
  queue = refl;
  served = k.served c.session_id s.before s.found;
  placed = record { map = m; sector = record { x_at = ground arith; y_at = ground arith } };
  find = λ id. find-set_character id c w.characters s.found;
  has_it = λ y x id. elim (Bool-cases (c.session_id == id)) [
    | inl here ↦ let own : c.session_id ≡ id = ground arith in rw here (rw own at (has-own k s y x))
    | inr away ↦ rw away refl
  ];
}

-- Update_SectorPos, called on a consistent world in which a character was given another position in the
-- map, returns. If it reports a change, it has moved the character to the sector of its position and has
-- kept the old one; if not, the character is as it was. Either way the character stands in the sector of
-- its position and in no other set, and every other character, set and session is as before.
pub resector :
    {w : World} {c : Character}
    → IsConsistent w
    → Stepped w c
    → InMap c
    → Resectored w c (update_sector_pos (written w c) c)
unfolding update_sector_pos
resector {w} {c} k s m = elim (Bool-cases (same_pos c.cur_sector (home c))) [
  | inl same ↦ record {
    changed = false;
    after = c;
    world = written w c;
    runs = rw same refl;
    after_is = refl;
    replaced = stayed-Replaced k s m same;
  }
  | inr other ↦ record {
    changed = true;
    after = rehome c;
    world = resectored w c;
    runs =
        rw (other, erase_sectors-returned (written w c) c (placed-inside k s) (own-has k s))
          (rw (insert_sector-returned _ (rehome c) (in_home m)) refl);
    after_is = refl;
    replaced = moved-Replaced k s m;
  }
]

-- From outside the map Update_SectorPos reaches outside the array of sectors.
pub resector-undefined :
    {w : World} {c : Character}
    → IsConsistent w
    → Stepped w c
    → (6400 ≤ c.x) ⊎ (6400 ≤ c.y)
    → update_sector_pos (written w c) c ≡ undefined
unfolding update_sector_pos insert_sector sector_at
resector-undefined {w} {c} k s out =
    let inside = placed-inside k s in
    let away : same_pos c.cur_sector (home c) ≡ false = ground arith in
    let outside : in_array (home c) ≡ false = ground arith in
    rw (away, erase_sectors-returned (written w c) c inside (own-has k s), outside) refl
