-- ===== src/Handler/Attack/Kept.antt =====
-- The attack handlers of Server.cpp in CppProject/22.10.10 - MMO TCPFighter Server on a consistent world.
use simple_poject.Common.{
  ℕ, ◌<◌, ◌≡◌, refl, ap, ◌∙◌, inl, inr, List, [], ◌∷◌, Bool, true, false, Option, none, some, arith,
  ◌==◌, Bool-cases,
}
use simple_poject.Common.Outcome.{Outcome, returned}
use simple_poject.Common.Word.{add32, sub32}
use simple_poject.Sector.{SectorPos, contains}
use simple_poject.Sector.Around.{contains-head, contains-tail}
use simple_poject.Character.{Character, dir_rr}
use simple_poject.Character.Movement.{Placed}
use simple_poject.World.{World, find_character, has, in_array}
use simple_poject.World.Lookup.{find_character-id, has-head, has-tail}
use simple_poject.World.Frame.{sector_at-eq}
use simple_poject.World.Consistent.{IsConsistent}
use simple_poject.Handler.Attack.{
  damage_rows, sectors_ahead, reaches_right, reaches_left, damage_sectors, is_hit, find_hit,
  find_target,
}

-- What the search finds: nobody, or a character of the world other than the attacker, that is hit.
pub data Hit (w : World) (c : Character) (range_x range_y : ℕ) : Option Character → Type 0 where
  nobody : Hit w c range_x range_y none
  somebody :
      {other : Character}
      → find_character other.session_id w.characters ≡ some other
      → (other.session_id == c.session_id) ≡ false
      → is_hit c other range_x range_y ≡ true
      → Hit w c range_x range_y (some other)

abbrev pub Search : World → Character → ℕ → ℕ → Outcome (Option Character) → Type 0
Search w c range_x range_y o =
    (hit : Option Character) × (o ≡ returned hit) × Hit w c range_x range_y hit

find_hit-Search :
    (w : World) (c : Character) (range_x range_y : ℕ) (ids : List ℕ)
    → ((id : ℕ) → has id ids ≡ true → (d : Character) × (find_character id w.characters ≡ some d))
    → Search w c range_x range_y (find_hit w c range_x range_y ids)
unfolding find_hit
find_hit-Search w c rx ry [] all = (none, refl, nobody)
find_hit-Search w c rx ry (id ∷ ids) all =
    let (d, there) = all id (has-head id ids) in
    let (hit, e, h) = find_hit-Search w c rx ry ids (λ i m. all i (has-tail id i ids m)) in
    let own = find_character-id id w.characters there in
    elim (Bool-cases (id == c.session_id)) [
      | inl same ↦ (hit, rw same e, h)
      | inr other ↦ elim (Bool-cases (is_hit c d rx ry)) [
        | inl struck ↦ (
          some d,
          rw (other, there, struck) refl,
          somebody (ap (λ i. find_character i w.characters) own ∙ there) (rw own other) struck,
        )
        | inr missed ↦ (hit, rw (other, there, missed) e, h)
      ]
    ]

or-Search :
    {w : World} {c : Character} {range_x range_y : ℕ} (rest : Outcome (Option Character))
    (hit : Option Character)
    → Hit w c range_x range_y hit
    → Search w c range_x range_y rest
    → Search w c range_x range_y (elim hit [ none ↦ rest | some other ↦ returned (some other) ])
or-Search rest none h s = s
or-Search rest (some other) h s = (some other, refl, h)

pub find_target-Search :
    (w : World) (c : Character) (range_x range_y : ℕ) (ps : List SectorPos)
    → IsConsistent w
    → ((p : SectorPos) → contains ps p ≡ true → in_array p ≡ true)
    → Search w c range_x range_y (find_target w c range_x range_y ps)
unfolding find_target
find_target-Search w c rx ry [] k inside = (none, refl, nobody)
find_target-Search w c rx ry (p ∷ ps) k inside =
    let (hit, e, h) =
      find_hit-Search w c rx ry (w.sectors p.y p.x)
        (λ id m. let (d, f, _, _) = k.members p.y p.x id m in (d, f)) in
    let rest = find_target-Search w c rx ry ps k (λ q m. inside q (contains-tail p q ps m)) in
    rw (sector_at-eq w p (inside p (contains-head p ps)), e) (or-Search _ hit h rest)

damage_rows-inside :
    (c : Character) (x range_y : ℕ) (b : Bool) (p : SectorPos)
    → c.cur_sector.x < 32
    → c.cur_sector.y < 32
    → (b ≡ true → x < 32)
    → contains (damage_rows c x range_y (sectors_ahead c x b)) p ≡ true
    → in_array p ≡ true
unfolding damage_rows contains
damage_rows-inside c x ry true p cx cy side h = let x_in = side refl in ground arith
damage_rows-inside c x ry false p cx cy side h = ground arith

-- The search stays inside the array of sectors.
pub damage_sectors-inside :
    {c : Character} (range_x range_y : ℕ)
    → Placed c
    → (p : SectorPos) → contains (damage_sectors c range_x range_y) p ≡ true
    → in_array p ≡ true
unfolding damage_sectors
damage_sectors-inside {c} rx ry h p m =
    let x_in : c.cur_sector.x < 32 = ground arith in
    let y_in : c.cur_sector.y < 32 = ground arith in
    elim (Bool-cases (c.dir == dir_rr)) [
      | inl right ↦
          damage_rows-inside c (add32 c.cur_sector.x 1) ry (reaches_right c rx) p x_in y_in
            (λ e. ground arith) (rw right at m)
      | inr left ↦
          damage_rows-inside c (sub32 c.cur_sector.x 1) ry (reaches_left c rx) p x_in y_in
            (λ e. ground arith) (rw left at m)
    ]
