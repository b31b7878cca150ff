-- ===== src/World/Sets.antt =====
-- The pieces of Update_SectorPos: what Erase_Sectors and Insert_Sector of Sector.cpp do to the sets.
use simple_poject.Common.{
  ℕ, ◌≡◌, refl, ◌∙◌, inl, inr, List, true, not, ◌&&◌, some, arith, ◌==◌, if◌then◌else◌, Bool-cases,
}
use simple_poject.Common.Outcome.{returned}
use simple_poject.Sector.{SectorPos}
use simple_poject.Character.{Character}
use simple_poject.World.{
  World, find_character, set_character, has, insert_id, erase_id, update_sector, insert_sector,
  erase_sectors, in_array,
}
use simple_poject.World.Lookup.{find-set_character, has-insert_id, has-erase_id}
use simple_poject.World.Frame.{sector_at-eq}

-- Two writes to one character.
pub find-written-twice :
    (id : ℕ) (c d : Character) (cs : List Character) {b : Character}
    → d.session_id ≡ c.session_id
    → find_character c.session_id cs ≡ some b
    → find_character id (set_character d (set_character c cs))
      ≡ (if d.session_id == id then some d else find_character id cs)
find-written-twice id c d cs same there =
    let once = find-set_character id c cs there in
    let own : find_character d.session_id (set_character c cs) ≡ some c =
      rw same (find-set_character c.session_id c cs there ∙ ground arith) in
    find-set_character id d (set_character c cs) own ∙ ground (arith, once)

-- The sets after a character has been erased from the only sector that it was in.
pub has-erased :
    (f : ℕ → ℕ → List ℕ) (p : SectorPos) (id : ℕ)
    → ((y x : ℕ) → has id (f y x) ≡ (y == p.y && x == p.x))
    → (y x j : ℕ)
    → has j (update_sector f p (erase_id id (f p.y p.x)) y x) ≡ (not (id == j) && has j (f y x))
has-erased f p id own y x j = elim (Bool-cases (y == p.y && x == p.x)) [
  | inl here ↦
      let y_is : y ≡ p.y = ground arith in
      let x_is : x ≡ p.x = ground arith in
      rw here (has-erase_id id j (f p.y p.x) ∙ rw (y_is, x_is) refl)
  | inr away ↦ elim (Bool-cases (id == j)) [
    | inl same ↦ let j_is : id ≡ j = ground arith in rw (away, same) (rw j_is at (own y x) ∙ away)
    | inr other ↦ rw (away, other) refl
  ]
]

-- Then inserted into another.
pub has-moved :
    (f : ℕ → ℕ → List ℕ) (p q : SectorPos) (id : ℕ)
    → ((y x : ℕ) → has id (f y x) ≡ (y == p.y && x == p.x))
    → let g = update_sector f p (erase_id id (f p.y p.x)) in
      (y x j : ℕ)
      → has j (update_sector g q (insert_id id (g q.y q.x)) y x)
        ≡ (if id == j then y == q.y && x == q.x else has j (f y x))
has-moved f p q id own y x j =
    let g = update_sector f p (erase_id id (f p.y p.x)) in
    elim (Bool-cases (y == q.y && x == q.x)) [
      | inl here ↦
          let y_is : y ≡ q.y = ground arith in
          let x_is : x ≡ q.x = ground arith in
          rw here (
            has-insert_id id j (g q.y q.x)
            ∙ rw (has-erased f p id own q.y q.x j, y_is, x_is) (ground arith))
      | inr away ↦ rw away (has-erased f p id own y x j ∙ ground arith)
    ]

pub erase_sectors-returned :
    (w : World) (c : Character)
    → in_array c.cur_sector ≡ true
    → has c.session_id (w.sectors c.cur_sector.y c.cur_sector.x) ≡ true
    → erase_sectors w c
      ≡ returned (record w {
        sectors =
            update_sector w.sectors c.cur_sector
              (erase_id c.session_id (w.sectors c.cur_sector.y c.cur_sector.x));
      })
unfolding erase_sectors
erase_sectors-returned w c inside there = rw (sector_at-eq w c.cur_sector inside, there) refl

pub insert_sector-returned :
    (w : World) (c : Character)
    → in_array c.cur_sector ≡ true
    → insert_sector w c
      ≡ returned (record w {
        sectors =
            update_sector w.sectors c.cur_sector
              (insert_id c.session_id (w.sectors c.cur_sector.y c.cur_sector.x));
      })
unfolding insert_sector
insert_sector-returned w c inside = rw (sector_at-eq w c.cur_sector inside) refl
