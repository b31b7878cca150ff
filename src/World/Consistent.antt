-- ===== src/World/Consistent.antt =====
-- The invariant that ties characters, sectors and sessions together, and that Update_SectorPos keeps it.
use simple_poject.Common.{
  ℕ, ◌≡◌, sym, ◌∙◌, inl, inr, true, false, ◌&&◌, some, arith, ◌==◌, if◌then◌else◌, Bool-cases,
}
use simple_poject.Sector.{get_sector_around}
use simple_poject.Sector.Around.{get_sector_around-in_map}
use simple_poject.Character.{Character}
use simple_poject.Character.Movement.{Placed}
use simple_poject.World.{World, find_character, has}
use simple_poject.World.Lookup.{known, some_injective}
use simple_poject.World.Frame.{Sent, Reachable}
use simple_poject.World.Packets.{IsPool}

-- A sector lists exactly the characters that stand in it; each stands in the map, in its own sector,
-- and has a session.
pub record IsConsistent (w : World) : Type 0 where
  pub pool : IsPool w.pool_packet
  pub placed : (id : ℕ) (c : Character) → find_character id w.characters ≡ some c → Placed c
  pub listed :
      (id : ℕ) (c : Character)
      → find_character id w.characters ≡ some c
      → has id (w.sectors c.cur_sector.y c.cur_sector.x) ≡ true
  pub served :
      (id : ℕ) (c : Character)
      → find_character id w.characters ≡ some c
      → known id w.sessions ≡ true
  pub members :
      (y x id : ℕ)
      → has id (w.sectors y x) ≡ true
      → (c : Character) × (find_character id w.characters ≡ some c)
        × (c.cur_sector.x ≡ x)
        × (c.cur_sector.y ≡ y)

pub IsConsistent-Sent : (w w' : World) → Sent w w' → IsConsistent w → IsConsistent w'
IsConsistent-Sent w w' s k = record {
  pool = rw s.pool k.pool;
  placed = λ id c e. k.placed id c (rw s.characters at e);
  listed = λ id c e. rw s.sectors (k.listed id c (rw s.characters at e));
  served = λ id c e. s.lasting.sessions id ∙ k.served id c (rw s.characters at e);
  members = λ y x id h. rw s.characters (k.members y x id (rw s.sectors at h));
}

-- The sectors round any position lie in the array, and their characters have sessions.
pub around-Reachable :
    (w : World) (sector_x sector_y : ℕ)
    → IsConsistent w
    → Reachable w (get_sector_around sector_x sector_y)
around-Reachable w sx sy k p h =
    let inside = get_sector_around-in_map sx sy p h in
    (ground arith, λ id m. let (c, e, _, _) = k.members p.y p.x id m in k.served id c e)

-- `w'` is `w` but for one of its characters, which is now `c` and in its sector only.
pub record Replaced (w w' : World) (c : Character) : Type 0 where
  pub pool : w'.pool_packet ≡ w.pool_packet
  pub sessions : w'.sessions ≡ w.sessions
  pub queue : w'.disconnect_queue ≡ w.disconnect_queue
  pub served : known c.session_id w.sessions ≡ true
  pub placed : Placed c
  pub find :
      (id : ℕ)
      → find_character id w'.characters
        ≡ (if c.session_id == id then some c else find_character id w.characters)
  pub has_it :
      (y x id : ℕ)
      → has id (w'.sectors y x) ≡ (
          if c.session_id == id
          then y == c.cur_sector.y && x == c.cur_sector.x
          else has id (w.sectors y x))

-- What is found afterwards has a property that `c` has, and that the others had.
found-Replaced :
    {w w' : World} {c : Character} (r : Replaced w w' c) (P : ℕ → Character → Type 0)
    → P c.session_id c
    → ((id : ℕ) (d : Character)
        → (c.session_id == id) ≡ false
        → find_character id w.characters ≡ some d
        → P id d)
    → (id : ℕ) (d : Character) → find_character id w'.characters ≡ some d
    → P id d
found-Replaced {w} {w'} {c} r P here there id d e = elim (Bool-cases (c.session_id == id)) [
  | inl same ↦
      let own : c.session_id ≡ id = ground arith in
      let is_c : c ≡ d = some_injective (sym (r.find id ∙ rw same) ∙ e) in rw (← own, ← is_c) here
  | inr other ↦ there id d other (rw other at (sym (r.find id) ∙ e))
]

pub IsConsistent-Replaced :
    {w w' : World} {c : Character} → Replaced w w' c → IsConsistent w → IsConsistent w'
IsConsistent-Replaced {w} {w'} {c} r k = record {
  pool = rw r.pool k.pool;
  placed = found-Replaced r (λ id d. Placed d) r.placed (λ id d n f. k.placed id d f);
  listed =
      found-Replaced r (λ id d. has id (w'.sectors d.cur_sector.y d.cur_sector.x) ≡ true)
        (r.has_it c.cur_sector.y c.cur_sector.x c.session_id ∙ ground arith)
        (λ id d n f. r.has_it d.cur_sector.y d.cur_sector.x id ∙ rw n (k.listed id d f));
  served =
      found-Replaced r (λ id d. known id w'.sessions ≡ true) (rw r.sessions r.served)
        (λ id d n f. rw r.sessions (k.served id d f));
  members = λ y x id h. elim (Bool-cases (c.session_id == id)) [
    | inl same ↦
        let at : (y == c.cur_sector.y && x == c.cur_sector.x) ≡ true =
          sym (rw same at (r.has_it y x id)) ∙ h in
        (c, r.find id ∙ rw same, ground arith, ground arith)
    | inr other ↦
        let (d, f, at_x, at_y) = k.members y x id (sym (rw other at (r.has_it y x id)) ∙ h) in
        (d, r.find id ∙ rw other f, at_x, at_y)
  ];
}
