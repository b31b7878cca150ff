-- ===== src/Server/Parting.antt =====
-- What one round of Disconnect_Session of Server.cpp in CppProject/22.10.10 - MMO TCPFighter Server leaves
-- of the world.
use simple_poject.Common.{
  ℕ, ◌≡◌, refl, sym, ap, ◌∙◌, List, ◌∷◌, true, false, not, ◌&&◌, none, some, arith, ◌==◌,
  if◌then◌else◌,
}
use simple_poject.Sector.{get_sector_around}
use simple_poject.Character.{Character}
use simple_poject.World.{World, Session, find_character, find_session, has, erase_id, update_sector}
use simple_poject.World.Lookup.{known, find_character-id}
use simple_poject.World.Distinct.{distinct}
use simple_poject.World.Sessions.{IsSound}
use simple_poject.World.Frame.{Reachable}
use simple_poject.World.Sets.{has-erased}
use simple_poject.World.Consistent.{IsConsistent, around-Reachable}
use simple_poject.World.Resector.{Stepped, has-own}
use simple_poject.World.Serving.{IsServing}
use simple_poject.Server.{erase_sock, erase_character, pop}
use simple_poject.Server.Erase.{
  find-erase_character, find-erase_sock, distinct-erase_sock, known-erase_sock, found-but,
}

-- The world in which the character is in no set.
abbrev pub erased : World → Character → World
erased w c = record w {
  sectors =
      update_sector w.sectors c.cur_sector
        (erase_id c.session_id (w.sectors c.cur_sector.y c.cur_sector.x));
}

pub standing :
    {w : World} {c : Character} (id : ℕ) → find_character id w.characters ≡ some c → Stepped w c
standing {w} {c} id there = record {
  before = c;
  found = ap (λ i. find_character i w.characters) (find_character-id id w.characters there) ∙ there;
  same_sector = refl;
}

pub has-sectors_erased :
    {w : World} {c : Character} (id : ℕ)
    → IsConsistent w
    → find_character id w.characters ≡ some c
    → (y x j : ℕ)
    → has j ((erased w c).sectors y x) ≡ (not (c.session_id == j) && has j (w.sectors y x))
has-sectors_erased {w} {c} id k there =
    has-erased w.sectors c.cur_sector c.session_id (has-own k (standing id there))

pub erased-Reachable :
    {w : World} {c : Character} (id : ℕ)
    → IsConsistent w
    → find_character id w.characters ≡ some c
    → Reachable (erased w c) (get_sector_around c.cur_sector.x c.cur_sector.y)
erased-Reachable {w} {c} id k there p h =
    let (inside, all) = around-Reachable w c.cur_sector.x c.cur_sector.y k p h in
    (inside, λ j m. let e = has-sectors_erased id k there p.y p.x j in all j (ground arith))

-- What the round leaves, when the packets are sent and the session that was found is erased.
abbrev pub parted : World → Session → ℕ → World
parted w s id = record w {
  characters = erase_character id w.characters;
  sessions = erase_sock s.sock w.sessions;
  disconnect_queue = pop w.disconnect_queue;
}

-- `u` is the world before, `w` the one in which the character is in no set and the packets are sent.
pub record Parting (u w : World) (id : ℕ) (s : Session) : Type 0 where
  pub before : IsServing u
  pub sound : IsSound w
  pub pool : w.pool_packet ≡ u.pool_packet
  pub characters : w.characters ≡ u.characters
  pub sessions : (i : ℕ) → known i w.sessions ≡ known i u.sessions
  pub sectors : (y x i : ℕ) → has i (w.sectors y x) ≡ (not (id == i) && has i (u.sectors y x))
  pub there : find_session id w.sessions ≡ some s
  pub rest : List ℕ
  pub queue : w.disconnect_queue ≡ id ∷ rest

pub find-parted :
    {u w : World} {s : Session} (id : ℕ)
    → Parting u w id s
    → (i : ℕ)
    → find_character i (parted w s id).characters
      ≡ (if id == i then none else find_character i u.characters)
find-parted {u} {w} id p i =
    find-erase_character i id w.characters
    ∙ ap (λ cs. if id == i then none else find_character i cs) p.characters

pub known-parted :
    {u w : World} {s : Session} (id : ℕ)
    → Parting u w id s
    → (i : ℕ) → known i (parted w s id).sessions ≡ (not (id == i) && known i u.sessions)
known-parted {u} {w} {s} id p i =
    known-erase_sock i id s.sock w.sessions p.sound.ids_once p.sound.socks_once p.there refl
    ∙ ap (λ b. not (id == i) && b) (p.sessions i)

parted-IsConsistent :
    {u w : World} {s : Session} (id : ℕ) → Parting u w id s → IsConsistent (parted w s id)
parted-IsConsistent {u} {w} {s} id p =
    let k = p.before.consistent in
    let others : (i : ℕ) (c : Character)
        → find_character i (parted w s id).characters ≡ some c
        → ((id == i) ≡ false) × (find_character i u.characters ≡ some c) =
      λ i c e. found-but (id == i) (sym (find-parted id p i) ∙ e) in
    record {
      pool = rw p.pool k.pool;
      placed = λ i c e. k.placed i c (others i c e).1;
      listed = λ i c e.
          let (n, f) = others i c e in
          p.sectors c.cur_sector.y c.cur_sector.x i ∙ rw n (k.listed i c f);
      served = λ i c e. let (n, f) = others i c e in known-parted id p i ∙ rw n (k.served i c f);
      members = λ y x i h.
          let e = p.sectors y x i in
          let n : (id == i) ≡ false = ground arith in
          let (c, f, at_x, at_y) = k.members y x i (ground arith) in
          (c, find-parted id p i ∙ rw n f, at_x, at_y);
    }

parted-IsSound : {u w : World} {s : Session} (id : ℕ) → Parting u w id s → IsSound (parted w s id)
unfolding distinct has
parted-IsSound {u} {w} {s} id p =
    let k = p.sound in
    let find : (i : ℕ)
        → find_session i (parted w s id).sessions
          ≡ (if id == i then none else find_session i w.sessions) =
      λ i. find-erase_sock i id s.sock w.sessions k.ids_once k.socks_once p.there refl in
    let once = distinct-erase_sock s.sock w.sessions k.ids_once k.socks_once in
    let popped : pop w.disconnect_queue ≡ p.rest = ap pop p.queue in
    let front_once : distinct (id ∷ p.rest) ≡ true = rw p.queue at k.queue_once in
    record {
      ids_once = once.0;
      socks_once = once.1;
      buffers = λ i t e. k.buffers i t (found-but (id == i) (sym (find i) ∙ e)).1;
      queue_once = ap distinct popped ∙ ground arith;
      queued = λ i h.
          let h' : has i p.rest ≡ true = ap (has i) (sym popped) ∙ h in
          let (t, e, f) = k.queued i (ap (has i) p.queue ∙ ground arith) in
          let n : (id == i) ≡ false = ground arith in (t, find i ∙ rw n e, f);
      flagged = λ i t e f.
          let (n, e') = found-but (id == i) (sym (find i) ∙ e) in
          let h : has i (id ∷ p.rest) ≡ true = ap (has i) (sym p.queue) ∙ k.flagged i t e' f in
          ap (has i) popped ∙ ground arith;
    }

pub parted-IsServing :
    {u w : World} {s : Session} (id : ℕ) → Parting u w id s → IsServing (parted w s id)
parted-IsServing {u} {w} {s} id p = record {
  consistent = parted-IsConsistent id p;
  sound = parted-IsSound id p;
  hosted = λ i h.
      let e = known-parted id p i in
      let n : (id == i) ≡ false = ground arith in
      let (c, f) = p.before.hosted i (ground arith) in (c, find-parted id p i ∙ rw n f);
}
