-- ===== src/Handler/Sends.antt =====
-- What the server sends when a character comes, changes its sector or goes is sent: no call of
-- SCPacket in Server.cpp of CppProject/22.10.10 - MMO TCPFighter Server fails on a consistent world.
use simple_poject.Common.{
  ℕ, ◌≤◌, ◌≡◌, refl, ◌∙◌, inl, inr, List, [], ◌∷◌, true, Option, none, some, arith, ◌==◌,
  if◌then◌else◌, length, Bool-cases,
}
use simple_poject.Common.Outcome.{Outcome, ◌>>=◌}
use simple_poject.MakePacket.Layout.{Packet}
use simple_poject.Sector.{SectorPos, contains, get_sector_around, get_changed_sector_around}
use simple_poject.Sector.Around.{contains-head, contains-tail}
use simple_poject.Sector.Changed.{get_changed_sector_around_lem}
use simple_poject.Character.{Character}
use simple_poject.World.{World, find_character, has, in_array, packet_of, send_packet_unicast}
use simple_poject.World.Lookup.{known, has-head, has-tail}
use simple_poject.World.Frame.{
  Sent, Sent-refl, Sends, Sends-bind, unicast-Sends, sector_at-eq, Reachable, around-Sends,
}
use simple_poject.World.Packets.{IsPool, packet_of_lem}
use simple_poject.World.Consistent.{IsConsistent, IsConsistent-Sent, around-Reachable}
use simple_poject.Handler.{
  tell_each, tell_sectors, create_my, create_other, create_acting, create_moving,
  character_sector_update, create_my_character, disconnect_character,
}

-- Every id of the list has a character.
abbrev AllFound : World → List ℕ → Type 0
AllFound w ids =
    (i : ℕ) → has i ids ≡ true → (c : Character) × (find_character i w.characters ≡ some c)

abbrev IsShort : (Character → List Packet) → Type 0
IsShort tell = (c : Character) → length (tell c) ≤ 300

AllFound-tail : (w : World) (i : ℕ) (ids : List ℕ) → AllFound w (i ∷ ids) → AllFound w ids
AllFound-tail w i ids a j h = a j (has-tail i j ids h)

AllFound-Sent : (w w' : World) (ids : List ℕ) → Sent w w' → AllFound w ids → AllFound w' ids
AllFound-Sent w w' ids s a j h = let (c, e) = a j h in (c, rw s.characters e)

AllFound-head :
    (w : World) (i : ℕ) (ids : List ℕ)
    → AllFound w (i ∷ ids)
    → (c : Character) × (find_character i w.characters ≡ some c)
AllFound-head w i ids a = a i (has-head i ids)

pub packet-Sends :
    {w : World} (ks : List Packet) (f : List ℕ → Outcome World)
    → IsPool w.pool_packet
    → length ks ≤ 300
    → ((packet : List ℕ) → Sends w (f packet))
    → Sends w (packet_of w ks >>= f)
packet-Sends {w} ks f pool short s = rw (packet_of_lem w ks pool short) (s _)

-- `pass` is left out or not.
pass-Sends :
    {w : World} {o next : Outcome World} (i : ℕ) (pass : Option ℕ)
    → Sends w o
    → Sends w next
    → Sends w (elim pass [ none ↦ o | some p ↦ if i == p then next else o ])
pass-Sends i none s t = s
pass-Sends i (some p) s t = elim (Bool-cases (i == p)) [ inl h ↦ rw h t | inr h ↦ rw h s ]

tell_each-Sends :
    (w : World) (id : ℕ) (ids : List ℕ) (tell : Character → List Packet) (pass : Option ℕ)
    → IsPool w.pool_packet
    → IsShort tell
    → known id w.sessions ≡ true
    → AllFound w ids
    → Sends w (tell_each w id ids tell pass)
unfolding tell_each
tell_each-Sends w id [] tell pass pool short k a = (w, refl, Sent-refl w)
tell_each-Sends w id (i ∷ ids) tell pass pool short k a =
    let (c, found) = AllFound-head w i ids a in
    let rest : AllFound w ids = AllFound-tail w i ids a in
    let told : (packet : List ℕ)
        → Sends w (send_packet_unicast w id packet >>= λ w'. tell_each w' id ids tell pass) =
      λ packet.
        let (v, e, s) = unicast-Sends w id packet k in
        Sends-bind (λ w'. tell_each w' id ids tell pass) e s
          (tell_each-Sends v id ids tell pass (rw s.pool pool) short (s.lasting.sessions id ∙ k)
            (AllFound-Sent w v ids s rest)) in
    pass-Sends i pass (rw found (packet-Sends (tell c) _ pool (short c) told))
      (tell_each-Sends w id ids tell pass pool short k rest)

tell_sectors-Sends :
    (w : World) (id : ℕ) (ps : List SectorPos) (tell : Character → List Packet) (pass : Option ℕ)
    → IsConsistent w
    → IsShort tell
    → known id w.sessions ≡ true
    → ((p : SectorPos) → contains ps p ≡ true → in_array p ≡ true)
    → Sends w (tell_sectors w id ps tell pass)
unfolding tell_sectors
tell_sectors-Sends w id [] tell pass c short k inside = (w, refl, Sent-refl w)
tell_sectors-Sends w id (p ∷ ps) tell pass c short k inside =
    let all : AllFound w (w.sectors p.y p.x) =
      λ i h. let (d, e, _, _) = c.members p.y p.x i h in (d, e) in
    let (v, e, s) = tell_each-Sends w id (w.sectors p.y p.x) tell pass c.pool short k all in
    rw (sector_at-eq w p (inside p (contains-head p ps))) (
      Sends-bind (λ w'. tell_sectors w' id ps tell pass) e s
        (tell_sectors-Sends v id ps tell pass (IsConsistent-Sent w v s c) short
          (s.lasting.sessions id ∙ k) (λ q h. inside q (contains-tail p q ps h))))

create_moving-IsShort : IsShort create_moving
create_moving-IsShort c = ground arith

create_acting-IsShort : IsShort create_acting
create_acting-IsShort c = ground arith

sectors-Reachable :
    {w : World} (ps : List SectorPos) (sector_x sector_y : ℕ)
    → IsConsistent w
    → ((p : SectorPos)
        → contains ps p ≡ true
        → contains (get_sector_around sector_x sector_y) p ≡ true)
    → Reachable w ps
sectors-Reachable {w} ps sx sy c among p h = around-Reachable w sx sy c p (among p h)

-- A chain of two sends.
Sends-then :
    {u : World} {o : Outcome World} {f : World → Outcome World}
    → Sends u o
    → IsConsistent u
    → ((v : World) → Sent u v → IsConsistent v → Sends v (f v))
    → Sends u (o >>= f)
Sends-then {u} {o} {f} (v, e, s) c g = Sends-bind f e s (g v s (IsConsistent-Sent u v s c))

-- On a consistent world CharacterSectorUpdate, called for a character with a session, returns, whatever
-- its old sector is. It leaves the characters and the sectors alone, and no session is gone.
pub character_sector_update-Sends :
    (w : World) (c : Character)
    → IsConsistent w
    → known c.session_id w.sessions ≡ true
    → Sends w (character_sector_update w c)
unfolding character_sector_update
character_sector_update-Sends w c k served =
    let (removed, added) = get_changed_sector_around c.old_sector c.cur_sector in
    let changed = get_changed_sector_around_lem c.old_sector c.cur_sector in
    let out : (p : SectorPos)
        → contains removed p ≡ true
        → contains (get_sector_around c.old_sector.x c.old_sector.y) p ≡ true =
      λ p h. let e = (changed p).0 in ground arith in
    let in' : (p : SectorPos)
        → contains added p ≡ true
        → contains (get_sector_around c.cur_sector.x c.cur_sector.y) p ≡ true =
      λ p h. let e = (changed p).1 in ground arith in
    packet-Sends (Packet.delete_character c.session_id ∷ []) _ k.pool (ground arith) (λ gone.
      Sends-then (around-Sends w removed gone none (sectors-Reachable removed _ _ k out)) k
        (λ w1 s1 k1.
          Sends-then
            (tell_sectors-Sends w1 c.session_id removed
              (λ d. Packet.delete_character d.session_id ∷ []) none k1 (λ d. ground arith)
              (s1.lasting.sessions c.session_id ∙ served)
              (λ p h. (sectors-Reachable removed _ _ k1 out p h).0))
            k1
            (λ w2 s2 k2. packet-Sends (create_moving c) _ k2.pool (create_moving-IsShort c) (λ come.
              Sends-then (around-Sends w2 added come none (sectors-Reachable added _ _ k2 in')) k2
                (λ w3 s3 k3.
                  tell_sectors-Sends w3 c.session_id added create_moving none k3
                    create_moving-IsShort
                    (s3.lasting.sessions c.session_id
                      ∙ s2.lasting.sessions c.session_id
                      ∙ s1.lasting.sessions c.session_id
                      ∙ served)
                    (λ p h. (sectors-Reachable added _ _ k3 in' p h).0))))))

-- On a consistent world CREATE_MY_CHARACTER, called for a character with a session, returns. It leaves
-- the characters and the sectors alone, and no session is gone.
pub create_my_character-Sends :
    (w : World) (c : Character)
    → IsConsistent w
    → known c.session_id w.sessions ≡ true
    → Sends w (create_my_character w c)
unfolding create_my_character
create_my_character-Sends w c k served =
    let around = get_sector_around c.cur_sector.x c.cur_sector.y in
    packet-Sends (create_my c ∷ []) _ k.pool (ground arith) (λ mine.
      Sends-then (unicast-Sends w c.session_id mine served) k (λ w1 s1 k1.
        packet-Sends (create_other c ∷ []) _ k1.pool (ground arith) (λ other.
          Sends-then (around-Sends w1 around other (some c.session_id) (around-Reachable w1 _ _ k1))
            k1
            (λ w2 s2 k2.
              tell_sectors-Sends w2 c.session_id around create_acting (some c.session_id) k2
                create_acting-IsShort
                (s2.lasting.sessions c.session_id ∙ s1.lasting.sessions c.session_id ∙ served)
                (λ p h. (around-Reachable w2 _ _ k2 p h).0)))))

-- Disconnect_Character asks less of the world: the character is in no set any more.
pub disconnect_character-reaches :
    (w : World) (c : Character)
    → IsPool w.pool_packet
    → Reachable w (get_sector_around c.cur_sector.x c.cur_sector.y)
    → Sends w (disconnect_character w c)
unfolding disconnect_character
disconnect_character-reaches w c pool r =
    packet-Sends (Packet.delete_character c.session_id ∷ []) _ pool (ground arith)
      (λ gone. around-Sends w _ gone (some c.session_id) r)

-- On a consistent world Disconnect_Character returns, and only sends.
pub disconnect_character-Sends :
    (w : World) (c : Character) → IsConsistent w → Sends w (disconnect_character w c)
disconnect_character-Sends w c k =
    disconnect_character-reaches w c k.pool (around-Reachable w _ _ k)
