-- ===== src/Server/Erase.antt =====
-- The two maps of Server.cpp in CppProject/22.10.10 - MMO TCPFighter Server after erase and insert.
use simple_poject.Common.{
  ℕ, ◌≡◌, refl, ap, ◌∙◌, inl, inr, List, [], ◌∷◌, Bool, Option, true, false, not, ◌&&◌, none, some,
  arith, ◌==◌, if◌then◌else◌, Bool-cases,
}
use simple_poject.Character.{Character}
use simple_poject.World.{Session, find_character, find_session, has}
use simple_poject.World.Lookup.{known}
use simple_poject.World.Distinct.{distinct, ids, socks}
use simple_poject.Server.{erase_sock, erase_character}

pub find-erase_character :
    (i id : ℕ) (cs : List Character)
    → find_character i (erase_character id cs) ≡ (if id == i then none else find_character i cs)
unfolding find_character erase_character
find-erase_character i id [] = ground arith
find-erase_character i id (c ∷ cs) = ground (arith, find-erase_character i id cs)

erase_sock-absent :
    (sock : ℕ) (ss : List Session) → has sock (socks ss) ≡ false → erase_sock sock ss ≡ ss
unfolding erase_sock has
erase_sock-absent sock [] n = refl
erase_sock-absent sock (t ∷ ts) n = ground (arith, erase_sock-absent sock ts)

find_session-absent :
    (id : ℕ) (ss : List Session) → has id (ids ss) ≡ false → find_session id ss ≡ none
unfolding find_session has
find_session-absent id [] n = refl
find_session-absent id (t ∷ ts) n = ground (arith, find_session-absent id ts)

find_session-socks :
    (id : ℕ) (ss : List Session) {s : Session}
    → find_session id ss ≡ some s
    → has s.sock (socks ss) ≡ true
unfolding find_session has
find_session-socks id [] h = cc
find_session-socks id (t ∷ ts) {s} h = ground (arith, find_session-socks id ts {s = s})

-- Where neither ids nor sockets occur twice, erasing a session's socket takes out that session only.
pub find-erase_sock :
    (i id sock : ℕ) (ss : List Session) {s : Session}
    → distinct (ids ss) ≡ true
    → distinct (socks ss) ≡ true
    → find_session id ss ≡ some s
    → s.sock ≡ sock
    → find_session i (erase_sock sock ss) ≡ (if id == i then none else find_session i ss)
unfolding distinct erase_sock find_session
find-erase_sock i id sock [] d e h own = cc
find-erase_sock i id sock (t ∷ ts) {s} d e h own = elim (Bool-cases (t.session_id == id)) [
  | inl here ↦
      let is : t ≡ s = ground arith in
      let at : t.sock ≡ sock = ap (λ (u : Session). u.sock) is ∙ own in
      let same : t.session_id ≡ id = ground arith in
      let gone = erase_sock-absent sock ts (ground arith) in
      let none_left = find_session-absent id ts (ground arith) in ground (arith, gone, none_left)
  | inr away ↦
      let h' : find_session id ts ≡ some s = ground arith in
      let there = find_session-socks id ts h' in
      let ih = find-erase_sock i id sock ts (ground arith) (ground arith) h' own in
      ground (arith, ih, there)
]

has-erase_sock-ids :
    (i sock : ℕ) (ss : List Session)
    → has i (ids ss) ≡ false
    → has i (ids (erase_sock sock ss)) ≡ false
unfolding erase_sock has
has-erase_sock-ids i sock [] n = n
has-erase_sock-ids i sock (t ∷ ts) n = ground (arith, has-erase_sock-ids i sock ts)

has-erase_sock-socks :
    (i sock : ℕ) (ss : List Session)
    → has i (socks ss) ≡ false
    → has i (socks (erase_sock sock ss)) ≡ false
unfolding erase_sock has
has-erase_sock-socks i sock [] n = n
has-erase_sock-socks i sock (t ∷ ts) n = ground (arith, has-erase_sock-socks i sock ts)

pub distinct-erase_sock :
    (sock : ℕ) (ss : List Session)
    → distinct (ids ss) ≡ true
    → distinct (socks ss) ≡ true
    → (distinct (ids (erase_sock sock ss)) ≡ true) × (distinct (socks (erase_sock sock ss)) ≡ true)
unfolding distinct erase_sock
distinct-erase_sock sock [] d e = (d, e)
distinct-erase_sock sock (t ∷ ts) d e =
    let ih = distinct-erase_sock sock ts (ground arith) (ground arith) in
    let a = has-erase_sock-ids t.session_id sock ts (ground arith) in
    let b = has-erase_sock-socks t.sock sock ts (ground arith) in
    (ground (arith, ih, a), ground (arith, ih, b))

-- A session is known exactly if it is found.
pub known_found :
    (id : ℕ) (ss : List Session)
    → known id ss ≡ elim (find_session id ss) [ none ↦ false | some s ↦ true ]
unfolding known find_session
known_found id [] = refl
known_found id (t ∷ ts) = ground (arith, known_found id ts)

pub found-but :
    {A : Type 0} (b : Bool) {o : Option A} {a : A}
    → (if b then none else o) ≡ some a
    → (b ≡ false) × (o ≡ some a)
found-but true h = cc
found-but false h = (refl, h)

pub known-erase_sock :
    (i id sock : ℕ) (ss : List Session) {s : Session}
    → distinct (ids ss) ≡ true
    → distinct (socks ss) ≡ true
    → find_session id ss ≡ some s
    → s.sock ≡ sock
    → known i (erase_sock sock ss) ≡ (not (id == i) && known i ss)
known-erase_sock i id sock ss d e h own =
    let f = find-erase_sock i id sock ss d e h own in
    ground (arith, f, known_found i ss, known_found i (erase_sock sock ss))
