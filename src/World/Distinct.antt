-- ===== src/World/Distinct.antt =====
-- Keys of the maps of Server.cpp in CppProject/22.10.10 - MMO TCPFighter Server: no two entries of
-- sessionMap share a socket or an id, so that both find the same sessions.
use simple_poject.Common.{
  ℕ, ◌≡◌, refl, inl, inr, List, [], ◌∷◌, ◌++◌, Bool, true, false, not, ◌&&◌, ◌||◌, some, arith,
  ◌==◌, if◌then◌else◌, Bool-cases, map,
}
use simple_poject.World.{Session, find_session, find_sock, set_session, has}
use simple_poject.World.Lookup.{known}

-- No number occurs twice.
unfoldable pub distinct : List ℕ → Bool
unfolding has
distinct [] = true
distinct (x ∷ xs) = not (has x xs) && distinct xs

abbrev pub ids : List Session → List ℕ
ids = map (λ s. s.session_id)

abbrev pub socks : List Session → List ℕ
socks = map (λ s. s.sock)

pub ids-set_session : (s : Session) (ss : List Session) → ids (set_session s ss) ≡ ids ss
unfolding set_session
ids-set_session s [] = refl
ids-set_session s (t ∷ ts) = ground (arith, ids-set_session s ts)

pub socks-set_session :
    (s : Session) (ss : List Session) {old : Session}
    → find_session s.session_id ss ≡ some old
    → s.sock ≡ old.sock
    → socks (set_session s ss) ≡ socks ss
unfolding set_session find_session
socks-set_session s [] there same = refl
socks-set_session s (t ∷ ts) {old} there same = ground (arith, socks-set_session s ts {old = old})

pub find-set_session :
    (id : ℕ) (s : Session) (ss : List Session) {old : Session}
    → find_session s.session_id ss ≡ some old
    → find_session id (set_session s ss)
      ≡ (if s.session_id == id then some s else find_session id ss)
unfolding find_session set_session
find-set_session id s [] there = cc
find-set_session id s (t ∷ ts) {old} there = ground (arith, find-set_session id s ts {old = old})

pub find_session-id :
    (id : ℕ) (ss : List Session) {s : Session} → find_session id ss ≡ some s → s.session_id ≡ id
unfolding find_session
find_session-id id [] h = cc
find_session-id id (t ∷ ts) {s} h = ground (arith, find_session-id id ts {s = s})

pub has-ids : (id : ℕ) (ss : List Session) → has id (ids ss) ≡ known id ss
unfolding has known
has-ids id [] = refl
has-ids id (t ∷ ts) = ground (arith, has-ids id ts)

pub known-find_session :
    (id : ℕ) (ss : List Session) {s : Session} → find_session id ss ≡ some s → known id ss ≡ true
unfolding known find_session
known-find_session id [] h = cc
known-find_session id (t ∷ ts) {s} h = ground (arith, known-find_session id ts {s = s})

find_sock-has :
    (sock : ℕ) (ss : List Session) {s : Session}
    → find_sock sock ss ≡ some s
    → (has sock (socks ss) ≡ true) × (known s.session_id ss ≡ true) × (s.sock ≡ sock)
unfolding has known find_sock
find_sock-has sock [] h = cc
find_sock-has sock (t ∷ ts) {s} h = ground (arith, find_sock-has sock ts {s = s})

pub find_sock-sock :
    (sock : ℕ) (ss : List Session) {s : Session} → find_sock sock ss ≡ some s → s.sock ≡ sock
find_sock-sock sock ss h = let (_, _, own) = find_sock-has sock ss h in own

-- Where ids are distinct, a session found by its socket is found by its id.
pub find_sock-find_session :
    (sock : ℕ) (ss : List Session) {s : Session}
    → distinct (ids ss) ≡ true
    → find_sock sock ss ≡ some s
    → find_session s.session_id ss ≡ some s
unfolding distinct find_sock find_session
find_sock-find_session sock [] d h = cc
find_sock-find_session sock (t ∷ ts) {s} d h = elim (Bool-cases (t.sock == sock)) [
  | inl here ↦ let e : t ≡ s = ground arith in rw e (ground arith)
  | inr there ↦
      let h' : find_sock sock ts ≡ some s = ground arith in
      let (_, k, _) = find_sock-has sock ts h' in
      let e = find_sock-find_session sock ts (ground arith) h' in
      ground (arith, has-ids s.session_id ts)
]

find_session-has :
    (id : ℕ) (ss : List Session) {s : Session}
    → find_session id ss ≡ some s
    → has s.sock (socks ss) ≡ true
unfolding has find_session
find_session-has id [] h = cc
find_session-has id (t ∷ ts) {s} h = ground (arith, find_session-has id ts {s = s})

-- Where sockets are distinct, a session found by its id is found by its socket.
pub find_session-find_sock :
    (id : ℕ) (ss : List Session) {s : Session}
    → distinct (socks ss) ≡ true
    → find_session id ss ≡ some s
    → find_sock s.sock ss ≡ some s
unfolding distinct find_sock find_session
find_session-find_sock id [] d h = cc
find_session-find_sock id (t ∷ ts) {s} d h = elim (Bool-cases (t.session_id == id)) [
  | inl here ↦ let e : t ≡ s = ground arith in rw e (ground arith)
  | inr there ↦
      let h' : find_session id ts ≡ some s = ground arith in
      let e = find_session-find_sock id ts (ground arith) h' in
      ground (arith, find_session-has id ts h')
]

pub has-append : (i : ℕ) (xs ys : List ℕ) → has i (xs ++ ys) ≡ (has i xs || has i ys)
unfolding has
has-append i [] ys = refl
has-append i (x ∷ xs) ys = ground (arith, has-append i xs ys)

pub distinct-snoc :
    (xs : List ℕ) (x : ℕ) → distinct xs ≡ true → has x xs ≡ false → distinct (xs ++ x ∷ []) ≡ true
unfolding distinct has
distinct-snoc [] x d n = ground arith
distinct-snoc (y ∷ ys) x d n = ground (arith, distinct-snoc ys x, has-append y ys (x ∷ []))
