-- ===== src/World/Lookup.antt =====
-- Characters, sessions and the sets of a sector, looked up after they were written.
use simple_poject.Common.{
  ℕ, ◌≡◌, refl, List, [], ◌∷◌, Bool, true, false, not, ◌&&◌, ◌||◌, none, some, arith, sym, ap, ◌∙◌,
  ◌≢◌, ◌⊎◌, inl, inr, ◌==◌, if◌then◌else◌, Bool-cases, map,
}
use simple_poject.Character.{Character}
use simple_poject.World.{
  Session, find_character, find_session, set_character, set_session, has, insert_id, erase_id,
}

-- Whether there is a session with the id.
unfoldable pub known : ℕ → List Session → Bool
known id [] = false
known id (s ∷ ss) = s.session_id == id || known id ss

pub known-set_session :
    (id : ℕ) (s : Session) (ss : List Session) → known id (set_session s ss) ≡ known id ss
unfolding known set_session
known-set_session id s [] = refl
known-set_session id s (t ∷ ts) = ground (arith, known-set_session id s ts)

pub find_session-known :
    (id : ℕ) (ss : List Session)
    → known id ss ≡ true
    → (s : Session) × (find_session id ss ≡ some s) × (s.session_id ≡ id)
unfolding known find_session
find_session-known id [] h = cc
find_session-known id (s ∷ ss) h = elim (Bool-cases (s.session_id == id)) [
  | inl here ↦ (s, ground arith, ground arith)
  | inr there ↦ let (t, e, i) = find_session-known id ss (ground arith) in (t, ground arith, i)
]

pub find_character-id :
    (id : ℕ) (cs : List Character) {c : Character}
    → find_character id cs ≡ some c
    → c.session_id ≡ id
unfolding find_character
find_character-id id [] h = cc
find_character-id id (d ∷ ds) {c} h = ground (arith, find_character-id id ds {c = c})

-- A write through the pointer to a character that is there.
pub find-set_character :
    (id : ℕ) (c : Character) (cs : List Character) {d : Character}
    → find_character c.session_id cs ≡ some d
    → find_character id (set_character c cs)
      ≡ (if c.session_id == id then some c else find_character id cs)
unfolding find_character set_character
find-set_character id c [] h = cc
find-set_character id c (e ∷ es) {d} h = ground (arith, find-set_character id c es {d = d})

pub has-insert_id : (i j : ℕ) (ids : List ℕ) → has j (insert_id i ids) ≡ (i == j || has j ids)
unfolding insert_id has
has-insert_id i j ids = ground arith

pub has-erase_id : (i j : ℕ) (ids : List ℕ) → has j (erase_id i ids) ≡ (not (i == j) && has j ids)
unfolding erase_id has
has-erase_id i j [] = ground arith
has-erase_id i j (k ∷ ks) = ground (arith, has-erase_id i j ks)

pub some_injective : {c d : Character} → some c ≡ some d → c ≡ d
some_injective {c} {d} h = ap (λ o. elim o [ none ↦ c | some e ↦ e ]) h

-- Who is found after the write: the character written, or one of another id, as before.
pub found-set_character :
    (id : ℕ) (c : Character) (cs : List Character) {d e : Character}
    → find_character c.session_id cs ≡ some d
    → find_character id (set_character c cs) ≡ some e
    → ((c.session_id ≡ id) × (e ≡ c)) ⊎ ((c.session_id ≢ id) × (find_character id cs ≡ some e))
found-set_character id c cs {d} {e} there h =
    let find = find-set_character id c cs there in
    elim (Bool-cases (c.session_id == id)) [
      | inl same ↦ inl (ground arith, some_injective (sym h ∙ find ∙ rw same))
      | inr other ↦ inr (ground arith, rw other at (sym find ∙ h))
    ]

pub has-head : (i : ℕ) (ids : List ℕ) → has i (i ∷ ids) ≡ true
unfolding has
has-head i ids = ground arith

pub has-tail : (i j : ℕ) (ids : List ℕ) → has j ids ≡ true → has j (i ∷ ids) ≡ true
unfolding has
has-tail i j ids h = ground arith

-- The ids of the characters are found.
pub ids-found :
    (id : ℕ) (cs : List Character)
    → has id (map (λ c. c.session_id) cs) ≡ true
    → (c : Character) × (find_character id cs ≡ some c)
unfolding has find_character
ids-found id [] h = cc
ids-found id (c ∷ cs) h = elim (Bool-cases (c.session_id == id)) [
  | inl here ↦ (c, rw here refl)
  | inr there ↦ let (d, e) = ids-found id cs (ground arith) in (d, rw there e)
]

pub found-ids :
    (id : ℕ) (cs : List Character) {c : Character}
    → find_character id cs ≡ some c
    → has id (map (λ c. c.session_id) cs) ≡ true
unfolding has find_character
found-ids id [] h = cc
found-ids id (d ∷ ds) {c} h = ground (arith, found-ids id ds {c = c})
