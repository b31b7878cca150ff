-- ===== src/Peterson/Writes.antt =====
-- The writes that wait in a buffer in Peterson's algorithm, as CppProject/22.10.19 - 피터슨 알고리즘 버그 찾기
-- and CppProject/22.10.12 - Spinlock write it.
use simple_poject.Common.{
  ℕ, ◌≡◌, refl, Bool, true, false, not, ◌&&◌, List, [], ◌∷◌, ◌++◌, arith, ◌==◌,
}
use simple_poject.Peterson.{same, Memory, Write, set_flag, set_turn, set_cnt, apply}

-- Writes that wait: none of turn; no flag but the thread's own; the flag that they leave; and none of
-- turn but the last, which gives it to `o`.
unfoldable pub no_turn : List Write → Bool
no_turn [] = true
no_turn (set_turn n ∷ ws) = false
no_turn (set_flag i b ∷ ws) = no_turn ws
no_turn (set_cnt n ∷ ws) = no_turn ws

unfoldable pub own_flag : Bool → List Write → Bool
own_flag i [] = true
own_flag i (set_turn n ∷ ws) = own_flag i ws
own_flag i (set_flag j b ∷ ws) = same i j && own_flag i ws
own_flag i (set_cnt n ∷ ws) = own_flag i ws

unfoldable pub last_flag : Bool → List Write → Bool
last_flag d [] = d
last_flag d (set_turn n ∷ ws) = last_flag d ws
last_flag d (set_flag j b ∷ ws) = last_flag b ws
last_flag d (set_cnt n ∷ ws) = last_flag d ws

unfoldable pub no_flag : List Write → Bool
no_flag [] = true
no_flag (set_turn n ∷ ws) = no_flag ws
no_flag (set_flag j b ∷ ws) = false
no_flag (set_cnt n ∷ ws) = no_flag ws

unfoldable pub ends_turn : ℕ → List Write → Bool
ends_turn o [] = false
ends_turn o (set_turn n ∷ []) = n == o
ends_turn o (set_turn n ∷ w ∷ ws) = false
ends_turn o (set_flag i b ∷ ws) = ends_turn o ws
ends_turn o (set_cnt n ∷ ws) = ends_turn o ws

pub no_turn-append :
    (ws : List Write) (i b : Bool) → no_turn ws ≡ true → no_turn (ws ++ set_flag i b ∷ []) ≡ true
unfolding no_turn
no_turn-append [] i b h = refl
no_turn-append (set_turn n ∷ ws) i b h = cc
no_turn-append (set_flag j c ∷ ws) i b h = no_turn-append ws i b h
no_turn-append (set_cnt n ∷ ws) i b h = no_turn-append ws i b h

pub own_flag-append :
    (i : Bool) (ws : List Write) (w : Write)
    → own_flag i ws ≡ true
    → own_flag i (w ∷ []) ≡ true
    → own_flag i (ws ++ w ∷ []) ≡ true
unfolding own_flag
own_flag-append i [] w h g = g
own_flag-append i (set_turn n ∷ ws) w h g = own_flag-append i ws w h g
own_flag-append i (set_flag j c ∷ ws) w h g = ground (arith, own_flag-append i ws w)
own_flag-append i (set_cnt n ∷ ws) w h g = own_flag-append i ws w h g

pub own_flag-tail :
    (i : Bool) (w : Write) (ws : List Write) → own_flag i (w ∷ ws) ≡ true → own_flag i ws ≡ true
unfolding own_flag
own_flag-tail i (set_turn n) ws h = h
own_flag-tail i (set_flag j b) ws h = ground arith
own_flag-tail i (set_cnt n) ws h = h

-- A thread's writes leave the other's flag alone.
pub own_flag-other :
    (i : Bool) (m : Memory) (w : Write) (ws : List Write)
    → own_flag i (w ∷ ws) ≡ true
    → (apply m w).flag (not i) ≡ m.flag (not i)
unfolding own_flag
own_flag-other i m (set_turn n) ws h = refl
own_flag-other true m (set_flag true b) ws h = refl
own_flag-other false m (set_flag false b) ws h = refl
own_flag-other true m (set_flag false b) ws h = cc
own_flag-other false m (set_flag true b) ws h = cc
own_flag-other i m (set_cnt n) ws h = refl

pub last_flag-flag :
    (d : Bool) (ws : List Write) (i b : Bool) → last_flag d (ws ++ set_flag i b ∷ []) ≡ b
unfolding last_flag
last_flag-flag d [] i b = refl
last_flag-flag d (set_turn n ∷ ws) i b = last_flag-flag d ws i b
last_flag-flag d (set_flag j c ∷ ws) i b = last_flag-flag c ws i b
last_flag-flag d (set_cnt n ∷ ws) i b = last_flag-flag d ws i b

pub last_flag-turn :
    (d : Bool) (ws : List Write) (n : ℕ) → last_flag d (ws ++ set_turn n ∷ []) ≡ last_flag d ws
unfolding last_flag
last_flag-turn d [] n = refl
last_flag-turn d (set_turn k ∷ ws) n = last_flag-turn d ws n
last_flag-turn d (set_flag j c ∷ ws) n = last_flag-turn c ws n
last_flag-turn d (set_cnt k ∷ ws) n = last_flag-turn d ws n

-- The same, or none at all.
unfoldable pub gives : ℕ → List Write → Bool
unfolding ends_turn
gives o [] = true
gives o (w ∷ ws) = ends_turn o (w ∷ ws)

pub ends_turn-append :
    (o : ℕ) (ws : List Write) → no_turn ws ≡ true → ends_turn o (ws ++ set_turn o ∷ []) ≡ true
unfolding no_turn ends_turn
ends_turn-append o [] h = ground arith
ends_turn-append o (set_turn n ∷ ws) h = cc
ends_turn-append o (set_flag j c ∷ ws) h = ends_turn-append o ws h
ends_turn-append o (set_cnt n ∷ ws) h = ends_turn-append o ws h

pub gives_of_ends : (o : ℕ) (ws : List Write) → ends_turn o ws ≡ true → gives o ws ≡ true
unfolding ends_turn gives
gives_of_ends o [] h = refl
gives_of_ends o (w ∷ ws) h = h

pub last_flag-tail :
    (i : Bool) (m : Memory) (w : Write) (ws : List Write)
    → own_flag i (w ∷ ws) ≡ true
    → last_flag ((apply m w).flag i) ws ≡ last_flag (m.flag i) (w ∷ ws)
unfolding own_flag last_flag
last_flag-tail i m (set_turn n) ws h = refl
last_flag-tail true m (set_flag true b) ws h = refl
last_flag-tail false m (set_flag false b) ws h = refl
last_flag-tail true m (set_flag false b) ws h = cc
last_flag-tail false m (set_flag true b) ws h = cc
last_flag-tail i m (set_cnt n) ws h = refl

pub no_turn-tail : (w : Write) (ws : List Write) → no_turn (w ∷ ws) ≡ true → no_turn ws ≡ true
unfolding no_turn
no_turn-tail (set_turn n) ws h = cc
no_turn-tail (set_flag i b) ws h = h
no_turn-tail (set_cnt n) ws h = h

pub no_flag-tail :
    (i : Bool) (m : Memory) (w : Write) (ws : List Write)
    → no_flag (w ∷ ws) ≡ true
    → (no_flag ws ≡ true) × ((apply m w).flag i ≡ m.flag i)
unfolding no_flag
no_flag-tail i m (set_turn n) ws h = (h, refl)
no_flag-tail i m (set_flag j b) ws h = cc
no_flag-tail i m (set_cnt n) ws h = (h, refl)

pub gives-tail : (o : ℕ) (w : Write) (ws : List Write) → gives o (w ∷ ws) ≡ true → gives o ws ≡ true
unfolding gives ends_turn
gives-tail o w [] h = refl
gives-tail o (set_turn n) (v ∷ ws) h = cc
gives-tail o (set_flag i b) (v ∷ ws) h = h
gives-tail o (set_cnt n) (v ∷ ws) h = h
