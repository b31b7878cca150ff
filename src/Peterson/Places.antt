-- ===== src/Peterson/Places.antt =====
-- What the place of a thread says of its writes, in Peterson's algorithm, as CppProject/22.10.19 - 피터슨 알고리즘 버그 찾기
-- and CppProject/22.10.12 - Spinlock write it.
use simple_poject.Common.{
  ◌≡◌, refl, ◌∙◌, ◌⊎◌, inl, inr, Bool, true, false, not, List, [], ◌∷◌, ◌++◌, arith,
}
use simple_poject.Peterson.{
  index, Memory, Write, set_flag, set_turn, set_cnt, apply, Pc, entering, fencing, yielding,
  testing_flag, testing_turn, critical, adding, leaving, System, Step, flag_down, flag_up, Reach,
  start, later, is_critical,
}
use simple_poject.Peterson.Writes.{
  no_turn, own_flag, last_flag, no_flag, ends_turn, gives, last_flag-tail, no_turn-tail,
  no_flag-tail, gives-tail,
}

-- What a thread's place says of its writes; `d` is its flag in memory.
abbrev pub Waits : Bool → Pc → Bool → List Write → Type 0
Waits i entering d ws = no_turn ws ≡ true
Waits i fencing d ws = (no_turn ws ≡ true) × (last_flag d ws ≡ true)
Waits i yielding d ws = (no_turn ws ≡ true) × (last_flag d ws ≡ true)
Waits i testing_flag d ws = (gives (index (not i)) ws ≡ true) × (last_flag d ws ≡ true)
Waits i testing_turn d ws = (ws ≡ []) × (d ≡ true)
Waits i critical d ws = (ws ≡ []) × (d ≡ true)
Waits i (adding n) d ws = (ws ≡ []) × (d ≡ true)
Waits i leaving d ws = (no_turn ws ≡ true) × (no_flag ws ≡ true) × (d ≡ true)

-- The thread's write of turn has reached memory.
abbrev pub landed : Pc → List Write → Bool
landed testing_flag [] = true
landed testing_flag (w ∷ ws) = false
landed testing_turn ws = true
landed critical ws = true
landed (adding n) ws = true
landed leaving ws = true
landed p ws = false

pub record IsExclusive (s : System) : Type 0 where
  pub own : (i : Bool) → own_flag i (s.buffer i) ≡ true
  pub waits : (i : Bool) → Waits i (s.pc i) (s.mem.flag i) (s.buffer i)
  pub given : (i : Bool) → landed (s.pc i) (s.buffer i) ≡ true → (s.mem.turn ≡ 0) ⊎ (s.mem.turn ≡ 1)
  pub first :
      (i : Bool)
      → is_critical (s.pc i) ≡ true
      → landed (s.pc (not i)) (s.buffer (not i)) ≡ true
      → s.mem.turn ≡ index i

pub Waits-drain :
    (i : Bool) (p : Pc) (m : Memory) (w : Write) (ws : List Write)
    → own_flag i (w ∷ ws) ≡ true
    → Waits i p (m.flag i) (w ∷ ws)
    → Waits i p ((apply m w).flag i) ws
Waits-drain i entering m w ws o h = no_turn-tail w ws h
Waits-drain i fencing m w ws o h = (no_turn-tail w ws h.0, last_flag-tail i m w ws o ∙ h.1)
Waits-drain i yielding m w ws o h = (no_turn-tail w ws h.0, last_flag-tail i m w ws o ∙ h.1)
Waits-drain i testing_flag m w ws o h = (gives-tail _ w ws h.0, last_flag-tail i m w ws o ∙ h.1)
Waits-drain i testing_turn m w ws o h = cc
Waits-drain i critical m w ws o h = cc
Waits-drain i (adding n) m w ws o h = cc
Waits-drain i leaving m w ws o h =
    let (left, flag) = no_flag-tail i m w ws h.1 in (no_turn-tail w ws h.0, left, flag ∙ h.2)

-- A thread whose write of turn has landed has its flag up.
pub landed-flag :
    (i : Bool) (p : Pc) (d : Bool) (ws : List Write)
    → Waits i p d ws
    → landed p ws ≡ true
    → d ≡ true
unfolding last_flag
landed-flag i entering d ws h l = cc
landed-flag i fencing d ws h l = cc
landed-flag i yielding d ws h l = cc
landed-flag i testing_flag d [] h l = h.1
landed-flag i testing_flag d (w ∷ ws) h l = cc
landed-flag i testing_turn d ws h l = h.1
landed-flag i critical d ws h l = h.1
landed-flag i (adding n) d ws h l = h.1
landed-flag i leaving d ws h l = h.2

pub not_landed : (ws : List Write) (w : Write) → landed testing_flag (ws ++ w ∷ []) ≡ false
not_landed [] w = refl
not_landed (v ∷ ws) w = refl

-- A write that leaves the buffer either leaves turn alone, or is the thread's, which lands.
pub drain_cases :
    (i : Bool) (p : Pc) (m : Memory) (w : Write) (ws : List Write)
    → Waits i p (m.flag i) (w ∷ ws)
    → (((apply m w).turn ≡ m.turn) × (landed p ws ≡ landed p (w ∷ ws)))
      ⊎ (((apply m w).turn ≡ index (not i)) × (is_critical p ≡ false))
unfolding no_turn gives ends_turn
drain_cases i entering m (set_turn n) ws h = cc
drain_cases i fencing m (set_turn n) ws h = cc
drain_cases i yielding m (set_turn n) ws h = cc
drain_cases i testing_flag m (set_turn n) [] h = inr (ground arith, refl)
drain_cases i testing_flag m (set_turn n) (v ∷ ws) h = cc
drain_cases i testing_flag m (set_flag j b) [] h = cc
drain_cases i testing_flag m (set_flag j b) (v ∷ ws) h = inl (refl, refl)
drain_cases i testing_flag m (set_cnt n) [] h = cc
drain_cases i testing_flag m (set_cnt n) (v ∷ ws) h = inl (refl, refl)
drain_cases i testing_turn m w ws h = cc
drain_cases i critical m w ws h = cc
drain_cases i (adding n) m w ws h = cc
drain_cases i leaving m (set_turn n) ws h = cc
drain_cases i p m (set_flag j b) ws h = inl (refl, refl)
drain_cases i p m (set_cnt n) ws h = inl (refl, refl)

-- The tests of the while loop find the thread's buffer empty.
abbrev pub Loads : {fenced : Bool} {s : System} {i : Bool} {t : System} → Step fenced s i t → Type 0
Loads {s = s} {i = i} (flag_down at e) = s.buffer i ≡ []
Loads {s = s} {i = i} (flag_up at e) = s.buffer i ≡ []
Loads st = Unit {0}

abbrev pub IsDrained : {fenced : Bool} {s : System} → Reach fenced s → Type 0
IsDrained start = Unit {0}
IsDrained (later r i st) = IsDrained r × Loads st
