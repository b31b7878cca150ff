-- ===== src/Peterson/Exclusion.antt =====
-- Mutual exclusion in Peterson's algorithm, as CppProject/22.10.19 - 피터슨 알고리즘 버그 찾기 and
-- CppProject/22.10.12 - Spinlock write it.
use simple_poject.Common.{
  ℕ, ◌≡◌, ◌≢◌, refl, sym, ap, ◌∙◌, ◌⊎◌, inl, inr, Bool, true, false, not, List, ◌∷◌, arith,
  Bool-cases,
}
use mathlib.Core.Path.{subst}
use simple_poject.Peterson.{
  index, Write, set_turn, apply, seen, Pc, entering, fencing, yielding, testing_flag, testing_turn,
  critical, adding, leaving, System, update, Step, raise, fence, yield_turn, flag_down, flag_up,
  turn_other, turn_own, load_cnt, store_cnt, lower, drain, init, Reach, start, later, is_critical,
}
use simple_poject.Peterson.Writes.{no_turn, own_flag}
use simple_poject.Peterson.Places.{
  Waits, landed, landed-flag, not_landed, drain_cases, IsExclusive, Loads, IsDrained,
}
use simple_poject.Peterson.Moved.{Waits-at, Step-Moved, Step-own}

module _ {s : System} (k : IsExclusive s) where
  open k use {own, waits, given, first}

  -- A write that leaves the buffer and is not of turn.
  landed-drain :
      (i j : Bool) {w : Write} {ws : List Write}
      → s.buffer i ≡ w ∷ ws
      → landed (s.pc i) ws ≡ landed (s.pc i) (w ∷ ws)
      → landed (s.pc j) (update s.buffer i ws j) ≡ true
      → landed (s.pc j) (s.buffer j) ≡ true
  landed-drain true true at e h = ap (landed (s.pc true)) at ∙ sym e ∙ h
  landed-drain false false at e h = ap (landed (s.pc false)) at ∙ sym e ∙ h
  landed-drain true false at e h = h
  landed-drain false true at e h = h

  at_drain :
      (i : Bool) {w : Write} {ws : List Write}
      → s.buffer i ≡ w ∷ ws
      → Waits i (s.pc i) (s.mem.flag i) (w ∷ ws)
  at_drain i at = subst (λ b. Waits i (s.pc i) (s.mem.flag i) b) at (waits i)

  zero_or_one : (i : Bool) {n : ℕ} → n ≡ index (not i) → (n ≡ 0) ⊎ (n ≡ 1)
  zero_or_one true e = inl e
  zero_or_one false e = inr e

  flag_of : (j : Bool) → landed (s.pc j) (s.buffer j) ≡ true → s.mem.flag j ≡ true
  flag_of j h = landed-flag j (s.pc j) (s.mem.flag j) (s.buffer j) (waits j) h

  -- Where a thread was before `i` went to `p`.
  landed-update :
      (i j : Bool) (p : Pc) (b : List Write)
      → (landed p b ≡ true → landed (s.pc i) (s.buffer i) ≡ true)
      → landed (update s.pc i p j) (update s.buffer i b j) ≡ true
      → landed (s.pc j) (s.buffer j) ≡ true
  landed-update true true p b f h = f h
  landed-update false false p b f h = f h
  landed-update true false p b f h = h
  landed-update false true p b f h = h

  landed-go :
      (i j : Bool) (p : Pc)
      → (landed p (s.buffer i) ≡ true → landed (s.pc i) (s.buffer i) ≡ true)
      → landed (update s.pc i p j) (s.buffer j) ≡ true
      → landed (s.pc j) (s.buffer j) ≡ true
  landed-go true true p f h = f h
  landed-go false false p f h = f h
  landed-go true false p f h = h
  landed-go false true p f h = h

  critical-update :
      (i j : Bool) (p : Pc)
      → (is_critical p ≡ true → is_critical (s.pc i) ≡ true)
      → is_critical (update s.pc i p j) ≡ true
      → is_critical (s.pc j) ≡ true
  critical-update true true p f h = f h
  critical-update false false p f h = f h
  critical-update true false p f h = h
  critical-update false true p f h = h

  -- A thread that enters is the first, or the one that was in before is.
  enter-first :
      (i j : Bool)
      → (landed (s.pc (not i)) (s.buffer (not i)) ≡ true → s.mem.turn ≡ index i)
      → is_critical (update s.pc i critical j) ≡ true
      → landed (s.pc (not j)) (s.buffer (not j)) ≡ true
      → s.mem.turn ≡ index j
  enter-first true true f c h = f h
  enter-first false false f c h = f h
  enter-first true false f c h = first false c h
  enter-first false true f c h = first true c h

  landed_at :
      {p : Pc} {b : Bool} (i : Bool)
      → s.pc i ≡ p
      → landed p (s.buffer i) ≡ b
      → landed (s.pc i) (s.buffer i) ≡ b
  landed_at i at h = ap (λ p. landed p (s.buffer i)) at ∙ h

  critical_at :
      {p : Pc} (i : Bool) → s.pc i ≡ p → is_critical p ≡ true → is_critical (s.pc i) ≡ true
  critical_at i at h = ap is_critical at ∙ h

  IsDrain : {fenced : Bool} {i : Bool} {t : System} → Step fenced s i t → Type 0
  IsDrain (drain at) = Unit {0}
  IsDrain st = ⊥

  Step-landed :
      {fenced : Bool} (i : Bool) {t : System} (st : Step fenced s i t)
      → Loads st
      → (¬ IsDrain st)
      → (j : Bool) → landed (t.pc j) (t.buffer j) ≡ true
      → (landed (s.pc j) (s.buffer j) ≡ true) × (t.mem.turn ≡ s.mem.turn)
  unfolding IsDrain
  Step-landed {fenced = true} i (raise at) l d j h = (landed-update i j fencing _ (λ g. cc) h, refl)
  Step-landed {fenced = false} i (raise at) l d j h =
      (landed-update i j yielding _ (λ g. cc) h, refl)
  Step-landed i (fence at e) l d j h = (landed-go i j yielding (λ g. cc) h, refl)
  Step-landed i (yield_turn at) l d j h = (
    landed-update i j testing_flag _
        (λ g. let n = not_landed (s.buffer i) (set_turn (index (not i))) in cc) h,
    refl,
  )
  Step-landed i (flag_down at e) l d j h =
      (landed-go i j critical (λ g. landed_at i at (ap (landed testing_flag) l)) h, refl)
  Step-landed i (flag_up at e) l d j h =
      (landed-go i j testing_turn (λ g. landed_at i at (ap (landed testing_flag) l)) h, refl)
  Step-landed i (turn_other at e) l d j h =
      (landed-go i j testing_flag (λ g. landed_at i at refl) h, refl)
  Step-landed i (turn_own at e) l d j h =
      (landed-go i j critical (λ g. landed_at i at refl) h, refl)
  Step-landed i (load_cnt at) l d j h =
      (landed-go i j (adding _) (λ g. landed_at i at refl) h, refl)
  Step-landed i (store_cnt at) l d j h =
      (landed-update i j leaving _ (λ g. landed_at i at refl) h, refl)
  Step-landed i (lower at) l d j h = (landed-update i j entering _ (λ g. cc) h, refl)
  Step-landed i (drain at) l d j h = absurd (d tt)

  own_turn : (i : Bool) (n : ℕ) → (n ≡ 0) ⊎ (n ≡ 1) → n ≢ index (not i) → n ≡ index i
  own_turn true n h e = ground arith
  own_turn false n h e = ground arith

  other_first : (i j : Bool) (p : Bool → Bool) → p i ≡ false → p j ≡ true → index (not i) ≡ index j
  other_first true true p h g = cc
  other_first false false p h g = cc
  other_first true false p h g = refl
  other_first false true p h g = refl

  Step-critical :
      {fenced : Bool} (i : Bool) {t : System} (st : Step fenced s i t)
      → Loads st
      → (j : Bool) → is_critical (t.pc j) ≡ true
      → landed (s.pc (not j)) (s.buffer (not j)) ≡ true
      → s.mem.turn ≡ index j
  Step-critical {fenced = true} i (raise at) l j c h =
      first j (critical-update i j fencing (λ g. cc) c) h
  Step-critical {fenced = false} i (raise at) l j c h =
      first j (critical-update i j yielding (λ g. cc) c) h
  Step-critical i (fence at e) l j c h = first j (critical-update i j yielding (λ g. cc) c) h
  Step-critical i (yield_turn at) l j c h = first j (critical-update i j testing_flag (λ g. cc) c) h
  Step-critical i (flag_down at e) l j c h =
      let down = subst (λ b. (seen s.mem b).flag (not i) ≡ false) l e in
      enter-first i j (λ g. let up = flag_of (not i) g in cc) c h
  Step-critical i (flag_up at e) l j c h = first j (critical-update i j testing_turn (λ g. cc) c) h
  Step-critical i (turn_other at e) l j c h =
      first j (critical-update i j testing_flag (λ g. cc) c) h
  Step-critical i (turn_own at e) l j c h =
      let nothing = (Waits-at k i at).0 in
      let other = subst (λ b. (seen s.mem b).turn ≢ index (not i)) nothing e in
      enter-first i j (λ g. own_turn i s.mem.turn (given i (landed_at i at refl)) other) c h
  Step-critical i (load_cnt at) l j c h =
      first j (critical-update i j (adding _) (λ g. critical_at i at refl) c) h
  Step-critical i (store_cnt at) l j c h =
      first j (critical-update i j leaving (λ g. critical_at i at refl) c) h
  Step-critical i (lower at) l j c h = first j (critical-update i j entering (λ g. cc) c) h
  Step-critical i (drain at) l j c h = first j c h

  drain-given :
      {w : Write} {ws : List Write} (i : Bool)
      → s.buffer i ≡ w ∷ ws
      → (j : Bool) → landed (s.pc j) (update s.buffer i ws j) ≡ true
      → ((apply s.mem w).turn ≡ 0) ⊎ ((apply s.mem w).turn ≡ 1)
  drain-given {w} {ws} i at j h = elim (drain_cases i (s.pc i) s.mem w ws (at_drain i at)) [
    | inl (turn_left, landed_left) ↦ rw turn_left (given j (landed-drain i j at landed_left h))
    | inr (turn_mine, outside) ↦ zero_or_one i turn_mine
  ]

  drain-first :
      {w : Write} {ws : List Write} (i : Bool)
      → s.buffer i ≡ w ∷ ws
      → (j : Bool) → is_critical (s.pc j) ≡ true
      → landed (s.pc (not j)) (update s.buffer i ws (not j)) ≡ true
      → (apply s.mem w).turn ≡ index j
  drain-first {w} {ws} i at j c h = elim (drain_cases i (s.pc i) s.mem w ws (at_drain i at)) [
    | inl (turn_left, landed_left) ↦ turn_left ∙ first j c (landed-drain i (not j) at landed_left h)
    | inr (turn_mine, outside) ↦ turn_mine ∙ other_first i j (λ t. is_critical (s.pc t)) outside c
  ]

  Step-given :
      {fenced : Bool} (i : Bool) {t : System} (st : Step fenced s i t)
      → Loads st
      → (j : Bool) → landed (t.pc j) (t.buffer j) ≡ true
      → (t.mem.turn ≡ 0) ⊎ (t.mem.turn ≡ 1)
  unfolding IsDrain
  Step-given i (drain at) l j h = drain-given i at j h
  Step-given i st l j h =
      let (before, same_turn) = Step-landed i st l (λ d. d) j h in
      subst (λ n. (n ≡ 0) ⊎ (n ≡ 1)) (sym same_turn) (given j before)

  Step-first :
      {fenced : Bool} (i : Bool) {t : System} (st : Step fenced s i t)
      → Loads st
      → (j : Bool) → is_critical (t.pc j) ≡ true
      → landed (t.pc (not j)) (t.buffer (not j)) ≡ true
      → t.mem.turn ≡ index j
  unfolding IsDrain
  Step-first i (drain at) l j c h = drain-first i at j c h
  Step-first i st l j c h =
      let (before, same_turn) = Step-landed i st l (λ d. d) (not j) h in
      same_turn ∙ Step-critical i st l j c before

  Step-IsExclusive :
      {fenced : Bool} (i : Bool) {t : System} (st : Step fenced s i t) → Loads st → IsExclusive t
  Step-IsExclusive i st l = record {
    own = Step-own k i st;
    waits = Step-Moved k i st l;
    given = Step-given i st l;
    first = Step-first i st l;
  }

init-IsExclusive : IsExclusive init
unfolding own_flag no_turn
init-IsExclusive = record {
  own = λ i. refl;
  waits = λ i. refl;
  given = λ i h. cc;
  first = λ i c h. cc;
}

Reach-IsExclusive : {fenced : Bool} {s : System} (r : Reach fenced s) → IsDrained r → IsExclusive s
Reach-IsExclusive start d = init-IsExclusive
Reach-IsExclusive (later r i st) (d, l) = Step-IsExclusive (Reach-IsExclusive r d) i st l

critical-landed : (p : Pc) (ws : List Write) → is_critical p ≡ true → landed p ws ≡ true
critical-landed p ws h = ground arith

-- With the fence or without it, while every test of the other's flag finds the thread's own writes in
-- memory, as a fence after the write of turn would see to, the two threads are never both between the
-- while loop and flag[i] = false, where cnt++ stands.
pub mutual_exclusion :
    {fenced : Bool} {s : System} (r : Reach fenced s)
    → IsDrained r
    → is_critical (s.pc false) ≡ true
    → is_critical (s.pc true) ≡ false
mutual_exclusion {s = s} r d h = elim (Bool-cases (is_critical (s.pc true))) [
  | inr out ↦ out
  | inl both ↦
      let k = Reach-IsExclusive r d in
      let zero_turn = k.first false h (critical-landed (s.pc true) (s.buffer true) both) in
      let one_turn = k.first true both (critical-landed (s.pc false) (s.buffer false) h) in
      absurd (omega arith)
]
