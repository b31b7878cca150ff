-- ===== src/Peterson/Moved.antt =====
-- The places of both threads after one has moved, in Peterson's algorithm, as CppProject/22.10.19 - 피터슨 알고리즘 버그 찾기
-- and CppProject/22.10.12 - Spinlock write it.
use simple_poject.Common.{
  ◌≡◌, refl, sym, ap, ◌∙◌, Bool, true, false, not, List, [], ◌∷◌, ◌++◌, arith, if◌then◌else◌,
}
use mathlib.Core.Path.{subst}
use simple_poject.Peterson.{
  index, Write, set_flag, set_turn, apply, Pc, entering, fencing, yielding, testing_flag,
  testing_turn, critical, adding, leaving, System, update, go, put, Step, raise, fence, yield_turn,
  flag_down, flag_up, turn_other, turn_own, load_cnt, store_cnt, lower, drain,
}
use simple_poject.Peterson.Writes.{
  no_turn, own_flag, last_flag, no_flag, no_turn-append, own_flag-append, own_flag-tail,
  own_flag-other, last_flag-flag, last_flag-turn, gives, ends_turn-append, gives_of_ends,
}
use simple_poject.Peterson.Places.{Waits, Waits-drain, IsExclusive, Loads}

module _ {s : System} (k : IsExclusive s) where
  open k use {own, waits, given, first}

  pub Waits-at : {p : Pc} (i : Bool) → s.pc i ≡ p → Waits i p (s.mem.flag i) (s.buffer i)
  Waits-at i at = subst (λ p. Waits i p (s.mem.flag i) (s.buffer i)) at (waits i)

  -- The places of both threads after `i` has moved.
  abbrev pub Moved : Bool → System → Type 0
  Moved i t = (j : Bool) → Waits j (t.pc j) (t.mem.flag j) (t.buffer j)

  pub go-Moved : (i : Bool) (p : Pc) → Waits i p (s.mem.flag i) (s.buffer i) → Moved i (go s i p)
  go-Moved true p h true = h
  go-Moved true p h false = waits false
  go-Moved false p h true = waits true
  go-Moved false p h false = h

  pub put-Moved :
      (i : Bool) (w : Write) (p : Pc)
      → Waits i p (s.mem.flag i) (s.buffer i ++ w ∷ [])
      → Moved i (put s i w p)
  put-Moved true w p h true = h
  put-Moved true w p h false = waits false
  put-Moved false w p h true = waits true
  put-Moved false w p h false = h

  pub drain-Moved :
      (i : Bool) (w : Write) (ws : List Write)
      → s.buffer i ≡ w ∷ ws
      → Moved i (record s { mem = apply s.mem w; buffer = update s.buffer i ws })
  drain-Moved i w ws at j =
      by_threads i j (ap (own_flag i) (sym at) ∙ own i)
        (subst (λ b. Waits i (s.pc i) (s.mem.flag i) b) at (waits i))
    where
      by_threads :
          (i j : Bool)
          → own_flag i (w ∷ ws) ≡ true
          → Waits i (s.pc i) (s.mem.flag i) (w ∷ ws)
          → Waits j (s.pc j) ((apply s.mem w).flag j) (update s.buffer i ws j)
      by_threads true true o h = Waits-drain true (s.pc true) s.mem w ws o h
      by_threads false false o h = Waits-drain false (s.pc false) s.mem w ws o h
      by_threads true false o h =
          subst (λ d. Waits false (s.pc false) d (s.buffer false))
            (sym (own_flag-other true s.mem w ws o)) (waits false)
      by_threads false true o h =
          subst (λ d. Waits true (s.pc true) d (s.buffer true))
            (sym (own_flag-other false s.mem w ws o)) (waits true)

  pub raised :
      (fenced : Bool) (i : Bool)
      → s.pc i ≡ entering
      → Waits i
          (if fenced then fencing else yielding)
          (s.mem.flag i)
          (s.buffer i ++ set_flag i true ∷ [])
  raised true i at = (
    no_turn-append (s.buffer i) i true (Waits-at i at),
    last_flag-flag (s.mem.flag i) (s.buffer i) i true,
  )
  raised false i at = (
    no_turn-append (s.buffer i) i true (Waits-at i at),
    last_flag-flag (s.mem.flag i) (s.buffer i) i true,
  )

  pub Step-Moved :
      {fenced : Bool} (i : Bool) {t : System} (st : Step fenced s i t) → Loads st → Moved i t
  unfolding gives last_flag no_turn no_flag
  Step-Moved {fenced} i (raise at) l = put-Moved i (set_flag i true) _ (raised fenced i at)
  Step-Moved i (fence at e) l = go-Moved i yielding (Waits-at i at)
  Step-Moved i (yield_turn at) l =
      let h = Waits-at i at in
      put-Moved i _ testing_flag (
        gives_of_ends (index (not i)) (s.buffer i ++ set_turn (index (not i)) ∷ [])
            (ends_turn-append (index (not i)) (s.buffer i) h.0),
        last_flag-turn (s.mem.flag i) (s.buffer i) _ ∙ h.1,
      )
  Step-Moved i (flag_down at e) l =
      let h = (Waits-at i at).1 in
      go-Moved i critical (l, subst (λ b. last_flag (s.mem.flag i) b ≡ true) l h)
  Step-Moved i (flag_up at e) l =
      let h = (Waits-at i at).1 in
      go-Moved i testing_turn (l, subst (λ b. last_flag (s.mem.flag i) b ≡ true) l h)
  Step-Moved i (turn_other at e) l =
      let h = Waits-at i at in go-Moved i testing_flag (rw h.0 refl, rw h.0 h.1)
  Step-Moved i (turn_own at e) l = go-Moved i critical (Waits-at i at)
  Step-Moved i (load_cnt at) l = go-Moved i (adding _) (Waits-at i at)
  Step-Moved i (store_cnt at) l =
      let h = Waits-at i at in put-Moved i _ leaving (rw h.0 refl, rw h.0 refl, h.1)
  Step-Moved i (lower at) l =
      put-Moved i (set_flag i false) entering
        (no_turn-append (s.buffer i) i false (Waits-at i at).0)
  Step-Moved i (drain {w = w} {ws = ws} at) l = drain-Moved i w ws at

module _ {s : System} (k : IsExclusive s) {fenced : Bool} where
  open k use {own, waits, given, first}

  pub Step-own :
      (i : Bool) {t : System} (st : Step fenced s i t) → (j : Bool) → own_flag j (t.buffer j) ≡ true
  unfolding own_flag
  Step-own false (raise at) false = own_flag-append false (s.buffer false) _ (own false) refl
  Step-own true (raise at) true = own_flag-append true (s.buffer true) _ (own true) refl
  Step-own false (yield_turn at) false = own_flag-append false (s.buffer false) _ (own false) refl
  Step-own true (yield_turn at) true = own_flag-append true (s.buffer true) _ (own true) refl
  Step-own false (store_cnt at) false = own_flag-append false (s.buffer false) _ (own false) refl
  Step-own true (store_cnt at) true = own_flag-append true (s.buffer true) _ (own true) refl
  Step-own false (lower at) false = own_flag-append false (s.buffer false) _ (own false) refl
  Step-own true (lower at) true = own_flag-append true (s.buffer true) _ (own true) refl
  Step-own false (drain {w = w} {ws = ws} at) false =
      own_flag-tail false w ws (ap (own_flag false) (sym at) ∙ own false)
  Step-own true (drain {w = w} {ws = ws} at) true =
      own_flag-tail true w ws (ap (own_flag true) (sym at) ∙ own true)
  Step-own i st j = ground (arith, own j)
