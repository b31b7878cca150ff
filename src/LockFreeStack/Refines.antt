-- ===== src/LockFreeStack/Refines.antt =====
-- LockFreeStack.h of CppProject/22.12.03 - LockFreeStack against one stack.
use simple_poject.Common.{
  map, ℕ, ◌≡◌, ◌≢◌, refl, sym, ap, ap₂, ◌∙◌, List, [], ◌∷◌, true, false, Option, none, some, arith,
  ◌==◌, if◌then◌else◌, Bool-cases, inl, inr,
}
use mathlib.Core.Path.{subst, fun_ext}
use simple_poject.World.{has}
use simple_poject.LockFreeStack.State.{
  Memory, Pc, update, idle, alloc_start, alloc_load, alloc_test, alloc_swap, alloc_count,
  new_capacity, new_count, new_node, clear, fill, push_start, push_load, push_link, push_swap,
  push_count, pop_start, pop_load, pop_test, pop_swap, pop_count, pop_read, free_check, free_start,
  free_load, free_link, free_swap, free_count, answered, failed,
}
use simple_poject.LockFreeStack.Access.{
  Move, call_push, fill_node, push_put, count_push, call_pop, pop_top, pop_empty, pop_next,
  pop_take, check_failed, give, stray,
}
use simple_poject.LockFreeStack.System.{System}
use simple_poject.LockFreeStack.Top.{address_of}
use simple_poject.LockFreeStack.Versioned.{tail, Chain, IsFresh}
use simple_poject.LockFreeStack.Places.{
  Place, held, stack_view, stack_cell, IsLinked, IsSound, stack_after,
}
use simple_poject.LockFreeStack.Turns.{own, Move-ne-failed}
use simple_poject.LockFreeStack.Sound.{Move-IsLeft}
use simple_poject.LockFreeStack.History.{event}
use simple_poject.LockFreeStack.Spec.{
  Status, at_rest, pushing, pushed, popping, popped, Spec, Event, heard, SpecStep, calls_push,
  pushes, push_returns, calls_pop, pops, pops_nothing, pop_returns, SpecReach, then_step,
}

module _ {A : Type 0} where
  -- A Pop that has found no node has its answer, and one that has taken a node has what lies in it.
  abbrev pub status_of : Memory A → Pc A → Status A
  status_of m idle = at_rest
  status_of m (alloc_start d) = pushing d
  status_of m (alloc_load d u) = pushing d
  status_of m (alloc_test d u c) = pushing d
  status_of m (alloc_swap d u c n) = pushing d
  status_of m (alloc_count d o) = pushing d
  status_of m (new_capacity d) = pushing d
  status_of m (new_count d) = pushing d
  status_of m (new_node d) = pushing d
  status_of m (clear d o) = pushing d
  status_of m (fill d o) = pushing d
  status_of m (push_start d o) = pushing d
  status_of m (push_load d o u) = pushing d
  status_of m (push_link d o u c) = pushing d
  status_of m (push_swap d o u c) = pushing d
  status_of m push_count = pushed
  status_of m pop_start = popping
  status_of m (pop_load u) = popping
  status_of m (pop_test u c) = if address_of c == 0 then popped none else popping
  status_of m (pop_swap u c n) = popping
  status_of m (pop_count o) = popped (some (m.value o))
  status_of m (pop_read o) = popped (some (m.value o))
  status_of m (free_check v o) = popped (some v)
  status_of m (free_start v o) = popped (some v)
  status_of m (free_load v o u) = popped (some v)
  status_of m (free_link v o u c) = popped (some v)
  status_of m (free_swap v o u c) = popped (some v)
  status_of m (free_count v) = popped (some v)
  status_of m (answered r) = popped r
  status_of m failed = at_rest

  -- The values in the nodes of the stack, and the calls under way.
  abbrev pub spec_of : System A → List ℕ → Spec A
  spec_of s nodes = record {
    contents = map s.mem.value nodes;
    status = λ i. status_of s.mem (s.pc i);
  }

  abbrev to_spec : List A → (ℕ → Status A) → Spec A
  to_spec contents status = record { contents = contents; status = status }

  status-left :
      (m m' : Memory A) (p : Pc A)
      → ((o : ℕ) → held p ≡ some o → m'.value o ≡ m.value o)
      → status_of m' p ≡ status_of m p
  status-left m m' (pop_count o) l = ap (λ v. popped (some v)) (l o refl)
  status-left m m' (pop_read o) l = ap (λ v. popped (some v)) (l o refl)
  status-left m m' p l = refl

  map-left :
      (f g : ℕ → A) (nodes : List ℕ)
      → ((o : ℕ) → has o nodes ≡ true → f o ≡ g o)
      → map f nodes ≡ map g nodes
  unfolding has
  map-left f g [] l = refl
  map-left f g (o ∷ rest) l =
      ap₂ ◌∷◌ (l o (ground arith)) (map-left f g rest (λ b h. l b (ground arith)))

module _ {A : Type 0} {s : System A} {free_nodes nodes : List ℕ} {place : ℕ → Place}
    (k : IsSound s free_nodes nodes place) (i : ℕ) where
  open k.placed use {in_stack, holder}

  Move-contents :
      {m' : Memory A} {p p' : Pc A} (mv : Move s.mem p m' p')
      → s.pc i ≡ p
      → map s.mem.value (stack_after mv nodes) ≡ map m'.value (stack_after mv nodes)
  Move-contents (fill_node {o = o'} there) at = map-left _ _ nodes (λ o h.
      let w = (own k i o' (rw at refl)).not_stacked in
      let other : (o' == o) ≡ false = elim (Bool-cases (o' == o)) [
        | inl same ↦
            let e : o' ≡ o = ground arith in let g = subst (λ b. has b nodes ≡ true) (sym e) h in cc
        | inr other ↦ other
      ] in
      rw other refl)
  Move-contents mv at = refl

  Move-status :
      {m' : Memory A} {p p' : Pc A} (mv : Move s.mem p m' p')
      → s.pc i ≡ p
      → ◌≡◌ {A = ℕ → Status A}
          (update (λ j. status_of s.mem (s.pc j)) i (status_of m' p'))
          (λ j. status_of m' (update s.pc i p' j))
  Move-status {m'} mv at = fun_ext (λ j. elim (Bool-cases (i == j)) [
    | inl here ↦ rw here refl
    | inr other ↦ rw other (
        sym (
          status-left s.mem m' (s.pc j) (λ o h.
            let w = holder j o h in
            (Move-IsLeft k i mv at o (ground arith) (ground arith)).value_left)))
  ])

  -- What the move shows of the stack: nothing, or one step with the same event.
  data Follows (a : Spec A) : Option (Event A) → Spec A → Type 0 where
    stays : {b : Spec A} → a ≡ b → Follows a none b
    steps : {e : Option (Event A)} {b : Spec A} → SpecStep a e b → Follows a e b

  abbrev shown : List ℕ → Status A → Spec A
  shown left st = record {
    contents = map s.mem.value left;
    status = update (λ j. status_of s.mem (s.pc j)) i st;
  }

  Move-spec :
      {m' : Memory A} {p p' : Pc A} (mv : Move s.mem p m' p')
      → s.pc i ≡ p
      → shown (stack_after mv nodes) (status_of m' p')
        ≡ spec_of (record { mem = m'; pc = update s.pc i p' }) (stack_after mv nodes)
  Move-spec mv at =
      ap₂ (λ (xs : List A) (f : ℕ → Status A). to_spec xs f) (Move-contents mv at)
        (Move-status mv at)

  quiet :
      {p : Pc A} (st : Status A)
      → s.pc i ≡ p
      → status_of s.mem p ≡ st
      → Follows (spec_of s nodes) none (shown nodes st)
  quiet st at e = stays (
      ap (λ (f : ℕ → Status A). to_spec (map s.mem.value nodes) f)
        (fun_ext (λ j. elim (Bool-cases (i == j)) [
          | inl here ↦
              let same : i ≡ j = ground arith in rw here (rw (← same) (ap (status_of s.mem) at ∙ e))
          | inr other ↦ rw other refl
        ])))

  pub top_nil : address_of s.mem.unique_top ≡ 0 → nodes ≡ []
  top_nil e = nil nodes k.stack.chain
    where
      nil : (l : List ℕ) → Chain s.mem.p_next (address_of s.mem.unique_top) l → l ≡ []
      nil [] c = refl
      nil (o ∷ rest) c = absurd (omega (arith))

  top_cons : address_of s.mem.unique_top ≢ 0 → nodes ≡ address_of s.mem.unique_top ∷ tail nodes
  top_cons e = cons nodes k.stack.chain
    where
      cons :
          (l : List ℕ)
          → Chain s.mem.p_next (address_of s.mem.unique_top) l
          → l ≡ address_of s.mem.unique_top ∷ tail l
      cons [] c = absurd (e c)
      cons (o ∷ rest) c = rw c.0 refl

  Move-Follows :
      {m' : Memory A} {p p' : Pc A} (mv : Move s.mem p m' p')
      → s.pc i ≡ p
      → Follows (spec_of s nodes) (event i mv) (shown (stack_after mv nodes) (status_of m' p'))
  Move-Follows (call_push d) at = steps (calls_push i d (ap (status_of s.mem) at))
  Move-Follows (push_put {d = d} {o = o} e) at =
      let w = subst (IsLinked s.mem) at (k.placed.linked i) in
      rw w.0 (steps (pushes i d (ap (status_of s.mem) at)))
  Move-Follows count_push at = steps (push_returns i (ap (status_of s.mem) at))
  Move-Follows call_pop at = steps (calls_pop i (ap (status_of s.mem) at))
  Move-Follows pop_top at = elim (Bool-cases (address_of s.mem.unique_top == 0)) [
    | inl none_there ↦ rw none_there (
        steps (
          pops_nothing i (ap (status_of s.mem) at) (ap (map s.mem.value) (top_nil (ground arith)))))
    | inr there ↦ rw there (quiet popping at refl)
  ]
  Move-Follows (pop_empty {u = u} {c = c} e) at = quiet (popped none) at (rw e refl)
  Move-Follows (pop_next {u = u} {c = c} some_node there) at =
      quiet popping at (let h : (address_of c == 0) ≡ false = ground arith in rw h refl)
  Move-Follows (pop_take {u = u} {c = c} {n = n} e) at =
      let f = subst (λ p. IsFresh (stack_cell s.mem) (stack_view p)) at (k.stack.fresh i) in
      let is_head = top_cons (subst (λ t. address_of t ≢ 0) e f.0) in
      let held_value : map s.mem.value nodes
          ≡ s.mem.value (address_of c) ∷ map s.mem.value (tail nodes) =
        ap (map s.mem.value) is_head ∙ rw e refl in
      steps (
        pops i (s.mem.value (address_of c)) (map s.mem.value (tail nodes)) (ap (status_of s.mem) at)
          held_value)
  Move-Follows (give {r = r}) at = steps (pop_returns i r (ap (status_of s.mem) at))
  Move-Follows (check_failed there test) at =
      absurd (Move-ne-failed k i (check_failed there test) at refl)
  Move-Follows (stray t no_node) at = absurd (Move-ne-failed k i (stray t no_node) at refl)
  Move-Follows mv at = quiet _ at refl

  pub Move-refines :
      {events : List (Event A)} {m' : Memory A} {p p' : Pc A} (mv : Move s.mem p m' p')
      → s.pc i ≡ p
      → SpecReach events (spec_of s nodes)
      → SpecReach
          (heard (event i mv) events)
          (spec_of (record { mem = m'; pc = update s.pc i p' }) (stack_after mv nodes))
  Move-refines {events} mv at r =
      subst (SpecReach (heard (event i mv) events)) (Move-spec mv at)
        (follow_on (Move-Follows mv at))
    where
      follow_on :
          {e : Option (Event A)} {b : Spec A}
          → Follows (spec_of s nodes) e b
          → SpecReach (heard e events) b
      follow_on (stays e) = subst (SpecReach events) e r
      follow_on (steps st) = then_step r st
