-- ===== src/LockFreeStack/Spec.antt =====
-- What LockFreeStack.h of CppProject/22.12.03 - LockFreeStack is to be for its threads: one stack, on
-- which each Push and each Pop acts at one moment between its call and its return.
use simple_poject.Common.{ℕ, ◌≡◌, List, [], ◌∷◌, Option, none, some}
use simple_poject.LockFreeStack.State.{update}

-- Where a thread's call is: a Push has its value still to push, or is done; a Pop has taken its answer,
-- or has not.
pub data Status (A : Type 0) : Type 0 where
  at_rest : Status A
  pushing : (d : A) → Status A
  pushed : Status A
  popping : Status A
  popped : (r : Option A) → Status A

pub record Spec (A : Type 0) : Type 0 where
  pub contents : List A
  pub status : ℕ → Status A

-- What a thread's caller sees.
pub data Event (A : Type 0) : Type 0 where
  push_call : (i : ℕ) (d : A) → Event A
  push_return : (i : ℕ) → Event A
  pop_call : (i : ℕ) → Event A
  pop_return : (i : ℕ) (r : Option A) → Event A

-- The events up to now, the latest first.
abbrev pub heard : {A : Type 0} → Option (Event A) → List (Event A) → List (Event A)
heard none events = events
heard (some e) events = e ∷ events

-- A step, and what is seen of it: the calls and the returns are, the moment between them is not.
pub data SpecStep {A : Type 0} (a : Spec A) : Option (Event A) → Spec A → Type 0 where
  calls_push :
      (i : ℕ) (d : A)
      → a.status i ≡ at_rest
      → SpecStep a (some (push_call i d)) (record a { status = update a.status i (pushing d) })
  pushes :
      (i : ℕ) (d : A)
      → a.status i ≡ pushing d
      → SpecStep a none (record { contents = d ∷ a.contents; status = update a.status i pushed })
  push_returns :
      (i : ℕ)
      → a.status i ≡ pushed
      → SpecStep a (some (push_return i)) (record a { status = update a.status i at_rest })
  calls_pop :
      (i : ℕ)
      → a.status i ≡ at_rest
      → SpecStep a (some (pop_call i)) (record a { status = update a.status i popping })
  pops :
      (i : ℕ) (d : A) (rest : List A)
      → a.status i ≡ popping
      → a.contents ≡ d ∷ rest
      → SpecStep a none (record { contents = rest; status = update a.status i (popped (some d)) })
  pops_nothing :
      (i : ℕ)
      → a.status i ≡ popping
      → a.contents ≡ []
      → SpecStep a none (record a { status = update a.status i (popped none) })
  pop_returns :
      (i : ℕ) (r : Option A)
      → a.status i ≡ popped r
      → SpecStep a (some (pop_return i r)) (record a { status = update a.status i at_rest })

-- The runs of the stack, from the empty one with no call under way, by the events of the run.
pub data SpecReach {A : Type 0} : List (Event A) → Spec A → Type 0 where
  empty : SpecReach [] (record { contents = []; status = λ i. at_rest })
  then_step :
      {events : List (Event A)} {e : Option (Event A)} {a b : Spec A}
      → SpecReach events a
      → SpecStep a e b
      → SpecReach (heard e events) b
