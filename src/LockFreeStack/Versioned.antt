-- ===== src/LockFreeStack/Versioned.antt =====
-- A list of nodes below a numbered top, which both LockFreeStack.h and ObjectPool.h of
-- CppProject/22.12.03 - LockFreeStack keep: what a thread knows of it, and the steps that threads take.
pub mod Kept
use simple_poject.Common.{
  ℕ, ◌^◌, ◌<◌, ◌≤◌, ◌≡◌, ◌≢◌, refl, sym, ap, ◌∙◌, List, [], ◌∷◌, true, false, Option, none, some,
  arith, ◌==◌, if◌then◌else◌, Bool-cases, inl, inr,
}
use mathlib.Core.Path.{subst}
use simple_poject.World.{has}
use simple_poject.World.Distinct.{distinct}
use simple_poject.LockFreeStack.State.{update}
use simple_poject.LockFreeStack.Top.{
  unique_word, address_of, increment64, number_of, address-unique_word, number-unique_word,
  increment_few,
}

pub record Cell : Type 0 where
  pub unique : ℕ
  pub top : ℕ
  pub next : ℕ → ℕ

-- A thread's number `u`, its copy `w` of the top, and what it has read from the node there, `n`.
pub data View : Type 0 where
  outside : View
  numbered : (u : ℕ) → View
  seen : (u w : ℕ) → View
  ready : (u w n : ℕ) → View

abbrev pub number : View → Option ℕ
number outside = none
number (numbered u) = some u
number (seen u w) = some u
number (ready u w n) = some u

abbrev pub copy : View → Option ℕ
copy outside = none
copy (numbered u) = none
copy (seen u w) = some w
copy (ready u w n) = some w

abbrev pub tail : List ℕ → List ℕ
tail [] = []
tail (a ∷ rest) = rest

-- One step of one thread, and the list of nodes it leaves.
pub data Turn (c : Cell) (nodes : List ℕ) : View → Cell → List ℕ → View → Type 0 where
  stay : {v : View} → Turn c nodes v c nodes v
  count :
      Turn c nodes outside
        (record c { unique = increment64 c.unique })
        nodes
        (numbered (increment64 c.unique))
  load : {u : ℕ} → Turn c nodes (numbered u) c nodes (seen u c.top)
  follow :
      {u w : ℕ}
      → address_of w ≢ 0
      → Turn c nodes (seen u w) c nodes (ready u w (c.next (address_of w)))
  retry_seen : {u w : ℕ} → Turn c nodes (seen u w) c nodes (numbered u)
  retry_ready : {u w n : ℕ} → Turn c nodes (ready u w n) c nodes (numbered u)
  leave : {u w : ℕ} → Turn c nodes (seen u w) c nodes outside
  put :
      {u w : ℕ} (a : ℕ)
      → w ≡ c.top
      → c.next a ≡ address_of w
      → has a nodes ≡ false
      → 0 < a
      → a < 2 ^ 47
      → Turn c nodes (seen u w) (record c { top = unique_word u a }) (a ∷ nodes) outside
  take :
      {u w n : ℕ}
      → w ≡ c.top
      → Turn c nodes (ready u w n) (record c { top = unique_word u n }) (tail nodes) outside
  write :
      {v : View} (a x : ℕ)
      → has a nodes ≡ false
      → 0 < a
      → Turn c nodes v (record c { next = update c.next a x }) nodes v

-- The nodes from a pointer on.
abbrev pub Chain : (ℕ → ℕ) → ℕ → List ℕ → Type 0
Chain next p [] = p ≡ 0
Chain next p (a ∷ rest) = (p ≡ a) × (0 < a) × (a < 2 ^ 47) × Chain next (next a) rest

-- What a thread has read is still there, if the top has not changed.
abbrev pub IsFresh : Cell → View → Type 0
IsFresh c (ready u w n) = (address_of w ≢ 0) × (w ≡ c.top → n ≡ c.next (address_of w))
IsFresh c _ = Unit {0}

-- A word whose number no thread will put in again.
pub record IsSpent (c : Cell) (views : ℕ → View) (w : ℕ) : Type 0 where
  pub below : number_of w ≤ c.unique
  pub gone : (i : ℕ) → number (views i) ≢ some (number_of w)

pub record IsVersioned (c : Cell) (nodes : List ℕ) (views : ℕ → View) : Type 0 where
  pub few : c.unique < 2 ^ 17
  pub numbers : (i u : ℕ) → number (views i) ≡ some u → u ≤ c.unique
  pub once : (i j u : ℕ) → number (views i) ≡ some u → number (views j) ≡ some u → i ≡ j
  pub top_spent : IsSpent c views c.top
  pub copy_spent : (i w : ℕ) → copy (views i) ≡ some w → IsSpent c views w
  pub fresh : (i : ℕ) → IsFresh c (views i)
  pub chain : Chain c.next (address_of c.top) nodes
  pub distinct_nodes : distinct nodes ≡ true
