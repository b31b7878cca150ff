-- ===== src/LockFreeStack/Versioned/Kept.antt =====
-- Every step on a list below a numbered top, as in LockFreeStack.h and ObjectPool.h of CppProject/22.12.03 -
-- LockFreeStack, keeps what the threads know of it true.
use simple_poject.Common.{
  ℕ, ◌^◌, ◌<◌, ◌≤◌, ◌≡◌, ◌≢◌, refl, sym, ap, ◌∙◌, List, [], ◌∷◌, true, false, some, arith, ◌==◌,
  if◌then◌else◌, Bool-cases, inl, inr,
}
use mathlib.Core.Path.{subst}
use simple_poject.World.{has}
use simple_poject.World.Distinct.{distinct}
use simple_poject.LockFreeStack.State.{update}
use simple_poject.LockFreeStack.Top.{
  unique_word, address_of, increment64, number_of, address-unique_word, number-unique_word,
  increment_few,
}
use simple_poject.LockFreeStack.Versioned.{
  Cell, View, outside, numbered, seen, ready, number, copy, tail, Turn, stay, count, load, follow,
  retry_seen, retry_ready, leave, put, take, write, Chain, IsFresh, IsSpent, IsVersioned,
}

-- What holds of the top whatever step is taken.
module _ {c : Cell} {nodes : List ℕ} {views : ℕ → View} (k : IsVersioned c nodes views)
    (i : ℕ) where
  Turn-numbers :
      {c' : Cell} {nodes' : List ℕ} {v v' : View}
      → Turn c nodes v c' nodes' v'
      → views i ≡ v
      → c'.unique < 2 ^ 17
      → (c.unique ≤ c'.unique) × ((j u : ℕ) → number (update views i v' j) ≡ some u → u ≤ c'.unique)
  Turn-numbers count at few =
      let e = increment_few c.unique k.few in (omega arith, λ j u h. ground (arith, k.numbers j u))
  Turn-numbers t at few = (omega arith, λ j u h. ground (arith, k.numbers j u))

  Turn-once :
      {c' : Cell} {nodes' : List ℕ} {v v' : View}
      → Turn c nodes v c' nodes' v'
      → views i ≡ v
      → (j l u : ℕ) → number (update views i v' j) ≡ some u
      → number (update views i v' l) ≡ some u
      → j ≡ l
  Turn-once count at j l u hj hl =
      let e = increment_few c.unique k.few in
      ground (arith, k.once j l u, k.numbers j u, k.numbers l u)
  Turn-once t at j l u hj hl = ground (arith, k.once j l u)

  -- The word that a step puts in, if any, is small and carries the thread's number.
  Turn-IsSpent :
      {c' : Cell} {nodes' : List ℕ} {v v' : View}
      → Turn c nodes v c' nodes' v'
      → views i ≡ v
      → c'.unique < 2 ^ 17
      → (w : ℕ) → IsSpent c views w
      → IsSpent c' (update views i v') w
  Turn-IsSpent count at few w s =
      let e = increment_few c.unique k.few in
      let b = s.below in
      record { below = omega arith; gone = λ j. let g = s.gone j in ground arith }
  Turn-IsSpent t at few w s =
      let b = s.below in
      record { below = ground arith; gone = λ j. let g = s.gone j in ground arith }

Chain-small : (next : ℕ → ℕ) (p : ℕ) (nodes : List ℕ) → Chain next p nodes → p < 2 ^ 47
Chain-small next p [] c = omega arith
Chain-small next p (a ∷ rest) c = omega arith

pub Chain-next :
    (next : ℕ → ℕ) (p : ℕ) (nodes : List ℕ)
    → Chain next p nodes
    → p ≢ 0
    → (next p < 2 ^ 47) × Chain next (next p) (tail nodes)
Chain-next next p [] c some_node = absurd (some_node c)
Chain-next next p (a ∷ rest) (at, pos, small, c) some_node =
    rw at (Chain-small next (next a) rest c, c)

-- A write elsewhere leaves the chain alone.
Chain-write :
    (next : ℕ → ℕ) (p : ℕ) (nodes : List ℕ) (b x : ℕ)
    → has b nodes ≡ false
    → Chain next p nodes
    → Chain (update next b x) p nodes
unfolding has
Chain-write next p [] b x away c = c
Chain-write next p (a ∷ rest) b x away (at, pos, small, c) =
    let other : (b == a) ≡ false = ground arith in
    (at, pos, small, rw other (Chain-write next (next a) rest b x (ground arith) c))

distinct-tail : (nodes : List ℕ) → distinct nodes ≡ true → distinct (tail nodes) ≡ true
unfolding distinct
distinct-tail [] h = h
distinct-tail (a ∷ rest) h = ground arith

-- No node of the list is written to, so that not the one on top either.
Chain-other :
    (next : ℕ → ℕ) (p : ℕ) (nodes : List ℕ) (b : ℕ)
    → has b nodes ≡ false
    → 0 < b
    → Chain next p nodes
    → (b == p) ≡ false
unfolding has
Chain-other next p [] b away pos c = ground arith
Chain-other next p (a ∷ rest) b away pos c = ground arith

IsFresh-count :
    (c : Cell) (v : View) → IsFresh c v → IsFresh (record c { unique = increment64 c.unique }) v
IsFresh-count c outside f = tt
IsFresh-count c (numbered u) f = tt
IsFresh-count c (seen u w) f = tt
IsFresh-count c (ready u w n) f = f

-- A copy that is not the new top needs no more.
IsFresh-new_top :
    (c : Cell) (top : ℕ) (v : View)
    → ((w : ℕ) → copy v ≡ some w → w ≢ top)
    → IsFresh c v
    → IsFresh (record c { top = top }) v
IsFresh-new_top c top (ready u w n) old f = (f.0, λ e. absurd (old w refl e))
IsFresh-new_top c top outside old f = tt
IsFresh-new_top c top (numbered u) old f = tt
IsFresh-new_top c top (seen u w) old f = tt

IsFresh-write :
    (c : Cell) (a x : ℕ) (v : View)
    → (a == address_of c.top) ≡ false
    → IsFresh c v
    → IsFresh (record c { next = update c.next a x }) v
IsFresh-write c a x (ready u w n) other f =
    (f.0, λ e. let away : (a == address_of w) ≡ false = rw e other in rw away (f.1 e))
IsFresh-write c a x outside other f = tt
IsFresh-write c a x (numbered u) other f = tt
IsFresh-write c a x (seen u w) other f = tt

module _ {c : Cell} {nodes : List ℕ} {views : ℕ → View} (k : IsVersioned c nodes views)
    (i : ℕ) where
  Turn-Chain :
      {c' : Cell} {nodes' : List ℕ} {v v' : View}
      → Turn c nodes v c' nodes' v'
      → views i ≡ v
      → IsFresh c v
      → Chain c'.next (address_of c'.top) nodes' × (distinct nodes' ≡ true)
  unfolding distinct
  Turn-Chain (put {u} a is_top link away pos small) at f =
      let e = address-unique_word u a small in
      let d = k.distinct_nodes in ((e, pos, small, rw (link, is_top) k.chain), ground arith)
  Turn-Chain (take {u} {w} {n} is_top) at f =
      let (next_small, rest) =
        Chain-next c.next (address_of c.top) nodes k.chain (rw (← is_top) f.0) in
      let is_n : n ≡ c.next (address_of c.top) = f.1 is_top ∙ rw is_top refl in
      (rw (is_n, address-unique_word u _ next_small) rest, distinct-tail nodes k.distinct_nodes)
  Turn-Chain (write a x away pos) at f =
      (Chain-write c.next _ nodes a x away k.chain, k.distinct_nodes)
  Turn-Chain stay at f = (k.chain, k.distinct_nodes)
  Turn-Chain t at f = (k.chain, k.distinct_nodes)

  -- Nobody else has a copy of the word that thread `i` puts in, or will put it in again.
  module _ {u a : ℕ} (own : number (views i) ≡ some u) (small : a < 2 ^ 47) where
    number_put : number_of (unique_word u a) ≡ u
    number_put =
        let few = k.few in let b = k.numbers i u own in number-unique_word u a (omega arith) small

    put-IsSpent :
        IsSpent (record c { top = unique_word u a }) (update views i outside) (unique_word u a)
    put-IsSpent = record {
      below = rw number_put (k.numbers i u own);
      gone = λ j. rw number_put (λ h. ground (arith, k.once i j u));
    }

    put-IsFresh : (j : ℕ) → IsFresh (record c { top = unique_word u a }) (update views i outside j)
    put-IsFresh j = elim (Bool-cases (i == j)) [
      | inl here ↦ rw here tt
      | inr other ↦ rw other (
          IsFresh-new_top c (unique_word u a) (views j)
            (λ w h e.
              (k.copy_spent j w h).gone i (own ∙ ap some (sym number_put ∙ ap number_of (sym e))))
            (k.fresh j))
    ]

  IsFresh-keep : (v : View) → IsFresh c v → (j : ℕ) → IsFresh c (update views i v j)
  IsFresh-keep v f j = elim (Bool-cases (i == j)) [
    | inl own ↦ rw own f
    | inr other ↦ rw other (k.fresh j)
  ]

  take-small : (u w n : ℕ) → IsFresh c (ready u w n) → w ≡ c.top → n < 2 ^ 47
  take-small u w n f is_top =
      let (next_small, rest) =
        Chain-next c.next (address_of c.top) nodes k.chain (rw (← is_top) f.0) in
      rw (f.1 is_top, is_top) next_small

  Turn-IsFresh :
      {c' : Cell} {nodes' : List ℕ} {v v' : View}
      → Turn c nodes v c' nodes' v'
      → views i ≡ v
      → IsFresh c v
      → (j : ℕ) → IsFresh c' (update views i v' j)
  Turn-IsFresh stay at f = IsFresh-keep _ f
  Turn-IsFresh count at f = λ j. IsFresh-count c _ (IsFresh-keep _ tt j)
  Turn-IsFresh load at f = IsFresh-keep _ tt
  Turn-IsFresh (follow some_node) at f = IsFresh-keep _ (some_node, λ e. refl)
  Turn-IsFresh retry_seen at f = IsFresh-keep _ tt
  Turn-IsFresh retry_ready at f = IsFresh-keep _ tt
  Turn-IsFresh leave at f = IsFresh-keep _ tt
  Turn-IsFresh (put {u} a is_top link away pos small) at f = put-IsFresh (rw at refl) small
  Turn-IsFresh (take {u} {w} {n} is_top) at f = put-IsFresh (rw at refl) (take-small u w n f is_top)
  Turn-IsFresh (write a x away pos) at f = λ j.
      IsFresh-write c a x _ (Chain-other c.next (address_of c.top) nodes a away pos k.chain)
        (IsFresh-keep _ f j)

  Turn-top :
      {c' : Cell} {nodes' : List ℕ} {v v' : View}
      → Turn c nodes v c' nodes' v'
      → views i ≡ v
      → IsFresh c v
      → c'.unique < 2 ^ 17
      → IsSpent c' (update views i v') c'.top
  Turn-top (put {u} a is_top link away pos small) at f few = put-IsSpent (rw at refl) small
  Turn-top (take {u} {w} {n} is_top) at f few = put-IsSpent (rw at refl) (take-small u w n f is_top)
  Turn-top count at f few = Turn-IsSpent k i count at few c.top k.top_spent
  Turn-top stay at f few = Turn-IsSpent k i stay at few c.top k.top_spent
  Turn-top load at f few = Turn-IsSpent k i load at few c.top k.top_spent
  Turn-top (follow e) at f few = Turn-IsSpent k i (follow e) at few c.top k.top_spent
  Turn-top retry_seen at f few = Turn-IsSpent k i retry_seen at few c.top k.top_spent
  Turn-top retry_ready at f few = Turn-IsSpent k i retry_ready at few c.top k.top_spent
  Turn-top leave at f few = Turn-IsSpent k i leave at few c.top k.top_spent
  Turn-top (write a x away pos) at f few =
      Turn-IsSpent k i (write a x away pos) at few c.top k.top_spent

  -- A thread's copy is one that it had, or the top.
  Turn-copy :
      {c' : Cell} {nodes' : List ℕ} {v v' : View}
      → Turn c nodes v c' nodes' v'
      → views i ≡ v
      → (w : ℕ) → copy v' ≡ some w
      → IsSpent c views w
  Turn-copy stay at w h = k.copy_spent i w (rw at h)
  Turn-copy count at w h = cc
  Turn-copy load at w h = let e : c.top ≡ w = cc in rw (← e) k.top_spent
  Turn-copy (follow e) at w h = k.copy_spent i w (rw at h)
  Turn-copy retry_seen at w h = cc
  Turn-copy retry_ready at w h = cc
  Turn-copy leave at w h = cc
  Turn-copy (put a is_top link away pos small) at w h = cc
  Turn-copy (take is_top) at w h = cc
  Turn-copy (write a x away pos) at w h = k.copy_spent i w (rw at h)

  copy_old :
      (v' : View)
      → ((w : ℕ) → copy v' ≡ some w → IsSpent c views w)
      → (j w : ℕ) → copy (update views i v' j) ≡ some w
      → IsSpent c views w
  copy_old v' own j w h = elim (Bool-cases (i == j)) [
    | inl here ↦ own w (subst (λ b. copy (if b then v' else views j) ≡ some w) here h)
    | inr other ↦ k.copy_spent j w (subst (λ b. copy (if b then v' else views j) ≡ some w) other h)
  ]

  pub Turn-IsVersioned :
      {c' : Cell} {nodes' : List ℕ} {v v' : View}
      → Turn c nodes v c' nodes' v'
      → views i ≡ v
      → c'.unique < 2 ^ 17
      → IsVersioned c' nodes' (update views i v')
  Turn-IsVersioned {v' = v'} t at few =
      let f = subst (IsFresh c) at (k.fresh i) in
      let (chain, once) = Turn-Chain t at f in
      record {
        few = few;
        numbers = (Turn-numbers k i t at few).1;
        once = Turn-once k i t at;
        top_spent = Turn-top t at f few;
        copy_spent = λ j w h. Turn-IsSpent k i t at few w (copy_old v' (Turn-copy t at) j w h);
        fresh = Turn-IsFresh t at f;
        chain = chain;
        distinct_nodes = once;
      }
