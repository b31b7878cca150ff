-- ===== src/ObjectPool/Kept.antt =====
-- What the pool of ObjectPool.h of CppProject/22.10.10 - MMO TCPFighter Server hands out.
use simple_poject.Common.{
  ℕ, ◌+◌, ◌-◌, ◌≡◌, refl, sym, ap, ◌∙◌, inl, inr, List, [], ◌∷◌, Bool, true, false, ◌||◌, Option,
  none, some, arith, ◌==◌, if◌then◌else◌, Bool-cases,
}
use simple_poject.Common.Word.{add32, sub32}
use simple_poject.Common.Outcome.{Outcome, returned}
use simple_poject.World.{has}
use simple_poject.World.Distinct.{distinct}
use simple_poject.ObjectPool.{
  PoolNode, ObjectPool, mem_guard, write_node, new_node, alloc_from, alloc, free,
}

-- The free nodes, from top on.
abbrev pub Chain : {A : Type 0} → (ℕ → Option (PoolNode A)) → Option ℕ → List ℕ → Type 0
Chain nodes top [] = top ≡ none
Chain {A} nodes top (a ∷ rest) =
    (top ≡ some a) × (n : PoolNode A) × (nodes a ≡ some n) × Chain nodes n.next_node rest

-- A node that Free accepts.
pub record IsWhole {A : Type 0} (p : ObjectPool A) (a : ℕ) : Type 0 where
  pub node : PoolNode A
  pub there : p.nodes a ≡ some node
  pub same_pool : p.integrity ≡ node.integrity
  pub under_whole : mem_guard ≡ node.under
  pub over_whole : mem_guard ≡ node.over

-- The pool keeps the nodes of `free_nodes`, last freed first, and has handed out those that are `used`.
pub record Keeps {A : Type 0} (p : ObjectPool A) (free_nodes : List ℕ) (used : ℕ → Bool)
    : Type 0 where
  pub chain : Chain p.nodes p.top free_nodes
  pub once : distinct free_nodes ≡ true
  pub apart : (a : ℕ) → has a free_nodes ≡ true → used a ≡ false
  pub whole : (a : ℕ) → (has a free_nodes || used a) ≡ true → IsWhole p a

-- A write elsewhere leaves the chain alone.
pub Chain-write :
    {A : Type 0} (nodes : ℕ → Option (PoolNode A)) (top : Option ℕ) (rest : List ℕ) (b : ℕ)
    (n : PoolNode A)
    → has b rest ≡ false
    → Chain nodes top rest
    → Chain (write_node nodes b n) top rest
unfolding has
Chain-write nodes top [] b n away c = c
Chain-write nodes top (a ∷ rest) b n away (at, m, there, c) =
    let other : (a == b) ≡ false = ground arith in
    (at, m, rw other there, Chain-write nodes m.next_node rest b n (ground arith) c)

abbrev pub mark : ℕ → Bool → (ℕ → Bool) → ℕ → Bool
mark a b used c = if c == a then b else used c

-- The node that Alloc takes, where `new` would answer `address`, and the free nodes that are left.
abbrev pub taken : List ℕ → ℕ → ℕ
taken [] address = address
taken (a ∷ rest) address = a

abbrev pub left : List ℕ → List ℕ
left [] = []
left (a ∷ rest) = rest

pub IsWhole-write :
    {A : Type 0} {p q : ObjectPool A} (a b : ℕ) (n : PoolNode A)
    → q.nodes ≡ write_node p.nodes b n
    → q.integrity ≡ p.integrity
    → ((a == b) ≡ true → (p.integrity ≡ n.integrity) × (mem_guard ≡ n.under) × (mem_guard ≡ n.over))
    → ((a == b) ≡ false → IsWhole p a)
    → IsWhole q a
IsWhole-write {A} {p} {q} a b n e same here there = elim (Bool-cases (a == b)) [
  | inl at ↦
      let (i, u, o) = here at in
      record {
        node = n;
        there = ap (λ (f : ℕ → Option (PoolNode A)). f a) e ∙ rw at refl;
        same_pool = same ∙ i;
        under_whole = u;
        over_whole = o;
      }
  | inr away ↦
      let w = there away in
      record {
        node = w.node;
        there = ap (λ (f : ℕ → Option (PoolNode A)). f a) e ∙ rw away w.there;
        same_pool = same ∙ w.same_pool;
        under_whole = w.under_whole;
        over_whole = w.over_whole;
      }
]

some_node_injective : {A : Type 0} {m n : PoolNode A} → some m ≡ some n → m ≡ n
some_node_injective {A} {m} h = ap (λ o. elim o [ none ↦ m | some n ↦ n ]) h

-- Whether the object is made anew or not, the guards are as they were.
same-guards :
    {A : Type 0} {i : ℕ} (b : Bool) (n : PoolNode A) (object : A)
    → i ≡ n.integrity
    → mem_guard ≡ n.under
    → mem_guard ≡ n.over
    → let m : PoolNode A = if b then record n { object = object } else n in
      (i ≡ m.integrity) × (mem_guard ≡ m.under) × (mem_guard ≡ m.over)
same-guards true n object i u o = (i, u, o)
same-guards false n object i u o = (i, u, o)

-- What Alloc leaves: the node's object is handed out, nobody had it, and the other nodes stay.
pub record Handed {A : Type 0} (p : ObjectPool A) (a : ℕ) (rest : List ℕ) (used : ℕ → Bool)
    (o : Outcome (ℕ × ObjectPool A)) : Type 0 where
  pub pool : ObjectPool A
  pub runs : o ≡ returned (a + 16, pool)
  pub unused : used a ≡ false
  pub keeps : Keeps pool rest (mark a true used)

Handed-eq :
    {A : Type 0} {p : ObjectPool A} {a : ℕ} {rest : List ℕ} {used : ℕ → Bool}
    {o o' : Outcome (ℕ × ObjectPool A)}
    → o ≡ o'
    → Handed p a rest used o'
    → Handed p a rest used o
Handed-eq e h = record { pool = h.pool; runs = e ∙ h.runs; unused = h.unused; keeps = h.keeps }

-- A new node, where the pool has none left.
alloc-new :
    {A : Type 0} {p : ObjectPool A} {used : ℕ → Bool} (object : A) (address : ℕ)
    → Keeps p [] used
    → used address ≡ false
    → Handed p address [] used (alloc_from object address p none)
unfolding alloc_from has distinct
alloc-new {A} {p} {used} object address k unused =
    let q : ObjectPool A = record p {
      nodes = write_node p.nodes address (new_node p.integrity object);
      capacity = add32 p.capacity 1;
      use_count = add32 p.use_count 1;
    } in
    record {
      pool = q;
      runs = refl;
      unused = unused;
      keeps = record {
        chain = k.chain;
        once = refl;
        apart = λ a h. cc;
        whole = λ a h.
            IsWhole-write {q = q} a address (new_node p.integrity object) refl refl
              (λ at. (refl, refl, refl)) (λ away. k.whole a (ground arith));
      };
    }

-- The node freed last.
alloc-again :
    {A : Type 0} {p : ObjectPool A} {used : ℕ → Bool} (object : A) (address a : ℕ) (rest : List ℕ)
    → Keeps p (a ∷ rest) used
    → Handed p a rest used (alloc_from object address p (some a))
unfolding alloc_from has distinct
alloc-again {A} {p} {used} object address a rest k =
    let (at, n, there, c) = k.chain in
    let once = k.once in
    let w = k.whole a (ground arith) in
    let n' : PoolNode A = if p.flag_placement_new then record n { object = object } else n in
    let is_n : n ≡ w.node = some_node_injective (sym there ∙ w.there) in
    let q : ObjectPool A = record p {
      nodes = write_node p.nodes a n';
      top = n.next_node;
      use_count = add32 p.use_count 1;
    } in
    record {
      pool = q;
      runs = rw there refl;
      unused = k.apart a (ground arith);
      keeps = record {
        chain = Chain-write p.nodes n.next_node rest a n' (ground arith) c;
        once = ground arith;
        apart = λ b h. let e = k.apart b (ground arith) in ground arith;
        whole = λ b h.
            IsWhole-write {q = q} b a n' refl refl
              (λ at.
                same-guards p.flag_placement_new n object (rw is_n w.same_pool)
                  (rw is_n w.under_whole) (rw is_n w.over_whole))
              (λ away. k.whole b (ground arith));
      };
    }

-- Alloc returns, on a pool that keeps its nodes, if `new` answers an address that is not in use: it hands
-- out the object of the node freed last, or of a new one if none is free, and in any case one that
-- nobody has. The pool keeps the other free nodes, and all that are in use stay valid for Free.
pub alloc_lem :
    {A : Type 0} {p : ObjectPool A} {used : ℕ → Bool} (object : A) (address : ℕ)
    (free_nodes : List ℕ)
    → Keeps p free_nodes used
    → used address ≡ false
    → Handed p (taken free_nodes address) (left free_nodes) used (alloc object address p)
unfolding alloc
alloc_lem {p = p} object address [] k unused =
    Handed-eq (ap (alloc_from object address p) k.chain) (alloc-new object address k unused)
alloc_lem {p = p} object address (a ∷ rest) k unused =
    Handed-eq (ap (alloc_from object address p) k.chain.0) (alloc-again object address a rest k)

-- Free of an object in use returns: its node is the next that Alloc hands out, and it is not in use any
-- more. The other nodes, free or in use, stay as they are.
pub free_lem :
    {A : Type 0} {p : ObjectPool A} {used : ℕ → Bool} (a : ℕ) (free_nodes : List ℕ)
    → Keeps p free_nodes used
    → used a ≡ true
    → (q : ObjectPool A) × (free (a + 16) p ≡ returned q)
      × Keeps q (a ∷ free_nodes) (mark a false used)
unfolding free has distinct
free_lem {A} {p} {used} a free_nodes k u =
    let w = k.whole a (ground arith) in
    let n' : PoolNode A = record w.node { next_node = p.top } in
    let q : ObjectPool A = record p {
      use_count = sub32 p.use_count 1;
      nodes = write_node p.nodes a n';
      top = some a;
    } in
    let at : a + 16 - 16 ≡ a = omega arith in
    let new : has a free_nodes ≡ false = elim (Bool-cases (has a free_nodes)) [
      | inl h ↦ let e = k.apart a h in ground arith
      | inr h ↦ h
    ] in
    let i = w.same_pool in
    let o = w.over_whole in
    let d = w.under_whole in
    let once = k.once in
    let integrity : (p.integrity == w.node.integrity) ≡ true = ground arith in
    let over : (mem_guard == w.node.over) ≡ true = ground arith in
    let under : (mem_guard == w.node.under) ≡ true = ground arith in
    let own : (a == a) ≡ true = ground arith in
    (
      q,
      rw (at, w.there, integrity, over, under) refl,
      record {
        chain = (refl, n', rw own refl, Chain-write p.nodes p.top free_nodes a n' new k.chain);
        once = ground arith;
        apart = λ b h. elim (Bool-cases (b == a)) [
          | inl same ↦ rw same refl
          | inr other ↦ let e = k.apart b (ground arith) in rw other e
        ];
        whole = λ b h.
            IsWhole-write {q = q} b a n' refl refl (λ same. (i, d, o))
              (λ other. k.whole b (ground arith));
      },
    )
