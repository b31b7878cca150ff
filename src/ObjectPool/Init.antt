-- ===== src/ObjectPool/Init.antt =====
-- The constructor of ObjectPool.h of CppProject/22.10.10 - MMO TCPFighter Server.
use simple_poject.Common.{ℕ, ◌≡◌, refl, List, [], ◌∷◌, Bool, true, false, Option, some, arith, ◌==◌}
use simple_poject.World.{has}
use simple_poject.World.Distinct.{distinct}
use simple_poject.ObjectPool.{PoolNode, ObjectPool, write_node, new_node, push_new, init}
use simple_poject.ObjectPool.Kept.{Chain-write, IsWhole-write, Keeps}

-- The addresses in the order in which Alloc hands them out.
unfoldable pub pushed : List ℕ → List ℕ → List ℕ
pushed [] free_nodes = free_nodes
pushed (a ∷ rest) free_nodes = pushed rest (a ∷ free_nodes)

abbrev pub nobody : ℕ → Bool
nobody a = false

push_new-Keeps :
    {A : Type 0} (object : A) (addresses : List ℕ) (p : ObjectPool A) (free_nodes : List ℕ)
    → Keeps p free_nodes nobody
    → distinct addresses ≡ true
    → ((a : ℕ) → has a addresses ≡ true → has a free_nodes ≡ false)
    → Keeps (push_new object addresses p) (pushed addresses free_nodes) nobody
unfolding push_new pushed has distinct
push_new-Keeps object [] p free_nodes k once apart = k
push_new-Keeps {A} object (a ∷ rest) p free_nodes k once apart =
    let n : PoolNode A = record (new_node p.integrity object) { next_node = p.top } in
    let q : ObjectPool A = record p { nodes = write_node p.nodes a n; top = some a } in
    let new : has a free_nodes ≡ false = apart a (ground arith) in
    let own : (a == a) ≡ true = ground arith in
    let kept_once = k.once in
    push_new-Keeps object rest q (a ∷ free_nodes)
      (record {
        chain = (refl, n, rw own refl, Chain-write p.nodes p.top free_nodes a n new k.chain);
        once = ground arith;
        apart = λ b h. refl;
        whole = λ b h.
            IsWhole-write {q = q} b a n refl refl (λ same. (refl, refl, refl))
              (λ other. k.whole b (ground arith));
      })
      (ground arith) (λ b h. let e = apart b (ground arith) in ground arith)

-- A new pool keeps a node at each of the addresses that `new` has answered, if these differ; nothing is in
-- use.
pub init-Keeps :
    {A : Type 0} (object : A) (heap : ℕ → Option (PoolNode A)) (this : ℕ) (placement_new : Bool)
    (addresses : List ℕ)
    → distinct addresses ≡ true
    → Keeps (init object heap this placement_new addresses) (pushed addresses []) nobody
unfolding init has distinct
init-Keeps object heap this placement_new addresses once =
    push_new-Keeps object addresses _ []
      (record { chain = refl; once = refl; apart = λ a h. refl; whole = λ a h. cc }) once
      (λ a h. refl)
