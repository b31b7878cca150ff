-- ===== src/ObjectPool/Tests.antt =====
-- A pool of one free node and one object in use.
use simple_poject.Common.{
  ℕ, ◌+◌, ◌≡◌, refl, [], ◌∷◌, Bool, true, false, ◌||◌, none, some, arith, ◌==◌, if◌then◌else◌,
  Bool-cases, inl, inr,
}
use simple_poject.Common.Outcome.{returned}
use simple_poject.World.{has}
use simple_poject.World.Distinct.{distinct}
use simple_poject.ObjectPool.{ObjectPool, new_node, alloc, free}
use simple_poject.ObjectPool.Kept.{IsWhole, Keeps, Handed, mark, alloc_lem, free_lem}

abbrev two_nodes : ObjectPool ℕ
two_nodes = record {
  nodes =
      λ a. if a == 64 then some (new_node 8 5) else if a == 128 then some (new_node 8 6) else none;
  integrity = 8;
  flag_placement_new = false;
  top = some 64;
  capacity = 2;
  use_count = 1;
}

abbrev in_use : ℕ → Bool
in_use a = a == 128

two_nodes-IsWhole : (a : ℕ) → (has a (64 ∷ []) || in_use a) ≡ true → IsWhole two_nodes a
unfolding has
two_nodes-IsWhole a h = elim (Bool-cases (a == 64)) [
  | inl first ↦ record {
    node = new_node 8 5;
    there = rw first refl;
    same_pool = refl;
    under_whole = refl;
    over_whole = refl;
  }
  | inr other ↦
      let second : (a == 128) ≡ true = ground arith in
      record {
        node = new_node 8 6;
        there = rw (other, second) refl;
        same_pool = refl;
        under_whole = refl;
        over_whole = refl;
      }
]

two_nodes-Keeps : Keeps two_nodes (64 ∷ []) in_use
unfolding has distinct
two_nodes-Keeps = record {
  chain = (refl, new_node 8 5, refl, refl);
  once = refl;
  apart = λ a h. ground arith;
  whole = two_nodes-IsWhole;
}

alloc_lem_example : Handed two_nodes 64 [] in_use (alloc 7 256 two_nodes)
alloc_lem_example = alloc_lem 7 256 (64 ∷ []) two_nodes-Keeps refl

free_lem_example :
    (q : ObjectPool ℕ) × (free (128 + 16) two_nodes ≡ returned q)
    × Keeps q (128 ∷ 64 ∷ []) (mark 128 false in_use)
free_lem_example = free_lem 128 (64 ∷ []) two_nodes-Keeps refl
