-- ===== src/Common/Memory.antt =====
-- Memory as a map from addresses to bytes, and what memmove reads and writes.
use Prim.Native.Nat.{ℕ, zero, suc, ◌+◌, ◌≤◌, ◌<◌}
use mathlib.Core.Path.{◌≡◌, refl, ap, ap₂, ◌∙◌}
use mathlib.Core.Logic.{◌⊎◌, inl}
use mathlib.Core.List.{List, [], ◌∷◌, ◌++◌}
use native.Mathlib.Omega.{arith}
use simple_poject.Common.Tests.{◌==◌, if◌then◌else◌}
use simple_poject.Common.Lists.{length}

abbrev pub Memory : Type 0
Memory = ℕ → ℕ

abbrev pub update : Memory → ℕ → ℕ → Memory
update m p b q = if p == q then b else m q

-- memmove(p, data, size): the bytes go to p, p + 1, ...
unfoldable pub store : Memory → ℕ → List ℕ → Memory
store m p [] = m
store m p (b ∷ bs) = store (update m p b) (p + 1) bs

-- memmove(dst, p, size): the bytes at p, p + 1, ...
unfoldable pub load : Memory → ℕ → ℕ → List ℕ
load m p zero = []
load m p (suc n) = m p ∷ load m (p + 1) n

pub length-load : (m : Memory) (p n : ℕ) → length (load m p n) ≡ n
unfolding load
length-load m p zero = refl
length-load m p (suc n) = ap suc (length-load m (p + 1) n)

pub store-outside :
    (m : Memory) (p : ℕ) (bs : List ℕ) (q : ℕ)
    → (q < p) ⊎ (p + length bs ≤ q)
    → store m p bs q ≡ m q
unfolding store
store-outside m p [] q h = refl
store-outside m p (b ∷ bs) q h = ground (arith, store-outside (update m p b) (p + 1) bs q)

pub load-congruence :
    (m m' : Memory) (p n : ℕ)
    → ((q : ℕ) → p ≤ q → q < p + n → m' q ≡ m q)
    → load m' p n ≡ load m p n
unfolding load
load-congruence m m' p zero h = refl
load-congruence m m' p (suc n) h =
    ap₂ ◌∷◌ (h p (omega arith) (omega arith))
      (load-congruence m m' (p + 1) n (λ q lo hi. h q (omega arith) (omega arith)))

pub load-store_self : (m : Memory) (p : ℕ) (bs : List ℕ) → load (store m p bs) p (length bs) ≡ bs
unfolding load store
load-store_self m p [] = refl
load-store_self m p (b ∷ bs) =
    ap₂ ◌∷◌ (store-outside (update m p b) (p + 1) bs p (inl (omega arith)) ∙ ground arith)
      (load-store_self (update m p b) (p + 1) bs)

pub load-append : (m : Memory) (p a b : ℕ) → load m p (a + b) ≡ load m p a ++ load m (p + a) b
unfolding load
load-append m p zero b = ground arith
load-append m p (suc a) b =
    let e : suc a + b ≡ suc (a + b) = omega arith in
    let f : p + suc a ≡ p + 1 + a = omega arith in
    rw (e, f) (ap (λ l. m p ∷ l) (load-append m (p + 1) a b))
