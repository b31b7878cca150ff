-- ===== src/Spinlock/Counting.antt =====
-- What 01 UseInterlocked.cpp of CppProject/22.10.12 - Spinlock counts.
use simple_poject.Common.{ℕ, ◌+◌, ◌*◌, ◌^◌, ◌<◌, ◌≤◌, ◌≡◌, refl, ap, Bool, true, false, not, arith}
use mathlib.Core.Path.{subst}
use simple_poject.Common.Word.{add32}
use simple_poject.Spinlock.{
  Pc, looping, locking, critical, adding, unlocking, ended, System, update, Step, goes_round, ends,
  takes, spins, loads, stores, unlocks, Reach, start, later,
}

-- Whether a thread has the lock; how often it has counted.
abbrev pub holds : Pc → ℕ
holds critical = 1
holds (adding n) = 1
holds unlocking = 1
holds p = 0

abbrev pub counted : Pc → ℕ → ℕ
counted unlocking r = r + 1
counted p r = r

-- A thread in a round is in one of the loop's, and what it has read of cnt is still there.
abbrev Fits : ℕ → ℕ → Pc → ℕ → Type 0
Fits rounds cnt looping r = r ≤ rounds
Fits rounds cnt locking r = r < rounds
Fits rounds cnt critical r = r < rounds
Fits rounds cnt (adding n) r = (r < rounds) × (n ≡ cnt)
Fits rounds cnt unlocking r = r < rounds
Fits rounds cnt ended r = r ≡ rounds

record IsCounting (rounds : ℕ) (s : System) : Type 0 where
  locked : s.lock ≡ holds (s.pc false) + holds (s.pc true)
  one : s.lock ≤ 1
  counts : s.cnt ≡ counted (s.pc false) (s.round false) + counted (s.pc true) (s.round true)
  fits : (i : Bool) → Fits rounds s.cnt (s.pc i) (s.round i)

-- A thread that does not have the lock has read nothing.
Fits-cnt :
    (rounds cnt cnt' : ℕ) (p : Pc) (r : ℕ)
    → holds p ≡ 0
    → Fits rounds cnt p r
    → Fits rounds cnt' p r
Fits-cnt rounds cnt cnt' looping r h f = f
Fits-cnt rounds cnt cnt' locking r h f = f
Fits-cnt rounds cnt cnt' critical r h f = f
Fits-cnt rounds cnt cnt' (adding n) r h f = absurd (omega arith)
Fits-cnt rounds cnt cnt' unlocking r h f = f
Fits-cnt rounds cnt cnt' ended r h f = f

-- No thread has counted more than its rounds.
counted-le : (rounds cnt : ℕ) (p : Pc) (r : ℕ) → Fits rounds cnt p r → counted p r ≤ rounds
counted-le rounds cnt looping r f = f
counted-le rounds cnt locking r f = omega arith
counted-le rounds cnt critical r f = omega arith
counted-le rounds cnt (adding n) r f = omega arith
counted-le rounds cnt unlocking r f = omega arith
counted-le rounds cnt ended r f = omega arith

-- The invariant for the thread that moves, at `p` with `r`, and the other, at `q` with `r'`.
record Counts (rounds lock cnt : ℕ) (p : Pc) (r : ℕ) (q : Pc) (r' : ℕ) : Type 0 where
  locked : lock ≡ holds p + holds q
  one : lock ≤ 1
  counts : cnt ≡ counted p r + counted q r'
  fits : Fits rounds cnt p r
  fits' : Fits rounds cnt q r'

both : (P : Bool → Type 0) → P true → P false → (j : Bool) → P j
both P t f true = t
both P t f false = f

of_threads :
    {rounds : ℕ} {s : System} (i : Bool)
    → Counts rounds s.lock s.cnt (s.pc i) (s.round i) (s.pc (not i)) (s.round (not i))
    → IsCounting rounds s
of_threads {rounds} {s} true c = record {
  locked = let e = c.locked in omega arith;
  one = c.one;
  counts = let e = c.counts in omega arith;
  fits = both (λ j. Fits rounds s.cnt (s.pc j) (s.round j)) c.fits c.fits';
}
of_threads {rounds} {s} false c = record {
  locked = c.locked;
  one = c.one;
  counts = c.counts;
  fits = both (λ j. Fits rounds s.cnt (s.pc j) (s.round j)) c.fits' c.fits;
}

to_threads :
    {rounds : ℕ} {s : System} (i : Bool)
    → IsCounting rounds s
    → Counts rounds s.lock s.cnt (s.pc i) (s.round i) (s.pc (not i)) (s.round (not i))
to_threads true k = record {
  locked = let e = k.locked in omega arith;
  one = k.one;
  counts = let e = k.counts in omega arith;
  fits = k.fits true;
  fits' = k.fits false;
}
to_threads false k = record {
  locked = k.locked;
  one = k.one;
  counts = k.counts;
  fits = k.fits false;
  fits' = k.fits true;
}

-- Thread `i` goes to `p`, with `r` rounds behind it.
moved :
    {rounds : ℕ} (s : System) (i : Bool) (lock cnt : ℕ) (p : Pc)
    → Counts rounds lock cnt p (s.round i) (s.pc (not i)) (s.round (not i))
    → IsCounting rounds (record s { lock = lock; cnt = cnt; pc = update s.pc i p })
moved s true lock cnt p c = of_threads true c
moved s false lock cnt p c = of_threads false c

moved_round :
    {rounds : ℕ} (s : System) (i : Bool) (lock : ℕ) (p : Pc) (r : ℕ)
    → Counts rounds lock s.cnt p r (s.pc (not i)) (s.round (not i))
    → IsCounting rounds (record s { lock = lock; pc = update s.pc i p; round = update s.round i r })
moved_round s true lock p r c = of_threads true c
moved_round s false lock p r c = of_threads false c

-- The mover's place, named.
named_place :
    {rounds : ℕ} {s : System} {p : Pc} (i : Bool)
    → s.pc i ≡ p
    → IsCounting rounds s
    → Counts rounds s.lock s.cnt p (s.round i) (s.pc (not i)) (s.round (not i))
named_place {rounds} {s} i at k =
    subst (λ p. Counts rounds s.lock s.cnt p (s.round i) (s.pc (not i)) (s.round (not i))) at
      (to_threads i k)

Step-IsCounting :
    {rounds : ℕ} {s : System} (i : Bool) {t : System}
    → 2 * rounds < 2 ^ 32
    → Step rounds s i t
    → IsCounting rounds s
    → IsCounting rounds t
Step-IsCounting {s = s} i few (goes_round at lt) k =
    let c = named_place i at k in
    moved s i s.lock s.cnt locking
      (record { locked = c.locked; one = c.one; counts = c.counts; fits = lt; fits' = c.fits' })
Step-IsCounting {s = s} i few (ends at le) k =
    let c = named_place i at k in
    let f = c.fits in
    moved s i s.lock s.cnt ended (record {
      locked = c.locked;
      one = c.one;
      counts = c.counts;
      fits = omega arith;
      fits' = c.fits';
    })
Step-IsCounting {s = s} i few (takes at e) k =
    let c = named_place i at k in
    let l = c.locked in
    moved s i 1 s.cnt critical (record {
      locked = omega arith;
      one = omega arith;
      counts = c.counts;
      fits = c.fits;
      fits' = c.fits';
    })
Step-IsCounting {s = s} i few (spins at e) k =
    let c = to_threads i k in
    let o = c.one in let is_one : s.lock ≡ 1 = omega arith in rw (← is_one) k
Step-IsCounting {s = s} i few (loads at) k =
    let c = named_place i at k in
    moved s i s.lock s.cnt (adding s.cnt) (record {
      locked = c.locked;
      one = c.one;
      counts = c.counts;
      fits = (c.fits, refl);
      fits' = c.fits';
    })
Step-IsCounting {rounds} {s} i few (stores {n = n} at) k =
    let c = named_place i at k in
    let l = c.locked in
    let o = c.one in
    let f = c.fits in
    let e = c.counts in
    let g = counted-le rounds s.cnt (s.pc (not i)) (s.round (not i)) c.fits' in
    moved s i s.lock (add32 n 1) unlocking (record {
      locked = c.locked;
      one = c.one;
      counts = omega arith;
      fits = f.0;
      fits' =
          Fits-cnt rounds s.cnt (add32 n 1) (s.pc (not i)) (s.round (not i)) (omega arith) c.fits';
    })
Step-IsCounting {s = s} i few (unlocks at) k =
    let c = named_place i at k in
    let l = c.locked in
    let o = c.one in
    let f = c.fits in
    moved_round s i 0 looping (s.round i + 1) (record {
      locked = omega arith;
      one = omega arith;
      counts = c.counts;
      fits = omega arith;
      fits' = c.fits';
    })

Reach-IsCounting :
    {rounds : ℕ} {s : System} → 2 * rounds < 2 ^ 32 → Reach rounds s → IsCounting rounds s
Reach-IsCounting few start = record {
  locked = refl;
  one = omega arith;
  counts = refl;
  fits = λ i. omega arith;
}
Reach-IsCounting few (later r i st) = Step-IsCounting i few st (Reach-IsCounting few r)

-- If each thread counts `rounds` times, and twice that is below 2^32: the threads never have the lock
-- together, and once both have ended, cnt is exactly twice `rounds`, whatever the order in which they ran.
pub Reach-counts :
    {rounds : ℕ} {s : System}
    → 2 * rounds < 2 ^ 32
    → Reach rounds s
    → (holds (s.pc false) + holds (s.pc true) ≤ 1)
      × (s.pc false ≡ ended → s.pc true ≡ ended → s.cnt ≡ 2 * rounds)
Reach-counts {rounds} {s} few r =
    let k = Reach-IsCounting few r in
    let l = k.locked in
    let o = k.one in
    (
      omega arith,
      λ f t.
          let a = subst (λ p. Fits rounds s.cnt p (s.round false)) f (k.fits false) in
          let b = subst (λ p. Fits rounds s.cnt p (s.round true)) t (k.fits true) in
          let ca = ap (λ p. counted p (s.round false)) f in
          let cb = ap (λ p. counted p (s.round true)) t in let c = k.counts in omega arith,
    )
