-- ===== src/RingBuffer/Fifo.antt =====
-- The ring buffer against a queue of at most 8191 bytes: Enqueue, Dequeue and Peek of RingBuffer.cpp,
-- and what a `recv` straight into the buffer followed by MoveRear adds.
use simple_poject.Common.{
  ℕ, ◌+◌, ◌-◌, ◌≤◌, ◌<◌, ◌≡◌, refl, sym, ap, ◌∙◌, ◌⊎◌, inl, inr, List, ◌++◌, arith, leb, length,
  take, drop, min, take-add, length-append, length-take, take-append-left, drop-append-left,
  append_assoc, Bool-cases,
}
use simple_poject.Common.Memory.{store}
use simple_poject.RingBuffer.{
  RingBuffer, clip, move_front, move_rear, direct_enqueue_size, direct_dequeue_size, get_free_size,
  get_use_size, must_enqueue, must_dequeue, enqueue, dequeue, peek,
}
use simple_poject.RingBuffer.Bounds.{IsValid, get_free_size-add-get_use_size}
use simple_poject.RingBuffer.Pieces.{
  contents, length-contents, Appended, Removed, must_enqueue-Appended, must_enqueue-rest,
  must_dequeue-Removed, must_dequeue-rest,
}

-- From two pieces.
append-two :
    {r : RingBuffer} (a b : List ℕ)
    → IsValid r
    → length a ≡ direct_enqueue_size r
    → length a + length b ≤ get_free_size r
    → Appended r (must_enqueue (must_enqueue r a) b) (a ++ b)
append-two {r} a b v ha hb = record {
  valid = second.valid;
  bytes = second.bytes ∙ ap (λ l. l ++ b) first.bytes ∙ append_assoc (contents r) a b;
  used = omega (arith, first.used, second.used, length-append a b);
  block = (second.block.0 ∙ first.block.0, second.block.1 ∙ first.block.1);
  inside = λ q out. second.inside q (omega (arith, first.block)) ∙ first.inside q out;
}
  where
    first : Appended r (must_enqueue r a) a
    first = must_enqueue-Appended a v (omega arith)

    second : Appended (must_enqueue r a) (must_enqueue (must_enqueue r a) b) b
    second = must_enqueue-Appended b first.valid (omega (arith, must_enqueue-rest a v ha))

clip-eq-min : (limit size : ℕ) → clip limit size ≡ min size limit
clip-eq-min limit size = ground arith

enqueue-Appended :
    {r : RingBuffer} (src : List ℕ)
    → IsValid r
    → ((enqueue r src).0 ≡ min (length src) (get_free_size r))
      × Appended r (enqueue r src).1 (take (min (length src) (get_free_size r)) src)
unfolding enqueue
enqueue-Appended {r} src v =
    rw (clip-eq-min (get_free_size r) (length src))
      (elim (Bool-cases (leb (min (length src) (get_free_size r)) d)) [
        | inl one ↦
            rw one (refl, must_enqueue-Appended (take n src) v (ground (arith, length-take n src)))
        | inr two ↦ rw two (
          ground arith,
          rw (← take-add d n src (ground arith)) (
              append-two (take d src) (take (n - d) (drop d src)) v
                (ground (arith, length-take d src))
                (ground (arith, length-take d src, length-take (n - d) (drop d src)))),
        )
      ])
  where
    d : ℕ
    d = direct_enqueue_size r

    n : ℕ
    n = min (length src) (get_free_size r)

-- On a valid buffer Enqueue takes as many bytes as are free, appends exactly these in order,
-- returns their number and keeps the invariant.
pub enqueue_refines :
    {r : RingBuffer} (src : List ℕ)
    → IsValid r
    → let (n, r') = enqueue r src in
      (n ≡ min (length src) (8191 - length (contents r)))
      × (contents r' ≡ contents r ++ take n src)
      × IsValid r'
enqueue_refines {r} src v =
    (rw room (enqueue-Appended src v).0, rw (enqueue-Appended src v).0 after.bytes, after.valid)
  where
    after : Appended r (enqueue r src).1 (take (min (length src) (get_free_size r)) src)
    after = (enqueue-Appended src v).1

    room : 8191 - length (contents r) ≡ get_free_size r
    room = omega (arith, length-contents r, get_free_size-add-get_use_size v)

remove-two :
    {r : RingBuffer} (n k : ℕ)
    → IsValid r
    → n ≡ direct_dequeue_size r + k
    → n ≤ get_use_size r
    → let (a, r') = must_dequeue r (direct_dequeue_size r) in
      let (b, r'') = must_dequeue r' k in Removed r n (a ++ b, r'')
remove-two {r} n k v e h = record {
  valid = second.valid;
  bytes =
      first.bytes
      ∙ ap (λ l. (must_dequeue r d).0 ++ l) second.bytes
      ∙ sym (append_assoc (must_dequeue r d).0 (must_dequeue (must_dequeue r d).1 k).0 _);
  used = omega (arith, first.used, second.used);
}
  where
    d : ℕ
    d = direct_dequeue_size r

    first : Removed r d (must_dequeue r d)
    first = must_dequeue-Removed d v (omega arith)

    second : Removed (must_dequeue r d).1 k (must_dequeue (must_dequeue r d).1 k)
    second = must_dequeue-Removed k first.valid (omega (arith, must_dequeue-rest v))

-- What `dequeue` hands out, in one piece or two.
dequeue-Removed :
    {r : RingBuffer} (size : ℕ)
    → IsValid r
    → ((dequeue r size).0 ≡ min size (get_use_size r))
      × Removed r (min size (get_use_size r)) ((dequeue r size).1, (dequeue r size).2)
unfolding dequeue
dequeue-Removed {r} size v = rw (clip-eq-min (get_use_size r) size) (elim (Bool-cases (leb n d)) [
  | inl one ↦ rw one (refl, must_dequeue-Removed n v (ground arith))
  | inr two ↦ rw two (ground arith, remove-two n (n - d) v (ground arith) (ground arith))
])
  where
    d : ℕ
    d = direct_dequeue_size r

    n : ℕ
    n = min size (get_use_size r)

-- The parts that are handed out and left, as parts of what was there.
Removed-parts :
    {r : RingBuffer} {n : ℕ} {out : List ℕ × RingBuffer}
    → Removed r n out
    → (out.0 ≡ take n (contents r)) × (contents out.1 ≡ drop n (contents r))
Removed-parts {r} {n} {out} h = (
  rw h.bytes (sym (take-append-left n out.0 (contents out.1) size)),
  rw h.bytes (sym (drop-append-left n out.0 (contents out.1) size)),
)
  where
    size : n ≡ length out.0
    size = omega (
      arith,
      h.used,
      length-contents r,
      length-contents out.1,
      length-append out.0 (contents out.1),
      ap length h.bytes,
    )

-- On a valid buffer Dequeue hands out the oldest bytes, as many as are asked for and there, removes
-- exactly these, returns their number and keeps the invariant.
pub dequeue_refines :
    {r : RingBuffer} (size : ℕ)
    → IsValid r
    → let (n, dst, r') = dequeue r size in
      (n ≡ min size (length (contents r)))
      × (dst ≡ take n (contents r))
      × (contents r' ≡ drop n (contents r))
      × IsValid r'
dequeue_refines {r} size v =
    let (count, removed) = dequeue-Removed size v in
    let parts = Removed-parts removed in
    (rw length-contents count, rw count parts.0, rw count parts.1, removed.valid)

-- On a valid buffer Peek hands out, and returns, what Dequeue would.
pub peek-dequeue :
    {r : RingBuffer} (size : ℕ) → IsValid r → peek r size ≡ ((dequeue r size).0, (dequeue r size).1)
unfolding peek dequeue must_dequeue move_front direct_dequeue_size get_use_size
peek-dequeue {r} size v = ground arith

-- On a valid buffer, at most DirectEnqueueSize bytes put at GetWritePos, followed by MoveRear of
-- their number, are appended to the contents, and the invariant holds.
pub receive_appends :
    {r : RingBuffer} (src : List ℕ)
    → IsValid r
    → length src ≤ direct_enqueue_size r
    → let r' = move_rear (record r { mem = store r.mem r.write_pos src }) (length src) in
      (contents r' ≡ contents r ++ src) × IsValid r'
unfolding must_enqueue
receive_appends {r} src v h = let a = must_enqueue-Appended src v h in (a.bytes, a.valid)

-- On a valid buffer Enqueue changes no byte outside the buffer's own block.
pub enqueue_inside :
    {r : RingBuffer} (src : List ℕ) (q : ℕ)
    → IsValid r
    → (q < r.begin) ⊎ (r.end ≤ q)
    → (enqueue r src).1.mem q ≡ r.mem q
enqueue_inside src q v h = (enqueue-Appended src v).1.inside q h
