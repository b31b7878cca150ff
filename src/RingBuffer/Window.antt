-- ===== src/RingBuffer/Window.antt =====
-- Runs of bytes round a block of `buf_size` bytes, as the ring buffer reads and writes them.
use native.Mathlib.Decide.{dec_lt}
use simple_poject.Common.{
  ℕ, zero, suc, ◌+◌, ◌%◌, ◌≤◌, ◌<◌, ◌≡◌, refl, ap, ap₂, ◌∙◌, ◌⊎◌, inl, inr, List, [], ◌∷◌, ◌++◌,
  arith, length,
}
use simple_poject.Common.Memory.{Memory, store, load, store-outside, load-store_self}

-- The `n` bytes from offset `o` on, going round at the end of the block.
unfoldable pub window : Memory → ℕ → ℕ → ℕ → List ℕ
window m begin o zero = []
window m begin o (suc n) = m (begin + o) ∷ window m begin ((o + 1) % 8192) n

pub length-window : (m : Memory) (begin o n : ℕ) → length (window m begin o n) ≡ n
unfolding window
length-window m begin o zero = refl
length-window m begin o (suc n) = ap suc (length-window m begin ((o + 1) % 8192) n)

pub window-add :
    (m : Memory) (begin o a b : ℕ)
    → o < 8192
    → window m begin o (a + b) ≡ window m begin o a ++ window m begin ((o + a) % 8192) b
unfolding window
window-add m begin o zero b h =
    let e : zero + b ≡ b = omega arith in let f : (o + zero) % 8192 ≡ o = omega arith in rw (e, f)
window-add m begin o (suc a) b h =
    let e : suc a + b ≡ suc (a + b) = omega arith in
    let f : (o + suc a) % 8192 ≡ ((o + 1) % 8192 + a) % 8192 = omega arith in
    rw (e, f) (ap (λ l. m (begin + o) ∷ l) (window-add m begin ((o + 1) % 8192) a b (omega arith)))

-- A run that ends at or before the end of the block lies in one piece.
pub window-eq-load :
    (m : Memory) (begin o n : ℕ) → o + n ≤ 8192 → window m begin o n ≡ load m (begin + o) n
unfolding window load
window-eq-load m begin o zero h = refl
window-eq-load m begin o (suc zero) h = refl
window-eq-load m begin o (suc (suc n)) h =
    let e : (o + 1) % 8192 ≡ o + 1 = omega arith in
    let f : begin + o + 1 ≡ begin + (o + 1) = omega arith in
    rw (e, f) (ap (λ l. m (begin + o) ∷ l) (window-eq-load m begin (o + 1) (suc n) (omega arith)))

-- Writing behind a run leaves the run alone.
pub window-store :
    (m : Memory) (begin w : ℕ) (bs : List ℕ) (o n : ℕ)
    → o < 8192
    → w ≡ (o + n) % 8192
    → n + length bs < 8192
    → w + length bs ≤ 8192
    → window (store m (begin + w) bs) begin o n ≡ window m begin o n
unfolding window
window-store m begin w bs o zero ho e hn hw = refl
window-store m begin w bs o (suc n) ho e hn hw =
    ap₂ ◌∷◌ (store-outside m (begin + w) bs (begin + o) apart)
      (window-store m begin w bs ((o + 1) % 8192) n (omega arith) (omega arith) (omega arith) hw)
  where
    apart : (begin + o < begin + w) ⊎ (begin + w + length bs ≤ begin + o)
    apart = elim (dec_lt o w) [ yes p ↦ inl (omega arith) | no p ↦ inr (omega arith) ]

-- Writing right behind a run, up to the end of the block at most, extends the run by what is written.
pub window-extend :
    (m : Memory) (begin w p : ℕ) (bs : List ℕ) (o n : ℕ)
    → p ≡ begin + w
    → o < 8192
    → w ≡ (o + n) % 8192
    → n + length bs < 8192
    → w + length bs ≤ 8192
    → window (store m p bs) begin o (n + length bs) ≡ window m begin o n ++ bs
window-extend m begin w p bs o n at ho e hn hw = rw at (
    window-add (store m (begin + w) bs) begin o n (length bs) ho
    ∙ ap₂ ◌++◌ (window-store m begin w bs o n ho e hn hw) (
        rw (← e) (
          window-eq-load (store m (begin + w) bs) begin w (length bs) hw
          ∙ load-store_self m (begin + w) bs)))
