-- ===== src/ProtocolBuffer/Put.antt =====
-- What the operators << and Put_Data write.
use simple_poject.Common.{
  ℕ, ◌+◌, ◌-◌, ◌*◌, ◌≤◌, ◌<◌, ◌≡◌, refl, ap, ap₂, ◌∙◌, inl, List, [], ◌∷◌, ◌++◌, arith, length,
  length-append,
}
use simple_poject.Common.Memory.{
  Memory, store, load, load-append, load-congruence, load-store_self, store-outside,
}
use simple_poject.Common.Word.{to_bytes, length-to_bytes}
use simple_poject.Common.Outcome.{returned, thrown}
use simple_poject.ProtocolBuffer.{
  ProtocolBuffer, init, clear, get_free_size, put_data, put_number, put_str, put_wstr, move_wp,
  until_zero, wide_bytes,
}

pub record IsValid (p : ProtocolBuffer) : Type 0 where
  pub end_at : p.end ≡ p.begin + p.buf_size
  pub read_from : p.begin ≤ p.read_pos
  pub written : p.read_pos ≤ p.write_pos
  pub fits : p.write_pos ≤ p.end

-- The bytes written and not yet read, oldest first.
unfoldable pub contents : ProtocolBuffer → List ℕ
contents p = load p.mem p.read_pos (p.write_pos - p.read_pos)

pub init-IsValid : (mem : Memory) (begin size : ℕ) → IsValid (init mem begin size)
unfolding init
init-IsValid mem begin size = ground arith

pub clear-IsValid : {p : ProtocolBuffer} → IsValid p → IsValid (clear p)
unfolding clear
clear-IsValid v = ground arith

-- `put_number` writes the bytes of its number; so do the strings.
pub put_number-eq-put_data :
    (p : ProtocolBuffer) (size v : ℕ) → put_number p size v ≡ put_data p (to_bytes size v)
unfolding put_number put_data
put_number-eq-put_data p size v = rw (length-to_bytes size v)

pub put_str-eq-put_data :
    (p : ProtocolBuffer) (str : List ℕ) → put_str p str ≡ put_data p (until_zero str)
unfolding put_str put_data
put_str-eq-put_data p str = refl

length-wide_bytes : (cs : List ℕ) → length (wide_bytes cs) ≡ length cs * 2
length-wide_bytes [] = refl
length-wide_bytes (c ∷ cs) =
    omega (
      arith,
      length-append (to_bytes 2 c) (wide_bytes cs),
      length-to_bytes 2 c,
      length-wide_bytes cs,
    )

pub put_wstr-eq-put_data :
    (p : ProtocolBuffer) (str : List ℕ) → put_wstr p str ≡ put_data p (wide_bytes (until_zero str))
unfolding put_wstr put_data
put_wstr-eq-put_data p str = rw (length-wide_bytes (until_zero str))

load-store_behind :
    (p : ProtocolBuffer) (src : List ℕ)
    → IsValid p
    → load (store p.mem p.write_pos src) p.read_pos (p.write_pos - p.read_pos + length src)
      ≡ load p.mem p.read_pos (p.write_pos - p.read_pos) ++ src
load-store_behind p src v =
    load-append (store p.mem p.write_pos src) p.read_pos (p.write_pos - p.read_pos) (length src)
    ∙ ap₂ ◌++◌
        (load-congruence p.mem (store p.mem p.write_pos src) p.read_pos (p.write_pos - p.read_pos)
          (λ q lo hi. store-outside p.mem p.write_pos src q (inl (omega arith))))
        (rw at (load-store_self p.mem p.write_pos src))
  where
    at : p.read_pos + (p.write_pos - p.read_pos) ≡ p.write_pos
    at = omega arith

-- What a write does, where it fits: the bytes come behind those that are there.
pub record Written (p p' : ProtocolBuffer) (src : List ℕ) : Type 0 where
  pub bytes : contents p' ≡ contents p ++ src
  pub free : get_free_size p ≡ length src + get_free_size p'
  pub valid : IsValid p'

-- Put_Data on a valid buffer with room for the bytes returns. They stand behind those that were there,
-- the free size is smaller by their number, and the buffer stays valid.
pub put_data-Written :
    {p : ProtocolBuffer} (src : List ℕ)
    → IsValid p
    → length src ≤ get_free_size p
    → (p' : ProtocolBuffer) × (put_data p src ≡ returned p') × Written p p' src
unfolding put_data get_free_size contents
put_data-Written {p} src v h = (
  record p { mem = store p.mem p.write_pos src; write_pos = p.write_pos + length src },
  ground arith,
  record {
    bytes =
        ap (load (store p.mem p.write_pos src) p.read_pos) (omega arith)
        ∙ load-store_behind p src v;
    free = omega arith;
    valid = omega arith;
  },
)

-- Without room nothing is written: the program ends.
pub put_data-thrown :
    {p : ProtocolBuffer} (src : List ℕ)
    → IsValid p
    → get_free_size p < length src
    → put_data p src ≡ thrown
unfolding put_data get_free_size
put_data-thrown src v h = ground arith

-- Clear makes the whole block free and forgets what was there.
pub get_free_size-clear : {p : ProtocolBuffer} → IsValid p → get_free_size (clear p) ≡ p.buf_size
unfolding clear get_free_size
get_free_size-clear v = omega arith

pub contents-clear : (p : ProtocolBuffer) → contents (clear p) ≡ []
unfolding contents clear load
contents-clear p = let e : p.begin - p.begin ≡ 0 = omega arith in ap (load p.mem p.begin) e

-- Bytes moved to Get_writePos of a cleared buffer, followed by Move_Wp of their number.
pub move_wp-clear :
    {p : ProtocolBuffer} (bytes : List ℕ) (n : ℕ)
    → IsValid p
    → n ≡ length bytes
    → n ≤ p.buf_size
    → let q = clear p in
      let p' = move_wp (record q { mem = store q.mem q.write_pos bytes }) n in
      (contents p' ≡ bytes) × IsValid p'
unfolding clear move_wp contents
move_wp-clear {p} bytes n v size fits =
    let count : p.begin + n - p.begin ≡ length bytes = omega arith in
    (rw count (load-store_self p.mem p.begin bytes), omega arith)
