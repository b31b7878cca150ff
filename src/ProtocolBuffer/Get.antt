-- ===== src/ProtocolBuffer/Get.antt =====
-- What the operators >> and Get_Data read, and that they read back what was written.
use simple_poject.Common.{
  ℕ, ◌+◌, ◌-◌, ◌^◌, ◌≤◌, ◌<◌, ◌≡◌, sym, ap, ◌∙◌, List, [], ◌++◌, arith, leb, length, Bool-cases,
  ◌⊎◌, inl, inr, refl, length-append, append-nil, append-cut, true,
}
use simple_poject.Common.Memory.{load, load-append, length-load}
use simple_poject.Common.Word.{of_bytes, to_bytes, length-to_bytes, of_bytes-to_bytes}
use simple_poject.Common.Outcome.{returned, thrown}
use simple_poject.ProtocolBuffer.{
  ProtocolBuffer, get_free_size, get_use_size, put_number, get_data, get_number,
}
use simple_poject.ProtocolBuffer.Put.{IsValid, contents, put_data-Written, put_number-eq-put_data}

pub length-contents : (p : ProtocolBuffer) → length (contents p) ≡ get_use_size p
unfolding contents get_use_size
length-contents p = length-load p.mem p.read_pos (p.write_pos - p.read_pos)

-- A read of `size` bytes.
advance : ProtocolBuffer → ℕ → ProtocolBuffer
advance p size = record p { read_pos = p.read_pos + size }

advance-contents :
    {p : ProtocolBuffer} (size : ℕ)
    → size ≤ get_use_size p
    → IsValid p
    → (contents p ≡ load p.mem p.read_pos size ++ contents (advance p size))
      × IsValid (advance p size)
unfolding advance contents get_use_size
advance-contents {p} size h v = (
  ap (load p.mem p.read_pos) split
      ∙ load-append p.mem p.read_pos size (p.write_pos - (p.read_pos + size)),
  omega arith,
)
  where
    split : p.write_pos - p.read_pos ≡ size + (p.write_pos - (p.read_pos + size))
    split = omega arith

-- Reading as many bytes as a known prefix has gives the prefix and leaves the rest.
prefix-parts :
    {p : ProtocolBuffer} (n : ℕ) (bs rest : List ℕ)
    → n ≡ length bs
    → contents p ≡ bs ++ rest
    → IsValid p
    → (n ≤ get_use_size p)
      × (load p.mem p.read_pos n ≡ bs)
      × (contents (advance p n) ≡ rest)
      × IsValid (advance p n)
prefix-parts {p} n bs rest size e v = (room, cut.0, cut.1, parts.1)
  where
    room : n ≤ get_use_size p
    room = omega (arith, length-contents p, length-append bs rest, ap length e)

    parts : (contents p ≡ load p.mem p.read_pos n ++ contents (advance p n)) × IsValid (advance p n)
    parts = advance-contents n room v

    cut : (load p.mem p.read_pos n ≡ bs) × (contents (advance p n) ≡ rest)
    cut =
        append-cut (load p.mem p.read_pos n) bs (contents (advance p n)) rest
          (length-load p.mem p.read_pos n ∙ size) (sym parts.0 ∙ e)

-- What a read leaves behind.
pub record Left (p : ProtocolBuffer) (rest : List ℕ) : Type 0 where
  pub bytes : contents p ≡ rest
  pub valid : IsValid p

fits-leb :
    {p : ProtocolBuffer} (n : ℕ)
    → n ≤ get_use_size p
    → IsValid p
    → leb (p.read_pos + n) p.write_pos ≡ true
unfolding get_use_size
fits-leb n h v = ground arith

-- Get_Data on a valid buffer, of as many bytes as a prefix of its contents has, returns the prefix,
-- leaves the rest and keeps the buffer valid.
pub get_data_lem :
    {p : ProtocolBuffer} (n : ℕ) (bs rest : List ℕ)
    → n ≡ length bs
    → contents p ≡ bs ++ rest
    → IsValid p
    → (p' : ProtocolBuffer) × (get_data p n ≡ returned (bs, p')) × Left p' rest
unfolding get_data advance
get_data_lem {p} n bs rest size e v =
    let parts = prefix-parts n bs rest size e v in
    (advance p n, rw (fits-leb n parts.0 v, parts.1), record { bytes = parts.2; valid = parts.3 })

-- A number that was written is read back, of the same size, below 256 ^ size.
pub get_number_lem :
    {p : ProtocolBuffer} (size v : ℕ) (rest : List ℕ)
    → v < 256 ^ size
    → contents p ≡ to_bytes size v ++ rest
    → IsValid p
    → (p' : ProtocolBuffer) × (get_number p size ≡ returned (v, p')) × Left p' rest
unfolding get_number advance
get_number_lem {p} size v rest small e valid =
    let parts = prefix-parts size (to_bytes size v) rest (sym (length-to_bytes size v)) e valid in
    (
      advance p size,
      rw (fits-leb size parts.0 valid, parts.1, of_bytes-to_bytes size v small),
      record { bytes = parts.2; valid = parts.3 },
    )

-- Too few bytes left: the program ends.
pub get_number-thrown :
    {p : ProtocolBuffer} (size : ℕ) → IsValid p → get_use_size p < size → get_number p size ≡ thrown
unfolding get_number get_use_size
get_number-thrown size v h = ground arith

-- In a valid buffer with room for a number below 256 ^ size, the number is put behind the unread
-- bytes: reading those hands them out unchanged, and the next read hands out the number and leaves
-- nothing.
pub put-get_number :
    {p : ProtocolBuffer} (size v : ℕ)
    → IsValid p
    → size ≤ get_free_size p
    → v < 256 ^ size
    → (p' q q' : ProtocolBuffer) × (put_number p size v ≡ returned p')
      × (get_data p' (get_use_size p) ≡ returned (contents p, q))
      × (get_number q size ≡ returned (v, q'))
      × (contents q' ≡ [])
put-get_number {p} size v valid room small =
    let (p', put, w) =
      put_data-Written (to_bytes size v) valid (omega (arith, length-to_bytes size v)) in
    let (q, got, l) =
      get_data_lem (get_use_size p) (contents p) (to_bytes size v) (sym (length-contents p)) w.bytes
        w.valid in
    let (q', number, l') =
      get_number_lem size v [] small (l.bytes ∙ sym (append-nil (to_bytes size v))) l.valid in
    (p', q, q', put_number-eq-put_data p size v ∙ put, got, number, l'.bytes)

-- A read that does not end the program takes its bytes off.
pub record Took (p : ProtocolBuffer) (size : ℕ) : Type 0 where
  pub value : ℕ
  pub after : ProtocolBuffer
  pub runs : get_number p size ≡ returned (value, after)
  pub valid : IsValid after
  pub size_left : size + get_use_size after ≡ get_use_size p

pub get_number-cases :
    {p : ProtocolBuffer} (size : ℕ) → IsValid p → Took p size ⊎ (get_number p size ≡ thrown)
unfolding get_number get_use_size
get_number-cases {p} size v = elim (Bool-cases (leb (p.read_pos + size) p.write_pos)) [
  | inl fits ↦ inl (record {
    value = of_bytes (load p.mem p.read_pos size);
    after = record p { read_pos = p.read_pos + size };
    runs = rw fits refl;
    valid = ground arith;
    size_left = ground arith;
  })
  | inr short ↦ inr (rw short refl)
]
