-- ===== src/ProtocolBuffer.antt =====
-- The serialisation buffer: ProtocolBuffer.h and ProtocolBuffer.cpp of
-- CppProject/22.10.10 - MMO TCPFighter Server. Pointers are addresses. A number is its bit pattern,
-- a float or double too; a bare `throw` is `thrown`. The sizes are those of 64-bit Windows.
pub mod Put
pub mod Get
pub mod Tests
use simple_poject.Common.{
  ℕ, ◌+◌, ◌-◌, ◌*◌, ◌≤◌, List, [], ◌∷◌, ◌++◌, Bool, true, false, ltb, leb, ◌==◌, if◌then◌else◌,
  length,
}
use simple_poject.Common.Memory.{Memory, store, load}
use simple_poject.Common.Word.{to_bytes, of_bytes}
use simple_poject.Common.Outcome.{Outcome, returned, thrown}

pub record ProtocolBuffer : Type 0 where
  pub mem : Memory
  pub begin : ℕ
  pub end : ℕ
  pub buf_size : ℕ
  pub write_pos : ℕ
  pub read_pos : ℕ

-- `begin` is what malloc returned.
pub init : Memory → ℕ → ℕ → ProtocolBuffer
init mem begin size = record {
  mem = mem;
  begin = begin;
  end = begin + size;
  buf_size = size;
  write_pos = begin;
  read_pos = begin;
}

pub clear : ProtocolBuffer → ProtocolBuffer
clear p = record p { write_pos = p.begin; read_pos = p.begin }

pub empty : ProtocolBuffer → Bool
empty p = if leb p.write_pos p.read_pos then true else false

pub full : ProtocolBuffer → Bool
full p = if p.write_pos + 1 == p.end then true else false

pub get_free_size : ProtocolBuffer → ℕ
get_free_size p = p.end - p.write_pos

pub get_use_size : ProtocolBuffer → ℕ
get_use_size p = p.write_pos - p.read_pos

pub move_wp : ProtocolBuffer → ℕ → ProtocolBuffer
move_wp p size = record p { write_pos = p.write_pos + size }

pub move_rp : ProtocolBuffer → ℕ → ProtocolBuffer
move_rp p size = record p { read_pos = p.read_pos + size }

-- The list is what `src` points to, `size` its length.
pub put_data : ProtocolBuffer → List ℕ → Outcome ProtocolBuffer
put_data p src =
    if leb (p.write_pos + length src) p.end
    then returned
        (record p { mem = store p.mem p.write_pos src; write_pos = p.write_pos + length src })
    else thrown

-- The list is what is written through `dst`.
pub get_data : ProtocolBuffer → ℕ → Outcome (List ℕ × ProtocolBuffer)
get_data p size =
    if leb (p.read_pos + size) p.write_pos
    then returned (load p.mem p.read_pos size, record p { read_pos = p.read_pos + size })
    else thrown

-- operator<< of a value of `size` bytes
pub put_number : ProtocolBuffer → ℕ → ℕ → Outcome ProtocolBuffer
put_number p size v =
    if leb (p.write_pos + size) p.end
    then returned (record p {
      mem = store p.mem p.write_pos (to_bytes size v);
      write_pos = p.write_pos + size;
    })
    else thrown

-- operator>> into a value of `size` bytes
pub get_number : ProtocolBuffer → ℕ → Outcome (ℕ × ProtocolBuffer)
get_number p size =
    if leb (p.read_pos + size) p.write_pos
    then returned (of_bytes (load p.mem p.read_pos size), record p { read_pos = p.read_pos + size })
    else thrown

abbrev pub put_char : ProtocolBuffer → ℕ → Outcome ProtocolBuffer
put_char p v = put_number p 1 v

abbrev pub put_uchar : ProtocolBuffer → ℕ → Outcome ProtocolBuffer
put_uchar p v = put_number p 1 v

abbrev pub put_int : ProtocolBuffer → ℕ → Outcome ProtocolBuffer
put_int p v = put_number p 4 v

abbrev pub put_uint : ProtocolBuffer → ℕ → Outcome ProtocolBuffer
put_uint p v = put_number p 4 v

abbrev pub put_long : ProtocolBuffer → ℕ → Outcome ProtocolBuffer
put_long p v = put_number p 4 v

abbrev pub put_ulong : ProtocolBuffer → ℕ → Outcome ProtocolBuffer
put_ulong p v = put_number p 4 v

abbrev pub put_short : ProtocolBuffer → ℕ → Outcome ProtocolBuffer
put_short p v = put_number p 2 v

abbrev pub put_ushort : ProtocolBuffer → ℕ → Outcome ProtocolBuffer
put_ushort p v = put_number p 2 v

abbrev pub put_float : ProtocolBuffer → ℕ → Outcome ProtocolBuffer
put_float p v = put_number p 4 v

abbrev pub put_double : ProtocolBuffer → ℕ → Outcome ProtocolBuffer
put_double p v = put_number p 8 v

abbrev pub put_llong : ProtocolBuffer → ℕ → Outcome ProtocolBuffer
put_llong p v = put_number p 8 v

abbrev pub put_ullong : ProtocolBuffer → ℕ → Outcome ProtocolBuffer
put_ullong p v = put_number p 8 v

-- strlen: the characters before the first zero.
abbrev pub until_zero : List ℕ → List ℕ
until_zero [] = []
until_zero (c ∷ cs) = if c == 0 then [] else c ∷ until_zero cs

-- The bytes of a wchar_t string, two for each character.
abbrev pub wide_bytes : List ℕ → List ℕ
wide_bytes [] = []
wide_bytes (c ∷ cs) = to_bytes 2 c ++ wide_bytes cs

pub put_str : ProtocolBuffer → List ℕ → Outcome ProtocolBuffer
put_str p str =
    let size = length (until_zero str) in
    if leb (p.write_pos + size) p.end
    then returned (record p {
      mem = store p.mem p.write_pos (until_zero str);
      write_pos = p.write_pos + size;
    })
    else thrown

pub put_wstr : ProtocolBuffer → List ℕ → Outcome ProtocolBuffer
put_wstr p str =
    let size = length (until_zero str) * 2 in
    if leb (p.write_pos + size) p.end
    then returned (record p {
      mem = store p.mem p.write_pos (wide_bytes (until_zero str));
      write_pos = p.write_pos + size;
    })
    else thrown

abbrev pub get_char : ProtocolBuffer → Outcome (ℕ × ProtocolBuffer)
get_char p = get_number p 1

abbrev pub get_uchar : ProtocolBuffer → Outcome (ℕ × ProtocolBuffer)
get_uchar p = get_number p 1

abbrev pub get_int : ProtocolBuffer → Outcome (ℕ × ProtocolBuffer)
get_int p = get_number p 4

abbrev pub get_uint : ProtocolBuffer → Outcome (ℕ × ProtocolBuffer)
get_uint p = get_number p 4

abbrev pub get_long : ProtocolBuffer → Outcome (ℕ × ProtocolBuffer)
get_long p = get_number p 4

abbrev pub get_ulong : ProtocolBuffer → Outcome (ℕ × ProtocolBuffer)
get_ulong p = get_number p 4

abbrev pub get_short : ProtocolBuffer → Outcome (ℕ × ProtocolBuffer)
get_short p = get_number p 2

abbrev pub get_ushort : ProtocolBuffer → Outcome (ℕ × ProtocolBuffer)
get_ushort p = get_number p 2

abbrev pub get_float : ProtocolBuffer → Outcome (ℕ × ProtocolBuffer)
get_float p = get_number p 4

abbrev pub get_double : ProtocolBuffer → Outcome (ℕ × ProtocolBuffer)
get_double p = get_number p 8

abbrev pub get_llong : ProtocolBuffer → Outcome (ℕ × ProtocolBuffer)
get_llong p = get_number p 8

abbrev pub get_ullong : ProtocolBuffer → Outcome (ℕ × ProtocolBuffer)
get_ullong p = get_number p 8
