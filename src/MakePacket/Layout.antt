-- ===== src/MakePacket/Layout.antt =====
-- The bytes of each packet, stated without the buffer, and that MakePacket.cpp writes them.
use simple_poject.Common.{
  ℕ, ◌≤◌, ◌≡◌, refl, sym, ap, ◌∙◌, List, [], ◌∷◌, ◌++◌, arith, length, length-append, append-nil,
  append_assoc,
}
use simple_poject.Common.Word.{to_bytes}
use simple_poject.Common.Outcome.{Outcome, returned, ◌>>=◌, >>=-returned}
use simple_poject.ProtocolBuffer.{ProtocolBuffer, get_free_size, put_data}
use simple_poject.ProtocolBuffer.Put.{
  IsValid, contents, Written, put_data-Written, put_number-eq-put_data,
}
use simple_poject.MakePacket.{
  packet_code, header_bytes, make_packet_create_my_character, make_packet_create_other_character,
  make_packet_delete_character, make_packet_move_start, make_packet_move_stop, make_packet_attack1,
  make_packet_attack2, make_packet_attack3, make_packet_damage, make_packet_sync,
}

-- A packet, by its function.
pub data Packet : Type 0 where
  create_my_character : (session_id dir x y hp : ℕ) → Packet
  create_other_character : (session_id dir x y hp : ℕ) → Packet
  delete_character : (session_id : ℕ) → Packet
  move_start : (session_id action x y : ℕ) → Packet
  move_stop : (session_id dir x y : ℕ) → Packet
  attack1 : (session_id dir x y : ℕ) → Packet
  attack2 : (session_id dir x y : ℕ) → Packet
  attack3 : (session_id dir x y : ℕ) → Packet
  damage : (attack_id damage_id damage_hp : ℕ) → Packet
  sync : (session_id x y : ℕ) → Packet

pub make_packet : Packet → ProtocolBuffer → Outcome ProtocolBuffer
make_packet (create_my_character session_id dir x y hp) p =
    make_packet_create_my_character p session_id dir x y hp
make_packet (create_other_character session_id dir x y hp) p =
    make_packet_create_other_character p session_id dir x y hp
make_packet (delete_character session_id) p = make_packet_delete_character p session_id
make_packet (move_start session_id action x y) p = make_packet_move_start p session_id action x y
make_packet (move_stop session_id dir x y) p = make_packet_move_stop p session_id dir x y
make_packet (attack1 session_id dir x y) p = make_packet_attack1 p session_id dir x y
make_packet (attack2 session_id dir x y) p = make_packet_attack2 p session_id dir x y
make_packet (attack3 session_id dir x y) p = make_packet_attack3 p session_id dir x y
make_packet (damage attack_id damage_id damage_hp) p =
    make_packet_damage p attack_id damage_id damage_hp
make_packet (sync session_id x y) p = make_packet_sync p session_id x y

pub packet_type : Packet → ℕ
packet_type (create_my_character session_id dir x y hp) = 0
packet_type (create_other_character session_id dir x y hp) = 1
packet_type (delete_character session_id) = 2
packet_type (move_start session_id action x y) = 11
packet_type (move_stop session_id dir x y) = 13
packet_type (attack1 session_id dir x y) = 21
packet_type (attack2 session_id dir x y) = 23
packet_type (attack3 session_id dir x y) = 25
packet_type (damage attack_id damage_id damage_hp) = 30
packet_type (sync session_id x y) = 251

-- The fields, in the order of the wire, with the bytes that each takes.
pub payload_fields : Packet → List (ℕ × ℕ)
payload_fields (create_my_character session_id dir x y hp) =
    (4, session_id) ∷ (1, dir) ∷ (2, x) ∷ (2, y) ∷ (1, hp) ∷ []
payload_fields (create_other_character session_id dir x y hp) =
    (4, session_id) ∷ (1, dir) ∷ (2, x) ∷ (2, y) ∷ (1, hp) ∷ []
payload_fields (delete_character session_id) = (4, session_id) ∷ []
payload_fields (move_start session_id action x y) =
    (4, session_id) ∷ (1, action) ∷ (2, x) ∷ (2, y) ∷ []
payload_fields (move_stop session_id dir x y) = (4, session_id) ∷ (1, dir) ∷ (2, x) ∷ (2, y) ∷ []
payload_fields (attack1 session_id dir x y) = (4, session_id) ∷ (1, dir) ∷ (2, x) ∷ (2, y) ∷ []
payload_fields (attack2 session_id dir x y) = (4, session_id) ∷ (1, dir) ∷ (2, x) ∷ (2, y) ∷ []
payload_fields (attack3 session_id dir x y) = (4, session_id) ∷ (1, dir) ∷ (2, x) ∷ (2, y) ∷ []
payload_fields (damage attack_id damage_id damage_hp) =
    (4, attack_id) ∷ (4, damage_id) ∷ (1, damage_hp) ∷ []
payload_fields (sync session_id x y) = (4, session_id) ∷ (2, x) ∷ (2, y) ∷ []

pub fields_bytes : List (ℕ × ℕ) → List ℕ
fields_bytes [] = []
fields_bytes ((size, v) ∷ fs) = to_bytes size v ++ fields_bytes fs

pub payload : Packet → List ℕ
payload k = fields_bytes (payload_fields k)

-- The size of the payload stands in the header.
pub packet_bytes : Packet → List ℕ
packet_bytes k =
    header_bytes
      (record { by_code = packet_code; by_size = length (payload k); by_type = packet_type k })
    ++ payload k

put_fields : ProtocolBuffer → List (ℕ × ℕ) → Outcome ProtocolBuffer
put_fields p [] = returned p
put_fields p ((size, v) ∷ fs) = put_data p (to_bytes size v) >>= λ q. put_fields q fs

put_fields-Written :
    (fs : List (ℕ × ℕ)) {p : ProtocolBuffer}
    → IsValid p
    → length (fields_bytes fs) ≤ get_free_size p
    → (p' : ProtocolBuffer) × (put_fields p fs ≡ returned p') × Written p p' (fields_bytes fs)
unfolding put_fields fields_bytes
put_fields-Written [] {p} v h =
    (p, refl, record { bytes = sym (append-nil (contents p)); free = omega arith; valid = v })
put_fields-Written ((size, x) ∷ fs) {p} v h =
    let sizes = length-append (to_bytes size x) (fields_bytes fs) in
    let (q, put, w) = put_data-Written (to_bytes size x) v (omega (arith, sizes)) in
    let (p', rest, w') = put_fields-Written fs w.valid (omega (arith, sizes, w.free)) in
    (
      p',
      rw put rest,
      record {
        bytes =
            w'.bytes
            ∙ ap (λ l. l ++ fields_bytes fs) w.bytes
            ∙ append_assoc (contents p) (to_bytes size x) (fields_bytes fs);
        free = omega (arith, sizes, w.free, w'.free);
        valid = w'.valid;
      },
    )

-- The sizes that MakePacket.cpp writes as numerals.
written_size : Packet → ℕ
written_size (create_my_character session_id dir x y hp) = 10
written_size (create_other_character session_id dir x y hp) = 10
written_size (delete_character session_id) = 4
written_size (move_start session_id action x y) = 9
written_size (move_stop session_id dir x y) = 9
written_size (attack1 session_id dir x y) = 9
written_size (attack2 session_id dir x y) = 9
written_size (attack3 session_id dir x y) = 9
written_size (damage attack_id damage_id damage_hp) = 9
written_size (sync session_id x y) = 8

length-payload : (k : Packet) → length (payload k) ≡ written_size k
unfolding written_size payload payload_fields fields_bytes to_bytes
length-payload (create_my_character session_id dir x y hp) = refl
length-payload (create_other_character session_id dir x y hp) = refl
length-payload (delete_character session_id) = refl
length-payload (move_start session_id action x y) = refl
length-payload (move_stop session_id dir x y) = refl
length-payload (attack1 session_id dir x y) = refl
length-payload (attack2 session_id dir x y) = refl
length-payload (attack3 session_id dir x y) = refl
length-payload (damage attack_id damage_id damage_hp) = refl
length-payload (sync session_id x y) = refl

written_size-le : (k : Packet) → written_size k ≤ 10
unfolding written_size
written_size-le (Packet.delete_character session_id) = omega arith
written_size-le k = omega arith

make_packet-eq-put :
    (k : Packet) (p : ProtocolBuffer)
    → make_packet k p ≡ (
        put_data p (packet_code ∷ written_size k ∷ packet_type k ∷ []) >>= λ q.
        put_fields q (payload_fields k))
unfolding make_packet written_size payload_fields packet_type put_fields
    make_packet_create_my_character make_packet_create_other_character make_packet_delete_character
    make_packet_move_start make_packet_move_stop make_packet_attack1 make_packet_attack2
    make_packet_attack3 make_packet_damage make_packet_sync
make_packet-eq-put (create_my_character session_id dir x y hp) p =
    simp (put_number-eq-put_data, >>=-returned)
make_packet-eq-put (create_other_character session_id dir x y hp) p =
    simp (put_number-eq-put_data, >>=-returned)
make_packet-eq-put (delete_character session_id) p = simp (put_number-eq-put_data, >>=-returned)
make_packet-eq-put (move_start session_id action x y) p =
    simp (put_number-eq-put_data, >>=-returned)
make_packet-eq-put (move_stop session_id dir x y) p = simp (put_number-eq-put_data, >>=-returned)
make_packet-eq-put (attack1 session_id dir x y) p = simp (put_number-eq-put_data, >>=-returned)
make_packet-eq-put (attack2 session_id dir x y) p = simp (put_number-eq-put_data, >>=-returned)
make_packet-eq-put (attack3 session_id dir x y) p = simp (put_number-eq-put_data, >>=-returned)
make_packet-eq-put (damage attack_id damage_id damage_hp) p =
    simp (put_number-eq-put_data, >>=-returned)
make_packet-eq-put (sync session_id x y) p = simp (put_number-eq-put_data, >>=-returned)

-- Each function of MakePacket.cpp, on a valid buffer with room for the packet, returns and appends
-- exactly the header and the fields of the packet; the size that it writes into the header is the
-- number of bytes that follow.
pub make_packet-Written :
    {p : ProtocolBuffer} (k : Packet)
    → IsValid p
    → length (packet_bytes k) ≤ get_free_size p
    → (p' : ProtocolBuffer) × (make_packet k p ≡ returned p') × Written p p' (packet_bytes k)
unfolding packet_bytes payload
make_packet-Written {p} k v h =
    let header = packet_code ∷ length (payload k) ∷ packet_type k ∷ [] in
    let (q, put, w) = put_data-Written header v (omega arith) in
    let (p', rest, w') = put_fields-Written (payload_fields k) w.valid (omega (arith, w.free)) in
    (
      p',
      make_packet-eq-put k p ∙ rw (← length-payload k, put) rest,
      record {
        bytes =
            w'.bytes
            ∙ ap (λ l. l ++ payload k) w.bytes
            ∙ append_assoc (contents p) header (payload k);
        free = omega (arith, w.free, w'.free);
        valid = w'.valid;
      },
    )

-- No packet is longer than thirteen bytes.
pub length-packet_bytes : (k : Packet) → length (packet_bytes k) ≤ 13
unfolding packet_bytes
length-packet_bytes k = omega (arith, length-payload k, written_size-le k)
