-- ===== src/World/Packets.antt =====
-- Packets made one behind the other in a cleared buffer of the pool.
use simple_poject.Common.{
  ℕ, ◌*◌, ◌≤◌, ◌≡◌, refl, sym, ap, ◌∙◌, List, [], ◌∷◌, ◌++◌, arith, length, append-nil,
  append_assoc,
}
use simple_poject.Common.Outcome.{returned}
use simple_poject.ProtocolBuffer.{ProtocolBuffer, get_free_size}
use simple_poject.ProtocolBuffer.Put.{
  IsValid, contents, clear-IsValid, get_free_size-clear, contents-clear,
}
use simple_poject.MakePacket.Layout.{Packet, packet_bytes, make_packet-Written, length-packet_bytes}
use simple_poject.World.{World, make_packets, packet_of}

-- The buffer holds BUF_SIZE bytes.
pub record IsPool (p : ProtocolBuffer) : Type 0 where
  pub valid : IsValid p
  pub size : p.buf_size ≡ 4000

pub packets_bytes : List Packet → List ℕ
packets_bytes [] = []
packets_bytes (k ∷ ks) = packet_bytes k ++ packets_bytes ks

make_packets-Written :
    (ks : List Packet) {p : ProtocolBuffer}
    → IsValid p
    → 13 * length ks ≤ get_free_size p
    → (p' : ProtocolBuffer) × (make_packets p ks ≡ returned p')
      × (contents p' ≡ contents p ++ packets_bytes ks)
unfolding make_packets packets_bytes
make_packets-Written [] {p} v h = (p, refl, sym (append-nil (contents p)))
make_packets-Written (k ∷ ks) {p} v h =
    let (q, e, w) = make_packet-Written k v (omega (arith, length-packet_bytes k)) in
    let (p', f, b) =
      make_packets-Written ks w.valid (omega (arith, length-packet_bytes k, w.free)) in
    (
      p',
      rw e f,
      b
          ∙ ap (λ l. l ++ packets_bytes ks) w.bytes
          ∙ append_assoc (contents p) (packet_bytes k) (packets_bytes ks),
    )

-- A buffer of the pool, valid and of 4000 bytes, holds up to 300 packets: made in turn after Clear,
-- they stand in it one behind the other, whatever it held before.
pub packet_of_lem :
    (w : World) (ks : List Packet)
    → IsPool w.pool_packet
    → length ks ≤ 300
    → packet_of w ks ≡ returned (packets_bytes ks)
unfolding packet_of
packet_of_lem w ks pool h =
    let (p', e, b) =
      make_packets-Written ks (clear-IsValid pool.valid)
        (omega (arith, get_free_size-clear pool.valid, pool.size)) in
    rw (e, b) (ap (λ l. returned (l ++ packets_bytes ks)) (contents-clear w.pool_packet))
