-- ===== src/Handler/Attack/Returns.antt =====
-- Whatever a client sends, the attack handlers of Server.cpp in
-- CppProject/22.10.10 - MMO TCPFighter Server leave a server that goes on, if they return.
use simple_poject.Common.{
  ℕ, ◌+◌, ◌-◌, ◌%◌, ◌≤◌, ◌≡◌, refl, sym, ◌∙◌, ◌⊎◌, inl, inr, false, Option, none, some, ◌==◌,
  Bool-cases,
}
use simple_poject.Common.Outcome.{Outcome, returned, undefined, returned_injective}
use simple_poject.ProtocolBuffer.{ProtocolBuffer}
use simple_poject.MakePacket.Layout.{Packet}
use simple_poject.Character.{Character, stop}
use simple_poject.World.{World, find_character}
use simple_poject.World.Frame.{Sent-refl}
use simple_poject.World.Consistent.{IsConsistent}
use simple_poject.World.Resector.{Stepped}
use simple_poject.World.Serving.{Evolved, Evolved-trans, Hosts}
use simple_poject.Handler.Move.{is_far, read_fields}
use simple_poject.Handler.Move.Total.{
  stepped, stays-near, character_of-returned, sync_sector-undefined,
}
use simple_poject.Handler.Move.Returns.{near-cases, Reads, reads, Evolved-Finished, not-undefined}
use simple_poject.Handler.Attack.{
  proc_packet_attack, proc_packet_attack1, proc_packet_attack2, proc_packet_attack3,
}
use simple_poject.Handler.Attack.Total.{Damaged, proc_packet_attack-Damaged}

attack-Reads :
    (w : World) (id : ℕ) (payload : ProtocolBuffer) (range_x range_y damage : ℕ)
    (packet : ℕ → ℕ → ℕ → ℕ → Packet) {w' : World}
    → proc_packet_attack w id payload range_x range_y damage packet ≡ returned w'
    → Reads w id payload
unfolding proc_packet_attack
attack-Reads w id payload rx ry damage packet h = reads w id payload _ h

-- An attack from outside the map, near the attacker's position, reaches outside the array of sectors.
attack-undefined :
    {w : World} (id : ℕ) (payload : ProtocolBuffer) (range_x range_y damage : ℕ)
    (packet : ℕ → ℕ → ℕ → ℕ → Packet) {dir x y : ℕ} {c : Character}
    → IsConsistent w
    → read_fields payload ≡ returned (dir, x, y)
    → find_character id w.characters ≡ some c
    → is_far c x y ≡ false
    → (6400 ≤ x) ⊎ (6400 ≤ y)
    → proc_packet_attack w id payload range_x range_y damage packet ≡ undefined
unfolding proc_packet_attack
attack-undefined {w} id payload rx ry damage packet {dir} {x} {y} {c} k read there near out =
    let (e, at) = stays-near w c x y near in
    let s : Stepped w (record c { x = x; y = y; dir = dir; action = stop }) =
      stepped id x y k (Sent-refl w) there (rw at refl) (rw at refl) in
    rw (read, character_of-returned w id there, e, at, sync_sector-undefined k s out) refl

Hosts-Damaged :
    {w : World} {damage : ℕ} (target : Option Character) {o : Outcome World}
    → (d : Damaged w damage target o) → Hosts w d.world
Hosts-Damaged none d id c h = (c, d.find id ∙ h)
Hosts-Damaged {damage = damage} (some other) d id c h = elim (Bool-cases (other.session_id == id)) [
  | inl same ↦ (record other { hp = (other.hp + 256 - damage) % 256 }, d.find id ∙ rw same refl)
  | inr away ↦ (c, d.find id ∙ rw away h)
]

Evolved-Damaged :
    {w w' : World} {damage : ℕ} {target : Option Character} {o : Outcome World}
    → Damaged w damage target o
    → o ≡ returned w'
    → Evolved w w'
Evolved-Damaged {target = target} d e =
    let is = returned_injective (sym d.runs ∙ e) in
    rw (← is)
      (record { consistent = d.consistent; lasting = d.lasting; hosts = Hosts-Damaged target d })

proc_packet_attack-Evolved :
    {w w' : World} (id : ℕ) (payload : ProtocolBuffer) (range_x range_y damage : ℕ)
    (packet : ℕ → ℕ → ℕ → ℕ → Packet)
    → IsConsistent w
    → proc_packet_attack w id payload range_x range_y damage packet ≡ returned w'
    → Evolved w w'
proc_packet_attack-Evolved {w} {w'} id payload rx ry damage packet k h =
    let (dir, x, y, c, read, there) = attack-Reads w id payload rx ry damage packet h in
    elim (near-cases c x y) [
      | inl inside ↦
          let (mid, after, target, f, hit, d) =
            proc_packet_attack-Damaged id payload rx ry damage packet k read there inside in
          Evolved-trans (Evolved-Finished f refl) (Evolved-Damaged d h)
      | inr (near, out) ↦
          not-undefined (attack-undefined id payload rx ry damage packet k read there near out) h
    ]

pub proc_packet_attack1-Evolved :
    {w w' : World} (id : ℕ) (payload : ProtocolBuffer)
    → IsConsistent w
    → proc_packet_attack1 w id payload ≡ returned w'
    → Evolved w w'
unfolding proc_packet_attack1
proc_packet_attack1-Evolved id payload k h =
    proc_packet_attack-Evolved id payload 80 10 1 Packet.attack1 k h

pub proc_packet_attack2-Evolved :
    {w w' : World} (id : ℕ) (payload : ProtocolBuffer)
    → IsConsistent w
    → proc_packet_attack2 w id payload ≡ returned w'
    → Evolved w w'
unfolding proc_packet_attack2
proc_packet_attack2-Evolved id payload k h =
    proc_packet_attack-Evolved id payload 90 10 2 Packet.attack2 k h

pub proc_packet_attack3-Evolved :
    {w w' : World} (id : ℕ) (payload : ProtocolBuffer)
    → IsConsistent w
    → proc_packet_attack3 w id payload ≡ returned w'
    → Evolved w w'
unfolding proc_packet_attack3
proc_packet_attack3-Evolved id payload k h =
    proc_packet_attack-Evolved id payload 100 20 3 Packet.attack3 k h
