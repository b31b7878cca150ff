-- ===== src/Network/Receive/Dispatch.antt =====
-- Proc_Packet of Server.cpp in CppProject/22.10.10 - MMO TCPFighter Server, whatever a client has sent.
use simple_poject.Common.{ℕ, ◌≡◌, sym, ap, ◌∙◌, inl, inr, Bool, true, ◌==◌, Bool-cases}
use simple_poject.Common.Outcome.{Outcome, returned, thrown, undefined, returned_injective}
use simple_poject.ProtocolBuffer.{ProtocolBuffer}
use simple_poject.World.{World, Session}
use simple_poject.World.Lookup.{known-set_session}
use simple_poject.World.Consistent.{IsConsistent}
use simple_poject.World.Rewritten.{Rewritten, with_session, set_session-IsSound}
use simple_poject.World.Serving.{IsServing, Evolved}
use simple_poject.Handler.Move.Returns.{
  proc_packet_move_start-Evolved, proc_packet_move_stop-Evolved,
}
use simple_poject.Handler.Attack.Returns.{
  proc_packet_attack1-Evolved, proc_packet_attack2-Evolved, proc_packet_attack3-Evolved,
}
use simple_poject.Network.{succeed, proc_packet}

succeed-returned :
    (o : Outcome World) {ret : Bool} {w' : World}
    → succeed o ≡ returned (ret, w')
    → (true ≡ ret) × (o ≡ returned w')
succeed-returned (returned v) {ret} {w'} h =
    let e = returned_injective h in (ap (λ p. p.0) e, ap (λ p. returned p.1) e)
succeed-returned thrown h = cc
succeed-returned undefined h = cc

-- Proc_Packet, if it returns on a consistent world, returns true, whatever the type and the payload are;
-- the world is consistent, nobody has come or gone and no session has received anything.
pub proc_packet-Evolved :
    (w : World) (id packet_type : ℕ) (payload : ProtocolBuffer) {ret : Bool} {w' : World}
    → IsConsistent w
    → proc_packet w id packet_type payload ≡ returned (ret, w')
    → (true ≡ ret) × Evolved w w'
unfolding proc_packet
proc_packet-Evolved w id t payload {ret} {w'} k h = elim (Bool-cases (t == 10)) [
  | inl a ↦
      let (e, g) = succeed-returned _ (rw a at h) in
      (e, proc_packet_move_start-Evolved id payload k g)
  | inr a ↦ elim (Bool-cases (t == 12)) [
    | inl b ↦
        let (e, g) = succeed-returned _ (rw (a, b) at h) in
        (e, proc_packet_move_stop-Evolved id payload k g)
    | inr b ↦ elim (Bool-cases (t == 20)) [
      | inl c ↦
          let (e, g) = succeed-returned _ (rw (a, b, c) at h) in
          (e, proc_packet_attack1-Evolved id payload k g)
      | inr c ↦ elim (Bool-cases (t == 22)) [
        | inl d ↦
            let (e, g) = succeed-returned _ (rw (a, b, c, d) at h) in
            (e, proc_packet_attack2-Evolved id payload k g)
        | inr d ↦ elim (Bool-cases (t == 24)) [
          | inl e ↦
              let (f, g) = succeed-returned _ (rw (a, b, c, d, e) at h) in
              (f, proc_packet_attack3-Evolved id payload k g)
          | inr e ↦ let absurd : undefined ≡ returned (ret, w') = rw (a, b, c, d, e) at h in cc
        ]
      ]
    ]
  ]
]

-- A session whose received bytes were changed.
pub with_session-IsServing :
    {w : World} {s : Session}
    → (r : Rewritten w s) → s.flag_disconnect ≡ r.old.flag_disconnect
    → IsServing w
    → IsServing (with_session w s)
with_session-IsServing {w} {s} r same k = record {
  consistent = record {
    pool = k.consistent.pool;
    placed = k.consistent.placed;
    listed = k.consistent.listed;
    served = λ id c e. known-set_session id s w.sessions ∙ k.consistent.served id c e;
    members = k.consistent.members;
  };
  sound = set_session-IsSound r same k.sound;
  hosted = λ id h. k.hosted id (sym (known-set_session id s w.sessions) ∙ h);
}
