-- ===== src/Handler/Move/Returns.antt =====
-- Whatever a client sends, Proc_Packet_MOVE_START and Proc_Packet_MOVE_STOP of Server.cpp in
-- CppProject/22.10.10 - MMO TCPFighter Server leave a server that goes on, if they return.
use native.Mathlib.Decide.{dec_lt}
use simple_poject.Common.{
  ℕ, ◌<◌, ◌≤◌, ◌≡◌, sym, ◌∙◌, ◌⊎◌, inl, inr, false, some, arith, ◌==◌, Bool-cases,
}
use simple_poject.Common.Outcome.{
  Outcome, returned, undefined, ◌>>=◌, >>=-eq-returned, returned_injective,
}
use simple_poject.ProtocolBuffer.{ProtocolBuffer}
use simple_poject.Character.{Character}
use simple_poject.World.{World, find_character}
use simple_poject.World.Consistent.{IsConsistent}
use simple_poject.World.Serving.{Evolved}
use simple_poject.Handler.Move.{
  is_far, read_fields, character_of, proc_packet_move_start, proc_packet_move_stop,
}
use simple_poject.Handler.Move.Kept.{Finished}
use simple_poject.Handler.Move.Total.{
  proc_packet_move_start-Finished, proc_packet_move_start-undefined, proc_packet_move_stop-Finished,
  proc_packet_move_stop-undefined,
}

pub character_of-found :
    (w : World) (id : ℕ) {c : Character}
    → character_of w id ≡ returned c
    → find_character id w.characters ≡ some c
unfolding character_of
character_of-found w id h = ground arith

-- The client's position is in the map unless it is far off, or it is near and outside.
pub near-cases :
    (c : Character) (x y : ℕ)
    → (is_far c x y ≡ false → (x < 6400) × (y < 6400))
      ⊎ ((is_far c x y ≡ false) × ((6400 ≤ x) ⊎ (6400 ≤ y)))
near-cases c x y = elim (Bool-cases (is_far c x y)) [
  | inl far ↦ inl (λ near. ground arith)
  | inr near ↦ elim (dec_lt x 6400) [
    | no h ↦ inr (near, inl (omega arith))
    | yes h ↦ elim (dec_lt y 6400) [
      | no k ↦ inr (near, inr (omega arith))
      | yes k ↦ inl (λ n. (h, k))
    ]
  ]
]

pub Evolved-Finished :
    {w w' : World} {c after : Character} {o : Outcome World}
    → Finished w c after o
    → o ≡ returned w'
    → Evolved w w'
Evolved-Finished {w} {w'} {c} {after} f e =
    let is : f.world ≡ w' = returned_injective (sym f.runs ∙ e) in
    rw (← is) (record {
      consistent = f.consistent;
      lasting = f.lasting;
      hosts = λ id d h. elim (Bool-cases (c.session_id == id)) [
        | inl same ↦ let own : c.session_id ≡ id = ground arith in (after, rw (← own) f.found)
        | inr other ↦ (d, f.others id other ∙ h)
      ];
    })

-- What the handlers read first: the three fields, and their character.
abbrev pub Reads : World → ℕ → ProtocolBuffer → Type 0
Reads w id payload =
    (first : ℕ) × (x : ℕ) × (y : ℕ) × (c : Character) × (read_fields payload
      ≡ returned (first, x, y))
    × (find_character id w.characters ≡ some c)

pub reads :
    (w : World) (id : ℕ) (payload : ProtocolBuffer) (f : ℕ × ℕ × ℕ → Character → Outcome World)
    {w' : World}
    → (read_fields payload >>= λ r. character_of w id >>= λ c. f r c) ≡ returned w'
    → Reads w id payload
reads w id payload f h =
    let ((first, x, y), e, g) = >>=-eq-returned (read_fields payload) _ h in
    let (c, there, _) = >>=-eq-returned (character_of w id) _ g in
    (first, x, y, c, e, character_of-found w id there)

move_start-Reads :
    (w : World) (id : ℕ) (payload : ProtocolBuffer) {w' : World}
    → proc_packet_move_start w id payload ≡ returned w'
    → Reads w id payload
unfolding proc_packet_move_start
move_start-Reads w id payload h = reads w id payload _ h

move_stop-Reads :
    (w : World) (id : ℕ) (payload : ProtocolBuffer) {w' : World}
    → proc_packet_move_stop w id payload ≡ returned w'
    → Reads w id payload
unfolding proc_packet_move_stop
move_stop-Reads w id payload h = reads w id payload _ h

pub not-undefined :
    {P : Type 0} {A : Type 0} {o : Outcome A} {a : A} → o ≡ undefined → o ≡ returned a → P
not-undefined {P} {A} {o} {a} u h = let absurd : undefined ≡ returned a = sym u ∙ h in cc

-- On a consistent world a MOVE_START packet that returns, whatever it holds, leaves a consistent world,
-- in which nobody has come or gone and no session has received anything.
pub proc_packet_move_start-Evolved :
    {w w' : World} (id : ℕ) (payload : ProtocolBuffer)
    → IsConsistent w
    → proc_packet_move_start w id payload ≡ returned w'
    → Evolved w w'
proc_packet_move_start-Evolved {w} {w'} id payload k h =
    let (action, x, y, c, read, there) = move_start-Reads w id payload h in
    elim (near-cases c x y) [
      | inl inside ↦
          let (_, _, after, f) = proc_packet_move_start-Finished id payload k read there inside in
          Evolved-Finished f h
      | inr (near, out) ↦
          not-undefined (proc_packet_move_start-undefined id payload k read there near out) h
    ]

pub proc_packet_move_stop-Evolved :
    {w w' : World} (id : ℕ) (payload : ProtocolBuffer)
    → IsConsistent w
    → proc_packet_move_stop w id payload ≡ returned w'
    → Evolved w w'
proc_packet_move_stop-Evolved {w} {w'} id payload k h =
    let (dir, x, y, c, read, there) = move_stop-Reads w id payload h in
    elim (near-cases c x y) [
      | inl inside ↦
          let (after, f) = proc_packet_move_stop-Finished id payload k read there inside in
          Evolved-Finished f h
      | inr (near, out) ↦
          not-undefined (proc_packet_move_stop-undefined id payload k read there near out) h
    ]
