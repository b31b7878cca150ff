-- ===== src/World/Serving.antt =====
-- The invariant of the whole server, Server.cpp in CppProject/22.10.10 - MMO TCPFighter Server, between
-- two calls of its main loop, and the steps that keep it.
use simple_poject.Common.{ℕ, ◌≡◌, ◌∙◌, sym, true, some}
use simple_poject.Character.{Character}
use simple_poject.World.{World, find_character}
use simple_poject.World.Lookup.{known}
use simple_poject.World.Sessions.{IsSound, Lasting, Lasting-trans}
use simple_poject.World.Frame.{Sent}
use simple_poject.World.Consistent.{IsConsistent, IsConsistent-Sent}

-- Characters, sectors and sessions agree, the sessions are sound, and each has its character.
pub record IsServing (w : World) : Type 0 where
  pub consistent : IsConsistent w
  pub sound : IsSound w
  pub hosted :
      (id : ℕ)
      → known id w.sessions ≡ true
      → (c : Character) × (find_character id w.characters ≡ some c)

-- Every character is still there.
abbrev pub Hosts : World → World → Type 0
Hosts w w' =
    (id : ℕ) (c : Character)
    → find_character id w.characters ≡ some c
    → (d : Character) × (find_character id w'.characters ≡ some d)

-- A handler has run: nobody has come or gone.
pub record Evolved (w w' : World) : Type 0 where
  pub consistent : IsConsistent w'
  pub lasting : Lasting w w'
  pub hosts : Hosts w w'

pub Evolved-Sent : {w w' : World} → IsConsistent w → Sent w w' → Evolved w w'
Evolved-Sent {w} {w'} k s = record {
  consistent = IsConsistent-Sent w w' s k;
  lasting = s.lasting;
  hosts = λ id c e. (c, rw s.characters e);
}

pub Evolved-trans : {u v w : World} → Evolved u v → Evolved v w → Evolved u w
Evolved-trans e f = record {
  consistent = f.consistent;
  lasting = Lasting-trans e.lasting f.lasting;
  hosts = λ id c h. let (d, g) = e.hosts id c h in f.hosts id d g;
}

pub Evolved-IsServing : {w w' : World} → Evolved w w' → IsServing w → IsServing w'
Evolved-IsServing e k = record {
  consistent = e.consistent;
  sound = e.lasting.sound k.sound;
  hosted = λ id h. let (c, f) = k.hosted id (sym (e.lasting.sessions id) ∙ h) in e.hosts id c f;
}
