-- ===== src/Server/Admit.antt =====
-- A new session and its character enter the maps and the sectors: ProcAccept of Server.cpp in
-- CppProject/22.10.10 - MMO TCPFighter Server up to Insert_Sector.
use simple_poject.Common.{
  ℕ, ◌≡◌, refl, sym, ap, ap₂, ◌∙◌, inl, inr, List, [], ◌∷◌, Bool, Option, true, false, ◌&&◌, ◌||◌,
  none, some, arith, ◌==◌, Bool-cases,
}
use simple_poject.Common.Outcome.{returned}
use simple_poject.RingBuffer.Bounds.{IsValid}
use simple_poject.Sector.{SectorPos}
use simple_poject.Character.{Character}
use simple_poject.Character.Movement.{Placed}
use simple_poject.World.{
  World, Session, find_character, find_session, find_sock, has, insert_id, update_sector,
  insert_sector,
}
use simple_poject.World.Lookup.{known, has-insert_id, some_injective}
use simple_poject.World.Distinct.{distinct, socks, has-ids, known-find_session}
use simple_poject.World.Sessions.{IsSound}
use simple_poject.World.Sets.{insert_sector-returned}
use simple_poject.World.Consistent.{IsConsistent}
use simple_poject.World.Serving.{IsServing}
use simple_poject.Server.{insert_session, insert_character, admit}

-- A session that nobody knows yet, and its character.
pub record Newcomer (w : World) (s : Session) (c : Character) : Type 0 where
  pub serving : IsServing w
  pub new_id : known s.session_id w.sessions ≡ false
  pub new_sock : find_sock s.sock w.sessions ≡ none
  pub same_id : c.session_id ≡ s.session_id
  pub placed : Placed c
  pub buffers : IsValid s.recv_buf × IsValid s.send_buf
  pub clear : s.flag_disconnect ≡ false

-- The world with both of them, and the character in its sector.
abbrev pub joined : World → Session → Character → World
joined w s c = record w {
  sessions = s ∷ w.sessions;
  characters = c ∷ w.characters;
  sectors =
      update_sector w.sectors c.cur_sector
        (insert_id c.session_id (w.sectors c.cur_sector.y c.cur_sector.x));
}

has-inserted :
    (f : ℕ → ℕ → List ℕ) (p : SectorPos) (id y x j : ℕ)
    → has j (update_sector f p (insert_id id (f p.y p.x)) y x)
      ≡ ((id == j && (y == p.y && x == p.x)) || has j (f y x))
has-inserted f p id y x j = elim (Bool-cases (y == p.y && x == p.x)) [
  | inl here ↦
      let y_is : y ≡ p.y = ground arith in
      let x_is : x ≡ p.x = ground arith in
      rw here (has-insert_id id j (f p.y p.x) ∙ rw (y_is, x_is) (ground arith))
  | inr away ↦ rw away (ground arith)
]

socks-new : (sock : ℕ) (ss : List Session) → find_sock sock ss ≡ none → has sock (socks ss) ≡ false
unfolding has find_sock
socks-new sock [] h = refl
socks-new sock (t ∷ ts) h = ground (arith, socks-new sock ts)

not-found :
    {w : World} {s : Session} {c d : Character} (i : ℕ)
    → Newcomer w s c
    → find_character i w.characters ≡ some d
    → (c.session_id == i) ≡ false
not-found {w} {s} {c} {d} i n e =
    let k = n.serving.consistent.served i d e in
    let l = n.new_id in
    let o = n.same_id in
    elim (Bool-cases (c.session_id == i)) [
      | inl same ↦
          let at : s.session_id ≡ i = ground arith in
          let m : known i w.sessions ≡ false = ap (λ j. known j w.sessions) (sym at) ∙ l in cc
      | inr other ↦ other
    ]

not-known :
    {w : World} {s : Session} {c : Character} {t : Session} (i : ℕ)
    → Newcomer w s c
    → find_session i w.sessions ≡ some t
    → (s.session_id == i) ≡ false
not-known {w} {s} {c} {t} i n e =
    let k = known-find_session i w.sessions e in
    elim (Bool-cases (s.session_id == i)) [
      | inl same ↦
          let at : s.session_id ≡ i = ground arith in
          let m : known i w.sessions ≡ false = ap (λ j. known j w.sessions) (sym at) ∙ n.new_id in
          cc
      | inr other ↦ other
    ]

-- Who is found in a list with a new head.
found-cons :
    (i : ℕ) (c : Character) (cs : List Character) (P : Character → Type 0) {d : Character}
    → find_character i (c ∷ cs) ≡ some d
    → ((c.session_id == i) ≡ true → P c)
    → (find_character i cs ≡ some d → P d)
    → P d
unfolding find_character
found-cons i c cs P {d} e first other = elim (Bool-cases (c.session_id == i)) [
  | inl here ↦ let is : c ≡ d = some_injective (rw here at e) in rw (← is) (first here)
  | inr away ↦ other (rw away at e)
]

joined-IsConsistent :
    {w : World} {s : Session} {c : Character} → Newcomer w s c → IsConsistent (joined w s c)
unfolding known find_character
joined-IsConsistent {w} {s} {c} n =
    let k = n.serving.consistent in
    let o = n.same_id in
    let ins = has-inserted w.sectors c.cur_sector c.session_id in
    record {
      pool = k.pool;
      placed = λ i d e.
          found-cons i c w.characters (λ d. Placed d) e (λ h. n.placed) (λ f. k.placed i d f);
      listed = λ i d e.
          found-cons i c w.characters
            (λ d. has i ((joined w s c).sectors d.cur_sector.y d.cur_sector.x) ≡ true) e
            (λ h. ins c.cur_sector.y c.cur_sector.x i ∙ ground arith)
            (λ f. let l = k.listed i d f in ins d.cur_sector.y d.cur_sector.x i ∙ ground arith);
      served = λ i d e.
          found-cons i c w.characters (λ d. known i (s ∷ w.sessions) ≡ true) e (λ h. ground arith)
            (λ f. let l = k.served i d f in ground arith);
      members = λ y x i h.
          let e = ins y x i in
          elim (Bool-cases (c.session_id == i && (y == c.cur_sector.y && x == c.cur_sector.x))) [
            | inl here ↦ (c, ground arith, ground arith, ground arith)
            | inr away ↦
                let (d, f, at_x, at_y) = k.members y x i (ground arith) in
                let other = not-found i n f in (d, ground arith, at_x, at_y)
          ];
    }

joined-IsSound : {w : World} {s : Session} {c : Character} → Newcomer w s c → IsSound (joined w s c)
unfolding distinct find_session
joined-IsSound {w} {s} {c} n =
    let k = n.serving.sound in
    let id_new = has-ids s.session_id w.sessions ∙ n.new_id in
    let sock_new = socks-new s.sock w.sessions n.new_sock in
    let one = k.ids_once in
    let two = k.socks_once in
    let clear = n.clear in
    record {
      ids_once = ground arith;
      socks_once = ground arith;
      buffers = λ i t e. elim (Bool-cases (s.session_id == i)) [
        | inl here ↦ let is : s ≡ t = ground arith in rw (← is) n.buffers
        | inr away ↦ k.buffers i t (ground arith)
      ];
      queue_once = k.queue_once;
      queued = λ i h.
          let (t, e, f) = k.queued i h in let other = not-known i n e in (t, ground arith, f);
      flagged = λ i t e f. elim (Bool-cases (s.session_id == i)) [
        | inl here ↦ let is : s ≡ t = ground arith in ground arith
        | inr away ↦ k.flagged i t (ground arith) f
      ];
    }

pub joined-IsServing :
    {w : World} {s : Session} {c : Character} → Newcomer w s c → IsServing (joined w s c)
unfolding known find_character
joined-IsServing {w} {s} {c} n = record {
  consistent = joined-IsConsistent n;
  sound = joined-IsSound n;
  hosted = λ i h. elim (Bool-cases (c.session_id == i)) [
    | inl here ↦ (c, ground arith)
    | inr away ↦
        let o = n.same_id in let (d, e) = n.serving.hosted i (ground arith) in (d, ground arith)
  ];
}

insert_session-new :
    (s : Session) (ss : List Session) → find_sock s.sock ss ≡ none → insert_session s ss ≡ s ∷ ss
unfolding insert_session
insert_session-new s ss h = ground arith

insert_character-new :
    (c : Character) (cs : List Character)
    → find_character c.session_id cs ≡ none
    → insert_character c cs ≡ c ∷ cs
unfolding insert_character
insert_character-new c cs h = ground arith

nobody : {A : Type 0} (o : Option A) → ((a : A) → o ≡ some a → ◌≡◌ {A = Bool} true false) → o ≡ none
nobody none h = refl
nobody (some a) h = let absurd = h a refl in cc

-- Both inserts put them in, and Insert_Sector returns.
pub admit-joined :
    {w : World} {s : Session} {c : Character}
    → Newcomer w s c
    → insert_sector (admit w s c) c ≡ returned (joined w s c)
unfolding admit
admit-joined {w} {s} {c} n =
    let p = n.placed in
    let new_character =
      nobody (find_character c.session_id w.characters)
        (λ d e. let f = not-found c.session_id n e in ground arith) in
    let maps : admit w s c ≡ record w { sessions = s ∷ w.sessions; characters = c ∷ w.characters } =
      ap₂
        (λ (ss : List Session) (cs : List Character).
          let v : World = record w { sessions = ss; characters = cs } in v)
        (insert_session-new s w.sessions n.new_sock)
        (insert_character-new c w.characters new_character) in
    ap (λ v. insert_sector v c) maps
    ∙ insert_sector-returned (record w { sessions = s ∷ w.sessions; characters = c ∷ w.characters })
        c (let m = p.map in let q = p.sector in ground arith)
