-- ===== src/HashTable/Find.antt =====
-- What add and find of CppProject/22.05.06 - 해시 테이블 구현 do together.
use simple_poject.Common.{
  ℕ, zero, suc, ◌+◌, ◌<◌, ◌≤◌, ◌≡◌, ◌≢◌, refl, ap, ◌∙◌, ◌++◌, inl, inr, Bool-cases, true, false,
  List, [], ◌∷◌, arith, ◌==◌, ltb, if◌then◌else◌, length,
}
use native.Mathlib.Decide.{dec_lt}
use simple_poject.Common.Word.{add32}
use simple_poject.Common.Outcome.{returned, undefined}
use simple_poject.HashTable.{
  Data, same_text, char_at, sum_key, get_hash, Table, bucket, add_behind, add, find_from, find,
  max_index,
}

same_text_self : (cs : List ℕ) → same_text cs cs ≡ true
unfolding same_text
same_text_self [] = refl
same_text_self (c ∷ cs) = ground (arith, same_text_self cs)

same_text-eq : (bs cs : List ℕ) → same_text bs cs ≡ true → bs ≡ cs
unfolding same_text
same_text-eq [] [] h = refl
same_text-eq [] (c ∷ cs) h = cc
same_text-eq (b ∷ bs) [] h = cc
same_text-eq (b ∷ bs) (c ∷ cs) h = ground (arith, same_text-eq bs cs)

char_at-undefined : (key : List ℕ) (i : ℕ) → length key < i → char_at key i ≡ undefined
unfolding char_at
char_at-undefined [] zero h = absurd (omega arith)
char_at-undefined [] (suc i) h = refl
char_at-undefined (c ∷ cs) zero h = absurd (omega arith)
char_at-undefined (c ∷ cs) (suc i) h = char_at-undefined cs i (omega arith)

-- The value that is found after it was added, whatever stood in the bucket.
find_from-add_behind :
    (cur : Data) (rest : List Data) (d : Data) → find_from cur (add_behind cur rest d) d ≡ d.value
unfolding find_from add_behind
find_from-add_behind cur [] d =
    ground (arith, same_text-eq cur.value d.value, same_text_self d.value)
find_from-add_behind cur (node ∷ rest) d =
    ground (arith, same_text-eq cur.value d.value, find_from-add_behind node rest d)

char_at-returned : (key : List ℕ) (i : ℕ) → i ≤ length key → (c : ℕ) × (char_at key i ≡ returned c)
unfolding char_at
char_at-returned [] zero h = (0, refl)
char_at-returned [] (suc i) h = absurd (omega arith)
char_at-returned (c ∷ cs) zero h = (_, refl)
char_at-returned (c ∷ cs) (suc i) h = char_at-returned cs i (omega arith)

-- A loop that gets past the end of the key.
sum_key-undefined :
    (key : List ℕ) (i n sum : ℕ)
    → i ≤ length key + 1
    → length key + 1 < i + n
    → sum_key key i n sum ≡ undefined
unfolding sum_key
sum_key-undefined key i zero sum h past = absurd (omega arith)
sum_key-undefined key i (suc n) sum h past = elim (dec_lt (length key) i) [
  | yes at_end ↦ rw (char_at-undefined key i at_end) refl
  | no inside ↦
      let (c, there) = char_at-returned key i (omega arith) in
      rw there (sum_key-undefined key (i + 1) n (add32 sum c) (omega arith) (omega arith))
]

-- With a key of fewer than 999 characters, add and find read outside the key, whatever the table holds.
pub short_key-undefined :
    (t : Table) (d : Data) → length d.key < 999 → (add t d ≡ undefined) × (find t d ≡ undefined)
unfolding add find get_hash
short_key-undefined t d short =
    let e : sum_key d.key 0 max_index 0 ≡ undefined =
      sum_key-undefined d.key 0 1000 0 (omega arith) (omega arith) in
    (rw e refl, rw e refl)

-- A node holds the value.
pub data HasValue (value : List ℕ) : List Data → Type 0 where
  first : (node : Data) (rest : List Data) → node.value ≡ value → HasValue value (node ∷ rest)
  behind : (node : Data) {rest : List Data} → HasValue value rest → HasValue value (node ∷ rest)

-- What find answers and add leaves in a bucket: the value is there, or it is not.
data Bucket (cur : Data) (rest : List Data) (d : Data) : Type 0 where
  holds :
      HasValue d.value (cur ∷ rest)
      → find_from cur rest d ≡ d.value
      → add_behind cur rest d ≡ rest
      → Bucket cur rest d
  lacks :
      ¬ HasValue d.value (cur ∷ rest)
      → find_from cur rest d ≡ []
      → add_behind cur rest d ≡ rest ++ d ∷ []
      → Bucket cur rest d

lacks_both :
    {value : List ℕ} {node : Data} {rest : List Data}
    → node.value ≢ value
    → ¬ HasValue value rest
    → ¬ HasValue value (node ∷ rest)
lacks_both n m (first node rest e) = n e
lacks_both n m (behind node h) = m h

other_text : (bs cs : List ℕ) → same_text bs cs ≡ false → bs ≢ cs
other_text bs cs h e = let same : same_text bs cs ≡ true = rw e (same_text_self cs) in ground arith

look_through : (cur : Data) (rest : List Data) (d : Data) → Bucket cur rest d
unfolding find_from add_behind
look_through cur [] d = elim (Bool-cases (same_text cur.value d.value)) [
  | inl same ↦
      let e = same_text-eq cur.value d.value same in
      holds (first cur [] e) (rw same e) (rw same refl)
  | inr other ↦
      lacks (lacks_both (other_text cur.value d.value other) (λ h. nowhere h)) (rw other refl)
        (rw other refl)
]
  where
    nowhere : {value : List ℕ} → ¬ HasValue value []
    nowhere h = elim h [ ]
look_through cur (node ∷ rest) d = elim (Bool-cases (same_text cur.value d.value)) [
  | inl same ↦
      let e = same_text-eq cur.value d.value same in
      holds (first cur (node ∷ rest) e) (rw same e) (rw same refl)
  | inr other ↦ elim (look_through node rest d) [
    | holds h f a ↦ holds (behind cur h) (rw other f) (rw (other, a) refl)
    | lacks n f a ↦
        lacks (lacks_both (other_text cur.value d.value other) n) (rw other f) (rw (other, a) refl)
  ]
]

-- What the table holds after add: the bucket as it was, if a node has the value, or with one more node at its
-- end; and what find has answered before.
pub data Added (t : Table) (d : Data) (hash : ℕ) (t' : Table) : Type 0 where
  was_there :
      HasValue d.value ((t hash).0 ∷ (t hash).1)
      → find t d ≡ returned d.value
      → t' hash ≡ t hash
      → Added t d hash t'
  is_new :
      ¬ HasValue d.value ((t hash).0 ∷ (t hash).1)
      → find t d ≡ returned []
      → t' hash ≡ ((t hash).0, (t hash).1 ++ d ∷ [])
      → Added t d hash t'

-- Where the hash of a key is defined and lies in the array, find answers the value if a node of the
-- bucket has it, and the empty text otherwise. add returns; it leaves the bucket as it was in the first
-- case, and puts one node at its end in the second. After it find answers the value, and the other
-- buckets are as they were.
pub find-add :
    (t : Table) (d : Data) {hash : ℕ}
    → get_hash d ≡ returned hash
    → hash < 1000
    → (t' : Table) × (add t d ≡ returned t')
      × Added t d hash t'
      × (find t' d ≡ returned d.value)
      × ((i : ℕ) → i ≢ hash → t' i ≡ t i)
unfolding add find bucket
find-add t d {hash} hashed inside =
    let test : ltb hash 1000 ≡ true = ground arith in
    let own : (hash == hash) ≡ true = ground arith in
    let (cur, rest) = t hash in
    let t' : Table = λ i. if i == hash then (cur, add_behind cur rest d) else t i in
    let at : t' hash ≡ (cur, add_behind cur rest d) = rw own refl in
    (
      t',
      rw hashed (rw test refl),
      elim (look_through cur rest d) [
        | holds h f a ↦
            was_there h (rw hashed (rw test (ap returned f)))
              (at ∙ ap (λ (l : List Data). (cur, l)) a)
        | lacks n f a ↦
            is_new n (rw hashed (rw test (ap returned f))) (at ∙ ap (λ (l : List Data). (cur, l)) a)
      ],
      rw hashed (rw test (rw own (ap returned (find_from-add_behind cur rest d)))),
      λ i away. let other : (i == hash) ≡ false = ground arith in rw other refl,
    )
