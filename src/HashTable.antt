-- ===== src/HashTable.antt =====
-- The hash table of CppProject/22.05.06 - 해시 테이블 구현. A string is the list of its characters, a
-- char its 8-bit pattern; a bucket is the list of its nodes, the first of which is made by NODE().
pub mod Find
pub mod Tests
use simple_poject.Common.{
  ℕ, zero, suc, ◌+◌, ◌-◌, ◌^◌, ◌%◌, ◌<◌, Bool, true, false, ◌&&◌, List, [], ◌∷◌, ◌==◌, ltb,
  if◌then◌else◌,
}
use simple_poject.Common.Word.{add32, sub32, is_negative}
use simple_poject.Common.Outcome.{Outcome, returned, undefined, ◌>>=◌}

abbrev pub max_index : ℕ
max_index = 1000

pub record Data : Type 0 where
  pub key : List ℕ
  pub value : List ℕ

-- == of std::string
unfoldable pub same_text : List ℕ → List ℕ → Bool
same_text [] [] = true
same_text [] (c ∷ cs) = false
same_text (b ∷ bs) [] = false
same_text (b ∷ bs) (c ∷ cs) = b == c && same_text bs cs

-- (int) of a char
abbrev pub extend8 : ℕ → ℕ
extend8 c = if ltb c 128 then c else c + 2 ^ 32 - 256

-- key[i]: the 0 behind the text may be read, what is further may not.
unfoldable pub char_at : List ℕ → ℕ → Outcome ℕ
char_at [] zero = returned 0
char_at [] (suc i) = undefined
char_at (c ∷ cs) zero = returned (extend8 c)
char_at (c ∷ cs) (suc i) = char_at cs i

-- The loop of get_hash, with `n` of its rounds to go.
unfoldable pub sum_key : List ℕ → ℕ → ℕ → ℕ → Outcome ℕ
sum_key key i zero sum = returned sum
sum_key key i (suc n) sum = char_at key i >>= λ c. sum_key key (i + 1) n (add32 sum c)

-- sum % MAX_INDEX, where % of C++ rounds towards 0.
abbrev pub remainder : ℕ → ℕ
remainder sum = if is_negative sum then sub32 0 (sub32 0 sum % max_index) else sum % max_index

unfoldable pub get_hash : Data → Outcome ℕ
unfolding sum_key
get_hash data' = sum_key data'.key 0 max_index 0 >>= λ sum. returned (remainder sum)

-- The table by its index: a bucket is its first node and those behind it.
abbrev pub Table : Type 0
Table = ℕ → Data × List Data

-- NODE(): DATA() leaves both strings empty.
abbrev pub init : Table
init i = (record { key = []; value = [] }, [])

-- hash_table[hash], which lies in the array or not.
unfoldable pub bucket : Table → ℕ → Outcome (Data × List Data)
bucket t hash = if ltb hash max_index then returned (t hash) else undefined

-- The loop of add: what stands behind `cur` afterwards.
unfoldable pub add_behind : Data → List Data → Data → List Data
add_behind cur [] data' = if same_text cur.value data'.value then [] else data' ∷ []
add_behind cur (node ∷ rest) data' =
    let behind = add_behind node rest data' in
    if same_text cur.value data'.value then node ∷ rest else node ∷ behind

unfoldable pub add : Table → Data → Outcome Table
unfolding get_hash bucket add_behind
add t data' = get_hash data' >>= λ hash. bucket t hash >>= λ b.
    returned (λ i. if i == hash then (b.0, add_behind b.0 b.1 data') else t i)

-- The loop of find.
unfoldable pub find_from : Data → List Data → Data → List ℕ
find_from cur [] data' = if same_text cur.value data'.value then cur.value else []
find_from cur (node ∷ rest) data' =
    let further = find_from node rest data' in
    if same_text cur.value data'.value then cur.value else further

unfoldable pub find : Table → Data → Outcome (List ℕ)
unfolding get_hash bucket find_from
find t data' = get_hash data' >>= λ hash. bucket t hash >>= λ b. returned (find_from b.0 b.1 data')
