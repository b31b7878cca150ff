-- ===== src/HashTable/Tests.antt =====
-- Runs of the hash table of CppProject/22.05.06 - 해시 테이블 구현.
use simple_poject.Common.{ℕ, zero, suc, ◌≡◌, ◌≢◌, refl, List, [], ◌∷◌, arith}
use simple_poject.Common.Outcome.{returned, undefined}
use simple_poject.HashTable.{Data, char_at, get_hash, Table, init, add, find}
use simple_poject.HashTable.Find.{Added, short_key-undefined, find-add}

-- main's first entry
abbrev a_b : Data
a_b = record { key = 97 ∷ []; value = 98 ∷ [] }

short_key-undefined_example : (add init a_b ≡ undefined) × (find init a_b ≡ undefined)
short_key-undefined_example = short_key-undefined init a_b (omega arith)

abbrev times : ℕ → ℕ → List ℕ
times zero c = []
times (suc n) c = c ∷ times n c

abbrev long_key : Data
long_key = record { key = 98 ∷ times 999 97; value = 98 ∷ [] }

long_key-hash : get_hash long_key ≡ returned 1
unfolding get_hash char_at
long_key-hash = refl

find-add_example :
    (t' : Table) × (add init long_key ≡ returned t')
    × Added init long_key 1 t'
    × (find t' long_key ≡ returned (98 ∷ []))
    × ((i : ℕ) → i ≢ 1 → t' i ≡ init i)
find-add_example = find-add init long_key long_key-hash (omega arith)
