-- ===== src/LockFreeStack/Top.antt =====
-- The words that unique_top of LockFreeStack.h and ObjectPool.h hold: UNUSED_BIT bits of a number above
-- the bits of an address.
use simple_poject.Common.{ℕ, ◌+◌, ◌*◌, ◌/◌, ◌%◌, ◌^◌, ◌<◌, ◌≡◌, refl, arith}

abbrev pub unused_bit : ℕ
unused_bit = 17

-- (unique_num << (64 - UNUSED_BIT)) | address. An address has no bit above these, which ABA_BitCheck
-- tests, so that the two parts share no bit and | is +.
unfoldable pub unique_word : ℕ → ℕ → ℕ
unique_word unique_num address = unique_num * 2 ^ 47 % 2 ^ 64 + address

-- (word << UNUSED_BIT) >> UNUSED_BIT
unfoldable pub address_of : ℕ → ℕ
address_of word = word * 2 ^ unused_bit % 2 ^ 64 / 2 ^ unused_bit

-- InterlockedIncrement64 of `unique`
unfoldable pub increment64 : ℕ → ℕ
increment64 unique = (unique + 1) % 2 ^ 64

-- The number in a word.
pub number_of : ℕ → ℕ
number_of word = word / 2 ^ 47

pub address-unique_word : (u a : ℕ) → a < 2 ^ 47 → address_of (unique_word u a) ≡ a
unfolding address_of unique_word
address-unique_word u a h = omega arith

pub number-unique_word : (u a : ℕ) → u < 2 ^ 17 → a < 2 ^ 47 → number_of (unique_word u a) ≡ u
unfolding number_of unique_word
number-unique_word u a hu ha = omega arith

pub address-zero : address_of 0 ≡ 0
unfolding address_of
address-zero = refl

pub number-zero : number_of 0 ≡ 0
unfolding number_of
number-zero = refl

pub increment_few : (u : ℕ) → u < 2 ^ 17 → increment64 u ≡ u + 1
unfolding increment64
increment_few u h = omega arith
