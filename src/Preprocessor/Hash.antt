-- ===== src/Preprocessor/Hash.antt =====
-- hashmap_hash: the index is in the array for ASCII keys, and may lie before it for others.
use cc.Base.{ℕ, ◌≤◌, ◌<◌, ◌≡◌, refl, List, [], ◌∷◌, arith, All}
use cc.Base.Int.{ℤ, pos, negsuc, pos_part, neg_part, rem}
use cc.Preprocessor.Table.{hashmap_size, hash_step, hash_from, hashmap_hash}

abbrev pub IsAscii : List ℕ → Type 0
IsAscii = All (λ c. c < 128)

-- A byte of a multi-byte UTF-8 character.
abbrev pub IsHigh : List ℕ → Type 0
IsHigh = All (λ c. (128 ≤ c) × (c < 256))

-- From 0 up to the size, and from 0 down.
abbrev InRange : ℤ → Type 0
InRange h = (neg_part h ≡ 0) × (pos_part h < hashmap_size)

abbrev BelowRange : ℤ → Type 0
BelowRange h = (pos_part h ≡ 0) × (neg_part h < hashmap_size)

hash_step-InRange : (h : ℤ) (c : ℕ) → InRange h → c < 128 → InRange (hash_step h c)
unfolding hash_step
hash_step-InRange h c r lt = ground arith

hash_step-BelowRange :
    (h : ℤ) (c : ℕ) → BelowRange h → 128 ≤ c → c < 256 → BelowRange (hash_step h c)
unfolding hash_step
hash_step-BelowRange h c r le lt = ground arith

hash_from-InRange : (h : ℤ) (key : List ℕ) → InRange h → IsAscii key → InRange (hash_from h key)
unfolding hash_from
hash_from-InRange h [] r a = r
hash_from-InRange h (c ∷ key) r (lt, a) =
    hash_from-InRange (hash_step h c) key (hash_step-InRange h c r lt) a

hash_from-BelowRange :
    (h : ℤ) (key : List ℕ) → BelowRange h → IsHigh key → BelowRange (hash_from h key)
unfolding hash_from
hash_from-BelowRange h [] r a = r
hash_from-BelowRange h (c ∷ key) r ((le, lt), a) =
    hash_from-BelowRange (hash_step h c) key (hash_step-BelowRange h c r le lt) a

rem-InRange : (h : ℤ) → InRange h → InRange (rem h hashmap_size)
rem-InRange h r = ground arith

rem-BelowRange : (h : ℤ) → BelowRange h → BelowRange (rem h hashmap_size)
rem-BelowRange h r = ground arith

InRange-pos : (h : ℤ) → InRange h → (i : ℕ) × (h ≡ pos i) × (i < hashmap_size)
InRange-pos (pos n) (_, lt) = (n, refl, lt)
InRange-pos (negsuc n) (z, _) = absurd (omega arith)

-- For a key of ASCII bytes the hash is an index of the array.
pub hashmap_hash-ascii :
    (key : List ℕ) → IsAscii key → (i : ℕ) × (hashmap_hash key ≡ pos i) × (i < hashmap_size)
unfolding hashmap_hash
hashmap_hash-ascii key a =
    InRange-pos _ (rem-InRange _ (hash_from-InRange (pos 0) key (omega arith) a))

-- For a key of bytes that are no ASCII the hash is 0 or negative, and above the negated size.
pub hashmap_hash-high :
    (key : List ℕ)
    → IsHigh key
    → (pos_part (hashmap_hash key) ≡ 0) × (neg_part (hashmap_hash key) < hashmap_size)
unfolding hashmap_hash
hashmap_hash-high key a = rem-BelowRange _ (hash_from-BelowRange (pos 0) key (omega arith) a)
