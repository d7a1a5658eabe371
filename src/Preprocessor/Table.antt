-- ===== src/Preprocessor/Table.antt =====
-- preprocessor.c: the chained hash table, and the tokens that a macro stands for.
use cc.Base.{ℕ, ◌-◌, List, [], ◌∷◌, Option, none, some, ◌==◌, ltb, same_text, if◌then◌else◌}
use cc.Base.Int.{ℤ, pos, negsuc, ◌+ℤ◌, ◌*ℤ◌, rem}
use cc.Base.Outcome.{Result, ok, err, fault, ◌>>=◌}
use cc.Token.{Token}

-- HASHMAP_SIZE.
abbrev pub hashmap_size : ℕ
hashmap_size = 1009

-- A `char` is signed: the bytes from 128 on are negative.
abbrev pub signed_char : ℕ → ℤ
signed_char c = if ltb c 128 then pos c else negsuc (255 - c)

-- One round of the loop of hashmap_hash.
unfoldable pub hash_step : ℤ → ℕ → ℤ
hash_step h c = rem (h *ℤ 31 +ℤ signed_char c) hashmap_size

unfoldable pub hash_from : ℤ → List ℕ → ℤ
hash_from h [] = h
hash_from h (c ∷ key) = hash_from (hash_step h c) key

unfoldable pub hashmap_hash : List ℕ → ℤ
hashmap_hash key = rem (hash_from (pos 0) key) hashmap_size

abbrev pub Entry : Type 0
Entry = List ℕ × List Token

-- The array of chains, of which the indices below `hashmap_size` are used. It is a global, so its
-- chains are empty at first.
abbrev pub Hashmap : Type 0
Hashmap = ℕ → List Entry

abbrev pub hashmap_init : Hashmap
hashmap_init i = []

-- An index that the array has.
abbrev pub slot : ℤ → Result ℕ
slot (pos n) = if ltb n hashmap_size then ok n else err fault
slot (negsuc n) = err fault

abbrev pub push_chain : Hashmap → ℕ → Entry → Hashmap
push_chain m i e j = if i == j then e ∷ m j else m j

unfoldable pub hashmap_put : List ℕ → List Token → Hashmap → Result Hashmap
hashmap_put key value m = do i ← slot (hashmap_hash key); ok (push_chain m i (key, value))

-- The loop of hashmap_get over a chain.
unfoldable pub find_entry : List ℕ → List Entry → Option (List Token)
find_entry key [] = none
find_entry key ((k, v) ∷ chain) = if same_text k key then some v else find_entry key chain

unfoldable pub hashmap_get : List ℕ → Hashmap → Result (Option (List Token))
unfolding find_entry
hashmap_get key m = do i ← slot (hashmap_hash key); ok (find_entry key (m i))
