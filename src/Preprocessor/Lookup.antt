-- ===== src/Preprocessor/Lookup.antt =====
-- The hash table of macros refines a list of definitions of which the latest counts.
use cc.Base.{
  ℕ, ◌≡◌, ◌≢◌, false, List, [], ◌∷◌, Option, some, none, ◌==◌, lt→ltb, same_text, same_text_iff,
  if◌then◌else◌, arith, Bool-cases, inl, inr, ap, sym, ◌∙◌,
}
use cc.Base.Outcome.{ok_if, ok}
use cc.Token.{Token}
use cc.Preprocessor.Table.{
  hashmap_size, hashmap_hash, Entry, Hashmap, hashmap_init, slot, push_chain, hashmap_put,
  find_entry, hashmap_get,
}
use cc.Preprocessor.Hash.{IsAscii, hashmap_hash-ascii}

-- The latest definition of a macro.
abbrev pub definition : List ℕ → List Entry → Option (List Token)
definition key [] = none
definition key ((k, v) ∷ env) = if same_text k key then some v else definition key env

-- A table finds what a list of definitions gives, for every key that it has a chain for.
abbrev pub Represents : Hashmap → List Entry → Type 0
Represents m env = (key : List ℕ) → IsAscii key → hashmap_get key m ≡ ok (definition key env)

slot-ascii : (key : List ℕ) → IsAscii key → (i : ℕ) × (slot (hashmap_hash key) ≡ ok i)
slot-ascii key a =
    let (i, e, lt) = hashmap_hash-ascii key a in (i, ap slot e ∙ rw (lt→ltb i hashmap_size lt))

-- The empty table has no definition.
pub init-Represents : Represents hashmap_init []
unfolding hashmap_get
init-Represents key a = let (i, e) = slot-ascii key a in rw e

ok-injective {ℓ} : {A : Type ℓ} {a b : A} → ok a ≡ ok b → a ≡ b
ok-injective h = cc

ne_of_test : (i j : ℕ) → (i == j) ≡ false → i ≢ j
ne_of_test i j h e = ground arith

find_entry-push :
    (key k : List ℕ) (v : List Token) (m : Hashmap) (i j : ℕ)
    → slot (hashmap_hash k) ≡ ok i
    → slot (hashmap_hash key) ≡ ok j
    → find_entry key (push_chain m i (k, v) j)
      ≡ (if same_text k key then some v else find_entry key (m j))
unfolding find_entry
find_entry-push key k v m i j ei ej = elim (Bool-cases (i == j)) [
  | inl e ↦ rw e
  | inr e ↦ elim (Bool-cases (same_text k key)) [
    | inl s ↦
        let same = (same_text_iff k key).0 s in
        let here : i ≡ j = cc in absurd (ne_of_test i j e here)
    | inr s ↦ rw (e, s)
  ]
]

-- A definition for an ASCII key succeeds, and a lookup after it, of any ASCII key, gives the new
-- definition for that key and what it gave before for every other.
pub hashmap_get-hashmap_put :
    (k key : List ℕ) (v : List Token) (m : Hashmap)
    → IsAscii k
    → IsAscii key
    → (m' : Hashmap) × (hashmap_put k v m ≡ ok m')
      × (hashmap_get key m' ≡ (if same_text k key then ok (some v) else hashmap_get key m))
unfolding hashmap_put hashmap_get
hashmap_get-hashmap_put k key v m a b =
    let (i, ei) = slot-ascii k a in
    let (j, ej) = slot-ascii key b in
    (
      push_chain m i (k, v),
      rw ei,
      rw ej (
          ap ok (find_entry-push key k v m i j ei ej)
          ∙ sym (ok_if (same_text k key) (some v) (find_entry key (m j)))),
    )

-- The table after a definition, which comes first in the list.
pub put-Represents :
    (k : List ℕ) (v : List Token) (m : Hashmap) (env : List Entry)
    → IsAscii k
    → Represents m env
    → (m' : Hashmap) × (hashmap_put k v m ≡ ok m') × Represents m' ((k, v) ∷ env)
unfolding hashmap_put hashmap_get
put-Represents k v m env a r =
    let (i, ei) = slot-ascii k a in
    (
      push_chain m i (k, v),
      rw ei,
      λ key b.
          let (j, ej) = slot-ascii key b in
          let old : find_entry key (m j) ≡ definition key env = ok-injective (rw ej at (r key b)) in
          rw ej (ap ok (find_entry-push key k v m i j ei ej ∙ rw old)),
    )
