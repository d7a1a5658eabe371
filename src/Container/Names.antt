-- ===== src/Container/Names.antt =====
-- A lookup compares texts, and gives the latest declaration of a name.
use cc.Base.{
  ℕ, zero, suc, ◌≤◌, ◌≡◌, ◌≢◌, ◌↔◌, ◌⊎◌, refl, true, false, ◌&&◌, List, [], ◌∷◌, ◌++◌, none, some,
  ◌==◌, arith, length, take, All, Bool-cases, inl, inr, ==_iff, ap,
}
use cc.Util.{same_bytes}
use cc.Node.{Name}
use cc.Container.{same_name, find_named}

-- The bytes of a name lie in the text that its pointer stands in.
abbrev pub IsName : Name → Type 0
IsName n = n.len ≤ length n.text

abbrev pub spelled : Name → List ℕ
spelled n = take n.len n.text

same_iff :
    (n m : ℕ) (xs ys : List ℕ)
    → n ≤ length xs
    → m ≤ length ys
    → ((n == m && same_bytes n ys xs) ≡ true) ↔ (take n xs ≡ take m ys)
same_iff zero zero xs ys h k = ground arith
same_iff zero (suc m) xs [] h k = absurd (omega arith)
same_iff zero (suc m) xs (y ∷ ys) h k = ground arith
same_iff (suc n) m [] ys h k = absurd (omega arith)
same_iff (suc n) zero (x ∷ xs) ys h k = ground arith
same_iff (suc n) (suc m) (x ∷ xs) [] h k = absurd (omega arith)
same_iff (suc n) (suc m) (x ∷ xs) (y ∷ ys) h k =
    ground (arith, ==_iff y x, ==_iff n m, same_iff n m xs ys)

-- Two names that lie in their texts are the same by length and `memcmp` exactly when they are
-- spelled the same.
pub same_name_iff :
    (v t : Name) → IsName v → IsName t → (same_name v t ≡ true) ↔ (spelled v ≡ spelled t)
same_name_iff v t = same_iff v.len t.len v.text t.text

-- In a list with the latest declaration first, where each name lies in its text, what a lookup
-- finds is spelled as the name looked for, and no later declaration is; where it finds nothing, no
-- declaration is.
pub find_named_latest {ℓ} :
    {A : Type ℓ} (name_of : A → Name) (vs : List A) (t : Name)
    → All (λ v. IsName (name_of v)) vs
    → IsName t
    → ((v : A) × (later : List A) × (earlier : List A) × (find_named name_of vs t ≡ some v)
        × (vs ≡ later ++ v ∷ earlier)
        × (spelled (name_of v) ≡ spelled t)
        × All (λ u. spelled (name_of u) ≢ spelled t) later)
      ⊎ ((find_named name_of vs t ≡ none) × All (λ u. spelled (name_of u) ≢ spelled t) vs)
unfolding find_named
find_named_latest name_of [] t hs ht = inr (refl, tt)
find_named_latest name_of (v ∷ vs) t (hv, hs) ht = elim (Bool-cases (same_name (name_of v) t)) [
  | inl e ↦ inl (v, [], vs, rw e, refl, (same_name_iff (name_of v) t hv ht).0 e, tt)
  | inr e ↦ elim (find_named_latest name_of vs t hs ht) [
    | inl (u, later, earlier, found, split, same, others) ↦
        inl (u, v ∷ later, earlier, rw (e, found), ap (λ us. v ∷ us) split, same, (other e, others))
    | inr (absent, others) ↦ inr (rw (e, absent), (other e, others))
  ]
]
  where
    other : same_name (name_of v) t ≡ false → spelled (name_of v) ≢ spelled t
    other e h = cc ((same_name_iff (name_of v) t hv ht).1 h, e)
