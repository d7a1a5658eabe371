-- ===== src/Container/Members.antt =====
-- get_struct_node_offset adds up the offsets of every member with the name: where the names differ,
-- that is the member's own offset.
use cc.Base.{
  ◌≡◌, ◌≢◌, refl, true, false, List, [], ◌∷◌, ◌++◌, arith, All, Bool-cases, inl, inr, ap, sym, ◌∙◌,
  append-nil,
}
use cc.Base.Int.{ℤ, pos, negsuc, ◌+ℤ◌}
use cc.Base.Outcome.{ok}
use cc.Base.CInt.{in_int, add_int}
use cc.Token.{Token, lexeme}
use cc.Node.{Name, Member}
use cc.Container.{same_name, token_name, sum_offsets, get_struct_node_offset}
use cc.Container.Names.{IsName, spelled, same_name_iff}

-- A member with another name than the one looked for.
abbrev pub IsOther : Name → Member → Type 0
IsOther t v = IsName v.name × (spelled v.name ≢ spelled t)

differ : (v t : Name) → IsName v → IsName t → spelled v ≢ spelled t → same_name v t ≡ false
differ v t hv ht ne = elim (Bool-cases (same_name v t)) [
  | inl e ↦ absurd (ne ((same_name_iff v t hv ht).0 e))
  | inr e ↦ e
]

sum_offsets-other :
    (offset : ℤ) (vs rest : List Member) (t : Name)
    → IsName t
    → All (IsOther t) vs
    → sum_offsets offset (vs ++ rest) t ≡ sum_offsets offset rest t
unfolding sum_offsets
sum_offsets-other offset [] rest t ht h = refl
sum_offsets-other offset (v ∷ vs) rest t ht ((hv, ne), h) =
    rw (differ v.name t hv ht ne) (sum_offsets-other offset vs rest t ht h)

zero_plus : (z : ℤ) → pos 0 +ℤ z ≡ z
zero_plus (pos n) = ground arith
zero_plus (negsuc n) = ground arith

add_zero : (z : ℤ) → in_int z ≡ true → add_int (pos 0) z ≡ ok z
add_zero z h = rw (zero_plus z, h)

sum_offsets-none :
    (offset : ℤ) (vs : List Member) (t : Name)
    → IsName t
    → All (IsOther t) vs
    → sum_offsets offset vs t ≡ ok offset
unfolding sum_offsets
sum_offsets-none offset vs t ht h =
    ap (λ us. sum_offsets offset us t) (sym (append-nil vs)) ∙ sum_offsets-other offset vs [] t ht h

-- In a structure in which just one member is spelled as the token, where every name lies in its text
-- and the member's offset is an `int`, the offset that the token gives is that member's.
pub get_struct_node_offset-member :
    (name : Name) (size : ℤ) (before after : List Member) (v : Member) (t : Token)
    → IsName (token_name t)
    → IsName v.name
    → spelled v.name ≡ lexeme t
    → All (IsOther (token_name t)) before
    → All (IsOther (token_name t)) after
    → in_int v.offset ≡ true
    → get_struct_node_offset
        (record { name = name; members = before ++ v ∷ after; offset = size })
        t
      ≡ ok v.offset
unfolding get_struct_node_offset sum_offsets
get_struct_node_offset-member name size before after v t ht hv e hb ha lt =
    let found = (same_name_iff v.name (token_name t) hv ht).1 e in
    sum_offsets-other (pos 0) before (v ∷ after) (token_name t) ht hb
    ∙ rw (found, add_zero v.offset lt) (sum_offsets-none v.offset after (token_name t) ht ha)
