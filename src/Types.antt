-- ===== src/Types.antt =====
-- parser.c: the sizes of types, and the offsets of the variables in a frame.
pub mod Offsets
use cc.Base.{ℕ, ◌+◌, Bool, List, [], ◌∷◌, leb, ltb, if◌then◌else◌}
use cc.Base.Int.{ℤ, pos, pos_part, neg_part}
use cc.Base.Outcome.{Result, ok, err, fault, ◌>>=◌}
use cc.Base.CInt.{add_int}
use cc.Node.{TypeKind, CType, null, type, has_kind}
use cc.Container.{LVar}

-- `a < b` and `a <= b` on `int`.
abbrev pub ltb_ℤ : ℤ → ℤ → Bool
ltb_ℤ a b = ltb (pos_part a + neg_part b) (pos_part b + neg_part a)

abbrev pub leb_ℤ : ℤ → ℤ → Bool
leb_ℤ a b = leb (pos_part a + neg_part b) (pos_part b + neg_part a)

-- `_offset`, raised to that of the latest local variable.
abbrev pub raise_offset : List LVar → ℤ → ℤ
raise_offset [] offset = offset
raise_offset (v ∷ locals) offset = if ltb_ℤ offset v.offset then v.offset else offset

-- The new `_offset`, which is what get_next_offset returns too.
unfoldable pub get_next_offset : List LVar → ℤ → ℤ → Result ℤ
get_next_offset locals offset val =
    add_int (raise_offset locals offset) (if leb_ℤ val (pos 8) then pos 8 else val)

unfoldable pub get_size : CType → Result ℕ
get_size null = err fault
get_size (type TypeKind.char _ _ _ _) = ok 1
get_size (type _ _ _ _ _) = ok 8

unfoldable pub get_element_size : CType → Result ℕ
unfolding get_size
get_element_size null = ok 8
get_element_size (type TypeKind.ptr s n (type k s' n' t' a') a) = get_size (type k s' n' t' a')
get_element_size (type TypeKind.array s n (type k s' n' t' a') a) = get_size (type k s' n' t' a')
get_element_size (type k s n t a) = get_size (type k s n t a)

-- `while (tmp_type != NULL && tmp_type->ptr_to != NULL)`.
abbrev pub count_arrays : CType → ℕ
count_arrays null = 0
count_arrays (type k s n null a) = 0
count_arrays (type TypeKind.array s n (type k s' n' t' a') a) =
    1 + count_arrays (type k s' n' t' a')
count_arrays (type _ s n (type k s' n' t' a') a) = count_arrays (type k s' n' t' a')

unfoldable pub get_dimension : LVar → Result ℕ
get_dimension v = elim v.type [
  | null ↦ err fault
  | type TypeKind.ptr _ _ _ _ ↦ ok 1
  | type k s n t a ↦ ok (count_arrays (type k s n t a))
]

unfoldable pub copy_type : CType → CType
copy_type null = null
copy_type (type k s n t a) = type k s n (copy_type t) a
