-- ===== src/Container.antt =====
-- container.c: the tables of variables, structures, enumerators and type names, each a linked list
-- with the latest declaration first; and get_struct_node_offset of util.c.
pub mod Members
pub mod Names
use cc.Base.{
  ℕ, ◌+◌, Bool, true, false, ◌&&◌, ◌||◌, List, [], ◌∷◌, Option, none, some, ◌==◌, if◌then◌else◌,
}
use cc.Base.Int.{ℤ, pos, negsuc}
use cc.Base.Outcome.{Result, ok, err, ◌>>=◌}
use cc.Base.CInt.{add_int}
use cc.Util.{same_bytes}
use cc.Token.{Token}
use cc.Node.{CType, Name, Member}

pub record LVar : Type 0 where
  pub name : Name
  pub offset : ℤ
  pub type : CType

pub record GVar : Type 0 where
  pub name : Name
  pub type : CType

pub record EnumDef : Type 0 where
  pub name : Name
  pub index : ℕ

pub record StructAlias : Type 0 where
  pub tag : Name
  pub alias : Name

pub record TypedefName : Type 0 where
  pub name : Name
  pub type : CType

-- A node of kind ND_STRUCTDEF in the list `defined_structs`.
pub record StructDef : Type 0 where
  pub name : Name
  pub members : List Member
  pub offset : ℤ

abbrev pub token_name : Token → Name
token_name t = record { text = t.str; len = t.len }

-- `var->len == tok->len && !memcmp(tok->str, var->name, var->len)`.
abbrev pub same_name : Name → Name → Bool
same_name var tok = var.len == tok.len && same_bytes var.len tok.text var.text

-- The loop that the lookups share: the first entry with the name.
unfoldable pub find_named {ℓ} : {A : Type ℓ} → (A → Name) → List A → Name → Option A
find_named name_of [] tok = none
find_named name_of (v ∷ vs) tok =
    if same_name (name_of v) tok then some v else find_named name_of vs tok

unfoldable pub find_lvar : List LVar → Token → Option LVar
unfolding find_named
find_lvar locals tok = find_named (λ v. v.name) locals (token_name tok)

unfoldable pub find_gvar : List GVar → Token → Option GVar
unfolding find_named
find_gvar globals tok = find_named (λ v. v.name) globals (token_name tok)

unfoldable pub find_gvar_literals : List GVar → Token → Option GVar
unfolding find_named
find_gvar_literals literals tok = find_named (λ v. v.name) literals (token_name tok)

unfoldable pub find_typedef : List TypedefName → Token → Option TypedefName
unfolding find_named
find_typedef typedefs tok = find_named (λ v. v.name) typedefs (token_name tok)

-- The index of an enumerator, or -1.
unfoldable pub find_defined_enum : List EnumDef → Token → ℤ
unfolding find_named
find_defined_enum enums tok = elim (find_named (λ v. v.name) enums (token_name tok)) [
  | none ↦ negsuc 0
  | some v ↦ pos v.index
]

-- The alias that has the token for its tag or its alias.
unfoldable pub find_alias : List StructAlias → Name → Option StructAlias
find_alias [] tok = none
find_alias (al ∷ als) tok =
    if same_name al.tag tok || same_name al.alias tok then some al else find_alias als tok

-- A structure by its name, or by an alias; the alias of a structure that is not defined gives a
-- definition with no members.
unfoldable pub find_defined_structs : List StructDef → List StructAlias → Name → Option StructDef
unfolding find_named find_alias
find_defined_structs structs aliases tok = elim (find_named (λ v. v.name) structs tok) [
  | some v ↦ some v
  | none ↦ elim (find_alias aliases tok) [
    | none ↦ none
    | some al ↦ elim (find_named (λ v. v.name) structs al.tag) [
      | some v ↦ some v
      | none ↦ some (record { name = al.tag; members = []; offset = pos 0 })
    ]
  ]
]

-- The offsets of all the members with the name, added up from `offset` on.
unfoldable pub sum_offsets : ℤ → List Member → Name → Result ℤ
sum_offsets offset [] tok = ok offset
sum_offsets offset (v ∷ vs) tok =
    (if same_name v.name tok then add_int offset v.offset else ok offset) >>= λ offset'.
    sum_offsets offset' vs tok

unfoldable pub get_struct_node_offset : StructDef → Token → Result ℤ
unfolding sum_offsets
get_struct_node_offset def tok = sum_offsets (pos 0) def.members (token_name tok)
