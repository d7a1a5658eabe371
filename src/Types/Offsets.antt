-- ===== src/Types/Offsets.antt =====
-- The places that get_next_offset gives out in a frame.
use cc.Base.{◌+◌, ◌≤◌, ◌≡◌, List, ◌∷◌, arith}
use cc.Base.Int.{ℤ, pos, pos_part, neg_part, ◌+ℤ◌}
use cc.Base.Outcome.{ok}
use cc.Container.{LVar}
use cc.Types.{get_next_offset}

-- `a <= b`.
abbrev pub ◌≤ℤ◌ : ℤ → ℤ → Type 0
a ≤ℤ b = pos_part a + neg_part b ≤ pos_part b + neg_part a

infix 50 ◌≤ℤ◌
-- Where get_next_offset gives an offset, it is past the offset of the latest local variable by
-- `val` and by eight at least, and past the offset that was given before by as much.
pub get_next_offset-apart :
    (v : LVar) (locals : List LVar) (offset val r : ℤ)
    → get_next_offset (v ∷ locals) offset val ≡ ok r
    → (v.offset +ℤ val ≤ℤ r)
      × (v.offset +ℤ pos 8 ≤ℤ r)
      × (offset +ℤ val ≤ℤ r)
      × (offset +ℤ pos 8 ≤ℤ r)
unfolding get_next_offset
get_next_offset-apart v locals offset val r h = ground arith
