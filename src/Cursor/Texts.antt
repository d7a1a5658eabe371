-- ===== src/Cursor/Texts.antt =====
-- The operators that consume and expect look for, by their texts.
use cc.Base.{
  ℕ, zero, suc, ◌≤◌, ◌≡◌, refl, true, false, ◌&&◌, List, [], ◌∷◌, arith, ◌==◌, if◌then◌else◌,
  length, take, same_text,
}
use cc.Base.Outcome.{ok, err, exits, expected, ok_if}
use cc.Util.{same_bytes}
use cc.Token.{Token, reserved, same_kind, lexeme}
use cc.Cursor.{consume, expect}

same_bytes-lexeme :
    (op p : List ℕ) (n : ℕ)
    → n ≤ length p
    → (length op == n && same_bytes n p op) ≡ same_text (take n p) op
same_bytes-lexeme [] p zero h = refl
same_bytes-lexeme [] [] (suc n) h = absurd (omega arith)
same_bytes-lexeme [] (c ∷ p) (suc n) h = ground arith
same_bytes-lexeme (d ∷ op) p zero h = ground arith
same_bytes-lexeme (d ∷ op) [] (suc n) h = absurd (omega arith)
same_bytes-lexeme (d ∷ op) (c ∷ p) (suc n) h = ground (arith, same_bytes-lexeme op p n)

-- Before a token that lies within its text, consume takes the token just where it is a punctuator
-- of the text asked for and leaves the tokens alone elsewhere; expect takes it on the same
-- condition, and else ends with its message.
pub consume-expect-text :
    (op : List ℕ) (t : Token) (ts : List Token)
    → t.len ≤ length t.str
    → (let hit = same_kind t.kind reserved && same_text (lexeme t) op in
        (consume op (t ∷ ts) ≡ ok (if hit then (true, ts) else (false, t ∷ ts)))
        × (expect op (t ∷ ts) ≡ (if hit then ok ts else err (exits (expected op)))))
unfolding consume expect
consume-expect-text op t ts h =
    rw (same_bytes-lexeme op t.str t.len h) (
      ok_if (same_kind t.kind reserved && same_text (lexeme t) op) (true, ts) (false, t ∷ ts),
      refl,
    )
