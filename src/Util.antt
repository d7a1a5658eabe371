-- ===== src/Util.antt =====
-- util.c: the tests on texts and the bounded copy. (`error` and `error_at` end the run, which
-- `Outcome.exits` records at each call; Report has what `error_at` prints.)
use cc.Base.{
  ℕ, zero, suc, Bool, true, false, ◌&&◌, List, [], ◌∷◌, Option, none, some, ◌==◌, ltb,
  if◌then◌else◌, take, length,
}

-- `startswith(p, q)`: `memcmp` over the bytes of `q`, which stops at the NUL that ends `p`.
abbrev pub starts_with : List ℕ → List ℕ → Bool
starts_with p [] = true
starts_with [] (c ∷ q) = false
starts_with (d ∷ p) (c ∷ q) = d == c && starts_with p q

-- `memcmp(a, b, n) == 0`.
abbrev pub same_bytes : ℕ → List ℕ → List ℕ → Bool
same_bytes zero a b = true
same_bytes (suc n) [] [] = true
same_bytes (suc n) [] (y ∷ b) = false
same_bytes (suc n) (x ∷ a) [] = false
same_bytes (suc n) (x ∷ a) (y ∷ b) = x == y && same_bytes n a b

-- `mysubstr(t, s, pos, len)` at `pos` 0: `none` is the return value -1, else the text left in `t`.
unfoldable pub mysubstr : List ℕ → ℕ → Option (List ℕ)
mysubstr s len = if ltb (length s) len then none else some (take len s)

-- `*p`.
abbrev pub first_byte : List ℕ → ℕ
first_byte [] = 0
first_byte (c ∷ p) = c
