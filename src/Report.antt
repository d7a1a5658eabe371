-- ===== src/Report.antt =====
-- util.c: what error_at says of the place that it is given. `user_input` is a text and `loc` a
-- distance into it. The file's name, and with it the width that fprintf returns, are left out, so that
-- `column` is `pos` less `indent`.
pub mod Place
use cc.Base.{ℕ, zero, suc, ◌+◌, ◌-◌, List, [], ◌∷◌, none, some, ◌==◌, if◌then◌else◌, take, drop}
use cc.Base.Outcome.{Result, ok, err, fault}
use cc.Util.{first_byte}
use cc.Tokenizer.{find_byte}

pub record Report : Type 0 where
  pub line_num : ℕ
  pub line : List ℕ
  pub column : ℕ

-- `while(user_input < line && line[-1] != '\n')`.
unfoldable pub line_start : List ℕ → ℕ → ℕ
line_start text zero = 0
line_start text (suc k) =
    let before = line_start text k in if first_byte (drop k text) == 10 then suc k else before

-- The newlines that the loop up to `line` counts.
abbrev pub newlines : List ℕ → ℕ
newlines [] = 0
newlines (c ∷ p) = let rest = newlines p in if c == 10 then suc rest else rest

-- `end` runs off a text without a newline from `loc` on.
unfoldable pub error_at : List ℕ → ℕ → Result Report
error_at text loc = elim (find_byte 10 (drop loc text)) [
  | none ↦ err fault
  | some n ↦
      let start = line_start text loc in
      ok (record {
        line_num = suc (newlines (take start text));
        line = take (loc + n - start) (drop start text);
        column = loc - start;
      })
]
