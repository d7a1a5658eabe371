-- ===== src/Tests/Reporting.antt =====
-- error_at at a place of a small text.
use cc.Base.{ℕ, ◌≡◌, refl, List, codes}
use cc.Base.Outcome.{ok}
use cc.Report.{Report, line_start, error_at}
use cc.Report.Place.{Reports, error_at-place}

abbrev two_lines : List ℕ
two_lines = codes "int a;\nint 3b;\n"

error_at-two_lines :
    error_at two_lines 11 ≡ ok (record { line_num = 2; line = codes "int 3b;"; column = 4 })
unfolding error_at line_start
error_at-two_lines = refl

error_at-place_example : (r : Report) × (error_at two_lines 11 ≡ ok r) × Reports two_lines 11 r
error_at-place_example = error_at-place two_lines 11 3 refl
