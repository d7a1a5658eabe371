-- ===== src/Program/Labels.antt =====
-- The local labels of the whole output of main.
use cc.Base.{ℕ, ◌≤◌, ◌≡◌, List, [], ◌∷◌, ◌++◌, arith, ◌⊎◌}
use mathlib.Core.Path.{subst}
use cc.Base.Outcome.{ok}
use cc.Node.{Node}
use cc.Asm.{Line, Label, intel_syntax, globl_main}
use cc.Codegen.Gen.{gen, is_null}
use cc.Codegen.Labels.{defined, jumped, Numbered, Numbered-append, Plain-Numbered}
use cc.Codegen.Pieces.{Holds-if, Fresh, Fresh-bind, behind}
use cc.Codegen.Fresh.{gen-Fresh}
use cc.Program.{gen_all, output}

gen_all-Fresh : (l : Label) (slots : List Node) (i : ℕ) → Fresh l i (gen_all slots i)
unfolding gen_all
gen_all-Fresh l [] i = tt
gen_all-Fresh l (e ∷ slots) i =
    Holds-if (λ q. Numbered l i q.1 q.0) (is_null e) _ _
      (Plain-Numbered l i i [] (omega arith) (omega arith))
      (Fresh-bind l i i (gen e i) _ (gen-Fresh l e i) λ a j h.
        Fresh-bind l i j (gen_all slots j) _ (gen_all-Fresh l slots j)
          λ b k g. Numbered-append l i j k a b h g)

output-Fresh : (l : Label) (literals_def code : List Node) → Fresh l 0 (output literals_def code)
unfolding output
output-Fresh l literals_def code =
    Fresh-bind l 0 0 (gen_all literals_def 0) _ (gen_all-Fresh l literals_def 0) λ a j h.
      Fresh-bind l 0 j (gen_all code j) _ (gen_all-Fresh l code j) λ b k g.
        behind l 0 k (intel_syntax ∷ []) (a ++ globl_main ∷ b) (omega arith) (
          Numbered-append l 0 j k a (globl_main ∷ b) h
            (behind l j k (globl_main ∷ []) b (omega arith) g))

-- Where main gives the output of a whole program, no local label is defined twice in it, and a
-- local label that is jumped to is defined.
pub output-labels :
    (literals_def code : List Node) (k : ℕ) (ls : List Line) (l : Label)
    → output literals_def code ≡ ok (ls, k)
    → (defined l ls ≤ 1) × ((jumped l ls ≡ 0) ⊎ (defined l ls ≡ 1))
output-labels literals_def code k ls l e =
    conclude (subst (λ r. Fresh l 0 r) e (output-Fresh l literals_def code))
  where
    conclude : Numbered l 0 k ls → (defined l ls ≤ 1) × ((jumped l ls ≡ 0) ⊎ (defined l ls ≡ 1))
    conclude h = ground (arith, h.once, h.closed)
