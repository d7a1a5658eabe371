-- ===== src/Parser/Undefined.antt =====
-- A name that nothing declares ends an expression with an error.
use cc.Base.{
  ℕ, zero, suc, ◌+◌, ◌≤◌, ◌<◌, ◌≡◌, ◌≢◌, refl, false, List, [], ◌∷◌, none, arith, take, length, All,
  Bool-cases, inl, inr, ap, ◌∙◌,
}
use cc.Base.Outcome.{ok, err, exits, Failure, not_defined}
use cc.Token.{Token, new_token, indent, lexeme}
use cc.Node.{Name, Node}
use cc.Util.{mysubstr}
use cc.Base.Int.{negsuc}
use cc.Container.{
  LVar, GVar, EnumDef, find_named, find_lvar, find_gvar, find_defined_enum, token_name, same_name,
}
use cc.Container.Names.{IsName, spelled, same_name_iff}
use cc.Cursor.{consume, consume_kind, consume_indent}
use cc.Parser.{
  Parser, pure, lift, gets, fails, reads, ◌>>=◌, consumes, consumes_kind, consumes_indent, peek,
  reports, copy_into,
}
use cc.Parser.Expr.{Call, Rec, first_op, unary_step, assign_step}
use cc.Parser.Primary.{primary_step, name_step, variable_or_enum, named, call_follows}
use cc.Parser.Stmt.{step, run}
use cc.Parser.Levels.{on, call, start}

-- The names of a table lie in their texts, and none is spelled as the token.
abbrev pub Absent : {A : Type 0} → (A → Name) → List A → Token → Type 0
Absent name_of vs tok = All (λ v. IsName (name_of v) × (spelled (name_of v) ≢ lexeme tok)) vs

-- No variable and no enumerator has the name.
abbrev pub Undeclared : Parser → Token → Type 0
Undeclared s tok =
    Absent (λ v. v.name) s.locals tok
    × Absent (λ v. v.name) s.globals tok
    × Absent (λ v. v.name) s.enums tok

find_named-Absent :
    {A : Type 0} (name_of : A → Name) (vs : List A) (tok : Token)
    → IsName (token_name tok)
    → Absent name_of vs tok
    → find_named name_of vs (token_name tok) ≡ none
unfolding find_named
find_named-Absent name_of [] tok n h = refl
find_named-Absent name_of (v ∷ vs) tok n ((nv, other), h) =
    elim (Bool-cases (same_name (name_of v) (token_name tok))) [
      | inl e ↦ absurd (other ((same_name_iff (name_of v) (token_name tok) nv n).0 e))
      | inr e ↦ rw e (find_named-Absent name_of vs tok n h)
    ]

abbrev pub name_token : List ℕ → ℕ → Token
name_token str len = new_token indent str len

find_lvar-Absent :
    (vs : List LVar) (tok : Token)
    → IsName (token_name tok)
    → Absent (λ v. v.name) vs tok
    → find_lvar vs tok ≡ none
unfolding find_lvar
find_lvar-Absent vs tok n h = find_named-Absent (λ v. v.name) vs tok n h

find_gvar-Absent :
    (vs : List GVar) (tok : Token)
    → IsName (token_name tok)
    → Absent (λ v. v.name) vs tok
    → find_gvar vs tok ≡ none
unfolding find_gvar
find_gvar-Absent vs tok n h = find_named-Absent (λ v. v.name) vs tok n h

find_defined_enum-Absent :
    (vs : List EnumDef) (tok : Token)
    → IsName (token_name tok)
    → Absent (λ v. v.name) vs tok
    → find_defined_enum vs tok ≡ negsuc 0
unfolding find_defined_enum
find_defined_enum-Absent vs tok n h =
    rw (find_named-Absent (λ v. v.name) vs tok n h, find_defined_enum) refl

reports-text :
    (s : Parser) (str : List ℕ) (len : ℕ)
    → len ≤ length str
    → len < 64
    → reports {A = Node} 64 not_defined (token_name (name_token str len)) s
      ≡ err (exits (not_defined (take len str)))
unfolding reports lift ◌>>=◌ copy_into mysubstr fails
reports-text s str len le lt = ground arith

variable-undefined :
    (rec : Rec) (s : Parser) (str : List ℕ) (len : ℕ)
    → len ≤ length str
    → len < 64
    → Undeclared s (name_token str len)
    → variable_or_enum rec (name_token str len) s ≡ err (exits (not_defined (take len str)))
unfolding variable_or_enum named gets ◌>>=◌
variable-undefined rec s str len le lt (hl, hg, he) =
    let tok = name_token str len in
    let absent = find_lvar-Absent s.locals tok le hl in
    let absent' = find_gvar-Absent s.globals tok le hg in
    let absent'' = find_defined_enum-Absent s.enums tok le he in
    rw absent (rw absent' (rw absent'' (reports-text s str len le lt)))

unary-undefined :
    (f : ℕ) (s : Parser) (str : List ℕ) (len : ℕ) (next : Token) (ts : List Token)
    → len ≤ length str
    → len < 64
    → call_follows next ≡ ok false
    → Undeclared s (name_token str len)
    → run (suc (suc f)) Call.unary (on s (name_token str len ∷ next ∷ ts))
      ≡ err (exits (not_defined (take len str)))
unfolding run step unary_step first_op ◌>>=◌ consumes reads consume pure consumes_kind consume_kind
    primary_step consumes_indent consume_indent name_step peek lift
unary-undefined f s str len next ts le lt h u =
    rw h (variable-undefined (run f) (on s (next ∷ ts)) str len le lt u)

assign-err :
    (f : ℕ) (s : Parser) (e : Failure)
    → run f Call.equality s ≡ err e
    → run (suc f) Call.assign s ≡ err e
unfolding run step assign_step ◌>>=◌
assign-err f s e h = rw h refl

-- An error of a level's first operand is the error of the levels above.
call-err :
    (k f : ℕ) (s : Parser) (e : Failure)
    → k ≤ 4
    → run f (call k) s ≡ err e
    → run (suc f) (call (suc k)) s ≡ err e
unfolding ◌>>=◌
call-err (suc (suc (suc (suc zero)))) f s e le h = assign-err f s e h
call-err (suc (suc (suc (suc (suc k))))) f s e le h = absurd (omega arith)
call-err k f s e le h = ap (λ m. m s) (start k f (omega arith)) ∙ rw h refl

-- An expression that begins with a name that lies in its text, has less than 64 bytes and stands
-- before a token with a text that is no `(`, where no local variable, global variable or enumerator
-- is spelled so, ends at each level, with fuel for the calls, in the error that reports the name.
pub run-undefined :
    (k f : ℕ) (s : Parser) (str : List ℕ) (len : ℕ) (next : Token) (ts : List Token)
    → k ≤ 5
    → 2 + k ≤ f
    → len ≤ length str
    → len < 64
    → call_follows next ≡ ok false
    → Undeclared s (name_token str len)
    → run f (call k) (on s (name_token str len ∷ next ∷ ts))
      ≡ err (exits (not_defined (take len str)))
run-undefined k zero s str len next ts le lf hl lt h u = absurd (omega arith)
run-undefined zero (suc zero) s str len next ts le lf hl lt h u = absurd (omega arith)
run-undefined zero (suc (suc f)) s str len next ts le lf hl lt h u =
    unary-undefined f s str len next ts hl lt h u
run-undefined (suc k) (suc f) s str len next ts le lf hl lt h u =
    call-err k f (on s (name_token str len ∷ next ∷ ts)) (exits (not_defined (take len str)))
      (omega arith) (run-undefined k f s str len next ts (omega arith) (omega arith) hl lt h u)
