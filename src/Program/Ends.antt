-- ===== src/Program/Ends.antt =====
-- main ends: none of its loops runs out of the fuel that `compile` gives it.
use cc.Base.{
  ℕ, zero, suc, ◌+◌, ◌<◌, ◌≡◌, ◌≢◌, ◌⊎◌, inl, inr, refl, List, [], ◌∷◌, ◌++◌, Option, none, some,
  arith, ◌==◌, ltb, length, Bool-cases,
}
use cc.Base.Int.{ℤ, pos, negsuc}
use cc.Base.Outcome.{
  Result, ok, err, Failure, fault, out_of_fuel, ◌>>=◌, Fueled, Fueled-bind, Fueled-if,
}
use cc.Token.{Token, eof, define, define_end, same_kind, lexeme}
use cc.Node.{Node}
use cc.Asm.{Line}
use cc.Codegen.Gen.{gen, is_null}
use cc.Codegen.Ends.{gen-Fueled}
use cc.Tokenizer.Scan.{tokenize}
use cc.Tokenizer.Termination.{Lexable, tokenize-ends}
use cc.Preprocessor.Table.{
  Hashmap, slot, hashmap_size, hashmap_hash, hashmap_init, hashmap_put, hashmap_get,
}
use cc.Preprocessor.Loop.{copy_body, copy_value, define_macro, replace, preprocess_from, preprocess}
use cc.Parser.{Parser, initial}
use cc.Parser.Program.{program}
use cc.Parser.Leaves.Program.{program-ends}
use cc.Program.{
  gen_all, output, filename_from, buffer, Files, read_file, literal_slots, compile, main,
}

-- The result is short, or a failure that is not want of fuel.
abbrev Shorter : {A : Type 0} → ℕ → Result (A × List Token) → Type 0
Shorter n (ok (a, ts)) = length ts < n
Shorter n (err e) = e ≢ out_of_fuel

Shorter-behind :
    (n : ℕ) (t : Token) (r : Result (List Token × List Token))
    → Shorter n r
    → Shorter (suc n) (r >>= λ (body, rest). ok (t ∷ body, rest))
Shorter-behind n t (ok (body, rest)) h = omega arith
Shorter-behind n t (err e) h = h

copy_body-Shorter : (ts : List Token) → Shorter (suc (length ts)) (copy_body ts)
unfolding copy_body
copy_body-Shorter [] = λ e. cc
copy_body-Shorter (t ∷ ts) = elim (Bool-cases (same_kind t.kind define_end)) [
  | inl e ↦ rw (e, copy_body) (omega arith)
  | inr e ↦
      rw (e, copy_body) (Shorter-behind (suc (length ts)) t (copy_body ts) (copy_body-Shorter ts))
]

slot-Fueled : (h : ℤ) → Fueled (slot h)
slot-Fueled (pos n) = Fueled-if (ltb n hashmap_size) (ok n) (err fault) tt (λ e. cc)
slot-Fueled (negsuc n) = λ e. cc

hashmap_put-Fueled :
    (key : List ℕ) (body : List Token) (m : Hashmap) → Fueled (hashmap_put key body m)
unfolding hashmap_put
hashmap_put-Fueled key body m =
    Fueled-bind (slot (hashmap_hash key)) _ (slot-Fueled (hashmap_hash key)) λ i. tt

copy_value-Fueled : (ts : List Token) → Fueled (copy_value ts)
unfolding copy_value
copy_value-Fueled [] = λ e. cc
copy_value-Fueled (t ∷ ts) = elim (Bool-cases (same_kind t.kind define_end)) [
  | inl e ↦ rw (e, copy_value) tt
  | inr e ↦ rw (e, copy_value) (Fueled-bind (copy_value ts) _ (copy_value-Fueled ts) λ out. tt)
]

value-Fueled :
    (t : Token) (o : Option (List Token))
    → Fueled (elim o [ none ↦ ok (t ∷ []) | some v ↦ copy_value v ])
value-Fueled t none = tt
value-Fueled t (some v) = copy_value-Fueled v

replace-Fueled : (t : Token) (m : Hashmap) → Fueled (replace t m)
unfolding replace hashmap_get
replace-Fueled t m =
    Fueled-bind (hashmap_get (lexeme t) m) _
      (Fueled-bind (slot (hashmap_hash (lexeme t))) _ (slot-Fueled (hashmap_hash (lexeme t)))
        λ i. tt)
      λ o. value-Fueled t o

Shorter-put :
    (n : ℕ) (r : Result (List Token × List Token)) (key : List ℕ) (m : Hashmap)
    → Shorter (suc n) r
    → Shorter (suc (suc n)) (r >>= λ (body, rest). hashmap_put key body m >>= λ m'. ok (m', rest))
Shorter-put n (ok (body, rest)) key m h =
    by_put (hashmap_put key body m) (hashmap_put-Fueled key body m)
  where
    by_put : (q : Result Hashmap) → Fueled q → Shorter (suc (suc n)) (q >>= λ m'. ok (m', rest))
    by_put (ok m') k = omega arith
    by_put (err e) k = k
Shorter-put n (err e) key m h = h

define_macro-Shorter :
    (ts : List Token) (m : Hashmap) → Shorter (suc (length ts)) (define_macro ts m)
unfolding define_macro
define_macro-Shorter [] m = λ e. cc
define_macro-Shorter (left ∷ ts) m =
    Shorter-put (length ts) (copy_body ts) (lexeme left) m (copy_body-Shorter ts)

defined-Fueled :
    (n : ℕ) (r : Result (Hashmap × List Token)) (next : Hashmap → List Token → Result (List Token))
    → Shorter n r
    → ((m : Hashmap) (ts : List Token) → length ts < n → Fueled (next m ts))
    → Fueled (r >>= λ (m, ts). next m ts)
defined-Fueled n (ok (m, ts)) next h k = k m ts h
defined-Fueled n (err e) next h k = h

preprocess_from-Fueled :
    (f : ℕ) (m : Hashmap) (ts : List Token) → length ts < f → Fueled (preprocess_from f m ts)
unfolding preprocess_from
preprocess_from-Fueled zero m ts lt = absurd (omega arith)
preprocess_from-Fueled (suc f) m [] lt = λ e. cc
preprocess_from-Fueled (suc f) m (t ∷ ts) lt = elim (Bool-cases (same_kind t.kind eof)) [
  | inl e ↦ rw (e, preprocess_from) tt
  | inr e ↦
      rw (e, preprocess_from)
        (elim (Bool-cases (same_kind t.kind define)) [
          | inl d ↦
              rw (d, preprocess_from)
                (defined-Fueled (suc (length ts)) (define_macro ts m) (preprocess_from f)
                  (define_macro-Shorter ts m)
                  λ m' rest less. preprocess_from-Fueled f m' rest (omega arith))
          | inr d ↦
              rw (d, preprocess_from)
                (Fueled-bind (replace t m) _ (replace-Fueled t m) λ out.
                  Fueled-bind (preprocess_from f m ts) _
                    (preprocess_from-Fueled f m ts (omega arith)) λ more. tt)
        ])
]

gen_all-Fueled : (slots : List Node) (i : ℕ) → Fueled (gen_all slots i)
unfolding gen_all
gen_all-Fueled [] i = λ e. cc
gen_all-Fueled (e ∷ slots) i = Fueled-if (is_null e) _ _ tt (
    Fueled-bind (gen e i) _ (gen-Fueled e i)
      λ q. Fueled-bind (gen_all slots q.1) _ (gen_all-Fueled slots q.1) λ r. tt)

output-Fueled : (written code : List Node) → Fueled (output written code)
unfolding output
output-Fueled written code =
    Fueled-bind (gen_all written 0) _ (gen_all-Fueled written 0)
      λ q. Fueled-bind (gen_all code q.1) _ (gen_all-Fueled code q.1) λ r. tt

filename_from-Fueled : (path name : List ℕ) → Fueled (filename_from path name)
filename_from-Fueled [] name = Fueled-if (ltb (length name) 100) (ok name) (err fault) tt (λ e. cc)
filename_from-Fueled (c ∷ []) name =
    Fueled-if (ltb (length name) 99) (ok (name ++ c ∷ [])) (err fault) tt (λ e. cc)
filename_from-Fueled (c ∷ d ∷ path) name = elim (Bool-cases (ltb (length name) 100)) [
  | inl e ↦
      rw (e, filename_from)
        (elim (Bool-cases (d == b'/')) [
          | inl s ↦ rw (s, filename_from) (filename_from-Fueled path [])
          | inr s ↦ rw (s, filename_from) (filename_from-Fueled (d ∷ path) (name ++ c ∷ []))
        ])
  | inr e ↦ rw (e, filename_from) (λ h. cc)
]

tokenize-Fueled : (f : ℕ) (p : List ℕ) → length p < f → Lexable p → Fueled (tokenize f p)
tokenize-Fueled f p lt h = elim (tokenize-ends f p lt h) [
  | inl (ts, q, e, _, _) ↦ rw e tt
  | inr (x, e, k) ↦ rw e k
]

program-Fueled : (s : Parser) → Fueled (program s)
program-Fueled s = elim (program-ends s) [ inl (code, s', e, _) ↦ rw e tt | inr (x, e, k) ↦ rw e k ]

pub compile-Fueled : (p : List ℕ) → Lexable p → Fueled (compile p)
unfolding compile preprocess
compile-Fueled p h =
    Fueled-bind (tokenize (length p + 1) p) _ (tokenize-Fueled (length p + 1) p (omega arith) h)
      λ ts.
        Fueled-bind (preprocess (length ts + 1) ts) _
          (preprocess_from-Fueled (length ts + 1) hashmap_init ts (omega arith))
          λ ts'. Fueled-bind (program (initial ts')) _ (program-Fueled (initial ts')) λ (code, s).
            Fueled-bind (output (literal_slots s.literals_def) code) _
              (output-Fueled (literal_slots s.literals_def) code) λ q. tt

text-Fueled :
    (files : Files) (path : List ℕ) (o : Option (List ℕ))
    → files path ≡ o
    → ((content : List ℕ) → files path ≡ some content → Lexable (buffer content))
    → Fueled {A = ℕ × List Line}
        (read_file files path >>= λ (file, text). compile text >>= λ ls. ok (0, ls))
unfolding read_file
text-Fueled files path none h k = rw (h, read_file) (λ e. cc)
text-Fueled files path (some content) h k =
    let l = k content h in
    rw (h, read_file) (named (filename_from path []) (filename_from-Fueled path []) l)
  where
    named :
        (r : Result (List ℕ))
        → Fueled r
        → Lexable (buffer content)
        → Fueled {A = ℕ × List Line} (
            (r >>= λ name. ok (name, buffer content)) >>= λ (file, text).
            compile text >>= λ ls. ok (0, ls))
    named (ok name) f l =
        Fueled-bind (compile (buffer content)) _ (compile-Fueled (buffer content) l) λ ls. tt
    named (err e) f l = f

main-Fueled :
    (files : Files) (argv : List (List ℕ))
    → ((path content : List ℕ) → files path ≡ some content → Lexable (buffer content))
    → Fueled (main files argv)
unfolding main
main-Fueled files [] k = tt
main-Fueled files (name ∷ []) k = tt
main-Fueled files (name ∷ path ∷ []) k = text-Fueled files path (files path) refl (k path)
main-Fueled files (name ∷ path ∷ more ∷ argv) k = tt

-- Where no file's text is stuck anywhere, main ends, on any arguments: it returns, with a status and
-- the lines that it printed, or fails, but not for want of fuel.
pub main-ends :
    (files : Files) (argv : List (List ℕ))
    → ((path content : List ℕ) → files path ≡ some content → Lexable (buffer content))
    → ((status : ℕ) × (ls : List Line) × (main files argv ≡ ok (status, ls)))
      ⊎ ((e : Failure) × (main files argv ≡ err e) × (e ≢ out_of_fuel))
main-ends files argv k = by_result (main files argv) refl (main-Fueled files argv k)
  where
    by_result :
        (r : Result (ℕ × List Line))
        → main files argv ≡ r
        → Fueled r
        → ((status : ℕ) × (ls : List Line) × (main files argv ≡ ok (status, ls)))
          ⊎ ((e : Failure) × (main files argv ≡ err e) × (e ≢ out_of_fuel))
    by_result (ok (status, ls)) e h = inl (status, ls, e)
    by_result (err x) e h = inr (x, e, h)
