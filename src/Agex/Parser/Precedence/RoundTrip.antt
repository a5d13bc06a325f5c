-- ===== src/Agex/Parser/Precedence/RoundTrip.antt =====
-- What is printed as an expression is read as that expression: one level after the other.
use zeroxos_os.Base.{
  subst, ℕ_discrete, ℕ, suc, ◌-◌, ◌≤◌, ◌<◌, true, List, [], ◌∷◌, leb, ◌≡◌, refl, sym, ◌∙◌, ap,
  arith, length,
}
use zeroxos_os.Agex.Token.{Token, codes, ident, question, colon}
use zeroxos_os.Agex.Ast.{Text, Expr, binary, elvis, cast}
use zeroxos_os.Agex.Parser.{Parser, Outcome, ok, measured}
use zeroxos_os.Agex.Parser.Exprs.{expr_on, parse_expr, parse_elvis}
use zeroxos_os.Agex.Parser.Precedence.{
  Infix, infix_type, infix_text, infix_level, Tree, int_tree, float_tree, string_tree, bool_tree,
  null_tree, this_tree, name_tree, infix_tree, prefix_tree, elvis_tree, cast_tree, to_expr,
  tree_level, tok, print, print_at,
}
use zeroxos_os.Agex.Parser.Precedence.Places.{ReadsAt, Reaches, Reaches-next, ReadsAt-loop}
use zeroxos_os.Agex.Parser.Precedence.Primaries.{ReadsAt-single, ReadsAt-prefix, infix_level_bound}
use zeroxos_os.Agex.Parser.Precedence.Chain.{ReadsAt-own, length-print_at}
use zeroxos_os.Agex.Parser.Precedence.Levels.{parser_at, loop_at, Stops}
use zeroxos_os.Agex.Parser.Precedence.Steps.{
  infix_step, elvis_step, cast_step, infix-Stops, question-Stops, is_word-Stops,
}

-- A tree is read in a place of any level; up to 7 the parser comes to that level's loop.
Reads : Tree → Type 0
Reads t = ((k : ℕ) → k ≤ 9 → ReadsAt k t) × ((k : ℕ) → k < 8 → Reaches k t)

ReadsAt-Reads :
    (t : Tree)
    → tree_level t ≤ 9
    → ReadsAt (tree_level t) t
    → (tree_level t < 8 → Reaches (tree_level t) t)
    → Reads t
unfolding Reads
ReadsAt-Reads t b own reach =
    let all : ((k : ℕ) → k ≤ 9 → ReadsAt k t) = λ k l. ReadsAt-own t k b own l in
    (
      all,
      λ k l. elim (ℕ_discrete k (tree_level t)) [
        | yes e ↦ rw e (reach (omega arith))
        | no n ↦ Reaches-next k t l n (all (suc k) (omega arith))
      ],
    )

Reaches-Reads : (t : Tree) → tree_level t < 8 → Reaches (tree_level t) t → Reads t
Reaches-Reads t l h = ReadsAt-Reads t (omega arith) (ReadsAt-loop (tree_level t) t l h) (λ p. h)

-- One more round of a loop.
loop_round :
    (k : ℕ) (expr : Parser Expr) (all : Outcome Expr) (l e : Expr) (ts us : List Token)
    → length us < length ts
    → ((m : ℕ) → loop_at k expr (suc m) l ts ≡ loop_at k expr m e us)
    → (m : ℕ) × length ts ≤ m × all ≡ loop_at k expr m l ts
    → (m : ℕ) × length us ≤ m × all ≡ loop_at k expr m e us
loop_round k expr all l e ts us b step (m, c, h) =
    let q : m ≡ suc (m - 1) = omega (arith, b, c) in
    (m - 1, omega (arith, b, c), h ∙ (ap (λ i. loop_at k expr i l ts) q ∙ step (m - 1)))

leb_self : (k : ℕ) → leb k k ≡ true
leb_self k = ground arith

print_at_infix :
    (o : Infix) (l r : Tree) (rest : List Token)
    → print_at (infix_level o) (infix_tree o l r) rest
      ≡ print_at
          (infix_level o)
          l
          (tok (infix_type o) (infix_text o) ∷ print_at (suc (infix_level o)) r rest)
unfolding print tree_level
print_at_infix o l r rest = rw (leb_self (infix_level o)) refl

Reaches-infix :
    (o : Infix) (l r : Tree) → Reads l → Reads r → Reaches (infix_level o) (infix_tree o l r)
unfolding Reads to_expr
Reaches-infix o l r (hl, gl) (hr, gr) n rest s f =
    let k = infix_level o in
    let after : List Token = print_at (suc k) r rest in
    let op : Token = tok (infix_type o) (infix_text o) in
    let g : length (print_at k l (op ∷ after)) ≤ suc n =
      subst (λ ts. length ts ≤ suc n) (print_at_infix o l r rest) f in
    let right : parser_at (suc k) (expr_on n) after ≡ ok (to_expr r) rest =
      hr (suc k) (omega (arith, infix_level_bound o)) n rest s
        (omega (arith, g, length-print_at k l (op ∷ after))) in
    rw (print_at_infix o l r rest) (
      loop_round k (expr_on n) _ (to_expr l) (binary (infix_text o) (to_expr l) (to_expr r))
        (op ∷ after) rest (omega (arith, length-print_at (suc k) r rest))
        (λ m. infix_step o m (expr_on n) (to_expr l) (to_expr r) after rest right)
        (gl k (infix_level_bound o) n (op ∷ after) (infix-Stops o after) g))

Reaches-elvis : (l r : Tree) → Reads l → Reads r → Reaches 0 (elvis_tree l r)
unfolding Reads to_expr print tree_level
Reaches-elvis l r (hl, gl) (hr, gr) n rest s f =
    let after : List Token = print_at 1 r rest in
    let ts : List Token = tok question (codes "?") ∷ tok colon (codes ":") ∷ after in
    let right : parser_at 1 (expr_on n) after ≡ ok (to_expr r) rest =
      hr 1 (omega arith) n rest s (omega (arith, f, length-print_at 0 l ts)) in
    loop_round 0 (expr_on n) _ (to_expr l) (elvis (to_expr l) (to_expr r)) ts rest
      (omega (arith, length-print_at 1 r rest))
      (λ m. elvis_step m (expr_on n) (to_expr l) (to_expr r) after rest right)
      (gl 0 (omega arith) n ts (question-Stops after) f)

Reaches-cast : (t : Tree) (v : Text) → Reads t → Reaches 5 (cast_tree t v)
unfolding Reads to_expr print tree_level
Reaches-cast t v (h, g) n rest s f =
    let ts : List Token = tok ident (codes "is") ∷ tok ident v ∷ rest in
    loop_round 5 (expr_on n) _ (to_expr t) (cast (to_expr t) v) ts rest (omega arith)
      (λ m. cast_step m (expr_on n) (to_expr t) v rest)
      (g 5 (omega arith) n ts (is_word-Stops (tok ident v ∷ rest)) f)

Reads-single : (t : Tree) → tree_level t ≡ 9 → Reads t
Reads-single t e =
    ReadsAt-Reads t (omega arith) (subst (λ k. ReadsAt k t) (sym e) (ReadsAt-single t e))
      (λ l. absurd (omega arith))

Reads-every : (t : Tree) → Reads t
unfolding tree_level Reads
Reads-every (infix_tree o l r) =
    Reaches-Reads (infix_tree o l r) (infix_level_bound o)
      (Reaches-infix o l r (Reads-every l) (Reads-every r))
Reads-every (prefix_tree o t) =
    let (h, g) = Reads-every t in
    ReadsAt-Reads (prefix_tree o t) (omega arith) (ReadsAt-prefix o t (h 8 (omega arith)))
      (λ l. absurd (omega (arith, l)))
Reads-every (elvis_tree l r) =
    Reaches-Reads (elvis_tree l r) (omega arith) (Reaches-elvis l r (Reads-every l) (Reads-every r))
Reads-every (cast_tree t v) =
    Reaches-Reads (cast_tree t v) (omega arith) (Reaches-cast t v (Reads-every t))
Reads-every (int_tree v) = Reads-single (int_tree v) refl
Reads-every (float_tree v) = Reads-single (float_tree v) refl
Reads-every (string_tree v) = Reads-single (string_tree v) refl
Reads-every (bool_tree b) = Reads-single (bool_tree b) refl
Reads-every null_tree = Reads-single null_tree refl
Reads-every this_tree = Reads-single this_tree refl
Reads-every (name_tree v h) = Reads-single (name_tree v h) refl

print_at_zero : (t : Tree) (rest : List Token) → print_at 0 t rest ≡ print t rest
print_at_zero t rest = (let e : leb 0 (tree_level t) ≡ true = ground arith in rw e refl)

expr_on-print :
    (n : ℕ) (t : Tree) (rest : List Token)
    → Stops 0 rest
    → length (print t rest) ≤ suc n
    → expr_on (suc n) (print t rest) ≡ ok (to_expr t) rest
unfolding expr_on parser_at Reads
expr_on-print n t rest s f =
    let (h, g) = Reads-every t in
    let b : length (print_at 0 t rest) ≤ suc n = rw (print_at_zero t rest) f in
    subst (λ ts. parse_elvis (expr_on n) ts ≡ ok (to_expr t) rest) (print_at_zero t rest)
      (h 0 (omega arith) n rest s b)

-- An expression of literals, names, the operators of two operands and of one, `?:` and `is`,
-- nested in any way and printed with parentheses only where an operand binds less tightly than its
-- place, is read back by `parse_expr` as exactly this expression, up to what follows, whose first
-- token is none that could continue it: precedence and associativity are those of the printer.
pub parse_expr-print :
    (t : Tree) (rest : List Token) → Stops 0 rest → parse_expr (print t rest) ≡ ok (to_expr t) rest
unfolding parse_expr measured Stops
parse_expr-print t [] s = absurd s
parse_expr-print t (u ∷ us) s =
    let q : length (print t (u ∷ us)) ≡ suc (length (print t (u ∷ us)) - 1) =
      omega (arith, length-print_at 0 t (u ∷ us), ap length (print_at_zero t (u ∷ us))) in
    ap (λ n. expr_on n (print t (u ∷ us))) q
    ∙ expr_on-print (length (print t (u ∷ us)) - 1) t (u ∷ us) s (omega arith)
