-- ===== src/Agex/Parser/Precedence/Levels.antt =====
-- The levels of the parser by their number, and what each does: it goes on with the next level and
-- then its loop, and the loop stops at what is not its operator.
use zeroxos_os.Base.{
  ℕ_discrete, ℕ, zero, suc, ◌+◌, ◌≤◌, ◌<◌, Bool, true, false, ◌&&◌, ◌||◌, not, List, [], ◌∷◌, ◌≡◌,
  refl, arith, length,
}
use zeroxos_os.Agex.Token.{
  Token, codes, same_text, ident, and_op, or_op, question, colon, dot, l_paren,
}
use zeroxos_os.Agex.Token.Equality.{same_type}
use zeroxos_os.Agex.Ast.{Expr}
use zeroxos_os.Agex.Parser.{Parser, ok, pure, cur, at, eat, advance, peek_next, measured}
use zeroxos_os.Agex.Parser.Exprs.{
  parse_elvis, parse_or, parse_and, parse_eq, parse_cmp, parse_is, parse_add, parse_mul,
  parse_unary, parse_postfix, binary_loop, operator, single, is_factor, is_sum, is_comparison,
  is_equality, is_loop, elvis_loop,
}

unfoldable pub parser_at : ℕ → Parser Expr → Parser Expr
parser_at zero expr = parse_elvis expr
parser_at (suc zero) expr = parse_or expr
parser_at (suc (suc zero)) expr = parse_and expr
parser_at (suc (suc (suc zero))) expr = parse_eq expr
parser_at (suc (suc (suc (suc zero)))) expr = parse_cmp expr
parser_at (suc (suc (suc (suc (suc zero))))) expr = parse_is expr
parser_at (suc (suc (suc (suc (suc (suc zero)))))) expr = parse_add expr
parser_at (suc (suc (suc (suc (suc (suc (suc zero))))))) expr = parse_mul expr
parser_at (suc (suc (suc (suc (suc (suc (suc (suc zero)))))))) expr = parse_unary expr
parser_at _ expr = parse_postfix expr

unfoldable pub loop_at : ℕ → Parser Expr → ℕ → Expr → Parser Expr
loop_at zero expr n e = elvis_loop expr n e
loop_at (suc zero) expr n e = binary_loop (single or_op (codes "||")) (parse_and expr) n e
loop_at (suc (suc zero)) expr n e = binary_loop (single and_op (codes "&&")) (parse_eq expr) n e
loop_at (suc (suc (suc zero))) expr n e = binary_loop (operator is_equality) (parse_cmp expr) n e
loop_at (suc (suc (suc (suc zero)))) expr n e =
    binary_loop (operator is_comparison) (parse_is expr) n e
loop_at (suc (suc (suc (suc (suc zero))))) expr n e = is_loop n e
loop_at (suc (suc (suc (suc (suc (suc zero)))))) expr n e =
    binary_loop (operator is_sum) (parse_mul expr) n e
loop_at (suc (suc (suc (suc (suc (suc (suc zero))))))) expr n e =
    binary_loop (operator is_factor) (parse_unary expr) n e
loop_at _ expr n e = pure e

-- Below the level 8 a level is the next one and then its loop.
pub parser_at_next :
    (j : ℕ) (expr : Parser Expr) (ts us : List Token) (e : Expr)
    → j < 8
    → parser_at (suc j) expr ts ≡ ok e us
    → parser_at j expr ts ≡ loop_at j expr (length us) e us
unfolding parser_at loop_at parse_elvis parse_or parse_and parse_eq parse_cmp parse_is parse_add
    parse_mul measured
parser_at_next zero expr ts us e l h = rw h refl
parser_at_next (suc zero) expr ts us e l h = rw h refl
parser_at_next (suc (suc zero)) expr ts us e l h = rw h refl
parser_at_next (suc (suc (suc zero))) expr ts us e l h = rw h refl
parser_at_next (suc (suc (suc (suc zero)))) expr ts us e l h = rw h refl
parser_at_next (suc (suc (suc (suc (suc zero))))) expr ts us e l h = rw h refl
parser_at_next (suc (suc (suc (suc (suc (suc zero)))))) expr ts us e l h = rw h refl
parser_at_next (suc (suc (suc (suc (suc (suc (suc zero))))))) expr ts us e l h = rw h refl
parser_at_next (suc (suc (suc (suc (suc (suc (suc (suc j)))))))) expr ts us e l h =
    absurd (omega arith)

-- A token, with the one behind it, is no operator of the level.
unfoldable pub quiet : ℕ → Token → Token → Bool
quiet zero t next = not (same_type t.ty question && same_type next.ty colon)
quiet (suc zero) t next = not (same_type t.ty or_op)
quiet (suc (suc zero)) t next = not (same_type t.ty and_op)
quiet (suc (suc (suc zero))) t next = not (is_equality t.ty)
quiet (suc (suc (suc (suc zero)))) t next = not (is_comparison t.ty)
quiet (suc (suc (suc (suc (suc zero))))) t next =
    not (same_type t.ty ident && same_text t.value (codes "is"))
quiet (suc (suc (suc (suc (suc (suc zero)))))) t next = not (is_sum t.ty)
quiet (suc (suc (suc (suc (suc (suc (suc zero))))))) t next = not (is_factor t.ty)
quiet (suc (suc (suc (suc (suc (suc (suc (suc zero)))))))) t next = true
quiet (suc (suc (suc (suc (suc (suc (suc (suc (suc zero))))))))) t next = not (
    same_type t.ty dot
    || same_type t.ty l_paren
    || same_type t.ty question && same_type next.ty dot)
quiet _ t next = true

abbrev pub next_of : Token → List Token → Token
next_of t [] = t
next_of t (u ∷ us) = u

-- What follows is no operator of the level or a tighter one.
unfoldable pub Stops : ℕ → List Token → Type 0
Stops j [] = ⊥
Stops j (t ∷ ts) = (i : ℕ) → j ≤ i → i < 10 → quiet i t (next_of t ts) ≡ true

abbrev pub all_quiet : ℕ → ℕ → Token → Token → Bool
all_quiet zero j t next = true
all_quiet (suc d) j t next = quiet j t next && all_quiet d (suc j) t next

all_quiet-quiet :
    (d j i : ℕ) (t next : Token)
    → all_quiet d j t next ≡ true
    → j ≤ i
    → i < j + d
    → quiet i t next ≡ true
all_quiet-quiet zero j i t next h l k = absurd (omega arith)
all_quiet-quiet (suc d) j i t next h l k = elim (ℕ_discrete j i) [
  | yes e ↦ rw (← e) (ground (arith, h))
  | no n ↦ all_quiet-quiet d (suc j) i t next (ground (arith, h)) (omega arith) (omega arith)
]

-- By computing the levels that are left.
pub Stops-all_quiet :
    (d j : ℕ) (t : Token) (ts : List Token)
    → j + d ≡ 10
    → all_quiet d j t (next_of t ts) ≡ true
    → Stops j (t ∷ ts)
unfolding Stops
Stops-all_quiet d j t ts e h i l k = all_quiet-quiet d j i t (next_of t ts) h l (omega arith)

pub Stops-suc : (j : ℕ) (ts : List Token) → Stops j ts → Stops (suc j) ts
unfolding Stops
Stops-suc j [] h = absurd h
Stops-suc j (t ∷ ts) h = λ i l k. h i (omega arith) k

pub peek_next-next_of :
    (t : Token) (ts : List Token) → peek_next (t ∷ ts) ≡ ok (next_of t ts) (t ∷ ts)
unfolding peek_next
peek_next-next_of t [] = refl
peek_next-next_of t (u ∷ us) = refl

pub not-true : (b : Bool) → not b ≡ true → b ≡ false
not-true true h = absurd cc
not-true false h = refl

-- A loop stops there.
pub loop_at_stops :
    (j m : ℕ) (expr : Parser Expr) (e : Expr) (t : Token) (ts : List Token)
    → j < 8
    → quiet j t (next_of t ts) ≡ true
    → loop_at j expr (suc m) e (t ∷ ts) ≡ ok e (t ∷ ts)
unfolding loop_at quiet binary_loop operator single elvis_loop is_loop cur at eat advance
loop_at_stops zero m expr e t ts l q =
    let n : (same_type t.ty question && same_type (next_of t ts).ty colon) ≡ false = not-true _ q in
    rw (peek_next-next_of t ts, n) refl
loop_at_stops (suc zero) m expr e t ts l q =
    (let n : (same_type t.ty or_op) ≡ false = not-true _ q in rw n refl)
loop_at_stops (suc (suc zero)) m expr e t ts l q =
    (let n : (same_type t.ty and_op) ≡ false = not-true _ q in rw n refl)
loop_at_stops (suc (suc (suc zero))) m expr e t ts l q =
    (let n : (is_equality t.ty) ≡ false = not-true _ q in rw n refl)
loop_at_stops (suc (suc (suc (suc zero)))) m expr e t ts l q =
    (let n : (is_comparison t.ty) ≡ false = not-true _ q in rw n refl)
loop_at_stops (suc (suc (suc (suc (suc zero))))) m expr e t ts l q =
    (let n : (same_type t.ty ident && same_text t.value (codes "is")) ≡ false = not-true _ q in
      rw n refl)
loop_at_stops (suc (suc (suc (suc (suc (suc zero)))))) m expr e t ts l q =
    (let n : (is_sum t.ty) ≡ false = not-true _ q in rw n refl)
loop_at_stops (suc (suc (suc (suc (suc (suc (suc zero))))))) m expr e t ts l q =
    (let n : (is_factor t.ty) ≡ false = not-true _ q in rw n refl)
loop_at_stops (suc (suc (suc (suc (suc (suc (suc (suc j)))))))) m expr e t ts l q =
    absurd (omega arith)
