-- ===== src/Agex/Parser/Precedence/Places.antt =====
-- A tree in a place of any level, once it is read at its own: what is tighter than its place is
-- passed down level by level, and what is looser stands in parentheses.
use zeroxos_os.Base.{◌∙◌, ℕ, zero, suc, ◌≤◌, ◌<◌, List, [], ◌∷◌, leb, ◌≡◌, ◌≢◌, arith, length}
use zeroxos_os.Agex.Token.{Token}
use zeroxos_os.Agex.Ast.{Expr}
use zeroxos_os.Agex.Parser.{Parser, ok}
use zeroxos_os.Agex.Parser.Exprs.{expr_on}
use zeroxos_os.Agex.Parser.Precedence.{Tree, to_expr, tree_level, print_at}
use zeroxos_os.Agex.Parser.Precedence.Levels.{
  parser_at, loop_at, parser_at_next, Stops, Stops-suc, loop_at_stops,
}

-- The parser of a level reads the tree in a place of that level.
abbrev pub ReadsAt : ℕ → Tree → Type 0
ReadsAt k t =
    (n : ℕ) (rest : List Token)
    → Stops k rest
    → length (print_at k t rest) ≤ suc n
    → parser_at k (expr_on n) (print_at k t rest) ≡ ok (to_expr t) rest

-- It comes to the loop of that level with fuel for what is left.
abbrev pub Reaches : ℕ → Tree → Type 0
Reaches k t =
    (n : ℕ) (rest : List Token)
    → Stops (suc k) rest
    → length (print_at k t rest) ≤ suc n
    → (m : ℕ) × length rest ≤ m
      × parser_at k (expr_on n) (print_at k t rest) ≡ loop_at k (expr_on n) m (to_expr t) rest

pub leb-suc : (k l : ℕ) → k ≢ l → leb k l ≡ leb (suc k) l
leb-suc k l h = ground arith

pub Reaches-next : (k : ℕ) (t : Tree) → k < 8 → k ≢ tree_level t → ReadsAt (suc k) t → Reaches k t
Reaches-next k t l d h n rest s f =
    let e : leb k (tree_level t) ≡ leb (suc k) (tree_level t) = leb-suc k (tree_level t) d in
    (
      length rest,
      omega arith,
      rw e (parser_at_next k (expr_on n) _ rest (to_expr t) l (h n rest s (rw (← e) f))),
    )

loop-Stops :
    (k m : ℕ) (expr : Parser Expr) (e : Expr) (rest : List Token)
    → k < 8
    → Stops k rest
    → length rest ≤ m
    → loop_at k expr m e rest ≡ ok e rest
unfolding Stops
loop-Stops k m expr e [] l s b = absurd s
loop-Stops k zero expr e (t ∷ ts) l s b = absurd (omega (arith, b))
loop-Stops k (suc m) expr e (t ∷ ts) l s b =
    loop_at_stops k m expr e t ts l (s k (omega arith) (omega arith))

pub ReadsAt-loop : (k : ℕ) (t : Tree) → k < 8 → Reaches k t → ReadsAt k t
ReadsAt-loop k t l h n rest s f =
    let (m, b, e) = h n rest (Stops-suc k rest s) f in
    e ∙ loop-Stops k m (expr_on n) (to_expr t) rest l s b
