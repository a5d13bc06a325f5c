-- ===== src/Agex/Parser/Precedence.antt =====
-- A printer of expressions that writes as few parentheses as the precedences allow, and the levels
-- of the parser by their number.
pub mod Levels
pub mod Places
pub mod Primaries
pub mod Chain
pub mod Steps
pub mod RoundTrip
use zeroxos_os.Base.{
  ℕ, zero, suc, ◌+◌, Bool, true, false, ◌&&◌, ◌||◌, not, List, [], ◌∷◌, if◌then◌else◌, leb, ◌≡◌,
}
use zeroxos_os.Agex.Token.{
  TokenType, Token, codes, same_text, ident, int_literal, float_literal, string_literal, plus,
  minus, star, slash, percent, eq, neq, lt, le, gt, ge, and_op, or_op, not_op, amp, question, colon,
  dot, l_paren, r_paren,
}
use zeroxos_os.Agex.Token.Equality.{same_type}
use zeroxos_os.Agex.Lexer.{token}
use zeroxos_os.Agex.Ast.{
  Text, Expr, int_expr, float_expr, string_expr, bool_expr, null_expr, this_expr, ident_expr,
  binary, unary, elvis, cast,
}

pub data Infix : Type 0 where
  times over modulo add sub below at_most above at_least same differ both either : Infix

unfoldable pub infix_type : Infix → TokenType
infix_type times = star
infix_type over = slash
infix_type modulo = percent
infix_type add = plus
infix_type sub = minus
infix_type below = lt
infix_type at_most = le
infix_type above = gt
infix_type at_least = ge
infix_type same = eq
infix_type differ = neq
infix_type both = and_op
infix_type either = or_op

unfoldable pub infix_text : Infix → Text
infix_text times = codes "*"
infix_text over = codes "/"
infix_text modulo = codes "%"
infix_text add = codes "+"
infix_text sub = codes "-"
infix_text below = codes "<"
infix_text at_most = codes "<="
infix_text above = codes ">"
infix_text at_least = codes ">="
infix_text same = codes "=="
infix_text differ = codes "!="
infix_text both = codes "&&"
infix_text either = codes "||"

unfoldable pub infix_level : Infix → ℕ
infix_level times = 7
infix_level over = 7
infix_level modulo = 7
infix_level add = 6
infix_level sub = 6
infix_level below = 4
infix_level at_most = 4
infix_level above = 4
infix_level at_least = 4
infix_level same = 3
infix_level differ = 3
infix_level both = 2
infix_level either = 1

pub data Prefix : Type 0 where
  negate complement borrow : Prefix

unfoldable pub prefix_type : Prefix → TokenType
prefix_type negate = minus
prefix_type complement = not_op
prefix_type borrow = amp

unfoldable pub prefix_text : Prefix → Text
prefix_text negate = codes "-"
prefix_text complement = codes "!"
prefix_text borrow = codes "&"

-- A text that is a name, and no word of its own.
abbrev pub is_plain : Text → Bool
is_plain v = not (
    same_text v (codes "true")
    || same_text v (codes "false")
    || same_text v (codes "null")
    || same_text v (codes "this"))

pub data Tree : Type 0 where
  int_tree float_tree string_tree : Text → Tree
  bool_tree : Bool → Tree
  null_tree this_tree : Tree
  name_tree : (v : Text) → is_plain v ≡ true → Tree
  infix_tree : Infix → Tree → Tree → Tree
  prefix_tree : Prefix → Tree → Tree
  elvis_tree : Tree → Tree → Tree
  cast_tree : Tree → Text → Tree

unfoldable pub to_expr : Tree → Expr
to_expr (int_tree v) = int_expr v
to_expr (float_tree v) = float_expr v
to_expr (string_tree v) = string_expr v
to_expr (bool_tree b) = bool_expr b
to_expr null_tree = null_expr
to_expr this_tree = this_expr
to_expr (name_tree v h) = ident_expr v
to_expr (infix_tree o l r) = binary (infix_text o) (to_expr l) (to_expr r)
to_expr (prefix_tree o t) = unary (prefix_text o) (to_expr t)
to_expr (elvis_tree l r) = elvis (to_expr l) (to_expr r)
to_expr (cast_tree t v) = cast (to_expr t) v

-- 0 is the loosest level, that of `?:`, and 9 that of what holds together by itself.
unfoldable pub tree_level : Tree → ℕ
tree_level (infix_tree o l r) = infix_level o
tree_level (prefix_tree o t) = 8
tree_level (elvis_tree l r) = 0
tree_level (cast_tree t v) = 5
tree_level _ = 9

abbrev pub tok : TokenType → Text → Token
tok ty text = token ty text 0 0

-- Parentheses, if what is printed is looser than its place.
abbrev pub wrap : Bool → (List Token → List Token) → List Token → List Token
wrap true p rest = p rest
wrap false p rest = tok l_paren (codes "(") ∷ p (tok r_paren (codes ")") ∷ rest)

-- The tokens of a tree in front of others.
unfoldable pub print : Tree → List Token → List Token
print (int_tree v) rest = tok int_literal v ∷ rest
print (float_tree v) rest = tok float_literal v ∷ rest
print (string_tree v) rest = tok string_literal v ∷ rest
print (bool_tree true) rest = tok ident (codes "true") ∷ rest
print (bool_tree false) rest = tok ident (codes "false") ∷ rest
print null_tree rest = tok ident (codes "null") ∷ rest
print this_tree rest = tok ident (codes "this") ∷ rest
print (name_tree v h) rest = tok ident v ∷ rest
print (infix_tree o l r) rest = wrap (leb (infix_level o) (tree_level l)) (print l) (
    tok (infix_type o) (infix_text o)
    ∷ wrap (leb (suc (infix_level o)) (tree_level r)) (print r) rest)
print (prefix_tree o t) rest =
    tok (prefix_type o) (prefix_text o) ∷ wrap (leb 8 (tree_level t)) (print t) rest
print (elvis_tree l r) rest =
    wrap (leb 0 (tree_level l)) (print l) (
      tok question (codes "?") ∷ tok colon (codes ":") ∷ wrap (leb 1 (tree_level r)) (print r) rest)
print (cast_tree t v) rest =
    wrap (leb 5 (tree_level t)) (print t) (tok ident (codes "is") ∷ tok ident v ∷ rest)

-- A tree in a place of level `k`.
abbrev pub print_at : ℕ → Tree → List Token → List Token
print_at k t = wrap (leb k (tree_level t)) (print t)
