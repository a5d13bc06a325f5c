-- ===== src/Agex/Parser/Tests.antt =====
-- The parser on small sources.
use zeroxos_os.Agex.Parser.Decls.{parse}
use zeroxos_os.Agex.Parser.Sync.{IsSyncAnswer}
use zeroxos_os.Agex.Parser.Sync.Decls.{parse-IsSyncAnswer}
use zeroxos_os.Base.{◌≡◌, [], ◌∷◌, refl}
use zeroxos_os.Agex.Parser.Exprs.{parse_expr}
use zeroxos_os.Agex.Parser.Precedence.{
  Tree, infix_tree, prefix_tree, name_tree, int_tree, times, add, negate, tok, print, to_expr,
}
use zeroxos_os.Agex.Parser.Precedence.Levels.{quiet, Stops-all_quiet}
use zeroxos_os.Agex.Parser.Precedence.RoundTrip.{parse_expr-print}
use zeroxos_os.Agex.Token.{Token}
use zeroxos_os.Agex.Parser.{ok}
use zeroxos_os.Agex.Token.Equality.{type_index}
use zeroxos_os.Agex.Token.{codes, same_text, semicolon, eof}

abbrev semicolon_token : Token
semicolon_token = tok semicolon (codes ";")

abbrev eof_token : Token
eof_token = tok eof []

-- `(a + 1) * -b`
abbrev product : Tree
unfolding same_text
product =
    infix_tree times (infix_tree add (name_tree (codes "a") refl) (int_tree (codes "1")))
      (prefix_tree negate (name_tree (codes "b") refl))

parse_expr-print_example :
    parse_expr (print product (semicolon_token ∷ eof_token ∷ []))
    ≡ ok (to_expr product) (semicolon_token ∷ eof_token ∷ [])
unfolding quiet type_index same_text
parse_expr-print_example =
    parse_expr-print product (semicolon_token ∷ eof_token ∷ [])
      (Stops-all_quiet 10 0 semicolon_token (eof_token ∷ []) refl refl)

parse-IsSyncAnswer_example :
    IsSyncAnswer (parse (codes "class C(x: int) { fn up() { x += 1 } } fn f() = 1"))
parse-IsSyncAnswer_example =
    parse-IsSyncAnswer (codes "class C(x: int) { fn up() { x += 1 } } fn f() = 1")
