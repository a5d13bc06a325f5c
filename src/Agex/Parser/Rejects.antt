-- ===== src/Agex/Parser/Rejects.antt =====
-- A statement that the parser does not accept, though it has code for it.
use zeroxos_os.Base.{ℕ, ◌≡◌, refl, List, ◌∷◌}
use zeroxos_os.Agex.Token.{Token, return_word, semicolon}
use zeroxos_os.Agex.Token.Equality.{type_index}
use zeroxos_os.Agex.Lexer.{token}
use zeroxos_os.Agex.Ast.{Text}
use zeroxos_os.Agex.Parser.{
  advance, failed, unexpected, unexpected_in_expression, cur, at, eat, measured,
}
use zeroxos_os.Agex.Parser.Exprs.{
  parse_expr, expr_on, parse_elvis, parse_or, parse_and, parse_eq, parse_cmp, parse_is, parse_add,
  parse_mul, parse_unary, unary_loop, parse_postfix, parse_primary, primary_by,
}
use zeroxos_os.Agex.Parser.Stmts.{
  parse_stmts, stmts_with, stmts_loop, parse_stmt, stmt_on, stmt_by, parse_return,
  parse_expr_or_assign,
}

semicolon_rejected :
    (value : Text) (line col : ℕ) (ts : List Token)
    → parse_expr (token semicolon value line col ∷ ts)
      ≡ failed (unexpected line col unexpected_in_expression semicolon value)
unfolding parse_expr measured expr_on parse_elvis parse_or parse_and parse_eq parse_cmp parse_is
    parse_add parse_mul parse_unary unary_loop parse_postfix parse_primary primary_by cur type_index
semicolon_rejected value line col ts = refl

-- Statements that start with `return` and a semicolon are always an error at the semicolon.
pub return-semicolon_rejected :
    (value value' : Text) (line col line' col' : ℕ) (ts : List Token)
    → parse_stmts (token return_word value line col ∷ token semicolon value' line' col' ∷ ts)
      ≡ failed (unexpected line' col' unexpected_in_expression semicolon value')
unfolding parse_stmts stmts_with stmts_loop parse_stmt stmt_on stmt_by parse_return
    parse_expr_or_assign measured at eat advance cur type_index
return-semicolon_rejected value value' line col line' col' ts =
    rw (semicolon_rejected value' line' col' ts) refl
