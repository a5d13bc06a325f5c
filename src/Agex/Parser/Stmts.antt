-- ===== src/Agex/Parser/Stmts.antt =====
-- The parsers of statements. `stmt` is `parse_stmt` for the statements inside a statement.
use zeroxos_os.Base.{
  ℕ, zero, suc, ◌||◌, Option, none, some, is_some, List, [], ◌∷◌, ◌++◌, if◌then◌else◌,
}
use zeroxos_os.Agex.Token.{
  TokenType, codes, ident, star, dot, comma, colon, semicolon, assign, plus_eq, minus_eq, star_eq,
  slash_eq, fat_arrow, l_paren, r_paren, l_brace, r_brace, eof, let_word, const_word, var_word,
  return_word, if_word, else_word, for_word, in_word, match_word, print_word, unsafe_word,
}
use zeroxos_os.Agex.Ast.{
  Text, TypeNode, Expr, AssignOp, assign_op, plus_eq_op, minus_eq_op, star_eq_op, slash_eq_op, Stmt,
  Stmts, MatchCases, let_stmt, const_stmt, var_stmt, assign_stmt, return_stmt, if_stmt, for_stmt,
  match_stmt, print_stmt, unsafe_stmt, expr_stmt, no_stmts, more_stmts, no_else, some_else,
  no_cases, more_cases,
}
use zeroxos_os.Agex.Parser.{Parser, out_of_fuel, pure, ◌>>=◌, ◌>>◌, cur, at, eat, maybe, measured}
use zeroxos_os.Agex.Parser.Exprs.{parse_expr, arguments}
use zeroxos_os.Agex.Parser.Types.{type_after, optional}

-- `parse_let`, `parse_const` and `parse_var`, which differ in the word and the statement.
unfoldable pub binding : TokenType → (Text → TypeNode → Option Expr → Stmt) → Parser Stmt
binding word make = do
  eat word
  name ← eat ident
  ty ← type_after colon
  init ← optional assign parse_expr
  pure (make name.value ty init)

unfoldable pub parse_return : Parser Stmt
parse_return = do
  eat return_word
  closed ← at r_brace
  ended ← at semicolon
  last ← at eof
  if closed || ended || last
      then pure (return_stmt none)
      else (do e ← parse_expr; pure (return_stmt (some e)))

unfoldable pub parse_print : Parser Stmt
parse_print = do eat print_word; eat l_paren; args ← arguments parse_expr; pure (print_stmt args)

unfoldable pub assign_op_of : TokenType → Option AssignOp
assign_op_of assign = some assign_op
assign_op_of plus_eq = some plus_eq_op
assign_op_of minus_eq = some minus_eq_op
assign_op_of star_eq = some star_eq_op
assign_op_of slash_eq = some slash_eq_op
assign_op_of _ = none

unfoldable pub parse_expr_or_assign : Parser Stmt
parse_expr_or_assign = do
  e ← parse_expr
  t ← cur
  elim (assign_op_of t.ty) [
    | none ↦ pure (expr_stmt e)
    | some op ↦ do eat t.ty; value ← parse_expr; pure (assign_stmt e op value)
  ]

-- `while self.maybe(Dot).is_some() { pattern.push('.'); pattern.push_str(..); }`
unfoldable pub dotted_names : ℕ → Text → Parser Text
dotted_names zero p = λ ts. out_of_fuel
dotted_names (suc n) p = do
  d ← maybe dot
  if is_some d then (do name ← eat ident; dotted_names n (p ++ (b'.' ∷ name.value))) else pure p

unfoldable pub more_names : ℕ → Parser (List Text)
more_names zero = λ ts. out_of_fuel
more_names (suc n) = do
  c ← maybe comma
  if is_some c
      then (do name ← eat ident; names ← more_names n; pure (name.value ∷ names))
      else pure []

unfoldable pub bindings : Parser (List Text)
bindings = do
  opened ← maybe l_paren
  if is_some opened
      then (do
        closed ← at r_paren
        names ←
            if closed
            then pure []
            else (do name ← eat ident; names ← measured more_names; pure (name.value ∷ names))
        eat r_paren
        pure names)
      else pure []

unfoldable pub case_pattern : Parser (Text × List Text)
case_pattern = do
  is_name ← at ident
  is_star ← at star
  if is_name
      then (do
        name ← eat ident
        pattern ← measured (λ n. dotted_names n name.value)
        names ← bindings
        pure (pattern, names))
      else if is_star
      then (do eat star; pure (codes "_", []))
      else pure ([], [])

unfoldable pub stmts_loop : Parser Stmt → ℕ → Parser Stmts
stmts_loop stmt zero = λ ts. out_of_fuel
stmts_loop stmt (suc n) = do
  closed ← at r_brace
  last ← at eof
  if closed || last
      then pure no_stmts
      else (do s ← stmt; ss ← stmts_loop stmt n; pure (more_stmts s ss))

unfoldable pub stmts_with : Parser Stmt → Parser Stmts
stmts_with stmt = measured (stmts_loop stmt)

-- `{ .. }`
unfoldable pub block : Parser Stmt → Parser Stmts
block stmt = do eat l_brace; ss ← stmts_with stmt; eat r_brace; pure ss

unfoldable pub case_body : Parser Stmt → Parser Stmts
case_body stmt = do
  opened ← maybe l_brace
  if is_some opened
      then (do ss ← stmts_with stmt; eat r_brace; pure ss)
      else (do s ← stmt; pure (more_stmts s no_stmts))

unfoldable pub cases_loop : Parser Stmt → ℕ → Parser MatchCases
cases_loop stmt zero = λ ts. out_of_fuel
cases_loop stmt (suc n) = do
  closed ← at r_brace
  if closed then pure no_cases else do
    (pattern, names) ← case_pattern
    eat fat_arrow
    body ← case_body stmt
    cases ← cases_loop stmt n
    pure (more_cases pattern names body cases)

unfoldable pub parse_match : Parser Stmt → Parser Stmt
parse_match stmt = do
  eat match_word
  e ← parse_expr
  eat l_brace
  cases ← measured (cases_loop stmt)
  eat r_brace
  pure (match_stmt e cases)

unfoldable pub parse_for : Parser Stmt → Parser Stmt
parse_for stmt = do
  eat for_word
  var ← eat ident
  eat in_word
  iter ← parse_expr
  body ← block stmt
  pure (for_stmt var.value iter body)

unfoldable pub parse_unsafe : Parser Stmt → Parser Stmt
parse_unsafe stmt = do eat unsafe_word; body ← block stmt; pure (unsafe_stmt body)

-- Each `else if` takes a token.
unfoldable pub if_loop : Parser Stmt → ℕ → Parser Stmt
if_loop stmt zero = λ ts. out_of_fuel
if_loop stmt (suc n) = do
  eat if_word
  cond ← parse_expr
  then_body ← block stmt
  e ← maybe else_word
  if is_some e
      then (do
        again ← at if_word
        els ← if again then (do s ← if_loop stmt n; pure (more_stmts s no_stmts)) else block stmt
        pure (if_stmt cond then_body (some_else els)))
      else pure (if_stmt cond then_body no_else)

unfoldable pub parse_if : Parser Stmt → Parser Stmt
parse_if stmt = measured (if_loop stmt)

unfoldable pub stmt_by : Parser Stmt → TokenType → Parser Stmt
stmt_by stmt let_word = binding let_word let_stmt
stmt_by stmt const_word = binding const_word const_stmt
stmt_by stmt var_word = binding var_word var_stmt
stmt_by stmt return_word = parse_return
stmt_by stmt if_word = parse_if stmt
stmt_by stmt for_word = parse_for stmt
stmt_by stmt match_word = parse_match stmt
stmt_by stmt print_word = parse_print
stmt_by stmt unsafe_word = parse_unsafe stmt
stmt_by stmt _ = parse_expr_or_assign

unfoldable pub stmt_on : ℕ → Parser Stmt
stmt_on zero = λ ts. out_of_fuel
stmt_on (suc n) = do t ← cur; stmt_by (stmt_on n) t.ty

unfoldable pub parse_stmt : Parser Stmt
parse_stmt = measured stmt_on

unfoldable pub parse_stmts : Parser Stmts
parse_stmts = stmts_with parse_stmt
