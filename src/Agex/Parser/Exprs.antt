-- ===== src/Agex/Parser/Exprs.antt =====
-- The parser of expressions: one function for each level of precedence, from the loosest to the
-- tightest. `expr` is `parse_expr` for the parts of an expression.
use zeroxos_os.Base.{
  ℕ, zero, suc, Bool, true, false, ◌&&◌, ◌||◌, Option, none, some, is_some, [], ◌∷◌, if◌then◌else◌,
}
use zeroxos_os.Agex.Token.{
  TokenType, Token, codes, same_text, ident, print_word, range_word, int_literal, float_literal,
  string_literal, char_literal, plus, minus, star, slash, percent, eq, neq, lt, le, gt, ge, and_op,
  or_op, not_op, amp, question, l_paren, r_paren, comma, colon, dot,
}
use zeroxos_os.Agex.Token.Equality.{same_type}
use zeroxos_os.Agex.Lexer.{between}
use zeroxos_os.Agex.Ast.{
  Text, Expr, Exprs, int_expr, float_expr, string_expr, bool_expr, null_expr, this_expr, ident_expr,
  binary, unary, call, method, field, safe_call, elvis, new_expr, cast, no_exprs, more_exprs,
}
use zeroxos_os.Agex.Parser.{
  Parser, out_of_fuel, pure, ◌>>=◌, ◌>>◌, cur, peek_next, at, eat, maybe, reject, measured,
  unexpected_in_expression,
}

-- `while self.maybe(Comma).is_some() { args.push(self.parse_expr()?); }`
unfoldable pub more_arguments : Parser Expr → ℕ → Parser Exprs
more_arguments expr zero = λ ts. out_of_fuel
more_arguments expr (suc n) = do
  c ← maybe comma
  if is_some c
      then (do e ← expr; es ← more_arguments expr n; pure (more_exprs e es))
      else pure no_exprs

-- The arguments of a call, up to the closing parenthesis.
unfoldable pub arguments : Parser Expr → Parser Exprs
arguments expr = do
  closed ← at r_paren
  args ←
      if closed
      then pure no_exprs
      else (do e ← expr; es ← measured (more_arguments expr); pure (more_exprs e es))
  eat r_paren
  pure args

-- `value.chars().next().map_or(false, |c| c.is_uppercase())`; a name is made of ASCII characters.
unfoldable pub starts_upper : Text → Bool
starts_upper [] = false
starts_upper (c ∷ cs) = between b'A' b'Z' c

-- The branch for a name, `print` and `range`, behind the token.
unfoldable pub primary_name : Parser Expr → Bool → Text → Parser Expr
primary_name expr is_print value =
    if same_text value (codes "true") || same_text value (codes "false")
    then pure (bool_expr (same_text value (codes "true")))
    else if same_text value (codes "null")
    then pure null_expr
    else if same_text value (codes "this")
    then pure this_expr
    else do
      opened ← at l_paren
      if opened && starts_upper value
          then (do eat l_paren; args ← arguments expr; pure (new_expr value args))
          else if is_print && opened
          then (do
            eat l_paren
            args ← arguments expr
            pure (call (ident_expr (codes "println")) args))
          else pure (ident_expr value)

unfoldable pub primary_by : Parser Expr → TokenType → Token → Parser Expr
primary_by expr int_literal tok = do eat int_literal; pure (int_expr tok.value)
primary_by expr float_literal tok = do eat float_literal; pure (float_expr tok.value)
primary_by expr string_literal tok = do eat string_literal; pure (string_expr tok.value)
primary_by expr char_literal tok = do eat char_literal; pure (string_expr tok.value)
primary_by expr l_paren tok = do eat l_paren; e ← expr; eat r_paren; pure e
primary_by expr ident tok = do eat ident; primary_name expr false tok.value
primary_by expr print_word tok = do eat print_word; primary_name expr true tok.value
primary_by expr range_word tok = do eat range_word; primary_name expr false tok.value
primary_by expr _ tok = reject unexpected_in_expression tok

unfoldable pub parse_primary : Parser Expr → Parser Expr
parse_primary expr = do tok ← cur; primary_by expr tok.ty tok

-- What follows a dot: a call of a method, or a field.
unfoldable pub member : Parser Expr → (Text → Option Exprs → Expr) → Parser Expr
member expr make = do
  t ← eat ident
  opened ← at l_paren
  if opened
      then (do eat l_paren; args ← arguments expr; pure (make t.value (some args)))
      else pure (make t.value none)

abbrev pub dotted : Expr → Text → Option Exprs → Expr
dotted recv name none = field recv name
dotted recv name (some args) = method recv name args

abbrev pub safe : Expr → Text → Option Exprs → Expr
safe recv name none = safe_call recv name no_exprs
safe recv name (some args) = safe_call recv name args

unfoldable pub postfix_loop : Parser Expr → ℕ → Expr → Parser Expr
postfix_loop expr zero e = λ ts. out_of_fuel
postfix_loop expr (suc n) e = do
  is_dot ← at dot
  is_question ← at question
  next ← peek_next
  is_open ← at l_paren
  if is_dot
      then (do eat dot; e' ← member expr (dotted e); postfix_loop expr n e')
      else if is_question && same_type next.ty dot
      then (do eat question; eat dot; e' ← member expr (safe e); postfix_loop expr n e')
      else if is_open
      then (do eat l_paren; args ← arguments expr; postfix_loop expr n (call e args))
      else pure e

unfoldable pub parse_postfix : Parser Expr → Parser Expr
parse_postfix expr = do e ← parse_primary expr; measured (λ n. postfix_loop expr n e)

unfoldable pub unary_loop : Parser Expr → ℕ → Parser Expr
unary_loop expr zero = λ ts. out_of_fuel
unary_loop expr (suc n) = do
  t ← cur
  if same_type t.ty not_op || same_type t.ty minus
      then (do op ← eat t.ty; e ← unary_loop expr n; pure (unary op.value e))
      else if same_type t.ty amp
      then (do eat amp; e ← unary_loop expr n; pure (unary (codes "&") e))
      else parse_postfix expr

unfoldable pub parse_unary : Parser Expr → Parser Expr
parse_unary expr = measured (unary_loop expr)

-- `self.eat(self.cur().ty.clone())?.value`, if the type of the token is among those.
unfoldable pub operator : (TokenType → Bool) → Parser (Option Text)
operator among = do
  t ← cur
  if among t.ty then (do op ← eat t.ty; pure (some op.value)) else pure none

-- The loop that all levels have: operators of one level associate to the left.
unfoldable pub binary_loop : Parser (Option Text) → Parser Expr → ℕ → Expr → Parser Expr
binary_loop op operand zero left = λ ts. out_of_fuel
binary_loop op operand (suc n) left = do
  o ← op
  elim o [
    | none ↦ pure left
    | some text ↦ do right ← operand; binary_loop op operand n (binary text left right)
  ]

abbrev pub level : Parser (Option Text) → Parser Expr → Parser Expr
level op operand = do left ← operand; measured (λ n. binary_loop op operand n left)

abbrev pub is_factor : TokenType → Bool
is_factor ty = same_type ty star || same_type ty slash || same_type ty percent

abbrev pub is_sum : TokenType → Bool
is_sum ty = same_type ty plus || same_type ty minus

abbrev pub is_comparison : TokenType → Bool
is_comparison ty = same_type ty lt || same_type ty le || same_type ty gt || same_type ty ge

abbrev pub is_equality : TokenType → Bool
is_equality ty = same_type ty eq || same_type ty neq

unfoldable pub parse_mul : Parser Expr → Parser Expr
parse_mul expr = level (operator is_factor) (parse_unary expr)

unfoldable pub parse_add : Parser Expr → Parser Expr
parse_add expr = level (operator is_sum) (parse_mul expr)

unfoldable pub is_loop : ℕ → Expr → Parser Expr
is_loop zero left = λ ts. out_of_fuel
is_loop (suc n) left = do
  t ← cur
  if same_type t.ty ident && same_text t.value (codes "is")
      then (do eat ident; name ← eat ident; is_loop n (cast left name.value))
      else pure left

unfoldable pub parse_is : Parser Expr → Parser Expr
parse_is expr = do left ← parse_add expr; measured (λ n. is_loop n left)

unfoldable pub parse_cmp : Parser Expr → Parser Expr
parse_cmp expr = level (operator is_comparison) (parse_is expr)

unfoldable pub parse_eq : Parser Expr → Parser Expr
parse_eq expr = level (operator is_equality) (parse_cmp expr)

-- The operator of a level that has only one, with its text.
unfoldable pub single : TokenType → Text → Parser (Option Text)
single ty text = do here ← at ty; if here then (do eat ty; pure (some text)) else pure none

unfoldable pub parse_and : Parser Expr → Parser Expr
parse_and expr = level (single and_op (codes "&&")) (parse_eq expr)

unfoldable pub parse_or : Parser Expr → Parser Expr
parse_or expr = level (single or_op (codes "||")) (parse_and expr)

unfoldable pub elvis_loop : Parser Expr → ℕ → Expr → Parser Expr
elvis_loop expr zero left = λ ts. out_of_fuel
elvis_loop expr (suc n) left = do
  here ← at question
  next ← peek_next
  if here && same_type next.ty colon
      then (do eat question; eat colon; right ← parse_or expr; elvis_loop expr n (elvis left right))
      else pure left

unfoldable pub parse_elvis : Parser Expr → Parser Expr
parse_elvis expr = do left ← parse_or expr; measured (λ n. elvis_loop expr n left)

-- An expression inside another starts behind it.
unfoldable pub expr_on : ℕ → Parser Expr
expr_on zero = λ ts. out_of_fuel
expr_on (suc n) = parse_elvis (expr_on n)

unfoldable pub parse_expr : Parser Expr
parse_expr = measured expr_on
