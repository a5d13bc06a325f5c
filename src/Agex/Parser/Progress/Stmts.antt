-- ===== src/Agex/Parser/Progress/Stmts.antt =====
-- The parsers of statements take at least one token, and end within their fuel.
use zeroxos_os.Base.{
  ℕ, zero, suc, ◌-◌, ◌≡◌, refl, arith, false, ◌||◌, Option, some, is_some, ◌∷◌, ◌++◌,
}
use zeroxos_os.Agex.Token.{
  TokenType, ident, star, dot, comma, colon, semicolon, assign, plus_eq, minus_eq, star_eq,
  slash_eq, fat_arrow, l_paren, r_paren, l_brace, r_brace, eof, let_word, const_word, var_word,
  return_word, if_word, else_word, for_word, in_word, match_word, print_word, unsafe_word,
}
use zeroxos_os.Agex.Token.Equality.{same_type, type_index}
use zeroxos_os.Agex.Ast.{Text, TypeNode, Expr, AssignOp, Stmt, let_stmt, const_stmt, var_stmt}
use zeroxos_os.Agex.Parser.{Parser}
use zeroxos_os.Agex.Parser.Exprs.{parse_expr}
use zeroxos_os.Agex.Parser.Stmts.{
  binding, parse_return, parse_print, assign_op_of, parse_expr_or_assign, dotted_names, more_names,
  bindings, case_pattern, stmts_loop, stmts_with, block, case_body, cases_loop, parse_match,
  parse_for, parse_unsafe, if_loop, parse_if, stmt_by, stmt_on, parse_stmt,
}
use zeroxos_os.Agex.Parser.Progress.{
  Fits, Eats, Eats-Fits, Eats-mono, Fits-bind, Eats-bind, Eats-then, Late-bind, Some-bind, Fits-if,
  Fits-option, pure-Fits, Eats-zero, Fits-zero, measured-Fits, measured-Eats, cur-Fits, at-Fits,
  eat-Eats, eat-Fits, maybe-EatsSome, maybe-Fits,
}
use zeroxos_os.Agex.Parser.Progress.Exprs.{parse_expr-Eats, arguments-Eats}
use zeroxos_os.Agex.Parser.Progress.Types.{optional-Fits, type_after-Fits}

expr-Fits : (n : ℕ) → Fits n parse_expr
expr-Fits n = Eats-Fits _ _ (parse_expr-Eats n)

binding-Eats :
    (n : ℕ) (word : TokenType) (make : Text → TypeNode → Option Expr → Stmt)
    → same_type word eof ≡ false
    → Eats n (binding word make)
unfolding binding type_index
binding-Eats n word make d = Eats-bind n _ _ (eat-Eats n word d) λ t.
    Fits-bind n _ _ (eat-Fits n ident refl) λ name.
      Fits-bind n _ _ (type_after-Fits n colon refl) λ ty.
        Fits-bind n _ _ (optional-Fits n assign parse_expr refl (expr-Fits n)) λ init. pure-Fits _ _

parse_return-Eats : (n : ℕ) → Eats n parse_return
unfolding parse_return type_index
parse_return-Eats n = Eats-bind n _ _ (eat-Eats n return_word refl) λ t.
    Fits-bind n _ _ (at-Fits n r_brace) λ closed. Fits-bind n _ _ (at-Fits n semicolon) λ ended.
      Fits-bind n _ _ (at-Fits n eof) λ last.
        Fits-if n (closed || ended || last) _ _ (λ y. pure-Fits _ _)
          λ y. Fits-bind n _ _ (expr-Fits n) λ e. pure-Fits _ _

parse_print-Eats : (n : ℕ) → Eats n parse_print
unfolding parse_print type_index
parse_print-Eats n = Eats-bind n _ _ (eat-Eats n print_word refl) λ t.
    Fits-bind n _ _ (eat-Fits n l_paren refl) λ u.
      Fits-bind n _ _ (Eats-Fits _ _ (arguments-Eats parse_expr n (parse_expr-Eats n)))
        λ args. pure-Fits _ _

assign_op_of-not_eof :
    (ty : TokenType) (op : AssignOp) → assign_op_of ty ≡ some op → same_type ty eof ≡ false
unfolding assign_op_of type_index
assign_op_of-not_eof assign op e = refl
assign_op_of-not_eof plus_eq op e = refl
assign_op_of-not_eof minus_eq op e = refl
assign_op_of-not_eof star_eq op e = refl
assign_op_of-not_eof slash_eq op e = refl
assign_op_of-not_eof _ op e = absurd cc

parse_expr_or_assign-Eats : (n : ℕ) → Eats n parse_expr_or_assign
unfolding parse_expr_or_assign
parse_expr_or_assign-Eats n = Eats-bind n _ _ (parse_expr-Eats n) λ e.
    Fits-bind n _ _ (cur-Fits n) λ t. Fits-option n (assign_op_of t.ty) _ _ (pure-Fits _ _) λ op y.
      Fits-bind n _ _ (eat-Fits n t.ty (assign_op_of-not_eof t.ty op y))
        λ u. Fits-bind n _ _ (expr-Fits n) λ value. pure-Fits _ _

dotted_names-Fits : (m : ℕ) (p : Text) → Fits m (dotted_names m p)
unfolding dotted_names type_index
dotted_names-Fits zero p = Fits-zero _
dotted_names-Fits (suc m) p = Some-bind m _ _ (maybe-EatsSome _ dot refl) (pure-Fits _ _) λ d.
    Fits-bind m _ _ (eat-Fits m ident refl) λ name. dotted_names-Fits m (p ++ (b'.' ∷ name.value))

more_names-Fits : (m : ℕ) → Fits m (more_names m)
unfolding more_names type_index
more_names-Fits zero = Fits-zero _
more_names-Fits (suc m) = Some-bind m _ _ (maybe-EatsSome _ comma refl) (pure-Fits _ _) λ c.
    Fits-bind m _ _ (eat-Fits m ident refl)
      λ name. Fits-bind m _ _ (more_names-Fits m) λ names. pure-Fits _ _

bindings-Fits : (n : ℕ) → Fits n bindings
unfolding bindings type_index
bindings-Fits n = Fits-bind n _ _ (maybe-Fits n l_paren refl) λ opened.
    Fits-if n (is_some opened) _ _
      (λ y. Fits-bind n _ _ (at-Fits n r_paren) λ closed.
        Fits-bind n _ _
          (Fits-if n closed _ _ (λ y. pure-Fits _ _)
            λ y. Fits-bind n _ _ (eat-Fits n ident refl) λ name.
              Fits-bind n _ _ (measured-Fits n _ λ m l. more_names-Fits m) λ names. pure-Fits _ _)
          λ names. Fits-bind n _ _ (eat-Fits n r_paren refl) λ t. pure-Fits _ _)
      λ y. pure-Fits _ _

case_pattern-Fits : (n : ℕ) → Fits n case_pattern
unfolding case_pattern type_index
case_pattern-Fits n = Fits-bind n _ _ (at-Fits n ident) λ is_name.
    Fits-bind n _ _ (at-Fits n star) λ is_star.
      Fits-if n is_name _ _
        (λ y. Fits-bind n _ _ (eat-Fits n ident refl) λ name.
          Fits-bind n _ _ (measured-Fits n _ λ m l. dotted_names-Fits m name.value)
            λ pattern. Fits-bind n _ _ (bindings-Fits n) λ names. pure-Fits _ _)
        λ y.
          Fits-if n is_star _ _ (λ y. Fits-bind n _ _ (eat-Fits n star refl) λ t. pure-Fits _ _)
            λ y. pure-Fits _ _

module _ (stmt : Parser Stmt) where
  stmts_loop-Fits : (m : ℕ) → Eats m stmt → Fits m (stmts_loop stmt m)
  unfolding stmts_loop
  stmts_loop-Fits zero h = Fits-zero _
  stmts_loop-Fits (suc m) h = Fits-bind _ _ _ (at-Fits _ r_brace) λ closed.
      Fits-bind _ _ _ (at-Fits _ eof) λ last.
        Fits-if _ (closed || last) _ _ (λ y. pure-Fits _ _)
          λ y. Eats-Fits _ _ (
            Eats-then m _ _ h λ s.
              Fits-bind m _ _ (stmts_loop-Fits m (Eats-mono (suc m) m _ (omega arith) h))
                λ ss. pure-Fits _ _)

  stmts_with-Fits : (n : ℕ) → Eats n stmt → Fits n (stmts_with stmt)
  unfolding stmts_with
  stmts_with-Fits n h = measured-Fits n _ λ m l. stmts_loop-Fits m (Eats-mono n m _ l h)

  block-Fits : (n : ℕ) → Eats n stmt → Fits n (block stmt)
  unfolding block type_index
  block-Fits n h = Fits-bind n _ _ (eat-Fits n l_brace refl) λ t.
      Fits-bind n _ _ (stmts_with-Fits n h)
        λ ss. Fits-bind n _ _ (eat-Fits n r_brace refl) λ u. pure-Fits _ _

  case_body-Fits : (n : ℕ) → Eats n stmt → Fits n (case_body stmt)
  unfolding case_body type_index
  case_body-Fits n h = Fits-bind n _ _ (maybe-Fits n l_brace refl) λ opened.
      Fits-if n (is_some opened) _ _
        (λ y.
          Fits-bind n _ _ (stmts_with-Fits n h)
            λ ss. Fits-bind n _ _ (eat-Fits n r_brace refl) λ u. pure-Fits _ _)
        λ y. Fits-bind n _ _ (Eats-Fits _ _ h) λ s. pure-Fits _ _

  cases_loop-Fits : (m : ℕ) → Eats (m - 1) stmt → Fits m (cases_loop stmt m)
  unfolding cases_loop type_index
  cases_loop-Fits zero h = Fits-zero _
  cases_loop-Fits (suc m) h =
      let k = Eats-mono (suc m - 1) m stmt (omega arith) h in
      Fits-bind _ _ _ (at-Fits _ r_brace) λ closed.
        Fits-if _ closed _ _ (λ y. pure-Fits _ _)
          λ y. Fits-bind _ _ _ (case_pattern-Fits _) λ pattern. Eats-Fits _ _ (
            Eats-then m _ _ (eat-Eats _ fat_arrow refl) λ t.
              Fits-bind m _ _ (case_body-Fits m k) λ body.
                Fits-bind m _ _ (cases_loop-Fits m (Eats-mono m (m - 1) stmt (omega arith) k))
                  λ cases. pure-Fits _ _)

  parse_match-Eats : (n : ℕ) → Eats n stmt → Eats (suc n) (parse_match stmt)
  unfolding parse_match type_index
  parse_match-Eats n h = Eats-then n _ _ (eat-Eats _ match_word refl) λ t.
      Fits-bind n _ _ (expr-Fits n) λ e. Fits-bind n _ _ (eat-Fits n l_brace refl) λ u.
        Fits-bind n _ _
          (measured-Fits n _ λ m l. cases_loop-Fits m (Eats-mono n (m - 1) stmt (omega arith) h))
          λ cases. Fits-bind n _ _ (eat-Fits n r_brace refl) λ v. pure-Fits _ _

  parse_for-Eats : (n : ℕ) → Eats n stmt → Eats (suc n) (parse_for stmt)
  unfolding parse_for type_index
  parse_for-Eats n h = Eats-then n _ _ (eat-Eats _ for_word refl) λ t.
      Fits-bind n _ _ (eat-Fits n ident refl) λ var. Fits-bind n _ _ (eat-Fits n in_word refl) λ u.
        Fits-bind n _ _ (expr-Fits n) λ iter. Fits-bind n _ _ (block-Fits n h) λ body. pure-Fits _ _

  parse_unsafe-Eats : (n : ℕ) → Eats n stmt → Eats (suc n) (parse_unsafe stmt)
  unfolding parse_unsafe type_index
  parse_unsafe-Eats n h =
      Eats-then n _ _ (eat-Eats _ unsafe_word refl)
        λ t. Fits-bind n _ _ (block-Fits n h) λ body. pure-Fits _ _

  if_loop-Eats : (m : ℕ) → Eats (m - 1) stmt → Eats m (if_loop stmt m)
  unfolding if_loop type_index
  if_loop-Eats zero h = Eats-zero _
  if_loop-Eats (suc m) h =
      let k = Eats-mono (suc m - 1) m stmt (omega arith) h in
      let inner = Eats-Fits _ _ (if_loop-Eats m (Eats-mono m (m - 1) stmt (omega arith) k)) in
      Eats-then m _ _ (eat-Eats _ if_word refl) λ t. Fits-bind m _ _ (expr-Fits m) λ cond.
        Fits-bind m _ _ (block-Fits m k) λ then_body.
          Fits-bind m _ _ (maybe-Fits m else_word refl) λ e.
            Fits-if m (is_some e) _ _
              (λ y. Fits-bind m _ _ (at-Fits m if_word) λ again.
                Fits-bind m _ _
                  (Fits-if m again _ _ (λ z. Fits-bind m _ _ inner λ s. pure-Fits _ _)
                    λ z. block-Fits m k)
                  λ els. pure-Fits _ _)
              λ y. pure-Fits _ _

  parse_if-Eats : (n : ℕ) → Eats n stmt → Eats (suc n) (parse_if stmt)
  unfolding parse_if
  parse_if-Eats n h =
      measured-Eats _ _ λ m l. if_loop-Eats m (Eats-mono n (m - 1) stmt (omega arith) h)

  stmt_by-Eats : (n : ℕ) (ty : TokenType) → Eats n stmt → Eats (suc n) (stmt_by stmt ty)
  unfolding stmt_by type_index
  stmt_by-Eats n let_word h = binding-Eats _ let_word let_stmt refl
  stmt_by-Eats n const_word h = binding-Eats _ const_word const_stmt refl
  stmt_by-Eats n var_word h = binding-Eats _ var_word var_stmt refl
  stmt_by-Eats n return_word h = parse_return-Eats _
  stmt_by-Eats n if_word h = parse_if-Eats n h
  stmt_by-Eats n for_word h = parse_for-Eats n h
  stmt_by-Eats n match_word h = parse_match-Eats n h
  stmt_by-Eats n print_word h = parse_print-Eats _
  stmt_by-Eats n unsafe_word h = parse_unsafe-Eats n h
  stmt_by-Eats n _ h = parse_expr_or_assign-Eats _

stmt_on-Eats : (n : ℕ) → Eats n (stmt_on n)
unfolding stmt_on
stmt_on-Eats zero = Eats-zero _
stmt_on-Eats (suc n) =
    Late-bind _ _ _ (cur-Fits _) λ t. stmt_by-Eats (stmt_on n) n t.ty (stmt_on-Eats n)

pub parse_stmt-Eats : (n : ℕ) → Eats n parse_stmt
unfolding parse_stmt
parse_stmt-Eats n = measured-Eats n _ λ m l. stmt_on-Eats m

pub stmt_block-Fits : (n : ℕ) → Fits n (block parse_stmt)
stmt_block-Fits n = block-Fits parse_stmt n (parse_stmt-Eats n)
