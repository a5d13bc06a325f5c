-- ===== src/Agex/Parser/Progress/Exprs.antt =====
-- The parsers of expressions take at least one token, and end within their fuel.
use zeroxos_os.Base.{
  ℕ, zero, suc, ◌-◌, ◌≡◌, refl, arith, Bool, true, false, ◌&&◌, ◌||◌, Option, [], ◌∷◌, ==_self,
  Bool-cases, inl, inr,
}
use zeroxos_os.Agex.Token.{
  TokenType, Token, codes, same_text, ident, print_word, range_word, int_literal, float_literal,
  string_literal, char_literal, minus, and_op, or_op, not_op, amp, question, l_paren, r_paren,
  comma, colon, dot, eof,
}
use zeroxos_os.Agex.Token.Equality.{same_type, type_index}
use zeroxos_os.Agex.Ast.{Text, Expr, Exprs, call, cast, elvis, binary}
use zeroxos_os.Agex.Parser.{advance, Parser, cur, eat, at, pure, ◌>>=◌}
use zeroxos_os.Agex.Parser.Exprs.{
  more_arguments, arguments, starts_upper, primary_name, primary_by, parse_primary, member,
  postfix_loop, parse_postfix, unary_loop, parse_unary, operator, binary_loop, level, is_factor,
  is_sum, is_comparison, is_equality, parse_mul, parse_add, is_loop, parse_is, parse_cmp, parse_eq,
  single, parse_and, parse_or, elvis_loop, parse_elvis, expr_on, parse_expr,
}
use zeroxos_os.Agex.Parser.Progress.{
  Fits, Eats, EatsSome, Eats-Fits, Fits-mono, Eats-mono, Fits-bind, Eats-bind, Eats-then, Late-bind,
  Some-bind, Fits-if, Eats-if, pure-Fits, reject-Eats, Eats-zero, Fits-zero, measured-Fits,
  measured-Eats, cur-Fits, at-Fits, peek_next-Fits, eat-Eats, maybe-EatsSome, Ends-tail, not_eof,
}

module _ (expr : Parser Expr) where
  more_arguments-Fits : (m : ℕ) → Eats m expr → Fits m (more_arguments expr m)
  unfolding more_arguments type_index
  more_arguments-Fits zero h = Fits-zero _
  more_arguments-Fits (suc m) h = Some-bind m _ _ (maybe-EatsSome _ comma refl) (pure-Fits _ _) λ t.
      Fits-bind m _ _ (Fits-mono (suc m) m _ (omega arith) (Eats-Fits _ _ h)) λ e.
        Fits-bind m _ _ (more_arguments-Fits m (Eats-mono (suc m) m _ (omega arith) h))
          λ es. pure-Fits _ _

  pub arguments-Eats : (n : ℕ) → Eats n expr → Eats n (arguments expr)
  unfolding arguments type_index
  arguments-Eats n h = Late-bind n _ _ (at-Fits n r_paren) λ closed.
      Late-bind n _ _
        (Fits-if n closed _ _ (λ y. pure-Fits _ _)
          λ y. Eats-Fits _ _ (
            Eats-bind n _ _ h λ e.
              Fits-bind n _ _ (measured-Fits n _ λ m l. more_arguments-Fits m (Eats-mono n m _ l h))
                λ es. pure-Fits _ _))
        λ args. Eats-bind n _ _ (eat-Eats n r_paren refl) λ t. pure-Fits _ _

  -- A call behind its name.
  opened-Eats :
      {A : Type 0} (n : ℕ) (f : Exprs → Parser A)
      → Eats n expr
      → ((args : Exprs) → Fits n (f args))
      → Eats (suc n) (eat l_paren >>= λ t. arguments expr >>= f)
  unfolding type_index
  opened-Eats n f h g =
      Eats-then n _ _ (eat-Eats _ l_paren refl)
        λ t. Fits-bind n _ _ (Eats-Fits _ _ (arguments-Eats n h)) g

  primary_name-Fits :
      (n : ℕ) (is_print : Bool) (value : Text)
      → Eats n expr
      → Fits (suc n) (primary_name expr is_print value)
  unfolding primary_name
  primary_name-Fits n is_print value h =
      let is_true = same_text value (codes "true") in
      Fits-if _ (is_true || same_text value (codes "false")) _ _ (λ y. pure-Fits _ _)
        λ y1.
          Fits-if _ (same_text value (codes "null")) _ _ (λ y. pure-Fits _ _)
            λ y2.
              Fits-if _ (same_text value (codes "this")) _ _ (λ y. pure-Fits _ _)
                λ y3. Fits-bind _ _ _ (at-Fits _ l_paren) λ opened.
                  Fits-if _ (opened && starts_upper value) _ _
                    (λ y. Eats-Fits _ _ (opened-Eats n _ h λ args. pure-Fits _ _))
                    λ y4.
                      Fits-if _ (is_print && opened) _ _
                        (λ y. Eats-Fits _ _ (opened-Eats n _ h λ args. pure-Fits _ _))
                        λ y5. pure-Fits _ _

  name-Eats :
      (n : ℕ) (ty : TokenType) (is_print : Bool) (value : Text)
      → same_type ty eof ≡ false
      → Eats n expr
      → Eats (suc n) (eat ty >>= λ t. primary_name expr is_print value)
  name-Eats n ty is_print value d h =
      Eats-bind _ _ _ (eat-Eats _ ty d) λ t. primary_name-Fits n is_print value h

  literal-Eats :
      (n : ℕ) (ty : TokenType) (e : Expr)
      → same_type ty eof ≡ false
      → Eats n (eat ty >>= λ t. pure e)
  literal-Eats n ty e d = Eats-bind _ _ _ (eat-Eats _ ty d) λ t. pure-Fits _ _

  primary_by-Eats :
      (n : ℕ) (ty : TokenType) (tok : Token) → Eats n expr → Eats (suc n) (primary_by expr ty tok)
  unfolding primary_by type_index
  primary_by-Eats n int_literal tok h = literal-Eats _ int_literal _ refl
  primary_by-Eats n float_literal tok h = literal-Eats _ float_literal _ refl
  primary_by-Eats n string_literal tok h = literal-Eats _ string_literal _ refl
  primary_by-Eats n char_literal tok h = literal-Eats _ char_literal _ refl
  primary_by-Eats n l_paren tok h = Eats-then n _ _ (eat-Eats _ l_paren refl) λ t.
      Fits-bind n _ _ (Eats-Fits _ _ h)
        λ e. Fits-bind n _ _ (Eats-Fits _ _ (eat-Eats _ r_paren refl)) λ u. pure-Fits _ _
  primary_by-Eats n ident tok h = name-Eats n ident false tok.value refl h
  primary_by-Eats n print_word tok h = name-Eats n print_word true tok.value refl h
  primary_by-Eats n range_word tok h = name-Eats n range_word false tok.value refl h
  primary_by-Eats n _ tok h = reject-Eats Expr _ _ tok

  parse_primary-Eats : (n : ℕ) → Eats n expr → Eats (suc n) (parse_primary expr)
  unfolding parse_primary
  parse_primary-Eats n h = Late-bind _ _ _ (cur-Fits _) λ tok. primary_by-Eats n tok.ty tok h

  member-Eats :
      (n : ℕ) (make : Text → Option Exprs → Expr) → Eats n expr → Eats n (member expr make)
  unfolding member type_index
  member-Eats n make h = Eats-bind n _ _ (eat-Eats n ident refl) λ t.
      Fits-bind n _ _ (at-Fits n l_paren) λ opened.
        Fits-if _ opened _ _
          (λ y.
            Fits-bind n _ _ (Eats-Fits _ _ (eat-Eats n l_paren refl))
              λ u. Fits-bind n _ _ (Eats-Fits _ _ (arguments-Eats n h)) λ args. pure-Fits _ _)
          λ y. pure-Fits _ _

  postfix_loop-Fits : (m : ℕ) (e : Expr) → Eats (m - 1) expr → Fits m (postfix_loop expr m e)
  unfolding postfix_loop type_index
  postfix_loop-Fits zero e h = Fits-zero _
  postfix_loop-Fits (suc m) e h =
      let k = Eats-mono (suc m - 1) m expr (omega arith) h in
      let go = λ (e' : Expr). postfix_loop-Fits m e' (Eats-mono m (m - 1) _ (omega arith) k) in
      Fits-bind _ _ _ (at-Fits _ dot) λ is_dot. Fits-bind _ _ _ (at-Fits _ question) λ is_question.
        Fits-bind _ _ _ (peek_next-Fits _) λ next. Fits-bind _ _ _ (at-Fits _ l_paren) λ is_open.
          Fits-if _ is_dot _ _
            (λ y. Eats-Fits _ _ (
              Eats-then m _ _ (eat-Eats _ dot refl)
                λ t. Fits-bind m _ _ (Eats-Fits _ _ (member-Eats m _ k)) go))
            λ y1.
              Fits-if _ (is_question && same_type next.ty dot) _ _
                (λ y. Eats-Fits _ _ (
                  Eats-then m _ _ (eat-Eats _ question refl) λ t.
                    Fits-bind m _ _ (Eats-Fits _ _ (eat-Eats _ dot refl))
                      λ u. Fits-bind m _ _ (Eats-Fits _ _ (member-Eats m _ k)) go))
                λ y2.
                  Fits-if _ is_open _ _
                    (λ y. Eats-Fits _ _ (opened-Eats m _ k λ args. go (call e args)))
                    λ y3. pure-Fits _ _

  parse_postfix-Eats : (n : ℕ) → Eats n expr → Eats (suc n) (parse_postfix expr)
  unfolding parse_postfix
  parse_postfix-Eats n h =
      Eats-bind _ _ _ (parse_primary-Eats n h)
        λ e. measured-Fits _ _ λ m l. postfix_loop-Fits m e (Eats-mono n (m - 1) _ (omega arith) h)

  unary_loop-Eats : (m : ℕ) → Eats (m - 1) expr → Eats m (unary_loop expr m)
  unfolding unary_loop type_index
  unary_loop-Eats zero h = Eats-zero _
  unary_loop-Eats (suc m) h =
      let k = Eats-mono (suc m - 1) m expr (omega arith) h in
      let inner = Eats-Fits _ _ (unary_loop-Eats m (Eats-mono m (m - 1) _ (omega arith) k)) in
      Late-bind _ _ _ (cur-Fits _) λ t.
        Eats-if _ (same_type t.ty not_op || same_type t.ty minus) _ _
          (λ y.
            Eats-then m _ _ (eat-Eats _ t.ty (ground arith))
              λ op. Fits-bind m _ _ inner λ e. pure-Fits _ _)
          λ y1.
            Eats-if _ (same_type t.ty amp) _ _
              (λ y.
                Eats-then m _ _ (eat-Eats _ amp refl) λ u. Fits-bind m _ _ inner λ e. pure-Fits _ _)
              λ y2. parse_postfix-Eats m k

  parse_unary-Eats : (n : ℕ) → Eats n expr → Eats (suc n) (parse_unary expr)
  unfolding parse_unary
  parse_unary-Eats n h =
      measured-Eats _ _ λ m l. unary_loop-Eats m (Eats-mono n (m - 1) _ (omega arith) h)

-- The operators of a level.
operator-EatsSome :
    (n : ℕ) (among : TokenType → Bool)
    → ((ty : TokenType) → among ty ≡ true → same_type ty eof ≡ false)
    → EatsSome n (operator among)
unfolding EatsSome operator cur eat advance
operator-EatsSome n among d [] e l = absurd e
operator-EatsSome n among d (t ∷ ts) e l = elim (Bool-cases (among t.ty)) [
  | inl y ↦
      (let z = Ends-tail t ts e (d t.ty y) in rw (y, ==_self (type_index t.ty)) (z, omega arith))
  | inr z ↦ rw z (e, omega arith)
]

single-EatsSome :
    (n : ℕ) (ty : TokenType) (text : Text) → same_type ty eof ≡ false → EatsSome n (single ty text)
unfolding EatsSome single at cur eat advance
single-EatsSome n ty text d [] e l = absurd e
single-EatsSome n ty text d (t ∷ ts) e l = elim (Bool-cases (same_type t.ty ty)) [
  | inl y ↦ (let z = Ends-tail t ts e (not_eof t.ty ty y d) in rw (y, y) (z, omega arith))
  | inr z ↦ rw z (e, omega arith)
]

module _ (op : Parser (Option Text)) (taken : (n : ℕ) → EatsSome n op) where
  binary_loop-Fits :
      (operand : Parser Expr) (m : ℕ) (left : Expr)
      → Eats m operand
      → Fits m (binary_loop op operand m left)
  unfolding binary_loop
  binary_loop-Fits operand zero left h = Fits-zero _
  binary_loop-Fits operand (suc m) left h =
      let k = Eats-mono (suc m) m operand (omega arith) h in
      Some-bind m _ _ (taken (suc m)) (pure-Fits _ _) λ text.
        Fits-bind m _ _ (Eats-Fits _ _ k)
          λ right. binary_loop-Fits operand m (binary text left right) k

  level-Eats : (operand : Parser Expr) (n : ℕ) → Eats n operand → Eats n (level op operand)
  level-Eats operand n h =
      Eats-bind n _ _ h
        λ left. measured-Fits n _ λ m l. binary_loop-Fits operand m left (Eats-mono n m _ l h)

module _ (expr : Parser Expr) (n : ℕ) (h : Eats n expr) where
  parse_mul-Eats : Eats (suc n) (parse_mul expr)
  unfolding parse_mul type_index
  parse_mul-Eats =
      level-Eats (operator is_factor) (λ k. operator-EatsSome k is_factor λ ty y. ground arith)
        (parse_unary expr) (suc n) (parse_unary-Eats expr n h)

  parse_add-Eats : Eats (suc n) (parse_add expr)
  unfolding parse_add type_index
  parse_add-Eats =
      level-Eats (operator is_sum) (λ k. operator-EatsSome k is_sum λ ty y. ground arith)
        (parse_mul expr) (suc n) parse_mul-Eats

  is_loop-Fits : (m : ℕ) (left : Expr) → Fits m (is_loop m left)
  unfolding is_loop type_index
  is_loop-Fits zero left = Fits-zero _
  is_loop-Fits (suc m) left = Fits-bind _ _ _ (cur-Fits _) λ t.
      Fits-if _ (same_type t.ty ident && same_text t.value (codes "is")) _ _
        (λ y. Eats-Fits _ _ (
          Eats-then m _ _ (eat-Eats _ ident refl) λ u.
            Fits-bind m _ _ (Eats-Fits _ _ (eat-Eats _ ident refl))
              λ name. is_loop-Fits m (cast left name.value)))
        λ y. pure-Fits _ _

  parse_is-Eats : Eats (suc n) (parse_is expr)
  unfolding parse_is
  parse_is-Eats =
      Eats-bind _ _ _ parse_add-Eats λ left. measured-Fits _ _ λ m l. is_loop-Fits m left

  parse_cmp-Eats : Eats (suc n) (parse_cmp expr)
  unfolding parse_cmp type_index
  parse_cmp-Eats =
      level-Eats (operator is_comparison)
        (λ k. operator-EatsSome k is_comparison λ ty y. ground arith) (parse_is expr) (suc n)
        parse_is-Eats

  parse_eq-Eats : Eats (suc n) (parse_eq expr)
  unfolding parse_eq type_index
  parse_eq-Eats =
      level-Eats (operator is_equality) (λ k. operator-EatsSome k is_equality λ ty y. ground arith)
        (parse_cmp expr) (suc n) parse_cmp-Eats

  parse_and-Eats : Eats (suc n) (parse_and expr)
  unfolding parse_and type_index
  parse_and-Eats =
      level-Eats (single and_op (codes "&&")) (λ k. single-EatsSome k and_op _ refl) (parse_eq expr)
        (suc n) parse_eq-Eats

  parse_or-Eats : Eats (suc n) (parse_or expr)
  unfolding parse_or type_index
  parse_or-Eats =
      level-Eats (single or_op (codes "||")) (λ k. single-EatsSome k or_op _ refl) (parse_and expr)
        (suc n) parse_and-Eats

elvis_loop-Fits :
    (expr : Parser Expr) (m : ℕ) (left : Expr) → Eats (m - 1) expr → Fits m (elvis_loop expr m left)
unfolding elvis_loop type_index
elvis_loop-Fits expr zero left h = Fits-zero _
elvis_loop-Fits expr (suc m) left h =
    let k = Eats-mono (suc m - 1) m expr (omega arith) h in
    let right_fits = Fits-mono (suc m) m _ (omega arith) (Eats-Fits _ _ (parse_or-Eats expr m k)) in
    Fits-bind _ _ _ (at-Fits _ question) λ here. Fits-bind _ _ _ (peek_next-Fits _) λ next.
      Fits-if _ (here && same_type next.ty colon) _ _
        (λ y. Eats-Fits _ _ (
          Eats-then m _ _ (eat-Eats _ question refl) λ t.
            Fits-bind m _ _ (Eats-Fits _ _ (eat-Eats _ colon refl)) λ u.
              Fits-bind m _ _ right_fits λ right.
                elvis_loop-Fits expr m (elvis left right) (Eats-mono m (m - 1) _ (omega arith) k)))
        λ y. pure-Fits _ _

parse_elvis-Eats : (expr : Parser Expr) (n : ℕ) → Eats n expr → Eats (suc n) (parse_elvis expr)
unfolding parse_elvis
parse_elvis-Eats expr n h = Eats-bind _ _ _ (parse_or-Eats expr n h) λ left.
    measured-Fits _ _ λ m l. elvis_loop-Fits expr m left (Eats-mono n (m - 1) _ (omega arith) h)

expr_on-Eats : (n : ℕ) → Eats n (expr_on n)
unfolding expr_on
expr_on-Eats zero = Eats-zero _
expr_on-Eats (suc n) = parse_elvis-Eats (expr_on n) n (expr_on-Eats n)

pub parse_expr-Eats : (n : ℕ) → Eats n parse_expr
unfolding parse_expr
parse_expr-Eats n = measured-Eats n _ λ m l. expr_on-Eats m
