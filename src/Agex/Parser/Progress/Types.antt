-- ===== src/Agex/Parser/Progress/Types.antt =====
-- The parsers of types and parameters end within their fuel.
use zeroxos_os.Base.{ℕ, zero, suc, ◌≡◌, refl, arith, Bool, false, is_some}
use zeroxos_os.Agex.Token.{
  TokenType, ident, star, l_bracket, r_bracket, question, comma, colon, assign, var_word, r_paren,
  eof,
}
use zeroxos_os.Agex.Token.Equality.{same_type, type_index}
use zeroxos_os.Agex.Ast.{TypeNode}
use zeroxos_os.Agex.Parser.{Parser}
use zeroxos_os.Agex.Parser.Exprs.{parse_expr}
use zeroxos_os.Agex.Parser.Types.{
  more_type_arguments, type_arguments, named_type, type_with, type_on, parse_type, optional, when,
  type_after, params_loop, parse_params,
}
use zeroxos_os.Agex.Parser.Progress.{
  Fits, Eats, Eats-Fits, Eats-mono, Fits-bind, Eats-bind, Eats-then, Late-bind, Some-bind, Fits-if,
  Eats-if, pure-Fits, Eats-zero, Fits-zero, measured-Fits, measured-Eats, at-Fits, eat-Eats,
  maybe-EatsSome, maybe-Fits,
}
use zeroxos_os.Agex.Parser.Progress.Exprs.{parse_expr-Eats}

module _ (ty : Parser TypeNode) where
  more_type_arguments-Fits : (m : ℕ) → Eats m ty → Fits m (more_type_arguments ty m)
  unfolding more_type_arguments type_index
  more_type_arguments-Fits zero h = Fits-zero _
  more_type_arguments-Fits (suc m) h =
      let k = Eats-mono (suc m) m ty (omega arith) h in
      Some-bind m _ _ (maybe-EatsSome _ comma refl) (pure-Fits _ _) λ c.
        Fits-bind m _ _ (Eats-Fits _ _ k)
          λ t. Fits-bind m _ _ (more_type_arguments-Fits m k) λ ts. pure-Fits _ _

  type_arguments-Fits : (n : ℕ) → Eats n ty → Fits n (type_arguments ty)
  unfolding type_arguments type_index
  type_arguments-Fits n h = Fits-bind n _ _ (at-Fits n r_bracket) λ closed.
      Fits-bind n _ _
        (Fits-if n closed _ _ (λ y. pure-Fits _ _)
          λ y. Fits-bind n _ _ (Eats-Fits _ _ h) λ t.
            Fits-bind n _ _
              (measured-Fits n _ λ m l. more_type_arguments-Fits m (Eats-mono n m _ l h))
              λ ts. pure-Fits _ _)
        λ args. Fits-bind n _ _ (Eats-Fits _ _ (eat-Eats n r_bracket refl)) λ u. pure-Fits _ _

  named_type-Eats : (n : ℕ) → Eats n ty → Eats (suc n) (named_type ty)
  unfolding named_type type_index
  named_type-Eats n h = Eats-then n _ _ (eat-Eats _ ident refl) λ name.
      Fits-bind n _ _ (maybe-Fits n l_bracket refl) λ opened.
        Fits-if n (is_some opened) _ _
          (λ y. Fits-bind n _ _ (type_arguments-Fits n h) λ args. pure-Fits _ _) λ y. pure-Fits _ _

  type_with-Eats : (n : ℕ) → Eats n ty → Eats (suc n) (type_with ty)
  unfolding type_with type_index
  type_with-Eats n h = Late-bind _ _ _ (at-Fits _ star) λ is_pointer.
      Eats-bind _ _ _
        (Eats-if _ is_pointer _ _
          (λ y.
            Eats-then n _ _ (eat-Eats _ star refl)
              λ u. Fits-bind n _ _ (Eats-Fits _ _ h) λ inner. pure-Fits _ _)
          λ y. named_type-Eats n h)
        λ t. Fits-bind _ _ _ (maybe-Fits _ question refl) λ q. pure-Fits _ _

type_on-Eats : (n : ℕ) → Eats n (type_on n)
unfolding type_on
type_on-Eats zero = Eats-zero _
type_on-Eats (suc n) = type_with-Eats (type_on n) n (type_on-Eats n)

pub parse_type-Eats : (n : ℕ) → Eats n parse_type
unfolding parse_type
parse_type-Eats n = measured-Eats n _ λ m l. type_on-Eats m

pub optional-Fits :
    {A : Type 0} (n : ℕ) (ty : TokenType) (p : Parser A)
    → same_type ty eof ≡ false
    → Fits n p
    → Fits n (optional ty p)
unfolding optional
optional-Fits n ty p d h =
    Fits-bind n _ _ (maybe-Fits n ty d)
      λ o. Fits-if n (is_some o) _ _ (λ y. Fits-bind n _ _ h λ a. pure-Fits _ _) λ y. pure-Fits _ _

pub type_after-Fits : (n : ℕ) (ty : TokenType) → same_type ty eof ≡ false → Fits n (type_after ty)
unfolding type_after
type_after-Fits n ty d =
    Fits-bind n _ _ (maybe-Fits n ty d)
      λ o. Fits-if n (is_some o) _ _ (λ y. Eats-Fits _ _ (parse_type-Eats n)) λ y. pure-Fits _ _

pub when-Fits :
    (n : ℕ) (here : Bool) (ty : TokenType) → same_type ty eof ≡ false → Fits n (when here ty)
unfolding when
when-Fits n here ty d =
    Fits-if n here _ _ (λ y. Fits-bind n _ _ (Eats-Fits _ _ (eat-Eats n ty d)) λ t. pure-Fits _ _)
      λ y. pure-Fits _ _

params_loop-Fits : (m : ℕ) → Fits m (params_loop m)
unfolding params_loop type_index
params_loop-Fits zero = Fits-zero _
params_loop-Fits (suc m) = Fits-bind _ _ _ (at-Fits _ r_paren) λ closed.
    Fits-if _ closed _ _ (λ y. pure-Fits _ _)
      λ y. Fits-bind _ _ _ (at-Fits _ var_word) λ mutable.
        Fits-bind _ _ _ (when-Fits _ mutable var_word refl) λ u. Eats-Fits _ _ (
          Eats-then m _ _ (eat-Eats _ ident refl) λ name.
            Fits-bind m _ _ (Eats-Fits _ _ (eat-Eats m colon refl)) λ v.
              Fits-bind m _ _ (Eats-Fits _ _ (parse_type-Eats m)) λ ty.
                Fits-bind m _ _
                  (optional-Fits m assign parse_expr refl (Eats-Fits _ _ (parse_expr-Eats m)))
                  λ default. Fits-bind m _ _ (maybe-Fits m comma refl) λ c.
                    Fits-bind m _ _
                      (Fits-if m (is_some c) _ _ (λ y. params_loop-Fits m) λ y. pure-Fits _ _)
                      λ rest. pure-Fits _ _)

pub parse_params-Fits : (n : ℕ) → Fits n parse_params
unfolding parse_params
parse_params-Fits n = measured-Fits n _ λ m l. params_loop-Fits m
