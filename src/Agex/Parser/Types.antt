-- ===== src/Agex/Parser/Types.antt =====
-- The parsers of types, and of the parameters of a function or a class.
use zeroxos_os.Base.{
  ℕ, zero, suc, Bool, true, false, Option, none, some, is_some, List, [], ◌∷◌, if◌then◌else◌,
}
use zeroxos_os.Agex.Token.{
  TokenType, ident, star, l_bracket, r_bracket, question, comma, colon, assign, var_word, r_paren,
}
use zeroxos_os.Agex.Ast.{
  TypeNode, TypeNodes, infer, infer_type, named, generic, pointer, no_types, more_types, Param,
}
use zeroxos_os.Agex.Parser.{Parser, out_of_fuel, pure, ◌>>=◌, ◌>>◌, at, eat, maybe, measured}
use zeroxos_os.Agex.Parser.Exprs.{parse_expr}

abbrev pub nullable : TypeNode → TypeNode
nullable (infer_type b) = infer_type true
nullable (named name b) = named name true
nullable (generic name args b) = generic name args true
nullable (pointer inner b) = pointer inner true

unfoldable pub more_type_arguments : Parser TypeNode → ℕ → Parser TypeNodes
more_type_arguments ty zero = λ ts. out_of_fuel
more_type_arguments ty (suc n) = do
  c ← maybe comma
  if is_some c
      then (do t ← ty; ts ← more_type_arguments ty n; pure (more_types t ts))
      else pure no_types

unfoldable pub type_arguments : Parser TypeNode → Parser TypeNodes
type_arguments ty = do
  closed ← at r_bracket
  args ←
      if closed
      then pure no_types
      else (do t ← ty; ts ← measured (more_type_arguments ty); pure (more_types t ts))
  eat r_bracket
  pure args

unfoldable pub named_type : Parser TypeNode → Parser TypeNode
named_type ty = do
  name ← eat ident
  opened ← maybe l_bracket
  if is_some opened
      then (do args ← type_arguments ty; pure (generic name.value args false))
      else pure (named name.value false)

unfoldable pub type_with : Parser TypeNode → Parser TypeNode
type_with ty = do
  is_pointer ← at star
  t ← if is_pointer then (do eat star; inner ← ty; pure (pointer inner false)) else named_type ty
  q ← maybe question
  pure (if is_some q then nullable t else t)

unfoldable pub type_on : ℕ → Parser TypeNode
type_on zero = λ ts. out_of_fuel
type_on (suc n) = type_with (type_on n)

unfoldable pub parse_type : Parser TypeNode
parse_type = measured type_on

-- `if self.maybe(ty).is_some() { Some(p()?) } else { None }`
unfoldable pub optional : {A : Type 0} → TokenType → Parser A → Parser (Option A)
optional ty p = do o ← maybe ty; if is_some o then (do a ← p; pure (some a)) else pure none

-- `if here { self.eat(ty)?; }`
unfoldable pub when : Bool → TokenType → Parser (Unit {0})
when here ty = if here then (do eat ty; pure tt) else pure tt

-- The type behind a token, or the one to be inferred.
unfoldable pub type_after : TokenType → Parser TypeNode
type_after ty = do o ← maybe ty; if is_some o then parse_type else pure infer

unfoldable pub params_loop : ℕ → Parser (List Param)
params_loop zero = λ ts. out_of_fuel
params_loop (suc n) = do
  closed ← at r_paren
  if closed then pure [] else do
    mutable ← at var_word
    when mutable var_word
    name ← eat ident
    eat colon
    ty ← parse_type
    default ← optional assign parse_expr
    c ← maybe comma
    rest ← if is_some c then params_loop n else pure []
    pure (record { name = name.value; ty = ty; mutable = mutable; default = default } ∷ rest)

unfoldable pub parse_params : Parser (List Param)
parse_params = measured params_loop
