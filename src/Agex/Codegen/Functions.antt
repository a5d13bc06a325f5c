-- ===== src/Agex/Codegen/Functions.antt =====
-- Functions, methods and extensions of the source as functions of Rust.
use zeroxos_os.Base.{
  Bool, true, false, ◌||◌, Option, none, some, List, [], ◌∷◌, ◌++◌, map, if◌then◌else◌,
}
use zeroxos_os.Agex.Token.{codes}
use zeroxos_os.Agex.Ast.{
  Text, TypeNode, Expr, ident_expr, field, Stmt, assign_stmt, if_stmt, match_stmt, unsafe_stmt,
  Stmts, no_stmts, more_stmts, Else, no_else, some_else, MatchCases, no_cases, more_cases, Param,
  FnDecl,
}
use zeroxos_os.Agex.Codegen.{Generator, emit, indented, dedented, block, join}
use zeroxos_os.Agex.Codegen.Types.{gen_type, is_infer}
use zeroxos_os.Agex.Codegen.Exprs.{gen_expr}
use zeroxos_os.Agex.Codegen.Stmts.{gen_stmts}

-- The arrow and the type, where one is written.
unfoldable pub gen_return : TypeNode → Text
gen_return ty = if is_infer ty then [] else codes " -> " ++ gen_type ty

unfoldable pub name_and_type : Param → Text
name_and_type p = p.name ++ codes ": " ++ gen_type p.ty

-- The parameters, without what is `mut`.
unfoldable pub plain_params : List Param → Text
plain_params params = join (codes ", ") (map name_and_type params)

unfoldable pub mut_param : Param → Text
mut_param p = (if p.mutable then codes "mut " else []) ++ name_and_type p

-- `gen_params`; the code has no call that asks for `&self` in it.
unfoldable pub gen_params : List Param → Text
gen_params params = join (codes ", ") (map mut_param params)

unfoldable pub assignable : Expr → Bool
assignable (field recv name) = true
assignable (ident_expr name) = true
assignable _ = false

unfoldable mutual
  pub stmt_mutates_self : Stmt → Bool
  stmt_mutates_self (assign_stmt target op value) = assignable target
  stmt_mutates_self (if_stmt cond then' els) = stmts_mutate_self then' || else_mutates_self els
  stmt_mutates_self (match_stmt e cases) = cases_mutate_self cases
  stmt_mutates_self (unsafe_stmt body) = stmts_mutate_self body
  stmt_mutates_self _ = false

  pub stmts_mutate_self : Stmts → Bool
  stmts_mutate_self no_stmts = false
  stmts_mutate_self (more_stmts s ss) = stmt_mutates_self s || stmts_mutate_self ss

  pub else_mutates_self : Else → Bool
  else_mutates_self no_else = false
  else_mutates_self (some_else els) = stmts_mutate_self els

  pub cases_mutate_self : MatchCases → Bool
  cases_mutate_self no_cases = false
  cases_mutate_self (more_cases pattern bindings body cases) =
      stmts_mutate_self body || cases_mutate_self cases

unfoldable pub body_mutates_self : Option Stmts → Bool
body_mutates_self none = false
body_mutates_self (some body) = stmts_mutate_self body

unfoldable pub method_needs_mut : FnDecl → Bool
method_needs_mut f = body_mutates_self f.body

unfoldable pub gen_expr_body : Option Expr → Generator → Generator
gen_expr_body none g = g
gen_expr_body (some e) g = emit (gen_expr g e) g

unfoldable pub gen_stmts_body : Option Stmts → Generator → Generator
gen_stmts_body none g = g
gen_stmts_body (some body) g = gen_stmts body g

-- The two kinds of a body, one after the other.
unfoldable pub gen_body : FnDecl → Generator → Generator
gen_body f g = gen_stmts_body f.body (gen_expr_body f.expr_body g)

-- A parameter for the receiver in front of the others.
unfoldable pub with_self : Text → Text → List Param → Text
with_self alone before [] = alone
with_self alone before (p ∷ ps) = before ++ codes ", " ++ gen_params (p ∷ ps)

unfoldable pub qualifier : FnDecl → Text
qualifier f = if f.is_unsafe then codes "unsafe " else []

unfoldable pub open_fn : Text → FnDecl → Text → Text
open_fn before f params =
    before
    ++ codes "pub fn "
    ++ f.name
    ++ codes "("
    ++ params
    ++ codes ")"
    ++ gen_return f.return_type
    ++ codes " {"

unfoldable pub self_param : FnDecl → Text
self_param f = if method_needs_mut f then codes "&mut self" else codes "&self"

-- An extension of a type.
unfoldable pub gen_extension : Text → FnDecl → Generator → Generator
gen_extension recv f =
    block (codes "impl " ++ recv ++ codes " {")
      (block (open_fn [] f (with_self (codes "self: Self") (codes "self: &Self") f.params))
        (gen_body f) (codes "}"))
      (codes "}")

unfoldable pub set_fields : List Text → Generator → Generator
set_fields fields g = record g { in_method_fields = fields }

-- A method, in which the names of the fields stand for those of the object.
unfoldable pub gen_method_fn : FnDecl → List Text → Generator → Generator
gen_method_fn f fields g =
    let g1 = emit (open_fn (qualifier f) f (with_self (self_param f) (self_param f) f.params)) g in
    emit (codes "}") (dedented (gen_body f (indented (set_fields fields g1))))

unfoldable pub gen_plain_fn : FnDecl → Generator → Generator
gen_plain_fn f = block (open_fn (qualifier f) f (gen_params f.params)) (gen_body f) (codes "}")

-- The three branches of `gen_fn_inner`.
unfoldable pub gen_fn_by : Option Text → FnDecl → Bool → List Text → Generator → Generator
gen_fn_by (some recv) f is_method fields g = gen_extension recv f g
gen_fn_by none f true fields g = gen_method_fn f fields g
gen_fn_by none f false fields g = gen_plain_fn f g

-- The fields are cleared behind a method.
unfoldable pub gen_fn_inner : FnDecl → Bool → List Text → Generator → Generator
gen_fn_inner f is_method fields g =
    let g' = gen_fn_by f.receiver f is_method fields g in if is_method then set_fields [] g' else g'

-- `gen_fn` and `gen_fn_with_self`
unfoldable pub gen_fn : FnDecl → Generator → Generator
gen_fn f = gen_fn_inner f false []

unfoldable pub gen_methods : List FnDecl → List Text → Generator → Generator
gen_methods [] fields g = g
gen_methods (m ∷ ms) fields g = gen_methods ms fields (gen_fn_inner m true fields g)
