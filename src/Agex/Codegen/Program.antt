-- ===== src/Agex/Codegen/Program.antt =====
-- The other declarations, whole programs, and the way from a source to a text of Rust.
use zeroxos_os.Base.{Bool, ◌||◌, Option, none, some, is_some, List, [], ◌∷◌, ◌++◌, if◌then◌else◌}
use zeroxos_os.Agex.Token.{codes, same_text}
use zeroxos_os.Agex.Ast.{
  Text, TypeNode, Stmt, Stmts, Param, FnDecl, ExternFn, ExternDecl, InterfaceDecl, ObjectDecl,
  DriverDecl, ImportDecl, Program,
}
use zeroxos_os.Agex.Hir.{
  HirDecl, hir_fn, hir_class, hir_interface, hir_object, hir_driver, hir_import, hir_extern,
  hir_stmt, HirProgram, lower,
}
use zeroxos_os.Agex.Parser.{Outcome, ok, failed, panicked, out_of_fuel}
use zeroxos_os.Agex.Parser.Decls.{parse}
use zeroxos_os.Agex.Codegen.{Generator, new, emit, block}
use zeroxos_os.Agex.Codegen.Stmts.{gen_stmt, gen_stmts}
use zeroxos_os.Agex.Codegen.Functions.{gen_return, plain_params, gen_body, gen_expr_body, gen_fn}
use zeroxos_os.Agex.Codegen.Classes.{gen_class}

unfoldable pub is_known_module : Text → Bool
is_known_module name =
    same_text name (codes "graphics")
    || same_text name (codes "network")
    || same_text name (codes "filesystem")

unfoldable pub gen_import : ImportDecl → Generator → Generator
gen_import i g =
    let g1 = emit (codes "// import " ++ i.imported) g in
    if is_known_module i.imported then emit (codes "mod " ++ i.imported ++ codes ";") g1 else g1

-- The name, the parameters and the type of a function.
unfoldable pub signature : Text → Text → List Param → TypeNode → Text
signature keyword name params ret =
    keyword ++ name ++ codes "(" ++ plain_params params ++ codes ")" ++ gen_return ret

unfoldable pub gen_extern_fns : List ExternFn → Generator → Generator
gen_extern_fns [] g = g
gen_extern_fns (f ∷ fs) g =
    gen_extern_fns fs (emit (signature (codes "fn ") f.name f.params f.return_type ++ codes ";") g)

unfoldable pub gen_extern : ExternDecl → Generator → Generator
gen_extern e = block (codes "extern \"" ++ e.abi ++ codes "\" {") (gen_extern_fns e.fns) (codes "}")

unfoldable pub has_body : FnDecl → Bool
has_body f = is_some f.body || is_some f.expr_body

unfoldable pub gen_trait_fn : FnDecl → Generator → Generator
gen_trait_fn m g =
    if has_body m
    then block (signature (codes "fn ") m.name m.params m.return_type ++ codes " {") (gen_body m)
        (codes "}") g
    else emit (signature (codes "fn ") m.name m.params m.return_type ++ codes ";") g

unfoldable pub gen_trait_fns : List FnDecl → Generator → Generator
gen_trait_fns [] g = g
gen_trait_fns (m ∷ ms) g = gen_trait_fns ms (gen_trait_fn m g)

unfoldable pub gen_interface : InterfaceDecl → Generator → Generator
gen_interface i =
    block (codes "pub trait " ++ i.name ++ codes " {") (gen_trait_fns i.methods) (codes "}")

unfoldable pub gen_object_fns : List FnDecl → Generator → Generator
gen_object_fns [] g = g
gen_object_fns (m ∷ ms) g = gen_object_fns ms (
    block (signature (codes "pub fn ") m.name m.params m.return_type ++ codes " {") (gen_body m)
      (codes "}") g)

unfoldable pub gen_instance : Text → Generator → Generator
gen_instance name =
    block (codes "pub fn instance() -> &'static " ++ name ++ codes " {")
      (λ g. emit (codes "INSTANCE.get_or_init(|| " ++ name ++ codes ")") (
        emit (codes "static INSTANCE: OnceLock<" ++ name ++ codes "> = OnceLock::new();")
          (emit (codes "use std::sync::OnceLock;") g)))
      (codes "}")

unfoldable pub gen_object : ObjectDecl → Generator → Generator
gen_object o g =
    block (codes "impl " ++ o.name ++ codes " {")
      (λ g'. gen_object_fns o.members (gen_instance o.name g')) (codes "}")
      (emit (codes "pub struct " ++ o.name ++ codes ";") g)

-- The statements of a driver's function, or a comment in their place.
unfoldable pub gen_setup : Option Stmts → Generator → Generator
gen_setup (some body) g = gen_stmts body g
gen_setup none g = emit (codes "// hardware setup") g

unfoldable pub gen_driver_fns : List FnDecl → Generator → Generator
gen_driver_fns [] g = g
gen_driver_fns (m ∷ ms) g = gen_driver_fns ms (
    block (signature (codes "fn ") m.name m.params m.return_type ++ codes " {")
      (λ g'. gen_setup m.body (gen_expr_body m.expr_body g')) (codes "}") g)

unfoldable pub gen_driver : DriverDecl → Generator → Generator
gen_driver v g =
    block (codes "impl " ++ v.implements ++ codes " for " ++ v.name ++ codes " {")
      (gen_driver_fns v.members) (codes "}") (emit (codes "pub struct " ++ v.name ++ codes ";") g)

unfoldable pub gen_decl : HirDecl → Generator → Generator
gen_decl (hir_import i) g = gen_import i g
gen_decl (hir_extern e) g = gen_extern e g
gen_decl (hir_fn f) g = gen_fn f g
gen_decl (hir_class c) g = gen_class c g
gen_decl (hir_interface i) g = gen_interface i g
gen_decl (hir_object o) g = gen_object o g
gen_decl (hir_driver v) g = gen_driver v g
gen_decl (hir_stmt s) g = g

-- The statements at the top, in their order.
unfoldable pub top_stmts : List HirDecl → List Stmt
top_stmts [] = []
top_stmts (hir_stmt s ∷ ds) = s ∷ top_stmts ds
top_stmts (d ∷ ds) = top_stmts ds

-- The declarations that are no statements, an empty line behind each.
unfoldable pub gen_decls : List HirDecl → Generator → Generator
gen_decls [] g = g
gen_decls (hir_stmt s ∷ ds) g = gen_decls ds g
gen_decls (d ∷ ds) g = gen_decls ds (emit [] (gen_decl d g))

unfoldable pub gen_list : List Stmt → Generator → Generator
gen_list [] g = g
gen_list (s ∷ ss) g = gen_list ss (gen_stmt s g)

unfoldable pub gen_main : List Stmt → Generator → Generator
gen_main [] g = g
gen_main (s ∷ ss) g = block (codes "fn main() {") (gen_list (s ∷ ss)) (codes "}") g

unfoldable pub gen_prelude : Generator → Generator
gen_prelude g = emit [] (
    emit (codes "use std::prelude::v1::*;") (
      emit [] (
        emit (codes "#![allow(dead_code, unused_variables, unused_imports, unused_mut)]")
          (emit (codes "// Generated from agex source by the agex compiler (agc)") g))))

unfoldable pub gen_program : HirProgram → Generator → Generator
gen_program prog g = gen_main (top_stmts prog.decls) (gen_decls prog.decls (gen_prelude g))

-- `GenResult`, and `TranspileResult`, which has the same two parts.
pub record GenResult : Type 0 where
  pub rust : Text
  pub warnings : List Text

unfoldable pub generate : HirProgram → GenResult
generate prog = (let g = gen_program prog new in record { rust = g.out; warnings = g.warnings })

-- The `?` behind `parse`.
unfoldable pub generated : Outcome Program → Outcome GenResult
generated (ok prog rest) = ok (generate (lower prog)) rest
generated (failed e) = failed e
generated panicked = panicked
generated out_of_fuel = out_of_fuel

unfoldable pub transpile : Text → Outcome GenResult
transpile source = generated (parse source)
