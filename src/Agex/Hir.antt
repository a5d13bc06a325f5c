-- ===== src/Agex/Hir.antt =====
-- The second form of a program, in crates/agex/src/hir.rs, and the pass that makes it.
use zeroxos_os.Base.{List, map}
use zeroxos_os.Agex.Ast.{
  FnDecl, ClassDecl, InterfaceDecl, ObjectDecl, DriverDecl, ImportDecl, ExternDecl, Stmt, Decl,
  fn_decl, of_class, interface_decl, object_decl, driver_decl, import_decl, extern_decl, stmt_decl,
  Program,
}

pub data HirDecl : Type 0 where
  hir_fn : FnDecl → HirDecl
  hir_class : ClassDecl → HirDecl
  hir_interface : InterfaceDecl → HirDecl
  hir_object : ObjectDecl → HirDecl
  hir_driver : DriverDecl → HirDecl
  hir_import : ImportDecl → HirDecl
  hir_extern : ExternDecl → HirDecl
  hir_stmt : Stmt → HirDecl

pub record HirProgram : Type 0 where
  pub decls : List HirDecl

unfoldable pub lower_decl : Decl → HirDecl
lower_decl (fn_decl f) = hir_fn f
lower_decl (of_class c) = hir_class c
lower_decl (interface_decl i) = hir_interface i
lower_decl (object_decl o) = hir_object o
lower_decl (driver_decl v) = hir_driver v
lower_decl (import_decl i) = hir_import i
lower_decl (extern_decl e) = hir_extern e
lower_decl (stmt_decl s) = hir_stmt s

unfoldable pub lower : Program → HirProgram
lower prog = record { decls = map lower_decl prog.decls }
