-- ===== src/Agex/Codegen/Kept/Program.antt =====
-- What the other declarations and whole programs keep.
use zeroxos_os.Base.{false, Option, none, some, List, [], ◌∷◌, ◌++◌}
use zeroxos_os.Agex.Token.{codes}
use zeroxos_os.Agex.Ast.{Text, Stmt, Stmts, FnDecl, ExternFn, ObjectDecl, DriverDecl, ImportDecl}
use zeroxos_os.Agex.Hir.{
  HirDecl, hir_fn, hir_class, hir_interface, hir_object, hir_driver, hir_import, hir_extern,
  hir_stmt, HirProgram,
}
use zeroxos_os.Agex.Codegen.{Generator, emit, block}
use zeroxos_os.Agex.Codegen.Stmts.{gen_stmt}
use zeroxos_os.Agex.Codegen.Functions.{gen_body, gen_fn, gen_expr_body}
use zeroxos_os.Agex.Codegen.Program.{
  gen_import, gen_extern_fns, gen_extern, gen_trait_fn, gen_trait_fns, gen_interface,
  gen_object_fns, gen_instance, gen_object, gen_setup, gen_driver_fns, gen_driver, gen_decl,
  top_stmts, gen_decls, gen_list, gen_main, gen_prelude, gen_program,
}
use zeroxos_os.Agex.Codegen.Kept.{
  Kept, Kept-refl, emit-Kept, block-Kept, if-Kept, gen_stmt-Kept, gen_stmts-Kept,
}
use zeroxos_os.Agex.Codegen.Kept.Functions.{gen_expr_body-Kept, gen_body-Kept, gen_fn_inner-Kept}
use zeroxos_os.Agex.Codegen.Kept.Classes.{then-Kept, gen_class-Kept}

gen_import-Kept : (i : ImportDecl) (g : Generator) → Kept g (gen_import i g)
unfolding gen_import
gen_import-Kept i g =
    let g1 = emit (codes "// import " ++ i.imported) g in
    if-Kept _ g _ _ (then-Kept (emit _) (emit _) (emit-Kept _) (emit-Kept _) g) (emit-Kept _ g)

gen_extern_fns-Kept : (fs : List ExternFn) (g : Generator) → Kept g (gen_extern_fns fs g)
unfolding gen_extern_fns
gen_extern_fns-Kept [] g = Kept-refl g
gen_extern_fns-Kept (f ∷ fs) g =
    then-Kept (emit _) (gen_extern_fns fs) (emit-Kept _) (gen_extern_fns-Kept fs) g

gen_trait_fn-Kept : (m : FnDecl) (g : Generator) → Kept g (gen_trait_fn m g)
unfolding gen_trait_fn
gen_trait_fn-Kept m g =
    if-Kept _ g _ _ (block-Kept _ (gen_body m) _ (gen_body-Kept m) g) (emit-Kept _ g)

gen_trait_fns-Kept : (ms : List FnDecl) (g : Generator) → Kept g (gen_trait_fns ms g)
unfolding gen_trait_fns
gen_trait_fns-Kept [] g = Kept-refl g
gen_trait_fns-Kept (m ∷ ms) g =
    then-Kept (gen_trait_fn m) (gen_trait_fns ms) (gen_trait_fn-Kept m) (gen_trait_fns-Kept ms) g

gen_object_fns-Kept : (ms : List FnDecl) (g : Generator) → Kept g (gen_object_fns ms g)
unfolding gen_object_fns
gen_object_fns-Kept [] g = Kept-refl g
gen_object_fns-Kept (m ∷ ms) g =
    then-Kept (block _ (gen_body m) _) (gen_object_fns ms)
      (block-Kept _ (gen_body m) _ (gen_body-Kept m)) (gen_object_fns-Kept ms) g

gen_instance-Kept : (name : Text) (g : Generator) → Kept g (gen_instance name g)
unfolding gen_instance
gen_instance-Kept name =
    block-Kept _ (λ g. emit _ (emit _ (emit _ g))) _
      (then-Kept (λ g. emit _ (emit _ g)) (emit _)
        (then-Kept (emit _) (emit _) (emit-Kept _) (emit-Kept _)) (emit-Kept _))

gen_object-Kept : (o : ObjectDecl) (g : Generator) → Kept g (gen_object o g)
unfolding gen_object
gen_object-Kept o =
    then-Kept (emit _) (block _ (λ g. gen_object_fns o.members (gen_instance o.name g)) _)
      (emit-Kept _)
      (block-Kept _ (λ g. gen_object_fns o.members (gen_instance o.name g)) _
        (then-Kept (gen_instance o.name) (gen_object_fns o.members) (gen_instance-Kept o.name)
          (gen_object_fns-Kept o.members)))

gen_setup-Kept : (body : Option Stmts) (g : Generator) → Kept g (gen_setup body g)
unfolding gen_setup
gen_setup-Kept none g = emit-Kept _ g
gen_setup-Kept (some body) g = gen_stmts-Kept body g

gen_driver_fns-Kept : (ms : List FnDecl) (g : Generator) → Kept g (gen_driver_fns ms g)
unfolding gen_driver_fns
gen_driver_fns-Kept [] g = Kept-refl g
gen_driver_fns-Kept (m ∷ ms) g =
    then-Kept (block _ (λ g'. gen_setup m.body (gen_expr_body m.expr_body g')) _)
      (gen_driver_fns ms)
      (block-Kept _ (λ g'. gen_setup m.body (gen_expr_body m.expr_body g')) _
        (then-Kept (gen_expr_body m.expr_body) (gen_setup m.body) (gen_expr_body-Kept m.expr_body)
          (gen_setup-Kept m.body)))
      (gen_driver_fns-Kept ms) g

gen_driver-Kept : (v : DriverDecl) (g : Generator) → Kept g (gen_driver v g)
unfolding gen_driver
gen_driver-Kept v =
    then-Kept (emit _) (block _ (gen_driver_fns v.members) _) (emit-Kept _)
      (block-Kept _ (gen_driver_fns v.members) _ (gen_driver_fns-Kept v.members))

gen_decl-Kept : (d : HirDecl) (g : Generator) → Kept g (gen_decl d g)
unfolding gen_decl gen_extern gen_interface gen_fn
gen_decl-Kept (hir_import i) g = gen_import-Kept i g
gen_decl-Kept (hir_extern e) g = block-Kept _ (gen_extern_fns e.fns) _ (gen_extern_fns-Kept e.fns) g
gen_decl-Kept (hir_fn f) g = gen_fn_inner-Kept f false [] g
gen_decl-Kept (hir_class c) g = gen_class-Kept c g
gen_decl-Kept (hir_interface i) g =
    block-Kept _ (gen_trait_fns i.methods) _ (gen_trait_fns-Kept i.methods) g
gen_decl-Kept (hir_object o) g = gen_object-Kept o g
gen_decl-Kept (hir_driver v) g = gen_driver-Kept v g
gen_decl-Kept (hir_stmt s) g = Kept-refl g

-- A declaration, the empty line behind it, and the other declarations.
decl_line-Kept :
    (d : HirDecl) (rest : Generator → Generator)
    → ((g : Generator) → Kept g (rest g))
    → (g : Generator) → Kept g (rest (emit [] (gen_decl d g)))
decl_line-Kept d rest h =
    then-Kept (λ g. emit [] (gen_decl d g)) rest
      (then-Kept (gen_decl d) (emit []) (gen_decl-Kept d) (emit-Kept [])) h

gen_decls-Kept : (ds : List HirDecl) (g : Generator) → Kept g (gen_decls ds g)
unfolding gen_decls
gen_decls-Kept [] g = Kept-refl g
gen_decls-Kept (hir_stmt s ∷ ds) g = gen_decls-Kept ds g
gen_decls-Kept (d ∷ ds) g = decl_line-Kept d (gen_decls ds) (gen_decls-Kept ds) g

gen_list-Kept : (ss : List Stmt) (g : Generator) → Kept g (gen_list ss g)
unfolding gen_list
gen_list-Kept [] g = Kept-refl g
gen_list-Kept (s ∷ ss) g =
    then-Kept (gen_stmt s) (gen_list ss) (gen_stmt-Kept s) (gen_list-Kept ss) g

gen_main-Kept : (ss : List Stmt) (g : Generator) → Kept g (gen_main ss g)
unfolding gen_main
gen_main-Kept [] g = Kept-refl g
gen_main-Kept (s ∷ ss) g = block-Kept _ (gen_list (s ∷ ss)) _ (gen_list-Kept (s ∷ ss)) g

gen_prelude-Kept : (g : Generator) → Kept g (gen_prelude g)
unfolding gen_prelude
gen_prelude-Kept =
    then-Kept (λ g. emit _ (emit _ (emit _ (emit _ g)))) (emit _)
      (then-Kept (λ g. emit _ (emit _ (emit _ g))) (emit _)
        (then-Kept (λ g. emit _ (emit _ g)) (emit _)
          (then-Kept (emit _) (emit _) (emit-Kept _) (emit-Kept _)) (emit-Kept _))
        (emit-Kept _))
      (emit-Kept _)

-- From any state, the code generator, run on any program, comes back to the indentation at which
-- it started, leaves no scope of a method open if none was open before, gives no warning, and only
-- appends to the output and to the sealed classes.
pub gen_program-Kept : (prog : HirProgram) (g : Generator) → Kept g (gen_program prog g)
unfolding gen_program
gen_program-Kept prog =
    then-Kept (λ g. gen_decls prog.decls (gen_prelude g)) (gen_main (top_stmts prog.decls))
      (then-Kept gen_prelude (gen_decls prog.decls) gen_prelude-Kept (gen_decls-Kept prog.decls))
      (gen_main-Kept (top_stmts prog.decls))
