-- ===== src/Agex/Codegen/Tests.antt =====
-- The code generator on small programs.
use zeroxos_os.Base.{false, none, some, [], ◌∷◌, ◌≡◌, refl}
use zeroxos_os.Agex.Token.{codes, same_text}
use zeroxos_os.Agex.Ast.{
  Stmt, if_stmt, assign_stmt, plus_eq_op, ident_expr, int_expr, more_stmts, no_stmts, some_else,
  return_stmt, infer, named, FnDecl, class_decl, no_classes,
}
use zeroxos_os.Agex.Hir.{HirProgram, hir_class, hir_stmt}
use zeroxos_os.Agex.Codegen.{new, emit, dedented, indented, line_of, indentation}
use zeroxos_os.Agex.Codegen.Stmts.{gen_stmt, op_str}
use zeroxos_os.Agex.Codegen.Exprs.{gen_expr, gen_ident, has_text}
use zeroxos_os.Agex.Codegen.Program.{gen_program, transpile}
use zeroxos_os.Agex.Codegen.Kept.{Kept}
use zeroxos_os.Agex.Codegen.Kept.Program.{gen_program-Kept}
use zeroxos_os.Agex.Codegen.Answers.{IsQuiet, transpile-IsQuiet}

transpile-IsQuiet_example : IsQuiet (transpile (codes "class C(x: int) { fn up() { x += 1 } }"))
transpile-IsQuiet_example = transpile-IsQuiet (codes "class C(x: int) { fn up() { x += 1 } }")

abbrev step : Stmt
step =
    if_stmt (ident_expr (codes "on"))
      (more_stmts (assign_stmt (ident_expr (codes "x")) plus_eq_op (int_expr (codes "1"))) no_stmts)
      (some_else (more_stmts (return_stmt none) no_stmts))

abbrev step_fn : FnDecl
step_fn = record {
  name = codes "up";
  params = [];
  return_type = infer;
  body = some (more_stmts step no_stmts);
  expr_body = none;
  is_async = false;
  is_unsafe = false;
  receiver = none;
}

abbrev counter : HirProgram
counter = record {
  decls =
      hir_class (
        class_decl (codes "C") false false
          (record {
            name = codes "x";
            ty = named (codes "int") false;
            mutable = false;
            default = none;
          }
            ∷ [])
          [] (step_fn ∷ []) no_classes)
      ∷ hir_stmt (return_stmt none)
      ∷ [];
}

gen_program-Kept_example : Kept new (gen_program counter new)
gen_program-Kept_example = gen_program-Kept counter new

-- The lines of a statement in a method.
step_lines :
    (gen_stmt step (record new { in_method_fields = codes "x" ∷ [] })).out
    ≡ codes "if on {\n    self.x += 1;\n} else {\n    return;\n}\n"
unfolding gen_stmt emit dedented indented new line_of indentation gen_expr gen_ident has_text
    same_text op_str
step_lines = refl
