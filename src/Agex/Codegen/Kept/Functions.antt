-- ===== src/Agex/Codegen/Kept/Functions.antt =====
-- What functions and methods keep.
use zeroxos_os.Base.{Bool, true, false, Option, none, some, List, [], ◌∷◌, refl, if◌then◌else◌}
use zeroxos_os.Agex.Ast.{Text, Expr, Stmts, FnDecl}
use zeroxos_os.Agex.Codegen.{Generator, emit, indented, dedented, block}
use zeroxos_os.Agex.Codegen.Functions.{
  gen_expr_body, gen_stmts_body, gen_body, gen_extension, set_fields, gen_method_fn, gen_plain_fn,
  gen_fn_by, gen_fn_inner, gen_methods, open_fn, qualifier, with_self, self_param,
}
use zeroxos_os.Agex.Codegen.Kept.{
  Kept, Kept-refl, Kept-trans, emit-Kept, indented-Kept, block-Kept, gen_stmts-Kept,
}

pub gen_expr_body-Kept : (e : Option Expr) (g : Generator) → Kept g (gen_expr_body e g)
unfolding gen_expr_body
gen_expr_body-Kept none g = Kept-refl g
gen_expr_body-Kept (some e) g = emit-Kept _ g

gen_stmts_body-Kept : (body : Option Stmts) (g : Generator) → Kept g (gen_stmts_body body g)
unfolding gen_stmts_body
gen_stmts_body-Kept none g = Kept-refl g
gen_stmts_body-Kept (some body) g = gen_stmts-Kept body g

pub gen_body-Kept : (f : FnDecl) (g : Generator) → Kept g (gen_body f g)
unfolding gen_body
gen_body-Kept f g =
    Kept-trans g (gen_expr_body f.expr_body g) _ (gen_expr_body-Kept f.expr_body g)
      (gen_stmts_body-Kept f.body (gen_expr_body f.expr_body g))

-- The scope of a method is closed behind it.
set_fields-Kept :
    (fields : List Text) (g h : Generator) → Kept (set_fields fields g) h → Kept g (set_fields [] h)
unfolding Kept set_fields
set_fields-Kept fields g h (i, w, f, o, c) = (i, w, λ e. refl, o, c)

cleared-Kept : (g h : Generator) → Kept g h → Kept g (set_fields [] h)
unfolding Kept set_fields
cleared-Kept g h (i, w, f, o, c) = (i, w, λ e. refl, o, c)

gen_extension-Kept : (recv : Text) (f : FnDecl) (g : Generator) → Kept g (gen_extension recv f g)
unfolding gen_extension
gen_extension-Kept recv f g =
    block-Kept _ (block _ (gen_body f) _) _ (block-Kept _ (gen_body f) _ (gen_body-Kept f)) g

gen_method_fn-Kept :
    (f : FnDecl) (fields : List Text) (g : Generator)
    → Kept g (set_fields [] (gen_method_fn f fields g))
unfolding gen_method_fn
gen_method_fn-Kept f fields g =
    let g1 = emit (open_fn (qualifier f) f (with_self (self_param f) (self_param f) f.params)) g in
    let g2 = set_fields fields g1 in
    let g3 = dedented (gen_body f (indented g2)) in
    Kept-trans g g1 _ (emit-Kept _ g) (
      set_fields-Kept fields g1 _
        (Kept-trans g2 g3 _ (indented-Kept g2 _ (gen_body-Kept f (indented g2))) (emit-Kept _ g3)))

gen_fn_by-Kept :
    (recv : Option Text) (f : FnDecl) (is_method : Bool) (fields : List Text) (g : Generator)
    → Kept g (
        if is_method
        then set_fields [] (gen_fn_by recv f is_method fields g)
        else gen_fn_by recv f is_method fields g)
unfolding gen_fn_by gen_plain_fn
gen_fn_by-Kept (some recv) f true fields g = cleared-Kept g _ (gen_extension-Kept recv f g)
gen_fn_by-Kept (some recv) f false fields g = gen_extension-Kept recv f g
gen_fn_by-Kept none f true fields g = gen_method_fn-Kept f fields g
gen_fn_by-Kept none f false fields g = block-Kept _ (gen_body f) _ (gen_body-Kept f) g

pub gen_fn_inner-Kept :
    (f : FnDecl) (is_method : Bool) (fields : List Text) (g : Generator)
    → Kept g (gen_fn_inner f is_method fields g)
unfolding gen_fn_inner
gen_fn_inner-Kept f is_method fields g = gen_fn_by-Kept f.receiver f is_method fields g

pub gen_methods-Kept :
    (ms : List FnDecl) (fields : List Text) (g : Generator) → Kept g (gen_methods ms fields g)
unfolding gen_methods
gen_methods-Kept [] fields g = Kept-refl g
gen_methods-Kept (m ∷ ms) fields g =
    Kept-trans g (gen_fn_inner m true fields g) _ (gen_fn_inner-Kept m true fields g)
      (gen_methods-Kept ms fields (gen_fn_inner m true fields g))
