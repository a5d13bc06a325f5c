-- ===== src/Agex/Codegen/Kept.antt =====
-- What the code generator leaves as it was: the rules, and statements.
pub mod Functions
pub mod Classes
pub mod Program
use mathlib.Core.List.{append-nil, append_assoc}
use zeroxos_os.Base.{
  ℕ, ◌+◌, ◌-◌, Bool, true, false, Option, none, some, List, [], ◌∷◌, ◌++◌, ◌≡◌, refl, sym, ◌∙◌, ap,
  arith, if◌then◌else◌,
}
use zeroxos_os.Agex.Token.{codes}
use zeroxos_os.Agex.Ast.{
  Text, TypeNode, Expr, Exprs, no_exprs, more_exprs, AssignOp, Stmt, let_stmt, const_stmt, var_stmt,
  assign_stmt, return_stmt, if_stmt, for_stmt, match_stmt, print_stmt, unsafe_stmt, expr_stmt,
  Stmts, no_stmts, more_stmts, Else, no_else, some_else, MatchCases, no_cases, more_cases,
}
use zeroxos_os.Agex.Codegen.{Generator, Sealed, emit, indented, dedented, block, line_of}
use zeroxos_os.Agex.Codegen.Exprs.{gen_expr, not_strings, gen_exprs}
use zeroxos_os.Agex.Codegen.Stmts.{
  format_case, gen_binding, gen_const, gen_print, gen_rest, has_rest, gen_stmt, gen_stmts, gen_else,
  gen_cases,
}

-- The indentation and the warnings are as before, no method's scope is left behind where none was
-- there, and the output and the sealed classes are only added to.
unfoldable pub Kept : Generator → Generator → Type 0
Kept g g' =
    (g'.indent ≡ g.indent)
    × (g'.warnings ≡ g.warnings)
    × (g.in_method_fields ≡ [] → g'.in_method_fields ≡ [])
    × ((t : Text) × g'.out ≡ g.out ++ t)
    × ((s : Sealed) × g'.sealed_classes ≡ g.sealed_classes ++ s)

pub Kept-refl : (g : Generator) → Kept g g
unfolding Kept
Kept-refl g =
    (refl, refl, λ e. e, ([], sym (append-nil g.out)), ([], sym (append-nil g.sealed_classes)))

pub Kept-trans : (g h k : Generator) → Kept g h → Kept h k → Kept g k
unfolding Kept
Kept-trans g h k (i, w, f, (t, o), (s, c)) (i', w', f', (t', o'), (s', c')) = (
  i' ∙ i,
  w' ∙ w,
  λ e. f' (f e),
  (t ++ t', o' ∙ (ap (λ x. x ++ t') o ∙ append_assoc g.out t t')),
  (s ++ s', c' ∙ (ap (λ x. x ++ s') c ∙ append_assoc g.sealed_classes s s')),
)

pub emit-Kept : (line : Text) (g : Generator) → Kept g (emit line g)
unfolding Kept emit
emit-Kept line g =
    (refl, refl, λ e. e, (line_of g.indent line, refl), ([], sym (append-nil g.sealed_classes)))

-- What is kept one step further in is kept a step back.
pub indented-Kept : (g h : Generator) → Kept (indented g) h → Kept g (dedented h)
unfolding Kept indented dedented
indented-Kept g h (i, w, f, o, c) = (omega (arith, i), w, f, o, c)

-- Lines around what keeps the state, one step further in.
pub block-Kept :
    (first : Text) (body : Generator → Generator) (last : Text)
    → ((g : Generator) → Kept g (body g))
    → (g : Generator) → Kept g (block first body last g)
block-Kept first body last h g =
    let g1 = emit first g in
    let g2 = dedented (body (indented g1)) in
    Kept-trans g g2 (emit last g2)
      (Kept-trans g g1 g2 (emit-Kept first g)
        (indented-Kept g1 (body (indented g1)) (h (indented g1))))
      (emit-Kept last g2)

pub if-Kept : (c : Bool) (g h k : Generator) → Kept g h → Kept g k → Kept g (if c then h else k)
if-Kept true g h k a b = a
if-Kept false g h k a b = b

gen_binding-Kept :
    (keyword name : Text) (ty : TypeNode) (init : Option Expr) (g : Generator)
    → Kept g (gen_binding keyword name ty init g)
unfolding gen_binding
gen_binding-Kept keyword name ty none g = emit-Kept _ g
gen_binding-Kept keyword name ty (some e) g = if-Kept _ g _ _ (emit-Kept _ g) (emit-Kept _ g)

gen_const-Kept :
    (name : Text) (ty : TypeNode) (init : Option Expr) (g : Generator)
    → Kept g (gen_const name ty init g)
unfolding gen_const
gen_const-Kept name ty init g = if-Kept _ g _ _ (emit-Kept _ g) (emit-Kept _ g)

gen_print-Kept : (args : Exprs) (g : Generator) → Kept g (gen_print args g)
unfolding gen_print
gen_print-Kept no_exprs g = emit-Kept _ g
gen_print-Kept (more_exprs e es) g = emit-Kept _ g

gen_rest-Kept : (cases : MatchCases) (g : Generator) → Kept g (gen_rest cases g)
unfolding gen_rest
gen_rest-Kept cases g = if-Kept _ g _ _ (Kept-refl g) (emit-Kept _ g)

mutual
  unfolding gen_stmt gen_stmts gen_else gen_cases

  pub gen_stmt-Kept : (s : Stmt) (g : Generator) → Kept g (gen_stmt s g)
  gen_stmt-Kept (let_stmt name ty init) g = gen_binding-Kept _ name ty init g
  gen_stmt-Kept (const_stmt name ty init) g = gen_const-Kept name ty init g
  gen_stmt-Kept (var_stmt name ty init) g = gen_binding-Kept _ name ty init g
  gen_stmt-Kept (assign_stmt target op value) g = emit-Kept _ g
  gen_stmt-Kept (return_stmt (some v)) g = emit-Kept _ g
  gen_stmt-Kept (return_stmt none) g = emit-Kept _ g
  gen_stmt-Kept (if_stmt cond then' els) g =
      let g1 = emit (codes "if " ++ gen_expr g cond ++ codes " {") g in
      let g2 = dedented (gen_stmts then' (indented g1)) in
      Kept-trans g g2 _
        (Kept-trans g g1 g2 (emit-Kept _ g)
          (indented-Kept g1 _ (gen_stmts-Kept then' (indented g1))))
        (Kept-trans g2 (gen_else els g2) _ (gen_else-Kept els g2) (emit-Kept _ (gen_else els g2)))
  gen_stmt-Kept (for_stmt var iter body) g = block-Kept _ (gen_stmts body) _ (gen_stmts-Kept body) g
  gen_stmt-Kept (match_stmt e cases) g =
      block-Kept _ (λ g'. gen_rest cases (gen_cases cases g')) _
        (λ g'.
          Kept-trans g' (gen_cases cases g') _ (gen_cases-Kept cases g')
            (gen_rest-Kept cases (gen_cases cases g')))
        g
  gen_stmt-Kept (print_stmt args) g = gen_print-Kept args g
  gen_stmt-Kept (unsafe_stmt body) g = block-Kept _ (gen_stmts body) _ (gen_stmts-Kept body) g
  gen_stmt-Kept (expr_stmt e) g = emit-Kept _ g

  pub gen_stmts-Kept : (ss : Stmts) (g : Generator) → Kept g (gen_stmts ss g)
  gen_stmts-Kept no_stmts g = Kept-refl g
  gen_stmts-Kept (more_stmts s ss) g =
      Kept-trans g (gen_stmt s g) _ (gen_stmt-Kept s g) (gen_stmts-Kept ss (gen_stmt s g))

  pub gen_else-Kept : (els : Else) (g : Generator) → Kept g (gen_else els g)
  gen_else-Kept no_else g = Kept-refl g
  gen_else-Kept (some_else els) g =
      let g1 = emit (codes "} else {") g in
      Kept-trans g g1 _ (emit-Kept _ g) (indented-Kept g1 _ (gen_stmts-Kept els (indented g1)))

  pub gen_cases-Kept : (cases : MatchCases) (g : Generator) → Kept g (gen_cases cases g)
  gen_cases-Kept no_cases g = Kept-refl g
  gen_cases-Kept (more_cases pattern bindings body cases) g =
      let g1 =
        block (format_case pattern bindings ++ codes " => {") (gen_stmts body) (codes "}") g in
      Kept-trans g g1 _ (block-Kept _ (gen_stmts body) _ (gen_stmts-Kept body) g)
        (gen_cases-Kept cases g1)
