-- ===== src/Agex/Codegen/Stmts.antt =====
-- Statements of the source as lines of Rust.
use zeroxos_os.Base.{
  Bool, true, false, ◌==◌, ◌||◌, Option, none, some, List, [], ◌∷◌, ◌++◌, if◌then◌else◌,
}
use zeroxos_os.Agex.Token.{codes, same_text}
use zeroxos_os.Agex.Ast.{
  Text, TypeNode, Expr, Exprs, string_expr, ident_expr, call, no_exprs, more_exprs, AssignOp,
  assign_op, plus_eq_op, minus_eq_op, star_eq_op, slash_eq_op, Stmt, let_stmt, const_stmt, var_stmt,
  assign_stmt, return_stmt, if_stmt, for_stmt, match_stmt, print_stmt, unsafe_stmt, expr_stmt,
  Stmts, no_stmts, more_stmts, Else, no_else, some_else, MatchCases, no_cases, more_cases,
}
use zeroxos_os.Agex.Codegen.{Generator, emit, indented, dedented, block, join}
use zeroxos_os.Agex.Codegen.Types.{gen_type, is_infer}
use zeroxos_os.Agex.Codegen.Exprs.{gen_expr, gen_exprs, quoted, first_or_zero, not_strings}

-- `let` and `var`, which differ in the keyword.
unfoldable pub gen_binding : Text → Text → TypeNode → Option Expr → Generator → Generator
gen_binding keyword name ty (some init) g =
    if is_infer ty
    then emit (keyword ++ name ++ codes " = " ++ gen_expr g init ++ codes ";") g
    else emit
        (keyword
          ++ name
          ++ codes ": "
          ++ gen_type ty
          ++ codes " = "
          ++ gen_expr g init
          ++ codes ";")
        g
gen_binding keyword name ty none g =
    emit (keyword ++ name ++ codes ": " ++ gen_type ty ++ codes ";") g

unfoldable pub init_text : Generator → Option Expr → Text
init_text g none = []
init_text g (some e) = gen_expr g e

unfoldable pub gen_const : Text → TypeNode → Option Expr → Generator → Generator
gen_const name ty init g =
    if is_infer ty
    then emit (codes "let " ++ name ++ codes ": _ = " ++ init_text g init ++ codes ";") g
    else emit
        (codes "const "
          ++ name
          ++ codes ": "
          ++ gen_type ty
          ++ codes " = "
          ++ init_text g init
          ++ codes ";")
        g

unfoldable pub op_str : AssignOp → Text
op_str assign_op = codes "="
op_str plus_eq_op = codes "+="
op_str minus_eq_op = codes "-="
op_str star_eq_op = codes "*="
op_str slash_eq_op = codes "/="

-- The loop over the arguments of `print`: a blank before each but the first.
unfoldable pub print_format : Bool → Exprs → Text
print_format first no_exprs = []
print_format first (more_exprs (string_expr v) es) =
    (if first then [] else codes " ") ++ v ++ print_format false es
print_format first (more_exprs e es) =
    (if first then [] else codes " ") ++ codes "{}" ++ print_format false es

-- The format with what stands for its placeholders.
unfoldable pub print_line : Text → List Text → Text
print_line fmt [] = codes "println!(" ++ quoted fmt ++ codes ");"
print_line fmt (t ∷ ts) =
    codes "println!(" ++ quoted fmt ++ codes ", " ++ join (codes ", ") (t ∷ ts) ++ codes ");"

unfoldable pub gen_print : Exprs → Generator → Generator
gen_print no_exprs g = emit (codes "println!();") g
gen_print args g =
    emit (print_line (print_format true args) (not_strings args (gen_exprs g args))) g

unfoldable pub for_head : Generator → Text → Expr → Text
for_head g var (call (ident_expr name) args) =
    if same_text name (codes "range")
    then codes "for " ++ var ++ codes " in 0.." ++ first_or_zero (gen_exprs g args) ++ codes " {"
    else codes "for "
      ++ var
      ++ codes " in "
      ++ gen_expr g (call (ident_expr name) args)
      ++ codes " {"
for_head g var iter = codes "for " ++ var ++ codes " in " ++ gen_expr g iter ++ codes " {"

-- `splitn(2, '.')`, where there is a dot.
unfoldable pub split_dot : Text → Option (Text × Text)
split_dot [] = none
split_dot (c ∷ cs) =
    let later = split_dot cs in
    if c == b'.' then some ([], cs) else elim later [ none ↦ none | some (a, b) ↦ some (c ∷ a, b) ]

-- A single binding in parentheses, or `..`.
unfoldable pub result_case : Text → List Text → Text
result_case pattern (b ∷ []) = pattern ++ codes "(" ++ b ++ codes ")"
result_case pattern bindings = pattern ++ codes "(..)"

unfoldable pub variant_case : Text → Text → List Text → Text
variant_case class variant [] = class ++ codes "::" ++ variant ++ codes " { .. }"
variant_case class variant (b ∷ bs) =
    class ++ codes "::" ++ variant ++ codes " { " ++ join (codes ", ") (b ∷ bs) ++ codes " }"

unfoldable pub format_case : Text → List Text → Text
format_case pattern bindings =
    if same_text pattern (codes "_")
    then codes "_"
    else if same_text pattern (codes "Ok") || same_text pattern (codes "Err")
    then result_case pattern bindings
    else elim (split_dot pattern) [
      | some (class, variant) ↦ variant_case class variant bindings
      | none ↦ pattern
    ]

-- Some case has the pattern `_`.
unfoldable pub has_rest : MatchCases → Bool
has_rest no_cases = false
has_rest (more_cases pattern bindings body cases) = same_text pattern (codes "_") || has_rest cases

unfoldable pub gen_rest : MatchCases → Generator → Generator
gen_rest cases g = if has_rest cases then g else emit (codes "_ => {}") g

unfoldable mutual
  pub gen_stmt : Stmt → Generator → Generator
  gen_stmt (let_stmt name ty init) g = gen_binding (codes "let ") name ty init g
  gen_stmt (const_stmt name ty init) g = gen_const name ty init g
  gen_stmt (var_stmt name ty init) g = gen_binding (codes "let mut ") name ty init g
  gen_stmt (assign_stmt target op value) g =
      emit
        (gen_expr g target ++ codes " " ++ op_str op ++ codes " " ++ gen_expr g value ++ codes ";")
        g
  gen_stmt (return_stmt (some v)) g = emit (codes "return " ++ gen_expr g v ++ codes ";") g
  gen_stmt (return_stmt none) g = emit (codes "return;") g
  gen_stmt (if_stmt cond then' els) g =
      let g1 = emit (codes "if " ++ gen_expr g cond ++ codes " {") g in
      emit (codes "}") (gen_else els (dedented (gen_stmts then' (indented g1))))
  gen_stmt (for_stmt var iter body) g = block (for_head g var iter) (gen_stmts body) (codes "}") g
  gen_stmt (match_stmt e cases) g =
      block (codes "match " ++ gen_expr g e ++ codes " {")
        (λ g'. gen_rest cases (gen_cases cases g')) (codes "}") g
  gen_stmt (print_stmt args) g = gen_print args g
  gen_stmt (unsafe_stmt body) g = block (codes "unsafe {") (gen_stmts body) (codes "}") g
  gen_stmt (expr_stmt e) g = emit (gen_expr g e ++ codes ";") g

  pub gen_stmts : Stmts → Generator → Generator
  gen_stmts no_stmts g = g
  gen_stmts (more_stmts s ss) g = gen_stmts ss (gen_stmt s g)

  pub gen_else : Else → Generator → Generator
  gen_else no_else g = g
  gen_else (some_else els) g = dedented (gen_stmts els (indented (emit (codes "} else {") g)))

  pub gen_cases : MatchCases → Generator → Generator
  gen_cases no_cases g = g
  gen_cases (more_cases pattern bindings body cases) g =
      gen_cases cases
        (block (format_case pattern bindings ++ codes " => {") (gen_stmts body) (codes "}") g)
