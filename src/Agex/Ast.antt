-- ===== src/Agex/Ast.antt =====
-- The syntax trees of crates/agex/src/ast.rs. A text is the list of its code points. The lists and
-- options of a type inside itself are types of their own.
use zeroxos_os.Base.{ℕ, Bool, false, Option, List}

abbrev pub Text : Type 0
Text = List ℕ

mutual
  pub data TypeNode : Type 0 where
    infer_type : Bool → TypeNode
    named : Text → Bool → TypeNode
    generic : Text → TypeNodes → Bool → TypeNode
    pointer : TypeNode → Bool → TypeNode

  pub data TypeNodes : Type 0 where
    no_types : TypeNodes
    more_types : TypeNode → TypeNodes → TypeNodes

abbrev pub infer : TypeNode
infer = infer_type false

mutual
  pub data Expr : Type 0 where
    int_expr float_expr string_expr : Text → Expr
    bool_expr : Bool → Expr
    null_expr this_expr : Expr
    ident_expr : Text → Expr
    binary : Text → Expr → Expr → Expr
    unary : Text → Expr → Expr
    call : Expr → Exprs → Expr
    method : Expr → Text → Exprs → Expr
    field : Expr → Text → Expr
    safe_call : Expr → Text → Exprs → Expr
    elvis : Expr → Expr → Expr
    new_expr : Text → Exprs → Expr
    cast : Expr → Text → Expr

  pub data Exprs : Type 0 where
    no_exprs : Exprs
    more_exprs : Expr → Exprs → Exprs

pub data AssignOp : Type 0 where
  assign_op plus_eq_op minus_eq_op star_eq_op slash_eq_op : AssignOp

mutual
  pub data Stmt : Type 0 where
    let_stmt const_stmt var_stmt : Text → TypeNode → Option Expr → Stmt
    assign_stmt : Expr → AssignOp → Expr → Stmt
    return_stmt : Option Expr → Stmt
    if_stmt : Expr → Stmts → Else → Stmt
    for_stmt : Text → Expr → Stmts → Stmt
    match_stmt : Expr → MatchCases → Stmt
    print_stmt : Exprs → Stmt
    unsafe_stmt : Stmts → Stmt
    expr_stmt : Expr → Stmt

  pub data Stmts : Type 0 where
    no_stmts : Stmts
    more_stmts : Stmt → Stmts → Stmts

  -- `Option<Vec<Stmt>>`
  pub data Else : Type 0 where
    no_else : Else
    some_else : Stmts → Else

  -- The pattern, the bindings and the body of each case.
  pub data MatchCases : Type 0 where
    no_cases : MatchCases
    more_cases : Text → List Text → Stmts → MatchCases → MatchCases

pub record Param : Type 0 where
  pub name : Text
  pub ty : TypeNode
  pub mutable : Bool
  pub default : Option Expr

pub record FnDecl : Type 0 where
  pub name : Text
  pub params : List Param
  pub return_type : TypeNode
  pub body : Option Stmts
  pub expr_body : Option Expr
  pub is_async : Bool
  pub is_unsafe : Bool
  pub receiver : Option Text

-- `class_decl name is_data is_sealed params bases members subclasses`
mutual
  pub data ClassDecl : Type 0 where
    class_decl : Text → Bool → Bool → List Param → List Text → List FnDecl → ClassDecls → ClassDecl

  pub data ClassDecls : Type 0 where
    no_classes : ClassDecls
    more_classes : ClassDecl → ClassDecls → ClassDecls

pub record InterfaceDecl : Type 0 where
  pub name : Text
  pub methods : List FnDecl

pub record ObjectDecl : Type 0 where
  pub name : Text
  pub members : List FnDecl

pub record DriverDecl : Type 0 where
  pub name : Text
  pub implements : Text
  pub members : List FnDecl

pub record ImportDecl : Type 0 where
  pub imported : Text

pub record ExternFn : Type 0 where
  pub name : Text
  pub params : List Param
  pub return_type : TypeNode

pub record ExternDecl : Type 0 where
  pub abi : Text
  pub fns : List ExternFn

pub data Decl : Type 0 where
  fn_decl : FnDecl → Decl
  of_class : ClassDecl → Decl
  interface_decl : InterfaceDecl → Decl
  object_decl : ObjectDecl → Decl
  driver_decl : DriverDecl → Decl
  import_decl : ImportDecl → Decl
  extern_decl : ExternDecl → Decl
  stmt_decl : Stmt → Decl

pub record Program : Type 0 where
  pub decls : List Decl
