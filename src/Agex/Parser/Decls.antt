-- ===== src/Agex/Parser/Decls.antt =====
-- The parsers of declarations, and of a program.
use zeroxos_os.Base.{
  ℕ, zero, suc, Bool, true, false, ◌&&◌, ◌||◌, Option, none, some, is_some, List, [], ◌∷◌,
  if◌then◌else◌,
}
use zeroxos_os.Agex.Token.{
  TokenType, Token, codes, ident, dot, comma, colon, semicolon, assign, fat_arrow, arrow, l_paren,
  r_paren, l_brace, r_brace, eof, string_literal, fn_word, class_word, data_word, sealed_word,
  interface_word, object_word, driver_word, async_word, unsafe_word, extern_word, import_word,
  interrupt_word,
}
use zeroxos_os.Agex.Token.Equality.{same_type}
use zeroxos_os.Agex.Lexer.{Lexed, tokens, tokenize}
use zeroxos_os.Agex.Lexer
use zeroxos_os.Agex.Ast.{
  Text, Expr, Stmts, Stmt, unsafe_stmt, Param, FnDecl, ClassDecl, ClassDecls, class_decl,
  no_classes, more_classes, InterfaceDecl, ObjectDecl, DriverDecl, ImportDecl, ExternFn, ExternDecl,
  Decl, Program, fn_decl, of_class, interface_decl, object_decl, driver_decl, import_decl,
  extern_decl, stmt_decl,
}
use zeroxos_os.Agex.Parser.{
  Parser, Outcome, failed, out_of_fuel, pure, ◌>>=◌, ◌>>◌, cur, advance, peek_next, at, eat, maybe,
  reject, measured, expected_body, expected_fn, lexer,
}
use zeroxos_os.Agex.Parser.Exprs.{parse_expr}
use zeroxos_os.Agex.Parser.Types.{type_after, parse_params, when}
use zeroxos_os.Agex.Parser.Stmts.{parse_stmt, block}

unfoldable pub parse_import : Parser ImportDecl
parse_import = do eat import_word; name ← eat ident; pure (record { imported = name.value })

unfoldable pub extern_fn : Parser ExternFn
extern_fn = do
  eat fn_word
  name ← eat ident
  eat l_paren
  params ← parse_params
  eat r_paren
  ty ← type_after arrow
  pure (record { name = name.value; params = params; return_type = ty })

unfoldable pub extern_loop : ℕ → Parser (List ExternFn)
extern_loop zero = λ ts. out_of_fuel
extern_loop (suc n) = do
  closed ← at r_brace
  if closed then pure [] else (do f ← extern_fn; fs ← extern_loop n; pure (f ∷ fs))

abbrev pub abi_of : Option Token → Text
abi_of none = codes "Rust"
abi_of (some t) = t.value

unfoldable pub parse_extern : Parser ExternDecl
parse_extern = do
  eat extern_word
  abi ← maybe string_literal
  eat l_brace
  fns ← measured extern_loop
  eat r_brace
  pure (record { abi = abi_of abi; fns = fns })

unfoldable pub parse_interrupt_as_stmt : Parser Stmt
parse_interrupt_as_stmt = do
  eat interrupt_word
  eat ident
  eat l_paren
  eat r_paren
  body ← block parse_stmt
  pure (unsafe_stmt body)

-- The type that a function is an extension of.
unfoldable pub receiver : Parser (Option Text)
receiver = do
  t ← cur
  next ← peek_next
  if same_type t.ty ident && same_type next.ty dot
      then (do name ← eat ident; eat dot; pure (some name.value))
      else pure none

-- The body, as an expression or as statements.
unfoldable pub fn_body : Parser (Option Stmts × Option Expr)
fn_body = do
  t ← cur
  if same_type t.ty fat_arrow || same_type t.ty assign
      then (do eat t.ty; e ← parse_expr; maybe semicolon; pure (none, some e))
      else if same_type t.ty l_brace
      then (do ss ← block parse_stmt; pure (some ss, none))
      else reject expected_body t

unfoldable pub parse_fn : Bool → Bool → Parser FnDecl
parse_fn is_async is_unsafe = do
  when is_async async_word
  eat fn_word
  recv ← receiver
  name ← eat ident
  eat l_paren
  params ← parse_params
  eat r_paren
  ty ← type_after arrow
  (body, expr_body) ← fn_body
  pure (record {
    name = name.value;
    params = params;
    return_type = ty;
    body = body;
    expr_body = expr_body;
    is_async = is_async;
    is_unsafe = is_unsafe;
    receiver = recv;
  })

-- `while !self.at(RBrace) { members.push(self.parse_fn(false, false)?); }`
unfoldable pub fns_loop : ℕ → Parser (List FnDecl)
fns_loop zero = λ ts. out_of_fuel
fns_loop (suc n) = do
  closed ← at r_brace
  if closed then pure [] else (do f ← parse_fn false false; fs ← fns_loop n; pure (f ∷ fs))

unfoldable pub skip_loop : ℕ → Parser (Unit {0})
skip_loop zero = λ ts. out_of_fuel
skip_loop (suc n) = do
  closed ← at r_paren
  last ← at eof
  if closed || last then pure tt else (do advance; skip_loop n)

-- `self.eat(ty).ok()` goes on where the token is not there, as `maybe` does.
unfoldable pub skip_optional_parens : Parser (Unit {0})
skip_optional_parens = do
  opened ← at l_paren
  if opened then (do maybe l_paren; measured skip_loop; maybe r_paren; pure tt) else pure tt

unfoldable pub base : Parser Text
base = do name ← eat ident; skip_optional_parens; pure name.value

unfoldable pub more_bases : ℕ → Parser (List Text)
more_bases zero = λ ts. out_of_fuel
more_bases (suc n) = do
  c ← maybe comma
  if is_some c then (do b ← base; bs ← more_bases n; pure (b ∷ bs)) else pure []

unfoldable pub bases : Parser (List Text)
bases = do
  c ← maybe colon
  if is_some c then (do b ← base; bs ← measured more_bases; pure (b ∷ bs)) else pure []

unfoldable pub class_params : Parser (List Param)
class_params = do
  opened ← maybe l_paren
  if is_some opened then (do params ← parse_params; eat r_paren; pure params) else pure []

unfoldable pub members_loop : ℕ → Parser (List FnDecl)
members_loop zero = λ ts. out_of_fuel
members_loop (suc n) = do
  closed ← at r_brace
  t ← cur
  if closed
      then pure []
      else if same_type t.ty fn_word
      then (do f ← parse_fn false false; fs ← members_loop n; pure (f ∷ fs))
      else reject expected_fn t

-- `sub` is the parser of a class inside a sealed one.
unfoldable pub subclasses_loop : Parser ClassDecl → ℕ → Parser ClassDecls
subclasses_loop sub zero = λ ts. out_of_fuel
subclasses_loop sub (suc n) = do
  closed ← at r_brace
  if closed
      then pure no_classes
      else (do eat class_word; c ← sub; cs ← subclasses_loop sub n; pure (more_classes c cs))

unfoldable pub class_body : Parser ClassDecl → Bool → Parser (List FnDecl × ClassDecls)
class_body sub is_sealed = do
  opened ← at l_brace
  next ← peek_next
  if is_sealed && (opened && same_type next.ty class_word)
      then (do eat l_brace; cs ← measured (subclasses_loop sub); eat r_brace; pure ([], cs))
      else if opened
      then (do eat l_brace; ms ← measured members_loop; eat r_brace; pure (ms, no_classes))
      else pure ([], no_classes)

unfoldable pub class_with : Parser ClassDecl → Bool → Bool → Parser ClassDecl
class_with sub is_data is_sealed = do
  name ← eat ident
  params ← class_params
  bs ← bases
  (members, subclasses) ← class_body sub is_sealed
  pure (class_decl name.value is_data is_sealed params bs members subclasses)

unfoldable pub class_on : ℕ → Bool → Bool → Parser ClassDecl
class_on zero is_data is_sealed = λ ts. out_of_fuel
class_on (suc n) is_data is_sealed = class_with (class_on n false false) is_data is_sealed

unfoldable pub parse_class : Bool → Bool → Parser ClassDecl
parse_class is_data is_sealed = measured (λ n. class_on n is_data is_sealed)

unfoldable pub fn_block : Parser (List FnDecl)
fn_block = do eat l_brace; fs ← measured fns_loop; eat r_brace; pure fs

unfoldable pub parse_interface : Parser InterfaceDecl
parse_interface = do
  eat interface_word
  name ← eat ident
  methods ← fn_block
  pure (record { name = name.value; methods = methods })

unfoldable pub parse_object : Parser ObjectDecl
parse_object = do
  eat object_word
  name ← eat ident
  members ← fn_block
  pure (record { name = name.value; members = members })

unfoldable pub parse_driver : Parser DriverDecl
parse_driver = do
  eat driver_word
  name ← eat ident
  eat colon
  implements ← eat ident
  members ← fn_block
  pure (record { name = name.value; implements = implements.value; members = members })

unfoldable pub as_stmt : Parser Decl
as_stmt = do s ← parse_stmt; pure (stmt_decl s)

abbrev pub fn_of : Bool → Parser Decl
fn_of is_unsafe = do f ← parse_fn false is_unsafe; pure (fn_decl f)

abbrev pub class_of : Bool → Bool → Parser Decl
class_of is_data is_sealed = do eat class_word; c ← parse_class is_data is_sealed; pure (of_class c)

unfoldable pub decl_by : TokenType → Parser Decl
decl_by import_word = do i ← parse_import; pure (import_decl i)
decl_by extern_word = do e ← parse_extern; pure (extern_decl e)
decl_by async_word = fn_of false
decl_by fn_word = fn_of false
decl_by unsafe_word = do
  next ← peek_next
  if same_type next.ty fn_word then (do eat unsafe_word; fn_of true) else as_stmt
decl_by interrupt_word = do s ← parse_interrupt_as_stmt; pure (stmt_decl s)
decl_by data_word = do eat data_word; class_of true false
decl_by sealed_word = do eat sealed_word; class_of false true
decl_by class_word = class_of false false
decl_by interface_word = do i ← parse_interface; pure (interface_decl i)
decl_by object_word = do o ← parse_object; pure (object_decl o)
decl_by driver_word = do d ← parse_driver; pure (driver_decl d)
decl_by _ = as_stmt

unfoldable pub parse_decl : Parser Decl
parse_decl = do t ← cur; decl_by t.ty

unfoldable pub program_loop : ℕ → Parser (List Decl)
program_loop zero = λ ts. out_of_fuel
program_loop (suc n) = do
  last ← at eof
  if last then pure [] else (do d ← parse_decl; ds ← program_loop n; pure (d ∷ ds))

unfoldable pub parse_program : Parser Program
parse_program = do decls ← measured program_loop; pure (record { decls = decls })

unfoldable pub parse : List ℕ → Outcome Program
parse src = elim (tokenize src) [
  | Lexer.tokens ts ↦ parse_program ts
  | Lexer.failed e ↦ failed (lexer e)
  | Lexer.out_of_fuel ↦ out_of_fuel
]
