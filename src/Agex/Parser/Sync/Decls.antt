-- ===== src/Agex/Parser/Sync/Decls.antt =====
-- No function that is parsed is asynchronous.
use zeroxos_os.Base.{ℕ, zero, suc, refl, Bool, true, false, ◌&&◌, List, ◌∷◌, All}
use zeroxos_os.Agex.Token.{
  TokenType, Token, ident, l_paren, r_paren, l_brace, r_brace, arrow, colon, eof, fn_word,
  class_word, import_word, extern_word, async_word, unsafe_word, interrupt_word, data_word,
  sealed_word, interface_word, object_word, driver_word,
}
use zeroxos_os.Agex.Token.Equality.{same_type}
use zeroxos_os.Agex.Lexer.{Lexed, tokenize}
use zeroxos_os.Agex.Lexer
use zeroxos_os.Agex.Ast.{FnDecl, ClassDecl, ClassDecls, Program}
use zeroxos_os.Agex.Parser.{
  Parser, Outcome, ok, failed, panicked, out_of_fuel, pure, ◌>>=◌, measured, lexer, eat, at, cur,
  peek_next,
}
use zeroxos_os.Agex.Parser.Types.{type_after, parse_params, when}
use zeroxos_os.Agex.Parser.Stmts.{parse_stmt}
use zeroxos_os.Agex.Parser.Progress.Decls.{IsAnswer, parse-IsAnswer}
use zeroxos_os.Agex.Parser.Decls.{
  parse_fn, fns_loop, members_loop, subclasses_loop, class_body, class_params, bases, receiver,
  fn_body, parse_import, parse_extern, parse_interrupt_as_stmt, class_with, class_on, parse_class,
  fn_block, parse_interface, parse_object, parse_driver, as_stmt, fn_of, class_of, decl_by,
  parse_decl, program_loop, parse_program, parse,
}
use zeroxos_os.Agex.Parser.Sync.{
  IsSyncFn, IsSyncClass, IsSyncClasses, IsSyncDecl, IsSync, IsSyncAnswer, Holds, Gives, Gives-bind,
  Gives-then, Gives-if, Gives-pure, Gives-nothing, Gives-measured, reject-Gives,
}

parse_fn-Gives : (is_unsafe : Bool) → Gives IsSyncFn (parse_fn false is_unsafe)
unfolding parse_fn
parse_fn-Gives is_unsafe = Gives-then _ (when false async_word) _ λ a.
    Gives-then _ (eat fn_word) _ λ b. Gives-then _ receiver _ λ recv.
      Gives-then _ (eat ident) _ λ name. Gives-then _ (eat l_paren) _ λ c.
        Gives-then _ parse_params _ λ params. Gives-then _ (eat r_paren) _ λ d.
          Gives-then _ (type_after arrow) _ λ ty. Gives-then _ fn_body _ λ body. Gives-pure _ _ refl

-- A function and what the loop gives behind it.
fn_first-Gives :
    (rest : Parser (List FnDecl))
    → Gives (All IsSyncFn) rest
    → Gives (All IsSyncFn) (parse_fn false false >>= λ f. rest >>= λ fs. pure (f ∷ fs))
fn_first-Gives rest k =
    Gives-bind IsSyncFn _ (parse_fn false false) _ (parse_fn-Gives false)
      λ f h. Gives-bind (All IsSyncFn) _ rest _ k λ fs i. Gives-pure _ _ (h, i)

fns_loop-Gives : (n : ℕ) → Gives (All IsSyncFn) (fns_loop n)
unfolding fns_loop
fns_loop-Gives zero = Gives-nothing _
fns_loop-Gives (suc n) = Gives-then _ (at r_brace) _ λ closed.
    Gives-if _ closed _ _ (Gives-pure _ _ tt) (fn_first-Gives (fns_loop n) (fns_loop-Gives n))

members_loop-Gives : (n : ℕ) → Gives (All IsSyncFn) (members_loop n)
unfolding members_loop
members_loop-Gives zero = Gives-nothing _
members_loop-Gives (suc n) = Gives-then _ (at r_brace) _ λ closed. Gives-then _ cur _ λ t.
    Gives-if _ closed _ _ (Gives-pure _ _ tt) (
      Gives-if _ (same_type t.ty fn_word) _ _
        (fn_first-Gives (members_loop n) (members_loop-Gives n)) (reject-Gives _ _ t))

subclasses_loop-Gives :
    (sub : Parser ClassDecl) (n : ℕ)
    → Gives IsSyncClass sub
    → Gives IsSyncClasses (subclasses_loop sub n)
unfolding subclasses_loop IsSyncClasses
subclasses_loop-Gives sub zero h = Gives-nothing _
subclasses_loop-Gives sub (suc n) h = Gives-then _ (at r_brace) _ λ closed.
    Gives-if _ closed _ _ (Gives-pure _ _ tt) (
      Gives-then _ (eat class_word) _ λ t. Gives-bind IsSyncClass _ sub _ h λ c i.
        Gives-bind IsSyncClasses _ (subclasses_loop sub n) _ (subclasses_loop-Gives sub n h)
          λ cs k. Gives-pure _ _ (i, k))

-- The two parts of a class that have functions in them.
abbrev IsSyncBody : List FnDecl × ClassDecls → Type 0
IsSyncBody (members, subclasses) = All IsSyncFn members × IsSyncClasses subclasses

class_body-Gives :
    (sub : Parser ClassDecl) (is_sealed : Bool)
    → Gives IsSyncClass sub
    → Gives IsSyncBody (class_body sub is_sealed)
unfolding class_body IsSyncClasses
class_body-Gives sub is_sealed h = Gives-then _ (at l_brace) _ λ opened.
    Gives-then _ peek_next _ λ next.
      Gives-if _ (is_sealed && (opened && same_type next.ty class_word)) _ _
        (Gives-then _ (eat l_brace) _ λ t.
          Gives-bind IsSyncClasses _ (measured (subclasses_loop sub)) _
            (Gives-measured _ _ λ n. subclasses_loop-Gives sub n h)
            λ cs k. Gives-then _ (eat r_brace) _ λ u. Gives-pure _ _ (tt, k))
        (Gives-if _ opened _ _
          (Gives-then _ (eat l_brace) _ λ t.
            Gives-bind (All IsSyncFn) _ (measured members_loop) _
              (Gives-measured _ _ members_loop-Gives)
              λ ms k. Gives-then _ (eat r_brace) _ λ u. Gives-pure _ _ (k, tt))
          (Gives-pure _ _ (tt, tt)))

class_on-Gives :
    (n : ℕ) (is_data is_sealed : Bool) → Gives IsSyncClass (class_on n is_data is_sealed)
unfolding class_on class_with IsSyncClasses
class_on-Gives zero is_data is_sealed = Gives-nothing _
class_on-Gives (suc n) is_data is_sealed = Gives-then _ (eat ident) _ λ name.
    Gives-then _ class_params _ λ params. Gives-then _ bases _ λ bs.
      Gives-bind IsSyncBody _ (class_body (class_on n false false) is_sealed) _
        (class_body-Gives (class_on n false false) is_sealed (class_on-Gives n false false))
        λ body h. Gives-pure _ _ h

fn_block-Gives : Gives (All IsSyncFn) fn_block
unfolding fn_block
fn_block-Gives = Gives-then _ (eat l_brace) _ λ t.
    Gives-bind (All IsSyncFn) _ (measured fns_loop) _ (Gives-measured _ _ fns_loop-Gives)
      λ fs h. Gives-then _ (eat r_brace) _ λ u. Gives-pure _ _ h

-- A name, and the functions behind it.
interface-Gives : Gives (λ i. All IsSyncFn i.methods) parse_interface
unfolding parse_interface
interface-Gives = Gives-then _ (eat interface_word) _ λ t.
    Gives-then _ (eat ident) _
      λ name. Gives-bind (All IsSyncFn) _ fn_block _ fn_block-Gives λ fs h. Gives-pure _ _ h

object-Gives : Gives (λ o. All IsSyncFn o.members) parse_object
unfolding parse_object
object-Gives = Gives-then _ (eat object_word) _ λ t.
    Gives-then _ (eat ident) _
      λ name. Gives-bind (All IsSyncFn) _ fn_block _ fn_block-Gives λ fs h. Gives-pure _ _ h

driver-Gives : Gives (λ d. All IsSyncFn d.members) parse_driver
unfolding parse_driver
driver-Gives = Gives-then _ (eat driver_word) _ λ t. Gives-then _ (eat ident) _ λ name.
    Gives-then _ (eat colon) _ λ u.
      Gives-then _ (eat ident) _
        λ implements. Gives-bind (All IsSyncFn) _ fn_block _ fn_block-Gives λ fs h. Gives-pure _ _ h

as_stmt-Gives : Gives IsSyncDecl as_stmt
unfolding as_stmt IsSyncDecl
as_stmt-Gives = Gives-then _ parse_stmt _ λ s. Gives-pure _ _ tt

fn_of-Gives : (is_unsafe : Bool) → Gives IsSyncDecl (fn_of is_unsafe)
unfolding IsSyncDecl
fn_of-Gives is_unsafe =
    Gives-bind IsSyncFn _ (parse_fn false is_unsafe) _ (parse_fn-Gives is_unsafe)
      λ f h. Gives-pure _ _ h

class_of-Gives : (is_data is_sealed : Bool) → Gives IsSyncDecl (class_of is_data is_sealed)
unfolding IsSyncDecl parse_class
class_of-Gives is_data is_sealed = Gives-then _ (eat class_word) _ λ t.
    Gives-bind IsSyncClass _ (parse_class is_data is_sealed) _
      (Gives-measured _ _ λ n. class_on-Gives n is_data is_sealed) λ c h. Gives-pure _ _ h

decl_by-Gives : (ty : TokenType) → Gives IsSyncDecl (decl_by ty)
unfolding decl_by IsSyncDecl
decl_by-Gives import_word = Gives-then _ parse_import _ λ i. Gives-pure _ _ tt
decl_by-Gives extern_word = Gives-then _ parse_extern _ λ e. Gives-pure _ _ tt
decl_by-Gives async_word = fn_of-Gives false
decl_by-Gives fn_word = fn_of-Gives false
decl_by-Gives unsafe_word = Gives-then _ peek_next _ λ next.
    Gives-if _ (same_type next.ty fn_word) _ _
      (Gives-then _ (eat unsafe_word) _ λ t. fn_of-Gives true) as_stmt-Gives
decl_by-Gives interrupt_word = Gives-then _ parse_interrupt_as_stmt _ λ s. Gives-pure _ _ tt
decl_by-Gives data_word = Gives-then _ (eat data_word) _ λ t. class_of-Gives true false
decl_by-Gives sealed_word = Gives-then _ (eat sealed_word) _ λ t. class_of-Gives false true
decl_by-Gives class_word = class_of-Gives false false
decl_by-Gives interface_word =
    Gives-bind _ _ parse_interface _ interface-Gives λ i h. Gives-pure _ _ h
decl_by-Gives object_word = Gives-bind _ _ parse_object _ object-Gives λ o h. Gives-pure _ _ h
decl_by-Gives driver_word = Gives-bind _ _ parse_driver _ driver-Gives λ d h. Gives-pure _ _ h
decl_by-Gives _ = as_stmt-Gives

program_loop-Gives : (n : ℕ) → Gives (All IsSyncDecl) (program_loop n)
unfolding program_loop parse_decl
program_loop-Gives zero = Gives-nothing _
program_loop-Gives (suc n) = Gives-then _ (at eof) _ λ last.
    Gives-if _ last _ _ (Gives-pure _ _ tt) (
      Gives-bind IsSyncDecl _ parse_decl _ (Gives-then _ cur _ λ t. decl_by-Gives t.ty) λ d h.
        Gives-bind (All IsSyncDecl) _ (program_loop n) _ (program_loop-Gives n)
          λ ds i. Gives-pure _ _ (h, i))

parse_program-Gives : (ts : List Token) → Holds IsSync (parse_program ts)
unfolding parse_program IsSync Gives
parse_program-Gives =
    Gives-bind (All IsSyncDecl) IsSync (measured program_loop) _
      (Gives-measured _ _ program_loop-Gives) λ ds h. Gives-pure IsSync _ h

lexed-IsSync :
    (r : Lexed)
    → Holds IsSync (elim r [
      | Lexer.tokens ts ↦ parse_program ts
      | Lexer.failed e ↦ failed (lexer e)
      | Lexer.out_of_fuel ↦ out_of_fuel
    ])
lexed-IsSync (Lexer.tokens ts) = parse_program-Gives ts
lexed-IsSync (Lexer.failed e) = tt
lexed-IsSync Lexer.out_of_fuel = tt

answered-IsSyncAnswer : (r : Outcome Program) → IsAnswer r → Holds IsSync r → IsSyncAnswer r
unfolding IsSyncAnswer
answered-IsSyncAnswer (ok prog rest) a h = h
answered-IsSyncAnswer (failed e) a h = tt
answered-IsSyncAnswer panicked a h = a
answered-IsSyncAnswer out_of_fuel a h = a

parse-IsSync : (src : List ℕ) → Holds IsSync (parse src)
unfolding parse
parse-IsSync src = lexed-IsSync (tokenize src)

-- On any source the parser ends with an error, or with a program in which no function is marked as
-- asynchronous: not at the top, nor in a class at any depth, an interface, an object or a driver.
pub parse-IsSyncAnswer : (src : List ℕ) → IsSyncAnswer (parse src)
parse-IsSyncAnswer src = answered-IsSyncAnswer (parse src) (parse-IsAnswer src) (parse-IsSync src)
