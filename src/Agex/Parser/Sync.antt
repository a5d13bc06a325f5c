-- ===== src/Agex/Parser/Sync.antt =====
-- Programs without asynchronous functions, and the rules for what a parser gives, if it gives
-- anything.
pub mod Decls
use zeroxos_os.Base.{
  ℕ, zero, suc, ◌≡◌, refl, Bool, true, false, ◌&&◌, ◌||◌, Option, none, some, is_some, List, [],
  ◌∷◌, if◌then◌else◌, All,
}
use zeroxos_os.Agex.Token.{
  TokenType, Token, ident, l_paren, r_paren, l_brace, r_brace, arrow, colon, eof, fn_word,
  class_word, import_word, extern_word, async_word, unsafe_word, interrupt_word, data_word,
  sealed_word, interface_word, object_word, driver_word,
}
use zeroxos_os.Agex.Token.Equality.{same_type}
use zeroxos_os.Agex.Lexer.{Lexed, tokenize}
use zeroxos_os.Agex.Lexer
use zeroxos_os.Agex.Ast.{
  FnDecl, ClassDecl, ClassDecls, class_decl, no_classes, more_classes, Decl, Program, fn_decl,
  of_class, interface_decl, object_decl, driver_decl, import_decl, extern_decl, stmt_decl,
}
use zeroxos_os.Agex.Parser.{
  Parser, Outcome, ok, failed, panicked, out_of_fuel, pure, bind, ◌>>=◌, measured, lexer, eat, at,
  cur, peek_next, reject, Message,
}
use zeroxos_os.Agex.Parser.Types.{type_after, parse_params, when}
use zeroxos_os.Agex.Parser.Stmts.{parse_stmt}
use zeroxos_os.Agex.Parser.Progress.Decls.{IsAnswer, parse-IsAnswer}
use zeroxos_os.Agex.Parser.Decls.{
  parse_fn, fns_loop, members_loop, subclasses_loop, class_body, class_params, bases, receiver,
  fn_body, parse_import, parse_extern, parse_interrupt_as_stmt, class_with, class_on, parse_class,
  fn_block, parse_interface, parse_object, parse_driver, as_stmt, fn_of, class_of, decl_by,
  parse_decl, program_loop, parse_program, parse,
}

abbrev pub IsSyncFn : FnDecl → Type 0
IsSyncFn f = f.is_async ≡ false

mutual
  -- The members of a class and of the classes inside it.
  pub IsSyncClass : ClassDecl → Type 0
  IsSyncClass (class_decl name is_data is_sealed params supers members subclasses) =
      All IsSyncFn members × IsSyncClasses subclasses

  pub IsSyncClasses : ClassDecls → Type 0
  IsSyncClasses no_classes = Unit
  IsSyncClasses (more_classes c cs) = IsSyncClass c × IsSyncClasses cs

pub IsSyncDecl : Decl → Type 0
IsSyncDecl (fn_decl f) = IsSyncFn f
IsSyncDecl (of_class c) = IsSyncClass c
IsSyncDecl (interface_decl i) = All IsSyncFn i.methods
IsSyncDecl (object_decl o) = All IsSyncFn o.members
IsSyncDecl (driver_decl d) = All IsSyncFn d.members
IsSyncDecl _ = Unit

pub IsSync : Program → Type 0
IsSync prog = All IsSyncDecl prog.decls

-- An error of the lexer or the parser, or a program without asynchronous functions.
pub IsSyncAnswer : Outcome Program → Type 0
IsSyncAnswer (ok prog rest) = IsSync prog
IsSyncAnswer (failed e) = Unit
IsSyncAnswer panicked = ⊥
IsSyncAnswer out_of_fuel = ⊥

-- What holds of a value, if there is one.
abbrev pub Holds : {A : Type 0} → (A → Type 0) → Outcome A → Type 0
Holds P (ok a ts) = P a
Holds P (failed e) = Unit
Holds P panicked = Unit
Holds P out_of_fuel = Unit

pub Gives : {A : Type 0} → (A → Type 0) → Parser A → Type 0
Gives P p = (ts : List Token) → Holds P (p ts)

Holds-bind :
    {A B : Type 0} (Q : A → Type 0) (P : B → Type 0) (r : Outcome A) (f : A → Parser B)
    → Holds Q r
    → ((a : A) → Q a → (ts : List Token) → Holds P (f a ts))
    → Holds P (bind r f)
Holds-bind Q P (ok a ts) f h g = g a h ts
Holds-bind Q P (failed e) f h g = tt
Holds-bind Q P panicked f h g = tt
Holds-bind Q P out_of_fuel f h g = tt

pub Gives-bind :
    {A B : Type 0} (Q : A → Type 0) (P : B → Type 0) (p : Parser A) (f : A → Parser B)
    → Gives Q p
    → ((a : A) → Q a → Gives P (f a))
    → Gives P (p >>= f)
unfolding Gives
Gives-bind Q P p f h g ts = Holds-bind Q P (p ts) f (h ts) g

Holds-any : {A : Type 0} (r : Outcome A) → Holds (λ a. Unit {0}) r
Holds-any (ok a ts) = tt
Holds-any (failed e) = tt
Holds-any panicked = tt
Holds-any out_of_fuel = tt

-- After a parser of which nothing is used.
pub Gives-then :
    {A B : Type 0} (P : B → Type 0) (p : Parser A) (f : A → Parser B)
    → ((a : A) → Gives P (f a))
    → Gives P (p >>= f)
unfolding Gives
Gives-then P p f g = Gives-bind (λ a. Unit {0}) P p f (λ ts. Holds-any (p ts)) (λ a h. g a)

pub Gives-if :
    {A : Type 0} (P : A → Type 0) (b : Bool) (p q : Parser A)
    → Gives P p
    → Gives P q
    → Gives P (if b then p else q)
Gives-if P true p q h i = h
Gives-if P false p q h i = i

pub Gives-pure : {A : Type 0} (P : A → Type 0) (a : A) → P a → Gives P (pure a)
unfolding Gives
Gives-pure P a h ts = h

pub Gives-nothing : {A : Type 0} (P : A → Type 0) → Gives P (λ ts. out_of_fuel)
unfolding Gives
Gives-nothing P ts = tt

pub Gives-measured :
    {A : Type 0} (P : A → Type 0) (p : ℕ → Parser A)
    → ((n : ℕ) → Gives P (p n))
    → Gives P (measured p)
unfolding Gives measured
Gives-measured P p h ts = h _ ts

pub reject-Gives :
    {A : Type 0} (P : A → Type 0) (msg : Message) (t : Token) → Gives P (reject {A = A} msg t)
unfolding Gives
reject-Gives P msg t ts = tt
