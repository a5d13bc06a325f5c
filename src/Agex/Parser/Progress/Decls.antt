-- ===== src/Agex/Parser/Progress/Decls.antt =====
-- The parsers of declarations take at least one token; a program is parsed within the fuel.
use zeroxos_os.Base.{
  ℕ, zero, suc, ◌-◌, refl, arith, Bool, true, false, ◌&&◌, ◌||◌, is_some, List, [], ◌∷◌, length,
  Bool-cases, inl, inr,
}
use zeroxos_os.Agex.Token.{
  TokenType, ident, dot, comma, colon, semicolon, assign, fat_arrow, arrow, l_paren, r_paren,
  l_brace, r_brace, eof, string_literal, fn_word, class_word, data_word, sealed_word,
  interface_word, object_word, driver_word, async_word, unsafe_word, extern_word, import_word,
  interrupt_word,
}
use zeroxos_os.Agex.Token.Equality.{same_type, type_index}
use zeroxos_os.Agex.Lexer
use zeroxos_os.Agex.Lexer.{Lexed, tokenize}
use zeroxos_os.Agex.Lexer.Progress.{Complete, tokenize-Complete}
use zeroxos_os.Agex.Ast.{ClassDecl}
use zeroxos_os.Agex.Parser.{
  Parser, Outcome, ok, failed, panicked, out_of_fuel, cur, advance, at, expected_fn, expected_body,
  lexer,
}
use zeroxos_os.Agex.Parser.Decls.{
  parse_import, extern_fn, extern_loop, parse_extern, parse_interrupt_as_stmt, receiver, fn_body,
  parse_fn, fns_loop, skip_loop, skip_optional_parens, base, more_bases, bases, class_params,
  members_loop, subclasses_loop, class_body, class_with, class_on, parse_class, fn_block,
  parse_interface, parse_object, parse_driver, as_stmt, fn_of, class_of, decl_by, parse_decl,
  program_loop, parse_program, parse,
}
use zeroxos_os.Agex.Parser.Progress.{
  Within, Within-mono, Fits, Eats, Eats-Fits, Eats-mono, Fits-bind, Eats-bind, Eats-then, Late-bind,
  Some-bind, Fits-if, Eats-if, pure-Fits, reject-Eats, Eats-zero, Fits-zero, measured-Fits,
  measured-Eats, cur-Fits, at-Fits, peek_next-Fits, eat-Eats, eat-Fits, maybe-EatsSome, maybe-Fits,
  Ends-tail,
}
use zeroxos_os.Agex.Parser.Progress.Exprs.{parse_expr-Eats}
use zeroxos_os.Agex.Parser.Progress.Types.{type_after-Fits, parse_params-Fits, when-Fits}
use zeroxos_os.Agex.Parser.Progress.Stmts.{parse_stmt-Eats, stmt_block-Fits}

parse_import-Eats : (n : ℕ) → Eats n parse_import
unfolding parse_import type_index
parse_import-Eats n =
    Eats-bind n _ _ (eat-Eats n import_word refl)
      λ t. Fits-bind n _ _ (eat-Fits n ident refl) λ name. pure-Fits _ _

extern_fn-Eats : (n : ℕ) → Eats n extern_fn
unfolding extern_fn type_index
extern_fn-Eats n = Eats-bind n _ _ (eat-Eats n fn_word refl) λ t.
    Fits-bind n _ _ (eat-Fits n ident refl) λ name. Fits-bind n _ _ (eat-Fits n l_paren refl) λ u.
      Fits-bind n _ _ (parse_params-Fits n) λ params.
        Fits-bind n _ _ (eat-Fits n r_paren refl)
          λ v. Fits-bind n _ _ (type_after-Fits n arrow refl) λ ty. pure-Fits _ _

extern_loop-Fits : (m : ℕ) → Fits m (extern_loop m)
unfolding extern_loop
extern_loop-Fits zero = Fits-zero _
extern_loop-Fits (suc m) = Fits-bind _ _ _ (at-Fits _ r_brace) λ closed.
    Fits-if _ closed _ _ (λ y. pure-Fits _ _)
      λ y. Eats-Fits _ _ (
        Eats-then m _ _ (extern_fn-Eats _)
          λ f. Fits-bind m _ _ (extern_loop-Fits m) λ fs. pure-Fits _ _)

parse_extern-Eats : (n : ℕ) → Eats n parse_extern
unfolding parse_extern type_index
parse_extern-Eats n = Eats-bind n _ _ (eat-Eats n extern_word refl) λ t.
    Fits-bind n _ _ (maybe-Fits n string_literal refl) λ abi.
      Fits-bind n _ _ (eat-Fits n l_brace refl) λ u.
        Fits-bind n _ _ (measured-Fits n _ λ m l. extern_loop-Fits m)
          λ fns. Fits-bind n _ _ (eat-Fits n r_brace refl) λ v. pure-Fits _ _

parse_interrupt_as_stmt-Eats : (n : ℕ) → Eats n parse_interrupt_as_stmt
unfolding parse_interrupt_as_stmt type_index
parse_interrupt_as_stmt-Eats n = Eats-bind n _ _ (eat-Eats n interrupt_word refl) λ t.
    Fits-bind n _ _ (eat-Fits n ident refl) λ name. Fits-bind n _ _ (eat-Fits n l_paren refl) λ u.
      Fits-bind n _ _ (eat-Fits n r_paren refl)
        λ v. Fits-bind n _ _ (stmt_block-Fits n) λ body. pure-Fits _ _

receiver-Fits : (n : ℕ) → Fits n receiver
unfolding receiver type_index
receiver-Fits n = Fits-bind n _ _ (cur-Fits n) λ t. Fits-bind n _ _ (peek_next-Fits n) λ next.
    Fits-if n (same_type t.ty ident && same_type next.ty dot) _ _
      (λ y.
        Fits-bind n _ _ (eat-Fits n ident refl)
          λ name. Fits-bind n _ _ (eat-Fits n dot refl) λ u. pure-Fits _ _)
      λ y. pure-Fits _ _

fn_body-Fits : (n : ℕ) → Fits n fn_body
unfolding fn_body type_index
fn_body-Fits n = Fits-bind n _ _ (cur-Fits n) λ t.
    Fits-if n (same_type t.ty fat_arrow || same_type t.ty assign) _ _
      (λ y. Fits-bind n _ _ (eat-Fits n t.ty (ground arith)) λ u.
        Fits-bind n _ _ (Eats-Fits _ _ (parse_expr-Eats n))
          λ e. Fits-bind n _ _ (maybe-Fits n semicolon refl) λ v. pure-Fits _ _)
      λ y.
        Fits-if n (same_type t.ty l_brace) _ _
          (λ z. Fits-bind n _ _ (stmt_block-Fits n) λ ss. pure-Fits _ _)
          λ z. Eats-Fits _ _ (reject-Eats _ n expected_body t)

parse_fn-Eats : (n : ℕ) (is_async is_unsafe : Bool) → Eats n (parse_fn is_async is_unsafe)
unfolding parse_fn type_index
parse_fn-Eats n is_async is_unsafe = Late-bind n _ _ (when-Fits n is_async async_word refl) λ t.
    Eats-bind n _ _ (eat-Eats n fn_word refl) λ u. Fits-bind n _ _ (receiver-Fits n) λ recv.
      Fits-bind n _ _ (eat-Fits n ident refl) λ name. Fits-bind n _ _ (eat-Fits n l_paren refl) λ v.
        Fits-bind n _ _ (parse_params-Fits n) λ params.
          Fits-bind n _ _ (eat-Fits n r_paren refl) λ w.
            Fits-bind n _ _ (type_after-Fits n arrow refl)
              λ ty. Fits-bind n _ _ (fn_body-Fits n) λ body. pure-Fits _ _

fns_loop-Fits : (m : ℕ) → Fits m (fns_loop m)
unfolding fns_loop
fns_loop-Fits zero = Fits-zero _
fns_loop-Fits (suc m) = Fits-bind _ _ _ (at-Fits _ r_brace) λ closed.
    Fits-if _ closed _ _ (λ y. pure-Fits _ _)
      λ y. Eats-Fits _ _ (
        Eats-then m _ _ (parse_fn-Eats _ false false)
          λ f. Fits-bind m _ _ (fns_loop-Fits m) λ fs. pure-Fits _ _)

-- What is skipped is not the end of the file.
skip_round : (m : ℕ) → Fits m (skip_loop m) → Fits (suc m) (skip_loop (suc m))
unfolding skip_loop Fits at cur advance type_index
skip_round m h [] e l = absurd e
skip_round m h (t ∷ ts) e l = elim (Bool-cases (same_type t.ty r_paren || same_type t.ty eof)) [
  | inl y ↦ rw y (e, omega arith)
  | inr z ↦
      let tail_ends = Ends-tail t ts e (ground arith) in
      rw z (Within-mono (length ts) _ _ (omega arith) (h ts tail_ends (omega arith)))
]

skip_loop-Fits : (m : ℕ) → Fits m (skip_loop m)
skip_loop-Fits zero = Fits-zero _
skip_loop-Fits (suc m) = skip_round m (skip_loop-Fits m)

skip_optional_parens-Fits : (n : ℕ) → Fits n skip_optional_parens
unfolding skip_optional_parens type_index
skip_optional_parens-Fits n = Fits-bind n _ _ (at-Fits n l_paren) λ opened.
    Fits-if n opened _ _
      (λ y. Fits-bind n _ _ (maybe-Fits n l_paren refl) λ t.
        Fits-bind n _ _ (measured-Fits n _ λ m l. skip_loop-Fits m)
          λ u. Fits-bind n _ _ (maybe-Fits n r_paren refl) λ v. pure-Fits _ _)
      λ y. pure-Fits _ _

base-Eats : (n : ℕ) → Eats n base
unfolding base type_index
base-Eats n =
    Eats-bind n _ _ (eat-Eats n ident refl)
      λ name. Fits-bind n _ _ (skip_optional_parens-Fits n) λ t. pure-Fits _ _

more_bases-Fits : (m : ℕ) → Fits m (more_bases m)
unfolding more_bases type_index
more_bases-Fits zero = Fits-zero _
more_bases-Fits (suc m) = Some-bind m _ _ (maybe-EatsSome _ comma refl) (pure-Fits _ _) λ c.
    Fits-bind m _ _ (Eats-Fits _ _ (base-Eats m))
      λ b. Fits-bind m _ _ (more_bases-Fits m) λ bs. pure-Fits _ _

bases-Fits : (n : ℕ) → Fits n bases
unfolding bases type_index
bases-Fits n = Fits-bind n _ _ (maybe-Fits n colon refl) λ c.
    Fits-if n (is_some c) _ _
      (λ y.
        Fits-bind n _ _ (Eats-Fits _ _ (base-Eats n))
          λ b. Fits-bind n _ _ (measured-Fits n _ λ m l. more_bases-Fits m) λ bs. pure-Fits _ _)
      λ y. pure-Fits _ _

class_params-Fits : (n : ℕ) → Fits n class_params
unfolding class_params type_index
class_params-Fits n = Fits-bind n _ _ (maybe-Fits n l_paren refl) λ opened.
    Fits-if n (is_some opened) _ _
      (λ y.
        Fits-bind n _ _ (parse_params-Fits n)
          λ params. Fits-bind n _ _ (eat-Fits n r_paren refl) λ t. pure-Fits _ _)
      λ y. pure-Fits _ _

members_loop-Fits : (m : ℕ) → Fits m (members_loop m)
unfolding members_loop
members_loop-Fits zero = Fits-zero _
members_loop-Fits (suc m) = Fits-bind _ _ _ (at-Fits _ r_brace) λ closed.
    Fits-bind _ _ _ (cur-Fits _) λ t.
      Fits-if _ closed _ _ (λ y. pure-Fits _ _)
        λ y.
          Fits-if _ (same_type t.ty fn_word) _ _
            (λ z. Eats-Fits _ _ (
              Eats-then m _ _ (parse_fn-Eats _ false false)
                λ f. Fits-bind m _ _ (members_loop-Fits m) λ fs. pure-Fits _ _))
            λ z. Eats-Fits _ _ (reject-Eats _ _ expected_fn t)

module _ (sub : Parser ClassDecl) where
  subclasses_loop-Fits : (m : ℕ) → Eats (m - 1) sub → Fits m (subclasses_loop sub m)
  unfolding subclasses_loop type_index
  subclasses_loop-Fits zero h = Fits-zero _
  subclasses_loop-Fits (suc m) h =
      let k = Eats-mono (suc m - 1) m sub (omega arith) h in
      Fits-bind _ _ _ (at-Fits _ r_brace) λ closed.
        Fits-if _ closed _ _ (λ y. pure-Fits _ _)
          λ y. Eats-Fits _ _ (
            Eats-then m _ _ (eat-Eats _ class_word refl) λ t. Fits-bind m _ _ (Eats-Fits _ _ k) λ c.
              Fits-bind m _ _ (subclasses_loop-Fits m (Eats-mono m (m - 1) sub (omega arith) k))
                λ cs. pure-Fits _ _)

  class_body-Fits : (n : ℕ) (is_sealed : Bool) → Eats n sub → Fits n (class_body sub is_sealed)
  unfolding class_body type_index
  class_body-Fits n is_sealed h = Fits-bind n _ _ (at-Fits n l_brace) λ opened.
      Fits-bind n _ _ (peek_next-Fits n) λ next.
        Fits-if n (is_sealed && (opened && same_type next.ty class_word)) _ _
          (λ y. Fits-bind n _ _ (eat-Fits n l_brace refl) λ t.
            Fits-bind n _ _
              (measured-Fits n _
                λ m l. subclasses_loop-Fits m (Eats-mono n (m - 1) sub (omega arith) h))
              λ cs. Fits-bind n _ _ (eat-Fits n r_brace refl) λ u. pure-Fits _ _)
          λ y.
            Fits-if n opened _ _
              (λ z. Fits-bind n _ _ (eat-Fits n l_brace refl) λ t.
                Fits-bind n _ _ (measured-Fits n _ λ m l. members_loop-Fits m)
                  λ ms. Fits-bind n _ _ (eat-Fits n r_brace refl) λ u. pure-Fits _ _)
              λ z. pure-Fits _ _

  class_with-Eats :
      (n : ℕ) (is_data is_sealed : Bool)
      → Eats n sub
      → Eats (suc n) (class_with sub is_data is_sealed)
  unfolding class_with type_index
  class_with-Eats n is_data is_sealed h = Eats-then n _ _ (eat-Eats _ ident refl) λ name.
      Fits-bind n _ _ (class_params-Fits n) λ params.
        Fits-bind n _ _ (bases-Fits n)
          λ bs. Fits-bind n _ _ (class_body-Fits n is_sealed h) λ body. pure-Fits _ _

class_on-Eats : (n : ℕ) (is_data is_sealed : Bool) → Eats n (class_on n is_data is_sealed)
unfolding class_on
class_on-Eats zero is_data is_sealed = Eats-zero _
class_on-Eats (suc n) is_data is_sealed =
    class_with-Eats (class_on n false false) n is_data is_sealed (class_on-Eats n false false)

parse_class-Eats : (n : ℕ) (is_data is_sealed : Bool) → Eats n (parse_class is_data is_sealed)
unfolding parse_class
parse_class-Eats n is_data is_sealed = measured-Eats n _ λ m l. class_on-Eats m is_data is_sealed

fn_block-Fits : (n : ℕ) → Fits n fn_block
unfolding fn_block type_index
fn_block-Fits n = Fits-bind n _ _ (eat-Fits n l_brace refl) λ t.
    Fits-bind n _ _ (measured-Fits n _ λ m l. fns_loop-Fits m)
      λ fs. Fits-bind n _ _ (eat-Fits n r_brace refl) λ u. pure-Fits _ _

parse_interface-Eats : (n : ℕ) → Eats n parse_interface
unfolding parse_interface type_index
parse_interface-Eats n = Eats-bind n _ _ (eat-Eats n interface_word refl) λ t.
    Fits-bind n _ _ (eat-Fits n ident refl)
      λ name. Fits-bind n _ _ (fn_block-Fits n) λ methods. pure-Fits _ _

parse_object-Eats : (n : ℕ) → Eats n parse_object
unfolding parse_object type_index
parse_object-Eats n = Eats-bind n _ _ (eat-Eats n object_word refl) λ t.
    Fits-bind n _ _ (eat-Fits n ident refl)
      λ name. Fits-bind n _ _ (fn_block-Fits n) λ members. pure-Fits _ _

parse_driver-Eats : (n : ℕ) → Eats n parse_driver
unfolding parse_driver type_index
parse_driver-Eats n = Eats-bind n _ _ (eat-Eats n driver_word refl) λ t.
    Fits-bind n _ _ (eat-Fits n ident refl) λ name. Fits-bind n _ _ (eat-Fits n colon refl) λ u.
      Fits-bind n _ _ (eat-Fits n ident refl)
        λ implements. Fits-bind n _ _ (fn_block-Fits n) λ members. pure-Fits _ _

as_stmt-Eats : (n : ℕ) → Eats n as_stmt
unfolding as_stmt
as_stmt-Eats n = Eats-bind n _ _ (parse_stmt-Eats n) λ s. pure-Fits _ _

fn_of-Eats : (n : ℕ) (is_unsafe : Bool) → Eats n (fn_of is_unsafe)
fn_of-Eats n is_unsafe = Eats-bind n _ _ (parse_fn-Eats n false is_unsafe) λ f. pure-Fits _ _

class_of-Eats : (n : ℕ) (is_data is_sealed : Bool) → Eats n (class_of is_data is_sealed)
unfolding type_index
class_of-Eats n is_data is_sealed =
    Eats-bind n _ _ (eat-Eats n class_word refl)
      λ t. Fits-bind n _ _ (Eats-Fits _ _ (parse_class-Eats n is_data is_sealed)) λ c. pure-Fits _ _

decl_by-Eats : (n : ℕ) (ty : TokenType) → Eats n (decl_by ty)
unfolding decl_by type_index
decl_by-Eats n import_word = Eats-bind n _ _ (parse_import-Eats n) λ i. pure-Fits _ _
decl_by-Eats n extern_word = Eats-bind n _ _ (parse_extern-Eats n) λ e. pure-Fits _ _
decl_by-Eats n async_word = fn_of-Eats n false
decl_by-Eats n fn_word = fn_of-Eats n false
decl_by-Eats n unsafe_word = Late-bind n _ _ (peek_next-Fits n) λ next.
    Eats-if n (same_type next.ty fn_word) _ _
      (λ y. Eats-bind n _ _ (eat-Eats n unsafe_word refl) λ t. Eats-Fits _ _ (fn_of-Eats n true))
      λ y. as_stmt-Eats n
decl_by-Eats n interrupt_word = Eats-bind n _ _ (parse_interrupt_as_stmt-Eats n) λ s. pure-Fits _ _
decl_by-Eats n data_word =
    Eats-bind n _ _ (eat-Eats n data_word refl) λ t. Eats-Fits _ _ (class_of-Eats n true false)
decl_by-Eats n sealed_word =
    Eats-bind n _ _ (eat-Eats n sealed_word refl) λ t. Eats-Fits _ _ (class_of-Eats n false true)
decl_by-Eats n class_word = class_of-Eats n false false
decl_by-Eats n interface_word = Eats-bind n _ _ (parse_interface-Eats n) λ i. pure-Fits _ _
decl_by-Eats n object_word = Eats-bind n _ _ (parse_object-Eats n) λ o. pure-Fits _ _
decl_by-Eats n driver_word = Eats-bind n _ _ (parse_driver-Eats n) λ d. pure-Fits _ _
decl_by-Eats n _ = as_stmt-Eats n

parse_decl-Eats : (n : ℕ) → Eats n parse_decl
unfolding parse_decl
parse_decl-Eats n = Late-bind n _ _ (cur-Fits n) λ t. decl_by-Eats n t.ty

program_loop-Fits : (m : ℕ) → Fits m (program_loop m)
unfolding program_loop
program_loop-Fits zero = Fits-zero _
program_loop-Fits (suc m) = Fits-bind _ _ _ (at-Fits _ eof) λ last.
    Fits-if _ last _ _ (λ y. pure-Fits _ _)
      λ y. Eats-Fits _ _ (
        Eats-then m _ _ (parse_decl-Eats _)
          λ d. Fits-bind m _ _ (program_loop-Fits m) λ ds. pure-Fits _ _)

parse_program-Fits : (n : ℕ) → Fits n parse_program
unfolding parse_program
parse_program-Fits n =
    Fits-bind n _ _ (measured-Fits n _ λ m l. program_loop-Fits m) λ decls. pure-Fits _ _

-- A program or an error.
abbrev pub IsAnswer : {A : Type 0} → Outcome A → Type 0
IsAnswer (ok a ts) = Unit
IsAnswer (failed e) = Unit
IsAnswer panicked = ⊥
IsAnswer out_of_fuel = ⊥

Within-IsAnswer : {A : Type 0} (k : ℕ) (r : Outcome A) → Within k r → IsAnswer r
Within-IsAnswer k (ok a ts) h = tt
Within-IsAnswer k (failed e) h = tt
Within-IsAnswer k panicked h = h
Within-IsAnswer k out_of_fuel h = h

parse_lexed :
    (r : Lexed)
    → Complete r
    → IsAnswer (elim r [
      | Lexer.tokens ts ↦ parse_program ts
      | Lexer.failed e ↦ failed (lexer e)
      | Lexer.out_of_fuel ↦ out_of_fuel
    ])
unfolding Fits
parse_lexed (Lexer.tokens ts) h =
    Within-IsAnswer (length ts) _ (parse_program-Fits (length ts) ts h (omega arith))
parse_lexed (Lexer.failed e) h = tt
parse_lexed Lexer.out_of_fuel h = h

-- On any source the parser ends with a program or an error: no loop and no recursion runs on
-- without taking a token, and no token is looked at behind the end of the file, where the code
-- would panic.
pub parse-IsAnswer : (src : List ℕ) → IsAnswer (parse src)
unfolding parse
parse-IsAnswer src = parse_lexed (tokenize src) (tokenize-Complete src)
