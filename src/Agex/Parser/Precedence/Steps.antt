-- ===== src/Agex/Parser/Precedence/Steps.antt =====
-- An operator is one round of its level's loop, and stops the loops of the tighter levels.
use zeroxos_os.Base.{ℕ, suc, List, ◌∷◌, ◌≡◌, refl}
use zeroxos_os.Agex.Token.{Token, codes, same_text, ident, question, colon}
use zeroxos_os.Agex.Token.Equality.{type_index}
use zeroxos_os.Agex.Ast.{Text, Expr, binary, elvis, cast}
use zeroxos_os.Agex.Parser.{Parser, ok, cur, at, eat, advance, peek_next}
use zeroxos_os.Agex.Parser.Exprs.{binary_loop, operator, single, is_loop, elvis_loop}
use zeroxos_os.Agex.Parser.Precedence.{
  Infix, times, over, modulo, add, sub, below, at_most, above, at_least, same, differ, both, either,
  infix_type, infix_text, infix_level, tok,
}
use zeroxos_os.Agex.Parser.Precedence.Levels.{parser_at, loop_at, quiet, Stops, Stops-all_quiet}

-- An operator takes the next level's expression and goes round again.
pub infix_step :
    (o : Infix) (m : ℕ) (expr : Parser Expr) (l r : Expr) (ts us : List Token)
    → parser_at (suc (infix_level o)) expr ts ≡ ok r us
    → loop_at (infix_level o) expr (suc m) l (tok (infix_type o) (infix_text o) ∷ ts)
      ≡ loop_at (infix_level o) expr m (binary (infix_text o) l r) us
unfolding loop_at parser_at infix_level infix_type infix_text binary_loop operator single cur at eat
    advance type_index
infix_step times m expr l r ts us h = rw h refl
infix_step over m expr l r ts us h = rw h refl
infix_step modulo m expr l r ts us h = rw h refl
infix_step add m expr l r ts us h = rw h refl
infix_step sub m expr l r ts us h = rw h refl
infix_step below m expr l r ts us h = rw h refl
infix_step at_most m expr l r ts us h = rw h refl
infix_step above m expr l r ts us h = rw h refl
infix_step at_least m expr l r ts us h = rw h refl
infix_step same m expr l r ts us h = rw h refl
infix_step differ m expr l r ts us h = rw h refl
infix_step both m expr l r ts us h = rw h refl
infix_step either m expr l r ts us h = rw h refl

pub elvis_step :
    (m : ℕ) (expr : Parser Expr) (l r : Expr) (ts us : List Token)
    → parser_at 1 expr ts ≡ ok r us
    → loop_at 0 expr (suc m) l (tok question (codes "?") ∷ tok colon (codes ":") ∷ ts)
      ≡ loop_at 0 expr m (elvis l r) us
unfolding loop_at parser_at elvis_loop at cur eat advance peek_next type_index
elvis_step m expr l r ts us h = rw h refl

pub cast_step :
    (m : ℕ) (expr : Parser Expr) (l : Expr) (v : Text) (ts : List Token)
    → loop_at 5 expr (suc m) l (tok ident (codes "is") ∷ tok ident v ∷ ts)
      ≡ loop_at 5 expr m (cast l v) ts
unfolding loop_at is_loop cur eat advance type_index same_text
cast_step m expr l v ts = refl

-- An operator does not stop its own level, but those above.
pub infix-Stops :
    (o : Infix) (ts : List Token)
    → Stops (suc (infix_level o)) (tok (infix_type o) (infix_text o) ∷ ts)
unfolding infix_level infix_type infix_text quiet type_index
infix-Stops times ts = Stops-all_quiet 2 _ _ ts refl refl
infix-Stops over ts = Stops-all_quiet 2 _ _ ts refl refl
infix-Stops modulo ts = Stops-all_quiet 2 _ _ ts refl refl
infix-Stops add ts = Stops-all_quiet 3 _ _ ts refl refl
infix-Stops sub ts = Stops-all_quiet 3 _ _ ts refl refl
infix-Stops below ts = Stops-all_quiet 5 _ _ ts refl refl
infix-Stops at_most ts = Stops-all_quiet 5 _ _ ts refl refl
infix-Stops above ts = Stops-all_quiet 5 _ _ ts refl refl
infix-Stops at_least ts = Stops-all_quiet 5 _ _ ts refl refl
infix-Stops same ts = Stops-all_quiet 6 _ _ ts refl refl
infix-Stops differ ts = Stops-all_quiet 6 _ _ ts refl refl
infix-Stops both ts = Stops-all_quiet 7 _ _ ts refl refl
infix-Stops either ts = Stops-all_quiet 8 _ _ ts refl refl

pub question-Stops :
    (ts : List Token) → Stops 1 (tok question (codes "?") ∷ tok colon (codes ":") ∷ ts)
unfolding quiet type_index
question-Stops ts = Stops-all_quiet 9 _ _ (tok colon (codes ":") ∷ ts) refl refl

pub is_word-Stops : (ts : List Token) → Stops 6 (tok ident (codes "is") ∷ ts)
unfolding quiet type_index
is_word-Stops ts = Stops-all_quiet 4 _ _ ts refl refl
