-- ===== src/Agex/Parser.antt =====
-- The parser's state in crates/agex/src/parser.rs, and what moves it. The position is the list of
-- the tokens that are left.
pub mod Exprs
pub mod Types
pub mod Stmts
pub mod Decls
pub mod Progress
pub mod Rejects
pub mod Sync
pub mod Precedence
mod Tests
use zeroxos_os.Base.{ℕ, Bool, true, false, Option, none, some, List, [], ◌∷◌, if◌then◌else◌, length}
use zeroxos_os.Agex.Token.{TokenType, Token, LexerError}
use zeroxos_os.Agex.Token.Equality.{same_type}
use zeroxos_os.Agex.Ast.{Text}

-- `msg`: `format!("expected {:?}", ty)` and the three fixed texts.
pub data Message : Type 0 where
  expected : TokenType → Message
  expected_body expected_fn unexpected_in_expression : Message

-- `got` is made of the type and the text of the token.
pub data ParseError : Type 0 where
  lexer : LexerError → ParseError
  unexpected : ℕ → ℕ → Message → TokenType → Text → ParseError

-- `panicked` is an index out of bounds; `out_of_fuel` is not in the source.
pub data Outcome (A : Type 0) : Type 0 where
  ok : A → List Token → Outcome A
  failed : ParseError → Outcome A
  panicked out_of_fuel : Outcome A

abbrev pub Parser : Type 0 → Type 0
Parser A = List Token → Outcome A

abbrev pub pure : {A : Type 0} → A → Parser A
pure a ts = ok a ts

abbrev pub bind : {A B : Type 0} → Outcome A → (A → Parser B) → Outcome B
bind (ok a ts) f = f a ts
bind (failed e) f = failed e
bind panicked f = panicked
bind out_of_fuel f = out_of_fuel

infixl 1 ◌>>=◌ ◌>>◌
abbrev pub ◌>>=◌ : {A B : Type 0} → Parser A → (A → Parser B) → Parser B
p >>= f = λ ts. bind (p ts) f

abbrev pub ◌>>◌ : {A B : Type 0} → Parser A → Parser B → Parser B
p >> q = p >>= λ _. q

unfoldable pub cur : Parser Token
cur [] = panicked
cur (t ∷ ts) = ok t (t ∷ ts)

-- `self.pos += 1`
unfoldable pub advance : Parser (Unit {0})
advance [] = panicked
advance (t ∷ ts) = ok tt ts

abbrev pub last_of : Token → List Token → Token
last_of t [] = t
last_of t (u ∷ us) = last_of u us

-- `peek(1)`, which is the last token where there is no next one.
unfoldable pub peek_next : Parser Token
peek_next [] = panicked
peek_next (t ∷ []) = ok t (t ∷ [])
peek_next (t ∷ u ∷ ts) = ok u (t ∷ u ∷ ts)

unfoldable pub at : TokenType → Parser Bool
at ty = do t ← cur; pure (same_type t.ty ty)

-- The error at a token.
abbrev pub reject : {A : Type 0} → Message → Token → Parser A
reject msg t ts = failed (unexpected t.line t.col msg t.ty t.value)

unfoldable pub eat : TokenType → Parser Token
eat ty = do t ← cur; if same_type t.ty ty then (do advance; pure t) else reject (expected ty) t

unfoldable pub maybe : TokenType → Parser (Option Token)
maybe ty = do t ← cur; if same_type t.ty ty then (do advance; pure (some t)) else pure none

-- A loop on as much fuel as there are tokens: each of its rounds takes one.
unfoldable pub measured : {A : Type 0} → (ℕ → Parser A) → Parser A
measured p ts = p (length ts) ts
