-- ===== src/Agex/Token.antt =====
-- The tokens of crates/agex/src/lexer.rs. A character is its code point, a text the list of them;
-- a token type that is a word of the language ends in `_word`.
pub mod Operators
pub mod Equality
use Prim.Native.Char.{code}
use Prim.Native.String.{String}
use zeroxos_os.Base.{
  ℕ, Bool, true, false, ◌&&◌, Option, none, some, List, [], ◌∷◌, if◌then◌else◌, ◌==◌,
}

pub data TokenType : Type 0 where
  let_word const_word var_word fn_word return_word if_word else_word for_word : TokenType
  in_word range_word match_word class_word data_word sealed_word interface_word : TokenType
  object_word driver_word async_word await_word unsafe_word extern_word : TokenType
  import_word print_word interrupt_word capability_word : TokenType
  int_literal float_literal string_literal char_literal ident : TokenType
  arrow fat_arrow assign plus_eq minus_eq star_eq slash_eq : TokenType
  plus minus star slash percent eq neq lt le gt ge and_op or_op not_op : TokenType
  amp pipe question ellipsis l_brace r_brace l_paren r_paren l_bracket : TokenType
  r_bracket comma colon semicolon dot eof : TokenType

pub record Token : Type 0 where
  pub ty : TokenType
  pub value : List ℕ
  pub line : ℕ
  pub col : ℕ

pub data LexerError : Type 0 where
  unexpected_char : ℕ → ℕ → ℕ → LexerError
  unterminated_string : ℕ → ℕ → LexerError

abbrev pub codes : String → List ℕ
codes String.[] = []
codes (String.◌∷◌ c s) = code c ∷ codes s

unfoldable pub same_text : List ℕ → List ℕ → Bool
same_text [] [] = true
same_text [] (d ∷ ds) = false
same_text (c ∷ cs) [] = false
same_text (c ∷ cs) (d ∷ ds) = c == d && same_text cs ds

abbrev pub keywords : List (List ℕ × TokenType)
keywords =
    (codes "let", let_word)
    ∷ (codes "const", const_word)
    ∷ (codes "var", var_word)
    ∷ (codes "fn", fn_word)
    ∷ (codes "return", return_word)
    ∷ (codes "if", if_word)
    ∷ (codes "else", else_word)
    ∷ (codes "for", for_word)
    ∷ (codes "in", in_word)
    ∷ (codes "range", range_word)
    ∷ (codes "match", match_word)
    ∷ (codes "class", class_word)
    ∷ (codes "data", data_word)
    ∷ (codes "sealed", sealed_word)
    ∷ (codes "interface", interface_word)
    ∷ (codes "object", object_word)
    ∷ (codes "driver", driver_word)
    ∷ (codes "async", async_word)
    ∷ (codes "await", await_word)
    ∷ (codes "unsafe", unsafe_word)
    ∷ (codes "extern", extern_word)
    ∷ (codes "import", import_word)
    ∷ (codes "print", print_word)
    ∷ (codes "interrupt", interrupt_word)
    ∷ (codes "capability", capability_word)
    ∷ []

-- `KEYWORDS.iter().find(|(k, _)| *k == ident).map(..).unwrap_or(TokenType::Ident)`
unfoldable pub word_type : List ℕ → List (List ℕ × TokenType) → TokenType
word_type text [] = ident
word_type text ((k, t) ∷ ks) = if same_text k text then t else word_type text ks

-- The operators of two characters.
unfoldable pub two_type : ℕ → ℕ → Option TokenType
two_type c d =
    if c == b'-' && d == b'>'
    then some arrow
    else if c == b'=' && d == b'>'
    then some fat_arrow
    else if c == b'=' && d == b'='
    then some eq
    else if c == b'!' && d == b'='
    then some neq
    else if c == b'<' && d == b'='
    then some le
    else if c == b'>' && d == b'='
    then some ge
    else if c == b'&' && d == b'&'
    then some and_op
    else if c == b'|' && d == b'|'
    then some or_op
    else if c == b'+' && d == b'='
    then some plus_eq
    else if c == b'-' && d == b'='
    then some minus_eq
    else if c == b'*' && d == b'='
    then some star_eq
    else if c == b'/' && d == b'='
    then some slash_eq
    else none

-- Those of one character.
unfoldable pub one_type : ℕ → Option TokenType
one_type c =
    if c == b'{'
    then some l_brace
    else if c == b'}'
    then some r_brace
    else if c == b'('
    then some l_paren
    else if c == b')'
    then some r_paren
    else if c == b'['
    then some l_bracket
    else if c == b']'
    then some r_bracket
    else if c == b','
    then some comma
    else if c == b':'
    then some colon
    else if c == b';'
    then some semicolon
    else if c == b'.'
    then some dot
    else if c == b'?'
    then some question
    else if c == b'='
    then some assign
    else if c == b'+'
    then some plus
    else if c == b'-'
    then some minus
    else if c == b'*'
    then some star
    else if c == b'/'
    then some slash
    else if c == b'%'
    then some percent
    else if c == b'<'
    then some lt
    else if c == b'>'
    then some gt
    else if c == b'!'
    then some not_op
    else if c == b'&'
    then some amp
    else if c == b'|'
    then some pipe
    else none
