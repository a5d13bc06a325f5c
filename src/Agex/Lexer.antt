-- ===== src/Agex/Lexer.antt =====
-- `tokenize` of crates/agex/src/lexer.rs. The index into the characters is the list of those that
-- are left, so that `i += 1` goes on with the rest. Each round of the outer loop is `scan`.
pub mod Progress
pub mod Printer
pub mod RoundTrip
pub mod Open
mod Tests
use zeroxos_os.Base.{
  ℕ, zero, suc, ◌+◌, Bool, true, false, ◌&&◌, ◌||◌, not, Option, none, some, List, [], ◌∷◌, ◌++◌,
  if◌then◌else◌, ◌==◌, leb, length, push,
}
use zeroxos_os.Agex.Token.{
  TokenType, int_literal, float_literal, string_literal, char_literal, ellipsis, eof, Token,
  LexerError, unexpected_char, unterminated_string, keywords, word_type, two_type, one_type,
}

abbrev pub between : ℕ → ℕ → ℕ → Bool
between lo hi c = leb lo c && leb c hi

-- `char::is_whitespace`
pub is_whitespace : ℕ → Bool
is_whitespace c =
    between 9 13 c
    || c == 32
    || c == 0x85
    || c == 0xA0
    || c == 0x1680
    || between 0x2000 0x200A c
    || between 0x2028 0x2029 c
    || c == 0x202F
    || c == 0x205F
    || c == 0x3000

abbrev pub is_digit : ℕ → Bool
is_digit c = between b'0' b'9' c

abbrev pub is_alphabetic : ℕ → Bool
is_alphabetic c = between b'A' b'Z' c || between b'a' b'z' c

abbrev pub is_alphanumeric : ℕ → Bool
is_alphanumeric c = is_alphabetic c || is_digit c

abbrev pub in_number : ℕ → Bool
in_number c = is_digit c || c == b'_'

abbrev pub in_word : ℕ → Bool
in_word c = is_alphanumeric c || c == b'_'

-- `while i < chars.len() && test(chars[i]) { text.push(chars[i]); i += 1 }`
pub span : (ℕ → Bool) → List ℕ → List ℕ × List ℕ
span test [] = ([], [])
span test (c ∷ cs) =
    let (taken, rest) = span test cs in if test c then (c ∷ taken, rest) else ([], c ∷ cs)

-- What a round comes to: the characters that are left with the line and the column there, and a
-- token if one was read.
pub data Scan : Type 0 where
  skipped : List ℕ → ℕ → ℕ → Scan
  found : Token → List ℕ → ℕ → ℕ → Scan
  stuck : LexerError → Scan

abbrev pub token : TokenType → List ℕ → ℕ → ℕ → Token
token ty value line col = record { ty = ty; value = value; line = line; col = col }

-- The loop inside a block comment, which looks at two characters.
pub block_comment : List ℕ → ℕ → ℕ → Scan
block_comment [] line col = skipped [] line col
block_comment (c ∷ []) line col = skipped (c ∷ []) line col
block_comment (c ∷ d ∷ cs) line col =
    let rest =
      block_comment (d ∷ cs) (if c == b'\n' then line + 1 else line)
        (if c == b'\n' then 1 else col + 1) in
    if c == b'*' && d == b'/' then skipped cs line (col + 2) else rest

-- The part of a number from its point on, if a digit follows the point.
pub fraction : List ℕ → Option (List ℕ × List ℕ)
fraction [] = none
fraction (c ∷ []) = none
fraction (c ∷ d ∷ cs) =
    if c == b'.' && is_digit d
    then (let (taken, rest) = span in_number (d ∷ cs) in some (c ∷ taken, rest))
    else none

-- The suffix of a number, and the token.
pub suffixed : TokenType → List ℕ → List ℕ → ℕ → ℕ → Scan
suffixed ty digits rest line col =
    let (suffix, left) = span is_alphanumeric rest in
    found (token ty (digits ++ suffix) line col) left line (col + length (digits ++ suffix))

pub number_from : List ℕ → List ℕ → Option (List ℕ × List ℕ) → ℕ → ℕ → Scan
number_from whole rest none line col = suffixed int_literal whole rest line col
number_from whole rest (some (part, after)) line col =
    suffixed float_literal (whole ++ part) after line col

pub number : List ℕ → ℕ → ℕ → Scan
number cs line col =
    let (whole, rest) = span in_number cs in number_from whole rest (fraction rest) line col

-- The character for the one behind a backslash; `quote` is the closing quote of the literal.
pub escape : ℕ → ℕ → ℕ
escape quote e =
    if e == b'n'
    then 10
    else if e == b't'
    then 9
    else if e == b'r'
    then 13
    else if e == b'\\'
    then b'\\'
    else if e == quote
    then quote
    else if e == b'0'
    then 0
    else e

-- The loop inside a string, from its text so far. `none` is the end of the input.
pub string_loop : List ℕ → List ℕ → ℕ → ℕ → Option (List ℕ × (List ℕ × (ℕ × ℕ)))
string_loop [] s line col = none
string_loop (c ∷ []) s line col = if c == b'"' then some (s, ([], (line, col + 1))) else none
string_loop (c ∷ e ∷ cs) s line col =
    let escaped = string_loop cs (push s (escape b'"' e)) line (col + 2) in
    let plain =
      string_loop (e ∷ cs) (push s c) (if c == b'\n' then line + 1 else line)
        (if c == b'\n' then 1 else col + 1) in
    if c == b'"' then some (s, (e ∷ cs, (line, col + 1))) else if c == b'\\' then escaped else plain

pub char_loop : List ℕ → List ℕ → ℕ → List ℕ × (List ℕ × ℕ)
char_loop [] s col = (s, ([], col))
char_loop (c ∷ []) s col = if c == b'\'' then (s, ([], col + 1)) else (push s c, ([], col + 1))
char_loop (c ∷ e ∷ cs) s col =
    let escaped = char_loop cs (push s (escape b'\'' e)) (col + 2) in
    let plain = char_loop (e ∷ cs) (push s c) (col + 1) in
    if c == b'\'' then (s, (e ∷ cs, col + 1)) else if c == b'\\' then escaped else plain

-- Operators of three, two and one characters, in this order.
pub operator_one : ℕ → List ℕ → ℕ → ℕ → Scan
operator_one c cs line col = elim (one_type c) [
  | none ↦ stuck (unexpected_char c line col)
  | some ty ↦ found (token ty (c ∷ []) line col) cs line (col + 1)
]

pub operator_two : ℕ → List ℕ → ℕ → ℕ → Scan
operator_two c [] line col = operator_one c [] line col
operator_two c (d ∷ cs) line col = elim (two_type c d) [
  | none ↦ operator_one c (d ∷ cs) line col
  | some ty ↦ found (token ty (c ∷ d ∷ []) line col) cs line (col + 2)
]

pub operator : ℕ → List ℕ → ℕ → ℕ → Scan
operator c (d ∷ e ∷ cs) line col =
    if c == b'.' && d == b'.' && e == b'.'
    then found (token ellipsis (c ∷ d ∷ e ∷ []) line col) cs line (col + 3)
    else operator_two c (d ∷ e ∷ cs) line col
operator c cs line col = operator_two c cs line col

pub word : List ℕ → ℕ → ℕ → Scan
word cs line col =
    let (text, rest) = span in_word cs in
    found (token (word_type text keywords) text line col) rest line (col + length text)

pub quoted : List ℕ → ℕ → ℕ → Scan
quoted cs line col = elim (string_loop cs [] line (col + 1)) [
  | none ↦ stuck (unterminated_string line col)
  | some (s, (rest, (line', col'))) ↦ found (token string_literal s line col) rest line' col'
]

pub char_literal_of : List ℕ → ℕ → ℕ → Scan
char_literal_of cs line col =
    let (s, (rest, col')) = char_loop cs [] (col + 1) in
    found (token char_literal s line col) rest line col'

abbrev pub starts : ℕ → List ℕ → Bool
starts c [] = false
starts c (d ∷ ds) = d == c

abbrev pub tail : List ℕ → List ℕ
tail [] = []
tail (c ∷ cs) = cs

pub scan : ℕ → List ℕ → ℕ → ℕ → Scan
scan c cs line col =
    if c == b'\n'
    then skipped cs (line + 1) 1
    else if is_whitespace c
    then skipped cs line (col + 1)
    else if c == b'/' && starts b'/' cs
    then (let (comment, rest) = span (λ d. not (d == b'\n')) (c ∷ cs) in skipped rest line col)
    else if c == b'/' && starts b'*' cs
    then block_comment (tail cs) line (col + 2)
    else if is_digit c
    then number (c ∷ cs) line col
    else if c == b'"'
    then quoted cs line col
    else if c == b'\''
    then char_literal_of cs line col
    else if is_alphabetic c || c == b'_'
    then word (c ∷ cs) line col
    else operator c cs line col

-- `Ok(tokens)`, `Err(error)`; `out_of_fuel` is not in the source.
pub data Lexed : Type 0 where
  tokens : List Token → Lexed
  failed : LexerError → Lexed
  out_of_fuel : Lexed

abbrev pub cons : Token → Lexed → Lexed
cons t (tokens ts) = tokens (t ∷ ts)
cons t (failed e) = failed e
cons t out_of_fuel = out_of_fuel

pub lex : ℕ → List ℕ → ℕ → ℕ → Lexed
lex zero cs line col = out_of_fuel
lex (suc n) [] line col = tokens (token eof [] line col ∷ [])
lex (suc n) (c ∷ cs) line col = elim (scan c cs line col) [
  | skipped rest line' col' ↦ lex n rest line' col'
  | found t rest line' col' ↦ cons t (lex n rest line' col')
  | stuck e ↦ failed e
]

-- Every round takes a character, so one round more than there are characters is enough.
pub tokenize : List ℕ → Lexed
tokenize src = lex (length src + 1) src 1 1
