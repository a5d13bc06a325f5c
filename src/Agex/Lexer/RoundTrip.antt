-- ===== src/Agex/Lexer/RoundTrip.antt =====
-- What the printer writes is read back by the lexer, token by token.
use mathlib.Core.List.{append-nil, append_assoc}
use zeroxos_os.Base.{
  push-append, ◌-◌, length-append, ℕ, suc, ◌+◌, ◌≤◌, ◌≡◌, ◌≢◌, refl, ap, ◌∙◌, inl, inr, Bool-cases,
  true, false, ◌||◌, some, List, [], ◌∷◌, ◌++◌, if◌then◌else◌, ◌==◌, length, push, All, arith,
}
use zeroxos_os.Agex.Token.{TokenType, eof, string_literal, Token}
use zeroxos_os.Agex.Lexer.{
  found, escape, string_loop, quoted, scan, token, Lexed, tokens, failed, out_of_fuel, cons, lex,
  tokenize, is_whitespace,
}
use zeroxos_os.Agex.Lexer.Printer.{
  Item, name, digits, text, one, two, escaped, show, print, IsItem, kind, Finds, name_scan,
  digits_scan, one_scan, two_scan,
}

-- A character that needs no backslash, with more behind it.
string_loop_plain :
    (c : ℕ) (cs s : List ℕ) (line col : ℕ)
    → (c == b'"') ≡ false
    → (c == b'\\') ≡ false
    → cs ≢ []
    → string_loop (c ∷ cs) s line col
      ≡ string_loop cs
          (push s c)
          (if c == b'\n' then line + 1 else line)
          (if c == b'\n' then 1 else col + 1)
unfolding string_loop
string_loop_plain c [] s line col q b ne = absurd (ne refl)
string_loop_plain c (d ∷ cs) s line col q b ne = rw (q, b) refl

string_loop_escape :
    (c : ℕ) (cs s : List ℕ) (line col : ℕ)
    → (c == b'"' || c == b'\\') ≡ true
    → string_loop (b'\\' ∷ c ∷ cs) s line col ≡ string_loop cs (push s c) line (col + 2)
unfolding string_loop escape
string_loop_escape c cs s line col h =
    let e : escape b'"' c ≡ c = ground (arith, h) in
    ap (λ t. string_loop cs (push s t) line (col + 2)) e

string_loop_end :
    (rest s : List ℕ) (line col : ℕ)
    → string_loop (b'"' ∷ rest) s line col ≡ some (s, (rest, (line, col + 1)))
unfolding string_loop
string_loop_end [] s line col = refl
string_loop_end (c ∷ rest) s line col = refl

ne-nil : (xs ys : List ℕ) (c : ℕ) → xs ++ (c ∷ ys) ≢ []
ne-nil [] ys c e = cc
ne-nil (x ∷ xs) ys c e = cc

string_run :
    (s acc rest : List ℕ) (line col : ℕ)
    → (line' : ℕ) × ((col' : ℕ) × (string_loop (escaped s ++ (b'"' ∷ rest)) acc line col
          ≡ some (acc ++ s, (rest, (line', col')))))
unfolding escaped
string_run [] acc rest line col =
    (line, (col + 1, rw append-nil (string_loop_end rest acc line col)))
string_run (c ∷ s) acc rest line col = elim (Bool-cases (c == b'"' || c == b'\\')) [
  | inl y ↦
      let (l, (k, e)) = string_run s (push acc c) rest line (col + 2) in
      (
        l,
        (
          k,
          rw y (
              string_loop_escape c (escaped s ++ (b'"' ∷ rest)) acc line col y
              ∙ e
              ∙ ap (λ t. some (t, (rest, (l, k)))) (push-append acc s c)),
        ),
      )
  | inr y ↦
      let (l, (k, e)) =
        string_run s (push acc c) rest (if c == b'\n' then line + 1 else line)
          (if c == b'\n' then 1 else col + 1) in
      (
        l,
        (
          k,
          rw y (
              string_loop_plain c (escaped s ++ (b'"' ∷ rest)) acc line col (ground (arith, y))
                (ground (arith, y)) (ne-nil (escaped s) rest b'"')
              ∙ e
              ∙ ap (λ t. some (t, (rest, (l, k)))) (push-append acc s c)),
        ),
      )
]

scan_quote : (cs : List ℕ) (line col : ℕ) → scan b'"' cs line col ≡ quoted cs line col
unfolding scan is_whitespace
scan_quote cs line col = refl

quoted-some :
    (cs : List ℕ) (line col line' col' : ℕ) (s rest : List ℕ)
    → string_loop cs [] line (col + 1) ≡ some (s, (rest, (line', col')))
    → quoted cs line col ≡ found (token string_literal s line col) rest line' col'
unfolding quoted
quoted-some cs line col line' col' s rest e = rw (quoted, e) refl

text_scan :
    (s rest : List ℕ) (line col : ℕ)
    → Finds b'"' (escaped s ++ (b'"' ∷ 32 ∷ rest)) line col (kind (text s)) (32 ∷ rest)
text_scan s rest line col =
    let (l, (k, e)) = string_run s [] (32 ∷ rest) line (col + 1) in
    (l, (k, scan_quote _ line col ∙ quoted-some _ line col l k s (32 ∷ rest) e))

-- The types and values of the tokens, without their places.
abbrev pub kinds : List Token → List (TokenType × List ℕ)
kinds [] = []
kinds (t ∷ ts) = (t.ty, t.value) ∷ kinds ts

abbrev pub Reads : Lexed → List (TokenType × List ℕ) → Type 0
Reads (tokens ts) ks = kinds ts ≡ ks
Reads (failed e) ks = ⊥
Reads out_of_fuel ks = ⊥

cons-Reads :
    (t : Token) (r : Lexed) (ks : List (TokenType × List ℕ))
    → Reads r ks
    → Reads (cons t r) ((t.ty, t.value) ∷ ks)
cons-Reads t (tokens ts) ks h = ap (λ l. (t.ty, t.value) ∷ l) h
cons-Reads t (failed e) ks h = h
cons-Reads t out_of_fuel ks h = h

lex_found :
    (n c : ℕ) (cs rest : List ℕ) (line col line' col' : ℕ) (t : Token)
    → scan c cs line col ≡ found t rest line' col'
    → lex (suc n) (c ∷ cs) line col ≡ cons t (lex n rest line' col')
unfolding lex
lex_found n c cs rest line col line' col' t e = rw (lex, e) refl

lex_blank :
    (n : ℕ) (rest : List ℕ) (line col : ℕ)
    → lex (suc n) (32 ∷ rest) line col ≡ lex n rest line (col + 1)
unfolding lex scan is_whitespace
lex_blank n rest line col = refl

-- One item: a round that finds it, and a round that skips the space.
lex_item :
    (n c : ℕ) (cs rest : List ℕ) (line col : ℕ) (k : TokenType × List ℕ)
    (ks : List (TokenType × List ℕ))
    → Finds c cs line col k (32 ∷ rest)
    → ((line' col' : ℕ) → Reads (lex n rest line' col') ks)
    → Reads (lex (suc (suc n)) (c ∷ cs) line col) (k ∷ ks)
lex_item n c cs rest line col (ty, value) ks (line', (col', e)) ih =
    rw (lex_found (suc n) c cs (32 ∷ rest) line col line' col' (token ty value line col) e) (
      cons-Reads (token ty value line col) (lex (suc n) (32 ∷ rest) line' col') ks
        (rw (lex_blank n rest line' col') (ih line' (col' + 1))))

lex_end : (n line col : ℕ) → Reads (lex (suc n) [] line col) ((eof, []) ∷ [])
unfolding lex
lex_end n line col = refl

-- The tokens that a list of items stands for.
abbrev pub expected : List Item → List (TokenType × List ℕ)
expected [] = (eof, []) ∷ []
expected (i ∷ is) = kind i ∷ expected is

lex-show :
    (n : ℕ) (i : Item) (rest : List ℕ) (line col : ℕ) (ks : List (TokenType × List ℕ))
    → IsItem i
    → ((line' col' : ℕ) → Reads (lex n rest line' col') ks)
    → Reads (lex (suc (suc n)) (show i ++ (32 ∷ rest)) line col) (kind i ∷ ks)
unfolding show
lex-show n (name []) rest line col ks h ih = absurd h
lex-show n (name (c ∷ cs)) rest line col ks h ih =
    lex_item n c (cs ++ (32 ∷ rest)) rest line col _ ks (name_scan c cs rest line col h) ih
lex-show n (digits []) rest line col ks h ih = absurd h
lex-show n (digits (d ∷ ds)) rest line col ks h ih =
    lex_item n d (ds ++ (32 ∷ rest)) rest line col _ ks (digits_scan d ds rest line col h) ih
lex-show n (text s) rest line col ks h ih = rw (append_assoc (escaped s) (b'"' ∷ []) (32 ∷ rest)) (
    lex_item n b'"' (escaped s ++ (b'"' ∷ 32 ∷ rest)) rest line col _ ks (text_scan s rest line col)
      ih)
lex-show n (one c) rest line col ks h ih =
    lex_item n c (32 ∷ rest) rest line col _ ks (one_scan c rest line col h) ih
lex-show n (two c d) rest line col ks h ih =
    lex_item n c (d ∷ 32 ∷ rest) rest line col _ ks (two_scan c d rest line col h) ih

-- Two rounds for an item, and one for the end.
abbrev rounds : List Item → ℕ
rounds [] = 1
rounds (i ∷ is) = suc (suc (rounds is))

lex-print :
    (is : List Item) (more line col : ℕ)
    → All IsItem is
    → Reads (lex (rounds is + more) (print is) line col) (expected is)
unfolding print
lex-print [] more line col h =
    let e : 1 + more ≡ suc more = omega arith in rw e (lex_end more line col)
lex-print (i ∷ is) more line col h =
    let e : suc (suc (rounds is)) + more ≡ suc (suc (rounds is + more)) = omega arith in
    rw e (
      lex-show (rounds is + more) i (print is) line col (expected is) h.0
        (λ line' col'. lex-print is more line' col' h.1))

length-show : (i : Item) → IsItem i → 1 ≤ length (show i)
unfolding show
length-show (name []) h = absurd h
length-show (name (c ∷ cs)) h = omega arith
length-show (digits []) h = absurd h
length-show (digits (d ∷ ds)) h = omega arith
length-show (text s) h = omega arith
length-show (one c) h = omega arith
length-show (two c d) h = omega arith

rounds-le : (is : List Item) → All IsItem is → rounds is ≤ length (print is) + 1
unfolding print
rounds-le [] h = omega arith
rounds-le (i ∷ is) h =
    omega (arith, rounds-le is h.1, length-show i h.0, length-append (show i) (32 ∷ print is))

-- Words, whole numbers, strings of any characters and operators of one and two characters, printed
-- with quotes and backslashes escaped and with a space behind each, are read back by the lexer as
-- exactly these tokens, in type and value, and the end of the file.
pub tokenize-print : (is : List Item) → All IsItem is → Reads (tokenize (print is)) (expected is)
unfolding tokenize
tokenize-print is h =
    let src = print is in
    let e : length src + 1 ≡ rounds is + (length src + 1 - rounds is) =
      omega (arith, rounds-le is h) in
    rw e (lex-print is (length src + 1 - rounds is) 1 1 h)
