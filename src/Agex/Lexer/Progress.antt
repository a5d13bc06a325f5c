-- ===== src/Agex/Lexer/Progress.antt =====
-- Every round of the lexer takes characters, and what the list of tokens ends with.
use zeroxos_os.Base.{
  ℕ, zero, suc, ◌+◌, ◌≤◌, ◌<◌, ◌≡◌, refl, inl, inr, Bool-cases, Bool, true, not, ◌&&◌, ◌||◌, Option,
  none, some, List, [], ◌∷◌, if◌then◌else◌, ◌==◌, length, push, arith,
}
use zeroxos_os.Agex.Token.{eof, Token}
use zeroxos_os.Agex.Lexer.{
  is_whitespace, Scan, skipped, found, stuck, span, block_comment, fraction, suffixed, number_from,
  number, escape, string_loop, char_loop, operator_one, operator_two, operator, word, quoted,
  is_digit, is_alphabetic, char_literal_of, scan, Lexed, tokens, failed, out_of_fuel, cons, lex,
  tokenize, in_number, is_alphanumeric, in_word, starts, tail,
}

pub length-span : (test : ℕ → Bool) (cs : List ℕ) → length (span test cs).1 ≤ length cs
unfolding span
length-span test [] = omega arith
length-span test (c ∷ cs) = ground (arith, length-span test cs)

-- What a round leaves is at most `n` characters.
abbrev Leaves : ℕ → Scan → Type 0
Leaves n (skipped rest line col) = length rest ≤ n
Leaves n (found t rest line col) = length rest ≤ n
Leaves n (stuck e) = Unit

Leaves-mono : (n m : ℕ) (s : Scan) → n ≤ m → Leaves n s → Leaves m s
Leaves-mono n m (skipped rest line col) h l = omega arith
Leaves-mono n m (found t rest line col) h l = omega arith
Leaves-mono n m (stuck e) h l = tt

block_comment-Leaves : (cs : List ℕ) (line col : ℕ) → Leaves (length cs) (block_comment cs line col)
unfolding block_comment
block_comment-Leaves [] line col = omega arith
block_comment-Leaves (c ∷ []) line col = omega arith
block_comment-Leaves (c ∷ d ∷ cs) line col = elim (Bool-cases (c == b'*' && d == b'/')) [
  | inl y ↦ rw y (omega arith)
  | inr y ↦ rw y (
      Leaves-mono (length (d ∷ cs)) (length (c ∷ d ∷ cs)) _ (omega arith) (
        block_comment-Leaves (d ∷ cs) (if c == b'\n' then line + 1 else line)
          (if c == b'\n' then 1 else col + 1)))
]

span_takes :
    (test : ℕ → Bool) (c : ℕ) (cs : List ℕ)
    → test c ≡ true
    → length (span test (c ∷ cs)).1 ≤ length cs
unfolding span
span_takes test c cs e = rw e (length-span test cs)

abbrev Parts : ℕ → Option (List ℕ × List ℕ) → Type 0
Parts n none = Unit
Parts n (some (part, rest)) = length rest ≤ n

fraction-Parts : (cs : List ℕ) → Parts (length cs) (fraction cs)
unfolding fraction
fraction-Parts [] = tt
fraction-Parts (c ∷ []) = tt
fraction-Parts (c ∷ d ∷ cs) = elim (Bool-cases (c == b'.' && is_digit d)) [
  | inl y ↦ rw y (omega (arith, length-span in_number (d ∷ cs)))
  | inr y ↦ rw y tt
]

abbrev Rest : ℕ → Option (List ℕ × (List ℕ × (ℕ × ℕ))) → Type 0
Rest n none = Unit
Rest n (some (s, (rest, (line, col)))) = length rest ≤ n

Rest-mono : (n m : ℕ) (o : Option (List ℕ × (List ℕ × (ℕ × ℕ)))) → n ≤ m → Rest n o → Rest m o
Rest-mono n m none h l = tt
Rest-mono n m (some (s, (rest, (line, col)))) h l = omega arith

string_loop-Rest : (cs s : List ℕ) (line col : ℕ) → Rest (length cs) (string_loop cs s line col)
unfolding string_loop
string_loop-Rest [] s line col = tt
string_loop-Rest (c ∷ []) s line col = elim (Bool-cases (c == b'"')) [
  | inl y ↦ rw y (omega arith)
  | inr y ↦ rw y tt
]
string_loop-Rest (c ∷ e ∷ cs) s line col =
    let escaped = string_loop-Rest cs (push s (escape b'"' e)) line (col + 2) in
    let plain =
      string_loop-Rest (e ∷ cs) (push s c) (if c == b'\n' then line + 1 else line)
        (if c == b'\n' then 1 else col + 1) in
    elim (Bool-cases (c == b'"')) [
      | inl y ↦ rw y (omega arith)
      | inr y ↦ elim (Bool-cases (c == b'\\')) [
        | inl z ↦ rw (y, z) (Rest-mono (length cs) _ _ (omega arith) escaped)
        | inr z ↦ rw (y, z) (Rest-mono (length (e ∷ cs)) _ _ (omega arith) plain)
      ]
    ]

char_loop_leaves : (cs s : List ℕ) (col : ℕ) → length (char_loop cs s col).1.0 ≤ length cs
unfolding char_loop
char_loop_leaves [] s col = omega arith
char_loop_leaves (c ∷ []) s col = ground arith
char_loop_leaves (c ∷ d ∷ cs) s col = ground (
  arith,
  char_loop_leaves cs (push s (escape b'\'' d)) (col + 2),
  char_loop_leaves (d ∷ cs) (push s c) (col + 1),
)

number_from-Leaves :
    (n : ℕ) (whole rest : List ℕ) (o : Option (List ℕ × List ℕ)) (line col : ℕ)
    → length rest ≤ n
    → Parts (length rest) o
    → Leaves n (number_from whole rest o line col)
unfolding number_from suffixed
number_from-Leaves n whole rest none line col h p = omega (arith, length-span is_alphanumeric rest)
number_from-Leaves n whole rest (some (part, after)) line col h p =
    omega (arith, length-span is_alphanumeric after)

number-Leaves :
    (c : ℕ) (cs : List ℕ) (line col : ℕ)
    → in_number c ≡ true
    → Leaves (length cs) (number (c ∷ cs) line col)
unfolding number
number-Leaves c cs line col e =
    number_from-Leaves (length cs) _ _ _ line col (span_takes in_number c cs e) (fraction-Parts _)

word-Leaves :
    (c : ℕ) (cs : List ℕ) (line col : ℕ)
    → in_word c ≡ true
    → Leaves (length cs) (word (c ∷ cs) line col)
unfolding word
word-Leaves c cs line col e = span_takes in_word c cs e

quoted-Leaves : (cs : List ℕ) (line col : ℕ) → Leaves (length cs) (quoted cs line col)
unfolding quoted
quoted-Leaves cs line col = ground (arith, string_loop-Rest cs [] line (col + 1))

operator_one-Leaves :
    (c : ℕ) (cs : List ℕ) (line col : ℕ) → Leaves (length cs) (operator_one c cs line col)
unfolding operator_one
operator_one-Leaves c cs line col = ground arith

operator_two-Leaves :
    (c : ℕ) (cs : List ℕ) (line col : ℕ) → Leaves (length cs) (operator_two c cs line col)
unfolding operator_two
operator_two-Leaves c [] line col = operator_one-Leaves c [] line col
operator_two-Leaves c (d ∷ cs) line col = ground (arith, operator_one-Leaves c (d ∷ cs) line col)

operator-Leaves : (c : ℕ) (cs : List ℕ) (line col : ℕ) → Leaves (length cs) (operator c cs line col)
unfolding operator
operator-Leaves c [] line col = operator_two-Leaves c [] line col
operator-Leaves c (d ∷ []) line col = operator_two-Leaves c (d ∷ []) line col
operator-Leaves c (d ∷ e ∷ cs) line col = elim (Bool-cases (c == b'.' && d == b'.' && e == b'.')) [
  | inl y ↦ rw y (omega arith)
  | inr y ↦ rw y (operator_two-Leaves c (d ∷ e ∷ cs) line col)
]

tail-le : (cs : List ℕ) → length (tail cs) ≤ length cs
tail-le [] = omega arith
tail-le (c ∷ cs) = omega arith

scan_token :
    (c : ℕ) (cs : List ℕ) (line col : ℕ)
    → Leaves (length cs) (
        if is_digit c
        then number (c ∷ cs) line col
        else if c == b'"'
        then quoted cs line col
        else if c == b'\''
        then char_literal_of cs line col
        else if is_alphabetic c || c == b'_'
        then word (c ∷ cs) line col
        else operator c cs line col)
unfolding char_literal_of
scan_token c cs line col = elim (Bool-cases (is_digit c)) [
  | inl y ↦ rw y (number-Leaves c cs line col (ground (arith, y)))
  | inr y1 ↦ elim (Bool-cases (c == b'"')) [
    | inl y ↦ rw (y1, y) (quoted-Leaves cs line col)
    | inr y2 ↦ elim (Bool-cases (c == b'\'')) [
      | inl y ↦ rw (y1, y2, y) (char_loop_leaves cs [] (col + 1))
      | inr y3 ↦ elim (Bool-cases (is_alphabetic c || c == b'_')) [
        | inl y ↦ rw (y1, y2, y3, y) (word-Leaves c cs line col (ground (arith, y)))
        | inr y4 ↦ rw (y1, y2, y3, y4) (operator-Leaves c cs line col)
      ]
    ]
  ]
]

-- A round that starts with the character `c` leaves no more than what follows it.
scan-Leaves : (c : ℕ) (cs : List ℕ) (line col : ℕ) → Leaves (length cs) (scan c cs line col)
unfolding scan
scan-Leaves c cs line col = elim (Bool-cases (c == b'\n')) [
  | inl y ↦ rw y (omega arith)
  | inr y1 ↦ elim (Bool-cases (is_whitespace c)) [
    | inl y ↦ rw (y1, y) (omega arith)
    | inr y2 ↦ elim (Bool-cases (c == b'/' && starts b'/' cs)) [
      | inl y ↦ rw (y1, y2, y) (span_takes (λ d. not (d == b'\n')) c cs (ground (arith, y1)))
      | inr y3 ↦ elim (Bool-cases (c == b'/' && starts b'*' cs)) [
        | inl y ↦
            rw (y1, y2, y3, y)
              (Leaves-mono _ _ _ (tail-le cs) (block_comment-Leaves (tail cs) line (col + 2)))
        | inr y4 ↦ rw (y1, y2, y3, y4) (scan_token c cs line col)
      ]
    ]
  ]
]

-- The last token is the end of the file.
abbrev pub EndsInEof : List Token → Type 0
EndsInEof [] = ⊥
EndsInEof (t ∷ []) = (t.ty ≡ eof) × (t.value ≡ [])
EndsInEof (t ∷ u ∷ ts) = EndsInEof (u ∷ ts)

-- The outcomes of the source: tokens up to the end of the file, or an error.
abbrev pub Complete : Lexed → Type 0
Complete (tokens ts) = EndsInEof ts
Complete (failed e) = Unit
Complete out_of_fuel = ⊥

cons-Complete : (t : Token) (r : Lexed) → Complete r → Complete (cons t r)
cons-Complete t (tokens []) h = absurd h
cons-Complete t (tokens (u ∷ ts)) h = h
cons-Complete t (failed e) h = tt
cons-Complete t out_of_fuel h = h

lex_after :
    (n m : ℕ) (s : Scan)
    → Leaves m s
    → m < n
    → ((rest : List ℕ) (line col : ℕ) → length rest < n → Complete (lex n rest line col))
    → Complete (elim s [
      | skipped rest line col ↦ lex n rest line col
      | found t rest line col ↦ cons t (lex n rest line col)
      | stuck e ↦ failed e
    ])
lex_after n m (skipped rest line col) l h ih = ih rest line col (omega arith)
lex_after n m (found t rest line col) l h ih =
    cons-Complete t (lex n rest line col) (ih rest line col (omega arith))
lex_after n m (stuck e) l h ih = tt

lex-Complete : (n : ℕ) (cs : List ℕ) (line col : ℕ) → length cs < n → Complete (lex n cs line col)
unfolding lex
lex-Complete zero cs line col h = absurd (omega arith)
lex-Complete (suc n) [] line col h = (refl, refl)
lex-Complete (suc n) (c ∷ cs) line col h =
    lex_after n (length cs) (scan c cs line col) (scan-Leaves c cs line col) (omega arith)
      (λ rest line' col' k. lex-Complete n rest line' col' k)

-- On any source the lexer ends within one round for each character and one more: with a list of
-- tokens whose last is the end of the file, or with an error.
pub tokenize-Complete : (src : List ℕ) → Complete (tokenize src)
unfolding tokenize
tokenize-Complete src = lex-Complete (length src + 1) src 1 1 (omega arith)
