-- ===== src/Agex/Lexer/Printer.antt =====
-- A printer of tokens, each with a space behind it, and what the lexer makes of one token of it.
use mathlib.Core.List.{append-nil}
use zeroxos_os.Base.{
  ℕ, ◌+◌, ◌≤◌, ◌<◌, ◌≡◌, refl, ◌∙◌, inl, inr, Bool-cases, Bool, true, false, ◌&&◌, ◌||◌, Option,
  none, some, List, [], ◌∷◌, ◌++◌, if◌then◌else◌, ◌==◌, length, All, arith,
}
use zeroxos_os.Agex.Token.{
  TokenType, int_literal, string_literal, eof, keywords, word_type, one_type, two_type,
}
use zeroxos_os.Agex.Token.Operators.{
  IsSome, IsSign, one_type-IsSign, two_type-IsSign, two_type_blank,
}
use zeroxos_os.Agex.Lexer.{
  found, span, is_whitespace, is_digit, is_alphabetic, is_alphanumeric, in_number, in_word,
  fraction, suffixed, number_from, number, operator_one, operator_two, operator, word, scan, token,
  starts,
}

-- What can be printed: a word, a number without a point, a string, an operator.
pub data Item : Type 0 where
  name : List ℕ → Item
  digits : List ℕ → Item
  text : List ℕ → Item
  one : ℕ → Item
  two : ℕ → ℕ → Item

-- Quotes and backslashes get a backslash.
unfoldable pub escaped : List ℕ → List ℕ
escaped [] = []
escaped (c ∷ cs) = if c == b'"' || c == b'\\' then b'\\' ∷ c ∷ escaped cs else c ∷ escaped cs

unfoldable pub show : Item → List ℕ
show (name cs) = cs
show (digits ds) = ds
show (text s) = b'"' ∷ (escaped s ++ b'"' ∷ [])
show (one c) = c ∷ []
show (two c d) = c ∷ d ∷ []

unfoldable pub print : List Item → List ℕ
print [] = []
print (i ∷ is) = show i ++ (32 ∷ print is)

abbrev Holds : (ℕ → Bool) → ℕ → Type 0
Holds test c = test c ≡ true

abbrev IsWord : List ℕ → Type 0
IsWord [] = ⊥
IsWord (c ∷ cs) = ((is_alphabetic c || c == b'_') ≡ true) × All (Holds in_word) cs

abbrev IsDigits : List ℕ → Type 0
IsDigits [] = ⊥
IsDigits (d ∷ ds) = (is_digit d ≡ true) × All (Holds is_digit) ds

abbrev pub IsItem : Item → Type 0
IsItem (name cs) = IsWord cs
IsItem (digits ds) = IsDigits ds
IsItem (text s) = Unit
IsItem (one c) = IsSome (one_type c)
IsItem (two c d) = IsSome (two_type c d)

abbrev pub or_eof : Option TokenType → TokenType
or_eof none = eof
or_eof (some t) = t

-- The type and the value of the token that an item is.
abbrev pub kind : Item → TokenType × List ℕ
kind (name cs) = (word_type cs keywords, cs)
kind (digits ds) = (int_literal, ds)
kind (text s) = (string_literal, s)
kind (one c) = (or_eof (one_type c), c ∷ [])
kind (two c d) = (or_eof (two_type c d), c ∷ d ∷ [])

-- A run of characters that pass a test which a space does not.
span_run :
    (test : ℕ → Bool) (cs rest : List ℕ)
    → test 32 ≡ false
    → All (Holds test) cs
    → span test (cs ++ (32 ∷ rest)) ≡ (cs, 32 ∷ rest)
unfolding span
span_run test [] rest e h = rw e refl
span_run test (c ∷ cs) rest e h = rw (span_run test cs rest e h.1, h.0) refl

All-weaken :
    (p q : ℕ → Bool) (cs : List ℕ)
    → ((c : ℕ) → p c ≡ true → q c ≡ true)
    → All (Holds p) cs
    → All (Holds q) cs
All-weaken p q [] f h = tt
All-weaken p q (c ∷ cs) f h = (f c h.0, All-weaken p q cs f h.1)

-- A round on `c ∷ cs` finds a token of this type and value, and goes on with `rest`.
abbrev pub Finds : ℕ → List ℕ → ℕ → ℕ → TokenType × List ℕ → List ℕ → Type 0
Finds c cs line col (ty, value) rest =
    (line' : ℕ) × ((col' : ℕ) × (scan c cs line col
        ≡ found (token ty value line col) rest line' col'))

not_blank : (c : ℕ) → (33 ≤ c) → c < 127 → ((c == b'\n') ≡ false) × (is_whitespace c ≡ false)
unfolding is_whitespace
not_blank c lo hi = (ground arith, ground arith)

scan-word :
    (c : ℕ) (cs : List ℕ) (line col : ℕ)
    → (is_alphabetic c || c == b'_') ≡ true
    → scan c cs line col ≡ word (c ∷ cs) line col
unfolding scan
scan-word c cs line col h =
    let (e1, e2) = not_blank c (ground (arith, h)) (ground (arith, h)) in
    let e3 : (c == b'/') ≡ false = ground (arith, h) in
    let e4 : is_digit c ≡ false = ground (arith, h) in
    let e5 : (c == b'"') ≡ false = ground (arith, h) in
    let e6 : (c == b'\'') ≡ false = ground (arith, h) in rw (e1, e2, e3, e4, e5, e6, h) refl

scan_digit :
    (c : ℕ) (cs : List ℕ) (line col : ℕ)
    → is_digit c ≡ true
    → scan c cs line col ≡ number (c ∷ cs) line col
unfolding scan
scan_digit c cs line col h =
    let (e1, e2) = not_blank c (ground (arith, h)) (ground (arith, h)) in
    let e3 : (c == b'/') ≡ false = ground (arith, h) in rw (e1, e2, e3, h) refl

pub name_scan :
    (c : ℕ) (cs rest : List ℕ) (line col : ℕ)
    → IsWord (c ∷ cs)
    → Finds c (cs ++ (32 ∷ rest)) line col (kind (name (c ∷ cs))) (32 ∷ rest)
unfolding word
name_scan c cs rest line col (h, hs) =
    let run : span in_word (c ∷ cs ++ (32 ∷ rest)) ≡ (c ∷ cs, 32 ∷ rest) =
      span_run in_word (c ∷ cs) rest refl (ground (arith, h), hs) in
    (line, (col + length (c ∷ cs), scan-word c _ line col h ∙ rw run refl))

fraction_space : (rest : List ℕ) → fraction (32 ∷ rest) ≡ none
unfolding fraction
fraction_space [] = refl
fraction_space (c ∷ rest) = refl

pub digits_scan :
    (d : ℕ) (ds rest : List ℕ) (line col : ℕ)
    → IsDigits (d ∷ ds)
    → Finds d (ds ++ (32 ∷ rest)) line col (kind (digits (d ∷ ds))) (32 ∷ rest)
unfolding number number_from suffixed
digits_scan d ds rest line col (h, hs) =
    let run : span in_number (d ∷ ds ++ (32 ∷ rest)) ≡ (d ∷ ds, 32 ∷ rest) =
      span_run in_number (d ∷ ds) rest refl
        (ground (arith, h), All-weaken is_digit in_number ds (λ c e. ground (arith, e)) hs) in
    let none_more : span is_alphanumeric (32 ∷ rest) ≡ ([], 32 ∷ rest) =
      span_run is_alphanumeric [] rest refl tt in
    (
      line,
      (
        col + length (d ∷ ds),
        scan_digit d _ line col h ∙ rw (run, fraction_space rest, none_more, append-nil) refl,
      ),
    )

scan-operator :
    (c : ℕ) (cs : List ℕ) (line col : ℕ)
    → IsSign c
    → (c == b'/' && starts b'/' cs) ≡ false
    → (c == b'/' && starts b'*' cs) ≡ false
    → scan c cs line col ≡ operator c cs line col
unfolding scan
scan-operator c cs line col h n m =
    let (e1, e2) = not_blank c h.0 h.1 in
    let e4 : is_digit c ≡ false = ground (arith, h) in
    let e5 : (c == b'"') ≡ false = ground (arith, h) in
    let e6 : (c == b'\'') ≡ false = ground (arith, h) in
    let e7 : (is_alphabetic c || c == b'_') ≡ false = ground (arith, h) in
    rw (e1, e2, n, m, e4, e5, e6, e7) refl

operator_one_some :
    (c : ℕ) (cs : List ℕ) (line col : ℕ) (o : Option TokenType)
    → one_type c ≡ o
    → IsSome o
    → operator_one c cs line col ≡ found (token (or_eof o) (c ∷ []) line col) cs line (col + 1)
unfolding operator_one
operator_one_some c cs line col none e h = absurd h
operator_one_some c cs line col (some ty) e h = rw (operator_one, e) refl

operator_blank :
    (c : ℕ) (rest : List ℕ) (line col : ℕ)
    → operator c (32 ∷ rest) line col ≡ operator_one c (32 ∷ rest) line col
unfolding operator operator_two
operator_blank c [] line col = rw (operator_two, two_type_blank c) refl
operator_blank c (e ∷ rest) line col = elim (Bool-cases (c == b'.')) [
  | inl y ↦ rw (operator, y, operator_two, two_type_blank c) refl
  | inr y ↦ rw (operator, y, operator_two, two_type_blank c) refl
]

pub one_scan :
    (c : ℕ) (rest : List ℕ) (line col : ℕ)
    → IsItem (one c)
    → Finds c (32 ∷ rest) line col (kind (one c)) (32 ∷ rest)
one_scan c rest line col h = (
  line,
  (
    col + 1,
    scan-operator c (32 ∷ rest) line col (one_type-IsSign c h) (ground arith) (ground arith)
        ∙ operator_blank c rest line col
        ∙ operator_one_some c (32 ∷ rest) line col (one_type c) refl h,
  ),
)

operator_two_some :
    (c d : ℕ) (cs : List ℕ) (line col : ℕ) (o : Option TokenType)
    → two_type c d ≡ o
    → IsSome o
    → (c == b'.') ≡ false
    → operator c (d ∷ 32 ∷ cs) line col
      ≡ found (token (or_eof o) (c ∷ d ∷ []) line col) (32 ∷ cs) line (col + 2)
unfolding operator operator_two
operator_two_some c d cs line col none e h n = absurd h
operator_two_some c d cs line col (some ty) e h n = rw (operator, n, operator_two, e) refl

pub two_scan :
    (c d : ℕ) (rest : List ℕ) (line col : ℕ)
    → IsItem (two c d)
    → Finds c (d ∷ 32 ∷ rest) line col (kind (two c d)) (32 ∷ rest)
two_scan c d rest line col h =
    let (sign, dot, slash, comment) = two_type-IsSign c d h in
    (
      line,
      (
        col + 2,
        scan-operator c (d ∷ 32 ∷ rest) line col sign (ground arith) (ground (arith, comment))
            ∙ operator_two_some c d rest line col (two_type c d) refl h (ground arith),
      ),
    )
