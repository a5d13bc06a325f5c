-- ===== src/Agex/Token/Operators.antt =====
-- The characters that operators are made of.
use zeroxos_os.Base.{ℕ, ◌≤◌, ◌<◌, ◌≡◌, ◌≢◌, ◌⊎◌, Option, none, some, arith}
use zeroxos_os.Agex.Token.{TokenType, one_type, two_type}

abbrev pub IsSome : Option TokenType → Type 0
IsSome none = ⊥
IsSome (some t) = Unit

-- A character that is no blank, quote, digit, letter or underscore.
abbrev pub IsSign : ℕ → Type 0
IsSign c =
    (33 ≤ c)
    × (c < 127)
    × (c ≢ 34)
    × (c ≢ 39)
    × (c ≢ 95)
    × ((c < 48) ⊎ (57 < c))
    × ((c < 65) ⊎ (90 < c))
    × ((c < 97) ⊎ (122 < c))

pub one_type-IsSign : (c : ℕ) → IsSome (one_type c) → IsSign c
unfolding one_type
one_type-IsSign c h = ground arith

pub two_type-IsSign :
    (c d : ℕ) → IsSome (two_type c d) → IsSign c × (c ≢ b'.') × (d ≢ b'/') × ((c ≡ b'/') → d ≢ b'*')
unfolding two_type
two_type-IsSign c d h = ground arith

pub two_type_blank : (c : ℕ) → two_type c 32 ≡ none
unfolding two_type
two_type_blank c = ground arith
