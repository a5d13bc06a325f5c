-- ===== src/Agex/Lexer/Tests.antt =====
-- The lexer on small sources.
use zeroxos_os.Base.{◌≡◌, refl, List, [], ◌∷◌, All}
use zeroxos_os.Agex.Token.{ident, let_word, eof, codes, two_type, one_type, word_type, same_text}
use zeroxos_os.Agex.Lexer.{tokens, tokenize, lex, scan, is_whitespace, span, word, token}
use zeroxos_os.Agex.Lexer.Progress.{Complete, tokenize-Complete}
use zeroxos_os.Agex.Lexer.Printer.{Item, name, text, one, two, digits, print, IsItem}
use zeroxos_os.Agex.Lexer.RoundTrip.{Reads, expected, tokenize-print}

abbrev items : List Item
items =
    name (codes "let")
    ∷ name (codes "x1")
    ∷ one b'='
    ∷ digits (codes "42")
    ∷ two b'-' b'>'
    ∷ text (codes "a \"b\" \\")
    ∷ []

items-IsItem : All IsItem items
unfolding one_type two_type
items-IsItem =
    ((refl, (refl, (refl, tt))), ((refl, (refl, tt)), (tt, ((refl, (refl, tt)), (tt, (tt, tt))))))

-- `let` is a word of the language, and places are counted from 1.
first_tokens :
    tokenize (codes "let a")
    ≡ tokens
        (token let_word (codes "let") 1 1 ∷ token ident (codes "a") 1 5 ∷ token eof [] 1 6 ∷ [])
unfolding tokenize lex scan is_whitespace word span word_type same_text
first_tokens = refl

tokenize-print_example : Reads (tokenize (print items)) (expected items)
tokenize-print_example = tokenize-print items items-IsItem

tokenize-Complete_example : Complete (tokenize (codes "a \"b"))
tokenize-Complete_example = tokenize-Complete (codes "a \"b")
