-- ===== src/Agex/Token/Equality.antt =====
-- `==` on token types, which the source derives, by their place in the declaration.
use zeroxos_os.Base.{ℕ, Bool, ◌==◌}
use zeroxos_os.Agex.Token.{
  TokenType, let_word, const_word, var_word, fn_word, return_word, if_word, else_word, for_word,
  in_word, range_word, match_word, class_word, data_word, sealed_word, interface_word, object_word,
  driver_word, async_word, await_word, unsafe_word, extern_word, import_word, print_word,
  interrupt_word, capability_word, int_literal, float_literal, string_literal, char_literal, ident,
  arrow, fat_arrow, assign, plus_eq, minus_eq, star_eq, slash_eq, plus, minus, star, slash, percent,
  eq, neq, lt, le, gt, ge, and_op, or_op, not_op, amp, pipe, question, ellipsis, l_brace, r_brace,
  l_paren, r_paren, l_bracket, r_bracket, comma, colon, semicolon, dot, eof,
}

unfoldable pub type_index : TokenType → ℕ
type_index let_word = 0
type_index const_word = 1
type_index var_word = 2
type_index fn_word = 3
type_index return_word = 4
type_index if_word = 5
type_index else_word = 6
type_index for_word = 7
type_index in_word = 8
type_index range_word = 9
type_index match_word = 10
type_index class_word = 11
type_index data_word = 12
type_index sealed_word = 13
type_index interface_word = 14
type_index object_word = 15
type_index driver_word = 16
type_index async_word = 17
type_index await_word = 18
type_index unsafe_word = 19
type_index extern_word = 20
type_index import_word = 21
type_index print_word = 22
type_index interrupt_word = 23
type_index capability_word = 24
type_index int_literal = 25
type_index float_literal = 26
type_index string_literal = 27
type_index char_literal = 28
type_index ident = 29
type_index arrow = 30
type_index fat_arrow = 31
type_index assign = 32
type_index plus_eq = 33
type_index minus_eq = 34
type_index star_eq = 35
type_index slash_eq = 36
type_index plus = 37
type_index minus = 38
type_index star = 39
type_index slash = 40
type_index percent = 41
type_index eq = 42
type_index neq = 43
type_index lt = 44
type_index le = 45
type_index gt = 46
type_index ge = 47
type_index and_op = 48
type_index or_op = 49
type_index not_op = 50
type_index amp = 51
type_index pipe = 52
type_index question = 53
type_index ellipsis = 54
type_index l_brace = 55
type_index r_brace = 56
type_index l_paren = 57
type_index r_paren = 58
type_index l_bracket = 59
type_index r_bracket = 60
type_index comma = 61
type_index colon = 62
type_index semicolon = 63
type_index dot = 64
type_index eof = 65

abbrev pub same_type : TokenType → TokenType → Bool
same_type a b = type_index a == type_index b
