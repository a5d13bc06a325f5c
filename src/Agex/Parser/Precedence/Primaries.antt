-- ===== src/Agex/Parser/Precedence/Primaries.antt =====
-- The two tightest levels: what holds together by itself, parentheses, and the operators in front.
use zeroxos_os.Base.{
  ◌<◌, Bool, true, false, ◌&&◌, ◌||◌, not, List, [], ◌∷◌, leb, ◌≡◌, ◌≢◌, refl, arith,
}
use zeroxos_os.Agex.Token.{Token, codes, same_text, dot, question, l_paren, r_paren}
use zeroxos_os.Agex.Token.Equality.{same_type, type_index}
use zeroxos_os.Agex.Ast.{Text, Expr, ident_expr}
use zeroxos_os.Agex.Parser.{Parser, ok, cur, at, eat, advance, measured}
use zeroxos_os.Agex.Parser.Exprs.{
  expr_on, parse_postfix, parse_primary, primary_by, primary_name, postfix_loop, parse_unary,
  unary_loop,
}
use zeroxos_os.Agex.Parser.Precedence.{
  Infix, times, over, modulo, add, sub, below, at_most, above, at_least, same, differ, both, either,
  Prefix, prefix_type, prefix_text, negate, complement, borrow, is_plain, infix_level, Tree,
  int_tree, float_tree, string_tree, bool_tree, null_tree, this_tree, name_tree, infix_tree,
  prefix_tree, elvis_tree, cast_tree, to_expr, tree_level, tok, print, print_at,
}
use zeroxos_os.Agex.Parser.Precedence.Levels.{
  parser_at, quiet, next_of, Stops, Stops-all_quiet, peek_next-next_of,
}
use zeroxos_os.Agex.Parser.Precedence.Places.{ReadsAt}

quiet_parts : (a b c : Bool) → not (a || b || c) ≡ true → (a ≡ false) × (b ≡ false) × (c ≡ false)
quiet_parts true b c h = absurd cc
quiet_parts false true c h = absurd cc
quiet_parts false false true h = absurd cc
quiet_parts false false false h = (refl, refl, refl)

nothing_applied :
    (t : Token) (ts : List Token)
    → Stops 9 (t ∷ ts)
    → (same_type t.ty dot ≡ false)
      × (same_type t.ty l_paren ≡ false)
      × ((same_type t.ty question && same_type (next_of t ts).ty dot) ≡ false)
unfolding Stops quiet
nothing_applied t ts s =
    quiet_parts (same_type t.ty dot) (same_type t.ty l_paren)
      (same_type t.ty question && same_type (next_of t ts).ty dot) (s 9 (omega arith) (omega arith))

-- Nothing is applied to what stands there.
postfix-Stops :
    (expr : Parser Expr) (e : Expr) (rest : List Token)
    → Stops 9 rest
    → measured (λ n. postfix_loop expr n e) rest ≡ ok e rest
unfolding Stops measured postfix_loop at cur
postfix-Stops expr e [] s = absurd s
postfix-Stops expr e (t ∷ ts) s =
    let (d, p, q) = nothing_applied t ts s in rw (peek_next-next_of t ts, d, p, q) refl

pub close-Stops : (ts : List Token) → Stops 0 (tok r_paren (codes ")") ∷ ts)
unfolding quiet type_index
close-Stops ts = Stops-all_quiet 10 _ _ ts refl refl

-- An expression in parentheses.
pub group_read :
    (expr : Parser Expr) (e : Expr) (ts rest : List Token)
    → Stops 9 rest
    → expr ts ≡ ok e (tok r_paren (codes ")") ∷ rest)
    → parse_postfix expr (tok l_paren (codes "(") ∷ ts) ≡ ok e rest
unfolding parse_postfix parse_primary primary_by eat cur advance type_index
group_read expr e ts rest s h = rw h (postfix-Stops expr e rest s)

plain_parts :
    (a b c d : Bool)
    → not (a || b || c || d) ≡ true
    → (a ≡ false) × (b ≡ false) × (c ≡ false) × (d ≡ false)
plain_parts true b c d h = absurd cc
plain_parts false true c d h = absurd cc
plain_parts false false true d h = absurd cc
plain_parts false false false true h = absurd cc
plain_parts false false false false h = (refl, refl, refl, refl)

name_read :
    (expr : Parser Expr) (v : Text) (rest : List Token)
    → is_plain v ≡ true
    → Stops 9 rest
    → primary_name expr false v rest ≡ ok (ident_expr v) rest
unfolding Stops primary_name at cur
name_read expr v [] h s = absurd s
name_read expr v (t ∷ ts) h s =
    let (d, p, q) = nothing_applied t ts s in
    let (a, b, c, e) =
      plain_parts (same_text v (codes "true")) (same_text v (codes "false"))
        (same_text v (codes "null")) (same_text v (codes "this")) h in
    rw (a, b, c, e, p) refl

pub infix_level_bound : (o : Infix) → infix_level o < 8
unfolding infix_level
infix_level_bound times = omega arith
infix_level_bound over = omega arith
infix_level_bound modulo = omega arith
infix_level_bound add = omega arith
infix_level_bound sub = omega arith
infix_level_bound below = omega arith
infix_level_bound at_most = omega arith
infix_level_bound above = omega arith
infix_level_bound at_least = omega arith
infix_level_bound same = omega arith
infix_level_bound differ = omega arith
infix_level_bound both = omega arith
infix_level_bound either = omega arith

-- A tree that is a single token.
pub ReadsAt-single : (t : Tree) → tree_level t ≡ 9 → ReadsAt 9 t
unfolding parser_at print to_expr tree_level parse_postfix parse_primary primary_by primary_name
    same_text eat cur advance type_index
ReadsAt-single (int_tree v) l n rest s f = postfix-Stops _ _ rest s
ReadsAt-single (float_tree v) l n rest s f = postfix-Stops _ _ rest s
ReadsAt-single (string_tree v) l n rest s f = postfix-Stops _ _ rest s
ReadsAt-single (bool_tree true) l n rest s f = postfix-Stops _ _ rest s
ReadsAt-single (bool_tree false) l n rest s f = postfix-Stops _ _ rest s
ReadsAt-single null_tree l n rest s f = postfix-Stops _ _ rest s
ReadsAt-single this_tree l n rest s f = postfix-Stops _ _ rest s
ReadsAt-single (name_tree v h) l n rest s f =
    rw (name_read (expr_on n) v rest h s) (postfix-Stops _ _ rest s)
ReadsAt-single (infix_tree o a b) l n rest s f = absurd (omega (arith, l, infix_level_bound o))
ReadsAt-single (prefix_tree o a) l n rest s f = absurd (omega (arith, l))
ReadsAt-single (elvis_tree a b) l n rest s f = absurd (omega (arith, l))
ReadsAt-single (cast_tree a v) l n rest s f = absurd (omega (arith, l))

leb_level : (o : Infix) → leb 9 (infix_level o) ≡ false
leb_level o = ground (arith, infix_level_bound o)

-- What no operator stands in front of.
pub parse_unary_falls :
    (t : Tree) (expr : Parser Expr) (rest : List Token)
    → tree_level t ≢ 8
    → parse_unary expr (print_at 9 t rest) ≡ parse_postfix expr (print_at 9 t rest)
unfolding parse_unary unary_loop measured cur type_index tree_level print
parse_unary_falls (int_tree v) expr rest h = refl
parse_unary_falls (float_tree v) expr rest h = refl
parse_unary_falls (string_tree v) expr rest h = refl
parse_unary_falls (bool_tree true) expr rest h = refl
parse_unary_falls (bool_tree false) expr rest h = refl
parse_unary_falls null_tree expr rest h = refl
parse_unary_falls this_tree expr rest h = refl
parse_unary_falls (name_tree v p) expr rest h = refl
parse_unary_falls (infix_tree o a b) expr rest h = rw (leb_level o) refl
parse_unary_falls (prefix_tree o a) expr rest h = absurd (h refl)
parse_unary_falls (elvis_tree a b) expr rest h = refl
parse_unary_falls (cast_tree a v) expr rest h = refl

pub ReadsAt-prefix : (o : Prefix) (t : Tree) → ReadsAt 8 t → ReadsAt 8 (prefix_tree o t)
unfolding parser_at parse_unary unary_loop measured eat cur advance type_index tree_level print
    to_expr prefix_type prefix_text Stops
ReadsAt-prefix negate t h n rest s f = rw (h n rest s (omega (arith, f))) refl
ReadsAt-prefix complement t h n rest s f = rw (h n rest s (omega (arith, f))) refl
ReadsAt-prefix borrow t h n rest s f = rw (h n rest s (omega (arith, f))) refl
