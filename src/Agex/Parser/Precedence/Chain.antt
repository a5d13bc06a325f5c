-- ===== src/Agex/Parser/Precedence/Chain.antt =====
-- From a tree's own level to every level.
use zeroxos_os.Base.{
  subst, ap, ◌∙◌, sym, ℕ_discrete, dec_le, ℕ, zero, suc, ◌≤◌, ◌<◌, Bool, true, false, List, ◌∷◌,
  leb, ◌≡◌, ◌≢◌, refl, arith, length,
}
use zeroxos_os.Agex.Token.{Token, codes, l_paren, r_paren, question, colon, ident}
use zeroxos_os.Agex.Parser.Exprs.{expr_on}
use zeroxos_os.Agex.Parser.Precedence.{
  infix_type, infix_text, infix_level, Tree, int_tree, float_tree, string_tree, bool_tree,
  null_tree, this_tree, name_tree, infix_tree, prefix_tree, elvis_tree, cast_tree, to_expr,
  tree_level, tok, wrap, print, print_at,
}
use zeroxos_os.Agex.Parser.Precedence.Levels.{parser_at, Stops-suc}
use zeroxos_os.Agex.Parser.Precedence.Places.{leb-suc, ReadsAt, Reaches-next, ReadsAt-loop}
use zeroxos_os.Agex.Parser.Precedence.Primaries.{close-Stops, group_read, parse_unary_falls}

length-wrap :
    (b : Bool) (p : List Token → List Token) (rest : List Token)
    → ((ts : List Token) → length ts ≤ length (p ts))
    → length rest ≤ length (wrap b p rest)
length-wrap true p rest h = h rest
length-wrap false p rest h = omega (arith, h (tok r_paren (codes ")") ∷ rest))

length-print : (t : Tree) (rest : List Token) → length rest ≤ length (print t rest)
unfolding print
length-print (int_tree v) rest = omega arith
length-print (float_tree v) rest = omega arith
length-print (string_tree v) rest = omega arith
length-print (bool_tree true) rest = omega arith
length-print (bool_tree false) rest = omega arith
length-print null_tree rest = omega arith
length-print this_tree rest = omega arith
length-print (name_tree v p) rest = omega arith
length-print (infix_tree o a b) rest =
    let after = tok (infix_type o) (infix_text o) ∷ print_at (suc (infix_level o)) b rest in
    omega (
      arith,
      length-wrap (leb (infix_level o) (tree_level a)) (print a) after (length-print a),
      length-wrap (leb (suc (infix_level o)) (tree_level b)) (print b) rest (length-print b),
    )
length-print (prefix_tree o a) rest =
    omega (arith, length-wrap (leb 8 (tree_level a)) (print a) rest (length-print a))
length-print (elvis_tree a b) rest =
    let after = tok question (codes "?") ∷ tok colon (codes ":") ∷ print_at 1 b rest in
    omega (
      arith,
      length-wrap (leb 0 (tree_level a)) (print a) after (length-print a),
      length-wrap (leb 1 (tree_level b)) (print b) rest (length-print b),
    )
length-print (cast_tree a v) rest =
    let after = tok ident (codes "is") ∷ tok ident v ∷ rest in
    omega (arith, length-wrap (leb 5 (tree_level a)) (print a) after (length-print a))

-- What a place adds to a tree is no less than what follows.
pub length-print_at :
    (k : ℕ) (t : Tree) (rest : List Token) → length rest ≤ length (print_at k t rest)
length-print_at k t rest = length-wrap (leb k (tree_level t)) (print t) rest (length-print t)

-- From one level to the one before it, where that is not the tree's own.
ReadsAt-eight : (t : Tree) → 8 ≢ tree_level t → ReadsAt 9 t → ReadsAt 8 t
unfolding parser_at
ReadsAt-eight t d h n rest s f =
    let e : leb 8 (tree_level t) ≡ leb 9 (tree_level t) = leb-suc 8 (tree_level t) d in
    rw e (
      parse_unary_falls t (expr_on n) rest (λ p. d (sym p))
      ∙ h n rest (Stops-suc 8 rest s) (rw (← e) f))

ReadsAt-previous : (k : ℕ) (t : Tree) → k < 9 → k ≢ tree_level t → ReadsAt (suc k) t → ReadsAt k t
ReadsAt-previous k t l d h = elim (ℕ_discrete k 8) [
  | yes e ↦ rw e (ReadsAt-eight t (λ p. d (e ∙ p)) (rw (← ap suc e) h))
  | no n ↦ ReadsAt-loop k t (omega arith) (Reaches-next k t (omega arith) d h)
]

-- From a level down to a looser one.
ReadsAt-down :
    (m k : ℕ) (t : Tree)
    → k ≤ m
    → m ≤ 9
    → ((i : ℕ) → k ≤ i → i < m → i ≢ tree_level t)
    → ReadsAt m t
    → ReadsAt k t
ReadsAt-down zero k t l b n h = (let e : k ≡ 0 = omega arith in rw e h)
ReadsAt-down (suc m) k t l b n h = elim (ℕ_discrete k (suc m)) [
  | yes e ↦ rw e h
  | no d ↦
      ReadsAt-down m k t (omega arith) (omega arith) (λ i p q. n i p (omega arith))
        (ReadsAt-previous m t (omega arith) (n m (omega arith) (omega arith)) h)
]

leb_le : (k l : ℕ) → k ≤ l → leb k l ≡ true
leb_le k l h = ground arith

leb_lt : (k l : ℕ) → l < k → leb k l ≡ false
leb_lt k l h = ground arith

-- In parentheses.
print_at_nine :
    (t : Tree) (rest : List Token)
    → tree_level t < 9
    → print_at 9 t rest ≡ tok l_paren (codes "(") ∷ print_at 0 t (tok r_paren (codes ")") ∷ rest)
print_at_nine t rest l = rw (leb_lt 9 (tree_level t) l, leb_le 0 (tree_level t) (omega arith)) refl

ReadsAt-parens : (t : Tree) → tree_level t < 9 → ReadsAt 0 t → ReadsAt 9 t
unfolding parser_at expr_on
ReadsAt-parens t l h zero rest s f =
    let g : length (tok l_paren (codes "(") ∷ print_at 0 t (tok r_paren (codes ")") ∷ rest)) ≤ 1 =
      subst (λ ts. length ts ≤ 1) (print_at_nine t rest l) f in
    absurd (omega (arith, g, length-print_at 0 t (tok r_paren (codes ")") ∷ rest)))
ReadsAt-parens t l h (suc n) rest s f =
    let g : length (tok l_paren (codes "(") ∷ print_at 0 t (tok r_paren (codes ")") ∷ rest))
        ≤ suc (suc n) =
      subst (λ ts. length ts ≤ suc (suc n)) (print_at_nine t rest l) f in
    rw (print_at_nine t rest l) (
      group_read (expr_on (suc n)) (to_expr t) (print_at 0 t (tok r_paren (codes ")") ∷ rest)) rest
        s (h n (tok r_paren (codes ")") ∷ rest) (close-Stops rest) (omega (arith, g))))

-- A tree that is read at its own level is read at every level.
pub ReadsAt-own :
    (t : Tree) (k : ℕ) → tree_level t ≤ 9 → ReadsAt (tree_level t) t → k ≤ 9 → ReadsAt k t
ReadsAt-own t k b own l = elim (dec_le k (tree_level t)) [
  | yes p ↦ ReadsAt-down (tree_level t) k t p b (λ i a c. omega arith) own
  | no q ↦
      ReadsAt-down 9 k t l (omega arith) (λ i a c. omega arith)
        (ReadsAt-parens t (omega arith)
          (ReadsAt-down (tree_level t) 0 t (omega arith) b (λ i a c. omega arith) own))
]
