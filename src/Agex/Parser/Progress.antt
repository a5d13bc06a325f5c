-- ===== src/Agex/Parser/Progress.antt =====
-- How far a parser goes, when the last token is the end of the file: the rules that follow the code.
pub mod Exprs
pub mod Types
pub mod Stmts
pub mod Decls
use zeroxos_os.Base.{
  ◌-◌, ℕ, zero, suc, ◌≤◌, ◌<◌, ◌≡◌, refl, arith, Bool, true, false, Option, none, some, List, [],
  ◌∷◌, if◌then◌else◌, length, Bool-cases, inl, inr, ◌==◌,
}
use zeroxos_os.Agex.Token.{Token, TokenType, eof}
use zeroxos_os.Agex.Token.Equality.{same_type, type_index}
use zeroxos_os.Agex.Lexer.Progress.{EndsInEof}
use zeroxos_os.Agex.Parser.{
  Parser, Outcome, ok, failed, panicked, out_of_fuel, ParseError, pure, bind, ◌>>=◌, cur, advance,
  peek_next, at, eat, maybe, measured, Message, reject,
}

-- The outcomes of the source with at most `k` tokens left, of which the last is the end of the file.
abbrev pub Within : {A : Type 0} → ℕ → Outcome A → Type 0
Within k (ok a ts) = EndsInEof ts × (length ts ≤ k)
Within k (failed e) = Unit
Within k panicked = ⊥
Within k out_of_fuel = ⊥

-- On up to `n` tokens: no token is given back; at least one is taken.
unfoldable pub Fits : {A : Type 0} → ℕ → Parser A → Type 0
Fits n p = (ts : List Token) → EndsInEof ts → length ts ≤ n → Within (length ts) (p ts)

unfoldable pub Eats : {A : Type 0} → ℕ → Parser A → Type 0
Eats n p = (ts : List Token) → EndsInEof ts → length ts ≤ n → Within (length ts - 1) (p ts)

-- A token is taken where a value is given.
abbrev pub WithinSome : {A : Type 0} → ℕ → Outcome (Option A) → Type 0
WithinSome k (ok none ts) = EndsInEof ts × (length ts ≤ k)
WithinSome k (ok (some a) ts) = EndsInEof ts × (length ts < k)
WithinSome k (failed e) = Unit
WithinSome k panicked = ⊥
WithinSome k out_of_fuel = ⊥

unfoldable pub EatsSome : {A : Type 0} → ℕ → Parser (Option A) → Type 0
EatsSome n p = (ts : List Token) → EndsInEof ts → length ts ≤ n → WithinSome (length ts) (p ts)

Ends-pos : (ts : List Token) → EndsInEof ts → 0 < length ts
Ends-pos [] h = absurd h
Ends-pos (t ∷ ts) h = omega arith

pub Within-mono : {A : Type 0} (k m : ℕ) (r : Outcome A) → k ≤ m → Within k r → Within m r
Within-mono k m (ok a ts) l (h, i) = (h, omega arith)
Within-mono k m (failed e) l h = tt
Within-mono k m panicked l h = h
Within-mono k m out_of_fuel l h = h

pub Eats-Fits : {A : Type 0} (n : ℕ) (p : Parser A) → Eats n p → Fits n p
unfolding Eats Fits
Eats-Fits n p h ts e l = Within-mono _ _ (p ts) (omega arith) (h ts e l)

pub Fits-mono : {A : Type 0} (n m : ℕ) (p : Parser A) → m ≤ n → Fits n p → Fits m p
unfolding Fits
Fits-mono n m p k h ts e l = h ts e (omega arith)

pub Eats-mono : {A : Type 0} (n m : ℕ) (p : Parser A) → m ≤ n → Eats n p → Eats m p
unfolding Eats
Eats-mono n m p k h ts e l = h ts e (omega arith)

Within-bind :
    {A B : Type 0} (k m : ℕ) (r : Outcome A) (f : A → Parser B)
    → Within k r
    → ((a : A) (ts : List Token) → EndsInEof ts → length ts ≤ k → Within m (f a ts))
    → Within m (bind r f)
Within-bind k m (ok a ts) f (h, i) g = g a ts h i
Within-bind k m (failed e) f h g = tt
Within-bind k m panicked f h g = h
Within-bind k m out_of_fuel f h g = h

pub Fits-bind :
    {A B : Type 0} (n : ℕ) (p : Parser A) (f : A → Parser B)
    → Fits n p
    → ((a : A) → Fits n (f a))
    → Fits n (p >>= f)
unfolding Fits
Fits-bind n p f h g ts e l =
    Within-bind _ _ (p ts) f (h ts e l)
      λ a us e' l'. Within-mono _ _ (f a us) (omega arith) (g a us e' (omega arith))

pub Eats-bind :
    {A B : Type 0} (n : ℕ) (p : Parser A) (f : A → Parser B)
    → Eats n p
    → ((a : A) → Fits n (f a))
    → Eats n (p >>= f)
unfolding Fits Eats
Eats-bind n p f h g ts e l =
    Within-bind _ _ (p ts) f (h ts e l)
      λ a us e' l'. Within-mono _ _ (f a us) (omega arith) (g a us e' (omega arith))

-- The same, where what follows has a token less.
pub Eats-then :
    {A B : Type 0} (n : ℕ) (p : Parser A) (f : A → Parser B)
    → Eats (suc n) p
    → ((a : A) → Fits n (f a))
    → Eats (suc n) (p >>= f)
unfolding Fits Eats
Eats-then n p f h g ts e l =
    Within-bind _ _ (p ts) f (h ts e l)
      λ a us e' l'. Within-mono _ _ (f a us) (omega arith) (g a us e' (omega arith))

pub Late-bind :
    {A B : Type 0} (n : ℕ) (p : Parser A) (f : A → Parser B)
    → Fits n p
    → ((a : A) → Eats n (f a))
    → Eats n (p >>= f)
unfolding Fits Eats
Late-bind n p f h g ts e l =
    Within-bind _ _ (p ts) f (h ts e l)
      λ a us e' l'. Within-mono _ _ (f a us) (omega arith) (g a us e' (omega arith))

Within-some :
    {A B : Type 0} (k : ℕ) (r : Outcome (Option A)) (f : Option A → Parser B)
    → WithinSome k r
    → ((ts : List Token) → EndsInEof ts → length ts ≤ k → Within k (f none ts))
    → ((a : A) (ts : List Token) → EndsInEof ts → length ts < k → Within k (f (some a) ts))
    → Within k (bind r f)
Within-some k (ok none ts) f (h, i) g g' = g ts h i
Within-some k (ok (some a) ts) f (h, i) g g' = g' a ts h i
Within-some k (failed e) f h g g' = tt
Within-some k panicked f h g g' = h
Within-some k out_of_fuel f h g g' = h

some-Within : {A : Type 0} (k : ℕ) (r : Outcome (Option A)) → WithinSome k r → Within k r
some-Within k (ok none ts) h = h
some-Within k (ok (some a) ts) (h, i) = (h, omega arith)
some-Within k (failed e) h = tt
some-Within k panicked h = h
some-Within k out_of_fuel h = h

pub Some-bind :
    {A B : Type 0} (n : ℕ) (p : Parser (Option A)) (f : Option A → Parser B)
    → EatsSome (suc n) p
    → Fits (suc n) (f none)
    → ((a : A) → Fits n (f (some a)))
    → Fits (suc n) (p >>= f)
unfolding Fits EatsSome
Some-bind n p f h g g' ts e l =
    Within-some _ (p ts) f (h ts e l)
      (λ us e' l'. Within-mono _ _ (f none us) l' (g us e' (omega arith)))
      λ a us e' l'. Within-mono _ _ (f (some a) us) (omega arith) (g' a us e' (omega arith))

pub Fits-if :
    {A : Type 0} (n : ℕ) (b : Bool) (p q : Parser A)
    → (b ≡ true → Fits n p)
    → (b ≡ false → Fits n q)
    → Fits n (if b then p else q)
Fits-if n true p q h i = h refl
Fits-if n false p q h i = i refl

pub Eats-if :
    {A : Type 0} (n : ℕ) (b : Bool) (p q : Parser A)
    → (b ≡ true → Eats n p)
    → (b ≡ false → Eats n q)
    → Eats n (if b then p else q)
Eats-if n true p q h i = h refl
Eats-if n false p q h i = i refl

pub Fits-option :
    {A B : Type 0} (n : ℕ) (o : Option A) (p : Parser B) (f : A → Parser B)
    → Fits n p
    → ((a : A) → o ≡ some a → Fits n (f a))
    → Fits n (elim o [ none ↦ p | some a ↦ f a ])
Fits-option n none p f h g = h
Fits-option n (some a) p f h g = g a refl

pub pure-Fits : {A : Type 0} (n : ℕ) (a : A) → Fits n (pure a)
unfolding Fits
pure-Fits n a ts e l = (e, omega arith)

pub reject-Eats : (A : Type 0) (n : ℕ) (msg : Message) (t : Token) → Eats n (reject {A = A} msg t)
unfolding Eats
reject-Eats A n msg t ts e l = tt

-- Nothing has no tokens.
pub Eats-zero : {A : Type 0} (p : Parser A) → Eats 0 p
unfolding Eats
Eats-zero p ts e l = let h = Ends-pos ts e in absurd (omega arith)

pub Fits-zero : {A : Type 0} (p : Parser A) → Fits 0 p
unfolding Fits
Fits-zero p ts e l = let h = Ends-pos ts e in absurd (omega arith)

pub measured-Fits :
    {A : Type 0} (n : ℕ) (p : ℕ → Parser A) → ((m : ℕ) → m ≤ n → Fits m (p m)) → Fits n (measured p)
unfolding Fits measured
measured-Fits n p h ts e l = h (length ts) l ts e (omega arith)

pub measured-Eats :
    {A : Type 0} (n : ℕ) (p : ℕ → Parser A) → ((m : ℕ) → m ≤ n → Eats m (p m)) → Eats n (measured p)
unfolding Eats measured
measured-Eats n p h ts e l = h (length ts) l ts e (omega arith)

-- What looks at tokens, and what takes one that is not the end of the file.
pub cur-Fits : (n : ℕ) → Fits n cur
unfolding Fits cur
cur-Fits n [] e l = absurd e
cur-Fits n (t ∷ ts) e l = (e, omega arith)

pub at-Fits : (n : ℕ) (ty : TokenType) → Fits n (at ty)
unfolding Fits at cur
at-Fits n ty [] e l = absurd e
at-Fits n ty (t ∷ ts) e l = (e, omega arith)

pub peek_next-Fits : (n : ℕ) → Fits n peek_next
unfolding Fits peek_next
peek_next-Fits n [] e l = absurd e
peek_next-Fits n (t ∷ []) e l = (e, omega arith)
peek_next-Fits n (t ∷ u ∷ ts) e l = (e, omega arith)

-- Behind a token that is not the end of the file there is another one.
pub Ends-tail :
    (t : Token) (ts : List Token) → EndsInEof (t ∷ ts) → same_type t.ty eof ≡ false → EndsInEof ts
unfolding type_index
Ends-tail t [] (h, i) n = let y : same_type t.ty eof ≡ true = rw h refl in absurd cc
Ends-tail t (u ∷ ts) h n = h

pub not_eof :
    (a b : TokenType) → same_type a b ≡ true → same_type b eof ≡ false → same_type a eof ≡ false
not_eof a b e n = ground arith

pub eat-Eats : (n : ℕ) (ty : TokenType) → same_type ty eof ≡ false → Eats n (eat ty)
unfolding Eats eat cur advance
eat-Eats n ty d [] e l = absurd e
eat-Eats n ty d (t ∷ ts) e l = elim (Bool-cases (same_type t.ty ty)) [
  | inl y ↦ (let z = Ends-tail t ts e (not_eof t.ty ty y d) in rw y (z, omega arith))
  | inr z ↦ rw z tt
]

pub maybe-EatsSome : (n : ℕ) (ty : TokenType) → same_type ty eof ≡ false → EatsSome n (maybe ty)
unfolding EatsSome maybe cur advance
maybe-EatsSome n ty d [] e l = absurd e
maybe-EatsSome n ty d (t ∷ ts) e l = elim (Bool-cases (same_type t.ty ty)) [
  | inl y ↦ (let z = Ends-tail t ts e (not_eof t.ty ty y d) in rw y (z, omega arith))
  | inr z ↦ rw z (e, omega arith)
]

pub maybe-Fits : (n : ℕ) (ty : TokenType) → same_type ty eof ≡ false → Fits n (maybe ty)
unfolding Fits EatsSome
maybe-Fits n ty d ts e l = some-Within (length ts) (maybe ty ts) (maybe-EatsSome n ty d ts e l)

-- A token behind which nothing is given back.
pub eat-Fits : (n : ℕ) (ty : TokenType) → same_type ty eof ≡ false → Fits n (eat ty)
eat-Fits n ty d = Eats-Fits n (eat ty) (eat-Eats n ty d)
