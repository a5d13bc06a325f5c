-- ===== src/Agex/Lexer/Open.antt =====
-- Comments and character literals that the source does not close.
use mathlib.Core.List.{append-nil}
use zeroxos_os.Base.{
  push-append, push-eq-append, ℕ, ◌+◌, ◌≡◌, ◌≢◌, refl, ◌∙◌, false, List, [], ◌∷◌, ◌++◌,
  if◌then◌else◌, ◌==◌, length, push, All, arith,
}
use zeroxos_os.Agex.Token.{char_literal}
use zeroxos_os.Agex.Lexer.{
  skipped, found, block_comment, char_loop, char_literal_of, scan, token, is_whitespace,
}

abbrev pub Lacks : ℕ → ℕ → Type 0
Lacks k c = c ≢ k

block_comment_open :
    (body : List ℕ) (x line col : ℕ)
    → All (Lacks b'*') body
    → (l : ℕ) × ((k : ℕ) × (block_comment (body ++ (x ∷ [])) line col ≡ skipped (x ∷ []) l k))
unfolding block_comment
block_comment_open [] x line col h = (line, (col, refl))
block_comment_open (c ∷ []) x line col h =
    let e : (c == b'*') ≡ false = ground (arith, h.0) in
    ((if c == b'\n' then line + 1 else line), ((if c == b'\n' then 1 else col + 1), rw e refl))
block_comment_open (c ∷ d ∷ body) x line col h =
    let e : (c == b'*') ≡ false = ground (arith, h.0) in
    rw e (
      block_comment_open (d ∷ body) x (if c == b'\n' then line + 1 else line)
        (if c == b'\n' then 1 else col + 1) h.1)

-- A block comment that is never closed, of a text without stars, is accepted: the round skips all
-- of the source but its last character, which is left to be read as code.
pub open_comment :
    (body : List ℕ) (x line col : ℕ)
    → All (Lacks b'*') body
    → (l : ℕ) × ((k : ℕ) × (scan b'/' (b'*' ∷ (body ++ (x ∷ []))) line col ≡ skipped (x ∷ []) l k))
unfolding scan is_whitespace
open_comment body x line col h = block_comment_open body x line (col + 2) h

abbrev pub IsBare : ℕ → Type 0
IsBare c = (c ≢ b'\'') × (c ≢ b'\\')

char_loop_open :
    (cs s : List ℕ) (col : ℕ)
    → All IsBare cs
    → char_loop cs s col ≡ (s ++ cs, ([], col + length cs))
unfolding char_loop
char_loop_open [] s col h = rw append-nil (ground arith)
char_loop_open (c ∷ []) s col h =
    let e : (c == b'\'') ≡ false = ground (arith, h.0) in rw (e, push-eq-append s c) refl
char_loop_open (c ∷ d ∷ cs) s col h =
    let e : (c == b'\'') ≡ false = ground (arith, h.0) in
    let f : (c == b'\\') ≡ false = ground (arith, h.0) in
    let n : col + 1 + length (d ∷ cs) ≡ col + length (c ∷ d ∷ cs) = omega arith in
    rw (e, f)
      (char_loop_open (d ∷ cs) (push s c) (col + 1) h.1 ∙ rw (push-append s (d ∷ cs) c, n) refl)

-- A character literal that is never closed, of a text without quotes and backslashes, is accepted
-- as a literal of the whole rest of the source; the line count stays, whatever line ends the rest
-- has.
pub open_char :
    (cs : List ℕ) (line col : ℕ)
    → All IsBare cs
    → (k : ℕ) × (scan b'\'' cs line col ≡ found (token char_literal cs line col) [] line k)
unfolding scan is_whitespace char_literal_of
open_char cs line col h = (col + 1 + length cs, rw (char_loop_open cs [] (col + 1) h) refl)
