-- ===== src/Agex/Codegen.antt =====
-- The code generator of crates/agex/src/codegen.rs: its state, and the lines that it emits.
pub mod Types
pub mod Exprs
pub mod Stmts
pub mod Functions
pub mod Classes
pub mod Program
pub mod Kept
pub mod Answers
mod Tests
use zeroxos_os.Base.{ℕ, zero, suc, ◌+◌, ◌-◌, ◌/◌, ◌%◌, List, [], ◌∷◌, ◌++◌, if◌then◌else◌, ltb}
use zeroxos_os.Agex.Token.{codes}
use zeroxos_os.Agex.Ast.{Text}

-- The variants of each sealed class, with the names of their fields.
abbrev pub Sealed : Type 0
Sealed = List (Text × List (Text × List Text))

pub record Generator : Type 0 where
  pub out : Text
  pub indent : ℕ
  pub warnings : List Text
  pub in_method_fields : List Text
  pub sealed_classes : Sealed

-- `Generator::new`
unfoldable pub new : Generator
new = record { out = []; indent = 0; warnings = []; in_method_fields = []; sealed_classes = [] }

unfoldable pub indentation : ℕ → Text
indentation zero = []
indentation (suc n) = codes "    " ++ indentation n

-- A line behind its indentation; an empty line has none.
unfoldable pub line_of : ℕ → Text → Text
line_of n [] = b'\n' ∷ []
line_of n (c ∷ cs) = indentation n ++ (c ∷ cs) ++ (b'\n' ∷ [])

unfoldable pub emit : Text → Generator → Generator
emit line g = record g { out = g.out ++ line_of g.indent line }

unfoldable pub indented : Generator → Generator
indented g = record g { indent = g.indent + 1 }

-- `self.indent -= 1`, where it is not 0.
unfoldable pub dedented : Generator → Generator
dedented g = record g { indent = g.indent - 1 }

-- A line, what stands one step further in, and a last line.
abbrev pub block : Text → (Generator → Generator) → Text → Generator → Generator
block first body last g = emit last (dedented (body (indented (emit first g))))

-- `join`
unfoldable pub join : Text → List Text → Text
join sep [] = []
join sep (t ∷ []) = t
join sep (t ∷ u ∷ ts) = t ++ sep ++ join sep (u ∷ ts)

unfoldable pub decimal_on : ℕ → ℕ → Text
decimal_on zero n = []
decimal_on (suc f) n =
    if ltb n 10 then (b'0' + n) ∷ [] else decimal_on f (n / 10) ++ (b'0' + n % 10) ∷ []

-- A number as `format!` writes it.
unfoldable pub decimal : ℕ → Text
decimal n = decimal_on (suc n) n
