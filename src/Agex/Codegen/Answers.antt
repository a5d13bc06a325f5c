-- ===== src/Agex/Codegen/Answers.antt =====
-- The whole way from a source to a text of Rust.
use zeroxos_os.Base.{List, [], ℕ, ◌≡◌}
use zeroxos_os.Agex.Ast.{Program}
use zeroxos_os.Agex.Hir.{HirProgram, lower}
use zeroxos_os.Agex.Parser.{Outcome, ok, failed, panicked, out_of_fuel}
use zeroxos_os.Agex.Parser.Decls.{parse}
use zeroxos_os.Agex.Parser.Progress.Decls.{IsAnswer, parse-IsAnswer}
use zeroxos_os.Agex.Codegen.{new}
use zeroxos_os.Agex.Codegen.Program.{GenResult, generate, generated, transpile}
use zeroxos_os.Agex.Codegen.Kept.{Kept}
use zeroxos_os.Agex.Codegen.Kept.Program.{gen_program-Kept}

-- An error of the lexer or the parser, or a text without warnings.
unfoldable pub IsQuiet : Outcome GenResult → Type 0
IsQuiet (ok r rest) = r.warnings ≡ []
IsQuiet (failed e) = Unit
IsQuiet panicked = ⊥
IsQuiet out_of_fuel = ⊥

generate-warnings : (prog : HirProgram) → (generate prog).warnings ≡ []
unfolding generate Kept new
generate-warnings prog = (let (i, w, f, o, c) = gen_program-Kept prog new in w)

generated-IsQuiet : (r : Outcome Program) → IsAnswer r → IsQuiet (generated r)
unfolding IsQuiet generated
generated-IsQuiet (ok prog rest) h = generate-warnings (lower prog)
generated-IsQuiet (failed e) h = tt
generated-IsQuiet panicked h = h
generated-IsQuiet out_of_fuel h = h

-- On any source the compiler ends with a text that comes without warnings, or with an error of the
-- lexer or the parser: no loop and no recursion runs on without taking a token, and no token is
-- looked at behind the end of the file, where the code would panic.
pub transpile-IsQuiet : (src : List ℕ) → IsQuiet (transpile src)
unfolding transpile
transpile-IsQuiet src = generated-IsQuiet (parse src) (parse-IsAnswer src)
