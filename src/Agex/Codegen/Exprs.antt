-- ===== src/Agex/Codegen/Exprs.antt =====
-- Expressions of the source as expressions of Rust.
use zeroxos_os.Base.{
  ℕ, suc, Bool, true, false, ◌&&◌, ◌||◌, Option, none, some, List, [], ◌∷◌, ◌++◌, if◌then◌else◌,
}
use zeroxos_os.Agex.Token.{codes, same_text}
use zeroxos_os.Agex.Ast.{
  Text, Expr, Exprs, int_expr, float_expr, string_expr, bool_expr, null_expr, this_expr, ident_expr,
  binary, unary, call, method, field, safe_call, elvis, new_expr, cast, no_exprs, more_exprs,
}
use zeroxos_os.Agex.Codegen.{Generator, Sealed, join, decimal}

unfoldable pub is_string : Expr → Bool
is_string (string_expr v) = true
is_string _ = false

abbrev pub quoted : Text → Text
quoted t = codes "\"" ++ t ++ codes "\""

unfoldable pub has_text : List Text → Text → Bool
has_text [] name = false
has_text (f ∷ fs) name = same_text f name || has_text fs name

-- A name inside a method of a class with a field of that name.
unfoldable pub gen_ident : Generator → Text → Text
gen_ident g name = if has_text g.in_method_fields name then codes "self." ++ name else name

unfoldable pub find_fields : List (Text × List Text) → Text → Option (List Text)
find_fields [] name = none
find_fields ((v, fields) ∷ vs) name = if same_text v name then some fields else find_fields vs name

-- The field names of the first variant of that name, in the classes of that name.
unfoldable pub find_variant : Sealed → Text → Text → Option (List Text)
find_variant [] class name = none
find_variant ((c, variants) ∷ cs) class name =
    let later = find_variant cs class name in
    if same_text c class
    then elim (find_fields variants name) [ some fields ↦ some fields | none ↦ later ]
    else later

-- The name that stands before a variant.
unfoldable pub variant_name : Expr → Text
variant_name (ident_expr class) = class
variant_name _ = []

unfoldable pub variant_of : Generator → Expr → Text → Option (List Text)
variant_of g (ident_expr class) name = find_variant g.sealed_classes class name
variant_of g _ name = none

-- Each argument behind the name of its field, or behind `field` and its position.
unfoldable pub field_pairs : ℕ → List Text → List Text → List Text
field_pairs i fields [] = []
field_pairs i [] (a ∷ rest) =
    (codes "field" ++ decimal i ++ codes ": " ++ a) ∷ field_pairs (suc i) [] rest
field_pairs i (f ∷ fs) (a ∷ rest) = (f ++ codes ": " ++ a) ∷ field_pairs (suc i) fs rest

unfoldable pub first_or_zero : List Text → Text
first_or_zero [] = codes "0"
first_or_zero (a ∷ rest) = a

-- The string of a format: a literal string stands in it, anything else is a placeholder.
unfoldable pub format_parts : Exprs → List Text
format_parts no_exprs = []
format_parts (more_exprs (string_expr v) es) = v ∷ format_parts es
format_parts (more_exprs e es) = codes "{}" ∷ format_parts es

-- The texts of the arguments that are no literal strings.
unfoldable pub not_strings : Exprs → List Text → List Text
not_strings (more_exprs e es) (a ∷ rest) =
    if is_string e then not_strings es rest else a ∷ not_strings es rest
not_strings _ _ = []

-- A literal string is turned into a `String`.
unfoldable pub owned_strings : Exprs → List Text → List Text
owned_strings (more_exprs e es) (a ∷ rest) =
    (if is_string e then a ++ codes ".to_string()" else a) ∷ owned_strings es rest
owned_strings _ _ = []

unfoldable pub gen_println : Exprs → List Text → Text
gen_println no_exprs texts = codes "println!()"
gen_println args texts =
    let fmt = join (codes " ") (format_parts args) in
    elim (not_strings args texts) [
      | [] ↦ codes "println!(" ++ quoted fmt ++ codes ")"
      | t ∷ ts ↦
          codes "println!(" ++ quoted fmt ++ codes ", " ++ join (codes ", ") (t ∷ ts) ++ codes ")"
    ]

-- A call of `range` or `println`, or of what the callee's text says.
unfoldable pub gen_call : Expr → Text → Exprs → List Text → Text
gen_call (ident_expr name) callee args texts =
    if same_text name (codes "range")
    then codes "(0.." ++ first_or_zero texts ++ codes ")"
    else if same_text name (codes "println")
    then gen_println args texts
    else callee ++ codes "(" ++ join (codes ", ") texts ++ codes ")"
gen_call _ callee args texts = callee ++ codes "(" ++ join (codes ", ") texts ++ codes ")"

unfoldable pub is_length : Text → Bool
is_length name = same_text name (codes "length") || same_text name (codes "len")

unfoldable pub gen_method : Text → Text → List Text → Text
gen_method recv name texts =
    if same_text name (codes "uppercase")
    then recv ++ codes ".to_uppercase()"
    else if same_text name (codes "lowercase")
    then recv ++ codes ".to_lowercase()"
    else if is_length name
    then recv ++ codes ".len()"
    else recv ++ codes "." ++ name ++ codes "(" ++ join (codes ", ") texts ++ codes ")"

unfoldable mutual
  pub gen_expr : Generator → Expr → Text
  gen_expr g (int_expr value) = value
  gen_expr g (float_expr value) = value
  gen_expr g (string_expr value) = quoted value
  gen_expr g (bool_expr true) = codes "true"
  gen_expr g (bool_expr false) = codes "false"
  gen_expr g null_expr = codes "None"
  gen_expr g this_expr = codes "self"
  gen_expr g (ident_expr name) = gen_ident g name
  gen_expr g (binary op left right) =
      let l = gen_expr g left in
      let r = gen_expr g right in
      if same_text op (codes "+") && (is_string left || is_string right)
      then codes "format!(\"{}{}\", " ++ l ++ codes ", " ++ r ++ codes ")"
      else codes "(" ++ l ++ codes " " ++ op ++ codes " " ++ r ++ codes ")"
  gen_expr g (unary op operand) =
      let e = gen_expr g operand in
      if same_text op (codes "&") then codes "&" ++ e else codes "(" ++ op ++ e ++ codes ")"
  gen_expr g (call callee args) = gen_call callee (gen_expr g callee) args (gen_exprs g args)
  gen_expr g (method recv name args) =
      let r = gen_expr g recv in
      let texts = gen_exprs g args in
      elim (variant_of g recv name) [
        | some fields ↦
            variant_name recv
            ++ codes "::"
            ++ name
            ++ codes " { "
            ++ join (codes ", ") (field_pairs 0 fields texts)
            ++ codes " }"
        | none ↦ gen_method r name texts
      ]
  gen_expr g (field recv name) =
      let r = gen_expr g recv in
      if is_length name then r ++ codes ".len()" else r ++ codes "." ++ name
  gen_expr g (safe_call recv name args) =
      gen_expr g recv
      ++ codes ".as_ref().and_then(|r| Some(r."
      ++ name
      ++ codes "("
      ++ join (codes ", ") (gen_exprs g args)
      ++ codes ")))"
  gen_expr g (elvis left right) =
      gen_expr g left ++ codes ".unwrap_or(" ++ gen_expr g right ++ codes ")"
  gen_expr g (new_expr type_name args) =
      type_name
      ++ codes "::new("
      ++ join (codes ", ") (owned_strings args (gen_exprs g args))
      ++ codes ")"
  gen_expr g (cast e type_name) = gen_expr g e ++ codes " as " ++ type_name

  pub gen_exprs : Generator → Exprs → List Text
  gen_exprs g no_exprs = []
  gen_exprs g (more_exprs e es) = gen_expr g e ∷ gen_exprs g es
