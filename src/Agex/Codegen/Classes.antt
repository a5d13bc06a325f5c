-- ===== src/Agex/Codegen/Classes.antt =====
-- Classes of the source as types of Rust with their methods.
use zeroxos_os.Base.{ℕ, suc, Bool, true, false, ◌&&◌, not, List, [], ◌∷◌, ◌++◌, map, if◌then◌else◌}
use zeroxos_os.Agex.Token.{codes}
use zeroxos_os.Agex.Ast.{
  Text, Param, FnDecl, ClassDecl, class_decl, ClassDecls, no_classes, more_classes,
}
use zeroxos_os.Agex.Codegen.{Generator, emit, block, join, decimal}
use zeroxos_os.Agex.Codegen.Types.{gen_type}
use zeroxos_os.Agex.Codegen.Exprs.{quoted}
use zeroxos_os.Agex.Codegen.Functions.{name_and_type, plain_params, gen_methods}

unfoldable pub param_name : Param → Text
param_name p = p.name

unfoldable pub names_of : List Param → Text
names_of params = join (codes ", ") (map param_name params)

-- The names of the subclasses, each with those of its parameters.
unfoldable pub variants_of : ClassDecls → List (Text × List Text)
variants_of no_classes = []
variants_of (more_classes (class_decl name d s params b m subs) cs) =
    (name, map param_name params) ∷ variants_of cs

unfoldable pub register : Text → List (Text × List Text) → Generator → Generator
register name variants g = record g { sealed_classes = g.sealed_classes ++ (name, variants) ∷ [] }

unfoldable pub gen_variants : ClassDecls → Generator → Generator
gen_variants no_classes g = g
gen_variants (more_classes (class_decl name d s params b m subs) cs) g =
    gen_variants cs (emit (name ++ codes " { " ++ plain_params params ++ codes " },") g)

-- `${name}`
unfoldable pub dollar_name : Param → Text
dollar_name p = codes "${" ++ p.name ++ codes "}"

-- `${self.name}`
unfoldable pub dollar_self : Param → Text
dollar_self p = codes "${self." ++ p.name ++ codes "}"

unfoldable pub show_variant : Text → Text → List Param → Text
show_variant class name params =
    class
    ++ codes "::"
    ++ name
    ++ codes " { "
    ++ names_of params
    ++ codes " } => write!(f, \""
    ++ name
    ++ codes "(\" + "
    ++ join (codes ", ") (map dollar_name params)
    ++ codes ".to_string() + \")\"),"

unfoldable pub show_variants : Text → ClassDecls → Generator → Generator
show_variants class no_classes g = g
show_variants class (more_classes (class_decl name d s params b m subs) cs) g =
    show_variants class cs (emit (show_variant class name params) g)

-- `impl std::fmt::Display` around the body of `fmt`.
unfoldable pub gen_display : Text → (Generator → Generator) → Generator → Generator
gen_display name body =
    block (codes "impl std::fmt::Display for " ++ name ++ codes " {")
      (block (codes "fn fmt(&self, f: &mut std::fmt::Formatter<'_>) -> std::fmt::Result {") body
        (codes "}"))
      (codes "}")

unfoldable pub gen_sealed : Text → ClassDecls → Generator → Generator
gen_sealed name subs g =
    let g1 = register name (variants_of subs) g in
    let g2 = block (codes "pub enum " ++ name ++ codes " {") (gen_variants subs) (codes "}") g1 in
    gen_display name (block (codes "match self {") (show_variants name subs) (codes "}")) g2

unfoldable pub gen_fields : List Param → Generator → Generator
gen_fields [] g = g
gen_fields (p ∷ ps) g = gen_fields ps (emit (codes "pub " ++ name_and_type p ++ codes ",") g)

unfoldable pub gen_struct : Text → List Param → Generator → Generator
gen_struct name params =
    block (codes "pub struct " ++ name ++ codes " {") (gen_fields params) (codes "}")

unfoldable pub gen_new : List Param → Generator → Generator
gen_new params =
    block (codes "pub fn new(" ++ plain_params params ++ codes ") -> Self {")
      (emit (codes "Self { " ++ names_of params ++ codes " }")) (codes "}")

-- The accessors by position, from 1.
unfoldable pub gen_components : ℕ → List Param → Generator → Generator
gen_components i [] g = g
gen_components i (p ∷ ps) g = gen_components (suc i) ps (
    emit
      (codes "pub fn component_"
        ++ decimal (suc i)
        ++ codes "(&self) -> &"
        ++ gen_type p.ty
        ++ codes " { &self."
        ++ p.name
        ++ codes " }")
      g)

unfoldable pub gen_data : Text → List Param → List FnDecl → Generator → Generator
gen_data name params members g =
    let g1 = gen_struct name params (emit (codes "#[derive(Debug, Clone, PartialEq)]") g) in
    let g2 =
      block (codes "impl " ++ name ++ codes " {")
        (λ g'.
          gen_methods members (map param_name params) (gen_components 0 params (gen_new params g')))
        (codes "}") g1 in
    gen_display name
      (emit (
        codes "write!(f, \""
        ++ name
        ++ codes "(\" + "
        ++ quoted (join (codes ", ") (map dollar_self params))
        ++ codes ".to_string() + \")\")"))
      g2

unfoldable pub gen_regular : Text → List Param → List FnDecl → Generator → Generator
gen_regular name params members g =
    block (codes "impl " ++ name ++ codes " {")
      (λ g'. gen_methods members (map param_name params) (gen_new params g')) (codes "}")
      (gen_struct name params g)

unfoldable pub is_empty : ClassDecls → Bool
is_empty no_classes = true
is_empty (more_classes c cs) = false

unfoldable pub gen_class : ClassDecl → Generator → Generator
gen_class (class_decl name is_data is_sealed params bases members subs) g =
    if is_sealed && not (is_empty subs)
    then gen_sealed name subs g
    else if is_data
    then gen_data name params members g
    else gen_regular name params members g
