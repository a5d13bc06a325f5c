-- ===== src/Agex/Codegen/Types.antt =====
-- Types of the source as types of Rust.
use zeroxos_os.Base.{Bool, true, false, List, [], ◌∷◌, ◌++◌, if◌then◌else◌}
use zeroxos_os.Agex.Token.{codes, same_text}
use zeroxos_os.Agex.Ast.{
  Text, TypeNode, TypeNodes, infer_type, named, generic, pointer, no_types, more_types,
}
use zeroxos_os.Agex.Codegen.{join}

abbrev pub type_map : List (Text × Text)
type_map =
    (codes "int", codes "i32")
    ∷ (codes "i8", codes "i8")
    ∷ (codes "i16", codes "i16")
    ∷ (codes "i32", codes "i32")
    ∷ (codes "i64", codes "i64")
    ∷ (codes "u8", codes "u8")
    ∷ (codes "u16", codes "u16")
    ∷ (codes "u32", codes "u32")
    ∷ (codes "u64", codes "u64")
    ∷ (codes "usize", codes "usize")
    ∷ (codes "isize", codes "isize")
    ∷ (codes "f32", codes "f32")
    ∷ (codes "f64", codes "f64")
    ∷ (codes "String", codes "String")
    ∷ (codes "string", codes "String")
    ∷ (codes "str", codes "&str")
    ∷ (codes "bool", codes "bool")
    ∷ (codes "char", codes "char")
    ∷ (codes "Any", codes "impl std::any::Any")
    ∷ (codes "Result", codes "Result")
    ∷ (codes "Option", codes "Option")
    ∷ (codes "Vec", codes "Vec")
    ∷ []

unfoldable pub look_up : List (Text × Text) → Text → Text
look_up [] name = name
look_up ((k, v) ∷ l) name = if same_text k name then v else look_up l name

-- The name of a type, if it is not one of the map.
unfoldable pub base : Text → Text
base name = look_up type_map name

unfoldable pub optional : Bool → Text → Text
optional nullable rust = if nullable then codes "Option<" ++ rust ++ codes ">" else rust

unfoldable mutual
  pub gen_type : TypeNode → Text
  gen_type (infer_type true) = codes "Option<impl std::any::Any>"
  gen_type (infer_type false) = codes "_"
  gen_type (named name nullable) = optional nullable (base name)
  gen_type (generic name args nullable) =
      optional nullable (base name ++ codes "<" ++ join (codes ", ") (gen_types args) ++ codes ">")
  gen_type (pointer inner nullable) = optional nullable (codes "*mut " ++ gen_type inner)

  pub gen_types : TypeNodes → List Text
  gen_types no_types = []
  gen_types (more_types t ts) = gen_type t ∷ gen_types ts

-- `matches!(ty, TypeNode::Infer { .. })`
unfoldable pub is_infer : TypeNode → Bool
is_infer (infer_type nullable) = true
is_infer _ = false
