-- ===== src/Agex/Codegen/Kept/Classes.antt =====
-- What classes keep.
use zeroxos_os.Base.{ℕ, suc, List, [], ◌∷◌, map, refl, sym}
use zeroxos_os.Agex.Ast.{
  Text, Param, FnDecl, ClassDecl, class_decl, ClassDecls, no_classes, more_classes,
}
use zeroxos_os.Agex.Codegen.{Generator, emit, block}
use zeroxos_os.Agex.Codegen.Functions.{gen_methods}
use zeroxos_os.Agex.Codegen.Classes.{
  register, variants_of, gen_variants, show_variants, gen_display, gen_sealed, gen_fields,
  gen_struct, gen_new, gen_components, gen_data, gen_regular, gen_class, param_name,
}
use zeroxos_os.Agex.Codegen.Kept.{
  append-nil, Kept, Kept-refl, Kept-trans, emit-Kept, block-Kept, if-Kept,
}
use zeroxos_os.Agex.Codegen.Kept.Functions.{gen_methods-Kept}

-- One step after another.
pub then-Kept :
    (first second : Generator → Generator)
    → ((g : Generator) → Kept g (first g))
    → ((g : Generator) → Kept g (second g))
    → (g : Generator) → Kept g (second (first g))
then-Kept first second h k g = Kept-trans g (first g) _ (h g) (k (first g))

register-Kept :
    (name : Text) (vs : List (Text × List Text)) (g : Generator) → Kept g (register name vs g)
unfolding Kept register
register-Kept name vs g =
    (refl, refl, λ e. e, ([], sym (append-nil g.out)), ((name, vs) ∷ [], refl))

gen_variants-Kept : (cs : ClassDecls) (g : Generator) → Kept g (gen_variants cs g)
unfolding gen_variants
gen_variants-Kept no_classes g = Kept-refl g
gen_variants-Kept (more_classes (class_decl name d s params b m subs) cs) g =
    then-Kept (emit _) (gen_variants cs) (emit-Kept _) (gen_variants-Kept cs) g

show_variants-Kept :
    (class : Text) (cs : ClassDecls) (g : Generator) → Kept g (show_variants class cs g)
unfolding show_variants
show_variants-Kept class no_classes g = Kept-refl g
show_variants-Kept class (more_classes (class_decl name d s params b m subs) cs) g =
    then-Kept (emit _) (show_variants class cs) (emit-Kept _) (show_variants-Kept class cs) g

gen_display-Kept :
    (name : Text) (body : Generator → Generator)
    → ((g : Generator) → Kept g (body g))
    → (g : Generator) → Kept g (gen_display name body g)
unfolding gen_display
gen_display-Kept name body h = block-Kept _ (block _ body _) _ (block-Kept _ body _ h)

gen_sealed-Kept :
    (name : Text) (subs : ClassDecls) (g : Generator) → Kept g (gen_sealed name subs g)
unfolding gen_sealed
gen_sealed-Kept name subs =
    then-Kept (λ g. block _ (gen_variants subs) _ (register name (variants_of subs) g)) _
      (then-Kept (register name (variants_of subs)) (block _ (gen_variants subs) _)
        (register-Kept name (variants_of subs))
        (block-Kept _ (gen_variants subs) _ (gen_variants-Kept subs)))
      (gen_display-Kept name (block _ (show_variants name subs) _)
        (block-Kept _ (show_variants name subs) _ (show_variants-Kept name subs)))

gen_fields-Kept : (params : List Param) (g : Generator) → Kept g (gen_fields params g)
unfolding gen_fields
gen_fields-Kept [] g = Kept-refl g
gen_fields-Kept (p ∷ ps) g = then-Kept (emit _) (gen_fields ps) (emit-Kept _) (gen_fields-Kept ps) g

gen_struct-Kept :
    (name : Text) (params : List Param) (g : Generator) → Kept g (gen_struct name params g)
unfolding gen_struct
gen_struct-Kept name params = block-Kept _ (gen_fields params) _ (gen_fields-Kept params)

gen_new-Kept : (params : List Param) (g : Generator) → Kept g (gen_new params g)
unfolding gen_new
gen_new-Kept params = block-Kept _ (emit _) _ (emit-Kept _)

gen_components-Kept :
    (i : ℕ) (params : List Param) (g : Generator) → Kept g (gen_components i params g)
unfolding gen_components
gen_components-Kept i [] g = Kept-refl g
gen_components-Kept i (p ∷ ps) g =
    then-Kept (emit _) (gen_components (suc i) ps) (emit-Kept _) (gen_components-Kept (suc i) ps) g

gen_data-Kept :
    (name : Text) (params : List Param) (members : List FnDecl) (g : Generator)
    → Kept g (gen_data name params members g)
unfolding gen_data
gen_data-Kept name params members =
    let body : Generator → Generator = λ g.
      gen_methods members (map param_name params) (gen_components 0 params (gen_new params g)) in
    then-Kept (λ g. block _ body _ (gen_struct name params (emit _ g))) _
      (then-Kept (λ g. gen_struct name params (emit _ g)) (block _ body _)
        (then-Kept (emit _) (gen_struct name params) (emit-Kept _) (gen_struct-Kept name params))
        (block-Kept _ body _ (
          then-Kept (λ g. gen_components 0 params (gen_new params g))
            (gen_methods members (map param_name params))
            (then-Kept (gen_new params) (gen_components 0 params) (gen_new-Kept params)
              (gen_components-Kept 0 params))
            (gen_methods-Kept members (map param_name params)))))
      (gen_display-Kept name (emit _) (emit-Kept _))

gen_regular-Kept :
    (name : Text) (params : List Param) (members : List FnDecl) (g : Generator)
    → Kept g (gen_regular name params members g)
unfolding gen_regular
gen_regular-Kept name params members =
    then-Kept (gen_struct name params)
      (block _ (λ g. gen_methods members (map param_name params) (gen_new params g)) _)
      (gen_struct-Kept name params)
      (block-Kept _ (λ g. gen_methods members (map param_name params) (gen_new params g)) _
        (then-Kept (gen_new params) (gen_methods members (map param_name params))
          (gen_new-Kept params) (gen_methods-Kept members (map param_name params))))

pub gen_class-Kept : (c : ClassDecl) (g : Generator) → Kept g (gen_class c g)
unfolding gen_class
gen_class-Kept (class_decl name is_data is_sealed params bases members subs) g =
    if-Kept _ g _ _ (gen_sealed-Kept name subs g) (
      if-Kept is_data g _ _ (gen_data-Kept name params members g)
        (gen_regular-Kept name params members g))
