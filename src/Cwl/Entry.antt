-- ===== src/Cwl/Entry.antt =====
-- Which entry of a packed document is taken.
use mathlib.Core.Path.{subst}
use openeo_argoworkflows.Base.{
  Bool, true, false, none, some, List, [], ◌∷◌, ◌≡◌, inl, inr, refl, sym, ap, ◌∙◌, arith,
  Option-cases, Bool-cases,
}
use openeo_argoworkflows.Base.Lists.{In}
use openeo_argoworkflows.Base.Json.{Fields}
use openeo_argoworkflows.Cwl.Document.{is_main, is_tool, first_where, run_entry}

-- No entry passes a test.
abbrev pub NoneOf : (Fields → Bool) → List Fields → Type 0
NoneOf p [] = Unit
NoneOf p (e ∷ es) = (p e ≡ false) × NoneOf p es

first_where-some :
    (p : Fields → Bool) (es : List Fields) (e : Fields)
    → first_where p es ≡ some e
    → In e es × (p e ≡ true)
unfolding first_where
first_where-some p [] e h = ground arith
first_where-some p (d ∷ es) e h = elim (Bool-cases (p d)) [
  | inl yes_here ↦ let same : d ≡ e = ground arith in (inl (sym same), ap p (sym same) ∙ yes_here)
  | inr not_here ↦ let (m, t) = first_where-some p es e (ground arith) in (inr m, t)
]

first_where-none : (p : Fields → Bool) (es : List Fields) → first_where p es ≡ none → NoneOf p es
unfolding first_where
first_where-none p [] h = tt
first_where-none p (d ∷ es) h = ground (arith, first_where-none p es)

-- Why an entry of a package is the one that runs: it is named main, or nothing is and it is a tool
-- or workflow, or there is none of those either.
pub data Chosen (es : List Fields) (e : Fields) : Type 0 where
  by_name : is_main e ≡ true → Chosen es e
  by_class : NoneOf is_main es → is_tool e ≡ true → Chosen es e
  by_default : NoneOf is_main es → NoneOf is_tool es → Chosen es e

-- The entry that runs is one of the package, and is the entry named main if there is one, and
-- otherwise a tool or workflow if there is one.
run_entry-Chosen :
    (e : Fields) (es : List Fields)
    → In (run_entry (e ∷ es)) (e ∷ es) × Chosen (e ∷ es) (run_entry (e ∷ es))
unfolding run_entry
run_entry-Chosen e es = elim (Option-cases (first_where is_main (e ∷ es))) [
  | inr (m, found) ↦
      let eq : run_entry (e ∷ es) ≡ m = ground arith in
      let (i, named) = first_where-some is_main (e ∷ es) m found in
      subst (λ x. In x (e ∷ es) × Chosen (e ∷ es) x) (sym eq) (i, by_name named)
  | inl none_main ↦ elim (Option-cases (first_where is_tool (e ∷ es))) [
    | inr (t, found) ↦
        let eq : run_entry (e ∷ es) ≡ t = ground arith in
        let (i, tool) = first_where-some is_tool (e ∷ es) t found in
        subst (λ x. In x (e ∷ es) × Chosen (e ∷ es) x) (sym eq)
          (i, by_class (first_where-none is_main (e ∷ es) none_main) tool)
    | inl none_tool ↦
        let eq : run_entry (e ∷ es) ≡ e = ground arith in
        subst (λ x. In x (e ∷ es) × Chosen (e ∷ es) x) (sym eq)
          (
            inl refl,
            by_default (first_where-none is_main (e ∷ es) none_main)
                (first_where-none is_tool (e ∷ es) none_tool),
          )
  ]
]
