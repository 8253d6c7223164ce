-- ===== src/Tests/Inspect.antt =====
-- A document that is fetched, and one that is not.
use openeo_argoworkflows.Base.{
  none, some, [], ◌++◌, ◌∈◌, ◌≡◌, refl, inl, true, false, string_eq, nat_eq,
}
use openeo_argoworkflows.Base.Json.{text}
use openeo_argoworkflows.Base.Text.{Text, codes, lower, starts_with, text_eq}
use openeo_argoworkflows.Cwl.Document.{load_cwl_doc}
use openeo_argoworkflows.Cwl.Inspect.{
  CwlInspectRequest, Web, before_mark, scheme_of, allowed_schemes, decoded, fetch_cwl_text,
  not_loaded, no_mapping, show_doc, answer, has_url, has_cwl, cwl_inputs_inspect,
}
use openeo_argoworkflows.Cwl.Inspect.Guarded.{cwl_inputs_inspect-IsAllowed}

abbrev web : Web
web = record {
  urlopen = λ u. some (codes "null");
  decode = λ bytes. some "null";
  safe_load = λ s. some (text s);
}

abbrev body : CwlInspectRequest
body = record { url = some (codes "HTTPS://host/tool.cwl"); cwl = none }

not_a_mapping : (cwl_inputs_inspect web body).0 ≡ no_mapping
unfolding cwl_inputs_inspect has_url has_cwl fetch_cwl_text scheme_of before_mark starts_with lower
    decoded answer load_cwl_doc show_doc text_eq nat_eq
not_a_mapping = refl

file_refused :
    cwl_inputs_inspect web (record { url = some (codes "file:///etc/passwd"); cwl = none })
    ≡ (not_loaded, [])
unfolding cwl_inputs_inspect has_url has_cwl fetch_cwl_text scheme_of before_mark starts_with lower
    decoded answer load_cwl_doc show_doc text_eq nat_eq
file_refused = refl

cwl_inputs_inspect-IsAllowed_example :
    (body.url ≡ some (codes "HTTPS://host/tool.cwl"))
    × (has_cwl body.cwl ≡ false)
    × (scheme rest : Text) × (codes "HTTPS://host/tool.cwl" ≡ scheme ++ (codes "://" ++ rest))
    × ((lower scheme ∈ allowed_schemes) ≡ true)
unfolding cwl_inputs_inspect has_url has_cwl fetch_cwl_text scheme_of before_mark starts_with lower
    text_eq nat_eq
cwl_inputs_inspect-IsAllowed_example =
    cwl_inputs_inspect-IsAllowed web body (codes "HTTPS://host/tool.cwl") (inl refl)
