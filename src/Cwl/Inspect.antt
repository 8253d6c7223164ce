-- ===== src/Cwl/Inspect.antt =====
-- `cwl_inputs_inspect` of app.py and `fetch_cwl_text` of cwl_inputs.py: the endpoint that shows the
-- inputs of a document. The texts of the errors are left out.
pub mod Guarded
use openeo_argoworkflows.Base.{
  ℕ, ◌+◌, String, Bool, true, false, not, ◌&&◌, ◌||◌, Option, none, some, List, [], ◌∷◌, ◌==◌, ◌∈◌,
  if◌then◌else◌, string_eq,
}
use openeo_argoworkflows.Base.Dict.{Dict}
use openeo_argoworkflows.Base.Json.{Json, Fields, end}
use openeo_argoworkflows.Base.Lists.{take}
use openeo_argoworkflows.Base.Text.{Text, codes, lower, starts_with, text_eq}
use openeo_argoworkflows.Cwl.Document.{load_cwl_doc}
use openeo_argoworkflows.Cwl.Inputs.{ShownInput, build_input_schema}

pub record CwlInspectRequest : Type 0 where
  pub url : Option Text
  pub cwl : Option String

-- The bytes that a server answers a URL with, `bytes.decode`, and the reader of PyYAML; `none` is an
-- exception.
pub record Web : Type 0 where
  pub urlopen : Text → Option (List ℕ)
  pub decode : List ℕ → Option String
  pub safe_load : String → Option Json

-- `s.split("://", 1)[0]`, for a text with the mark
unfoldable pub before_mark : Text → Option Text
unfolding starts_with
before_mark [] = none
before_mark (c ∷ s) =
    let rest = before_mark s in
    if starts_with (c ∷ s) (codes "://")
    then some []
    else elim rest [ none ↦ none | some t ↦ some (c ∷ t) ]

unfoldable pub scheme_of : Text → Text
unfolding before_mark lower
scheme_of url = elim (before_mark url) [ none ↦ [] | some t ↦ lower t ]

abbrev pub max_cwl_bytes : ℕ
max_cwl_bytes = 1048576

unfoldable pub decoded : Web → Option (List ℕ) → Option String
decoded web none = none
decoded web (some bytes) = web.decode (take (max_cwl_bytes + 1) bytes)

abbrev pub allowed_schemes : List Text
allowed_schemes = codes "http" ∷ codes "https" ∷ []

-- The text, and the URLs that were opened for it.
unfoldable pub fetch_cwl_text : Web → Text → Option String × List Text
unfolding scheme_of decoded
fetch_cwl_text web url =
    if scheme_of url ∈ allowed_schemes
    then (decoded web (web.urlopen url), url ∷ [])
    else (none, [])

pub data Response : Type 0 where
  not_exactly_one : Response
  not_loaded : Response
  no_mapping : Response
  shown : Dict Json ShownInput → Response
  unhandled : Response

is_empty : Fields → Bool
is_empty end = true
is_empty _ = false

unfoldable pub show_doc : Fields → Response
unfolding is_empty
show_doc doc =
    if is_empty doc
    then no_mapping
    else elim (build_input_schema doc) [ none ↦ unhandled | some schema ↦ shown schema ]

unfoldable pub answer : Web → Option String → Response
unfolding show_doc
answer web none = not_loaded
answer web (some text) = elim (load_cwl_doc web.safe_load text) [
  | none ↦ not_loaded
  | some doc ↦ show_doc doc
]

-- `bool(body.url)` and `bool(body.cwl)`
unfoldable pub has_url : Option Text → Bool
has_url none = false
has_url (some url) = not (url == [])

unfoldable pub has_cwl : Option String → Bool
has_cwl none = false
has_cwl (some cwl) = not (cwl == "")

or_no_url : Option Text → Text
or_no_url none = []
or_no_url (some url) = url

-- The response, and the URLs that were opened.
unfoldable pub cwl_inputs_inspect : Web → CwlInspectRequest → Response × List Text
unfolding has_url has_cwl fetch_cwl_text answer or_no_url
cwl_inputs_inspect web body =
    if (has_url body.url && has_cwl body.cwl) || (not (has_url body.url) && not (has_cwl body.cwl))
    then (not_exactly_one, [])
    else if has_url body.url
    then (
      answer web (fetch_cwl_text web (or_no_url body.url)).0,
      (fetch_cwl_text web (or_no_url body.url)).1,
    )
    else (answer web body.cwl, [])
