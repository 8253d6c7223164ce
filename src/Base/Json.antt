-- ===== src/Base/Json.antt =====
-- Values that a JSON or YAML reader gives, and the dictionary access that the program makes on them.
use Prim.Native.String.{String}
use mathlib.Core.Bool.{Bool, true, false, not}
use mathlib.Core.List.{[], ◌∷◌}
use mathlib.Core.Option.{Option, none, some}
use openeo_argoworkflows.Base.Equality.{Eq, ◌==◌, ◌∈◌, string_eq, if◌then◌else◌}
use openeo_argoworkflows.Base.Tests.{is_some}

-- A number is kept as its text. The keys of an object are texts, each at most once.
mutual
  pub data Json : Type 0 where
    null : Json
    bool : Bool → Json
    number : String → Json
    text : String → Json
    array : Items → Json
    object : Fields → Json

  pub data Items : Type 0 where
    nil : Items
    cons : Json → Items → Items

  pub data Fields : Type 0 where
    end : Fields
    field : String → Json → Fields → Fields

-- `d.get(k)`, with `none` for a key that is missing
unfoldable pub lookup : String → Fields → Option Json
lookup k end = none
lookup k (field j v d) = if k == j then some v else lookup k d

-- `d.get(k)`, which gives `None` for a key that is missing
abbrev pub get_or_null : String → Fields → Json
get_or_null k d = elim (lookup k d) [ none ↦ null | some v ↦ v ]

-- `k in d`
abbrev pub has_key : String → Fields → Bool
has_key k d = is_some (lookup k d)

-- `v == s` for a text `s`
abbrev pub is_text : Json → String → Bool
is_text (text t) s = t == s
is_text _ s = false

-- Python's truth of a value
unfoldable pub is_truthy : Json → Bool
is_truthy null = false
is_truthy (bool b) = b
is_truthy (number n) = not (n ∈ ("0" ∷ "0.0" ∷ "-0.0" ∷ []))
is_truthy (text s) = not (s == "")
is_truthy (array nil) = false
is_truthy (array (cons v vs)) = true
is_truthy (object end) = false
is_truthy (object (field k v d)) = true

String-discrete : Discrete String
unfolding string_eq
String-discrete = string_eq.decide

pub Json-discrete : Discrete Json
unfolding String-discrete
Json-discrete = hlevel String-discrete

instance unfoldable pub json_eq : Eq Json
unfolding Json-discrete
json_eq = record { decide = Json-discrete }
