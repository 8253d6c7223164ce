-- ===== src/Cwl/Types.antt =====
-- The helpers on CWL types: `_input_is_optional`, `_extract_enum_symbols` and `_type_name`.
use Prim.Native.Char.{code}
use openeo_argoworkflows.Base.{
  String, Bool, false, ◌&&◌, ◌||◌, Option, none, some, List, [], ◌∷◌, ◌==◌, eqb, if◌then◌else◌,
  string_eq,
}
use openeo_argoworkflows.Base.Json.{
  Json, null, text, array, object, Items, nil, cons, Fields, end, field, is_text, get_or_null,
}

-- `s.endswith("?")`
unfoldable pub ends_with_mark : String → Bool
ends_with_mark String.[] = false
ends_with_mark (String.◌∷◌ c s) =
    let rest = ends_with_mark s in if s == "" then eqb (code c) b'?' else rest

-- `s.rstrip("?")`
unfoldable pub rstrip_mark : String → String
rstrip_mark String.[] = ""
rstrip_mark (String.◌∷◌ c s) =
    let rest = rstrip_mark s in if rest == "" && eqb (code c) b'?' then "" else (String.◌∷◌ c rest)

-- `"null" in type_val`
unfoldable pub has_null : Items → Bool
has_null nil = false
has_null (cons v vs) = is_text v "null" || has_null vs

unfoldable pub input_is_optional : Json → Bool
unfolding ends_with_mark has_null
input_is_optional (text s) = ends_with_mark s
input_is_optional (array vs) = has_null vs
input_is_optional _ = false

-- The symbols of a dict that is an enum itself.
unfoldable pub own_symbols : Fields → Option Items
own_symbols d =
    if is_text (get_or_null "type" d) "enum"
    then elim (get_or_null "symbols" d) [ array symbols ↦ some symbols | _ ↦ none ]
    else none

abbrev or_else : Option Items → Option Items → Option Items
or_else none o = o
or_else (some symbols) o = some symbols

-- One function for each place: a type, the members of a union, and the `type` key of a member.
unfoldable mutual
  pub extract_enum_symbols : Json → Option Items
  extract_enum_symbols (array vs) = symbols_of_members vs
  extract_enum_symbols (object d) = or_else (own_symbols d) (symbols_of_type d)
  extract_enum_symbols _ = none

  pub symbols_of_members : Items → Option Items
  symbols_of_members nil = none
  symbols_of_members (cons v vs) = or_else (symbols_of_member v) (symbols_of_members vs)

  pub symbols_of_member : Json → Option Items
  symbols_of_member (object d) = or_else (own_symbols d) (symbols_of_type d)
  symbols_of_member _ = none

  pub symbols_of_type : Fields → Option Items
  symbols_of_type end = none
  symbols_of_type (field k v d) =
      let rest = symbols_of_type d in
      let here = symbols_of_inner v in if "type" == k then here else rest

  pub symbols_of_inner : Json → Option Items
  symbols_of_inner (array vs) = symbols_of_members vs
  symbols_of_inner (object d) = or_else (own_symbols d) (symbols_of_type d)
  symbols_of_inner _ = none

-- What is left of a union without its "null" members: nothing, one, or more.
one_name : List Json → Json
one_name [] = text "null"
one_name (n ∷ []) = n
one_name (n ∷ m ∷ ns) = text "union"

unfoldable mutual
  unfolding one_name

  pub type_name : Json → Json
  type_name (array vs) = one_name (names_of vs)
  type_name (object d) = name_of_type d
  type_name (text s) = text (rstrip_mark s)
  type_name _ = null

  pub names_of : Items → List Json
  names_of nil = []
  names_of (cons v vs) =
      let rest = names_of vs in
      let name = type_name v in if is_text v "null" then rest else name ∷ rest

  pub name_of_type : Fields → Json
  name_of_type end = null
  name_of_type (field k v d) =
      let rest = name_of_type d in let here = name_of_inner v in if "type" == k then here else rest

  -- A dict or list is named in turn; anything else, "enum" included, is its own name.
  pub name_of_inner : Json → Json
  name_of_inner (array vs) = one_name (names_of vs)
  name_of_inner (object d) = name_of_type d
  name_of_inner v = v
