-- ===== src/Executor/Load.antt =====
-- The second half of `load_collection` of process_implementations/io.py, up to its call of `stac_load`,
-- and `_extract_crs` of crs.py. The STAC server and pyproj are parameters.
pub mod Steps
pub mod Bands
pub mod Codes
pub mod Requested
use openeo_argoworkflows.Base.{
  ℕ, Bool, true, false, not, ◌&&◌, ◌||◌, Option, none, some, List, [], ◌∷◌, ◌++◌, ◌⊎◌, inl, inr,
  map, ◌==◌, ◌∈◌, if◌then◌else◌, is_some, nat_eq,
}
use openeo_argoworkflows.Base.Lists.{filter_by}
use openeo_argoworkflows.Base.Decimal.{int_from}
use openeo_argoworkflows.Base.Split.{before, after}
use openeo_argoworkflows.Base.Dict
use openeo_argoworkflows.Base.Dict.{Dict}
use openeo_argoworkflows.Base.Json.{Json, number}
use openeo_argoworkflows.Base.Text.{Text, codes, text_eq, starts_with}
use openeo_argoworkflows.Executor.Query.{
  SpatialExtent, End, Query, query_of, LoadError, no_stac_url, search_failed, no_data_found,
  unknown_crs, null_code,
}
use openeo_argoworkflows.Executor.Raster.{
  Value, AssetFields, Item, Raster, raster_of, default_resolution, match_nodata, load_dtype,
}

pub record Pyproj (Crs : Type 0) : Type 0 where
  pub from_wkt : Json → Option Crs
  pub from_epsg : Json → Option Crs
  pub from_string : Json → Option Crs
  pub unit_name : Crs → Option Text

unfoldable pub extract_crs : {Crs : Type 0} → Pyproj Crs → Dict Text Json → Option Crs
unfolding Dict.get
extract_crs pyproj props = elim (Dict.get (codes "proj:wkt2") props) [
  | some v ↦ pyproj.from_wkt v
  | none ↦ elim (Dict.get (codes "proj:epsg") props) [
    | some v ↦ pyproj.from_epsg v
    | none ↦ elim (Dict.get (codes "proj:code") props) [
      | some v ↦ pyproj.from_string v
      | none ↦ pyproj.from_epsg (number "4326")
    ]
  ]
]

abbrev pub non_data_assets : List Text
non_data_assets =
    codes "thumbnail"
    ∷ codes "tilejson"
    ∷ codes "preview"
    ∷ codes "metadata"
    ∷ codes "visual"
    ∷ codes "rendered_preview"
    ∷ codes "info"
    ∷ []

abbrev pub known_data_assets : List Text
known_data_assets =
    codes "data"
    ∷ codes "B01"
    ∷ codes "B02"
    ∷ codes "B03"
    ∷ codes "B04"
    ∷ codes "B05"
    ∷ codes "B06"
    ∷ codes "B07"
    ∷ codes "B08"
    ∷ codes "B8A"
    ∷ codes "B09"
    ∷ codes "B10"
    ∷ codes "B11"
    ∷ codes "B12"
    ∷ []

some_bands : List Text → Option (List Text)
some_bands [] = none
some_bands (b ∷ bs) = some (b ∷ bs)

unfoldable pub detect_bands : List Text → Option (List Text)
unfolding filter_by some_bands
detect_bands available = elim (some_bands (filter_by (λ a. a ∈ known_data_assets) available)) [
  | some bands ↦ some bands
  | none ↦ some_bands (filter_by (λ a. not (a ∈ non_data_assets)) available)
]

unfoldable pub choose_bands : Option (List Text) → List Text → Option (List Text)
unfolding detect_bands
choose_bands none available = detect_bands available
choose_bands (some bands) available = some bands

-- The number of a code such as EPSG:4326, for a number with no sign and no spaces.
unfoldable pub epsg_number : Text → Option ℕ
unfolding starts_with int_from
epsg_number code =
    if starts_with code (codes "EPSG:")
    then int_from 0 false (before b':' (after b':' code))
    else none

-- A `proj:code` that is null has no `startswith`.
unfoldable pub normalize_asset : AssetFields → LoadError ⊎ AssetFields
unfolding epsg_number
normalize_asset asset = elim asset.proj_code [
  | none ↦ inr asset
  | some none ↦ inl null_code
  | some (some code) ↦ elim (epsg_number code) [
    | none ↦ inr asset
    | some n ↦
        if is_some asset.proj_epsg
        then inr asset
        else inr record asset { proj_epsg = some (some n) }
  ]
]

-- A step of a computation that may raise.
abbrev pub try_then : {A B : Type 0} → LoadError ⊎ A → (A → LoadError ⊎ B) → LoadError ⊎ B
try_then (inl e) f = inl e
try_then (inr a) f = f a

abbrev pub some_or : {A : Type 0} → LoadError → Option A → LoadError ⊎ A
some_or e none = inl e
some_or e (some a) = inr a

unfoldable pub normalize_assets : Dict Text AssetFields → LoadError ⊎ Dict Text AssetFields
unfolding normalize_asset
normalize_assets [] = inr []
normalize_assets ((key, asset) ∷ assets) =
    try_then (normalize_asset asset)
      (λ a. try_then (normalize_assets assets) (λ rest. inr ((key, a) ∷ rest)))

unfoldable pub normalize_items : List Item → LoadError ⊎ List Item
unfolding normalize_assets
normalize_items [] = inr []
normalize_items (item ∷ items) = try_then (normalize_assets item.assets) (λ assets.
    try_then (normalize_items items) (λ rest. inr (record item { assets = assets } ∷ rest)))

unfoldable pub keys : Dict Text AssetFields → List Text
keys [] = []
keys ((key, asset) ∷ assets) = key ∷ keys assets

-- What `stac_load` is called with.
pub record Request (Crs : Type 0) : Type 0 where
  pub items : List Item
  pub crs : Crs
  pub resolution : Value
  pub dtype : Option Text
  pub nodata : Option Value
  pub bands : Option (List Text)

-- `STAC_API_URL`, the search, with `none` for an exception, and pyproj.
pub record Services (Degree Crs : Type 0) : Type 0 where
  pub stac_api_url : Option Text
  pub search : Text → Query Degree → Option (List Item)
  pub pyproj : Pyproj Crs

or_default : Option Value → Value → Value
or_default none v = v
or_default (some w) v = w

unfoldable pub resolution_of : {Crs : Type 0} → Pyproj Crs → Crs → Option Value → Value
unfolding or_default default_resolution
resolution_of pyproj crs resolution =
    or_default resolution (default_resolution (pyproj.unit_name crs))

module _ {Degree Crs : Type 0} (s : Services Degree Crs) where
  -- The items that the search finds, when there are some.
  unfoldable pub found_items : LoadError ⊎ Query Degree → LoadError ⊎ (Item × List Item)
  found_items query = try_then query (λ q. try_then (some_or no_stac_url s.stac_api_url) (λ url.
      try_then (some_or search_failed (s.search url q))
        (λ items. elim items [ [] ↦ inl no_data_found | item ∷ rest ↦ inr (item, rest) ])))

  unfoldable pub request : Item → List Item → Option (List Text) → LoadError ⊎ Request Crs
  unfolding extract_crs raster_of match_nodata normalize_items choose_bands resolution_of load_dtype
      keys
  request item rest bands =
      let raster = raster_of item in
      try_then (some_or unknown_crs (extract_crs s.pyproj item.properties)) (λ crs.
        try_then (match_nodata raster.dtype raster.nodata) (λ nodata.
          try_then (normalize_items (item ∷ rest)) (λ items. inr record {
            items = items;
            crs = crs;
            resolution = resolution_of s.pyproj crs raster.resolution;
            dtype = load_dtype raster.dtype;
            nodata = nodata;
            bands = choose_bands bands (keys item.assets);
          })))

  unfoldable pub load_collection :
      Text
      → Option (SpatialExtent Degree)
      → Option (List End)
      → Option (List Text)
      → LoadError ⊎ Request Crs
  unfolding query_of found_items request
  load_collection id spatial_extent temporal_extent bands =
      try_then (found_items (query_of id spatial_extent temporal_extent))
        (λ (item, rest). request item rest bands)
