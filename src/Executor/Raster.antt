-- ===== src/Executor/Raster.antt =====
-- The raster metadata that `load_collection` of process_implementations/io.py takes from the first item
-- it finds: the resolution, and the value and the type of the cells without data.
pub mod First
pub mod Nodata
use openeo_argoworkflows.Base.{
  ℕ, Bool, true, false, not, ◌&&◌, Option, none, some, List, [], ◌∷◌, ◌⊎◌, inl, inr, ◌==◌,
  if◌then◌else◌, nat_eq,
}
use openeo_argoworkflows.Base.Dict.{Dict}
use openeo_argoworkflows.Base.Json.{Json}
use openeo_argoworkflows.Base.Text.{Text, codes, text_eq, contains}
use openeo_argoworkflows.Executor.Query.{LoadError, not_integral}

-- A value of the raster metadata: an integer, a float by its sign, its whole part and the digits
-- after its point, a float that is no number or infinite, or a text.
pub data Value : Type 0 where
  whole : Bool → ℕ → Value
  real : Bool → ℕ → Text → Value
  not_finite : Value
  word : Text → Value

all_zero : Text → Bool
all_zero [] = true
all_zero (c ∷ s) = c == b'0' && all_zero s

-- Python's truth of a value
unfoldable pub is_true : Option Value → Bool
unfolding all_zero
is_true none = false
is_true (some (whole negative n)) = not (n == 0)
is_true (some (real negative n digits)) = not (n == 0 && all_zero digits)
is_true (some not_finite) = true
is_true (some (word t)) = not (t == [])

-- The three fields of a band; a field that is null counts as missing.
pub record Band : Type 0 where
  pub spatial_resolution : Option Value
  pub nodata : Option Value
  pub data_type : Option Text

-- Of an asset: `proj:code` and `proj:epsg`, where they are there, which may be null, and its bands.
pub record AssetFields : Type 0 where
  pub proj_code : Option (Option Text)
  pub proj_epsg : Option (Option ℕ)
  pub raster_bands : Option (List Band)

pub record Item : Type 0 where
  pub has_raster : Bool
  pub properties : Dict Text Json
  pub assets : Dict Text AssetFields

-- The variables of the loop.
pub record Raster : Type 0 where
  pub resolution : Option Value
  pub nodata : Option Value
  pub dtype : Option Text

abbrev pub no_raster : Raster
no_raster = record { resolution = none; nodata = none; dtype = none }

-- A variable that is set stays.
unfoldable pub keep_or {ℓ} : {A : Type ℓ} → Option A → Option A → Option A
keep_or none new = new
keep_or (some a) new = some a

unfoldable pub take_band : Raster → Band → Raster
unfolding keep_or
take_band r band = record {
  resolution = keep_or r.resolution band.spatial_resolution;
  nodata = keep_or r.nodata band.nodata;
  dtype = keep_or r.dtype band.data_type;
}

unfoldable pub take_bands : Raster → List Band → Raster
unfolding take_band
take_bands r [] = r
take_bands r (band ∷ bands) = take_bands (take_band r band) bands

unfoldable pub bands_of : AssetFields → List Band
bands_of asset = elim asset.raster_bands [ none ↦ [] | some bands ↦ bands ]

not_empty : Option Text → Bool
not_empty none = false
not_empty (some t) = not (t == [])

unfoldable pub is_complete : Raster → Bool
unfolding is_true not_empty
is_complete r = is_true r.resolution && (is_true r.nodata && not_empty r.dtype)

-- The loop over the assets, which ends when all three are there and true.
unfoldable pub take_assets : Raster → Dict Text AssetFields → Raster
unfolding take_bands bands_of is_complete
take_assets r [] = r
take_assets r ((key, asset) ∷ assets) =
    let now = take_bands r (bands_of asset) in
    let rest = take_assets now assets in if is_complete now then now else rest

unfoldable pub raster_of : Item → Raster
unfolding take_assets
raster_of item = if item.has_raster then take_assets no_raster item.assets else no_raster

-- 10, or a ten thousandth of a degree
unfoldable pub default_resolution : Option Text → Value
default_resolution none = whole false 10
default_resolution (some unit) =
    if unit == codes "metre"
    then whole false 10
    else if unit == codes "degree"
    then real false 0 (codes "0001")
    else whole false 10

-- `int(nodata)` for a float
unfoldable pub to_integer : Value → LoadError ⊎ Value
to_integer (real negative n digits) = inr (whole (negative && not (n == 0)) n)
to_integer not_finite = inl not_integral
to_integer (whole negative n) = inr (whole negative n)
to_integer (word t) = inr (word t)

unfoldable pub is_integer_type : Option Text → Bool
unfolding contains
is_integer_type none = false
is_integer_type (some t) = contains t (codes "int")

unfoldable pub match_nodata : Option Text → Option Value → LoadError ⊎ Option Value
unfolding is_integer_type to_integer
match_nodata dtype none = inr none
match_nodata dtype (some v) =
    if is_integer_type dtype
    then elim (to_integer v) [ inl e ↦ inl e | inr w ↦ inr (some w) ]
    else inr (some v)

-- An empty type is not passed on.
unfoldable pub load_dtype : Option Text → Option Text
load_dtype none = none
load_dtype (some t) = if t == [] then none else some t
