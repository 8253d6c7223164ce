-- ===== src/Tests/Load.antt =====
-- Two items of a collection.
use openeo_argoworkflows.Base.{ℕ, none, some, [], ◌∷◌, ◌≡◌, refl, true, false, inl, nat_eq}
use openeo_argoworkflows.Base.Json.{Json, text}
use openeo_argoworkflows.Base.Dict
use openeo_argoworkflows.Base.Dict.{Dict}
use openeo_argoworkflows.Base.Split.{cut}
use openeo_argoworkflows.Base.Text.{Text, codes, contains, starts_with}
use openeo_argoworkflows.Auth.Urls.{strip, lstrip, rstrip}
use openeo_argoworkflows.Executor.Query.{
  open_end, other, iso_of, datetime_parts, join_slash, query_datetime, bounding_box, SpatialExtent,
  null_code,
}
use openeo_argoworkflows.Executor.Raster.{
  whole, real, Band, AssetFields, Item, no_raster, take_assets,
}
use openeo_argoworkflows.Executor.Raster.First.{first_values, take_assets-first_values}
use openeo_argoworkflows.Executor.Load.{normalize_asset, Request, Services}

-- An interval with an open end is asked for as one instant.
open_interval :
    query_datetime (datetime_parts (other (codes "2024-01-01") ∷ open_end ∷ []))
    ≡ some (codes "2024-01-01T00:00:00Z")
unfolding query_datetime datetime_parts join_slash iso_of contains strip lstrip rstrip starts_with
    nat_eq
open_interval = refl

-- A time that is not midnight is lost.
time_lost : iso_of (codes " 2024-01-01 18:30:00+00:00") ≡ codes "2024-01-01T00:00:00Z"
unfolding iso_of cut contains strip lstrip rstrip starts_with nat_eq
time_lost = refl

abbrev band : Band
band = record {
  spatial_resolution = none;
  nodata = some (real false 0 (codes "0"));
  data_type = some (codes "uint16");
}

abbrev fine_band : Band
fine_band = record {
  spatial_resolution = some (whole false 20);
  nodata = some (whole true 1);
  data_type = none;
}

abbrev asset : AssetFields
asset = record {
  proj_code = some (some (codes "EPSG:32632"));
  proj_epsg = none;
  raster_bands = some (band ∷ []);
}

abbrev preview : AssetFields
preview = record { proj_code = none; proj_epsg = none; raster_bands = some (fine_band ∷ []) }

abbrev assets : Dict Text AssetFields
assets = (codes "B04", asset) ∷ (codes "preview", preview) ∷ []

abbrev item : Item
item = record {
  has_raster = true;
  properties = (codes "proj:code", text "EPSG:32632") ∷ [];
  assets = assets;
}

abbrev services : Services ℕ Json
services = record {
  stac_api_url = some (codes "https://stac");
  search = λ url q. some (item ∷ item ∷ []);
  pyproj = record {
    from_wkt = λ v. some v;
    from_epsg = λ v. some v;
    from_string = λ v. some v;
    unit_name = λ c. some (codes "metre");
  };
}

-- A code that is null, as the projection extension allows, ends the loading.
null_proj_code : normalize_asset (record asset { proj_code = some none }) ≡ inl null_code
unfolding normalize_asset
null_proj_code = refl

take_assets-first_values_example : take_assets no_raster assets ≡ first_values assets
take_assets-first_values_example = take_assets-first_values assets

abbrev box : SpatialExtent ℕ
box = bounding_box record { west = 1; south = 2; east = 3; north = 4 }

abbrev normal : Item
normal = record item {
  assets =
      (codes "B04", record asset { proj_epsg = some (some 32632) })
      ∷ (codes "preview", preview)
      ∷ [];
}

abbrev requested : Request Json
requested = record {
  items = normal ∷ normal ∷ [];
  crs = text "EPSG:32632";
  resolution = whole false 20;
  dtype = some (codes "uint16");
  nodata = some (whole false 0);
  bands = some (codes "B04" ∷ []);
}
