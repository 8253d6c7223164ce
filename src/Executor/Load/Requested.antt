-- ===== src/Executor/Load/Requested.antt =====
-- What `stac_load` is called with.
use openeo_argoworkflows.Base.{
  map, true, false, Option, none, some, List, [], ◌∷◌, ◌≡◌, ◌∈◌, if◌then◌else◌, nat_eq,
}
use openeo_argoworkflows.Base.Lists.{In}
use openeo_argoworkflows.Base.Text.{Text, text_eq}
use openeo_argoworkflows.Executor.Query.{
  SpatialExtent, bounding_box, BoundingBox, End, Query, query_datetime, datetime_parts,
}
use openeo_argoworkflows.Executor.Raster.{
  AssetFields, Item, Raster, no_raster, is_integer_type, load_dtype,
}
use openeo_argoworkflows.Executor.Raster.First.{first_values}
use openeo_argoworkflows.Executor.Load.{
  extract_crs, non_data_assets, keys, Request, Services, resolution_of,
}
use openeo_argoworkflows.Executor.Load.Codes.{IsReadable, numbered_item}
use openeo_argoworkflows.Executor.Raster.Nodata.{is_float}

-- The metadata of an item: the first values of its bands, if it has the raster extension.
abbrev pub metadata : Item → Raster
metadata item = if item.has_raster then first_values item.assets else no_raster

module _ {Degree Crs : Type 0} (s : Services Degree Crs) where
  -- The search was for the collection in the box and the interval, and found some items. The system
  -- and the metadata are those of the first, and a code can be read in all of them.
  pub record IsRequested (id : Text) (spatial_extent : Option (SpatialExtent Degree))
      (temporal_extent : Option (List End)) (bands : Option (List Text)) (r : Request Crs)
      : Type 0 where
    pub box : BoundingBox Degree
    pub ends : List End
    pub url : Text
    pub item : Item
    pub rest : List Item
    pub spatial : spatial_extent ≡ some (bounding_box box)
    pub temporal : temporal_extent ≡ some ends
    pub configured : s.stac_api_url ≡ some url
    pub found :
        s.search url record {
          collections = id ∷ [];
          bbox = (box.west, box.south, box.east, box.north);
          datetime = query_datetime (datetime_parts ends);
        }
        ≡ some (item ∷ rest)
    pub crs : extract_crs s.pyproj item.properties ≡ some r.crs
    pub resolution : r.resolution ≡ resolution_of s.pyproj r.crs (metadata item).resolution
    pub dtype : r.dtype ≡ load_dtype (metadata item).dtype
    pub nodata_whole : is_integer_type (metadata item).dtype ≡ true → is_float r.nodata ≡ false
    pub nodata_kept :
        is_integer_type (metadata item).dtype ≡ false → r.nodata ≡ (metadata item).nodata
    pub given : (bs : List Text) → bands ≡ some bs → r.bands ≡ some bs
    pub detected :
        (bs : List Text)
        → bands ≡ none
        → r.bands ≡ some bs
        → (a : Text) → In a bs
        → In a (keys item.assets) × ((a ∈ non_data_assets) ≡ false)
    pub all : r.items ≡ map numbered_item (item ∷ rest)
    pub readable :
        (i : Item) (key : Text) (asset : AssetFields)
        → In i r.items
        → In (key, asset) i.assets
        → IsReadable asset
