-- ===== src/Executor/Query.antt =====
-- The first half of `load_collection` of process_implementations/io.py: the query for the STAC server.
use openeo_argoworkflows.Base.{
  not, ◌&&◌, Option, none, some, List, [], ◌∷◌, ◌++◌, ◌⊎◌, inl, inr, if◌then◌else◌,
}
use openeo_argoworkflows.Base.Split.{before}
use openeo_argoworkflows.Base.Text.{Text, codes, contains}
use openeo_argoworkflows.Auth.Urls.{strip}

-- An end of the temporal extent: a `datetime`, by what `strftime` makes of it, or another value, by
-- its `str`; an open end is `None` or the text of it.
pub data End : Type 0 where
  open_end : End
  datetime : Text → End
  other : Text → End

-- A date gets the time of midnight, and a date with another time after a space too.
unfoldable pub iso_of : Text → Text
unfolding strip contains
iso_of text =
    let s = strip text in
    if contains s (codes " ") && not (contains s (codes "T"))
    then before b' ' s ++ codes "T00:00:00Z"
    else if not (contains s (codes "T"))
    then s ++ codes "T00:00:00Z"
    else s

unfoldable pub datetime_parts : List End → List Text
unfolding iso_of
datetime_parts [] = []
datetime_parts (open_end ∷ es) = datetime_parts es
datetime_parts (datetime t ∷ es) = t ∷ datetime_parts es
datetime_parts (other t ∷ es) = iso_of t ∷ datetime_parts es

-- `"/".join(parts)`
unfoldable pub join_slash : Text → List Text → Text
join_slash p [] = p
join_slash p (q ∷ qs) = p ++ (b'/' ∷ join_slash q qs)

unfoldable pub query_datetime : List Text → Option Text
unfolding join_slash
query_datetime [] = none
query_datetime (p ∷ ps) = some (join_slash p ps)

pub record BoundingBox (Degree : Type 0) : Type 0 where
  pub west : Degree
  pub south : Degree
  pub east : Degree
  pub north : Degree

pub data SpatialExtent (Degree : Type 0) : Type 0 where
  bounding_box : BoundingBox Degree → SpatialExtent Degree
  other_extent : SpatialExtent Degree

pub record Query (Degree : Type 0) : Type 0 where
  pub collections : List Text
  pub bbox : Degree × Degree × Degree × Degree
  pub datetime : Option Text

-- The exceptions of `load_collection`: its own, and those of what it calls.
pub data LoadError : Type 0 where
  no_spatial_extent : LoadError
  no_temporal_extent : LoadError
  not_interpreted : LoadError
  no_stac_url : LoadError
  search_failed : LoadError
  no_data_found : LoadError
  unknown_crs : LoadError
  not_integral : LoadError
  null_code : LoadError

module _ {Degree : Type 0} where
  unfoldable pub spatial_query : Text → List End → SpatialExtent Degree → LoadError ⊎ Query Degree
  unfolding query_datetime datetime_parts
  spatial_query id ends other_extent = inl not_interpreted
  spatial_query id ends (bounding_box b) = inr record {
    collections = id ∷ [];
    bbox = (b.west, b.south, b.east, b.north);
    datetime = query_datetime (datetime_parts ends);
  }

  unfoldable pub query_of :
      Text → Option (SpatialExtent Degree) → Option (List End) → LoadError ⊎ Query Degree
  unfolding spatial_query
  query_of id none temporal_extent = inl no_spatial_extent
  query_of id (some spatial_extent) none = inl no_temporal_extent
  query_of id (some spatial_extent) (some ends) = spatial_query id ends spatial_extent
