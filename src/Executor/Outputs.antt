-- ===== src/Executor/Outputs.antt =====
-- `create_cwl_stac` of stac_cwl.py: a collection for a job, and one item for each output file.
pub mod Items
use openeo_argoworkflows.Base.{
  ℕ, String, ◌<>◌, Bool, true, false, ◌&&◌, Option, none, some, List, [], ◌∷◌, ◌++◌, ◌==◌, map,
  if◌then◌else◌, leb, nat_eq, string_eq,
}
use openeo_argoworkflows.Base.Lists.{length}
use openeo_argoworkflows.Base.Dict
use openeo_argoworkflows.Base.Dict.{Dict}
use openeo_argoworkflows.Base.Text.{last_dot, Text, codes, lower, basename, text_eq}

-- `Path(f).stem` and `Path(f).suffix`: a dot at either end of the name is no separator.
unfoldable pub stem_and_suffix : Text → Text × Text
unfolding last_dot
stem_and_suffix name = elim (last_dot name) [
  | none ↦ (name, [])
  | some (a, b) ↦ if leb 1 (length a) && leb 1 (length b) then (a, b'.' ∷ b) else (name, [])
]

abbrev pub media_types : Dict Text String
media_types =
    (codes ".tif", "image/tiff; application=geotiff")
    ∷ (codes ".tiff", "image/tiff; application=geotiff")
    ∷ (codes ".nc", "application/x-netcdf")
    ∷ (codes ".json", "application/json")
    ∷ (codes ".geojson", "application/geo+json")
    ∷ (codes ".csv", "text/csv")
    ∷ (codes ".txt", "text/plain")
    ∷ (codes ".png", "image/png")
    ∷ (codes ".jpg", "image/jpeg")
    ∷ (codes ".jpeg", "image/jpeg")
    ∷ (codes ".xml", "application/xml")
    ∷ (codes ".gml", "application/gml+xml")
    ∷ (codes ".zip", "application/zip")
    ∷ (codes ".tar", "application/x-tar")
    ∷ (codes ".gz", "application/gzip")
    ∷ []

-- What the code asks of the system: the guess of `mimetypes`, the sizes of files that exist, the
-- time, and whether a POST returns.
pub record System : Type 0 where
  pub guess_type : Text → Option String
  pub getsize : Text → Option ℕ
  pub now : String
  pub post : Text → Bool

or_octets : Option String → String
or_octets none = "application/octet-stream"
or_octets (some t) = if t == "" then "application/octet-stream" else t

unfoldable pub get_media_type : System → Text → String
unfolding stem_and_suffix lower or_octets Dict.get
get_media_type sys path = elim (Dict.get (lower (stem_and_suffix (basename path)).1) media_types) [
  | some t ↦ t
  | none ↦ or_octets (sys.guess_type path)
]

unfoldable pub or_zero : Option ℕ → ℕ
or_zero none = 0
or_zero (some n) = n

-- An item, with its one asset. The key and the title of the asset are the name of the file.
pub record Item : Type 0 where
  pub id : Text
  pub datetime : String
  pub filename : Text
  pub href : Text
  pub media_type : String
  pub size : ℕ
  pub collection : Text

unfoldable pub item_of : System → Text → Text → Item
unfolding stem_and_suffix get_media_type or_zero basename
item_of sys job_id path = record {
  id = (stem_and_suffix (basename path)).0;
  datetime = sys.now;
  filename = basename path;
  href = path;
  media_type = get_media_type sys path;
  size = or_zero (sys.getsize path);
  collection = job_id;
}

pub record Collection : Type 0 where
  pub id : Text
  pub description : Text
  pub title : Text
  pub start : String
  pub license : String

unfoldable pub collection_of : System → Text → Collection
collection_of sys job_id = record {
  id = job_id;
  description = codes "CWL workflow results for openEO job " ++ job_id;
  title = codes "Job " ++ (job_id ++ codes " results");
  start = sys.now;
  license = "proprietary";
}

-- The JSON files that are written.
pub record StacFiles : Type 0 where
  pub collections : Dict Text Collection
  pub items : Dict Text Item

unfoldable pub item_path : Text → Item → Text
item_path stac_path item = stac_path ++ (codes "/items/" ++ (item.id ++ codes ".json"))

unfoldable pub write_items : Text → List Item → Dict Text Item → Dict Text Item
unfolding item_path
write_items stac_path [] files = files
write_items stac_path (item ∷ items) files =
    write_items stac_path items (Dict.set (item_path stac_path item) item files)

-- The POSTs of the `try`, up to the first that raises, which is passed over.
unfoldable pub post_all : System → List Text → List Text
post_all sys [] = []
post_all sys (url ∷ urls) =
    let rest = post_all sys urls in url ∷ (if sys.post url then rest else [])

unfoldable pub rstrip_slash : Text → Text
rstrip_slash [] = []
rstrip_slash (c ∷ s) =
    let rest = rstrip_slash s in if c == b'/' && leb (length rest) 0 then [] else c ∷ rest

-- The files afterwards, and the URLs that were posted to.
unfoldable pub create_cwl_stac :
    System → Text → List Text → Text → Text → StacFiles → StacFiles × List Text
unfolding item_of collection_of write_items post_all rstrip_slash
create_cwl_stac sys job_id result_files stac_path stac_api_url files =
    let items = map (item_of sys job_id) result_files in
    let item_url = rstrip_slash stac_api_url ++ (codes "/" ++ (job_id ++ codes "/items")) in
    (
      record {
        collections =
            Dict.set (stac_path ++ (codes "/" ++ (job_id ++ codes ".json")))
              (collection_of sys job_id) files.collections;
        items = write_items stac_path items files.items;
      },
      post_all sys (stac_api_url ∷ map (λ i. item_url) items),
    )
