-- ===== src/Executor/Save.antt =====
-- `save_result` of process_implementations/io.py: the path that it gives back of what was saved. A
-- path has no repeated slashes, and no dot parts but at the start of an href.
pub mod Referred
pub mod Gathered
pub mod Staged
use openeo_argoworkflows.Base.{
  ℕ, ◌+◌, ◌-◌, Bool, true, false, not, ◌&&◌, ◌||◌, Option, none, some, List, [], ◌∷◌, ◌++◌, map,
  ◌==◌, ◌∈◌, if◌then◌else◌, leb, nat_eq, is_some,
}
use openeo_argoworkflows.Base.Text.{
  Text, codes, text_eq, contains, starts_with, child, parent, basename,
}
use openeo_argoworkflows.Executor.Outputs.{stem_and_suffix}

-- `s.lstrip("./")`: all the dots and slashes at the start go.
unfoldable pub lstrip_dots : Text → Text
lstrip_dots [] = []
lstrip_dots (c ∷ s) = let rest = lstrip_dots s in if c == b'.' || c == b'/' then rest else c ∷ s

-- An href that is missing, empty or a URL is no path.
unfoldable pub resolve_local_href : Option Text → Text → Option Text
unfolding contains starts_with lstrip_dots child
resolve_local_href none base = none
resolve_local_href (some href) base =
    if href == [] || contains href (codes "://")
    then none
    else if starts_with href (codes "/")
    then some href
    else some (child base (lstrip_dots href))

pub record Link : Type 0 where
  pub rel : Option Text
  pub href : Option Text

-- What the code reads of a STAC document: its type, the hrefs of its assets and its links.
pub record Stac : Type 0 where
  pub type : Option Text
  pub assets : List (Option Text)
  pub links : List Link

-- The disk once the package has saved: which paths are there, the STAC document in a file, with none
-- for a file that cannot be read, and the JSON files of a directory in the order of their names.
pub record Disk : Type 0 where
  pub exists : Text → Bool
  pub load : Text → Option Stac
  pub json_files : Text → List Text

-- `d.get(key) == t` for a text `t`
unfoldable pub is_the : Option Text → Text → Bool
is_the none t = false
is_the (some s) t = s == t

-- An asset, by its href and the directory that this counts from.
abbrev pub Ref : Type 0
Ref = Option Text × Text

unfoldable pub refs_of : List (Option Text) → Text → List Ref
refs_of [] base = []
refs_of (h ∷ hs) base = (h, base) ∷ refs_of hs base

module _ (disk : Disk) where
  -- The assets of an item in a file; one that cannot be read has none.
  unfoldable pub item_refs : Text → List Ref
  unfolding refs_of parent
  item_refs path = elim (disk.load path) [
    | none ↦ []
    | some item ↦ refs_of item.assets (parent path)
  ]

  unfoldable pub is_item_file : Text → Bool
  unfolding stem_and_suffix basename
  is_item_file path = disk.exists path && (stem_and_suffix (basename path)).1 == codes ".json"

  unfoldable pub linked_item : Link → Text → Option Text
  unfolding resolve_local_href is_item_file is_the
  linked_item link folder =
      if is_the link.rel (codes "item")
      then elim (resolve_local_href link.href folder) [
        | none ↦ none
        | some path ↦ if is_item_file path then some path else none
      ]
      else none

  unfoldable pub link_refs : List Link → Text → List Ref
  unfolding linked_item item_refs
  link_refs [] folder = []
  link_refs (l ∷ ls) folder =
      let rest = link_refs ls folder in
      elim (linked_item l folder) [ none ↦ rest | some path ↦ item_refs path ++ rest ]

  unfoldable pub files_refs : List Text → List Ref
  unfolding item_refs
  files_refs [] = []
  files_refs (p ∷ ps) = item_refs p ++ files_refs ps

  unfoldable pub items_refs : Text → List Ref
  unfolding child files_refs
  items_refs folder =
      let dir = child folder (codes "items") in
      if disk.exists dir then files_refs (disk.json_files dir) else []

  unfoldable pub own_refs : Stac → Text → List Ref
  unfolding refs_of is_the
  own_refs stac folder =
      if is_the stac.type (codes "Feature") then refs_of stac.assets folder else []

  unfoldable pub asset_refs : Stac → Text → List Ref
  unfolding own_refs link_refs items_refs
  asset_refs stac folder =
      own_refs stac folder ++ (link_refs stac.links folder ++ items_refs folder)

  unfoldable pub if_there : Option Text → Option Text
  if_there none = none
  if_there (some path) = if disk.exists path then some path else none

  unfoldable pub present : Ref → Option Text
  unfolding resolve_local_href if_there
  present (href, base) = if_there (resolve_local_href href base)

  unfoldable pub first_present : List Ref → Option Text
  unfolding present
  first_present [] = none
  first_present (r ∷ rs) =
      let rest = first_present rs in elim (present r) [ none ↦ rest | some path ↦ some path ]

  unfoldable pub local_asset_path_from_stac : Stac → Text → Option Text
  unfolding asset_refs first_present
  local_asset_path_from_stac stac folder = first_present (asset_refs stac folder)

-- The options that are read here.
pub record SaveOptions : Type 0 where
  pub use_package_save_result : Bool
  pub output_folder : Option Text
  pub collection_id : Option Text

-- What the results depend on: where the results go, a fresh name, and the package, which saves the
-- cube in a format below a folder; none is an exception, also for a package that is not there.
pub record Saving : Type 0 where
  pub results_path : Text
  pub uuid4 : Text
  pub package_save_result : Text → Text → Option (Stac × Disk)

unfoldable pub or_else : Option Text → Text → Text
or_else o d = elim o [ none ↦ d | some t ↦ t ]

unfoldable pub folder_of : Saving → SaveOptions → Text
unfolding or_else child
folder_of env o = or_else o.output_folder (child env.results_path env.uuid4)

-- The path for a document that refers to no asset on the disk.
unfoldable pub fallback : Disk → Text → Text → Text → Text
unfolding child
fallback disk fmt folder collection_id =
    let collection_json = child folder (collection_id ++ codes ".json") in
    if fmt == codes "ZARR" && disk.exists folder
    then folder
    else if disk.exists collection_json
    then collection_json
    else folder

unfoldable pub staged_path : Stac → Disk → Text → Text → Text → Text
unfolding local_asset_path_from_stac fallback
staged_path stac disk fmt folder collection_id =
    elim (local_asset_path_from_stac disk stac folder) [
      | some path ↦ path
      | none ↦ fallback disk fmt folder collection_id
    ]

unfoldable pub save_result_with_process_package : Saving → Text → SaveOptions → Option Text
unfolding folder_of staged_path or_else
save_result_with_process_package env fmt o = elim (env.package_save_result fmt (folder_of env o)) [
  | none ↦ none
  | some (stac, disk) ↦
      some (
        staged_path stac disk fmt (folder_of env o) (or_else o.collection_id (codes "save_result")))
]

abbrev pub save_result_formats : List Text
save_result_formats = codes "GTIFF" ∷ codes "COG" ∷ codes "NETCDF" ∷ codes "ZARR" ∷ []

-- `str.upper`, for a text in ASCII
unfoldable pub upper : Text → Text
upper [] = []
upper (c ∷ s) = (if leb b'a' c && leb c b'z' then c - 32 else c) ∷ upper s

-- Another format, without the option, is a `ValueError`.
unfoldable pub save_result : Saving → Text → SaveOptions → Option Text
unfolding upper save_result_with_process_package
save_result env format o =
    if upper format ∈ save_result_formats || o.use_package_save_result
    then save_result_with_process_package env (upper format) o
    else none
