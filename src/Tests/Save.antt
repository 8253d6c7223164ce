-- ===== src/Tests/Save.antt =====
-- A package that writes one item with a missing and a present asset.
use openeo_argoworkflows.Base.{
  none, some, [], ◌∷◌, ◌==◌, ◌∈◌, ◌≡◌, refl, true, false, ◌||◌, if◌then◌else◌,
}
use openeo_argoworkflows.Base.Text.{codes, text_eq}
use openeo_argoworkflows.Executor.Save.{
  Stac, Disk, lstrip_dots, resolve_local_href, item_refs, asset_refs, link_refs, files_refs,
  refs_of, if_there, present, first_present, local_asset_path_from_stac, SaveOptions, Saving,
  folder_of, staged_path, save_result_with_process_package, save_result_formats, upper, save_result,
}
use openeo_argoworkflows.Executor.Save.Staged.{IsStaged, save_result-IsStaged}

abbrev collection : Stac
collection = record {
  type = some (codes "Collection");
  assets = [];
  links =
      record { rel = some (codes "self"); href = some (codes "./c.json") }
      ∷ record { rel = some (codes "item"); href = some (codes "./items/a.json") }
      ∷ [];
}

abbrev item : Stac
item = record {
  type = some (codes "Feature");
  assets =
      none ∷ some (codes "https://s3/b.nc") ∷ some (codes "./gone.nc") ∷ some (codes "b.nc") ∷ [];
  links = [];
}

abbrev disk : Disk
disk = record {
  exists = λ p. p ∈ (
      codes "/out" ∷ codes "/out/items" ∷ codes "/out/items/a.json" ∷ codes "/out/items/b.nc" ∷ []);
  load = λ p. if p == codes "/out/items/a.json" then some item else none;
  json_files = λ d. if d == codes "/out/items" then codes "/out/items/a.json" ∷ [] else [];
}

abbrev saving : Saving
saving = record {
  results_path = codes "/results";
  uuid4 = codes "u";
  package_save_result = λ fmt folder. some (collection, disk);
}

abbrev options : SaveOptions
options = record {
  use_package_save_result = false;
  output_folder = some (codes "/out");
  collection_id = none;
}

-- Every leading dot and slash goes, also those of a parent directory or of a hidden file.
parent_directory :
    resolve_local_href (some (codes "../b.nc")) (codes "/out/items")
    ≡ some (codes "/out/items/b.nc")
unfolding resolve_local_href text_eq
parent_directory = refl

unknown_format : save_result saving (codes "png") options ≡ none
unfolding save_result upper text_eq
unknown_format = refl

saved : save_result saving (codes "netcdf") options ≡ some (codes "/out/items/b.nc")
unfolding save_result upper save_result_with_process_package folder_of staged_path
    local_asset_path_from_stac asset_refs link_refs item_refs files_refs refs_of first_present
    present if_there resolve_local_href lstrip_dots text_eq
saved = refl

save_result-IsStaged_example :
    ((upper (codes "netcdf") ∈ save_result_formats || options.use_package_save_result) ≡ true)
    × IsStaged saving (upper (codes "netcdf")) options (codes "/out/items/b.nc")
save_result-IsStaged_example =
    save_result-IsStaged saving (codes "netcdf") options (codes "/out/items/b.nc") saved
