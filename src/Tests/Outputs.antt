-- ===== src/Tests/Outputs.antt =====
-- The STAC files of CWL outputs.
use openeo_argoworkflows.Base.{false, none, some, [], ◌∷◌, ◌≡◌, refl, inl, inr, nat_eq}
use openeo_argoworkflows.Base.Lists.{In}
use openeo_argoworkflows.Base.Dict
use openeo_argoworkflows.Base.Text.{last_dot, Text, codes, lower, lower_code, basename, text_eq}
use openeo_argoworkflows.Executor.Outputs.{
  System, StacFiles, stem_and_suffix, get_media_type, item_of, item_path, create_cwl_stac,
}
use openeo_argoworkflows.Executor.Outputs.Items.{get-create_cwl_stac}

abbrev system : System
system = record { guess_type = λ f. none; getsize = λ f. some 3; now = "now"; post = λ u. false }

abbrev no_files : StacFiles
no_files = record { collections = []; items = [] }

abbrev tif : Text
tif = codes "/w/RESULTS/ndvi.TIF"

abbrev csv : Text
csv = codes "/w/RESULTS/ndvi.csv"

media_type_read : get_media_type system tif ≡ "image/tiff; application=geotiff"
unfolding get_media_type stem_and_suffix last_dot basename lower lower_code Dict.get text_eq nat_eq
media_type_read = refl

-- Two outputs with one stem have one item.
one_stem : (item_of system (codes "j1") tif).id ≡ (item_of system (codes "j1") csv).id
unfolding item_of stem_and_suffix last_dot basename nat_eq
one_stem = refl

alone :
    (g : Text)
    → In g (tif ∷ [])
    → item_path (codes "/w/STAC") (item_of system (codes "j1") g)
      ≡ item_path (codes "/w/STAC") (item_of system (codes "j1") tif)
    → g ≡ tif
alone g (inl e) p = e
alone g (inr m) p = absurd m

get-create_cwl_stac_example :
    Dict.get (item_path (codes "/w/STAC") (item_of system (codes "j1") tif)) (
      (create_cwl_stac system
        (codes "j1")
        (tif ∷ [])
        (codes "/w/STAC")
        (codes "https://s/")
        no_files).0.items)
    ≡ some (item_of system (codes "j1") tif)
get-create_cwl_stac_example =
    get-create_cwl_stac system (codes "j1") (tif ∷ []) (codes "/w/STAC") (codes "https://s/")
      no_files tif (inl refl) alone

same_path :
    item_path (codes "/w/STAC") (item_of system (codes "j1") tif)
    ≡ item_path (codes "/w/STAC") (item_of system (codes "j1") csv)
unfolding item_path item_of stem_and_suffix last_dot basename nat_eq
same_path = refl
