-- ===== src/Tests/Results.antt =====
-- The results of a job with two files, one in S3 and one on the disk.
use openeo_argoworkflows.Base.{
  ℕ, String, true, false, Option, none, some, List, [], ◌∷◌, map, ◌==◌, ◌≡◌, refl, if◌then◌else◌,
  string_eq, nat_eq,
}
use openeo_argoworkflows.Base.Text.{child, Text, codes, starts_with, text_eq}
use openeo_argoworkflows.Auth.Urls.{url_path}
use openeo_argoworkflows.Auth.Signed.{granted}
use openeo_argoworkflows.Auth.Login.{signed_url_or_validate}
use openeo_argoworkflows.Results.S3.{is_s3_uri, GetObject}
use openeo_argoworkflows.Results.Download.{Asset, Item, JobRow, items_directory}
use openeo_argoworkflows.Results.Workspace.{job_directory, stac_directory, results_collection_json}
use openeo_argoworkflows.Results.Collection.{
  Collection, ApiSettings, Disk, api_self_url, item_href, workspace, get_results,
}
use openeo_argoworkflows.Results.Collection.Presented.{IsPresented, get_results-IsPresented}
use openeo_argoworkflows.Results.Collection.Opens.{item_href-signed_url_or_validate}
use openeo_argoworkflows.Tests.Auth.{ada, keys, path, is_signable, is_origin}

abbrev settings : ApiSettings
settings = record {
  api_tls = true;
  api_dns = codes "openeo.eurac.edu";
  openeo_prefix = codes "/openeo";
  workspace_root = codes "/ws";
}

abbrev asset : String → Asset ℕ
asset href = record { href = some (codes href); rest = 0 }

abbrev remote : Asset ℕ
remote = asset "s3://eo-public/j1/b.tif"

abbrev items : List (Item ℕ)
items =
    record { id = codes "one"; assets = (codes "data", asset "/ws/u1/a.tif") ∷ [] }
    ∷ record { id = codes "two"; assets = (codes "data", remote) ∷ [] }
    ∷ []

abbrev job : JobRow
job = record { job_id = codes "j1"; user_id = codes "u1" }

abbrev get_job : Text → Option JobRow
get_job i = if i == codes "j1" then some job else none

abbrev item_files : Text → List (Option (Item ℕ))
item_files dir = if dir == codes "/ws/u1/j1/STAC/items" then map some items else []

abbrev get_object : GetObject
get_object endpoint access secret bucket key =
    some (record { body = (1 ∷ []) ∷ []; content_length = some 1; content_type = none })

known : get_job (codes "j1") ≡ some job
unfolding text_eq
known = refl

read : item_files (items_directory (codes "/ws") (codes "u1") (codes "j1")) ≡ map some items
unfolding text_eq items_directory child nat_eq
read = refl

abbrev collection : Collection ℕ
collection = record {
  links =
      record { rel = codes "item"; target = codes "one.json" }
      ∷ record { rel = codes "self"; target = codes "c.json" }
      ∷ [];
  assets = [];
  intervals = (codes "2020-01-01", codes "2020-02-01") ∷ [];
  datetime = none;
  status = none;
}

abbrev disk : Disk ℕ
disk = record { collection_at = λ p. some collection; item_files = item_files }

json_path :
    results_collection_json (workspace settings (codes "u1") (codes "j1"))
    ≡ some (codes "/ws/u1/j1/STAC/j1.json")
unfolding results_collection_json stac_directory job_directory workspace child text_eq nat_eq
json_path = refl

stac_path :
    stac_directory (workspace settings (codes "u1") (codes "j1")) ≡ some (codes "/ws/u1/j1/STAC")
unfolding stac_directory job_directory workspace child text_eq nat_eq
stac_path = refl

read_items : item_files (child (codes "/ws/u1/j1/STAC") (codes "items")) ≡ map some items
unfolding text_eq child nat_eq
read_items = refl

named : keys.attribute (codes "OPENEO_SIGN_KEY") ≡ some (codes "a2V5")
unfolding text_eq
named = refl

get_results-IsPresented_example :
    (c : Collection ℕ) × (get_results keys settings [] get_job disk 100
        (codes "j1")
        (some (codes "u1"))
      ≡ some c)
    × IsPresented keys settings [] (codes "u1") 604900 (codes "j1") collection.links items c
get_results-IsPresented_example =
    get_results-IsPresented keys settings [] (codes "u1") (codes "a2V5") (1 ∷ 2 ∷ []) named refl
      get_job disk 100 (codes "j1") job (codes "/ws/u1/j1/STAC/j1.json") (codes "/ws/u1/j1/STAC")
      collection (codes "2020-01-01", codes "2020-02-01") [] items known json_path stac_path refl
      refl refl read_items

local : is_s3_uri (codes "/ws/u1/a.tif") ≡ false
unfolding is_s3_uri starts_with nat_eq
local = refl

item_href-signed_url_or_validate_example :
    (url : Text) × (item_href keys settings []
        (codes "u1")
        17
        (codes "j1")
        (codes "/ws/u1")
        (codes "/ws/u1/a.tif")
      ≡ some url)
    × (url_path url ≡ codes "/openeo/files/a.tif")
    × (signed_url_or_validate keys
          (λ a. none)
          (record { authorization = none; url = url })
          (codes "u2")
          []
        ≡ (granted (some ada), []))
unfolding nat_eq api_self_url
item_href-signed_url_or_validate_example =
    item_href-signed_url_or_validate keys (λ a. none) settings [] path (codes "u1") (1 ∷ 2 ∷ [])
      is_signable (codes "https") (codes "openeo.eurac.edu") is_origin refl (codes "j1")
      (codes "/ws/u1") (codes "a.tif") 17 17 (codes "u2") [] local refl refl
