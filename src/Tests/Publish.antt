-- ===== src/Tests/Publish.antt =====
-- A job that saved two collections.
use openeo_argoworkflows.Base.{some, [], ◌∷◌, ◌==◌, ◌≡◌, refl, true, string_eq}
use openeo_argoworkflows.Base.Lists.{In}
use openeo_argoworkflows.Base.Json.{null}
use openeo_argoworkflows.Base.Dict
use openeo_argoworkflows.Base.Dict.{Dict}
use openeo_argoworkflows.Base.Text.{Text, codes, text_eq}
use openeo_argoworkflows.Executor.Profile.{is_s3_configured}
use openeo_argoworkflows.Executor.Upload.{Host, upload_stac_item_assets}
use openeo_argoworkflows.Executor.Publish.{
  Saved, StacDir, Publisher, normalize, contents, rewrite, stage_items, post_items, post_all,
  collection_target, publish_stac_collection, publish_collections,
}
use openeo_argoworkflows.Executor.Publish.Stored.{
  published_files, IsStored, publish_stac_collection-IsStored,
}
use openeo_argoworkflows.Executor.Publish.Lost.{collection_post, publish_collections-last}

abbrev host : Host
host = record {
  environ =
      ("S3_ENDPOINT_URL", "https://s3")
      ∷ ("S3_BUCKET", "eo")
      ∷ ("S3_ACCESS_KEY", "a")
      ∷ ("S3_SECRET_KEY", "b")
      ∷ [];
  isfile = λ f. f == codes "/r/a.nc";
  upload_file = λ f. true;
}

abbrev publisher : Publisher
publisher = record {
  host = host;
  server = λ p. true;
  stac_path = codes "/STAC";
  job_id = codes "j1";
  stac_api_url = codes "https://stac/";
}

abbrev saved_as : Text → Text → Saved
saved_as id item = record {
  collection = record {
    id = id;
    links = some (
        record { rel = some (codes "self"); href = codes "c.json" }
        ∷ record { rel = some (codes "license"); href = codes "l" }
        ∷ []);
    rest = null;
  };
  items = some (
      record {
        name = item;
        content = some (record { key = codes "data"; href = codes "/r/a.nc" } ∷ []);
      }
      ∷ []);
}

abbrev first : Saved
first = saved_as (codes "c1") (codes "a.json")

abbrev second : Saved
second = saved_as (codes "c2") (codes "b.json")

abbrev dir : StacDir
dir = record { collections = []; items = [] }

one_returns : (publish_stac_collection publisher first dir).returned ≡ true
unfolding publish_stac_collection post_all post_items stage_items contents rewrite
    upload_stac_item_assets is_s3_configured string_eq
one_returns = refl

both_return : (publish_collections publisher (first ∷ second ∷ []) dir).returned ≡ true
unfolding publish_collections publish_stac_collection post_all post_items stage_items contents
    rewrite upload_stac_item_assets is_s3_configured string_eq
both_return = refl

publish_stac_collection-IsStored_example :
    IsStored publisher first (publish_stac_collection publisher first dir)
publish_stac_collection-IsStored_example =
    publish_stac_collection-IsStored publisher first dir one_returns

publish_collections-last_example :
    ((publish_collections publisher (first ∷ second ∷ []) dir).dir.items
      ≡ published_files host second.items)
    × (Dict.get
          (collection_target publisher)
          (publish_collections publisher (first ∷ second ∷ []) dir).dir.collections
        ≡ some (normalize publisher.stac_api_url publisher.job_id second.collection))
    × ((s : Saved)
        → In s (first ∷ second ∷ [])
        → In
            (collection_post publisher s)
            (publish_collections publisher (first ∷ second ∷ []) dir).posts)
publish_collections-last_example =
    publish_collections-last publisher (first ∷ []) second dir both_return
