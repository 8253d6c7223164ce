-- ===== src/Tests/Upload.antt =====
-- Uploads of the assets of an item.
use openeo_argoworkflows.Base.{true, [], ◌∷◌, ◌≡◌, refl, string_eq, nat_eq}
use openeo_argoworkflows.Base.Dict
use openeo_argoworkflows.Base.Text.{codes, basename}
use openeo_argoworkflows.Executor.Upload.{Host, s3_uri, s3_key, env_or}

abbrev host : Host
host = record {
  environ =
      ("S3_ENDPOINT_URL", "https://s3")
      ∷ ("S3_BUCKET", "eo")
      ∷ ("S3_ACCESS_KEY", "a")
      ∷ ("S3_SECRET_KEY", "b")
      ∷ ("OPENEO_USER_ID", "u1")
      ∷ [];
  isfile = λ f. true;
  upload_file = λ f. true;
}

uri_of_asset : s3_uri host (codes "/w/a.tif") ≡ codes "s3://eo/u1/unknown-job/a.tif"
unfolding s3_uri s3_key env_or basename Dict.get string_eq nat_eq
uri_of_asset = refl
