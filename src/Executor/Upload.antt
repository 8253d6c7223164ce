-- ===== src/Executor/Upload.antt =====
-- `upload_to_s3` and `upload_stac_item_assets` of s3.py. An upload is whether the call for a path
-- returns; what the object store holds under a key, also where two files have one, is not modelled.
pub mod Assets
use openeo_argoworkflows.Base.{
  ℕ, suc, ◌+◌, String, Bool, true, false, not, ◌&&◌, Option, none, some, List, [], ◌∷◌, ◌++◌, ◌==◌,
  if◌then◌else◌, string_eq, nat_eq,
}
use openeo_argoworkflows.Base.Dict
use openeo_argoworkflows.Base.Dict.{Dict}
use openeo_argoworkflows.Base.Text.{Text, codes, basename, text_eq}
use openeo_argoworkflows.Executor.Profile.{is_s3_configured}

-- The environment, the files on the disk, and whether `client.upload_file` returns for a path.
pub record Host : Type 0 where
  pub environ : Dict String String
  pub isfile : Text → Bool
  pub upload_file : Text → Bool

-- `os.environ.get(v, default)`
unfoldable pub env_or : Host → String → String → Text
unfolding Dict.get
env_or host v default = elim (Dict.get v host.environ) [ none ↦ codes default | some s ↦ codes s ]

unfoldable pub s3_key : Host → Text → Text
unfolding env_or basename
s3_key host path =
    env_or host "OPENEO_USER_ID" "unknown-user"
    ++ (codes "/" ++ (env_or host "OPENEO_JOB_ID" "unknown-job" ++ (codes "/" ++ basename path)))

unfoldable pub s3_uri : Host → Text → Text
unfolding s3_key env_or
s3_uri host path = codes "s3://" ++ (env_or host "S3_BUCKET" "" ++ (codes "/" ++ s3_key host path))

-- The path or the URI.
unfoldable pub upload_to_s3 : Host → Text → Text
unfolding is_s3_configured s3_uri
upload_to_s3 host path =
    if is_s3_configured host.environ && host.upload_file path then s3_uri host path else path

-- An asset of an item: its key, and its `href`, which is empty where there is none.
pub record Asset : Type 0 where
  pub key : Text
  pub href : Text

unfoldable pub upload_asset : Host → Asset → Asset × ℕ
unfolding upload_to_s3
upload_asset host a =
    let uri = upload_to_s3 host a.href in
    if not (a.href == []) && (host.isfile a.href && not (uri == a.href))
    then (record a { href = uri }, 1)
    else (a, 0)

unfoldable pub upload_assets : Host → List Asset → List Asset × ℕ
unfolding upload_asset
upload_assets host [] = ([], 0)
upload_assets host (a ∷ rest) =
    let (b, n) = upload_asset host a in let (bs, m) = upload_assets host rest in (b ∷ bs, n + m)

-- An item is a file with assets, or one that cannot be read (`none`), which is passed over. A file
-- is written only when something has changed; else it stays, which is the same.
unfoldable pub upload_item : Host → Option (List Asset) → Option (List Asset) × ℕ
unfolding upload_assets
upload_item host none = (none, 0)
upload_item host (some assets) = let (changed, n) = upload_assets host assets in (some changed, n)

unfoldable pub upload_items : Host → List (Option (List Asset)) → List (Option (List Asset)) × ℕ
unfolding upload_item
upload_items host [] = ([], 0)
upload_items host (i ∷ rest) =
    let (j, n) = upload_item host i in let (js, m) = upload_items host rest in (j ∷ js, n + m)

unfoldable pub upload_stac_item_assets :
    Host → List (Option (List Asset)) → List (Option (List Asset)) × ℕ
unfolding upload_items is_s3_configured
upload_stac_item_assets host items =
    if is_s3_configured host.environ then upload_items host items else (items, 0)
