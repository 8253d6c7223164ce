-- ===== src/Results/Collection.antt =====
-- `get_results` of jobs.py: the STAC collection of a job, with links that a browser can follow.
pub mod Assets
pub mod Links
pub mod Presented
pub mod Opens
use openeo_argoworkflows.Base.{
  ℕ, Bool, true, false, not, Option, none, some, List, [], ◌∷◌, ◌++◌, ◌+◌, ◌==◌, if◌then◌else◌,
  ◌>>=◌,
}
use openeo_argoworkflows.Base.Dict
use openeo_argoworkflows.Base.Dict.{Dict}
use openeo_argoworkflows.Base.Lists.{length, drop, filter_by}
use openeo_argoworkflows.Base.Text.{child, Text, codes, text_eq, starts_with, basename}
use openeo_argoworkflows.Auth.Signed.{Keys, sign_url}
use openeo_argoworkflows.Results.S3.{is_s3_uri, generate_presigned_url}
use openeo_argoworkflows.Results.Download.{Asset, Item, JobRow, href_of}
use openeo_argoworkflows.Results.Workspace.{
  UserWorkspace, user_directory, stac_directory, results_collection_json,
}

-- A link of the collection: its relation and where it points.
pub record Link : Type 0 where
  pub rel : Text
  pub target : Text

-- What the handler reads and writes of a collection. `intervals` are the dates of its temporal
-- extent, as texts.
pub record Collection (Rest : Type 0) : Type 0 where
  pub links : List Link
  pub assets : Dict Text (Asset Rest)
  pub intervals : List (Text × Text)
  pub datetime : Option (Text × Text)
  pub status : Option Text

-- What the results read of `ExtendedAppSettings`.
pub record ApiSettings : Type 0 where
  pub api_tls : Bool
  pub api_dns : Text
  pub openeo_prefix : Text
  pub workspace_root : Text

-- The files: the collection at a path, and the JSON files of a directory in the order of their
-- names, which are none if the directory is not there. `none` is a file that cannot be read.
pub record Disk (Rest : Type 0) : Type 0 where
  pub collection_at : Text → Option (Collection Rest)
  pub item_files : Text → List (Option (Item Rest))

unfoldable pub api_self_url : ApiSettings → Text
api_self_url s = (if s.api_tls then codes "https://" else codes "http://") ++ s.api_dns

unfoldable pub results_path : ApiSettings → Text → Text
results_path s job_id = s.openeo_prefix ++ (codes "/jobs/" ++ (job_id ++ codes "/results"))

abbrev pub sign_key : Text
sign_key = codes "OPENEO_SIGN_KEY"

-- Seven days from now.
unfoldable pub expiry_of : ℕ → ℕ
expiry_of now = now + 604800

unfoldable pub is_item_link : Link → Bool
is_item_link l = l.rel == codes "item"

-- The links that stay: all but those of the items, and all to the results themselves.
unfoldable pub retarget : Text → List Link → List Link
unfolding is_item_link
retarget url [] = []
retarget url (l ∷ ls) =
    let rest = retarget url ls in if is_item_link l then rest else record l { target = url } ∷ rest

-- The asset of a collection that has its own, by the name of its file.
unfoldable pub direct_path : {Rest : Type 0} → ApiSettings → Text → Asset Rest → Text
unfolding href_of basename
direct_path s job_id a =
    s.openeo_prefix ++ (codes "/files/" ++ (job_id ++ (codes "/RESULTS/" ++ basename (href_of a))))

-- The part of a path below the user's directory, or else its last part.
unfoldable pub relative_path : Text → Text → Text
unfolding starts_with basename
relative_path user_dir href =
    let dir = user_dir ++ codes "/" in
    if starts_with href dir then drop (length dir) href else basename href

unfoldable pub file_path : ApiSettings → Text → Text → Text
unfolding relative_path
file_path s user_dir href = s.openeo_prefix ++ (codes "/files/" ++ relative_path user_dir href)

module _ {User : Type 0} (keys : Keys User) (s : ApiSettings) (environ : Dict Text Text)
    (user_id : Text) (expiry : ℕ) where
  unfoldable pub signed_at : Text → Option Text
  unfolding sign_url api_self_url
  signed_at path = do
    signed ← sign_url keys path sign_key user_id expiry
    some (api_self_url s ++ signed)

  unfoldable pub item_href : Text → Text → Text → Option Text
  unfolding is_s3_uri generate_presigned_url api_self_url signed_at file_path
  item_href job_id user_dir href =
      if is_s3_uri href
      then some (generate_presigned_url environ href job_id (api_self_url s) s.openeo_prefix)
      else signed_at (file_path s user_dir href)

  module _ {Rest : Type 0} where
    unfoldable pub sign_assets : Text → Dict Text (Asset Rest) → Option (Dict Text (Asset Rest))
    unfolding signed_at direct_path
    sign_assets job_id [] = some []
    sign_assets job_id ((k, a) ∷ assets) = do
      url ← signed_at (direct_path s job_id a)
      rest ← sign_assets job_id assets
      some ((k, record a { href = some url }) ∷ rest)

    unfoldable pub add_assets :
        Text
        → Text
        → Text
        → Dict Text (Asset Rest)
        → Dict Text (Asset Rest)
        → Option (Dict Text (Asset Rest))
    unfolding item_href href_of Dict.set
    add_assets job_id user_dir item_id [] acc = some acc
    add_assets job_id user_dir item_id ((k, a) ∷ assets) acc = do
      url ← item_href job_id user_dir (href_of a)
      add_assets job_id user_dir item_id assets
          (Dict.set (item_id ++ (codes "_" ++ k)) (record a { href = some url }) acc)

    unfoldable pub add_items :
        Text
        → Text
        → List (Option (Item Rest))
        → Dict Text (Asset Rest)
        → Option (Dict Text (Asset Rest))
    unfolding add_assets
    add_items job_id user_dir [] acc = some acc
    add_items job_id user_dir (none ∷ files) acc = none
    add_items job_id user_dir (some item ∷ files) acc = do
      acc' ← add_assets job_id user_dir item.id item.assets acc
      add_items job_id user_dir files acc'

    -- The collection's own assets, if it has any, and else those of the items.
    unfoldable pub linked_assets :
        Text
        → Text
        → Option Text
        → Disk Rest
        → Dict Text (Asset Rest)
        → Option (Dict Text (Asset Rest))
    unfolding sign_assets add_items child
    linked_assets job_id user_dir stac_dir disk (ka ∷ assets) = sign_assets job_id (ka ∷ assets)
    linked_assets job_id user_dir none disk [] = none
    linked_assets job_id user_dir (some dir) disk [] =
        add_items job_id user_dir (disk.item_files (child dir (codes "items"))) []

first_interval : List (Text × Text) → Option (Text × Text)
first_interval [] = none
first_interval (i ∷ is) = some i

unfoldable pub workspace : ApiSettings → Text → Text → UserWorkspace
workspace s user_id job_id = record {
  root_dir = s.workspace_root;
  user_id = user_id;
  job_id = some job_id;
}

module _ {User Rest : Type 0} (keys : Keys User) (s : ApiSettings) (environ : Dict Text Text) where
  unfoldable pub present :
      UserWorkspace → Text → Text → Disk Rest → ℕ → Collection Rest → Option (Collection Rest)
  unfolding results_path signed_at api_self_url retarget linked_assets user_directory stac_directory
      first_interval
  present w user_id job_id disk expiry c = do
    canonical ← signed_at keys s environ user_id expiry (results_path s job_id)
    assets ←
        linked_assets keys s environ user_id expiry job_id ((user_directory w []).0)
          (stac_directory w) disk c.assets
    interval ← first_interval c.intervals
    some record c {
      links =
          retarget (api_self_url s ++ results_path s job_id) c.links
          ++ (record { rel = codes "canonical"; target = canonical } ∷ []);
      assets = assets;
      datetime = some interval;
      status = some (codes "finished");
    }

  -- The answer for a user, who may be none after a signed URL of a user that is gone. An exception
  -- that nothing catches is `none`.
  unfoldable pub get_results :
      (Text → Option JobRow) → Disk Rest → ℕ → Text → Option Text → Option (Collection Rest)
  unfolding workspace results_collection_json expiry_of present
  get_results get_job disk now job_id user = do
    user_id ← user
    job ← get_job job_id
    path ← results_collection_json (workspace s user_id job.job_id)
    c ← disk.collection_at path
    present (workspace s user_id job.job_id) user_id job.job_id disk (expiry_of now) c
