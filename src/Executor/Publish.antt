-- ===== src/Executor/Publish.antt =====
-- `_publish_stac_collection` of cli.py and the loop that calls it. The directories that the package
-- wrote are apart from the STAC directory of the job, whose JSON files are the state; what goes wrong
-- with a disk that holds them is not there.
pub mod Stored
pub mod Lost
use openeo_argoworkflows.Base.{
  Bool, true, false, not, ◌&&◌, ◌||◌, Option, none, some, List, [], ◌∷◌, ◌++◌, map, ◌==◌, ◌∈◌,
  if◌then◌else◌,
}
use openeo_argoworkflows.Base.Lists.{filter_by}
use openeo_argoworkflows.Base.Json.{Json}
use openeo_argoworkflows.Base.Dict
use openeo_argoworkflows.Base.Dict.{Dict}
use openeo_argoworkflows.Base.Text.{Text, codes, text_eq, child}
use openeo_argoworkflows.Executor.Outputs.{rstrip_slash}
use openeo_argoworkflows.Executor.Upload.{Host, Asset, upload_stac_item_assets}

pub record Link : Type 0 where
  pub rel : Option Text
  pub href : Text

-- A collection: its links, where it has some, and what else it holds.
pub record Collection : Type 0 where
  pub id : Text
  pub links : Option (List Link)
  pub rest : Json

-- The JSON file of an item, by its name and what is read of it; `none` is a file that is no JSON.
pub record ItemFile : Type 0 where
  pub name : Text
  pub content : Option (List Asset)

-- A collection below the results, with the items beside it, if there is such a directory.
pub record Saved : Type 0 where
  pub collection : Collection
  pub items : Option (List ItemFile)

-- The JSON files of the STAC directory, and those of its directory `items`, in the order of their
-- names.
pub record StacDir : Type 0 where
  pub collections : Dict Text Collection
  pub items : List ItemFile

pub data Post : Type 0 where
  post_collection : Text → Collection → Post
  post_item : Text → List Asset → Post

-- Whether a POST returns.
abbrev pub Server : Type 0
Server = Post → Bool

unfoldable pub is_own_link : Option Text → Bool
is_own_link none = false
is_own_link (some rel) =
    rel ∈ (codes "self" ∷ codes "root" ∷ codes "parent" ∷ codes "items" ∷ codes "item" ∷ [])

unfoldable pub items_url : Text → Text → Text
unfolding rstrip_slash
items_url stac_api_url job_id =
    rstrip_slash stac_api_url ++ (codes "/" ++ (job_id ++ codes "/items"))

pub or_empty : Option (List Link) → List Link
or_empty none = []
or_empty (some ls) = ls

-- The collection under the name of the job, with one link to the items.
unfoldable pub normalize : Text → Text → Collection → Collection
unfolding filter_by is_own_link items_url or_empty
normalize stac_api_url job_id c = record c {
  id = job_id;
  links = some (
      filter_by (λ (l : Link). not (is_own_link l.rel)) (or_empty c.links)
      ++ (record { rel = some (codes "items"); href = items_url stac_api_url job_id } ∷ []));
}

unfoldable pub contents : List ItemFile → List (Option (List Asset))
contents [] = []
contents (f ∷ fs) = f.content ∷ contents fs

-- What the upload has left in the files.
unfoldable pub rewrite : List ItemFile → List (Option (List Asset)) → List ItemFile
rewrite [] new = []
rewrite fs [] = fs
rewrite (f ∷ fs) (c ∷ cs) = record f { content = c } ∷ rewrite fs cs

-- The directory `items` when the files are copied and uploaded: nothing of what it held before.
unfoldable pub stage_items : Host → Option (List ItemFile) → List ItemFile
unfolding contents rewrite upload_stac_item_assets
stage_items host none = []
stage_items host (some files) = rewrite files ((upload_stac_item_assets host (contents files)).0)

-- The POSTs, and whether the end was reached: a file that is no JSON raises, as a POST may.
unfoldable pub post_items : Server → Text → List ItemFile → Bool × List Post
post_items server url [] = (true, [])
post_items server url (f ∷ fs) =
    let rest = post_items server url fs in
    elim f.content [
      | none ↦ (false, [])
      | some item ↦
          if server (post_item url item)
          then (rest.0, post_item url item ∷ rest.1)
          else (false, post_item url item ∷ [])
    ]

unfoldable pub post_all : Server → Text → Text → Collection → List ItemFile → Bool × List Post
unfolding post_items items_url
post_all server stac_api_url job_id c files =
    let rest = post_items server (items_url stac_api_url job_id) files in
    if server (post_collection stac_api_url c)
    then (rest.0, post_collection stac_api_url c ∷ rest.1)
    else (false, post_collection stac_api_url c ∷ [])

-- What a job publishes with.
pub record Publisher : Type 0 where
  pub host : Host
  pub server : Server
  pub stac_path : Text
  pub job_id : Text
  pub stac_api_url : Text

unfoldable pub collection_target : Publisher → Text
unfolding child
collection_target p = child p.stac_path (p.job_id ++ codes ".json")

-- Whether it returns, the directory afterwards, and the POSTs.
pub record Published : Type 0 where
  pub returned : Bool
  pub dir : StacDir
  pub posts : List Post

unfoldable pub publish_stac_collection : Publisher → Saved → StacDir → Published
unfolding normalize stage_items collection_target post_all
publish_stac_collection p saved dir =
    let collection = normalize p.stac_api_url p.job_id saved.collection in
    let items = stage_items p.host saved.items in
    let posted = post_all p.server p.stac_api_url p.job_id collection items in
    record {
      returned = posted.0;
      dir = record {
        collections = Dict.set (collection_target p) collection dir.collections;
        items = items;
      };
      posts = posted.1;
    }

-- An exception ends the loop, and is passed over.
unfoldable pub publish_collections : Publisher → List Saved → StacDir → Published
unfolding publish_stac_collection
publish_collections p [] dir = record { returned = true; dir = dir; posts = [] }
publish_collections p (saved ∷ more) dir =
    let first = publish_stac_collection p saved dir in
    let later = publish_collections p more first.dir in
    if first.returned then record later { posts = first.posts ++ later.posts } else first
