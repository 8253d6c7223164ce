-- ===== src/Results/Download.antt =====
-- `s3_proxy_download` of app.py: the object of a result, by the name of its file.
pub mod Proxy
use openeo_argoworkflows.Base.{
  ℕ, String, Bool, true, false, not, ◌&&◌, Option, none, some, List, [], ◌∷◌, ◌++◌, ◌==◌,
  if◌then◌else◌, leb, nat_eq,
}
use openeo_argoworkflows.Base.Dict.{Dict}
use openeo_argoworkflows.Base.Text.{child, Text, codes, text_eq, ends_with}
use openeo_argoworkflows.Results.S3.{is_s3_uri, GetObject, s3_download_stream}

-- An asset of a STAC item, whose `href` is a text if it is there. `Rest` is what else it says.
pub record Asset (Rest : Type 0) : Type 0 where
  pub href : Option Text
  pub rest : Rest

pub record Item (Rest : Type 0) : Type 0 where
  pub id : Text
  pub assets : Dict Text (Asset Rest)

-- The columns of the job that the results need.
pub record JobRow : Type 0 where
  pub job_id : Text
  pub user_id : Text

unfoldable pub items_directory : Text → Text → Text → Text
unfolding child
items_directory root user_id job_id =
    child (child (child (child root user_id) job_id) (codes "STAC")) (codes "items")

unfoldable pub href_of : {Rest : Type 0} → Asset Rest → Text
href_of a = elim a.href [ none ↦ [] | some h ↦ h ]

-- What the loops over the files find: an S3 URI, nothing, or a file that is no JSON.
pub data Search : Type 0 where
  hit : Text → Search
  miss : Search
  broken : Search

module _ {Rest : Type 0} (filename : Text) where
  unfoldable pub is_wanted : Asset Rest → Bool
  unfolding href_of
  is_wanted a = ends_with (href_of a) filename && is_s3_uri (href_of a)

  unfoldable pub find_asset : Dict Text (Asset Rest) → Search
  unfolding is_wanted href_of
  find_asset [] = miss
  find_asset ((k, a) ∷ assets) =
      let later = find_asset assets in if is_wanted a then hit (href_of a) else later

  unfoldable pub find_href : List (Option (Item Rest)) → Search
  unfolding find_asset
  find_href [] = miss
  find_href (none ∷ files) = broken
  find_href (some item ∷ files) =
      let later = find_href files in elim (find_asset item.assets) [ miss ↦ later | other ↦ other ]

pub data Reply : Type 0 where
  streamed : List (List ℕ) → Text → Option Text → Option ℕ → Reply
  http_error : ℕ → String → Reply
  raised : Reply

-- A length of 0 is not sent.
shown_length : Option ℕ → Option ℕ
shown_length none = none
shown_length (some n) = if leb 1 n then some n else none

-- The parts of the object, its type, the name to save it under and its length.
unfoldable pub stream : Text → Option (List (List ℕ) × Option ℕ × Text) → Reply
unfolding shown_length
stream filename none = http_error 502 "Failed to fetch from S3"
stream filename (some (body, length, type)) =
    streamed body type (some (codes "attachment; filename=\"" ++ (filename ++ codes "\"")))
      (shown_length length)

unfoldable pub serve_found : Dict Text Text → GetObject → Text → Search → Reply
unfolding stream
serve_found environ get_object filename broken = raised
serve_found environ get_object filename miss = http_error 404 "Result file not found or not on S3"
serve_found environ get_object filename (hit href) =
    stream filename (s3_download_stream environ get_object href)

-- `item_files` is the content of a directory's JSON files, in the order in which `glob` finds them.
unfoldable pub s3_proxy_download :
    {Rest : Type 0}
    → Dict Text Text
    → GetObject
    → Text
    → (Text → Option JobRow)
    → (Text → List (Option (Item Rest)))
    → Text
    → Text
    → Reply
unfolding items_directory find_href serve_found
s3_proxy_download environ get_object root get_job item_files job_id filename =
    elim (get_job job_id) [
      | none ↦ http_error 404 "Job not found"
      | some job ↦
          serve_found environ get_object filename
            (find_href filename (item_files (items_directory root job.user_id job_id)))
    ]
