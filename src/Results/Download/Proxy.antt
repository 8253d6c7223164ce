-- ===== src/Results/Download/Proxy.antt =====
-- What the proxy serves under the URL that the results give for an object in S3.
use openeo_argoworkflows.Base.{true, List, ◌≡◌, nat_eq}
use openeo_argoworkflows.Base.Dict.{Dict}
use openeo_argoworkflows.Base.Lists.{In}
use openeo_argoworkflows.Base.Text.{Text, text_eq, ends_with}
use openeo_argoworkflows.Results.S3.{is_s3_uri, GetObject, s3_download_stream}
use openeo_argoworkflows.Results.Download.{Asset, Item, href_of, is_wanted, Reply, stream}

module _ {Rest : Type 0} (filename : Text) where
  -- An asset of one of the items.
  abbrev pub Listed : Asset Rest → List (Item Rest) → Type 0
  Listed a items = (item : Item Rest) × (k : Text) × In item items × In (k, a) item.assets

-- The answer to a request for a file name: the object of an asset with a name of that ending.
pub record IsServed {Rest : Type 0} (environ : Dict Text Text) (get_object : GetObject)
    (items : List (Item Rest)) (a : Asset Rest) (name : Text) (reply : Reply) : Type 0 where
  pub source : Asset Rest
  pub listed : Listed name source items
  pub is_s3 : is_s3_uri (href_of source) ≡ true
  pub ending : ends_with (href_of source) name ≡ true
  pub served : reply ≡ stream name (s3_download_stream environ get_object (href_of source))
  pub same :
      ((b : Asset Rest) → Listed name b items → is_wanted name b ≡ true → href_of b ≡ href_of a)
      → reply ≡ stream name (s3_download_stream environ get_object (href_of a))
