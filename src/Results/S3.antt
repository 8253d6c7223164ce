-- ===== src/Results/S3.antt =====
-- s3.py of the API: URLs for objects in S3, and reading them.
use openeo_argoworkflows.Base.{
  ℕ, Bool, not, ◌&&◌, Option, none, some, List, [], ◌∷◌, ◌++◌, ◌==◌, if◌then◌else◌, nat_eq,
}
use openeo_argoworkflows.Base.Dict
use openeo_argoworkflows.Base.Dict.{Dict}
use openeo_argoworkflows.Base.Lists.{drop}
use openeo_argoworkflows.Base.Split.{cut}
use openeo_argoworkflows.Base.Text.{Text, codes, text_eq, starts_with, basename}

unfoldable pub is_s3_uri : Text → Bool
unfolding starts_with
is_s3_uri href = starts_with href (codes "s3://")

slash_cons : ℕ → Text → Text
slash_cons c [] = if c == b'/' then [] else c ∷ []
slash_cons c (d ∷ s) = c ∷ d ∷ s

-- `s.rstrip("/")`
unfoldable pub rstrip_slash : Text → Text
unfolding slash_cons
rstrip_slash [] = []
rstrip_slash (c ∷ s) = slash_cons c (rstrip_slash s)

-- `os.environ.get(name, default)`
environ_or : Dict Text Text → Text → Text → Text
unfolding Dict.get
environ_or environ name default = elim (Dict.get name environ) [ none ↦ default | some v ↦ v ]

endpoint : Dict Text Text → Text
unfolding environ_or
endpoint environ =
    environ_or environ (codes "S3_ENDPOINT_URL") (codes "https://s3.scientificnet.org")

unfoldable pub proxy_url : Text → Text → Text → Text → Text
unfolding rstrip_slash basename
proxy_url href job_id api_base prefix =
    rstrip_slash api_base
    ++ (prefix ++ (codes "/jobs/" ++ (job_id ++ (codes "/results/download/" ++ basename href))))

public_url : Dict Text Text → Text → Text
unfolding endpoint rstrip_slash
public_url environ href = rstrip_slash (endpoint environ) ++ (b'/' ∷ drop 5 href)

-- A text that is not empty.
unfoldable pub is_given : Text → Bool
is_given s = not (s == [])

-- An absent job or base counts as empty.
unfoldable pub generate_presigned_url : Dict Text Text → Text → Text → Text → Text → Text
unfolding is_s3_uri proxy_url public_url is_given
generate_presigned_url environ href job_id api_base prefix =
    if is_s3_uri href
    then if is_given job_id && is_given api_base
      then proxy_url href job_id api_base prefix
      else public_url environ href
    else href

-- What a client of S3 gives of an object: its parts, its length and its type.
pub record Object : Type 0 where
  pub body : List (List ℕ)
  pub content_length : Option ℕ
  pub content_type : Option Text

-- `client.get_object`, with the endpoint and the two keys of the client, the bucket and the key;
-- `none` is an exception.
abbrev pub GetObject : Type 0
GetObject = Text → Option Text → Option Text → Text → Text → Option Object

-- `s.partition("/")`, as the parts before and after
partition : Text → Text × Text
unfolding cut
partition s = elim (cut b'/' s) [ none ↦ (s, []) | some ab ↦ ab ]

-- The bucket is that of the environment, whatever the URI says.
fetch : Dict Text Text → GetObject → Text → Option Object
unfolding partition endpoint environ_or Dict.get
fetch environ get_object href =
    get_object (endpoint environ) (Dict.get (codes "S3_ACCESS_KEY") environ)
      (Dict.get (codes "S3_SECRET_KEY") environ)
      (environ_or environ (codes "S3_BUCKET") (codes "eo-public")) (partition (drop 5 href)).1

or_octets : Option Text → Text
or_octets t = elim t [ none ↦ codes "application/octet-stream" | some t ↦ t ]

unfoldable pub s3_download_stream :
    Dict Text Text → GetObject → Text → Option (List (List ℕ) × Option ℕ × Text)
unfolding is_s3_uri fetch or_octets
s3_download_stream environ get_object href =
    if is_s3_uri href
    then elim (fetch environ get_object href) [
      | none ↦ none
      | some o ↦ some (o.body, o.content_length, or_octets o.content_type)
    ]
    else none
