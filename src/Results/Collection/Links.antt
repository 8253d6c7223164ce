-- ===== src/Results/Collection/Links.antt =====
-- The links of the results, with a key to sign them.
use mathlib.Core.Path.{subst}
use openeo_argoworkflows.Base.{
  ℕ, some, List, [], ◌∷◌, ◌++◌, ◌≡◌, ◌≢◌, ◌↔◌, refl, sym, ap, ◌∙◌, inl, inr, if◌then◌else◌, arith,
}
use openeo_argoworkflows.Base.Dict.{Dict}
use openeo_argoworkflows.Base.Lists.{In}
use openeo_argoworkflows.Base.Text.{Text, codes, text_eq}
use openeo_argoworkflows.Auth.Signed.{Keys, url_to_sign, sign_url}
use openeo_argoworkflows.Results.S3.{is_s3_uri, generate_presigned_url}
use openeo_argoworkflows.Results.Collection.{
  Link, ApiSettings, api_self_url, results_path, sign_key, is_item_link, retarget, signed_at,
  file_path, item_href,
}

module _ {User : Type 0} (keys : Keys User) (s : ApiSettings) (environ : Dict Text Text)
    (user_id value : Text) (secret : List ℕ) (expiry : ℕ)
    (named : keys.attribute sign_key ≡ some value)
    (decoded : keys.urlsafe_b64decode value ≡ some secret) where
  -- With a key, every path is signed.
  unfoldable pub signed_text : Text → Text
  signed_text path =
      api_self_url s
      ++ (url_to_sign keys path sign_key user_id expiry
          ++ (codes "&Signature="
              ++ keys.digest secret (url_to_sign keys path sign_key user_id expiry)))

  pub signed_at_total :
      (path : Text) → signed_at keys s environ user_id expiry path ≡ some (signed_text path)
  unfolding signed_at sign_url signed_text
  signed_at_total path = ground (arith, named, decoded)

  unfoldable pub link_text : Text → Text → Text → Text
  link_text job_id user_dir h =
      if is_s3_uri h
      then generate_presigned_url environ h job_id (api_self_url s) s.openeo_prefix
      else signed_text (file_path s user_dir h)

  pub item_href_total :
      (job_id user_dir h : Text)
      → item_href keys s environ user_id expiry job_id user_dir h
        ≡ some (link_text job_id user_dir h)
  unfolding item_href link_text
  item_href_total job_id user_dir h = ground (arith, signed_at_total (file_path s user_dir h))

  unfoldable pub canonical_link : Text → Link
  canonical_link job_id = record {
    rel = codes "canonical";
    target = signed_text (results_path s job_id);
  }

-- A link of a collection that is no link to an item, with a target of its own.
abbrev pub Kept : Text → List Link → Link → Type 0
Kept url ls l = (m : Link) × In m ls × (m.rel ≢ codes "item") × (l ≡ record m { target = url })

retarget_item :
    (url : Text) (m : Link) (ls : List Link)
    → m.rel ≡ codes "item"
    → retarget url (m ∷ ls) ≡ retarget url ls
unfolding retarget is_item_link
retarget_item url m ls e = ground (arith, e)

retarget_other :
    (url : Text) (m : Link) (ls : List Link)
    → m.rel ≢ codes "item"
    → retarget url (m ∷ ls) ≡ record m { target = url } ∷ retarget url ls
unfolding retarget is_item_link
retarget_other url m ls n = ground (arith, n)

In-retarget : (url : Text) (ls : List Link) (l : Link) → In l (retarget url ls) → Kept url ls l
unfolding retarget
In-retarget url [] l i = absurd i
In-retarget url (m ∷ ls) l i = elim (text_eq.decide m.rel (codes "item")) [
  | yes e ↦
      let (k, at, n, same) = In-retarget url ls l (subst (In l) (retarget_item url m ls e) i) in
      (k, inr at, n, same)
  | no n ↦ elim (subst (In l) (retarget_other url m ls n) i) [
    | inl e ↦ (m, inl refl, n, e)
    | inr later ↦ let (k, at, o, same) = In-retarget url ls l later in (k, inr at, o, same)
  ]
]

retarget-In : (url : Text) (ls : List Link) (l : Link) → Kept url ls l → In l (retarget url ls)
retarget-In url [] l (m, i, n, e) = absurd i
retarget-In url (k ∷ ls) l (m, i, n, e) = elim (text_eq.decide k.rel (codes "item")) [
  | yes item ↦ elim i [
    | inl same ↦ absurd (n (ap (λ (x : Link). x.rel) same ∙ item))
    | inr later ↦
        subst (In l) (sym (retarget_item url k ls item)) (retarget-In url ls l (m, later, n, e))
  ]
  | no other ↦ subst (In l) (sym (retarget_other url k ls other)) (elim i [
    | inl same ↦ inl (e ∙ ap (λ (x : Link). let y : Link = record x { target = url } in y) same)
    | inr later ↦ inr (retarget-In url ls l (m, later, n, e))
  ])
]

-- The links that stay are those that are no links to items, and all point to one place.
pub retarget_iff : (url : Text) (ls : List Link) (l : Link) → In l (retarget url ls) ↔ Kept url ls l
retarget_iff url ls l = (In-retarget url ls l, retarget-In url ls l)
