-- ===== src/Results/Collection/Presented.antt =====
-- What `get_results` gives out for a job whose items hold the assets.
use openeo_argoworkflows.Base.{
  ℕ, ◌+◌, true, Option, none, some, List, [], ◌∷◌, ◌++◌, map, ◌≡◌, ◌≢◌, refl, ap, ◌∙◌, ◌⊎◌, inl,
  inr, arith, ◌>>=◌, ◌↔◌, Option-cases,
}
use openeo_argoworkflows.Base.Dict
use openeo_argoworkflows.Base.Dict.{Dict}
use openeo_argoworkflows.Base.Lists.{In, In-append-left, In-append-right, In-append}
use openeo_argoworkflows.Base.Text.{child, Text, codes, text_eq}
use openeo_argoworkflows.Auth.Signed.{Keys}
use openeo_argoworkflows.Results.Download.{Asset, Item, JobRow}
use openeo_argoworkflows.Results.Workspace.{user_directory, stac_directory, results_collection_json}
use openeo_argoworkflows.Results.Collection.{
  Link, Collection, ApiSettings, Disk, api_self_url, results_path, sign_key, expiry_of, retarget,
  signed_at, item_href, linked_assets, workspace, first_interval, present, get_results,
}
use openeo_argoworkflows.Results.Collection.Assets.{
  asset_key, linked, put_items, add_items-put_items, Comes, get-put_items, put_items-In,
}
use openeo_argoworkflows.Results.Collection.Links.{
  signed_at_total, link_text, item_href_total, canonical_link, Kept, retarget_iff,
}

three_steps :
    {A B C D : Type 0} (oa : Option A) (ob : Option B) (oc : Option C) (f : A → B → C → D) (a : A)
    (b : B) (c : C)
    → oa ≡ some a
    → ob ≡ some b
    → oc ≡ some c
    → (oa >>= λ x. ob >>= λ y. oc >>= λ z. some (f x y z)) ≡ some (f a b c)
three_steps oa ob oc f a b c p q r = ground (arith, p, q, r)

none_not_some : {A : Type 0} {a : A} → ◌≢◌ none (some a)
none_not_some e = cc

-- The collection that is given out for one with the links `old` and the items `items`. Its links are
-- those of the old ones that are not to items, now to the results, and a canonical one, with a
-- signature. Its assets are those of the items, each under the name of its item and its own, with the
-- URL that `url` gives for its place; where two have one name, one of them is there.
pub record IsPresented {User Rest : Type 0} (keys : Keys User) (s : ApiSettings)
    (environ : Dict Text Text) (user_id : Text) (expiry : ℕ) (job_id : Text) (old : List Link)
    (items : List (Item Rest)) (c : Collection Rest) : Type 0 where
  pub canonical : Link
  pub canonical_rel : canonical.rel ≡ codes "canonical"
  pub signed :
      signed_at keys s environ user_id expiry (results_path s job_id) ≡ some canonical.target
  pub url : Text → Text
  pub hrefs :
      (h : Text)
      → item_href keys s environ user_id expiry job_id
          ((user_directory (workspace s user_id job_id) []).0)
          h
        ≡ some (url h)
  pub links :
      (l : Link)
      → In l c.links ↔ ((l ≡ canonical) ⊎ Kept (api_self_url s ++ results_path s job_id) old l)
  pub from_items : (k : Text) (a : Asset Rest) → Dict.get k c.assets ≡ some a → Comes url items k a
  pub all_items :
      (item : Item Rest) (k : Text) (b : Asset Rest)
      → In item items
      → In (k, b) item.assets
      → (a : Asset Rest) × (Dict.get (asset_key item.id k) c.assets ≡ some a)
        × Comes url items (asset_key item.id k) a
  pub alone :
      (item : Item Rest) (k : Text) (b : Asset Rest)
      → In item items
      → In (k, b) item.assets
      → ((other : Item Rest) (j : Text) (d : Asset Rest)
          → In other items
          → In (j, d) other.assets
          → asset_key item.id k ≡ asset_key other.id j
          → d ≡ b)
      → Dict.get (asset_key item.id k) c.assets ≡ some (linked url b)
  pub finished : c.status ≡ some (codes "finished")

come_from_items :
    {Rest : Type 0} (url : Text → Text) (items : List (Item Rest)) (k : Text) (a : Asset Rest)
    → Dict.get k (put_items url items []) ≡ some a
    → Comes url items k a
unfolding Dict.get
come_from_items url items k a e = elim (get-put_items url items [] k a e) [
  | inl none_yet ↦ absurd (none_not_some none_yet)
  | inr found ↦ found
]

has-some :
    {Rest : Type 0} (k : Text) (d : Dict Text (Asset Rest))
    → Dict.has k d ≡ true
    → (a : Asset Rest) × (Dict.get k d ≡ some a)
has-some k d h = elim (Option-cases (Dict.get k d)) [
  | inl missing ↦ ground (arith, missing, h)
  | inr found ↦ found
]

module _ {Rest : Type 0} (url : Text → Text) (items : List (Item Rest)) (item : Item Rest)
    (k : Text) (b : Asset Rest) (i : In item items) (m : In (k, b) item.assets) where
  entry-Comes :
      (a : Asset Rest) × (Dict.get (asset_key item.id k) (put_items url items []) ≡ some a)
      × Comes url items (asset_key item.id k) a
  entry-Comes =
      let (a, e) =
        has-some (asset_key item.id k) (put_items url items [])
          (put_items-In url items [] item k b i m) in
      (a, e, come_from_items url items (asset_key item.id k) a e)

  entry_alone :
      ((other : Item Rest) (j : Text) (d : Asset Rest)
        → In other items
        → In (j, d) other.assets
        → asset_key item.id k ≡ asset_key other.id j
        → d ≡ b)
      → Dict.get (asset_key item.id k) (put_items url items []) ≡ some (linked url b)
  entry_alone same =
      let (a, e, (other, j, d, l, n, key, is)) = entry-Comes in
      e ∙ ap some (is ∙ ap (linked url) (same other j d l n key))

module _ {User Rest : Type 0} (keys : Keys User) (s : ApiSettings) (environ : Dict Text Text)
    (user_id value : Text) (secret : List ℕ) (named : keys.attribute sign_key ≡ some value)
    (decoded : keys.urlsafe_b64decode value ≡ some secret) (disk : Disk Rest) (job_id dir : Text)
    (c : Collection Rest) (i : Text × Text) (is : List (Text × Text)) (items : List (Item Rest))
    (stac : stac_directory (workspace s user_id job_id) ≡ some dir) (bare : c.assets ≡ [])
    (dated : c.intervals ≡ i ∷ is)
    (read : disk.item_files (child dir (codes "items")) ≡ map some items) (expiry : ℕ) where
  url_for : Text → Text
  url_for =
      link_text keys s environ user_id value secret expiry named decoded job_id
        ((user_directory (workspace s user_id job_id) []).0)

  shown : Collection Rest
  shown = record c {
    links =
        retarget (api_self_url s ++ results_path s job_id) c.links
        ++ (canonical_link keys s environ user_id value secret expiry named decoded job_id ∷ []);
    assets = put_items url_for items [];
    datetime = some i;
    status = some (codes "finished");
  }

  linked_assets_lem :
      linked_assets keys s environ user_id expiry job_id
        ((user_directory (workspace s user_id job_id) []).0)
        (some dir)
        disk
        c.assets
      ≡ some (put_items url_for items [])
  unfolding linked_assets url_for
  linked_assets_lem = ground (
    arith,
    bare,
    read,
    add_items-put_items keys s environ user_id expiry job_id
        ((user_directory (workspace s user_id job_id) []).0) url_for
        (λ h.
          item_href_total keys s environ user_id value secret expiry named decoded job_id
            ((user_directory (workspace s user_id job_id) []).0) h)
        items [],
  )

  first_interval_lem : first_interval c.intervals ≡ some i
  unfolding first_interval
  first_interval_lem = ap first_interval dated

  present_lem :
      present keys s environ (workspace s user_id job_id) user_id job_id disk expiry c ≡ some shown
  unfolding present shown canonical_link
  present_lem =
      three_steps _ _ _ _ _ _ _
        (signed_at_total keys s environ user_id value secret expiry named decoded
          (results_path s job_id))
        (ap
            (λ d.
              linked_assets keys s environ user_id expiry job_id
                ((user_directory (workspace s user_id job_id) []).0) d disk c.assets)
            stac
          ∙ linked_assets_lem)
        first_interval_lem

  shown-IsPresented : IsPresented keys s environ user_id expiry job_id c.links items shown
  unfolding shown url_for canonical_link
  shown-IsPresented = record {
    canonical = canonical_link keys s environ user_id value secret expiry named decoded job_id;
    signed =
        signed_at_total keys s environ user_id value secret expiry named decoded
          (results_path s job_id);
    url = url_for;
    hrefs =
        item_href_total keys s environ user_id value secret expiry named decoded job_id
          ((user_directory (workspace s user_id job_id) []).0);
    canonical_rel = refl;
    links = λ l. (
      λ m. elim (In-append l (retarget (api_self_url s ++ results_path s job_id) c.links) _ m) [
        | inl kept ↦ inr ((retarget_iff (api_self_url s ++ results_path s job_id) c.links l).0 kept)
        | inr (inl e) ↦ inl e
        | inr (inr none_left) ↦ absurd none_left
      ],
      λ h. elim h [
        | inl e ↦
            In-append-right l (retarget (api_self_url s ++ results_path s job_id) c.links) _ (inl e)
        | inr kept ↦
            In-append-left l (retarget (api_self_url s ++ results_path s job_id) c.links) _
              ((retarget_iff (api_self_url s ++ results_path s job_id) c.links l).1 kept)
      ],
    );
    from_items = come_from_items url_for items;
    all_items = entry-Comes url_for items;
    alone = entry_alone url_for items;
    finished = refl;
  }

module _ {User Rest : Type 0} (keys : Keys User) (s : ApiSettings) (environ : Dict Text Text)
    (user_id value : Text) (secret : List ℕ) (named : keys.attribute sign_key ≡ some value)
    (decoded : keys.urlsafe_b64decode value ≡ some secret) where
  -- If the settings have a signing key, and the job is known, its collection has a date but no
  -- assets of its own, and the files of its items can be read, then the results are given out. Their
  -- links are exactly those of the collection that are not to items, each now to the results, and a
  -- canonical one with a signature. Their assets are all those of the items, under the name of the item
  -- and their own, each with the signed URL of its file or the URL of its object; of two with one name,
  -- one is there. The files are those below the directory of the user who asks, whoever owns the job.
  pub get_results-IsPresented :
      (get_job : Text → Option JobRow) (disk : Disk Rest) (now : ℕ) (job_id : Text) (job : JobRow)
      (path dir : Text) (c : Collection Rest) (i : Text × Text) (is : List (Text × Text))
      (items : List (Item Rest))
      → get_job job_id ≡ some job
      → results_collection_json (workspace s user_id job.job_id) ≡ some path
      → stac_directory (workspace s user_id job.job_id) ≡ some dir
      → disk.collection_at path ≡ some c
      → c.assets ≡ []
      → c.intervals ≡ i ∷ is
      → disk.item_files (child dir (codes "items")) ≡ map some items
      → (c' : Collection Rest) × (get_results keys s environ get_job disk now job_id (some user_id)
          ≡ some c')
        × IsPresented keys s environ user_id (now + 604800) job.job_id c.links items c'
  unfolding get_results expiry_of
  get_results-IsPresented get_job disk now job_id job path dir c i is items known at stac found bare
        dated read =
      (
        shown keys s environ user_id value secret named decoded disk job.job_id dir c i is items
            stac bare dated read (now + 604800),
        ground (
          arith,
          known,
          at,
          found,
          present_lem keys s environ user_id value secret named decoded disk job.job_id dir c i is
              items stac bare dated read (now + 604800),
        ),
        shown-IsPresented keys s environ user_id value secret named decoded disk job.job_id dir c i
            is items stac bare dated read (now + 604800),
      )
