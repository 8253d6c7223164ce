-- ===== src/Executor/Publish/Lost.antt =====
-- Several collections of one job, which share the directory and the name of the file.
use mathlib.Core.Path.{subst}
use openeo_argoworkflows.Base.{
  true, some, List, [], ◌∷◌, ◌++◌, ◌≡◌, sym, ap, ◌∙◌, inl, inr, Bool-cases, arith,
}
use openeo_argoworkflows.Base.Lists.{In, In-append-left, In-append-right}
use openeo_argoworkflows.Base.Dict
use openeo_argoworkflows.Base.Dict.{get-set}
use openeo_argoworkflows.Base.Text.{text_eq}
use openeo_argoworkflows.Executor.Publish.{
  Saved, StacDir, Post, post_all, post_collection, Publisher, collection_target, normalize,
  publish_stac_collection, publish_collections,
}
use openeo_argoworkflows.Executor.Publish.Stored.{published_files, publish_stac_collection-IsStored}

module _ (p : Publisher) where
  -- A loop that does not raise goes on with the directory that the first collection leaves.
  publish_collections-step :
      (saved : Saved) (more : List Saved) (dir : StacDir)
      → (publish_collections p (saved ∷ more) dir).returned ≡ true
      → ((publish_stac_collection p saved dir).returned ≡ true)
        × ((publish_collections p more (publish_stac_collection p saved dir).dir).returned ≡ true)
        × ((publish_collections p (saved ∷ more) dir).dir
            ≡ (publish_collections p more (publish_stac_collection p saved dir).dir).dir)
        × ((publish_collections p (saved ∷ more) dir).posts
            ≡ (publish_stac_collection p saved dir).posts
              ++ (publish_collections p more (publish_stac_collection p saved dir).dir).posts)
  unfolding publish_collections
  publish_collections-step saved more dir e =
      elim (Bool-cases (publish_stac_collection p saved dir).returned) [
        | inl on ↦ (on, ground (arith, on, e), ground (arith, on), ground (arith, on))
        | inr off ↦ ground (arith, off, e)
      ]

  get-publish_stac_collection :
      (saved : Saved) (dir : StacDir)
      → Dict.get (collection_target p) (publish_stac_collection p saved dir).dir.collections
        ≡ some (normalize p.stac_api_url p.job_id saved.collection)
  unfolding publish_stac_collection
  get-publish_stac_collection saved dir = ground (
    arith,
    get-set (collection_target p) (collection_target p)
        (normalize p.stac_api_url p.job_id saved.collection) dir.collections,
  )

  -- What the server is sent for a collection.
  abbrev pub collection_post : Saved → Post
  collection_post saved =
      post_collection p.stac_api_url (normalize p.stac_api_url p.job_id saved.collection)

  In-posts :
      (saved : Saved) (dir : StacDir)
      → In (collection_post saved) (publish_stac_collection p saved dir).posts
  unfolding publish_stac_collection post_all
  In-posts saved dir = ground arith

  all_posted :
      (ss : List Saved) (dir : StacDir)
      → (publish_collections p ss dir).returned ≡ true
      → (s : Saved) → In s ss
      → In (collection_post s) (publish_collections p ss dir).posts
  all_posted [] dir e s m = absurd m
  all_posted (x ∷ ss) dir e s m =
      let (on, later, d, posts) = publish_collections-step x ss dir e in
      let next = (publish_stac_collection p x dir).dir in
      subst (In (collection_post s)) (sym posts) (elim m [
        | inl same ↦ In-append-left (collection_post s) _ _ (
            subst (λ y. In (collection_post y) (publish_stac_collection p x dir).posts) (sym same)
              (In-posts x dir))
        | inr other ↦ In-append-right (collection_post s) _ _ (all_posted ss next later s other)
      ])

  last_kept :
      (earlier : List Saved) (last : Saved) (dir : StacDir)
      → (publish_collections p (earlier ++ (last ∷ [])) dir).returned ≡ true
      → (before : StacDir) × ((publish_collections p (earlier ++ (last ∷ [])) dir).dir
          ≡ (publish_stac_collection p last before).dir)
        × ((publish_stac_collection p last before).returned ≡ true)
  unfolding publish_collections
  last_kept [] last dir e =
      let (on, later, d, posts) = publish_collections-step last [] dir e in (dir, d, on)
  last_kept (s ∷ earlier) last dir e =
      let (on, later, d, posts) = publish_collections-step s (earlier ++ (last ∷ [])) dir e in
      let (before, same, r) = last_kept earlier last (publish_stac_collection p s dir).dir later in
      (before, d ∙ same, r)

  -- If all the collections of a job are published without an exception, the server has been sent each
  -- of them, but the directory holds the last one under the name of the job, and the items of the last
  -- one only.
  pub publish_collections-last :
      (earlier : List Saved) (last : Saved) (dir : StacDir)
      → (publish_collections p (earlier ++ (last ∷ [])) dir).returned ≡ true
      → ((publish_collections p (earlier ++ (last ∷ [])) dir).dir.items
          ≡ published_files p.host last.items)
        × (Dict.get
              (collection_target p)
              (publish_collections p (earlier ++ (last ∷ [])) dir).dir.collections
            ≡ some (normalize p.stac_api_url p.job_id last.collection))
        × ((s : Saved)
            → In s (earlier ++ (last ∷ []))
            → In (collection_post s) (publish_collections p (earlier ++ (last ∷ [])) dir).posts)
  publish_collections-last earlier last dir e =
      let (before, same, r) = last_kept earlier last dir e in
      let stored = publish_stac_collection-IsStored p last before r in
      (
        ap (λ (d : StacDir). d.items) same ∙ stored.items,
        ap (λ (d : StacDir). Dict.get (collection_target p) d.collections) same
            ∙ get-publish_stac_collection last before,
        all_posted (earlier ++ (last ∷ [])) dir e,
      )
