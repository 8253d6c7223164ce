-- ===== src/Executor/Publish/Stored.antt =====
-- What a collection that is published leaves on the disk and sends to the server.
use mathlib.Core.Path.{subst}
use openeo_argoworkflows.Base.{
  Bool, true, false, not, Option, none, some, List, [], ◌∷◌, map, ◌≡◌, refl, sym, ap, ◌∙◌, ◌⊎◌, ◌↔◌,
  inl, inr, Option-cases, Bool-cases, arith,
}
use openeo_argoworkflows.Base.Lists.{
  In, In-append, In-append-left, In-append-right, In-filter_by, filter_by,
}
use openeo_argoworkflows.Base.Dict
use openeo_argoworkflows.Base.Dict.{Dict, get-set}
use openeo_argoworkflows.Base.Text.{Text, codes, text_eq}
use openeo_argoworkflows.Executor.Upload.{Host, Asset}
use openeo_argoworkflows.Executor.Upload.Assets.{published_item, upload_stac_item_assets-map}
use openeo_argoworkflows.Executor.Publish.{
  Link, Collection, ItemFile, Saved, StacDir, Post, post_collection, post_item, Server, is_own_link,
  items_url, or_empty, normalize, contents, rewrite, stage_items, post_items, post_all, Publisher,
  collection_target, Published, publish_stac_collection,
}

-- The file of an item with its assets in the object store, as far as they can be uploaded.
abbrev pub published_file : Host → ItemFile → ItemFile
published_file host f = record f { content = published_item host f.content }

abbrev pub published_files : Host → Option (List ItemFile) → List ItemFile
published_files host none = []
published_files host (some files) = map (published_file host) files

-- One POST for each file, in their order, of what it holds.
pub data IsSent (url : Text) : List ItemFile → List Post → Type 0 where
  sent_all : IsSent url [] []
  sent :
      {f : ItemFile} {fs : List ItemFile} {item : List Asset} {ps : List Post}
      → f.content ≡ some item
      → IsSent url fs ps
      → IsSent url (f ∷ fs) (post_item url item ∷ ps)

abbrev pub items_link : Publisher → Link
items_link p = record { rel = some (codes "items"); href = items_url p.stac_api_url p.job_id }

-- The collection that is stored is the one that is sent, before the items, which are sent as they are
-- stored. It has the name of the job, the links that do not tell where it was, and one to the items.
pub record IsStored (p : Publisher) (saved : Saved) (r : Published) : Type 0 where
  pub collection : Collection
  pub item_posts : List Post
  pub stored : Dict.get (collection_target p) r.dir.collections ≡ some collection
  pub items : r.dir.items ≡ published_files p.host saved.items
  pub posted : r.posts ≡ post_collection p.stac_api_url collection ∷ item_posts
  pub items_sent : IsSent (items_url p.stac_api_url p.job_id) r.dir.items item_posts
  pub named : collection.id ≡ p.job_id
  pub linked :
      (l : Link)
      → In l (or_empty collection.links) ↔ (
          (l ≡ items_link p)
          ⊎ (In l (or_empty saved.collection.links) × (is_own_link l.rel ≡ false)))

not-false : (b : Bool) → (not b ≡ true) ↔ (b ≡ false)
not-false b = ground arith

module _ (host : Host) where
  rewrite-published :
      (files : List ItemFile)
      → rewrite files (map (published_item host) (contents files)) ≡ map (published_file host) files
  unfolding rewrite contents
  rewrite-published [] = refl
  rewrite-published (f ∷ fs) = ap (λ rest. published_file host f ∷ rest) (rewrite-published fs)

  pub stage_items-published :
      (files : Option (List ItemFile)) → stage_items host files ≡ published_files host files
  unfolding stage_items
  stage_items-published none = refl
  stage_items-published (some files) =
      ap (rewrite files) (upload_stac_item_assets-map host (contents files))
      ∙ rewrite-published files

abbrev keeps : Link → Bool
keeps l = not (is_own_link l.rel)

linked_lem :
    (p : Publisher) (c : Collection) (l : Link)
    → In l (or_empty (normalize p.stac_api_url p.job_id c).links)
      ↔ ((l ≡ items_link p) ⊎ (In l (or_empty c.links) × (is_own_link l.rel ≡ false)))
unfolding normalize
linked_lem p c l = (
  λ h. elim (In-append l (filter_by keeps (or_empty c.links)) (items_link p ∷ []) h) [
    | inl k ↦
        let (m, e) = (In-filter_by keeps l (or_empty c.links)).0 k in inr (m, (not-false _).0 e)
    | inr m ↦ elim m [ inl e ↦ inl e | inr n ↦ absurd n ]
  ],
  λ h. elim h [
    | inl e ↦ In-append-right l (filter_by keeps (or_empty c.links)) (items_link p ∷ []) (inl e)
    | inr (m, e) ↦
        In-append-left l (filter_by keeps (or_empty c.links)) (items_link p ∷ [])
          ((In-filter_by keeps l (or_empty c.links)).1 (m, (not-false _).1 e))
  ],
)

module _ (server : Server) (url : Text) where
  -- The end is reached only if a file could be read and its POST returned.
  post_items-step :
      (f : ItemFile) (fs : List ItemFile)
      → (post_items server url (f ∷ fs)).0 ≡ true
      → (item : List Asset) × (f.content ≡ some item)
        × ((post_items server url fs).0 ≡ true)
        × ((post_items server url (f ∷ fs)).1 ≡ post_item url item ∷ (post_items server url fs).1)
  unfolding post_items
  post_items-step f fs e = elim (Option-cases f.content) [
    | inl broken ↦ cc
    | inr (item, read) ↦ elim (Bool-cases (server (post_item url item))) [
      | inl taken ↦ (item, read, ground (arith, read, taken, e), ground (arith, read, taken))
      | inr refused ↦ ground (arith, read, refused, e)
    ]
  ]

  post_items-IsSent :
      (fs : List ItemFile)
      → (post_items server url fs).0 ≡ true
      → IsSent url fs ((post_items server url fs).1)
  unfolding post_items
  post_items-IsSent [] e = sent_all
  post_items-IsSent (f ∷ fs) e =
      let (item, read, rest, posts) = post_items-step f fs e in
      subst (λ ps. IsSent url (f ∷ fs) ps) (sym posts) (sent read (post_items-IsSent fs rest))

post_all-step :
    (server : Server) (url job_id : Text) (c : Collection) (fs : List ItemFile)
    → (post_all server url job_id c fs).0 ≡ true
    → ((post_items server (items_url url job_id) fs).0 ≡ true)
      × ((post_all server url job_id c fs).1
          ≡ post_collection url c ∷ (post_items server (items_url url job_id) fs).1)
unfolding post_all
post_all-step server url job_id c fs e = elim (Bool-cases (server (post_collection url c))) [
  | inl taken ↦ (ground (arith, taken, e), ground (arith, taken))
  | inr refused ↦ ground (arith, refused, e)
]

-- When a collection is published without an exception, the STAC directory has the items of the
-- package and no others, with every asset in the object store that can be uploaded; the server is
-- sent the collection that is stored and then each item as it is stored. The collection has the name
-- of the job and, of its links, those that are not to itself, its root, parent or items, and one to
-- the items at the server.
pub publish_stac_collection-IsStored :
    (p : Publisher) (saved : Saved) (dir : StacDir)
    → (publish_stac_collection p saved dir).returned ≡ true
    → IsStored p saved (publish_stac_collection p saved dir)
unfolding publish_stac_collection normalize
publish_stac_collection-IsStored p saved dir e =
    let collection = normalize p.stac_api_url p.job_id saved.collection in
    let files = stage_items p.host saved.items in
    let (all, posts) = post_all-step p.server p.stac_api_url p.job_id collection files e in
    record {
      collection = collection;
      item_posts = (post_items p.server (items_url p.stac_api_url p.job_id) files).1;
      stored =
          ground
            (arith, get-set (collection_target p) (collection_target p) collection dir.collections);
      items = stage_items-published p.host saved.items;
      posted = posts;
      items_sent = post_items-IsSent p.server (items_url p.stac_api_url p.job_id) files all;
      named = refl;
      linked = linked_lem p saved.collection;
    }
