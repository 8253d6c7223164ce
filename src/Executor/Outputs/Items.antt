-- ===== src/Executor/Outputs/Items.antt =====
-- The output files that the results of a job show.
use openeo_argoworkflows.Base.{some, List, [], ◌∷◌, ◌≡◌, refl, sym, ap, ◌∙◌, inl, inr, map, arith}
use openeo_argoworkflows.Base.Lists.{In}
use openeo_argoworkflows.Base.Dict
use openeo_argoworkflows.Base.Dict.{Dict, get-set}
use openeo_argoworkflows.Base.Text.{Text, text_eq}
use openeo_argoworkflows.Executor.Outputs.{
  System, Item, StacFiles, item_of, item_path, write_items, create_cwl_stac,
}

module _ (p q : Text) (v i : Item) (files : Dict Text Item) where
  set_new : p ≡ q → i ≡ v → Dict.get p (Dict.set q i files) ≡ some v
  set_new e f = ground (arith, get-set p q i files, e, f)

  set_keep : (q ≡ p → i ≡ v) → Dict.get p files ≡ some v → Dict.get p (Dict.set q i files) ≡ some v
  set_keep same h = elim (text_eq.decide p q) [
    | yes e ↦ set_new e (same (sym e))
    | no n ↦ ground (arith, get-set p q i files, n, h)
  ]

module _ (stac_path : Text) where
  -- Writes of one value to a path, and of others to other paths.
  write_items_keep :
      (p : Text) (v : Item) (items : List Item) (files : Dict Text Item)
      → ((i : Item) → In i items → item_path stac_path i ≡ p → i ≡ v)
      → Dict.get p files ≡ some v
      → Dict.get p (write_items stac_path items files) ≡ some v
  unfolding write_items
  write_items_keep p v [] files same h = h
  write_items_keep p v (i ∷ items) files same h =
      write_items_keep p v items (Dict.set (item_path stac_path i) i files)
        (λ j m e. same j (inr m) e)
        (set_keep p (item_path stac_path i) v i files (same i (inl refl)) h)

  get-write_items :
      (v : Item) (items : List Item) (files : Dict Text Item)
      → In v items
      → ((i : Item) → In i items → item_path stac_path i ≡ item_path stac_path v → i ≡ v)
      → Dict.get (item_path stac_path v) (write_items stac_path items files) ≡ some v
  unfolding write_items
  get-write_items v [] files m same = absurd m
  get-write_items v (i ∷ items) files (inl e) same =
      write_items_keep (item_path stac_path v) v items (Dict.set (item_path stac_path i) i files)
        (λ j m q. same j (inr m) q) (set_new _ _ v i files (ap (item_path stac_path) e) (sym e))
  get-write_items v (i ∷ items) files (inr m) same =
      get-write_items v items (Dict.set (item_path stac_path i) i files) m
        (λ j n q. same j (inr n) q)

In-map : {A B : Type 0} (f : A → B) (a : A) (xs : List A) → In a xs → In (f a) (map f xs)
In-map f a [] m = absurd m
In-map f a (x ∷ xs) (inl e) = inl (ap f e)
In-map f a (x ∷ xs) (inr m) = inr (In-map f a xs m)

map-In :
    {A B : Type 0} (f : A → B) (b : B) (xs : List A)
    → In b (map f xs)
    → (a : A) × In a xs × (b ≡ f a)
map-In f b [] m = absurd m
map-In f b (x ∷ xs) (inl e) = (x, inl refl, e)
map-In f b (x ∷ xs) (inr m) = let (a, n, e) = map-In f b xs m in (a, inr n, e)

-- An output file whose item has a path of its own among the items has that item afterwards,
-- whatever was there before and whether or not the items can be published.
pub get-create_cwl_stac :
    (sys : System) (job_id : Text) (result_files : List Text) (stac_path stac_api_url : Text)
    (files : StacFiles) (f : Text)
    → In f result_files
    → ((g : Text)
        → In g result_files
        → item_path stac_path (item_of sys job_id g) ≡ item_path stac_path (item_of sys job_id f)
        → g ≡ f)
    → Dict.get
        (item_path stac_path (item_of sys job_id f))
        ((create_cwl_stac sys job_id result_files stac_path stac_api_url files).0.items)
      ≡ some (item_of sys job_id f)
unfolding create_cwl_stac
get-create_cwl_stac sys job_id result_files stac_path stac_api_url files f m alone =
    get-write_items stac_path (item_of sys job_id f) (map (item_of sys job_id) result_files)
      files.items (In-map (item_of sys job_id) f result_files m)
      (λ i n e.
        let (g, k, q) = map-In (item_of sys job_id) i result_files n in
        q ∙ ap (item_of sys job_id) (alone g k (sym (ap (item_path stac_path) q) ∙ e)))
