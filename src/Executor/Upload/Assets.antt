-- ===== src/Executor/Upload/Assets.antt =====
-- What an upload does to the assets of the items.
use openeo_argoworkflows.Base.{
  false, not, ◌&&◌, Option, none, some, List, [], ◌∷◌, ◌==◌, ◌≡◌, refl, ap, inl, inr, map,
  if◌then◌else◌, arith, Bool-cases,
}
use openeo_argoworkflows.Base.Text.{text_eq}
use openeo_argoworkflows.Executor.Profile.{is_s3_configured}
use openeo_argoworkflows.Executor.Upload.{
  Host, Asset, s3_uri, upload_to_s3, upload_asset, upload_assets, upload_item, upload_items,
  upload_stac_item_assets,
}

-- The asset that clients should find: in the object store if it is a local file that can be
-- uploaded, and where it was in any other case.
abbrev pub published : Host → Asset → Asset
published host a =
    if is_s3_configured host.environ
      && (not (a.href == []) && (host.isfile a.href && host.upload_file a.href))
    then record a { href = s3_uri host a.href }
    else a

abbrev pub published_item : Host → Option (List Asset) → Option (List Asset)
published_item host none = none
published_item host (some assets) = some (map (published host) assets)

module _ (host : Host) where
  upload_asset-published : (a : Asset) → (upload_asset host a).0 ≡ published host a
  unfolding upload_asset upload_to_s3
  upload_asset-published a = ground arith

  upload_assets-map :
      (assets : List Asset) → (upload_assets host assets).0 ≡ map (published host) assets
  unfolding upload_assets
  upload_assets-map [] = refl
  upload_assets-map (a ∷ rest) = ground (arith, upload_asset-published a, upload_assets-map rest)

  upload_items-map :
      (items : List (Option (List Asset)))
      → (upload_items host items).0 ≡ map (published_item host) items
  unfolding upload_items upload_item
  upload_items-map [] = refl
  upload_items-map (none ∷ items) = ap (λ rest. none ∷ rest) (upload_items-map items)
  upload_items-map (some assets ∷ items) =
      ground (arith, upload_assets-map assets, upload_items-map items)

  published_same : is_s3_configured host.environ ≡ false → (a : Asset) → published host a ≡ a
  published_same h a = ground (arith, h)

  published_all_same :
      is_s3_configured host.environ ≡ false
      → (assets : List Asset) → map (published host) assets ≡ assets
  published_all_same h [] = refl
  published_all_same h (a ∷ rest) = ground (arith, published_same h a, published_all_same h rest)

  items_same :
      is_s3_configured host.environ ≡ false
      → (items : List (Option (List Asset))) → map (published_item host) items ≡ items
  items_same h [] = refl
  items_same h (none ∷ items) = ap (λ rest. none ∷ rest) (items_same h items)
  items_same h (some assets ∷ items) =
      ground (arith, published_all_same h assets, items_same h items)

  -- After an upload, the assets that are local files are in the object store, if it is configured
  -- and takes them; every other asset and every unreadable item is as before.
  pub upload_stac_item_assets-map :
      (items : List (Option (List Asset)))
      → (upload_stac_item_assets host items).0 ≡ map (published_item host) items
  unfolding upload_stac_item_assets
  upload_stac_item_assets-map items = elim (Bool-cases (is_s3_configured host.environ)) [
    | inl on ↦ ground (arith, on, upload_items-map items)
    | inr off ↦ ground (arith, off, items_same off items)
  ]
