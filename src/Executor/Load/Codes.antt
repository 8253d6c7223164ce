-- ===== src/Executor/Load/Codes.antt =====
-- The EPSG codes of the assets, for odc-stac.
use mathlib.Core.Path.{subst}
use openeo_argoworkflows.Base.{
  ℕ, suc, map, true, none, some, List, [], ◌∷◌, ◌≡◌, sym, ap, ◌∙◌, inl, inr, is_some, nat_eq,
  Bool-cases, Option-cases, arith,
}
use openeo_argoworkflows.Base.Lists.{In, length}
use openeo_argoworkflows.Base.Dict.{Dict}
use openeo_argoworkflows.Base.Text.{Text, text_eq}
use openeo_argoworkflows.Executor.Raster.{AssetFields, Item}
use openeo_argoworkflows.Executor.Load.{
  epsg_number, normalize_asset, normalize_assets, normalize_items,
}
use openeo_argoworkflows.Executor.Load.Steps.{try_then-inr, inr_injective}

-- A code with a number is readable: the asset has the number too.
abbrev pub IsReadable : AssetFields → Type 0
IsReadable asset =
    (code : Text) (n : ℕ)
    → asset.proj_code ≡ some (some code)
    → epsg_number code ≡ some n
    → is_some asset.proj_epsg ≡ true

code_kept :
    (a b : AssetFields) (code : Text) (n : ℕ)
    → normalize_asset a ≡ inr b
    → a.proj_code ≡ some (some code)
    → epsg_number code ≡ some n
    → is_some b.proj_epsg ≡ true
unfolding normalize_asset
code_kept a b code n h c e = elim (Bool-cases (is_some a.proj_epsg)) [
  | inl has ↦
      ap (λ (x : AssetFields). is_some x.proj_epsg)
        (sym (inr_injective {a = a} {b = b} (ground (arith, c, e, has, h))))
      ∙ has
  | inr lacks ↦
      ap (λ (x : AssetFields). is_some x.proj_epsg)
        (sym (
          inr_injective {a = record a { proj_epsg = some (some n) }} {b = b}
            (ground (arith, c, e, lacks, h))))
]

same_code : (a b : AssetFields) → normalize_asset a ≡ inr b → a.proj_code ≡ b.proj_code
unfolding normalize_asset
same_code a b h = elim (Option-cases a.proj_code) [
  | inl absent ↦
      ap (λ (x : AssetFields). x.proj_code)
        (inr_injective {a = a} {b = b} (ground (arith, absent, h)))
  | inr (none, null) ↦ ground (arith, null, h)
  | inr (some code, there) ↦ elim (Option-cases (epsg_number code)) [
    | inl text ↦
        ap (λ (x : AssetFields). x.proj_code)
          (inr_injective {a = a} {b = b} (ground (arith, there, text, h)))
    | inr (n, number) ↦ elim (Bool-cases (is_some a.proj_epsg)) [
      | inl has ↦
          ap (λ (x : AssetFields). x.proj_code)
            (inr_injective {a = a} {b = b} (ground (arith, there, number, has, h)))
      | inr lacks ↦
          ap (λ (x : AssetFields). x.proj_code)
            (inr_injective {a = record a { proj_epsg = some (some n) }} {b = b}
              (ground (arith, there, number, lacks, h)))
    ]
  ]
]

normalize_asset-IsReadable : (a b : AssetFields) → normalize_asset a ≡ inr b → IsReadable b
normalize_asset-IsReadable a b h = λ code n c e. code_kept a b code n h (same_code a b h ∙ c) e

normalize_assets-IsReadable :
    (old new : Dict Text AssetFields)
    → normalize_assets old ≡ inr new
    → (key : Text) (asset : AssetFields) → In (key, asset) new
    → IsReadable asset
unfolding normalize_assets
normalize_assets-IsReadable [] new h key asset m =
    absurd (subst (In (key, asset)) (sym (inr_injective h)) m)
normalize_assets-IsReadable ((k, a) ∷ old) new h key asset m =
    let (b, one, e) = try_then-inr (normalize_asset a) _ new h in
    let (more, others, f) = try_then-inr (normalize_assets old) _ new e in
    elim (subst (In (key, asset)) (sym (inr_injective f)) m) [
      | inl same ↦
          subst IsReadable (sym (ap (λ (x : Text × AssetFields). x.1) same))
            (normalize_asset-IsReadable a b one)
      | inr other ↦ normalize_assets-IsReadable old more others key asset other
    ]

pub normalize_items-IsReadable :
    (old new : List Item)
    → normalize_items old ≡ inr new
    → (length new ≡ length old)
      × ((i : Item) (key : Text) (asset : AssetFields)
          → In i new
          → In (key, asset) i.assets
          → IsReadable asset)
unfolding normalize_items
normalize_items-IsReadable [] new h = (
  ap length (sym (inr_injective h)),
  λ i key asset m. absurd (subst (In i) (sym (inr_injective h)) m),
)
normalize_items-IsReadable (item ∷ old) new h =
    let (assets, one, e) = try_then-inr (normalize_assets item.assets) _ new h in
    let (more, others, f) = try_then-inr (normalize_items old) _ new e in
    let (count, readable) = normalize_items-IsReadable old more others in
    (
      ap length (sym (inr_injective f)) ∙ ap suc count,
      λ i key asset m n. elim (subst (In i) (sym (inr_injective f)) m) [
        | inl same ↦
            normalize_assets-IsReadable item.assets assets one key asset
              (subst (λ (x : Item). In (key, asset) x.assets) same n)
        | inr other ↦ readable i key asset other n
      ],
    )

-- An asset with no number of its own and an EPSG code gets the number of the code.
abbrev pub numbered : AssetFields → AssetFields
numbered asset = elim asset.proj_epsg [
  | some e ↦ asset
  | none ↦ elim asset.proj_code [
    | none ↦ asset
    | some none ↦ asset
    | some (some code) ↦ elim (epsg_number code) [
      | none ↦ asset
      | some n ↦ record asset { proj_epsg = some (some n) }
    ]
  ]
]

-- An item with all its assets, under their keys.
abbrev pub numbered_item : Item → Item
numbered_item item = record item { assets = map (λ (k, a). (k, numbered a)) item.assets }

normalize_asset-numbered : (a b : AssetFields) → normalize_asset a ≡ inr b → b ≡ numbered a
unfolding normalize_asset
normalize_asset-numbered a b h = elim (Option-cases a.proj_epsg) [
  | inr (e, has) ↦ elim (Option-cases a.proj_code) [
    | inl absent ↦ sym (inr_injective {a = a} (ground (arith, absent, h))) ∙ ground (arith, has)
    | inr (none, null) ↦ ground (arith, null, h)
    | inr (some code, there) ↦ elim (Option-cases (epsg_number code)) [
      | inl text ↦
          sym (inr_injective {a = a} (ground (arith, there, text, h))) ∙ ground (arith, has)
      | inr (n, number) ↦
          sym (inr_injective {a = a} (ground (arith, there, number, has, h))) ∙ ground (arith, has)
    ]
  ]
  | inl lacks ↦ elim (Option-cases a.proj_code) [
    | inl absent ↦
        sym (inr_injective {a = a} (ground (arith, absent, h))) ∙ ground (arith, lacks, absent)
    | inr (none, null) ↦ ground (arith, null, h)
    | inr (some code, there) ↦ elim (Option-cases (epsg_number code)) [
      | inl text ↦
          sym (inr_injective {a = a} (ground (arith, there, text, h)))
          ∙ ground (arith, lacks, there, text)
      | inr (n, number) ↦
          sym (
            inr_injective {a = record a { proj_epsg = some (some n) }}
              (ground (arith, there, number, lacks, h)))
          ∙ ground (arith, lacks, there, number)
    ]
  ]
]

normalize_assets-numbered :
    (old new : Dict Text AssetFields)
    → normalize_assets old ≡ inr new
    → new ≡ map (λ (k, a). (k, numbered a)) old
unfolding normalize_assets
normalize_assets-numbered [] new h = sym (inr_injective h)
normalize_assets-numbered ((k, a) ∷ old) new h =
    let (b, one, e) = try_then-inr (normalize_asset a) _ new h in
    let (more, others, f) = try_then-inr (normalize_assets old) _ new e in
    sym (inr_injective f)
    ∙ ap (λ x. (k, x) ∷ more) (normalize_asset-numbered a b one)
    ∙ ap (λ rest. (k, numbered a) ∷ rest) (normalize_assets-numbered old more others)

pub normalize_items-numbered_item :
    (old new : List Item) → normalize_items old ≡ inr new → new ≡ map numbered_item old
unfolding normalize_items
normalize_items-numbered_item [] new h = sym (inr_injective h)
normalize_items-numbered_item (item ∷ old) new h =
    let (assets, one, e) = try_then-inr (normalize_assets item.assets) _ new h in
    let (more, others, f) = try_then-inr (normalize_items old) _ new e in
    sym (inr_injective f)
    ∙ ap (λ (d : Dict Text AssetFields). let i : Item = record item { assets = d } in i ∷ more)
        (normalize_assets-numbered item.assets assets one)
    ∙ ap (λ rest. numbered_item item ∷ rest) (normalize_items-numbered_item old more others)
