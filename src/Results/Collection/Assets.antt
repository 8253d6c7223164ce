-- ===== src/Results/Collection/Assets.antt =====
-- The assets that `get_results` collects from the items, as writes to a dictionary.
use mathlib.Core.Path.{subst}
use openeo_argoworkflows.Base.{
  ℕ, true, some, List, [], ◌∷◌, ◌++◌, map, ◌≡◌, refl, ap, ◌∙◌, ◌⊎◌, inl, inr, arith,
}
use openeo_argoworkflows.Base.Dict
use openeo_argoworkflows.Base.Dict.{Dict, get-set}
use openeo_argoworkflows.Base.Lists.{In}
use openeo_argoworkflows.Base.Text.{Text, codes, text_eq}
use openeo_argoworkflows.Auth.Signed.{Keys}
use openeo_argoworkflows.Results.Download.{Asset, Item, href_of}
use openeo_argoworkflows.Results.Collection.{ApiSettings, item_href, add_assets, add_items}

abbrev pub asset_key : Text → Text → Text
asset_key item_id k = item_id ++ (codes "_" ++ k)

abbrev pub linked : {Rest : Type 0} → (Text → Text) → Asset Rest → Asset Rest
linked url a = record a { href = some (url (href_of a)) }

-- All the writes, with a URL for each `href`.
unfoldable pub put_assets :
    {Rest : Type 0}
    → (Text → Text)
    → Text
    → Dict Text (Asset Rest)
    → Dict Text (Asset Rest)
    → Dict Text (Asset Rest)
unfolding Dict.set
put_assets url item_id [] acc = acc
put_assets url item_id ((k, a) ∷ assets) acc =
    put_assets url item_id assets (Dict.set (asset_key item_id k) (linked url a) acc)

unfoldable pub put_items :
    {Rest : Type 0}
    → (Text → Text)
    → List (Item Rest)
    → Dict Text (Asset Rest)
    → Dict Text (Asset Rest)
unfolding put_assets
put_items url [] acc = acc
put_items url (item ∷ items) acc = put_items url items (put_assets url item.id item.assets acc)

module _ {User : Type 0} (keys : Keys User) (s : ApiSettings) (environ : Dict Text Text)
    (user_id : Text) (expiry : ℕ) (job_id user_dir : Text) (url : Text → Text)
    (total : (h : Text)
      → item_href keys s environ user_id expiry job_id user_dir h ≡ some (url h)) where
  add_assets-put_assets :
      {Rest : Type 0} (item_id : Text) (assets acc : Dict Text (Asset Rest))
      → add_assets keys s environ user_id expiry job_id user_dir item_id assets acc
        ≡ some (put_assets url item_id assets acc)
  unfolding add_assets put_assets
  add_assets-put_assets item_id [] acc = refl
  add_assets-put_assets item_id ((k, a) ∷ assets) acc = ground (
    arith,
    total (href_of a),
    add_assets-put_assets item_id assets (Dict.set (asset_key item_id k) (linked url a) acc),
  )

  pub add_items-put_items :
      {Rest : Type 0} (items : List (Item Rest)) (acc : Dict Text (Asset Rest))
      → add_items keys s environ user_id expiry job_id user_dir (map some items) acc
        ≡ some (put_items url items acc)
  unfolding add_items put_items
  add_items-put_items [] acc = refl
  add_items-put_items (item ∷ items) acc = ground (
    arith,
    add_assets-put_assets item.id item.assets acc,
    add_items-put_items items (put_assets url item.id item.assets acc),
  )

-- An entry of the results is the link of an asset of an item.
abbrev pub Comes : {Rest : Type 0} → (Text → Text) → List (Item Rest) → Text → Asset Rest → Type 0
Comes {Rest} url items k a =
    (item : Item Rest) × (j : Text) × (b : Asset Rest) × In item items
    × In (j, b) item.assets
    × (k ≡ asset_key item.id j)
    × (a ≡ linked url b)

module _ {Rest : Type 0} (url : Text → Text) where
  get-put_assets :
      (item_id : Text) (assets acc : Dict Text (Asset Rest)) (k : Text) (a : Asset Rest)
      → Dict.get k (put_assets url item_id assets acc) ≡ some a
      → (Dict.get k acc ≡ some a)
        ⊎ ((j : Text) × (b : Asset Rest) × In (j, b) assets
            × (k ≡ asset_key item_id j)
            × (a ≡ linked url b))
  unfolding put_assets
  get-put_assets item_id [] acc k a e = inl e
  get-put_assets item_id ((j, b) ∷ assets) acc k a e =
      elim (get-put_assets item_id assets _ k a e) [
        | inr (i, c, m, f, g) ↦ inr (i, c, inr m, f, g)
        | inl h ↦ elim (text_eq.decide k (asset_key item_id j)) [
          | yes p ↦ inr (
            j,
            b,
            inl refl,
            p,
            ground (arith, p, h, get-set k (asset_key item_id j) (linked url b) acc),
          )
          | no n ↦ inl (ground (arith, n, h, get-set k (asset_key item_id j) (linked url b) acc))
        ]
      ]

  pub get-put_items :
      (items : List (Item Rest)) (acc : Dict Text (Asset Rest)) (k : Text) (a : Asset Rest)
      → Dict.get k (put_items url items acc) ≡ some a
      → (Dict.get k acc ≡ some a) ⊎ Comes url items k a
  unfolding put_items
  get-put_items [] acc k a e = inl e
  get-put_items (item ∷ items) acc k a e = elim (get-put_items items _ k a e) [
    | inr (it, i, c, l, m, f, g) ↦ inr (it, i, c, inr l, m, f, g)
    | inl h ↦ elim (get-put_assets item.id item.assets acc k a h) [
      | inl old ↦ inl old
      | inr (i, c, m, f, g) ↦ inr (item, i, c, inl refl, m, f, g)
    ]
  ]

  -- A key that is there stays.
  has-set :
      (k j : Text) (v : Asset Rest) (acc : Dict Text (Asset Rest))
      → Dict.has k acc ≡ true
      → Dict.has k (Dict.set j v acc) ≡ true
  has-set k j v acc h = ground (arith, h, get-set k j v acc)

  has-set_self :
      (k : Text) (v : Asset Rest) (acc : Dict Text (Asset Rest))
      → Dict.has k (Dict.set k v acc) ≡ true
  has-set_self k v acc = ground (arith, get-set k k v acc)

  has-put_assets :
      (item_id : Text) (assets acc : Dict Text (Asset Rest)) (k : Text)
      → Dict.has k acc ≡ true
      → Dict.has k (put_assets url item_id assets acc) ≡ true
  unfolding put_assets
  has-put_assets item_id [] acc k h = h
  has-put_assets item_id ((j, b) ∷ assets) acc k h =
      has-put_assets item_id assets _ k (has-set k _ _ acc h)

  has-put_items :
      (items : List (Item Rest)) (acc : Dict Text (Asset Rest)) (k : Text)
      → Dict.has k acc ≡ true
      → Dict.has k (put_items url items acc) ≡ true
  unfolding put_items
  has-put_items [] acc k h = h
  has-put_items (item ∷ items) acc k h =
      has-put_items items _ k (has-put_assets item.id item.assets acc k h)

  put_assets-In :
      (item_id : Text) (assets acc : Dict Text (Asset Rest)) (j : Text) (b : Asset Rest)
      → In (j, b) assets
      → Dict.has (asset_key item_id j) (put_assets url item_id assets acc) ≡ true
  unfolding put_assets
  put_assets-In item_id [] acc j b i = absurd i
  put_assets-In item_id ((k, a) ∷ assets) acc j b (inr i) = put_assets-In item_id assets _ j b i
  put_assets-In item_id ((k, a) ∷ assets) acc j b (inl e) = has-put_assets item_id assets _ _ (
      ap
        (λ (x : Text × Asset Rest).
          Dict.has (asset_key item_id (x.0)) (Dict.set (asset_key item_id k) (linked url a) acc))
        e
      ∙ has-set_self (asset_key item_id k) (linked url a) acc)

  pub put_items-In :
      (items : List (Item Rest)) (acc : Dict Text (Asset Rest)) (item : Item Rest) (j : Text)
      (b : Asset Rest)
      → In item items
      → In (j, b) item.assets
      → Dict.has (asset_key item.id j) (put_items url items acc) ≡ true
  unfolding put_items
  put_items-In [] acc item j b i m = absurd i
  put_items-In (first ∷ items) acc item j b (inr i) m = put_items-In items _ item j b i m
  put_items-In (first ∷ items) acc item j b (inl e) m = has-put_items items _ _ (
      subst
        (λ (x : Item Rest).
          Dict.has (asset_key item.id j) (put_assets url x.id x.assets acc) ≡ true)
        e (put_assets-In item.id item.assets acc j b m))
