-- ===== src/Executor/Raster/First.antt =====
-- The loop over the assets gives the first values that there are.
use openeo_argoworkflows.Base.{
  true, Option, none, some, List, [], ◌∷◌, ◌++◌, ◌≡◌, refl, sym, ap, ◌∙◌, inl, inr, Bool-cases,
  arith,
}
use openeo_argoworkflows.Base.Dict.{Dict}
use openeo_argoworkflows.Base.Text.{Text}
use openeo_argoworkflows.Executor.Raster.{
  Value, is_true, Band, AssetFields, Raster, no_raster, keep_or, take_band, take_bands, bands_of,
  is_complete, not_empty, take_assets,
}

-- The first of the values of a list that is there.
abbrev pub first_of : {A B : Type 0} → (A → Option B) → List A → Option B
first_of f [] = none
first_of f (a ∷ as') = keep_or (f a) (first_of f as')

-- The bands of all the assets, in their order.
abbrev pub all_bands : Dict Text AssetFields → List Band
all_bands [] = []
all_bands ((key, asset) ∷ assets) = bands_of asset ++ all_bands assets

keep_or_assoc : {A : Type 0} (a b c : Option A) → keep_or (keep_or a b) c ≡ keep_or a (keep_or b c)
unfolding keep_or
keep_or_assoc none b c = refl
keep_or_assoc (some a) b c = refl

keep_or-none : {A : Type 0} (a : Option A) → keep_or a none ≡ a
unfolding keep_or
keep_or-none none = refl
keep_or-none (some a) = refl

first_of-append :
    {A B : Type 0} (f : A → Option B) (xs ys : List A)
    → first_of f (xs ++ ys) ≡ keep_or (first_of f xs) (first_of f ys)
unfolding keep_or
first_of-append f [] ys = refl
first_of-append f (x ∷ xs) ys =
    ap (keep_or (f x)) (first_of-append f xs ys)
    ∙ sym (keep_or_assoc (f x) (first_of f xs) (first_of f ys))

-- What the variables become over some bands: those that are not set get the first value.
abbrev over : Raster → List Band → Raster
over r bands = record {
  resolution = keep_or r.resolution (first_of (λ (b : Band). b.spatial_resolution) bands);
  nodata = keep_or r.nodata (first_of (λ (b : Band). b.nodata) bands);
  dtype = keep_or r.dtype (first_of (λ (b : Band). b.data_type) bands);
}

raster_ext :
    {r s : Raster} → r.resolution ≡ s.resolution → r.nodata ≡ s.nodata → r.dtype ≡ s.dtype → r ≡ s
raster_ext {r = r} {s = s} e f g = cc

over-over : (r : Raster) (xs ys : List Band) → over (over r xs) ys ≡ over r (xs ++ ys)
over-over r xs ys =
    raster_ext
      (keep_or_assoc r.resolution _ _ ∙ ap (keep_or r.resolution) (sym (first_of-append _ xs ys)))
      (keep_or_assoc r.nodata _ _ ∙ ap (keep_or r.nodata) (sym (first_of-append _ xs ys)))
      (keep_or_assoc r.dtype _ _ ∙ ap (keep_or r.dtype) (sym (first_of-append _ xs ys)))

over_one : (r : Raster) (b : Band) (bs : List Band) → over (take_band r b) bs ≡ over r (b ∷ bs)
unfolding take_band
over_one r b bs =
    raster_ext (keep_or_assoc r.resolution b.spatial_resolution _)
      (keep_or_assoc r.nodata b.nodata _) (keep_or_assoc r.dtype b.data_type _)

take_bands-over : (r : Raster) (bands : List Band) → take_bands r bands ≡ over r bands
unfolding take_bands
take_bands-over r [] =
    raster_ext (sym (keep_or-none r.resolution)) (sym (keep_or-none r.nodata))
      (sym (keep_or-none r.dtype))
take_bands-over r (b ∷ bs) = take_bands-over (take_band r b) bs ∙ over_one r b bs

true_stays : (v new : Option Value) → is_true v ≡ true → keep_or v new ≡ v
unfolding is_true keep_or
true_stays none new e = cc
true_stays (some v) new e = refl

text_stays : (v new : Option Text) → not_empty v ≡ true → keep_or v new ≡ v
unfolding not_empty keep_or
text_stays none new e = cc
text_stays (some v) new e = refl

complete_stays : (r : Raster) (bands : List Band) → is_complete r ≡ true → over r bands ≡ r
unfolding is_complete
complete_stays r bands e =
    raster_ext (true_stays r.resolution _ (ground (arith, e)))
      (true_stays r.nodata _ (ground (arith, e))) (text_stays r.dtype _ (ground (arith, e)))

-- The end of the loop loses nothing, since a variable that is set stays.
take_assets-over :
    (r : Raster) (assets : Dict Text AssetFields) → take_assets r assets ≡ over r (all_bands assets)
unfolding take_assets
take_assets-over r [] =
    raster_ext (sym (keep_or-none r.resolution)) (sym (keep_or-none r.nodata))
      (sym (keep_or-none r.dtype))
take_assets-over r ((key, asset) ∷ assets) =
    elim (Bool-cases (is_complete (take_bands r (bands_of asset)))) [
      | inl complete ↦
          ground (arith, complete)
          ∙ sym (complete_stays (take_bands r (bands_of asset)) (all_bands assets) complete)
          ∙ joined
      | inr more ↦
          ground (arith, more) ∙ take_assets-over (take_bands r (bands_of asset)) assets ∙ joined
    ]
  where
    joined :
        over (take_bands r (bands_of asset)) (all_bands assets)
        ≡ over r (bands_of asset ++ all_bands assets)
    joined =
        ap (λ q. over q (all_bands assets)) (take_bands-over r (bands_of asset))
        ∙ over-over r (bands_of asset) (all_bands assets)

-- The values that the bands of an item have for the three fields: the first of each.
abbrev pub first_values : Dict Text AssetFields → Raster
first_values assets = record {
  resolution = first_of (λ (b : Band). b.spatial_resolution) (all_bands assets);
  nodata = first_of (λ (b : Band). b.nodata) (all_bands assets);
  dtype = first_of (λ (b : Band). b.data_type) (all_bands assets);
}

-- The loop over the assets of an item, with its early end, finds for each of the three fields the
-- first value that a band of any of the assets has.
pub take_assets-first_values :
    (assets : Dict Text AssetFields) → take_assets no_raster assets ≡ first_values assets
unfolding keep_or
take_assets-first_values assets = take_assets-over no_raster assets
