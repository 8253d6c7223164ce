-- ===== src/Executor/Save/Gathered.antt =====
-- The references of a STAC document, in the order in which they are tried.
use mathlib.Core.Path.{subst}
use openeo_argoworkflows.Base.{
  Bool, true, false, Option, none, some, List, [], ◌∷◌, ◌++◌, ◌≡◌, ◌≢◌, ◌↔◌, refl, sym, ap, ◌∙◌,
  inl, inr, if◌then◌else◌, nat_eq, Bool-cases, Option-cases, arith,
}
use openeo_argoworkflows.Base.Lists.{In, In-append, In-append-left, In-append-right}
use openeo_argoworkflows.Base.Text.{Text, codes, text_eq, child, parent, basename}
use openeo_argoworkflows.Executor.Outputs.{stem_and_suffix}
use openeo_argoworkflows.Executor.Save.{
  resolve_local_href, Link, Stac, Disk, is_the, Ref, refs_of, item_refs, is_item_file, linked_item,
  link_refs, files_refs, items_refs, own_refs, asset_refs,
}
use openeo_argoworkflows.Executor.Save.Referred.{
  LeadsTo, LeadsTo-resolve, resolve_local_href-LeadsTo, some_injective, none_not_some,
}

abbrev pub IsOf : List (Option Text) → Text → Ref → Type 0
IsOf hrefs base r = In r.0 hrefs × (r.1 ≡ base)

refs_of_iff :
    (hs : List (Option Text)) (base : Text) (r : Ref) → In r (refs_of hs base) ↔ IsOf hs base r
unfolding refs_of
refs_of_iff [] base r = (λ m. absurd m, λ h. absurd h.0)
refs_of_iff (h ∷ hs) base r = (
  λ m. elim m [
    | inl e ↦ (inl (ap (λ (x : Ref). x.0) e), ap (λ (x : Ref). x.1) e)
    | inr later ↦ let (i, b) = (refs_of_iff hs base r).0 later in (inr i, b)
  ],
  λ k. elim k.0 [
    | inl e ↦ inl (ground (arith, e, k.1))
    | inr later ↦ inr ((refs_of_iff hs base r).1 (later, k.1))
  ],
)

false_not_true : ◌≢◌ false true
false_not_true e = cc

guarded_iff :
    {P Q : Type 0} (b : Bool) (xs : List Ref) (r : Ref)
    → (b ≡ true) ↔ P
    → In r xs ↔ Q
    → In r (if b then xs else []) ↔ (P × Q)
guarded_iff true xs r p q = (λ m. (p.0 refl, q.0 m), λ (h, k). q.1 k)
guarded_iff false xs r p q = (λ m. absurd m, λ (h, k). absurd (false_not_true (p.1 h)))

module _ (disk : Disk) where
  -- The asset is one of the item in a file, and counts from its directory.
  abbrev pub IsAsset : Text → Ref → Type 0
  IsAsset path r = (item : Stac) × (disk.load path ≡ some item) × IsOf item.assets (parent path) r

  abbrev pub IsItemFile : Text → Type 0
  IsItemFile path =
      (disk.exists path ≡ true) × ((stem_and_suffix (basename path)).1 ≡ codes ".json")

  -- A link to an item leads to its file.
  abbrev pub IsLink : Text → Link → Text → Type 0
  IsLink folder l path =
      (href : Text) × (l.rel ≡ some (codes "item"))
      × (l.href ≡ some href)
      × LeadsTo folder href path
      × IsItemFile path

  -- An own asset of an item, an asset of an item that a link leads to, and one of an item in the
  -- directory `items`.
  abbrev pub IsOwn : Stac → Text → Ref → Type 0
  IsOwn stac folder r = (stac.type ≡ some (codes "Feature")) × IsOf stac.assets folder r

  abbrev pub IsLinked : List Link → Text → Ref → Type 0
  IsLinked links folder r =
      (l : Link) × (path : Text) × In l links × IsLink folder l path × IsAsset path r

  abbrev pub IsInFiles : List Text → Ref → Type 0
  IsInFiles paths r = (path : Text) × In path paths × IsAsset path r

  abbrev pub IsListed : Text → Ref → Type 0
  IsListed folder r =
      (disk.exists (child folder (codes "items")) ≡ true)
      × IsInFiles (disk.json_files (child folder (codes "items"))) r

  item_refs_read :
      (path : Text) (item : Stac)
      → disk.load path ≡ some item
      → item_refs disk path ≡ refs_of item.assets (parent path)
  unfolding item_refs
  item_refs_read path item e = ground (arith, e)

  item_refs_broken : (path : Text) → disk.load path ≡ none → item_refs disk path ≡ []
  unfolding item_refs
  item_refs_broken path e = ground (arith, e)

  item_refs_iff : (path : Text) (r : Ref) → In r (item_refs disk path) ↔ IsAsset path r
  item_refs_iff path r = elim (Option-cases (disk.load path)) [
    | inl broken ↦ (
      λ m. absurd (subst (In r) (item_refs_broken path broken) m),
      λ (item, e, k). absurd (none_not_some (sym broken ∙ e)),
    )
    | inr (item, read) ↦ (
      λ m. (
        item,
        read,
        (refs_of_iff item.assets (parent path) r).0
            (subst (In r) (item_refs_read path item read) m),
      ),
      λ (other, e, k).
          subst (In r) (sym (item_refs_read path other e))
            ((refs_of_iff other.assets (parent path) r).1 k),
    )
  ]

  is_the-eq : (o : Option Text) (t : Text) → (is_the o t ≡ true) ↔ (o ≡ some t)
  unfolding is_the
  is_the-eq none t = (λ h. cc, λ h. absurd (none_not_some h))
  is_the-eq (some s) t = (λ h. ap some (ground (arith, h)), λ h. ground (arith, some_injective h))

  linked_item-IsLink :
      (l : Link) (folder path : Text) → linked_item disk l folder ≡ some path → IsLink folder l path
  unfolding linked_item is_item_file
  linked_item-IsLink l folder path h = elim (Bool-cases (is_the l.rel (codes "item"))) [
    | inr other ↦ ground (arith, other, h)
    | inl item ↦ elim (Option-cases (resolve_local_href l.href folder)) [
      | inl nowhere ↦ ground (arith, item, nowhere, h)
      | inr (p, leads) ↦ elim (Bool-cases (is_item_file disk p)) [
        | inr no_file ↦ ground (arith, item, leads, no_file, h)
        | inl file ↦
            let same : p ≡ path = some_injective (ground (arith, item, leads, file, h)) in
            let (href, given, to) =
              resolve_local_href-LeadsTo l.href folder path (leads ∙ ap some same) in
            (
              href,
              (is_the-eq l.rel (codes "item")).0 item,
              given,
              to,
              subst IsItemFile same (ground (arith, file), ground (arith, file)),
            )
      ]
    ]
  ]

  linked_item_found :
      (l : Link) (folder path : Text)
      → is_the l.rel (codes "item") ≡ true
      → resolve_local_href l.href folder ≡ some path
      → IsItemFile path
      → linked_item disk l folder ≡ some path
  unfolding linked_item is_item_file
  linked_item_found l folder path item leads (there, json) =
      ground (arith, item, leads, there, json)

  IsLink-linked_item :
      (l : Link) (folder path : Text) → IsLink folder l path → linked_item disk l folder ≡ some path
  IsLink-linked_item l folder path (href, item, given, to, file) =
      linked_item_found l folder path ((is_the-eq l.rel (codes "item")).1 item)
        (ap (λ o. resolve_local_href o folder) given ∙ LeadsTo-resolve folder href path to) file

  link_refs_skip :
      (l : Link) (ls : List Link) (folder : Text)
      → linked_item disk l folder ≡ none
      → link_refs disk (l ∷ ls) folder ≡ link_refs disk ls folder
  unfolding link_refs
  link_refs_skip l ls folder e = ground (arith, e)

  link_refs_take :
      (l : Link) (ls : List Link) (folder path : Text)
      → linked_item disk l folder ≡ some path
      → link_refs disk (l ∷ ls) folder ≡ item_refs disk path ++ link_refs disk ls folder
  unfolding link_refs
  link_refs_take l ls folder path e = ground (arith, e)

  later_link :
      (l : Link) (ls : List Link) (folder : Text) (r : Ref)
      → IsLinked ls folder r
      → IsLinked (l ∷ ls) folder r
  later_link l ls folder r (k, path, m, link, asset) = (k, path, inr m, link, asset)

  link_refs-IsLinked :
      (ls : List Link) (folder : Text) (r : Ref)
      → In r (link_refs disk ls folder)
      → IsLinked ls folder r
  unfolding link_refs
  link_refs-IsLinked [] folder r m = absurd m
  link_refs-IsLinked (l ∷ ls) folder r m = elim (Option-cases (linked_item disk l folder)) [
    | inl skipped ↦
        later_link l ls folder r
          (link_refs-IsLinked ls folder r (subst (In r) (link_refs_skip l ls folder skipped) m))
    | inr (path, taken) ↦
        elim (In-append r (item_refs disk path) (link_refs disk ls folder)
          (subst (In r) (link_refs_take l ls folder path taken) m)) [
            | inl here ↦ (
              l,
              path,
              inl refl,
              linked_item-IsLink l folder path taken,
              (item_refs_iff path r).0 here,
            )
            | inr later ↦ later_link l ls folder r (link_refs-IsLinked ls folder r later)
          ]
  ]

  IsLinked-link_refs :
      (ls : List Link) (folder : Text) (r : Ref)
      → IsLinked ls folder r
      → In r (link_refs disk ls folder)
  IsLinked-link_refs [] folder r (k, path, m, link, asset) = absurd m
  IsLinked-link_refs (l ∷ ls) folder r (k, path, inl same, link, asset) =
      let taken = IsLink-linked_item l folder path (subst (λ x. IsLink folder x path) same link) in
      subst (In r) (sym (link_refs_take l ls folder path taken)) (
        In-append-left r (item_refs disk path) (link_refs disk ls folder)
          ((item_refs_iff path r).1 asset))
  IsLinked-link_refs (l ∷ ls) folder r (k, path, inr m, link, asset) =
      let later = IsLinked-link_refs ls folder r (k, path, m, link, asset) in
      elim (Option-cases (linked_item disk l folder)) [
        | inl skipped ↦ subst (In r) (sym (link_refs_skip l ls folder skipped)) later
        | inr (p, taken) ↦
            subst (In r) (sym (link_refs_take l ls folder p taken))
              (In-append-right r (item_refs disk p) (link_refs disk ls folder) later)
      ]

  files_refs_iff : (ps : List Text) (r : Ref) → In r (files_refs disk ps) ↔ IsInFiles ps r
  unfolding files_refs
  files_refs_iff [] r = (λ m. absurd m, λ (path, m, asset). absurd m)
  files_refs_iff (p ∷ ps) r = (
    λ m. elim (In-append r (item_refs disk p) (files_refs disk ps) m) [
      | inl here ↦ (p, inl refl, (item_refs_iff p r).0 here)
      | inr later ↦ let (path, n, asset) = (files_refs_iff ps r).0 later in (path, inr n, asset)
    ],
    λ (path, m, asset). elim m [
      | inl same ↦
          In-append-left r (item_refs disk p) (files_refs disk ps)
            ((item_refs_iff p r).1 (subst (λ q. IsAsset q r) same asset))
      | inr n ↦
          In-append-right r (item_refs disk p) (files_refs disk ps)
            ((files_refs_iff ps r).1 (path, n, asset))
    ],
  )

  own_refs_iff :
      (stac : Stac) (folder : Text) (r : Ref)
      → In r (own_refs disk stac folder) ↔ IsOwn stac folder r
  unfolding own_refs
  own_refs_iff stac folder r =
      guarded_iff (is_the stac.type (codes "Feature")) (refs_of stac.assets folder) r
        (is_the-eq stac.type (codes "Feature")) (refs_of_iff stac.assets folder r)

  items_refs_iff : (folder : Text) (r : Ref) → In r (items_refs disk folder) ↔ IsListed folder r
  unfolding items_refs
  items_refs_iff folder r =
      guarded_iff (disk.exists (child folder (codes "items")))
        (files_refs disk (disk.json_files (child folder (codes "items")))) r (λ e. e, λ e. e)
        (files_refs_iff (disk.json_files (child folder (codes "items"))) r)

  -- The references in the order in which they are tried: the own assets of an item, then those of the
  -- items that the links lead to, then those of the items in the directory `items`.
  pub record Gathered (stac : Stac) (folder : Text) (refs : List Ref) : Type 0 where
    pub own : List Ref
    pub linked : List Ref
    pub listed : List Ref
    pub all : refs ≡ own ++ (linked ++ listed)
    pub in_own : (r : Ref) → In r own ↔ IsOwn stac folder r
    pub in_linked : (r : Ref) → In r linked ↔ IsLinked stac.links folder r
    pub in_listed : (r : Ref) → In r listed ↔ IsListed folder r

  pub asset_refs-Gathered :
      (stac : Stac) (folder : Text) → Gathered stac folder (asset_refs disk stac folder)
  unfolding asset_refs
  asset_refs-Gathered stac folder = record {
    own = own_refs disk stac folder;
    linked = link_refs disk stac.links folder;
    listed = items_refs disk folder;
    all = refl;
    in_own = own_refs_iff stac folder;
    in_linked =
        λ r. (link_refs-IsLinked stac.links folder r, IsLinked-link_refs stac.links folder r);
    in_listed = items_refs_iff folder;
  }
