-- ===== src/Executor/Save/Staged.antt =====
-- The path that `save_result` gives back.
use mathlib.Core.Path.{subst}
use openeo_argoworkflows.Base.{
  true, false, ◌&&◌, ◌||◌, Option, none, some, List, [], ◌∷◌, ◌++◌, ◌==◌, ◌∈◌, ◌≡◌, sym, ap, ◌∙◌,
  ◌⊎◌, inl, inr, Option-cases, Bool-cases, arith,
}
use openeo_argoworkflows.Base.Lists.{In}
use openeo_argoworkflows.Base.Text.{Text, codes, text_eq, child}
use openeo_argoworkflows.Executor.Save.Referred.{
  LeadsTo, LeadsTo-resolve, resolve_local_href-LeadsTo, some_injective, none_not_some,
}
use openeo_argoworkflows.Executor.Save.Gathered.{Gathered, asset_refs-Gathered}
use openeo_argoworkflows.Executor.Save.{
  Stac, Disk, Ref, resolve_local_href, asset_refs, if_there, present, first_present,
  local_asset_path_from_stac, SaveOptions, Saving, or_else, folder_of, fallback, staged_path,
  save_result_with_process_package, save_result_formats, upper, save_result,
}

-- An href that leads to no path that is there.
abbrev pub IsAbsent : Disk → Ref → Type 0
IsAbsent disk r =
    (href path : Text) → r.0 ≡ some href → LeadsTo r.1 href path → disk.exists path ≡ false

-- The first asset that is on the disk: none of those before it is.
pub data First (disk : Disk) (path : Text) : List Ref → Type 0 where
  here :
      {href base : Text} {rs : List Ref}
      → LeadsTo base href path
      → disk.exists path ≡ true
      → First disk path ((some href, base) ∷ rs)
  later :
      {r : Ref} {rs : List Ref} → IsAbsent disk r → First disk path rs → First disk path (r ∷ rs)

module _ (disk : Disk) where
  if_there-some :
      (o : Option Text) (path : Text)
      → if_there disk o ≡ some path
      → (o ≡ some path) × (disk.exists path ≡ true)
  unfolding if_there
  if_there-some none path e = absurd (none_not_some e)
  if_there-some (some p) path e = elim (Bool-cases (disk.exists p)) [
    | inl there ↦
        let same : p ≡ path = some_injective (ground (arith, there, e)) in
        (ap some same, sym (ap disk.exists same) ∙ there)
    | inr absent ↦ absurd (none_not_some {a = path} (ground (arith, absent, e)))
  ]

  present-some :
      (href : Option Text) (base path : Text)
      → present disk (href, base) ≡ some path
      → (resolve_local_href href base ≡ some path) × (disk.exists path ≡ true)
  unfolding present
  present-some href base path e = if_there-some (resolve_local_href href base) path e

  there_seen :
      (o : Option Text) (path : Text)
      → o ≡ some path
      → if_there disk o ≡ none
      → disk.exists path ≡ false
  unfolding if_there
  there_seen o path e h = elim (Bool-cases (disk.exists path)) [
    | inl there ↦ absurd (none_not_some {a = path} (ground (arith, e, there, h)))
    | inr absent ↦ absent
  ]

  present_none : (r : Ref) → present disk r ≡ none → IsAbsent disk r
  unfolding present
  present_none (o, base) h href path e to =
      there_seen (resolve_local_href o base) path
        (ap (λ x. resolve_local_href x base) e ∙ LeadsTo-resolve base href path to) h

  first_present-First :
      (rs : List Ref) (path : Text) → first_present disk rs ≡ some path → First disk path rs
  unfolding first_present
  first_present-First [] path e = absurd (none_not_some e)
  first_present-First ((o, base) ∷ rs) path e = elim (Option-cases (present disk (o, base))) [
    | inl absent ↦
        later (present_none (o, base) absent)
          (first_present-First rs path (ground (arith, absent, e)))
    | inr (p, there) ↦
        let same : p ≡ path = some_injective (ground (arith, there, e)) in
        let (at, is) = present-some o base path (there ∙ ap some same) in
        let (href, given, to) = resolve_local_href-LeadsTo o base path at in
        subst (λ x. First disk path ((x, base) ∷ rs)) (sym given) (here to is)
  ]

  first_present-none :
      (rs : List Ref) → first_present disk rs ≡ none → (r : Ref) → In r rs → IsAbsent disk r
  unfolding first_present
  first_present-none [] e r i = absurd i
  first_present-none (q ∷ rs) e r i = elim (Option-cases (present disk q)) [
    | inr (p, there) ↦ absurd (none_not_some {a = p} (ground (arith, there, e)))
    | inl absent ↦ elim i [
      | inl same ↦ subst (IsAbsent disk) (sym same) (present_none q absent)
      | inr other ↦ first_present-none rs (ground (arith, absent, e)) r other
    ]
  ]

-- The path where no asset is on the disk: the JSON file of the collection, if it is there and the
-- folder is not one of ZARR, and else the folder.
pub data FallsBack (disk : Disk) (fmt folder collection_json : Text) : Text → Type 0 where
  zarr_folder :
      fmt ≡ codes "ZARR"
      → disk.exists folder ≡ true
      → FallsBack disk fmt folder collection_json folder
  collection_file :
      (fmt == codes "ZARR" && disk.exists folder) ≡ false
      → disk.exists collection_json ≡ true
      → FallsBack disk fmt folder collection_json collection_json
  plain_folder :
      (fmt == codes "ZARR" && disk.exists folder) ≡ false
      → disk.exists collection_json ≡ false
      → FallsBack disk fmt folder collection_json folder

fallback-FallsBack :
    (disk : Disk) (fmt folder collection_id : Text)
    → FallsBack disk fmt folder
        (child folder (collection_id ++ codes ".json"))
        (fallback disk fmt folder collection_id)
unfolding fallback
fallback-FallsBack disk fmt folder collection_id =
    elim (Bool-cases (fmt == codes "ZARR" && disk.exists folder)) [
      | inl zarr ↦
          subst (FallsBack disk fmt folder collection_json) (sym (ground (arith, zarr)))
            (zarr_folder (ground (arith, zarr)) (ground (arith, zarr)))
      | inr no_zarr ↦ elim (Bool-cases (disk.exists collection_json)) [
        | inl json ↦
            subst (FallsBack disk fmt folder collection_json) (sym (ground (arith, no_zarr, json)))
              (collection_file no_zarr json)
        | inr no_json ↦
            subst (FallsBack disk fmt folder collection_json)
              (sym (ground (arith, no_zarr, no_json))) (plain_folder no_zarr no_json)
      ]
    ]
  where
    collection_json : Text
    collection_json = child folder (collection_id ++ codes ".json")

-- What the package has written, and the path for it: the first of the assets that is on the disk; or
-- none is, and the path is one to fall back on.
pub record IsStaged (env : Saving) (fmt : Text) (o : SaveOptions) (path : Text) : Type 0 where
  pub stac : Stac
  pub disk : Disk
  pub saved : env.package_save_result fmt (folder_of env o) ≡ some (stac, disk)
  pub refs : List Ref
  pub gathered : Gathered disk stac (folder_of env o) refs
  pub staged :
      First disk path refs
      ⊎ (((r : Ref) → In r refs → IsAbsent disk r)
          × FallsBack disk fmt
              (folder_of env o)
              (child
                (folder_of env o)
                (or_else o.collection_id (codes "save_result") ++ codes ".json"))
              path)

staged_path-First :
    (stac : Stac) (disk : Disk) (fmt folder collection_id path : Text)
    → staged_path stac disk fmt folder collection_id ≡ path
    → First disk path (asset_refs disk stac folder)
      ⊎ (((r : Ref) → In r (asset_refs disk stac folder) → IsAbsent disk r)
          × FallsBack disk fmt folder (child folder (collection_id ++ codes ".json")) path)
unfolding staged_path local_asset_path_from_stac
staged_path-First stac disk fmt folder collection_id path e =
    elim (Option-cases (first_present disk (asset_refs disk stac folder))) [
      | inr (p, found) ↦
          let same : p ≡ path = ground (arith, found, e) in
          inl (first_present-First disk (asset_refs disk stac folder) path (found ∙ ap some same))
      | inl lost ↦
          let same : fallback disk fmt folder collection_id ≡ path = ground (arith, lost, e) in
          inr (
            first_present-none disk (asset_refs disk stac folder) lost,
            subst (FallsBack disk fmt folder (child folder (collection_id ++ codes ".json"))) same
                (fallback-FallsBack disk fmt folder collection_id),
          )
    ]

-- A path that `save_result` gives back is for a format that it supports, or by the option for the
-- package. It is that of the first asset on the disk: of the document itself if it is an item, then of
-- the items that its links lead to, then of those in the directory `items`. Where there is none, it is
-- the folder of the output for a ZARR folder that is there, else the JSON file of the collection if
-- that is there, and else the folder.
pub save_result-IsStaged :
    (env : Saving) (format : Text) (o : SaveOptions) (path : Text)
    → save_result env format o ≡ some path
    → ((upper format ∈ save_result_formats || o.use_package_save_result) ≡ true)
      × IsStaged env (upper format) o path
unfolding save_result save_result_with_process_package
save_result-IsStaged env format o path e =
    elim (Bool-cases (upper format ∈ save_result_formats || o.use_package_save_result)) [
      | inr refused ↦ absurd (none_not_some {a = path} (ground (arith, refused, e)))
      | inl accepted ↦
          elim (Option-cases (env.package_save_result (upper format) (folder_of env o))) [
            | inl raised ↦ absurd (none_not_some {a = path} (ground (arith, accepted, raised, e)))
            | inr ((stac, disk), saved) ↦ (
              accepted,
              record {
                stac = stac;
                disk = disk;
                saved = saved;
                refs = asset_refs disk stac (folder_of env o);
                gathered = asset_refs-Gathered disk stac (folder_of env o);
                staged =
                    staged_path-First stac disk (upper format) (folder_of env o)
                      (or_else o.collection_id (codes "save_result")) path
                      (some_injective (ground (arith, accepted, saved, e)));
              },
            )
          ]
    ]
