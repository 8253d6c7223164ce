-- ===== src/Files/Store/Writes.antt =====
-- What an upload writes.
use openeo_argoworkflows.Base.{
  ℕ, String, ◌||◌, not, none, some, List, [], ◌∷◌, ◌==◌, ◌∈◌, ◌≡◌, ◌≢◌, refl, sym, ap, ◌∙◌, inl,
  inr, Option-cases, Bool-cases, if◌then◌else◌, nat_eq, arith,
}
use openeo_argoworkflows.Base.Dict
use openeo_argoworkflows.Base.Dict.{Dict, get-set, get-erase}
use openeo_argoworkflows.Base.Lists.{length}
use openeo_argoworkflows.Base.Split.{split}
use openeo_argoworkflows.Base.Text.{parent, Text, text_eq}
use openeo_argoworkflows.Files.Download.{Bytes}
use openeo_argoworkflows.Files.Store.{
  Fs, exists, innermost, subdirs, add_dirs, any_file, make_dirs, make_upload_dir, write_file,
  write_all, Upload, contents, UploadReply, uploaded, upload_error, raised, store,
}

-- The bytes that an upload leaves: those of the last file of its form, or else of its body.
unfoldable pub last_of : Bytes → List Bytes → Bytes
last_of b [] = b
last_of b (c ∷ cs) = last_of c cs

abbrev pub left_by : Upload → Bytes
left_by u = last_of u.body u.form

none_not_some : {fs : Fs} → ◌≢◌ none (some fs)
none_not_some e = cc

files_of : {a b : Fs} → some a ≡ some b → b.files ≡ a.files
files_of e = cc

write_file_lem :
    (path : Text) (bytes : Bytes) (fs fs' : Fs)
    → write_file path bytes fs ≡ some fs'
    → fs'.files ≡ Dict.set path bytes fs.files
unfolding write_file
write_file_lem path bytes fs fs' e =
    elim (Bool-cases (path ∈ fs.dirs || not (parent path ∈ fs.dirs))) [
      | inl no_room ↦ absurd (none_not_some {fs = fs'} (ground (arith, no_room, e)))
      | inr room ↦
          files_of {a = record fs { files = Dict.set path bytes fs.files }} {b = fs'}
            (ground (arith, room, e))
    ]

written_then :
    (path : Text) (first : Bytes) (rest : List Bytes) (fs g fs' : Fs)
    → g.files ≡ Dict.set path first fs.files
    → write_all path rest g ≡ some fs'
    → (q : Text)
    → Dict.get q fs'.files ≡ (if q == path then some (last_of first rest) else Dict.get q fs.files)
unfolding write_all last_of
written_then path first [] fs g fs' w e q =
    ap (Dict.get q) (files_of e ∙ w) ∙ get-set q path first fs.files
written_then path first (c ∷ cs) fs g fs' w e q = elim (Option-cases (write_file path c g)) [
  | inl no_room ↦ absurd (none_not_some {fs = fs'} (ground (arith, no_room, e)))
  | inr (h, v) ↦
      written_then path c cs g h fs' (write_file_lem path c g h v) (ground (arith, v, e)) q
      ∙ ground (arith, ap (Dict.get q) w, get-set q path first fs.files)
]

-- What is written last is there, and no other file has changed.
write_all_lem :
    (path : Text) (first : Bytes) (rest : List Bytes) (fs fs' : Fs)
    → write_all path (first ∷ rest) fs ≡ some fs'
    → (q : Text)
    → Dict.get q fs'.files ≡ (if q == path then some (last_of first rest) else Dict.get q fs.files)
unfolding write_all last_of
write_all_lem path first rest fs fs' e q = elim (Option-cases (write_file path first fs)) [
  | inl no_room ↦ absurd (none_not_some {fs = fs'} (ground (arith, no_room, e)))
  | inr (g, w) ↦
      written_then path first rest fs g fs' (write_file_lem path first fs g w)
        (ground (arith, w, e)) q
]

contents_cons :
    (u : Upload)
    → (b : Bytes) × (bs : List Bytes) × (contents u ≡ b ∷ bs) × (last_of b bs ≡ left_by u)
unfolding contents last_of
contents_cons u = cases u.form
  where
    cases :
        (form : List Bytes)
        → (b : Bytes) × (bs : List Bytes) × ((elim form as (λ _. List Bytes) [
          | [] ↦ u.body ∷ []
          | c ∷ cs ↦ c ∷ cs
        ])
            ≡ b ∷ bs)
          × (last_of b bs ≡ last_of u.body form)
    cases [] = (u.body, [], refl, refl)
    cases (c ∷ cs) = (c, cs, refl, refl)

uploaded_injective : {p q : Text} {n m : ℕ} → uploaded p n ≡ uploaded q m → m ≡ n
uploaded_injective e = cc

error_not_uploaded : {q : Text} {n m : ℕ} {d : String} → ◌≢◌ (upload_error m d) (uploaded q n)
error_not_uploaded e = cc

pub raised_not_uploaded : {q : Text} {n : ℕ} → ◌≢◌ raised (uploaded q n)
raised_not_uploaded e = cc

failed_not_uploaded :
    (o : UploadReply) (fs : Fs) (path : Text) (n : ℕ) (fs' : Fs)
    → ((q : Text) (m : ℕ) → ◌≢◌ o (uploaded q m))
    → ◌≢◌ {A = UploadReply × Fs} (o, fs) (uploaded path n, fs')
failed_not_uploaded o fs path n fs' other e = other path n (ap (λ (x : UploadReply × Fs). x.0) e)

-- The outcome of an upload that is answered: the size, the file, and the other files.
pub record IsStored (path dest : Text) (u : Upload) (fs fs' : Fs) (n : ℕ) : Type 0 where
  pub size : n ≡ length (left_by u)
  pub files :
      (q : Text)
      → Dict.get q fs'.files ≡ (if q == dest then some (left_by u) else Dict.get q fs.files)

IsStored-written :
    (path dest : Text) (u : Upload) (fs g fs' : Fs) (n : ℕ)
    → ((q : Text)
        → Dict.get q g.files ≡ (if q == dest then some (left_by u) else Dict.get q fs.files))
    → ◌≡◌ {A = UploadReply × Fs} (uploaded path (length (left_by u)), g) (uploaded path n, fs')
    → IsStored path dest u fs fs' n
IsStored-written path dest u fs g fs' n w e = record {
  size = uploaded_injective {p = path} {q = path} (ap (λ (x : UploadReply × Fs). x.0) e);
  files = λ q. ap (λ (x : UploadReply × Fs). Dict.get q x.1.files) (sym e) ∙ w q;
}

written-contents :
    (dest : Text) (u : Upload) (fs g : Fs)
    → write_all dest (contents u) fs ≡ some g
    → (q : Text)
    → Dict.get q g.files ≡ (if q == dest then some (left_by u) else Dict.get q fs.files)
written-contents dest u fs g w q =
    let (b, bs, is, last) = contents_cons u in
    write_all_lem dest b bs fs g (ap (λ c. write_all dest c fs) (sym is) ∙ w) q
    ∙ ap (λ l. if q == dest then some l else Dict.get q fs.files) last

pub store-IsStored :
    (path dest : Text) (u : Upload) (fs fs' : Fs) (n : ℕ)
    → store path dest u fs ≡ (uploaded path n, fs')
    → IsStored path dest u fs fs' n
unfolding store
store-IsStored path dest u fs fs' n e = elim (Option-cases (write_all dest (contents u) fs)) [
  | inl no_room ↦ absurd (
      failed_not_uploaded _ fs path n fs' (λ q m. error_not_uploaded)
        (sym (refused_lem no_room) ∙ e))
  | inr (g, w) ↦
      let files = written-contents dest u fs g w in
      IsStored-written path dest u fs g fs' n files
        (sym (stored_lem g w (files dest ∙ here dest)) ∙ e)
]
  where
    refused_lem :
        write_all dest (contents u) fs ≡ none
        → store path dest u fs
          ≡ (upload_error 500 "The server encountered an error trying to upload the file.", fs)
    refused_lem no_room = ground (arith, no_room)

    here :
        (d : Text) → (if d == d then some (left_by u) else Dict.get d fs.files) ≡ some (left_by u)
    here d = ground arith

    stored_lem :
        (g : Fs)
        → write_all dest (contents u) fs ≡ some g
        → Dict.get dest g.files ≡ some (left_by u)
        → store path dest u fs ≡ (uploaded path (length (left_by u)), g)
    stored_lem g w there = ground (arith, w, there)

same_files : {a b : Fs} → some a ≡ some b → a.files ≡ b.files
same_files e = cc

make_dirs_files : (ds : List Text) (fs g : Fs) → make_dirs ds fs ≡ some g → g.files ≡ fs.files
unfolding make_dirs
make_dirs_files ds fs g e = elim (Bool-cases (any_file fs ds)) [
  | inl blocked ↦ absurd (none_not_some {fs = g} (ground (arith, blocked, e)))
  | inr free ↦
      files_of {a = record fs { dirs = add_dirs ds fs.dirs }} {b = g} (ground (arith, free, e))
]

-- Making directories changes no file.
pub make_upload_dir_files :
    (dir path : Text) (fs g : Fs) → make_upload_dir dir path fs ≡ some g → g.files ≡ fs.files
unfolding make_upload_dir
make_upload_dir_files dir path fs g e =
    elim (Bool-cases (exists fs (innermost dir (subdirs dir (split b'/' path))))) [
      | inl there ↦ files_of {a = fs} {b = g} (ground (arith, there, e))
      | inr absent ↦
          make_dirs_files (subdirs dir (split b'/' path)) fs g (ground (arith, absent, e))
    ]
