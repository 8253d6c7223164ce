-- ===== src/Files/Store/Uploads.antt =====
-- A file that was uploaded, downloaded again and deleted.
use mathlib.Core.List.{append_assoc}
use openeo_argoworkflows.Base.{
  ℕ, ◌<◌, Option, none, some, ◌∷◌, ◌++◌, ◌==◌, ◌≡◌, ◌≢◌, refl, sym, ap, ◌∙◌, inl, inr, Option-cases,
  if◌then◌else◌, nat_eq, arith,
}
use openeo_argoworkflows.Base.Dict
use openeo_argoworkflows.Base.Dict.{Dict, get-set, get-erase}
use openeo_argoworkflows.Base.Lists.{length}
use openeo_argoworkflows.Base.Text.{child, Text, codes, text_eq}
use openeo_argoworkflows.Files.Download.{Bytes, download_file}
use openeo_argoworkflows.Files.Download.Content.{content, content-download_file}
use openeo_argoworkflows.Results.Workspace.{ensure, user_directory, files_directory}
use openeo_argoworkflows.Files.Store.Writes.{
  left_by, IsStored, store-IsStored, make_upload_dir_files, raised_not_uploaded,
}
use openeo_argoworkflows.Files.Store.{
  Fs, is_file, space, open_space, mime_type, Served, file, tar, flat_name, validate_path,
  serve_path, make_upload_dir, Upload, UploadReply, uploaded, raised, store, upload_file,
  DeleteReply, deleted, delete_file,
}

serve_path-file :
    (chunk_size : ℕ) (root user_id path : Text) (range : Option Text) (fs : Fs) (bytes : Bytes)
    → Dict.get (validate_path root user_id path) fs.files ≡ some bytes
    → serve_path chunk_size root user_id path range fs
      ≡ file (mime_type (validate_path root user_id path)) (download_file chunk_size bytes range)
unfolding serve_path
serve_path-file chunk_size root user_id path range fs bytes e =
    ap
      (λ (o : Option Bytes). elim o as (λ _. Served) [
        | some bytes ↦
            file (mime_type (validate_path root user_id path))
              (download_file chunk_size bytes range)
        | none ↦ tar (validate_path root user_id path) (flat_name path ++ codes ".tar")
      ])
      e

validate_path_lem :
    (root user_id path : Text) → validate_path root user_id path ≡ child (child root user_id) path
unfolding validate_path
validate_path_lem root user_id path = refl

if_self : {A : Type 0} (a : Text) (x y : A) → (if a == a then x else y) ≡ x
if_self a x y = ground arith

if_not : {A : Type 0} (a b : Text) (x y : A) → ◌≢◌ a b → (if a == b then x else y) ≡ y
if_not a b x y n = ground (arith, n)

child_relative : (a : Text) (c : ℕ) (b : Text) → ◌≢◌ c b'/' → child a (c ∷ b) ≡ a ++ (b'/' ∷ c ∷ b)
unfolding child
child_relative a c b relative = ground (arith, relative)

child_files : (a : Text) → child a (codes "FILES") ≡ a ++ codes "/FILES"
unfolding child nat_eq
child_files a = refl

child_below_files : (a b : Text) → child a (codes "FILES/" ++ b) ≡ a ++ (codes "/FILES/" ++ b)
unfolding child nat_eq
child_below_files a b = refl

module _ (root user_id : Text) (c : ℕ) (p : Text) (relative : ◌≢◌ c b'/') where
  files_dir : Text
  files_dir = child (child root user_id) (codes "FILES")

  opened_files : (fs : Fs) → (open_space root user_id fs).0 ≡ files_dir
  unfolding open_space files_directory user_directory ensure files_dir space
  opened_files fs = refl

  opened_same : (fs : Fs) → ((open_space root user_id fs).1).files ≡ fs.files
  unfolding open_space
  opened_same fs = refl

  same_place : child files_dir (c ∷ p) ≡ child (child root user_id) (codes "FILES/" ++ (c ∷ p))
  unfolding files_dir
  same_place =
      child_relative (child (child root user_id) (codes "FILES")) c p relative
      ∙ ap (λ d. d ++ (b'/' ∷ c ∷ p)) (child_files (child root user_id))
      ∙ append_assoc (child root user_id) (codes "/FILES") (b'/' ∷ c ∷ p)
      ∙ sym (child_below_files (child root user_id) (c ∷ p))

  upload_file_raised :
      (u : Upload) (fs : Fs)
      → make_upload_dir files_dir (c ∷ p) ((open_space root user_id fs).1) ≡ none
      → (upload_file root user_id (c ∷ p) u fs).0 ≡ raised
  unfolding upload_file
  upload_file_raised u fs e = ground (arith, e, opened_files fs)

  upload_file-store :
      (u : Upload) (fs g : Fs)
      → make_upload_dir files_dir (c ∷ p) ((open_space root user_id fs).1) ≡ some g
      → upload_file root user_id (c ∷ p) u fs ≡ store (c ∷ p) (child files_dir (c ∷ p)) u g
  unfolding upload_file
  upload_file-store u fs g e = ground (arith, e, opened_files fs)

  upload_file-IsStored :
      (u : Upload) (fs fs' : Fs) (n : ℕ)
      → upload_file root user_id (c ∷ p) u fs ≡ (uploaded (c ∷ p) n, fs')
      → IsStored (c ∷ p) (child files_dir (c ∷ p)) u fs fs' n
  upload_file-IsStored u fs fs' n e =
      elim (Option-cases (make_upload_dir files_dir (c ∷ p) ((open_space root user_id fs).1))) [
        | inl blocked ↦ absurd (
            raised_not_uploaded {q = c ∷ p} {n = n}
              (sym (upload_file_raised u fs blocked) ∙ ap (λ (x : UploadReply × Fs). x.0) e))
        | inr (g, made) ↦
            let s =
              store-IsStored (c ∷ p) (child files_dir (c ∷ p)) u g fs' n
                (sym (upload_file-store u fs g made) ∙ e) in
            let kept : g.files ≡ fs.files =
              make_upload_dir_files files_dir (c ∷ p) ((open_space root user_id fs).1) g made
              ∙ opened_same fs in
            record {
              size = s.size;
              files = λ q.
                  s.files q
                  ∙ ap
                      (λ d. if q == child files_dir (c ∷ p) then some (left_by u) else Dict.get q d)
                      kept;
            }
      ]

  delete_file_lem :
      (fs : Fs) (bytes : Bytes)
      → Dict.get (child files_dir (c ∷ p)) fs.files ≡ some bytes
      → delete_file root user_id (c ∷ p) fs ≡ (
        deleted,
        record ((open_space root user_id fs).1) {
          files = Dict.erase (child files_dir (c ∷ p)) ((open_space root user_id fs).1).files;
        },
      )
  unfolding delete_file is_file
  delete_file_lem fs bytes e = ground (arith, e, opened_files fs, opened_same fs)

  delete_file-erase :
      (fs : Fs) (bytes : Bytes)
      → Dict.get (child files_dir (c ∷ p)) fs.files ≡ some bytes
      → ((delete_file root user_id (c ∷ p) fs).0 ≡ deleted)
        × (((delete_file root user_id (c ∷ p) fs).1).files
            ≡ Dict.erase (child files_dir (c ∷ p)) fs.files)
  delete_file-erase fs bytes e = (
    ap (λ (x : DeleteReply × Fs). x.0) (delete_file_lem fs bytes e),
    ap (λ (x : DeleteReply × Fs). x.1.files) (delete_file_lem fs bytes e)
        ∙ ap (Dict.erase (child files_dir (c ∷ p))) (opened_same fs),
  )

  -- A file that was uploaded under a relative path, as the answer says, is downloaded whole with
  -- the path that has `FILES/` in front, while uploads and deletions leave these words out; no
  -- other file has changed, the size of the answer is that of the file, and a deletion takes this
  -- file away and no other.
  pub upload_file-serve_path :
      (u : Upload) (fs fs' : Fs) (n chunk_size : ℕ)
      → 0 < chunk_size
      → upload_file root user_id (c ∷ p) u fs ≡ (uploaded (c ∷ p) n, fs')
      → (n ≡ length (left_by u))
        × (serve_path chunk_size root user_id (codes "FILES/" ++ (c ∷ p)) none fs'
            ≡ file
                (mime_type (child (child root user_id) (codes "FILES/" ++ (c ∷ p))))
                (download_file chunk_size (left_by u) none))
        × (content (download_file chunk_size (left_by u) none) ≡ left_by u)
        × ((q : Text)
            → ◌≢◌ q (child (child root user_id) (codes "FILES/" ++ (c ∷ p)))
            → Dict.get q fs'.files ≡ Dict.get q fs.files)
        × ((delete_file root user_id (c ∷ p) fs').0 ≡ deleted)
        × ((q : Text)
            → Dict.get q ((delete_file root user_id (c ∷ p) fs').1).files ≡ (
                if q == child (child root user_id) (codes "FILES/" ++ (c ∷ p))
                then none
                else Dict.get q fs'.files))
  upload_file-serve_path u fs fs' n chunk_size positive e =
      let s = upload_file-IsStored u fs fs' n e in
      let dest : Text = child (child root user_id) (codes "FILES/" ++ (c ∷ p)) in
      let files : (q : Text)
          → Dict.get q fs'.files ≡ (if q == dest then some (left_by u) else Dict.get q fs.files) =
        λ q.
          s.files q
          ∙ ap (λ d. if q == d then some (left_by u) else Dict.get q fs.files) same_place in
      let there : Dict.get dest fs'.files ≡ some (left_by u) = files dest ∙ if_self dest _ _ in
      let gone =
        delete_file-erase fs' (left_by u) (ap (λ d. Dict.get d fs'.files) same_place ∙ there) in
      (
        s.size,
        serve_path-file chunk_size root user_id (codes "FILES/" ++ (c ∷ p)) none fs' (left_by u) (
              ap (λ d. Dict.get d fs'.files)
                (validate_path_lem root user_id (codes "FILES/" ++ (c ∷ p)))
              ∙ there)
            ∙ ap (λ d. file (mime_type d) (download_file chunk_size (left_by u) none))
                (validate_path_lem root user_id (codes "FILES/" ++ (c ∷ p))),
        content-download_file chunk_size (left_by u) (omega (arith, positive)),
        λ q other. files q ∙ if_not q dest _ _ other,
        gone.0,
        λ q.
            ap (Dict.get q) gone.1
            ∙ get-erase q (child files_dir (c ∷ p)) fs'.files
            ∙ ap (λ d. if q == d then none else Dict.get q fs'.files) same_place,
      )
