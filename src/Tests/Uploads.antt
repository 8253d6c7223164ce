-- ===== src/Tests/Uploads.antt =====
-- An upload to an empty disk.
use openeo_argoworkflows.Base.{ℕ, none, [], ◌∷◌, ◌==◌, ◌≡◌, ◌≢◌, refl, if◌then◌else◌, nat_eq, arith}
use openeo_argoworkflows.Base.Dict
use openeo_argoworkflows.Base.Split.{split}
use openeo_argoworkflows.Base.Text.{parent, child, Text, codes, text_eq, basename}
use openeo_argoworkflows.Files.Download.{download_file}
use openeo_argoworkflows.Files.Download.Content.{content}
use openeo_argoworkflows.Results.Workspace.{ensure, user_directory, files_directory}
use openeo_argoworkflows.Files.Store.{
  Fs, Upload, uploaded, deleted, file, mime_type, space, open_space, is_file, exists, subdirs,
  innermost, make_upload_dir, write_file, write_all, contents, store, serve_path, upload_file,
  delete_file,
}
use openeo_argoworkflows.Files.Store.Writes.{last_of}
use openeo_argoworkflows.Files.Store.Uploads.{upload_file-serve_path}

abbrev upload : Upload
upload = record { body = 1 ∷ 2 ∷ []; form = [] }

abbrev before : Fs
before = record { files = []; dirs = codes "/ws" ∷ [] }

abbrev after : Fs
after = record {
  files = (codes "/ws/u1/FILES/a.tif", 1 ∷ 2 ∷ []) ∷ [];
  dirs = codes "/ws" ∷ codes "/ws/u1" ∷ codes "/ws/u1/FILES" ∷ [];
}

stored :
    upload_file (codes "/ws") (codes "u1") (codes "a.tif") upload before
    ≡ (uploaded (codes "a.tif") 2, after)
unfolding upload_file open_space space files_directory user_directory ensure child is_file exists
    subdirs innermost make_upload_dir parent write_file write_all contents store split basename
    nat_eq text_eq
stored = refl

relative : ◌≢◌ {A = ℕ} b'a' b'/'
relative = omega arith

upload_file-serve_path_example :
    ◌≡◌ {A = ℕ} 2 2
    × (serve_path 4 (codes "/ws") (codes "u1") (codes "FILES/a.tif") none after
        ≡ file
            (mime_type (child (child (codes "/ws") (codes "u1")) (codes "FILES/a.tif")))
            (download_file 4 (1 ∷ 2 ∷ []) none))
    × (content (download_file 4 (1 ∷ 2 ∷ []) none) ≡ 1 ∷ 2 ∷ [])
    × ((q : Text)
        → ◌≢◌ q (child (child (codes "/ws") (codes "u1")) (codes "FILES/a.tif"))
        → Dict.get q after.files ≡ none)
    × ((delete_file (codes "/ws") (codes "u1") (codes "a.tif") after).0 ≡ deleted)
    × ((q : Text)
        → Dict.get q ((delete_file (codes "/ws") (codes "u1") (codes "a.tif") after).1).files ≡ (
            if q == child (child (codes "/ws") (codes "u1")) (codes "FILES/a.tif")
            then none
            else Dict.get q after.files))
unfolding last_of Dict.get
upload_file-serve_path_example =
    upload_file-serve_path (codes "/ws") (codes "u1") b'a' (codes ".tif") relative upload before
      after 2 4 (omega arith) stored
