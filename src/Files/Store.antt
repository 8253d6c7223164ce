-- ===== src/Files/Store.antt =====
-- The requests on the files of a user: `validate_path`, `file_header`, `download_file`, `list_files`,
-- `upload_file` and `delete_file` of files.py. A path has no slash at its end, no repeated slashes and no
-- dot parts.
pub mod Writes
pub mod Uploads
use openeo_argoworkflows.Base.{
  ℕ, zero, suc, ◌+◌, ◌-◌, String, Bool, true, false, not, ◌&&◌, ◌||◌, Option, none, some, List, [],
  ◌∷◌, ◌++◌, map, ◌==◌, ◌∈◌, if◌then◌else◌, leb, nat_eq,
}
use openeo_argoworkflows.Base.Dict
use openeo_argoworkflows.Base.Dict.{Dict}
use openeo_argoworkflows.Base.Lists.{length, take, drop, filter_by}
use openeo_argoworkflows.Base.Split.{split, lacks}
use openeo_argoworkflows.Base.Text.{
  child, parent, Text, codes, text_eq, starts_with, basename, extension,
}
use openeo_argoworkflows.Files.Download.{Bytes, Download}
use openeo_argoworkflows.Files.Download as Stream
use openeo_argoworkflows.Results.Workspace.{UserWorkspace, Directories, files_directory}

-- The disk: the files with their bytes, and the directories. No path is both.
pub record Fs : Type 0 where
  pub files : Dict Text Bytes
  pub dirs : Directories

unfoldable pub is_file : Fs → Text → Bool
unfolding Dict.get
is_file fs path = Dict.has path fs.files

unfoldable pub exists : Fs → Text → Bool
unfolding is_file
exists fs path = is_file fs path || path ∈ fs.dirs

unfoldable pub space : Text → Text → UserWorkspace
space root user_id = record { root_dir = root; user_id = user_id; job_id = none }

-- `space.files_directory`, which makes the directories that are not there.
unfoldable pub open_space : Text → Text → Fs → Text × Fs
unfolding space files_directory
open_space root user_id fs =
    let made = files_directory (space root user_id) fs.dirs in (made.0, record fs { dirs = made.1 })

-- Whether the path is there is asked and not heeded.
unfoldable pub validate_path : Text → Text → Text → Text
unfolding child
validate_path root user_id path = child (child root user_id) path

pub data Header : Type 0 where
  file_header_of : ℕ → Header
  tar_header : Header

unfoldable pub file_header : Text → Text → Text → Fs → Header
unfolding validate_path Dict.get
file_header root user_id path fs = elim (Dict.get (validate_path root user_id path) fs.files) [
  | some bytes ↦ file_header_of (length bytes)
  | none ↦ tar_header
]

abbrev mime_types : Dict Text String
mime_types =
    (codes ".tif", "image/tiff; application=geotiff; profile=cloud-optimized")
    ∷ (codes ".tiff", "image/tiff; application=geotiff")
    ∷ (codes ".nc", "application/netcdf")
    ∷ (codes ".json", "application/json")
    ∷ (codes ".geojson", "application/geo+json")
    ∷ (codes ".csv", "text/csv")
    ∷ (codes ".txt", "text/plain")
    ∷ (codes ".png", "image/png")
    ∷ (codes ".jpg", "image/jpeg")
    ∷ (codes ".jpeg", "image/jpeg")
    ∷ (codes ".xml", "application/xml")
    ∷ (codes ".zip", "application/zip")
    ∷ (codes ".gz", "application/gzip")
    ∷ []

unfoldable pub mime_type : Text → String
unfolding Dict.get basename extension
mime_type path = elim (Dict.get (extension (basename path)) mime_types) [
  | some t ↦ t
  | none ↦ "application/octet-stream"
]

-- `path.replace("/", "_")`
unfoldable pub flat_name : Text → Text
flat_name [] = []
flat_name (c ∷ s) = (if c == b'/' then b'_' else c) ∷ flat_name s

-- A stream of a file with its type, or of the archive of a path under a name. The archive of a path
-- that is not there ends in an exception when it is read.
pub data Served : Type 0 where
  file : String → Download → Served
  tar : Text → Text → Served

unfoldable pub serve_path : ℕ → Text → Text → Text → Option Text → Fs → Served
unfolding validate_path Dict.get mime_type flat_name Stream.download_file
serve_path chunk_size root user_id path range fs =
    let absolute = validate_path root user_id path in
    elim (Dict.get absolute fs.files) [
      | some bytes ↦ file (mime_type absolute) (Stream.download_file chunk_size bytes range)
      | none ↦ tar absolute (flat_name path ++ codes ".tar")
    ]

-- The entries of a directory: the files and the directories right below it.
unfoldable pub is_entry : Text → Text → Bool
unfolding starts_with lacks
is_entry dir path =
    starts_with path (dir ++ codes "/") && lacks b'/' (drop (length (dir ++ codes "/")) path)

names : {A : Type 0} → Dict Text A → List Text
names [] = []
names ((k, v) ∷ d) = k ∷ names d

-- `files[:limit]`, if the limit is there and not 0
limited : {A : Type 0} → Option ℕ → List A → List A
limited none xs = xs
limited (some zero) xs = xs
limited (some (suc n)) xs = take (suc n) xs

-- The paths that are listed, below the directory of the files.
unfoldable pub list_files : Text → Text → Option ℕ → Fs → List Text × Fs
unfolding open_space is_entry filter_by names limited
list_files root user_id limit fs =
    let opened = open_space root user_id fs in
    let entries = filter_by (is_entry opened.0) (names fs.files ++ opened.1.dirs) in
    (limited limit (map (drop (length (opened.0 ++ codes "/"))) entries), opened.1)

-- The directories from a path down its parts, without the last part and the empty ones.
unfoldable pub subdirs : Text → List Text → Directories
unfolding child
subdirs dir [] = []
subdirs dir (part ∷ []) = []
subdirs dir ([] ∷ p ∷ parts) = subdirs dir (p ∷ parts)
subdirs dir ((c ∷ part) ∷ p ∷ parts) =
    child dir (c ∷ part) ∷ subdirs (child dir (c ∷ part)) (p ∷ parts)

unfoldable pub any_file : Fs → Directories → Bool
unfolding is_file
any_file fs [] = false
any_file fs (d ∷ ds) = is_file fs d || any_file fs ds

unfoldable pub add_dirs : Directories → Directories → Directories
add_dirs [] dirs = dirs
add_dirs (d ∷ ds) dirs = add_dirs ds (if d ∈ dirs then dirs else dirs ++ (d ∷ []))

-- `fs.mkdir` with the parents, for a directory that is not there: none is its exception, where a
-- file stands in the way.
unfoldable pub make_dirs : Directories → Fs → Option Fs
unfolding any_file add_dirs
make_dirs ds fs = if any_file fs ds then none else some (record fs { dirs = add_dirs ds fs.dirs })

-- `open(path, "wb")` and a write: none where the path is a directory, or lies in none.
unfoldable pub write_file : Text → Bytes → Fs → Option Fs
unfolding parent Dict.set
write_file path bytes fs =
    if path ∈ fs.dirs || not (parent path ∈ fs.dirs)
    then none
    else some (record fs { files = Dict.set path bytes fs.files })

-- Each file of a form is written to the same place.
unfoldable pub write_all : Text → List Bytes → Fs → Option Fs
unfolding write_file
write_all path [] fs = some fs
write_all path (b ∷ bs) fs = elim (write_file path b fs) [
  | none ↦ none
  | some fs' ↦ write_all path bs fs'
]

pub record Upload : Type 0 where
  pub body : Bytes
  pub form : List Bytes

unfoldable pub contents : Upload → List Bytes
contents u = elim u.form [ [] ↦ u.body ∷ [] | b ∷ bs ↦ b ∷ bs ]

pub data UploadReply : Type 0 where
  uploaded : Text → ℕ → UploadReply
  upload_error : ℕ → String → UploadReply
  raised : UploadReply

-- Whatever goes wrong once the directory is there is the error 500.
unfoldable pub store : Text → Text → Upload → Fs → UploadReply × Fs
unfolding write_all contents Dict.get
store path dest u fs = elim (write_all dest (contents u) fs) [
  | none ↦ (upload_error 500 "The server encountered an error trying to upload the file.", fs)
  | some fs' ↦ elim (Dict.get dest fs'.files) [
    | none ↦ (upload_error 500 "The server encountered an error trying to upload the file.", fs')
    | some bytes ↦ (uploaded path (length bytes), fs')
  ]
]

-- The last of the directories, or the first path if there are none.
unfoldable pub innermost : Text → Directories → Text
innermost dir [] = dir
innermost dir (d ∷ ds) = innermost d ds

-- A path without a slash needs no directory, and one that is there is not made again.
unfoldable pub make_upload_dir : Text → Text → Fs → Option Fs
unfolding subdirs make_dirs split exists innermost
make_upload_dir dir path fs =
    let ds = subdirs dir (split b'/' path) in
    if exists fs (innermost dir ds) then some fs else make_dirs ds fs

unfoldable pub upload_file : Text → Text → Text → Upload → Fs → UploadReply × Fs
unfolding open_space make_upload_dir store child
upload_file root user_id path u fs =
    let opened = open_space root user_id fs in
    elim (make_upload_dir opened.0 path opened.1) [
      | none ↦ (raised, opened.1)
      | some fs' ↦ store path (child opened.0 path) u fs'
    ]

-- `fs.rm_file` of a directory raises.
pub data DeleteReply : Type 0 where
  deleted : DeleteReply
  missing : DeleteReply
  delete_raised : DeleteReply

unfoldable pub delete_file : Text → Text → Text → Fs → DeleteReply × Fs
unfolding open_space child is_file Dict.erase
delete_file root user_id path fs =
    let opened = open_space root user_id fs in
    let absolute = child opened.0 path in
    if is_file opened.1 absolute
    then (deleted, record (opened.1) { files = Dict.erase absolute opened.1.files })
    else if absolute ∈ opened.1.dirs
    then (delete_raised, opened.1)
    else (missing, opened.1)
