-- ===== src/Files/Download.antt =====
-- `iterfile` and `download_file` of files.py, for a file with given bytes.
pub mod Content
use openeo_argoworkflows.Base.{
  ℕ, zero, suc, ◌+◌, ◌-◌, ◌*◌, Bool, true, false, ◌&&◌, Option, none, some, List, [], ◌∷◌, ◌==◌,
  if◌then◌else◌, ltb, leb, nat_eq,
}
use openeo_argoworkflows.Base.Lists.{length, take, drop}
use openeo_argoworkflows.Base.Text.{Text}
use openeo_argoworkflows.Files.Ranges.{ByteRange, compile_byte_ranges}

abbrev pub Bytes : Type 0
Bytes = List ℕ

-- `while chunk := file_like.read(n): yield chunk`, on the bytes from the position on.
unfoldable pub chunks : ℕ → ℕ → Bytes → List Bytes
chunks fuel n [] = []
chunks zero n (b ∷ bs) = []
chunks (suc fuel) n (b ∷ bs) = take n (b ∷ bs) ∷ chunks fuel n (drop n (b ∷ bs))

-- The fuel is the number of bytes, and each round reads at least one.
unfoldable pub read_all : ℕ → Bytes → List Bytes
unfolding chunks
read_all chunk_size bytes = chunks (length bytes) chunk_size bytes

-- `read(n)`, where `None` reads to the end.
unfoldable pub read : Option ℕ → Bytes → Bytes
read none bytes = bytes
read (some n) bytes = take n bytes

-- The truth of an `Optional[int]`.
unfoldable pub is_nonzero : Option ℕ → Bool
is_nonzero none = false
is_nonzero (some n) = leb 1 n

unfoldable pub iterfile : ℕ → Bytes → Option ByteRange → List Bytes
unfolding read_all read is_nonzero
iterfile chunk_size bytes none = read_all chunk_size bytes
iterfile chunk_size bytes (some r) =
    if is_nonzero r.stop
    then read r.range (drop r.start bytes) ∷ []
    else read_all chunk_size (drop r.start bytes)

unfoldable pub longer : Option ℕ → ℕ → Bool
longer none size = false
longer (some n) size = leb 1 n && ltb size n

-- A length that would be negative reads to the end, and the start is then behind the end.
unfoldable pub clamp : ℕ → ByteRange → ByteRange
unfolding longer
clamp size r =
    if longer r.range size
    then record r { stop = some size; range = some (size + 1 - r.start) }
    else r

unfoldable pub fill_stop : ℕ → ByteRange → ByteRange
fill_stop size r = elim r.stop [ none ↦ record r { stop = some size } | some e ↦ r ]

pub data Download : Type 0 where
  whole : List Bytes → Download
  partial : ByteRange → ℕ → List Bytes → Download
  not_satisfiable : Download
  raised : Download

unfoldable pub serve_range : ℕ → Bytes → ByteRange → Download
unfolding clamp fill_stop iterfile
serve_range chunk_size bytes r =
    let served = fill_stop (length bytes) (clamp (length bytes) r) in
    partial served (length bytes) (iterfile chunk_size bytes (some served))

serve_one : ℕ → Bytes → List ByteRange → Download
unfolding serve_range
serve_one chunk_size bytes (r ∷ []) = serve_range chunk_size bytes r
serve_one chunk_size bytes _ = not_satisfiable

-- `range_request` is true for a header that is not empty.
unfoldable pub download_file : ℕ → Bytes → Option Text → Download
unfolding iterfile serve_one
download_file chunk_size bytes none = whole (iterfile chunk_size bytes none)
download_file chunk_size bytes (some []) = whole (iterfile chunk_size bytes none)
download_file chunk_size bytes (some (c ∷ header)) = elim (compile_byte_ranges (c ∷ header)) [
  | none ↦ raised
  | some ranges ↦ serve_one chunk_size bytes ranges
]
