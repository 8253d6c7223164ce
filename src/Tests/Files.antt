-- ===== src/Tests/Files.antt =====
-- Range headers and downloads of a file of six bytes.
use openeo_argoworkflows.Base.{none, some, [], ◌∷◌, ◌≡◌, refl, nat_eq, arith}
use openeo_argoworkflows.Base.Decimal.{is_digit, int_from}
use openeo_argoworkflows.Base.Text.{codes, contains, starts_with}
use openeo_argoworkflows.Files.Ranges.{
  ByteRange, byte_range, set_range, set_start, word, is_word, dashed, match_at, find_all,
  bytes_eval, range_of, ranges_of, compile_byte_ranges,
}
use openeo_argoworkflows.Files.Download.{Bytes, serve_range}
use openeo_argoworkflows.Files.Download.Content.{content, slice, content-serve_range}

abbrev file : Bytes
file = 10 ∷ 11 ∷ 12 ∷ 13 ∷ 14 ∷ 15 ∷ []

abbrev closed : ByteRange
closed = record { start = 1; stop = some 3; range = some 3 }

header_read : compile_byte_ranges (codes "bytes=1-3") ≡ some (closed ∷ [])
unfolding compile_byte_ranges contains starts_with find_all match_at dashed word is_word is_digit
    ranges_of range_of bytes_eval int_from byte_range set_range set_start nat_eq
header_read = refl

-- A suffix range is read as a range from the start.
suffix_read :
    compile_byte_ranges (codes "bytes=-3")
    ≡ some (record { start = 0; stop = some 3; range = some 4 } ∷ [])
unfolding compile_byte_ranges contains starts_with find_all match_at dashed word is_word is_digit
    ranges_of range_of bytes_eval int_from byte_range set_range set_start nat_eq
suffix_read = refl

-- The first byte alone cannot be asked for.
first_byte_refused : compile_byte_ranges (codes "bytes=0-0") ≡ none
unfolding compile_byte_ranges contains starts_with find_all match_at dashed word is_word is_digit
    ranges_of range_of bytes_eval int_from byte_range set_range set_start nat_eq
first_byte_refused = refl

content-serve_range_example : content (serve_range 4 file closed) ≡ slice 1 (some 3) file
unfolding byte_range set_range set_start
content-serve_range_example = content-serve_range 4 file (omega arith) (some 1) (some 3) closed refl
