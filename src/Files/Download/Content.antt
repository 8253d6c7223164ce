-- ===== src/Files/Download/Content.antt =====
-- Which bytes a download sends.
use openeo_argoworkflows.Base.{
  ℕ, zero, suc, ◌+◌, ◌-◌, ◌≤◌, ◌<◌, true, false, Option, none, some, List, [], ◌∷◌, ◌++◌,
  if◌then◌else◌, nat_eq, ◌≡◌, refl, ap, ◌∙◌, arith, inl, inr, Bool-cases,
}
use openeo_argoworkflows.Base.Lists.{length, take, drop}
use openeo_argoworkflows.Files.Ranges.{ByteRange, byte_range, set_range, set_start}
use openeo_argoworkflows.Files.Download.{
  Bytes, chunks, read_all, read, is_nonzero, iterfile, longer, clamp, fill_stop, Download, whole,
  partial, serve_range, download_file,
}

-- What the client puts together.
abbrev pub concat : List Bytes → Bytes
concat [] = []
concat (c ∷ cs) = c ++ concat cs

abbrev pub content : Download → Bytes
content (whole cs) = concat cs
content (partial r size cs) = concat cs
content _ = []

take-drop : (n : ℕ) (bs : Bytes) → take n bs ++ drop n bs ≡ bs
take-drop zero bs = refl
take-drop (suc n) [] = refl
take-drop (suc n) (b ∷ bs) = ap (λ r. b ∷ r) (take-drop n bs)

length-drop : (n : ℕ) (bs : Bytes) → length (drop n bs) ≡ length bs - n
length-drop zero bs = omega arith
length-drop (suc n) [] = omega arith
length-drop (suc n) (b ∷ bs) = omega (arith, length-drop n bs)

take_long : (n : ℕ) (bs : Bytes) → length bs ≤ n → take n bs ≡ bs
take_long zero [] h = refl
take_long zero (b ∷ bs) h = absurd (omega (arith, h))
take_long (suc n) [] h = refl
take_long (suc n) (b ∷ bs) h = ap (λ r. b ∷ r) (take_long n bs (omega (arith, h)))

append_nil : (bs : Bytes) → bs ++ [] ≡ bs
append_nil [] = refl
append_nil (b ∷ bs) = ap (λ r. b ∷ r) (append_nil bs)

concat-chunks :
    (fuel n : ℕ) (bs : Bytes) → 1 ≤ n → length bs ≤ fuel → concat (chunks fuel n bs) ≡ bs
unfolding chunks
concat-chunks fuel n [] h f = refl
concat-chunks zero n (b ∷ bs) h f = absurd (omega (arith, f))
concat-chunks (suc fuel) n (b ∷ bs) h f =
    ap (λ r. take n (b ∷ bs) ++ r)
      (concat-chunks fuel n (drop n (b ∷ bs)) h (omega (arith, length-drop n (b ∷ bs), h, f)))
    ∙ take-drop n (b ∷ bs)

-- Without a range, the chunks are the file, for every chunk size that is not 0.
pub content-download_file :
    (chunk_size : ℕ) (bytes : Bytes)
    → 1 ≤ chunk_size
    → content (download_file chunk_size bytes none) ≡ bytes
unfolding download_file read_all iterfile
content-download_file chunk_size bytes h =
    concat-chunks (length bytes) chunk_size bytes h (omega arith)

-- The bytes that a range asks for, its last one included.
abbrev pub slice : ℕ → Option ℕ → Bytes → Bytes
slice start none bytes = drop start bytes
slice start (some e) bytes = take (e + 1 - start) (drop start bytes)

module _ (chunk_size : ℕ) (bytes : Bytes) (h : 1 ≤ chunk_size) where
  content-iterfile :
      (r : ByteRange)
      → concat (iterfile chunk_size bytes (some r))
        ≡ (if is_nonzero r.stop then read r.range (drop r.start bytes) else drop r.start bytes)
  unfolding iterfile read_all
  content-iterfile r = ground (
    arith,
    append_nil (read r.range (drop r.start bytes)),
    concat-chunks (length (drop r.start bytes)) chunk_size (drop r.start bytes) h (omega arith),
  )

  abbrev closed : ℕ → ℕ → ByteRange
  closed start e = record { start = start; stop = some e; range = some (e - start + 1) }

  abbrev to_end : ℕ → ByteRange
  to_end start = record {
    start = start;
    stop = some (length bytes);
    range = some (length bytes + 1 - start);
  }

  clamp_long :
      (start e : ℕ)
      → longer (some (e - start + 1)) (length bytes) ≡ true
      → clamp (length bytes) (closed start e) ≡ to_end start
  unfolding clamp
  clamp_long start e l = ground (arith, l)

  clamp_short :
      (start e : ℕ)
      → longer (some (e - start + 1)) (length bytes) ≡ false
      → clamp (length bytes) (closed start e) ≡ closed start e
  unfolding clamp
  clamp_short start e l = ground (arith, l)

  longer_less :
      (start e : ℕ)
      → longer (some (e - start + 1)) (length bytes) ≡ true
      → length bytes < e - start + 1
  unfolding longer
  longer_less start e l = ground (arith, l)

  read_short :
      (n : ℕ) (start : ℕ)
      → length bytes + 1 ≤ n + start
      → take n (drop start bytes) ≡ drop start bytes
  read_short n start l = take_long n (drop start bytes) (omega (arith, l, length-drop start bytes))

  served_closed :
      (start e : ℕ)
      → start < e
      → content (serve_range chunk_size bytes (closed start e)) ≡ slice start (some e) bytes
  unfolding serve_range fill_stop read is_nonzero
  served_closed start e l = elim (Bool-cases (longer (some (e - start + 1)) (length bytes))) [
    | inl long ↦
        ap (λ c. concat (iterfile chunk_size bytes (some (fill_stop (length bytes) c))))
          (clamp_long start e long)
        ∙ content-iterfile (to_end start)
        ∙ ground (
          arith,
          read_short (length bytes + 1 - start) start (omega arith),
          read_short (e + 1 - start) start (omega (arith, l, longer_less start e long)),
        )
    | inr short ↦
        ap (λ c. concat (iterfile chunk_size bytes (some (fill_stop (length bytes) c))))
          (clamp_short start e short)
        ∙ content-iterfile (closed start e)
        ∙ ground (arith, l)
  ]

  served_open :
      (start : ℕ)
      → content (serve_range chunk_size bytes (record { start = start; stop = none; range = none }))
        ≡ slice start none bytes
  unfolding serve_range clamp fill_stop longer read
  served_open start =
      ground (
        arith,
        content-iterfile (record { start = start; stop = some (length bytes); range = none }),
      )

  -- A range that `ByteRange` accepts is answered with the bytes from its start to its end, or to
  -- the end of the file if that comes first or no end is given.
  pub content-serve_range :
      (start stop : Option ℕ) (r : ByteRange)
      → byte_range start stop ≡ some r
      → content (serve_range chunk_size bytes r) ≡ slice (set_start start) stop bytes
  unfolding byte_range set_range
  content-serve_range start none r e = ground (arith, e, served_open (set_start start))
  content-serve_range start (some n) r e = ground (arith, e, served_closed (set_start start) n)
