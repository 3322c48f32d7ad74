-- ===== src/Env/WritableFile/Sequence.antt =====
-- Any sequence of writes to a file: what `PrepareWrite` has preallocated in the end.
use rockscopy.Base.{ℕ, ◌+◌, ◌≤◌, ◌<◌, ◌≡◌, refl, arith}
use rockscopy.Base.{Option, none, some, List, [], ◌∷◌, All}
use rockscopy.Env.WritableFile.{WritableFile, Extent, pos, prepare_write}
use rockscopy.Env.WritableFile.Laws.{Fits, IsSmall, reach, Prepares, prepare_write-Prepares}

-- A write, by its offset and its length.
pub record Write : Type 0 where
  pub offset : ℕ
  pub len : ℕ

abbrev requested : Option Extent → List Extent → List Extent
requested none rest = rest
requested (some extent) rest = extent ∷ rest

-- The requests to `Allocate` that a sequence of writes makes, and the file behind it.
unfoldable pub extents : List Write → WritableFile → List Extent
extents [] file = []
extents (w ∷ writes) file =
    let (request, file') = prepare_write w.offset w.len file in
    requested request (extents writes file')

pub after : List Write → WritableFile → WritableFile
after [] file = file
after (w ∷ writes) file = after writes (prepare_write w.offset w.len file).1

-- The extents follow one another from `start` on, up to `end`, with no gap and no overlap.
abbrev pub Contiguous : ℕ → List Extent → ℕ → Type 0
Contiguous start [] end = start ≡ end
Contiguous start (e ∷ es) end =
    (e.offset ≡ pos start) × ((bytes : ℕ) × (e.len ≡ pos bytes) × Contiguous (start + bytes) es end)

abbrev Prepared : ℕ → WritableFile → WritableFile → Option Extent → Type 0
Prepared end file file' request =
    (file'.preallocation_block_size_ ≡ file.preallocation_block_size_)
    × IsSmall file'
    × (end ≤ reach file')
    × (reach file ≤ reach file')
    × ((es : List Extent) (final : ℕ)
        → Contiguous (reach file') es final
        → Contiguous (reach file) (requested request es) final)

prepared :
    (file : WritableFile) (offset len : ℕ) (r : Option Extent × WritableFile)
    → IsSmall file
    → Fits file.preallocation_block_size_ offset len
    → Prepares file offset len r
    → Prepared (offset + len) file r.1 r.0
prepared file offset len (none, file') small fits (same, enough) =
    rw same (refl, small, enough, omega arith, λ es final c. c)
prepared file offset len (some extent, file') small fits
      (size, start, (bytes, length_of, end, some_bytes), enough, tight) =
    (size, omega arith, enough, omega arith, λ es final c. (start, (bytes, length_of, rw end c)))

-- On a file with a block size and a preallocated end of at most 2^63, over any sequence of writes
-- whose ends are at most 2^63 less the block size, the requests to `Allocate`, converted to
-- `off_t`, follow one another without a gap or an overlap, from the end of what was preallocated
-- before to the end of what is then, and every write lies before that end.
pub writes_preallocated :
    (writes : List Write) (file : WritableFile)
    → 0 < file.preallocation_block_size_
    → IsSmall file
    → All (λ w. Fits file.preallocation_block_size_ w.offset w.len) writes
    → Contiguous (reach file) (extents writes file) (reach (after writes file))
      × All (λ w. w.offset + w.len ≤ reach (after writes file)) writes
      × (reach file ≤ reach (after writes file))
unfolding extents after
writes_preallocated [] file has_block small fits = (refl, tt, omega arith)
writes_preallocated (w ∷ writes) file has_block small (fits, more) =
    let call = prepare_write w.offset w.len file in
    let (size, small', covered, grown, extend) =
      prepared file w.offset w.len call small fits
        (prepare_write-Prepares file w.offset w.len has_block small fits) in
    let more' : All (λ w. Fits call.1.preallocation_block_size_ w.offset w.len) writes =
      rw size more in
    let (chain, all, later) = writes_preallocated writes call.1 (omega arith) small' more' in
    (
      extend (extents writes call.1) (reach (after writes call.1)) chain,
      (omega arith, all),
      omega arith,
    )
