-- ===== src/Arena/Trace.antt =====
-- Any sequence of allocations from a new arena, its memory usage, and the destructor.
use mathlib.Core.List.{map}
use rockscopy.Base.{ℕ, zero, suc, ◌+◌, ◌*◌, ◌^◌, ◌≤◌, ◌<◌, ◌≡◌, refl, arith, length}
use rockscopy.Base.{List, [], ◌∷◌, Option, none, some, All, drop, ◌∙◌, ap, drop-length, drop_at}
use mathlib.Core.Path.{subst}
use native.Mathlib.Numerals.{add-one}
use rockscopy.Arena.{Region, Arena, make, allocate, allocate_aligned, align, memory_usage, destroy}
use rockscopy.Arena.{destroy_loop, pointer_size}
use rockscopy.Arena.Regions.{InSome, AllApart, total, IsAllocator}
use rockscopy.Arena.Invariant.{IsConsistent, make-IsConsistent}
use rockscopy.Arena.Allocation.{allocate-Serves, allocate_aligned-Serves}

-- A call of `Allocate` or of `AllocateAligned`.
pub data Request : Type 0 where
  plain : ℕ → Request
  aligned : ℕ → Request

abbrev pub asked : Request → ℕ
asked (plain n) = n
asked (aligned n) = n

-- A request of at least one byte, and small enough that the slop can be added in a `size_t`.
abbrev pub IsServable : Request → Type 0
IsServable q = (0 < asked q) × (asked q + align ≤ 2 ^ 64)

abbrev pub asked_in_all : List Request → ℕ
asked_in_all [] = 0
asked_in_all (q ∷ requests) = asked q + asked_in_all requests

module _ (new_chars : List Region → ℕ → ℕ) where
  unfoldable pub serve : Request → Arena → Option (ℕ × Arena)
  serve (plain n) a = allocate new_chars n a
  serve (aligned n) a = allocate_aligned new_chars n a

  -- The requests in order, the regions collected.
  unfoldable pub run : List Request → List Region → Arena → Option (List Region × Arena)
  run [] live a = some (live, a)
  run (q ∷ requests) live a = elim (serve q a) [
    | none ↦ none
    | some (result, a') ↦ run requests (record { start = result; bytes = asked q } ∷ live) a'
  ]

module _ (new_chars : List Region → ℕ → ℕ) (law : IsAllocator new_chars) where
  serve-IsConsistent :
      (q : Request) (a : Arena) (live : List Region)
      → IsServable q
      → IsConsistent a live
      → (r : ℕ × Arena) × (serve new_chars q a ≡ some r)
        × IsConsistent r.1 (record { start = r.0; bytes = asked q } ∷ live)
  unfolding serve
  serve-IsConsistent (plain n) a live h c = allocate-Serves new_chars law n a live h.0 c
  serve-IsConsistent (aligned n) a live h c =
      let (r, e, ok, _) = allocate_aligned-Serves new_chars law n a live h.0 h.1 c in (r, e, ok)

  run_round :
      (q : Request) (requests : List Request) (live : List Region) (a : Arena) (r : ℕ × Arena)
      → serve new_chars q a ≡ some r
      → run new_chars (q ∷ requests) live a
        ≡ run new_chars requests (record { start = r.0; bytes = asked q } ∷ live) r.1
  unfolding run
  run_round q requests live a r e = rw (e, run)

  run-IsConsistent :
      (requests : List Request) (live : List Region) (a : Arena)
      → All IsServable requests
      → IsConsistent a live
      → (out : List Region × Arena) × (run new_chars requests live a ≡ some out)
        × IsConsistent out.1 out.0
        × (total out.0 ≡ asked_in_all requests + total live)
  run-IsConsistent [] live a h c = ((live, a), unfold run in refl, c, omega arith)
  run-IsConsistent (q ∷ requests) live a (hq, hs) c =
      let (r, e, ok) = serve-IsConsistent q a live hq c in
      let (out, e', ok', sum) =
        run-IsConsistent requests (record { start = r.0; bytes = asked q } ∷ live) r.1 hs ok in
      (out, run_round q requests live a r e ∙ e', ok', omega (arith, sum))

  -- Over an allocator that gives aligned and fresh blocks, any sequence of servable calls on a new
  -- arena succeeds. The regions handed out, as many bytes as were asked for, lie in the arena's
  -- blocks, and no two of them share a byte.
  pub run_from_make :
      (requests : List Request)
      → All IsServable requests
      → (out : List Region × Arena) × (run new_chars requests [] make ≡ some out)
        × (total out.0 ≡ asked_in_all requests)
        × All (InSome out.1.blocks_) out.0
        × AllApart out.0
  run_from_make requests h =
      let (out, e, ok, sum) = run-IsConsistent requests [] make h make-IsConsistent in
      (out, e, omega (arith, sum), ok.inside, ok.apart)

  -- After any sequence of servable calls on a new arena, `MemoryUsage` is at least what was handed
  -- out, as long as the sum that it returns fits a `size_t`.
  pub memory_usage-le :
      (capacity : ℕ → ℕ) (requests : List Request) (out : List Region × Arena)
      → All IsServable requests
      → run new_chars requests [] make ≡ some out
      → total out.1.blocks_ + capacity (length out.1.blocks_) * pointer_size < 2 ^ 64
      → asked_in_all requests ≤ memory_usage capacity out.1
  unfolding memory_usage
  memory_usage-le capacity requests out h e fits =
      let (out', e', ok, sum) = run-IsConsistent requests [] make h make-IsConsistent in
      let same : out' ≡ out = cc in
      let ok' = subst (λ (o : List Region × Arena). IsConsistent o.1 o.0) same ok in
      let enough : total out.0 ≡ asked_in_all requests = omega (arith, rw same at sum) in
      omega (arith, ok'.room, ok'.memory, enough)

destroy_loop-starts :
    (blocks : List Region) (left i : ℕ)
    → i + left ≡ length blocks
    → destroy_loop blocks left i ≡ some (map (λ b. b.start) (drop i blocks))
unfolding destroy_loop
destroy_loop-starts blocks zero i h = let e : i ≡ length blocks = omega arith in rw (e, drop-length)
destroy_loop-starts blocks (suc left) i h =
    let (block, here, rest) = drop_at blocks i (omega arith) in
    let later = destroy_loop-starts blocks left (i + 1) (omega arith) in
    let later' : destroy_loop blocks left (i + 1)
        ≡ some (map (λ b. b.start) (drop (suc i) blocks)) =
      later ∙ ap (λ (k : ℕ). some (map (λ b. b.start) (drop k blocks))) (add-one i) in
    rw rest (ground (arith, here, later'))

-- The destructor hands each block to `delete[]`, once and in the order of allocation, and reads
-- no slot that the vector does not have.
pub destroy-starts : (a : Arena) → destroy a ≡ some (map (λ b. b.start) a.blocks_)
unfolding destroy
destroy-starts a = destroy_loop-starts a.blocks_ (length a.blocks_) 0 (omega arith)
