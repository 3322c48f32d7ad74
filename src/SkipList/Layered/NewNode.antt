-- ===== src/SkipList/Layered/NewNode.antt =====
-- The first half of `Insert`: `prev_` for the levels that are new, and the memory of the new node.
use rockscopy.Base.{
  ℕ, zero, suc, ◌+◌, ◌-◌, ◌*◌, ◌^◌, ◌≤◌, ◌<◌, ◌≡◌, refl, arith, ◌⊎◌, inl, inr, ◌∙◌, update,
}
use rockscopy.Base.{List, [], ◌∷◌, some, Bool-cases, ◌==◌, All}
use rockscopy.Arena.{Region, Arena, allocate_aligned, pointer_size}
use rockscopy.Arena.Regions.{IsAllocator, Apart}
use rockscopy.Arena.Invariant.{IsConsistent}
use rockscopy.Arena.Allocation.{allocate_aligned-Serves}
use rockscopy.SkipList.{SkipList, next, key_of, max_height, raise_loop, new_node}
use rockscopy.SkipList.Layered.{IsPrev}

pub raise_loop-IsPrev :
    (chain : ℕ → List ℕ) (left i head : ℕ) (prev : ℕ → ℕ)
    → IsPrev head chain prev
    → IsPrev head chain (raise_loop left i head prev)
unfolding raise_loop
raise_loop-IsPrev chain zero i head prev h = h
raise_loop-IsPrev chain (suc left) i head prev h =
    raise_loop-IsPrev chain left (i + 1) head (update prev i head) (λ j lt.
      elim (Bool-cases (i == j)) [ inl here ↦ inl (ground arith) | inr there ↦ rw there (h j lt) ])

pub raise_loop_below :
    (left i head j : ℕ) (prev : ℕ → ℕ) → j < i → raise_loop left i head prev j ≡ prev j
unfolding raise_loop
raise_loop_below zero i head j prev lt = refl
raise_loop_below (suc left) i head j prev lt =
    raise_loop_below left (i + 1) head j (update prev i head) (omega arith) ∙ ground arith

-- The bytes of a node.
abbrev pub node_size : ℕ → ℕ → ℕ
node_size node_bytes height = node_bytes + pointer_size * (height - 1)

-- The node at `z` is at the start of a region with room for this many bytes.
abbrev pub Owned : ℕ → List Region → ℕ → Type 0
Owned size_ [] z = ⊥
Owned size_ (r ∷ live) z = ((r.start ≡ z) × (size_ ≤ r.bytes)) ⊎ Owned size_ live z

-- A region apart from all of them is none of theirs.
pub Owned-Apart :
    (size_ : ℕ) (live : List Region) (r : Region) (z : ℕ)
    → 0 < size_
    → All (Apart r) live
    → 0 < r.bytes
    → Owned size_ live z
    → ¬ (z ≡ r.start)
Owned-Apart size_ [] r z some_size apart pos o e = o
Owned-Apart size_ (q ∷ live) r z some_size (a, more) pos (inl (start, room)) e = ground arith
Owned-Apart size_ (q ∷ live) r z some_size (a, more) pos (inr o) e =
    Owned-Apart size_ live r z some_size more pos o e

module _ {K : Type 0} (key : K) (r : ℕ × Arena) (s : SkipList K) where
  -- The list with the new node's memory and key.
  abbrev pub with_memory : SkipList K
  with_memory = record s {
    arena_ = r.1;
    nodes = update s.nodes r.0 (record (s.nodes r.0) { key = key });
  }

  pub next-with_memory : (z i : ℕ) → next with_memory z i ≡ next s z i
  unfolding next
  next-with_memory z i = ground arith

  pub with_memory_key : key_of with_memory r.0 ≡ key
  unfolding key_of
  with_memory_key = ground arith

  pub with_memory_else : (z : ℕ) → ¬ (z ≡ r.0) → key_of with_memory z ≡ key_of s z
  unfolding key_of
  with_memory_else z h = elim (Bool-cases (r.0 == z)) [
    | inl e ↦ absurd (h (ground arith))
    | inr e ↦ rw (key_of, e) refl
  ]

module _ {K : Type 0} (new_chars : List Region → ℕ → ℕ) (node_bytes : ℕ) where
  new_node_from :
      (key : K) (height : ℕ) (s : SkipList K) (r : ℕ × Arena)
      → allocate_aligned new_chars (node_size node_bytes height) s.arena_ ≡ some r
      → new_node new_chars node_bytes key height s ≡ some (r.0, with_memory key r s)
  unfolding new_node
  new_node_from key height s r e = ground (arith, e)

  -- `NewNode` gets memory that no node had.
  pub new_node_lem :
      (law : IsAllocator new_chars) (key : K) (height : ℕ) (s : SkipList K) (live : List Region)
      → 0 < node_bytes
      → node_bytes ≤ 2 ^ 63
      → height ≤ max_height
      → IsConsistent s.arena_ live
      → (r : ℕ × Arena) × (new_node new_chars node_bytes key height s
          ≡ some (r.0, with_memory key r s))
        × IsConsistent r.1 (record { start = r.0; bytes = node_size node_bytes height } ∷ live)
  new_node_lem law key height s live pos fits low consistent =
      let (r, e, ok, aligned) =
        allocate_aligned-Serves new_chars law (node_size node_bytes height) s.arena_ live
          (omega arith) (omega arith) consistent in
      (r, new_node_from key height s r e, ok)
