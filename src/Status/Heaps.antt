-- ===== src/Status/Heaps.antt =====
-- The heap of state arrays, and what `Status` relies on in the functions that allocate them.
use rockscopy.Base.{ℕ, ◌≡◌, refl, arith, inl, inr, Bytes, ◌==◌, if◌then◌else◌}
use rockscopy.Base.{[], ◌∷◌, none, some, get_elem?, Bool-cases}
use rockscopy.Slice.{Slice}
use rockscopy.Status.{Heap, lookup, remove, Code, code_value}

pub lookup-remove :
    (heap : Heap) (p q : ℕ) → lookup (remove heap p) q ≡ (if p == q then none else lookup heap q)
lookup-remove [] p q = elim (Bool-cases (p == q)) [ inl e ↦ rw e refl | inr e ↦ rw e refl ]
lookup-remove ((r, array) ∷ heap) p q = ground (arith, lookup-remove heap p q)

-- `CopyState` allocates a new array with the same bytes and leaves the others.
pub record IsCopyState (copy_state : Heap → ℕ → ℕ × Heap) : Type 0 where
  pub fresh : (heap : Heap) (p : ℕ) → lookup heap (copy_state heap p).0 ≡ none
  pub copied :
      (heap : Heap) (p : ℕ) (array : Bytes)
      → lookup heap p ≡ some array
      → (copy_state heap p).1 ≡ ((copy_state heap p).0, array) ∷ heap

-- The constructor with messages allocates a new array of the documented form, whose byte 4 is the
-- code, and leaves the others.
pub record IsNewState (new_state : Code → Slice → Slice → Heap → ℕ × Heap)
    (form : Code → Slice → Slice → Bytes) : Type 0 where
  pub fresh :
      (c : Code) (msg msg2 : Slice) (heap : Heap) → lookup heap (new_state c msg msg2 heap).0 ≡ none
  pub built :
      (c : Code) (msg msg2 : Slice) (heap : Heap)
      → (new_state c msg msg2 heap).1 ≡ ((new_state c msg msg2 heap).0, form c msg msg2) ∷ heap
  pub coded : (c : Code) (msg msg2 : Slice) → get_elem? (form c msg msg2) 4 ≡ some (code_value c)
