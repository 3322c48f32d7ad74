-- ===== src/Status/Lifetime.antt =====
-- Programs over status variables: pointers with copies and frees, against plain values.
use rockscopy.Base.{ℕ, ◌≡◌, refl, arith, sym, ap, inl, inr, Bytes, ◌==◌, update}
use rockscopy.Base.{
  Option, none, some, true, false, Bool-cases, Option-cases, update-update, update_same,
}
use rockscopy.Slice.{Slice}
use rockscopy.Status.{Heap, lookup, delete, Code, copy, assign, make_error, same_pointer}
use rockscopy.Status.Heaps.{IsCopyState, IsNewState}
use rockscopy.Status.Ownership.{Program, IsOwned, view, taken, taken-IsOwned, view-taken}
use rockscopy.Status.Ownership.{given_back, delete-given_back, given_back-IsOwned, view-given_back}

-- The operations on status variables: an error in a new variable, a copy in a new variable, an
-- assignment, and the destructor.
pub data Operation : Type 0 where
  construct : ℕ → Code → Slice → Slice → Operation
  copied : ℕ → ℕ → Operation
  assigned : ℕ → ℕ → Operation
  destroyed : ℕ → Operation

-- A constructor runs on a variable that holds no status with an array.
abbrev pub IsAllowed : Operation → Program → Type 0
IsAllowed (construct i c msg msg2) p = p.vars i ≡ none
IsAllowed (copied i j) p = p.vars i ≡ none
IsAllowed (assigned i j) p = Unit {0}
IsAllowed (destroyed i) p = Unit {0}

abbrev stored : Program → ℕ → Option ℕ × Heap → Program
stored p i (s, heap) = record { vars = update p.vars i s; heap = heap }

module _ (copy_state : Heap → ℕ → ℕ × Heap)
    (new_state : Code → Slice → Slice → Heap → ℕ × Heap) where
  pub step : Operation → Program → Option Program
  step (construct i c msg msg2) p = some (stored p i (make_error new_state c msg msg2 p.heap))
  step (copied i j) p = some (stored p i (copy copy_state p.heap (p.vars j)))
  step (assigned i j) p = elim (assign copy_state p.heap (p.vars i) (p.vars j)) [
    | none ↦ none
    | some r ↦ some (stored p i r)
  ]
  step (destroyed i) p = elim (delete p.heap (p.vars i)) [
    | none ↦ none
    | some heap ↦ some (stored p i (none, heap))
  ]

-- What an operation does to the values.
abbrev pub spec : (Code → Slice → Slice → Bytes) → Operation → (ℕ → Option Bytes) → ℕ → Option Bytes
spec form (construct i c msg msg2) v = update v i (some (form c msg msg2))
spec form (copied i j) v = update v i (v j)
spec form (assigned i j) v = update v i (v j)
spec form (destroyed i) v = update v i none

-- The variables own their arrays after an operation as before it, and the one value `w` of
-- variable `i` is new.
abbrev Becomes : Program → ℕ → Option Bytes → Program → Type 0
Becomes p i w p' = IsOwned p' × ((k : ℕ) → view p' k ≡ update (view p) i w k)

taken-Becomes :
    (p : Program) (i a : ℕ) (array : Bytes)
    → IsOwned p
    → p.vars i ≡ none
    → lookup p.heap a ≡ none
    → Becomes p i (some array) (taken p i a array)
taken-Becomes p i a array o free fresh =
    (taken-IsOwned p o i a array free fresh, view-taken p o i a array free fresh)

same-Becomes : (p : Program) (i : ℕ) (w : Option Bytes) → IsOwned p → view p i ≡ w → Becomes p i w p
same-Becomes p i w o e = (o, λ k. ap (λ (f : ℕ → Option Bytes). f k) (update_same (view p) i w e))

store_same : (p : Program) (i : ℕ) (s : Option ℕ) → p.vars i ≡ s → stored p i (s, p.heap) ≡ p
store_same p i s e =
    ap (λ (f : ℕ → Option ℕ). record p { vars = f }) (sym (update_same p.vars i s e))

module _ (copy_state : Heap → ℕ → ℕ × Heap) (copy_law : IsCopyState copy_state) where
  copy-none :
      (p : Program) (i j : ℕ)
      → p.vars i ≡ none
      → p.vars j ≡ none
      → stored p i (copy copy_state p.heap (p.vars j)) ≡ p
  unfolding copy
  copy-none p i j free e = rw (e, copy) (store_same p i none free)

  copy-taken :
      (p : Program) (i j a : ℕ) (array : Bytes)
      → p.vars j ≡ some a
      → lookup p.heap a ≡ some array
      → stored p i (copy copy_state p.heap (p.vars j)) ≡ taken p i (copy_state p.heap a).0 array
  unfolding copy
  copy-taken p i j a array e l = rw (e, copy, copy_law.copied p.heap a array l) refl

  -- A copy of the status of variable `j` in the free variable `i`.
  copy-Becomes :
      (p : Program) (i j : ℕ)
      → IsOwned p
      → p.vars i ≡ none
      → Becomes p i (view p j) (stored p i (copy copy_state p.heap (p.vars j)))
  copy-Becomes p i j o free = elim (Option-cases (p.vars j)) [
    | inl e ↦ rw (copy-none p i j free e) (same-Becomes p i (view p j) o (ground arith))
    | inr (a, e) ↦
        let (array, l) = o.live j a e in
        let value : view p j ≡ some array = rw (e, view) l in
        rw (copy-taken p i j a array e l, value)
          (taken-Becomes p i (copy_state p.heap a).0 array o free (copy_law.fresh p.heap a))
  ]

  same_pointer_eq : (s t : Option ℕ) → same_pointer s t ≡ true → s ≡ t
  unfolding same_pointer
  same_pointer_eq none none h = refl
  same_pointer_eq none (some q) h = cc
  same_pointer_eq (some p) none h = cc
  same_pointer_eq (some p) (some q) h = ground arith

  same_pointer_refl : (s : Option ℕ) → same_pointer s s ≡ true
  unfolding same_pointer
  same_pointer_refl none = refl
  same_pointer_refl (some p) = ground arith

  -- What `operator=` leaves, where the pointers differ: the old array is given back, then copied.
  copied_after : (p : Program) (i j : ℕ) → Program
  copied_after p i j = let p' = given_back p i in stored p' i (copy copy_state p'.heap (p'.vars j))

  assign-same :
      (p : Program) (i j : ℕ)
      → same_pointer (p.vars i) (p.vars j) ≡ true
      → assign copy_state p.heap (p.vars i) (p.vars j) ≡ some (p.vars i, p.heap)
  unfolding assign
  assign-same p i j h = rw h refl

  assign-differs :
      (p : Program) (i j : ℕ)
      → IsOwned p
      → same_pointer (p.vars i) (p.vars j) ≡ false
      → assign copy_state p.heap (p.vars i) (p.vars j)
        ≡ some (copy copy_state (given_back p i).heap (p.vars j))
  unfolding assign
  assign-differs p i j o h = rw (h, delete-given_back p o i) refl

  differs : (p : Program) (i j : ℕ) → same_pointer (p.vars i) (p.vars j) ≡ false → (i == j) ≡ false
  differs p i j h = elim (Bool-cases (i == j)) [
    | inl e ↦
        let same : i ≡ j = ground arith in
        let h' : same_pointer (p.vars i) (p.vars i) ≡ false = rw (← same) at h in
        cc (same_pointer_refl (p.vars i))
    | inr e ↦ e
  ]

  stored-copied_after :
      (p : Program) (i j : ℕ)
      → (i == j) ≡ false
      → stored p i (copy copy_state (given_back p i).heap (p.vars j)) ≡ copied_after p i j
  unfolding copied_after
  stored-copied_after p i j h =
      let r = copy copy_state (given_back p i).heap (p.vars j) in
      rw h (
        ap (λ (f : ℕ → Option ℕ). record { vars = f; heap = r.1 })
          (sym (update-update p.vars i none r.0)))

  copied_after-Becomes :
      (p : Program) (i j : ℕ)
      → IsOwned p
      → (i == j) ≡ false
      → Becomes p i (view p j) (copied_after p i j)
  unfolding copied_after
  copied_after-Becomes p i j o h =
      let o' = given_back-IsOwned p o i in
      let (owned, values) = copy-Becomes (given_back p i) i j o' (ground arith) in
      (owned, λ k. ground (arith, values k, view-given_back p o i k, view-given_back p o i j))

  assigned-Becomes :
      (p : Program) (i j : ℕ)
      → IsOwned p
      → (r : Option ℕ × Heap) × (assign copy_state p.heap (p.vars i) (p.vars j) ≡ some r)
        × Becomes p i (view p j) (stored p i r)
  assigned-Becomes p i j o = elim (Bool-cases (same_pointer (p.vars i) (p.vars j))) [
    | inl h ↦
        let same = same_pointer_eq (p.vars i) (p.vars j) h in
        (
          (p.vars i, p.heap),
          assign-same p i j h,
          rw (store_same p i (p.vars i) refl) (same-Becomes p i (view p j) o (ground arith)),
        )
    | inr h ↦ (
      copy copy_state (given_back p i).heap (p.vars j),
      assign-differs p i j o h,
      rw (stored-copied_after p i j (differs p i j h))
          (copied_after-Becomes p i j o (differs p i j h)),
    )
  ]

  module _ (new_state : Code → Slice → Slice → Heap → ℕ × Heap)
      (form : Code → Slice → Slice → Bytes) (new_law : IsNewState new_state form) where
    -- With allocating functions that give fresh arrays, and where every array has one variable as
    -- its owner, every operation succeeds, so that nothing is freed twice or read after it was
    -- freed. It leaves each array with one owner again, so that nothing leaks, and it does to the
    -- values of the variables what the specification on plain values says: a copy and an
    -- assignment, to itself too, take over the value of the source.
    pub step_refines :
        (op : Operation) (p : Program)
        → IsOwned p
        → IsAllowed op p
        → (p' : Program) × (step copy_state new_state op p ≡ some p')
          × IsOwned p'
          × ((k : ℕ) → view p' k ≡ spec form op (view p) k)
    unfolding step make_error
    step_refines (construct i c msg msg2) p o free =
        let a = (new_state c msg msg2 p.heap).0 in
        let (owned, values) =
          taken-Becomes p i a (form c msg msg2) o free (new_law.fresh c msg msg2 p.heap) in
        (taken p i a (form c msg msg2), rw (new_law.built c msg msg2 p.heap) refl, owned, values)
    step_refines (copied i j) p o free =
        let (owned, values) = copy-Becomes p i j o free in (_, refl, owned, values)
    step_refines (assigned i j) p o _ =
        let (r, e, becomes) = assigned-Becomes p i j o in
        let (owned, values) = becomes in (stored p i r, rw (e, step) refl, owned, values)
    step_refines (destroyed i) p o _ = (
      given_back p i,
      rw (delete-given_back p o i, step) refl,
      given_back-IsOwned p o i,
      view-given_back p o i,
    )
