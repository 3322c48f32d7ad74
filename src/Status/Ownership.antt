-- ===== src/Status/Ownership.antt =====
-- Variables that hold a status, each the owner of its array: an array is taken and given back.
use rockscopy.Base.{ℕ, ◌≡◌, ◌≢◌, refl, arith, ◌∙◌, inl, inr, Bytes, ◌==◌, update}
use rockscopy.Base.{◌∷◌, Option, none, some, false, Bool-cases, Option-cases}
use rockscopy.Status.{Heap, lookup, remove, delete}
use rockscopy.Status.Heaps.{lookup-remove}

-- `state_` of each variable; a number that names no status has `none`, as an OK status has.
pub record Program : Type 0 where
  pub vars : ℕ → Option ℕ
  pub heap : Heap

-- The value of a variable: the bytes of its array, or `none` for OK.
abbrev pub view : Program → ℕ → Option Bytes
view p i = elim (p.vars i) [ none ↦ none | some a ↦ lookup p.heap a ]

-- Every pointer leads to an array, no two variables share one, and no array is without a variable.
pub record IsOwned (p : Program) : Type 0 where
  pub live : (i a : ℕ) → p.vars i ≡ some a → (array : Bytes) × (lookup p.heap a ≡ some array)
  pub unique : (i j a : ℕ) → p.vars i ≡ some a → p.vars j ≡ some a → i ≡ j
  pub owned : (a : ℕ) (array : Bytes) → lookup p.heap a ≡ some array → (i : ℕ) × (p.vars i ≡ some a)

abbrev pub taken : Program → ℕ → ℕ → Bytes → Program
taken p i a array = record { vars = update p.vars i (some a); heap = (a, array) ∷ p.heap }

module _ (p : Program) (o : IsOwned p) (i a : ℕ) (array : Bytes) (free : p.vars i ≡ none)
    (fresh : lookup p.heap a ≡ none) where
  elsewhere : (j b : ℕ) → p.vars j ≡ some b → (a == b) ≡ false
  elsewhere j b e = elim (Bool-cases (a == b)) [
    | inl same ↦ let (array', l) = o.live j b e in ground (arith, l)
    | inr other ↦ other
  ]

  taken_live :
      (j b : ℕ)
      → update p.vars i (some a) j ≡ some b
      → (array' : Bytes) × (lookup ((a, array) ∷ p.heap) b ≡ some array')
  taken_live j b e = elim (Bool-cases (i == j)) [
    | inl here ↦ (array, ground arith)
    | inr there ↦
        let e' : p.vars j ≡ some b = ground arith in
        let (array', l) = o.live j b e' in (array', ground (arith, elsewhere j b e'))
  ]

  taken_unique :
      (j k b : ℕ)
      → update p.vars i (some a) j ≡ some b
      → update p.vars i (some a) k ≡ some b
      → j ≡ k
  taken_unique j k b e e' = ground (arith, o.unique j k b, elsewhere j b, elsewhere k b)

  taken_owned :
      (b : ℕ) (array' : Bytes)
      → lookup ((a, array) ∷ p.heap) b ≡ some array'
      → (j : ℕ) × (update p.vars i (some a) j ≡ some b)
  taken_owned b array' e = elim (Bool-cases (a == b)) [
    | inl here ↦ (i, ground arith)
    | inr there ↦ let (j, l) = o.owned b array' (ground arith) in (j, ground (arith, l, free))
  ]

  pub taken-IsOwned : IsOwned (taken p i a array)
  taken-IsOwned = record { live = taken_live; unique = taken_unique; owned = taken_owned }

  pub view-taken : (k : ℕ) → view (taken p i a array) k ≡ update (view p) i (some array) k
  view-taken k = elim (Bool-cases (i == k)) [
    | inl here ↦ ground arith
    | inr there ↦ elim (Option-cases (p.vars k)) [
      | inl e ↦ ground arith
      | inr (b, e) ↦ ground (arith, elsewhere k b e)
    ]
  ]

abbrev dropped : Heap → Option ℕ → Heap
dropped heap none = heap
dropped heap (some a) = remove heap a

abbrev pub given_back : Program → ℕ → Program
given_back p i = record { vars = update p.vars i none; heap = dropped p.heap (p.vars i) }

module _ (p : Program) (o : IsOwned p) (i : ℕ) where
  lookup-dropped :
      (j b : ℕ)
      → p.vars j ≡ some b
      → (i == j) ≡ false
      → lookup (dropped p.heap (p.vars i)) b ≡ lookup p.heap b
  lookup-dropped j b e there = elim (Option-cases (p.vars i)) [
    | inl none_here ↦ rw none_here refl
    | inr (a, here) ↦ rw here (ground (arith, lookup-remove p.heap a b, o.unique i j a here))
  ]

  kept :
      (b : ℕ) (array : Bytes)
      → lookup (dropped p.heap (p.vars i)) b ≡ some array
      → (lookup p.heap b ≡ some array) × (p.vars i ≢ some b)
  kept b array l = elim (Option-cases (p.vars i)) [
    | inl none_here ↦ (rw none_here at l, λ e. cc)
    | inr (a, here) ↦
        let l' : lookup (remove p.heap a) b ≡ some array = rw here at l in
        (ground (arith, lookup-remove p.heap a b), λ e. ground (arith, lookup-remove p.heap a b))
  ]

  pub delete-given_back : delete p.heap (p.vars i) ≡ some (given_back p i).heap
  unfolding delete
  delete-given_back = elim (Option-cases (p.vars i)) [
    | inl none_here ↦ rw none_here refl
    | inr (a, here) ↦ let (array, l) = o.live i a here in rw (here, delete, l) refl
  ]

  given_back_live :
      (j b : ℕ)
      → update p.vars i none j ≡ some b
      → (array : Bytes) × (lookup (dropped p.heap (p.vars i)) b ≡ some array)
  given_back_live j b e =
      let there : (i == j) ≡ false = ground arith in
      let e' : p.vars j ≡ some b = ground arith in
      let (array, l) = o.live j b e' in (array, lookup-dropped j b e' there ∙ l)

  given_back_owned :
      (b : ℕ) (array : Bytes)
      → lookup (dropped p.heap (p.vars i)) b ≡ some array
      → (j : ℕ) × (update p.vars i none j ≡ some b)
  given_back_owned b array l =
      let (l', other) = kept b array l in
      let (j, e) = o.owned b array l' in (j, ground (arith, e, other))

  pub given_back-IsOwned : IsOwned (given_back p i)
  given_back-IsOwned = record {
    live = given_back_live;
    unique = λ j k b e e'. o.unique j k b (ground arith) (ground arith);
    owned = given_back_owned;
  }

  pub view-given_back : (k : ℕ) → view (given_back p i) k ≡ update (view p) i none k
  view-given_back k = elim (Bool-cases (i == k)) [
    | inl here ↦ ground arith
    | inr there ↦ elim (Option-cases (p.vars k)) [
      | inl e ↦ ground arith
      | inr (b, e) ↦ ground (arith, lookup-dropped k b e there)
    ]
  ]
