-- ===== src/Status/Tests.antt =====
-- Functions as `Status` expects them to allocate its arrays, and the theorems at concrete inputs.
use rockscopy.Base.{ℕ, ◌+◌, ◌≤◌, ◌≡◌, refl, arith, Bytes}
use rockscopy.Base.{[], ◌∷◌, ◌++◌, Option, none, some, false}
use rockscopy.Slice.{Slice}
use rockscopy.Status.{
  Heap, lookup, Code, not_found, io_error, code_value, is_ok, make_error, make_not_found,
}
use rockscopy.Status.Heaps.{IsCopyState, IsNewState}
use rockscopy.Status.Codes.{Answers, made-Answers}
use rockscopy.Status.Ownership.{Program, IsOwned, view, taken, taken-IsOwned}
use rockscopy.Status.Lifetime.{assigned, step, spec, step_refines}

-- An address behind all the others.
abbrev unused : Heap → ℕ
unused [] = 1
unused ((a, array) ∷ heap) = a + unused heap + 1

unused-lookup : (heap : Heap) (a : ℕ) → unused heap ≤ a → lookup heap a ≡ none
unused-lookup [] a h = refl
unused-lookup ((b, array) ∷ heap) a h = ground (arith, unused-lookup heap a (omega arith))

abbrev value_or_empty : Option Bytes → Bytes
value_or_empty none = []
value_or_empty (some array) = array

abbrev copy_state : Heap → ℕ → ℕ × Heap
copy_state heap p = (unused heap, (unused heap, value_or_empty (lookup heap p)) ∷ heap)

copy_state-IsCopyState : IsCopyState copy_state
copy_state-IsCopyState = record {
  fresh = λ heap p. unused-lookup heap (unused heap) (omega arith);
  copied = λ heap p array e. rw e refl;
}

-- Four bytes of length, the code, the message.
abbrev form : Code → Slice → Slice → Bytes
form c msg msg2 = 0 ∷ 0 ∷ 0 ∷ 0 ∷ code_value c ∷ msg ++ msg2

abbrev new_state : Code → Slice → Slice → Heap → ℕ × Heap
new_state c msg msg2 heap = (unused heap, (unused heap, form c msg msg2) ∷ heap)

new_state-IsNewState : IsNewState new_state form
new_state-IsNewState = record {
  fresh = λ c msg msg2 heap. unused-lookup heap (unused heap) (omega arith);
  built = λ c msg msg2 heap. refl;
  coded = λ c msg msg2. refl;
}

abbrev message : Slice
message = b'x' ∷ []

made-Answers_example :
    Answers ((1, form not_found message []) ∷ []) (some 1) not_found × (is_ok (some 1) ≡ false)
unfolding make_not_found code_value make_error
made-Answers_example = made-Answers new_state form new_state-IsNewState not_found message [] []

abbrev nothing : Program
nothing = record { vars = λ i. none; heap = [] }

nothing-IsOwned : IsOwned nothing
nothing-IsOwned = record { live = λ i a e. cc; unique = λ i j a e e'. cc; owned = λ a array e. cc }

-- Variable 0 holds an error, and the others are OK.
abbrev one_error : Program
one_error = taken nothing 0 7 (form io_error message [])

one_error-IsOwned : IsOwned one_error
one_error-IsOwned = taken-IsOwned nothing nothing-IsOwned 0 7 (form io_error message []) refl refl

step_refines_example :
    (p' : Program) × (step copy_state new_state (assigned 1 0) one_error ≡ some p')
    × IsOwned p'
    × ((k : ℕ) → view p' k ≡ spec form (assigned 1 0) (view one_error) k)
step_refines_example =
    step_refines copy_state copy_state-IsCopyState new_state form new_state-IsNewState
      (assigned 1 0) one_error one_error-IsOwned tt
