-- ===== src/Status.antt =====
-- include/leveldb/status.h: `Status`. A status is its pointer `state_`, `none` for `nullptr`, and the
-- arrays that such pointers lead to are a heap.
-- `CopyState` and the constructor with messages are declared there and have no body in the
-- repository: they are arguments.

mod Tests
pub mod Heaps
pub mod Codes
pub mod Ownership
pub mod Lifetime
use rockscopy.Base.{
  ℕ, Bytes, Bool, true, false, ◌==◌, if◌then◌else◌, List, [], ◌∷◌, Option, none, some,
}
use rockscopy.Base.{get_elem?}
use rockscopy.Slice.{Slice}

-- The arrays that were allocated and not yet freed, by their addresses.
abbrev pub Heap : Type 0
Heap = List (ℕ × Bytes)

abbrev pub lookup : Heap → ℕ → Option Bytes
lookup [] p = none
lookup ((q, array) ∷ heap) p = if q == p then some array else lookup heap p

abbrev pub remove : Heap → ℕ → Heap
remove [] p = []
remove ((q, array) ∷ heap) p = if q == p then remove heap p else (q, array) ∷ remove heap p

-- `delete[]`: `none` is an address that holds no array.
pub delete : Heap → Option ℕ → Option Heap
delete heap none = some heap
delete heap (some p) = elim (lookup heap p) [ none ↦ none | some _ ↦ some (remove heap p) ]

pub data Code : Type 0 where
  ok : Code
  not_found : Code
  corruption : Code
  not_supported : Code
  invalid_argument : Code
  io_error : Code
  merge_in_progress : Code

unfoldable pub code_value : Code → ℕ
code_value ok = 0
code_value not_found = 1
code_value corruption = 2
code_value not_supported = 3
code_value invalid_argument = 4
code_value io_error = 5
code_value merge_in_progress = 6

-- `none` is a read of memory that holds no array, or past its end.
pub code : Heap → Option ℕ → Option ℕ
unfolding code_value
code heap none = some (code_value ok)
code heap (some p) = elim (lookup heap p) [ none ↦ none | some array ↦ get_elem? array 4 ]

has_code : Code → Heap → Option ℕ → Option Bool
has_code c heap s = elim (code heap s) [ none ↦ none | some value ↦ some (value == code_value c) ]

-- `ok()`, and the predicates on the code.
pub is_ok : Option ℕ → Bool
is_ok none = true
is_ok (some p) = false

pub is_not_found : Heap → Option ℕ → Option Bool
is_not_found heap s = has_code not_found heap s

pub is_corruption : Heap → Option ℕ → Option Bool
is_corruption heap s = has_code corruption heap s

pub is_not_supported : Heap → Option ℕ → Option Bool
is_not_supported heap s = has_code not_supported heap s

pub is_invalid_argument : Heap → Option ℕ → Option Bool
is_invalid_argument heap s = has_code invalid_argument heap s

pub is_io_error : Heap → Option ℕ → Option Bool
is_io_error heap s = has_code io_error heap s

pub is_merge_in_progress : Heap → Option ℕ → Option Bool
is_merge_in_progress heap s = has_code merge_in_progress heap s

-- `Status()`, `OK()`.
pub make_ok : Option ℕ
make_ok = none

-- `Status(code, msg, msg2)`, from a library that is not part of the repository.
module _ (new_state : Code → Slice → Slice → Heap → ℕ × Heap) where
  make_error : Code → Slice → Slice → Heap → Option ℕ × Heap
  make_error c msg msg2 heap = let (p, heap') = new_state c msg msg2 heap in (some p, heap')

  pub make_not_found : Slice → Slice → Heap → Option ℕ × Heap
  make_not_found msg msg2 heap = make_error not_found msg msg2 heap

  pub make_corruption : Slice → Slice → Heap → Option ℕ × Heap
  make_corruption msg msg2 heap = make_error corruption msg msg2 heap

  pub make_not_supported : Slice → Slice → Heap → Option ℕ × Heap
  make_not_supported msg msg2 heap = make_error not_supported msg msg2 heap

  pub make_invalid_argument : Slice → Slice → Heap → Option ℕ × Heap
  make_invalid_argument msg msg2 heap = make_error invalid_argument msg msg2 heap

  pub make_io_error : Slice → Slice → Heap → Option ℕ × Heap
  make_io_error msg msg2 heap = make_error io_error msg msg2 heap

  pub make_merge_in_progress : Slice → Slice → Heap → Option ℕ × Heap
  make_merge_in_progress msg msg2 heap = make_error merge_in_progress msg msg2 heap

same_pointer : Option ℕ → Option ℕ → Bool
same_pointer none none = true
same_pointer (some p) (some q) = p == q
same_pointer _ _ = false

module _ (copy_state : Heap → ℕ → ℕ × Heap) where
  -- `Status(const Status &s)`.
  pub copy : Heap → Option ℕ → Option ℕ × Heap
  copy heap none = (none, heap)
  copy heap (some p) = let (q, heap') = copy_state heap p in (some q, heap')

  -- `operator=`, on the pointers of `*this` and `s`; `none` is a `delete[]` of what is no array.
  pub assign : Heap → Option ℕ → Option ℕ → Option (Option ℕ × Heap)
  assign heap this s =
      if same_pointer this s
      then some (this, heap)
      else elim (delete heap this) [ none ↦ none | some heap' ↦ some (copy heap' s) ]
