-- ===== src/Status/Codes.antt =====
-- The code of a status, and the predicates on it.
use rockscopy.Base.{ℕ, ◌≡◌, refl, arith, Bytes, ◌==◌, Option, none, some}
use rockscopy.Slice.{Slice}
use rockscopy.Status.{
  Heap, Code, ok, not_found, corruption, not_supported, invalid_argument, io_error,
}
use rockscopy.Status.{
  merge_in_progress, code_value, code, has_code, is_ok, is_not_found, is_corruption,
}
use rockscopy.Status.{
  is_not_supported, is_invalid_argument, is_io_error, is_merge_in_progress, make_error, make_ok,
}
use rockscopy.Status.{
  make_not_found, make_corruption, make_not_supported, make_invalid_argument, make_io_error,
}
use rockscopy.Status.{make_merge_in_progress}
use rockscopy.Status.Heaps.{IsNewState}

-- The code that a status has: 0 for OK, and otherwise the one it was made with.
abbrev pub Answers : Heap → Option ℕ → Code → Type 0
Answers heap s c =
    (is_not_found heap s ≡ some (code_value c == 1))
    × (is_corruption heap s ≡ some (code_value c == 2))
    × (is_not_supported heap s ≡ some (code_value c == 3))
    × (is_invalid_argument heap s ≡ some (code_value c == 4))
    × (is_io_error heap s ≡ some (code_value c == 5))
    × (is_merge_in_progress heap s ≡ some (code_value c == 6))

has_code_lem :
    (wanted : Code) (heap : Heap) (s : Option ℕ) (value : ℕ)
    → code heap s ≡ some value
    → has_code wanted heap s ≡ some (value == code_value wanted)
unfolding has_code
has_code_lem wanted heap s value e = rw (e, has_code) refl

code-Answers :
    (heap : Heap) (s : Option ℕ) (c : Code) → code heap s ≡ some (code_value c) → Answers heap s c
unfolding is_not_found is_corruption is_not_supported is_invalid_argument is_io_error
    is_merge_in_progress code_value
code-Answers heap s c e = (
  has_code_lem not_found heap s _ e,
  has_code_lem corruption heap s _ e,
  has_code_lem not_supported heap s _ e,
  has_code_lem invalid_argument heap s _ e,
  has_code_lem io_error heap s _ e,
  has_code_lem merge_in_progress heap s _ e,
)

-- The static function for each code.
abbrev pub made :
    (Code → Slice → Slice → Heap → ℕ × Heap) → Code → Slice → Slice → Heap → Option ℕ × Heap
made new_state ok msg msg2 heap = (make_ok, heap)
made new_state not_found msg msg2 heap = make_not_found new_state msg msg2 heap
made new_state corruption msg msg2 heap = make_corruption new_state msg msg2 heap
made new_state not_supported msg msg2 heap = make_not_supported new_state msg msg2 heap
made new_state invalid_argument msg msg2 heap = make_invalid_argument new_state msg msg2 heap
made new_state io_error msg msg2 heap = make_io_error new_state msg msg2 heap
made new_state merge_in_progress msg msg2 heap = make_merge_in_progress new_state msg msg2 heap

module _ (new_state : Code → Slice → Slice → Heap → ℕ × Heap) (form : Code → Slice → Slice → Bytes)
    (law : IsNewState new_state form) where
  error_code :
      (c : Code) (msg msg2 : Slice) (heap : Heap)
      → code (new_state c msg msg2 heap).1 (some (new_state c msg msg2 heap).0)
        ≡ some (code_value c)
  unfolding code
  error_code c msg msg2 heap = rw (law.built c msg msg2 heap) (ground (arith, law.coded c msg msg2))

  -- With a constructor that builds arrays of the documented form, the status that each static
  -- function makes answers `true` to the predicate of its own code and `false` to the five others,
  -- and an OK status `false` to all six; `ok()` tells the two apart.
  pub made-Answers :
      (c : Code) (msg msg2 : Slice) (heap : Heap)
      → let (s, heap') = made new_state c msg msg2 heap in
        Answers heap' s c × (is_ok s ≡ (code_value c == 0))
  unfolding make_ok make_not_found make_corruption make_not_supported make_invalid_argument
      make_io_error make_merge_in_progress make_error is_ok code code_value
  made-Answers ok msg msg2 heap = (code-Answers heap none ok refl, refl)
  made-Answers not_found msg msg2 heap =
      (code-Answers _ _ not_found (error_code not_found msg msg2 heap), refl)
  made-Answers corruption msg msg2 heap =
      (code-Answers _ _ corruption (error_code corruption msg msg2 heap), refl)
  made-Answers not_supported msg msg2 heap =
      (code-Answers _ _ not_supported (error_code not_supported msg msg2 heap), refl)
  made-Answers invalid_argument msg msg2 heap =
      (code-Answers _ _ invalid_argument (error_code invalid_argument msg msg2 heap), refl)
  made-Answers io_error msg msg2 heap =
      (code-Answers _ _ io_error (error_code io_error msg msg2 heap), refl)
  made-Answers merge_in_progress msg msg2 heap =
      (code-Answers _ _ merge_in_progress (error_code merge_in_progress msg msg2 heap), refl)
