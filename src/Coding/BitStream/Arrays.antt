-- ===== src/Coding/BitStream/Arrays.antt =====
-- Writes to an array of bytes, and reads from it.
use rockscopy.Base.{ℕ, zero, suc, ◌<◌, ◌≡◌, refl, arith, ◌⊎◌}
use rockscopy.Base.{ap}
use rockscopy.Base.{Bytes, IsByte, All, [], ◌∷◌, some, length, get_elem?, set}

pub length-set : (xs : Bytes) (i v : ℕ) → length (set xs i v) ≡ length xs
length-set [] i v = refl
length-set (x ∷ xs) zero v = refl
length-set (x ∷ xs) (suc i) v = ap suc (length-set xs i v)

pub get_elem?-set : (xs : Bytes) (i v : ℕ) → i < length xs → get_elem? (set xs i v) i ≡ some v
get_elem?-set [] i v h = absurd (omega arith)
get_elem?-set (x ∷ xs) zero v h = refl
get_elem?-set (x ∷ xs) (suc i) v h = get_elem?-set xs i v (omega arith)

pub get_elem?-set_before :
    (xs : Bytes) (i j v : ℕ) → j < i → get_elem? (set xs i v) j ≡ get_elem? xs j
get_elem?-set_before [] i j v h = refl
get_elem?-set_before (x ∷ xs) zero j v h = absurd (omega arith)
get_elem?-set_before (x ∷ xs) (suc i) zero v h = refl
get_elem?-set_before (x ∷ xs) (suc i) (suc j) v h = get_elem?-set_before xs i j v (omega arith)

pub set-IsByte : (xs : Bytes) (i v : ℕ) → All IsByte xs → IsByte v → All IsByte (set xs i v)
set-IsByte [] i v h k = tt
set-IsByte (x ∷ xs) zero v (h, hs) k = (k, hs)
set-IsByte (x ∷ xs) (suc i) v (h, hs) k = (h, set-IsByte xs i v hs k)

pub get_elem?-IsByte :
    (xs : Bytes) (i : ℕ)
    → i < length xs
    → All IsByte xs
    → (byte : ℕ) × (get_elem? xs i ≡ some byte) × IsByte byte
get_elem?-IsByte [] i h k = absurd (omega arith)
get_elem?-IsByte (x ∷ xs) zero h (k, ks) = (x, refl, k)
get_elem?-IsByte (x ∷ xs) (suc i) h (k, ks) = get_elem?-IsByte xs i (omega arith) ks

pub get_elem?-set_else :
    (xs : Bytes) (i j v : ℕ) → (j < i) ⊎ (i < j) → get_elem? (set xs i v) j ≡ get_elem? xs j
get_elem?-set_else [] i j v h = refl
get_elem?-set_else (x ∷ xs) zero zero v h = absurd (omega (arith, h))
get_elem?-set_else (x ∷ xs) zero (suc j) v h = refl
get_elem?-set_else (x ∷ xs) (suc i) zero v h = refl
get_elem?-set_else (x ∷ xs) (suc i) (suc j) v h = get_elem?-set_else xs i j v (omega (arith, h))

-- Two arrays of one length that have the same bytes.
pub get_elem?-injective :
    (xs ys : Bytes)
    → length xs ≡ length ys
    → ((i : ℕ) → i < length xs → get_elem? xs i ≡ get_elem? ys i)
    → xs ≡ ys
get_elem?-injective [] [] e h = refl
get_elem?-injective [] (y ∷ ys) e h = absurd (omega arith)
get_elem?-injective (x ∷ xs) [] e h = absurd (omega arith)
get_elem?-injective (x ∷ xs) (y ∷ ys) e h =
    let first : some x ≡ some y = h 0 (omega arith) in
    let rest = get_elem?-injective xs ys (omega arith) (λ i lt. h (suc i) (omega arith)) in
    cc (first, rest)

pub get_elem?_inside :
    (xs : Bytes) (i : ℕ) → i < length xs → (byte : ℕ) × (get_elem? xs i ≡ some byte)
get_elem?_inside [] i h = absurd (omega arith)
get_elem?_inside (x ∷ xs) zero h = (x, refl)
get_elem?_inside (x ∷ xs) (suc i) h = get_elem?_inside xs i (omega arith)
