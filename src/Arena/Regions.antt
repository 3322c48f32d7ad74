-- ===== src/Arena/Regions.antt =====
-- Regions of memory: apart from one another, inside a block, and their total size.
use rockscopy.Base.{ℕ, ◌+◌, ◌≤◌, ◌%◌, ◌≡◌, arith, ◌⊎◌, inl, inr, List, [], ◌∷◌, ◌++◌, All}
use rockscopy.Arena.{Region, align}

abbrev pub Apart : Region → Region → Type 0
Apart r s = (r.start + r.bytes ≤ s.start) ⊎ (s.start + s.bytes ≤ r.start)

abbrev pub Inside : Region → Region → Type 0
Inside r b = (b.start ≤ r.start) × (r.start + r.bytes ≤ b.start + b.bytes)

abbrev pub InSome : List Region → Region → Type 0
InSome [] r = ⊥
InSome (b ∷ blocks) r = Inside r b ⊎ InSome blocks r

-- No two regions of the list share a byte.
abbrev pub AllApart : List Region → Type 0
AllApart [] = Unit {0}
AllApart (r ∷ regions) = All (Apart r) regions × AllApart regions

abbrev pub total : List Region → ℕ
total [] = 0
total (r ∷ regions) = r.bytes + total regions

-- What the arena relies on in `operator new[]`: a block is aligned for any object, and shares no
-- byte with a block that it gave before and that was not freed.
pub record IsAllocator (new_chars : List Region → ℕ → ℕ) : Type 0 where
  pub aligned : (blocks : List Region) (n : ℕ) → new_chars blocks n % align ≡ 0
  pub fresh :
      (blocks : List Region) (n : ℕ)
      → All (Apart (record { start = new_chars blocks n; bytes = n })) blocks

pub Apart-symm : (r s : Region) → Apart r s → Apart s r
Apart-symm r s (inl h) = inr h
Apart-symm r s (inr h) = inl h

pub InSome-append :
    (blocks more : List Region) (r : Region) → InSome blocks r → InSome (blocks ++ more) r
InSome-append [] more r h = absurd h
InSome-append (b ∷ blocks) more r (inl h) = inl h
InSome-append (b ∷ blocks) more r (inr h) = inr (InSome-append blocks more r h)

pub InSome-last : (blocks : List Region) (b r : Region) → Inside r b → InSome (blocks ++ (b ∷ [])) r
InSome-last [] b r h = inl h
InSome-last (c ∷ blocks) b r h = inr (InSome-last blocks b r h)

pub All-InSome-append :
    (blocks more live : List Region) → All (InSome blocks) live → All (InSome (blocks ++ more)) live
All-InSome-append blocks more [] h = tt
All-InSome-append blocks more (r ∷ live) (hr, hs) =
    (InSome-append blocks more r hr, All-InSome-append blocks more live hs)

pub total-append : (xs ys : List Region) → total (xs ++ ys) ≡ total xs + total ys
total-append [] ys = omega arith
total-append (x ∷ xs) ys = omega (arith, total-append xs ys)

-- A region inside a block that is apart from `b` is apart from all that lies in `b`.
Inside-Apart : (r b c s : Region) → Apart c b → Inside r b → Inside s c → Apart s r
Inside-Apart r b c s h i j = ground arith

pub InSome-Apart :
    (blocks : List Region) (c r s : Region)
    → All (Apart c) blocks
    → InSome blocks r
    → Inside s c
    → Apart s r
InSome-Apart [] c r s h i j = absurd i
InSome-Apart (b ∷ blocks) c r s (hb, hs) (inl i) j = Inside-Apart r b c s hb i j
InSome-Apart (b ∷ blocks) c r s (hb, hs) (inr i) j = InSome-Apart blocks c r s hs i j

pub All-InSome-Apart :
    (blocks live : List Region) (c s : Region)
    → All (Apart c) blocks
    → All (InSome blocks) live
    → Inside s c
    → All (Apart s) live
All-InSome-Apart blocks [] c s h i j = tt
All-InSome-Apart blocks (r ∷ live) c s h (ir, is) j =
    (InSome-Apart blocks c r s h ir j, All-InSome-Apart blocks live c s h is j)
