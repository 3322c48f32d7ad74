-- ===== src/ArenaTest/Memory.antt =====
-- What is written to an allocated block is there until something is written to one of its bytes.
use rockscopy.Base.{
  ℕ, zero, suc, ◌+◌, ◌%◌, ◌≤◌, ◌<◌, ◌≡◌, refl, arith, inl, inr, ◌∙◌, true, Bool-cases,
}
use rockscopy.Base.{List, [], ◌∷◌, ◌++◌, All, length, update, ◌==◌, ◌⊎◌}
use rockscopy.Base.Bits.{bit_and_mask}
use rockscopy.Arena.{Region}
use rockscopy.Arena.Regions.{Apart}
use rockscopy.ArenaTest.{fill, matches, matches_all}

-- The regions of the blocks, the last one first.
abbrev pub regions : List Region → List (ℕ × ℕ) → List Region
regions live [] = live
regions live ((s, r) ∷ blocks) = regions (record { start = r; bytes = s } ∷ live) blocks

pub regions-append :
    (live : List Region) (blocks : List (ℕ × ℕ)) (s r : ℕ)
    → regions live (blocks ++ ((s, r) ∷ [])) ≡ record { start = r; bytes = s } ∷ regions live blocks
regions-append live [] s r = refl
regions-append live ((s', r') ∷ blocks) s r =
    regions-append (record { start = r'; bytes = s' } ∷ live) blocks s r

abbrev pub IsFilled : ℕ → ℕ × ℕ → (ℕ → ℕ) → Type 0
IsFilled i (s, r) memory = (b : ℕ) → b < s → memory (r + b) ≡ i % 256

-- Each block holds the number of its allocation, from `i` on.
abbrev pub AllFilled : ℕ → List (ℕ × ℕ) → (ℕ → ℕ) → Type 0
AllFilled i [] memory = Unit {0}
AllFilled i (block ∷ blocks) memory = IsFilled i block memory × AllFilled (suc i) blocks memory

fill_else :
    (left b r i : ℕ) (memory : ℕ → ℕ) (a : ℕ)
    → (a < r + b) ⊎ (r + b + left ≤ a)
    → fill left b r i memory a ≡ memory a
unfolding fill
fill_else zero b r i memory a h = refl
fill_else (suc left) b r i memory a h =
    fill_else left (b + 1) r i (update memory (r + b) (i % 256)) a (ground arith) ∙ ground arith

fill_at :
    (left b r i : ℕ) (memory : ℕ → ℕ) (c : ℕ)
    → b ≤ c
    → c < b + left
    → fill left b r i memory (r + c) ≡ i % 256
unfolding fill
fill_at zero b r i memory c le lt = absurd (omega arith)
fill_at (suc left) b r i memory c le lt = elim (Bool-cases (b == c)) [
  | inl here ↦
      fill_else left (b + 1) r i (update memory (r + b) (i % 256)) (r + c) (inl (ground arith))
      ∙ ground arith
  | inr there ↦
      fill_at left (b + 1) r i (update memory (r + b) (i % 256)) c (ground arith) (omega arith)
]

pub fill-IsFilled : (s r i : ℕ) (memory : ℕ → ℕ) → IsFilled i (s, r) (fill s 0 r i memory)
fill-IsFilled s r i memory b lt = fill_at s 0 r i memory b (omega arith) (omega arith)

-- A write to a block leaves those apart from it as they are.
fill-IsFilled-Apart :
    (k i : ℕ) (s r s' r' : ℕ) (memory : ℕ → ℕ)
    → Apart (record { start = r; bytes = s }) (record { start = r'; bytes = s' })
    → IsFilled k (s', r') memory
    → IsFilled k (s', r') (fill s 0 r i memory)
fill-IsFilled-Apart k i s r s' r' memory apart h b lt =
    fill_else s 0 r i memory (r' + b) (ground arith) ∙ h b lt

abbrev AllApartFrom : ℕ → ℕ → List (ℕ × ℕ) → Type 0
AllApartFrom s r [] = Unit {0}
AllApartFrom s r ((s', r') ∷ blocks) =
    Apart (record { start = r; bytes = s }) (record { start = r'; bytes = s' })
    × AllApartFrom s r blocks

regions-AllApartFrom :
    (s r : ℕ) (live : List Region) (blocks : List (ℕ × ℕ))
    → All (Apart (record { start = r; bytes = s })) (regions live blocks)
    → AllApartFrom s r blocks × All (Apart (record { start = r; bytes = s })) live
regions-AllApartFrom s r live [] h = (tt, h)
regions-AllApartFrom s r live ((s', r') ∷ blocks) h =
    let (others, (own, old)) =
      regions-AllApartFrom s r (record { start = r'; bytes = s' } ∷ live) blocks h in
    ((own, others), old)

fill-AllFilled-AllApartFrom :
    (k i s r : ℕ) (memory : ℕ → ℕ) (blocks : List (ℕ × ℕ))
    → AllApartFrom s r blocks
    → AllFilled k blocks memory
    → AllFilled k blocks (fill s 0 r i memory)
fill-AllFilled-AllApartFrom k i s r memory [] h f = tt
fill-AllFilled-AllApartFrom k i s r memory ((s', r') ∷ blocks) (a, h) (f, fs) = (
  fill-IsFilled-Apart k i s r s' r' memory a f,
  fill-AllFilled-AllApartFrom (suc k) i s r memory blocks h fs,
)

AllFilled-append :
    (k s r : ℕ) (blocks : List (ℕ × ℕ)) (memory : ℕ → ℕ)
    → AllFilled k blocks memory
    → IsFilled (k + length blocks) (s, r) memory
    → AllFilled k (blocks ++ ((s, r) ∷ [])) memory
AllFilled-append k s r [] memory f h = (λ b lt. rw (h b lt) (omega arith), tt)
AllFilled-append k s r (block ∷ blocks) memory (f, fs) h =
    (f, AllFilled-append (suc k) s r blocks memory fs (λ b lt. rw (h b lt) (omega arith)))

-- A new block, apart from those that there are, is filled.
pub fill-AllFilled :
    (s r : ℕ) (memory : ℕ → ℕ) (blocks : List (ℕ × ℕ))
    → All (Apart (record { start = r; bytes = s })) (regions [] blocks)
    → AllFilled 0 blocks memory
    → AllFilled 0 (blocks ++ ((s, r) ∷ [])) (fill s 0 r (length blocks) memory)
fill-AllFilled s r memory blocks apart f =
    AllFilled-append 0 s r blocks (fill s 0 r (length blocks) memory)
      (fill-AllFilled-AllApartFrom 0 (length blocks) s r memory blocks
        (regions-AllApartFrom s r [] blocks apart).0 f)
      (λ b lt. fill-IsFilled s r (length blocks) memory b lt ∙ omega arith)

matches_filled :
    (left b p i s : ℕ) (memory : ℕ → ℕ)
    → IsFilled i (s, p) memory
    → b + left ≤ s
    → matches left b p i memory ≡ true
unfolding matches
matches_filled zero b p i s memory f le = refl
matches_filled (suc left) b p i s memory f le =
    let later = matches_filled left (b + 1) p i s memory f (omega arith) in
    ground (arith, f b (omega arith), bit_and_mask 8 (i % 256), later)

pub matches_all_filled :
    (i : ℕ) (blocks : List (ℕ × ℕ)) (memory : ℕ → ℕ)
    → AllFilled i blocks memory
    → matches_all i blocks memory ≡ true
unfolding matches_all
matches_all_filled i [] memory f = refl
matches_all_filled i ((s, p) ∷ blocks) memory (f, fs) =
    let e : suc i ≡ i + 1 = omega arith in
    rw (matches_filled s 0 p i s memory f (omega arith))
      (matches_all_filled (i + 1) blocks memory (rw e at fs))
