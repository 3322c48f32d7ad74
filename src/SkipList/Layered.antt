-- ===== src/SkipList/Layered.antt =====
-- The shape of a skip list that every insertion keeps: the levels lead through the nodes of the
-- lowest one, of which only that one needs to be in the order of the keys. A stale entry of `prev_`
-- may break the order of the others.
pub mod Rounds
mod Tests
pub mod Find
pub mod Contains
pub mod Last
pub mod Splice
pub mod Places
pub mod Sorted
pub mod Frame
pub mod Link
pub mod Loop
pub mod NewNode
pub mod Ready
pub mod Finish
pub mod Writes
pub mod Insert
pub mod Writer
pub mod Wait
pub mod Trace
pub mod Orders
pub mod Stages
pub mod Watch
pub mod Reader
pub mod Race
pub mod Way
use rockscopy.Base.{ℕ, suc, ◌≤◌, ◌<◌, ◌≡◌, ◌⊎◌, List, length}
use rockscopy.Slice.{Sign}
use rockscopy.SkipList.{SkipList, max_height}
use rockscopy.SkipList.Chain.{Among, Links, Ascending}

module _ {K : Type 0} (compare_ : K → K → Sign) (s : SkipList K) (chain : ℕ → List ℕ) where
  pub record IsLayered : Type 0 where
    pub links : (i : ℕ) → i < max_height → Links compare_ s i s.head_ (chain i)
    pub ascending : Ascending compare_ s (chain 0)
    pub nested : (i z : ℕ) → Among z (chain (suc i)) → Among z (chain i)
    pub headless : ¬ Among s.head_ (chain 0)
    pub low : 1 ≤ s.max_height_
    pub high : s.max_height_ ≤ max_height

-- Every entry of `prev` is the head or a node of its level.
abbrev pub IsPrev : ℕ → (ℕ → List ℕ) → (ℕ → ℕ) → Type 0
IsPrev head chain prev = (i : ℕ) → i < max_height → (prev i ≡ head) ⊎ Among (prev i) (chain i)

abbrev pub IsShort : ℕ → (ℕ → List ℕ) → Type 0
IsShort n chain = (i : ℕ) → length (chain i) ≤ n
