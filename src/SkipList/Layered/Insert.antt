-- ===== src/SkipList/Layered/Insert.antt =====
-- `Insert`, with a store in the place of line 124.
use rockscopy.Base.{ℕ, suc, ◌^◌, ◌≤◌, ◌<◌, ◌≡◌}
use rockscopy.Base.{List, some}
use rockscopy.Slice.{Sign}
use rockscopy.Arena.{Region}
use rockscopy.Arena.Regions.{IsAllocator}
use rockscopy.SkipList.{SkipList, insert}
use rockscopy.SkipList.Chain.{IsOrder}
use rockscopy.SkipList.Layered.Rounds.{enough}
use rockscopy.SkipList.Layered.Contains.{keys}
use rockscopy.SkipList.Layered.Sorted.{insert_sorted}
use rockscopy.SkipList.Layered.Loop.{stores}
use rockscopy.SkipList.Layered.Ready.{Holds}
use rockscopy.SkipList.Layered.Writes.{insert-Writes}

module _ {K : Type 0} (new_chars : List Region → ℕ → ℕ) (node_bytes : ℕ)
    (compare_ : K → K → Sign) where
  -- What an insertion does to the list and to what holds of it.
  abbrev pub Inserts : ℕ → K → SkipList K → (ℕ → List ℕ) → ℕ → Type 0
  Inserts fuel key s chain n =
      (s' : SkipList K) × (chain' : ℕ → List ℕ) × (live' : List Region) × (insert new_chars
          node_bytes compare_ stores fuel key s
        ≡ some s')
      × Holds node_bytes compare_ s' chain' (suc n) live'
      × (keys s' (chain' 0) ≡ insert_sorted compare_ key (keys s (chain 0)))

module _ {K : Type 0} (new_chars : List Region → ℕ → ℕ) (law : IsAllocator new_chars)
    (node_bytes : ℕ) (pos : 0 < node_bytes) (fits : node_bytes ≤ 2 ^ 63) (compare_ : K → K → Sign)
    (order : IsOrder compare_) where
  -- Over an allocator that gives aligned and fresh blocks, with `sizeof(Node)` from 1 to 2^63, with
  -- a comparator that is a strict order, and with line 124 read as the store of the new node's
  -- link: on a list that `Holds` (each level leads through nodes of the level below, the lowest is
  -- in the order of the keys, each entry of `prev_` is the head or a node of its level, and each
  -- node is at the start of a region that the arena has handed out, apart from all others, with
  -- room for the links of every level that the node is on, or of all 12 for the head), with at most
  -- `n` nodes on a level, `Insert` of any key, one that the list has or not, returns within 12 * (n
  -- + 1) rounds of its search. The list that it leaves `Holds` again, with at most n + 1 nodes on a
  -- level, and the keys along its lowest level are those from before with the new key at its place
  -- in the order, before any equal one.
  pub insert_lem :
      (fuel n : ℕ) (key : K) (s : SkipList K) (chain : ℕ → List ℕ) (live : List Region)
      → Holds node_bytes compare_ s chain n live
      → enough n ≤ fuel
      → Inserts new_chars node_bytes compare_ fuel key s chain n
  insert_lem fuel n key s chain live held fuel_enough =
      let w =
        insert-Writes new_chars law node_bytes pos fits compare_ order fuel n key s chain live held
          fuel_enough in
      (w.list, w.chain', w.live', w.inserted, w.held, w.keys_)
