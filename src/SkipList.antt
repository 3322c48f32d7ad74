-- ===== src/SkipList.antt =====
-- src/db/skiplist.h: `SkipList`. A node pointer is the number of its address, `nullptr` is `none`,
-- and the nodes are a store from addresses. The atomic loads and stores of src/port/atomic_pointer.h
-- are plain reads and writes of the store, one after another. Layered/Watch has a reader take turns
-- with a thread that inserts; here one thread runs at a time.

mod Tests
pub mod Chain
pub mod Position
pub mod Search
pub mod Contains
pub mod Heights
pub mod Less
pub mod Empty
pub mod Numbers
pub mod Layered
use mathlib.Core.Option
use rockscopy.Base.{
  update, ℕ, zero, suc, ◌+◌, ◌-◌, ◌*◌, bit_and, Bool, true, false, not, ◌&&◌, ◌||◌, ltb, ◌==◌,
}
use rockscopy.Base.{if◌then◌else◌, List, [], ◌∷◌, ◌++◌, Option, none, some, ◌>>=◌}
use rockscopy.Slice.{Sign, less, same, greater}
use rockscopy.Random
use rockscopy.Random.{Random}
use rockscopy.Arena.{Arena, Region, allocate_aligned, pointer_size}

-- `next_` by level. A node has room for the levels below its height; what it is at a level from
-- there on is not ruled out here.
pub record Node (K : Type 0) : Type 0 where
  pub key : K
  pub next_ : ℕ → Option ℕ

pub record SkipList (K : Type 0) : Type 0 where
  pub nodes : ℕ → Node K
  pub arena_ : Arena
  pub head_ : ℕ
  pub max_height_ : ℕ
  pub prev_ : ℕ → ℕ
  pub rnd_ : Random

-- `kMaxHeight` and `kBranching`.
abbrev pub max_height : ℕ
max_height = 12

abbrev pub branching : ℕ
branching = 4

module _ {K : Type 0} where
  -- `Next`, `NoBarrier_Next`, and `SetNext`, `NoBarrier_SetNext` of the node at `x`.
  pub next : SkipList K → ℕ → ℕ → Option ℕ
  next s x n = (s.nodes x).next_ n

  pub set_next : ℕ → ℕ → Option ℕ → SkipList K → SkipList K
  set_next x n y s =
      let node = s.nodes x in
      record s { nodes = update s.nodes x (record node { next_ = update node.next_ n y }) }

  -- What the last of some steps from `s` on leaves.
  abbrev pub last_of : SkipList K → List (SkipList K) → SkipList K
  last_of s [] = s
  last_of s (t ∷ ts) = last_of t ts

  pub key_of : SkipList K → ℕ → K
  key_of s x = (s.nodes x).key

pub is_less : Sign → Bool
is_less less = true
is_less _ = false

pub is_same : Sign → Bool
is_same same = true
is_same _ = false

-- What a round of `FindGreatOrEqual` comes to: a read through a null pointer, the end, with the node
-- and the array, or the next round, with the array, the node and the level.
pub data FindRound : Type 0 where
  faults : FindRound
  finds : Option ℕ → Option (ℕ → ℕ) → FindRound
  moves : Option (ℕ → ℕ) → ℕ → ℕ → FindRound

-- `compare_` is the template's comparator. The searches take fuel: `none` means that it ran out,
-- that a null pointer was read through, or that an assertion failed.
module _ {K : Type 0} (compare_ : K → K → Sign) where
  pub equal : K → K → Bool
  equal a b = is_same (compare_ a b)

  pub key_is_after_node : SkipList K → K → Option ℕ → Bool
  key_is_after_node s key none = false
  key_is_after_node s key (some n) = is_less (compare_ (key_of s n) key)

  -- A round of the loop of `FindGreatOrEqual`; `prev` is the array to fill, or none for `nullptr`.
  abbrev pub find_round : SkipList K → K → Option (ℕ → ℕ) → ℕ → ℕ → FindRound
  find_round s key prev x level = elim (key_is_after_node s key (next s x level)) [
    | true ↦ elim (next s x level) [ none ↦ faults | some n ↦ moves prev n level ]
    | false ↦
        let prev' = Option.map (λ p. update p level x) prev in
        elim level [ zero ↦ finds (next s x zero) prev' | suc l ↦ moves prev' x l ]
  ]

  -- The loop.
  pub find_loop : ℕ → SkipList K → K → Option (ℕ → ℕ) → ℕ → ℕ → Option (Option ℕ × Option (ℕ → ℕ))
  find_loop zero s key prev x level = none
  find_loop (suc fuel) s key prev x level = elim (find_round s key prev x level) [
    | faults ↦ none
    | finds n prev' ↦ some (n, prev')
    | moves prev' y l ↦ find_loop fuel s key prev' y l
  ]

  -- The search from the head, and the shortcut that `prev` allows.
  pub find_great_or_equal : ℕ → SkipList K → K → Option (ℕ → ℕ) → Option (Option ℕ × Option (ℕ → ℕ))
  find_great_or_equal fuel s key none = find_loop fuel s key none s.head_ (s.max_height_ - 1)
  find_great_or_equal fuel s key (some prev) =
      let x = prev 0 in
      if not (key_is_after_node s key (next s x 0))
        && (x == s.head_ || key_is_after_node s key (some x))
      then some (next s x 0, some prev)
      else find_loop fuel s key (some prev) s.head_ (s.max_height_ - 1)

  pub contains : ℕ → SkipList K → K → Option Bool
  contains fuel s key = do
    (x, _) ← find_great_or_equal fuel s key none
    elim x [ none ↦ some false | some n ↦ some (equal key (key_of s n)) ]

  -- `next == nullptr || compare_(next->key, key) >= 0`.
  at_or_past : SkipList K → K → Option ℕ → Bool
  at_or_past s key none = true
  at_or_past s key (some n) = not (is_less (compare_ (key_of s n) key))

  pub find_less_than_loop : ℕ → SkipList K → K → ℕ → ℕ → Option ℕ
  find_less_than_loop zero s key x level = none
  find_less_than_loop (suc fuel) s key x level =
      elim (x == s.head_ || is_less (compare_ (key_of s x) key)) [
        | false ↦ none
        | true ↦ elim (at_or_past s key (next s x level)) [
          | true ↦ elim level [ zero ↦ some x | suc l ↦ find_less_than_loop fuel s key x l ]
          | false ↦ elim (next s x level) [
            | none ↦ none
            | some n ↦ find_less_than_loop fuel s key n level
          ]
        ]
      ]

  pub find_less_than : ℕ → SkipList K → K → Option ℕ
  find_less_than fuel s key = find_less_than_loop fuel s key s.head_ (s.max_height_ - 1)

module _ {K : Type 0} where
  pub find_last_loop : ℕ → SkipList K → ℕ → ℕ → Option ℕ
  find_last_loop zero s x level = none
  find_last_loop (suc fuel) s x level = elim (next s x level) [
    | none ↦ elim level [ zero ↦ some x | suc l ↦ find_last_loop fuel s x l ]
    | some n ↦ find_last_loop fuel s n level
  ]

  pub find_last : ℕ → SkipList K → Option ℕ
  find_last fuel s = find_last_loop fuel s s.head_ (s.max_height_ - 1)

-- `while (height < kMaxHeight && ((rnd_.Next() & kBranching) == 0)) height++`, with `left` for
-- `kMaxHeight - height`. The generator is only asked while the height is below the limit.
pub random_height_loop : ℕ → ℕ → Random → ℕ × Random
random_height_loop zero height rnd = (height, rnd)
random_height_loop (suc left) height rnd =
    let (draw, rnd') = Random.next rnd in
    let more = random_height_loop left (height + 1) rnd' in
    if bit_and draw branching == 0 then more else (height, rnd')

pub random_height : Random → ℕ × Random
random_height rnd = random_height_loop (max_height - 1) 1 rnd

-- `for (int i = GetMaxHeight(); i < height; i++) prev_[i] = head_`.
pub raise_loop : ℕ → ℕ → ℕ → (ℕ → ℕ) → ℕ → ℕ
raise_loop zero i head prev = prev
raise_loop (suc left) i head prev = raise_loop left (i + 1) head (update prev i head)

-- The constructor and `Insert`. `new_chars` is what the arena takes its blocks from, and `node_bytes`
-- is `sizeof(Node)`, which depends on the type of the keys.
module _ {K : Type 0} (new_chars : List Region → ℕ → ℕ) (node_bytes : ℕ) where
  -- The links of a new node are what its memory held before.
  pub new_node : K → ℕ → SkipList K → Option (ℕ × SkipList K)
  new_node key height s =
      elim (allocate_aligned new_chars (node_bytes + pointer_size * (height - 1)) s.arena_) [
        | none ↦ none
        | some (mem, arena) ↦ some (
          mem,
          record s {
            arena_ = arena;
            nodes = update s.nodes mem (record (s.nodes mem) { key = key });
          },
        )
      ]

  -- The loop of the constructor, `left` rounds from level `i` on.
  clear_loop : ℕ → ℕ → SkipList K → SkipList K
  clear_loop zero i s = s
  clear_loop (suc left) i s =
      let cleared = set_next s.head_ i none s in
      clear_loop left (i + 1) (record cleared { prev_ = update cleared.prev_ i cleared.head_ })

  -- `SkipList(cmp, arena)`, where `key0` is the key 0 and `nodes` what the memory holds before.
  pub make : K → (ℕ → Node K) → Arena → Option (SkipList K)
  make key0 nodes arena =
      let raw : SkipList K = record {
        nodes = nodes;
        arena_ = arena;
        head_ = 0;
        max_height_ = 1;
        prev_ = λ i. 0;
        rnd_ = Random.make 0xdeadbeef;
      } in
      elim (new_node key0 max_height raw) [
        | none ↦ none
        | some (head, s) ↦ some (clear_loop max_height 0 (record s { head_ = head }))
      ]

  module _ (compare_ : K → K → Sign) (link_new : ℕ → ℕ → Option ℕ → SkipList K → SkipList K) where
    -- The loop that links the node `x`, as the lists that its statements leave one after another. The
    -- statement of line 124 gives a pointer as the index of a load, which C++ does not take; what it
    -- does is the argument `link_new`, on `x`, the level and the successor. `set_next` with the
    -- arguments in that order is what the line means.
    pub link_steps : ℕ → ℕ → ℕ → SkipList K → List (SkipList K)
    link_steps zero i x s = []
    link_steps (suc left) i x s =
        let p = s.prev_ i in
        let s1 = link_new x i (next s p i) s in
        let s2 = set_next p i (some x) s1 in s1 ∷ s2 ∷ link_steps left (i + 1) x s2

    -- The list that the loop ends with.
    pub link_loop : ℕ → ℕ → ℕ → SkipList K → SkipList K
    link_loop left i x s = last_of s (link_steps left i x s)

    -- `Insert`, as the lists that it leaves one after another: with `prev_` and the height for the
    -- new node, with the new node, after each statement of the loop, and with the new `prev_[0]`.
    pub insert_steps : ℕ → K → SkipList K → Option (List (SkipList K))
    insert_steps fuel key s = elim (find_great_or_equal compare_ fuel s key (some s.prev_)) [
      | none ↦ none
      | some (_, none) ↦ none
      | some (_, some prev) ↦
          let (height, rnd) = random_height s.rnd_ in
          let low = s.max_height_ in
          let prev' = if ltb low height then raise_loop (height - low) low s.head_ prev else prev in
          let high = if ltb low height then height else low in
          let raised = record s { prev_ = prev'; max_height_ = high; rnd_ = rnd } in
          elim (new_node key height raised) [
            | none ↦ none
            | some (x, s') ↦
                let linked = link_loop height 0 x s' in
                let last = record linked { prev_ = update linked.prev_ 0 x } in
                some (raised ∷ s' ∷ (link_steps height 0 x s' ++ (last ∷ [])))
          ]
    ]

    -- The list that it ends with.
    pub insert : ℕ → K → SkipList K → Option (SkipList K)
    insert fuel key s = Option.map (last_of s) (insert_steps fuel key s)
