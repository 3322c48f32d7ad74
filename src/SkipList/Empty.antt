-- ===== src/SkipList/Empty.antt =====
-- The list that the constructor makes.
use rockscopy.Base.{
  ℕ, zero, suc, ◌+◌, ◌*◌, ◌^◌, ◌≤◌, ◌<◌, ◌≡◌, refl, arith, update, sym, ◌∙◌, ap, inl, inr,
}
use rockscopy.Base.{List, [], ◌∷◌, none, some, true, false, Bool-cases, ◌==◌}
use rockscopy.Random
use rockscopy.Slice.{Sign}
use rockscopy.Arena.{Arena, Region, allocate_aligned, pointer_size}
use rockscopy.Arena.Regions.{IsAllocator}
use rockscopy.Arena.Invariant.{IsConsistent}
use rockscopy.Arena.Allocation.{allocate_aligned-Serves}
use rockscopy.SkipList.{SkipList, Node, next, set_next, max_height, new_node, clear_loop, make}
use rockscopy.SkipList.{contains}
use rockscopy.SkipList.Chain.{IsOrder, IsSkipList}
use rockscopy.SkipList.Contains.{contains_lem}
use rockscopy.SkipList.Search.{search_rounds, rounds}

-- No level leads anywhere, and every search starts from the head.
pub record IsEmpty {K : Type 0} (s : SkipList K) : Type 0 where
  pub low : s.max_height_ ≡ 1
  pub ends : (l : ℕ) → l < max_height → next s s.head_ l ≡ none
  pub heads : (l : ℕ) → l < max_height → s.prev_ l ≡ s.head_

module _ {K : Type 0} (new_chars : List Region → ℕ → ℕ) (node_bytes : ℕ) where
  abbrev round : ℕ → SkipList K → SkipList K
  round i s =
      let cleared = set_next s.head_ i none s in
      record cleared { prev_ = update cleared.prev_ i cleared.head_ }

  next-round :
      (i l : ℕ) (s : SkipList K) → (i == l) ≡ false → next (round i s) s.head_ l ≡ next s s.head_ l
  unfolding next set_next
  next-round i l s h = ground arith

  round_here : (i : ℕ) (s : SkipList K) → next (round i s) s.head_ i ≡ none
  unfolding next set_next
  round_here i s = ground arith

  round_head : (i : ℕ) (s : SkipList K) → (round i s).head_ ≡ s.head_
  unfolding set_next
  round_head i s = refl

  round_low : (i : ℕ) (s : SkipList K) → (round i s).max_height_ ≡ s.max_height_
  unfolding set_next
  round_low i s = refl

  round_arena : (i : ℕ) (s : SkipList K) → (round i s).arena_ ≡ s.arena_
  unfolding set_next
  round_arena i s = refl

  round_prev : (i l : ℕ) (s : SkipList K) → (i == l) ≡ false → (round i s).prev_ l ≡ s.prev_ l
  unfolding set_next
  round_prev i l s h = ground arith

  round_prev_here : (i l : ℕ) (s : SkipList K) → (i == l) ≡ true → (round i s).prev_ l ≡ s.head_
  unfolding set_next
  round_prev_here i l s h = ground arith

  -- What the loop has done when it ends.
  record Cleared (left i : ℕ) (s s' : SkipList K) : Type 0 where
    pub head : s'.head_ ≡ s.head_
    pub low : s'.max_height_ ≡ s.max_height_
    pub arena : s'.arena_ ≡ s.arena_
    pub ends : (l : ℕ) → i ≤ l → l < i + left → next s' s.head_ l ≡ none
    pub same : (l : ℕ) → l < i → next s' s.head_ l ≡ next s s.head_ l
    pub heads : (l : ℕ) → i ≤ l → l < i + left → s'.prev_ l ≡ s.head_
    pub kept : (l : ℕ) → l < i → s'.prev_ l ≡ s.prev_ l

  clear_loop-Cleared :
      (left i : ℕ) (s : SkipList K) → Cleared left i s (clear_loop new_chars node_bytes left i s)
  unfolding clear_loop
  clear_loop-Cleared zero i s = record {
    head = refl;
    low = refl;
    arena = refl;
    ends = λ l h k. absurd (omega arith);
    same = λ l h. refl;
    heads = λ l h k. absurd (omega arith);
    kept = λ l h. refl;
  }
  clear_loop-Cleared (suc left) i s =
      let c = clear_loop-Cleared left (i + 1) (round i s) in
      record {
        head = c.head ∙ round_head i s;
        low = c.low ∙ round_low i s;
        arena = c.arena ∙ round_arena i s;
        ends = λ l h k. elim (Bool-cases (i == l)) [
          | inl here ↦
              let same : i ≡ l = ground arith in
              let below : l < i + 1 = omega arith in
              ap (λ (h' : ℕ). next (clear_loop new_chars node_bytes left (i + 1) (round i s)) h' l)
                (sym (round_head i s))
              ∙ c.same l below
              ∙ ap (λ (h' : ℕ). next (round i s) h' l) (round_head i s)
              ∙ ap (λ (l' : ℕ). next (round i s) s.head_ l') (sym same)
              ∙ round_here i s
          | inr there ↦
              let above : i + 1 ≤ l = ground arith in
              ap (λ (h' : ℕ). next (clear_loop new_chars node_bytes left (i + 1) (round i s)) h' l)
                (sym (round_head i s))
              ∙ c.ends l above (omega arith)
        ];
        same = λ l h.
            ap (λ (h' : ℕ). next (clear_loop new_chars node_bytes left (i + 1) (round i s)) h' l)
              (sym (round_head i s))
            ∙ c.same l (omega arith)
            ∙ ap (λ (h' : ℕ). next (round i s) h' l) (round_head i s)
            ∙ next-round i l s (ground arith);
        heads = λ l h k. elim (Bool-cases (i == l)) [
          | inl here ↦ c.kept l (ground arith) ∙ round_prev_here i l s here
          | inr there ↦ c.heads l (ground arith) (omega arith) ∙ round_head i s
        ];
        kept = λ l h. c.kept l (omega arith) ∙ round_prev i l s (ground arith);
      }

  -- The list before the loop of the constructor, from the memory and the arena of its head.
  abbrev uncleared : K → (ℕ → Node K) → ℕ × Arena → SkipList K
  uncleared key0 nodes (head, arena) = record {
    nodes = update nodes head (record (nodes head) { key = key0 });
    arena_ = arena;
    head_ = head;
    max_height_ = 1;
    prev_ = λ i. 0;
    rnd_ = Random.make 0xdeadbeef;
  }

  cleared-IsEmpty :
      (raw : SkipList K) → raw.max_height_ ≡ 1 → IsEmpty (clear_loop new_chars node_bytes 12 0 raw)
  cleared-IsEmpty raw low =
      let c = clear_loop-Cleared 12 0 raw in
      let s = clear_loop new_chars node_bytes 12 0 raw in
      record {
        low = c.low ∙ low;
        ends = λ l h. ap (λ (h' : ℕ). next s h' l) c.head ∙ c.ends l (omega arith) (omega arith);
        heads = λ l h. c.heads l (omega arith) (omega arith) ∙ sym c.head;
      }

  make_from :
      (key0 : K) (nodes : ℕ → Node K) (arena : Arena) (r : ℕ × Arena)
      → allocate_aligned new_chars (node_bytes + pointer_size * 11) arena ≡ some r
      → make new_chars node_bytes key0 nodes arena
        ≡ some (clear_loop new_chars node_bytes 12 0 (uncleared key0 nodes r))
  unfolding make new_node
  make_from key0 nodes arena r e = ground (arith, e)

  -- On an arena that is consistent with what it has handed out, over an allocator that gives
  -- aligned and fresh blocks, and with `sizeof(Node)` from 1 to 2^63, the constructor succeeds.
  -- The list is empty: its height is 1, no level of the head leads anywhere, and every entry of
  -- `prev_` is the head. The arena is consistent, with the head handed out.
  pub make_lem :
      (law : IsAllocator new_chars) (key0 : K) (nodes : ℕ → Node K) (arena : Arena)
      (live : List Region)
      → 0 < node_bytes
      → node_bytes ≤ 2 ^ 63
      → IsConsistent arena live
      → (s : SkipList K) × (make new_chars node_bytes key0 nodes arena ≡ some s)
        × IsEmpty s
        × IsConsistent s.arena_
            (record { start = s.head_; bytes = node_bytes + pointer_size * 11 } ∷ live)
  make_lem law key0 nodes arena live pos fits consistent =
      let (r, e, ok, aligned) =
        allocate_aligned-Serves new_chars law (node_bytes + pointer_size * 11) arena live
          (omega arith) (omega arith) consistent in
      let raw = uncleared key0 nodes r in
      let c = clear_loop-Cleared 12 0 raw in
      (
        clear_loop new_chars node_bytes 12 0 raw,
        make_from key0 nodes arena r e,
        cleared-IsEmpty raw refl,
        rw (c.head, c.arena) ok,
      )

module _ {K : Type 0} (compare_ : K → K → Sign) (order : IsOrder compare_) (s : SkipList K)
    (e : IsEmpty s) where
  abbrev empty-IsSkipList : IsSkipList compare_ s
  empty-IsSkipList = record {
    chain = λ i. [];
    links = λ i h. e.ends i (omega (arith, e.low));
    ascending = λ i h. tt;
    nested = λ i h x m. m;
    positive = omega (arith, e.low);
    headless = λ i h m. m;
  }

  one_round : (key : K) → search_rounds compare_ s key order empty-IsSkipList ≤ 1
  unfolding search_rounds rounds
  one_round key = rw (e.low) (omega arith)

  -- With a comparator that is a strict order and with fuel for one round, `Contains` answers
  -- `false` to every key of an empty list.
  pub contains_nothing : (fuel : ℕ) (key : K) → 0 < fuel → contains compare_ fuel s key ≡ some false
  contains_nothing fuel key h =
      let enough : search_rounds compare_ s key order empty-IsSkipList ≤ fuel =
        omega (arith, one_round key) in
      let (b, e', iff) = contains_lem compare_ order s empty-IsSkipList key fuel enough in
      elim (Bool-cases b) [ inl yes_ ↦ absurd (iff.0 yes_) | inr no_ ↦ e' ∙ ap some no_ ]
