-- ===== src/SkipList/Layered/Ready.antt =====
-- What every insertion keeps, and the list when the node is allocated and not yet linked.
use rockscopy.Base.{ℕ, zero, suc, ◌-◌, ◌≤◌, ◌≡◌, refl, arith, inl, inr, sym, ◌∙◌}
use rockscopy.Base.{List, Bool-cases, ltb, if◌then◌else◌}
use rockscopy.Slice.{Sign}
use rockscopy.Arena.{Region, Arena}
use rockscopy.Arena.Invariant.{IsConsistent}
use rockscopy.SkipList.{SkipList, next, key_of, max_height, raise_loop, random_height}
use rockscopy.SkipList.Chain.{IsOrder, Among, last_lt}
use rockscopy.SkipList.Layered.{IsLayered, IsPrev, IsShort}
use rockscopy.SkipList.Layered.Frame.{IsLayered-frame, last_lt-frame}
use rockscopy.SkipList.Layered.Link.{IsLinkedUpTo}
use rockscopy.SkipList.Layered.NewNode.{
  raise_loop-IsPrev, raise_loop_below, Owned, node_size, with_memory, next-with_memory,
  with_memory_key, with_memory_else,
}

module _ {K : Type 0} (node_bytes : ℕ) (compare_ : K → K → Sign) where
  -- The state that every insertion keeps: `n` bounds the nodes of a level, and `live` are the
  -- regions that the arena has handed out. Each node is in one of them, with room for the links of
  -- all the levels that it is on, and the head has room for all levels.
  pub record Holds (s : SkipList K) (chain : ℕ → List ℕ) (n : ℕ) (live : List Region) : Type 0 where
    pub ok : IsLayered compare_ s chain
    pub prev : IsPrev s.head_ chain s.prev_
    pub short : IsShort n chain
    pub arena : IsConsistent s.arena_ live
    pub head_owned : Owned (node_size node_bytes max_height) live s.head_
    pub owned : (j z : ℕ) → Among z (chain j) → Owned (node_size node_bytes (suc j)) live z

module _ {K : Type 0} (compare_ : K → K → Sign) where
  pub to_lowest :
      (s : SkipList K) (chain : ℕ → List ℕ)
      → IsLayered compare_ s chain
      → (j z : ℕ) → Among z (chain j)
      → Among z (chain 0)
  to_lowest s chain ok zero z m = m
  to_lowest s chain ok (suc j) z m = to_lowest s chain ok j z (ok.nested j z m)

  -- `prev_` and `max_height_` for a node of this height.
  abbrev pub raised : ℕ → (ℕ → ℕ) → SkipList K → SkipList K
  raised height p s = record s {
    prev_ =
        if ltb s.max_height_ height
        then raise_loop (height - s.max_height_) s.max_height_ s.head_ p
        else p;
    max_height_ = if ltb s.max_height_ height then height else s.max_height_;
    rnd_ = (random_height s.rnd_).1;
  }

module _ {K : Type 0} (node_bytes : ℕ) (compare_ : K → K → Sign) where
  module _ (s : SkipList K) (chain : ℕ → List ℕ) (n : ℕ) (live : List Region)
      (held : Holds node_bytes compare_ s chain n live) (height : ℕ) (low : 1 ≤ height)
      (high : height ≤ max_height) (p : ℕ → ℕ) (valid : IsPrev s.head_ chain p) where
    raised-IsPrev : IsPrev s.head_ chain (raised compare_ height p s).prev_
    raised-IsPrev = elim (Bool-cases (ltb s.max_height_ height)) [
      | inl taller ↦
          rw taller (raise_loop-IsPrev chain (height - s.max_height_) s.max_height_ s.head_ p valid)
      | inr not_taller ↦ rw not_taller valid
    ]

    raised_lowest : (raised compare_ height p s).prev_ 0 ≡ p 0
    raised_lowest = elim (Bool-cases (ltb s.max_height_ height)) [
      | inl taller ↦ rw taller (
          raise_loop_below (height - s.max_height_) s.max_height_ s.head_ 0 p
            (omega (arith, held.ok.low)))
      | inr not_taller ↦ rw not_taller refl
    ]

    raised_low : 1 ≤ (raised compare_ height p s).max_height_
    raised_low = ground (arith, held.ok.low)

    raised_high : (raised compare_ height p s).max_height_ ≤ max_height
    raised_high = ground (arith, held.ok.high)

    pub raised-IsLayered : IsLayered compare_ (raised compare_ height p s) chain
    raised-IsLayered =
        IsLayered-frame compare_ s (raised compare_ height p s) chain refl raised_low raised_high
          (λ i z _ _. unfold next in refl) (λ z _. unfold key_of in refl) held.ok

    module _ (order : IsOrder compare_) (key : K)
        (is_last : p 0 ≡ last_lt compare_ s key s.head_ (chain 0)) (r : ℕ × Arena)
        (fresh : (j z : ℕ) → Owned (node_size node_bytes (suc j)) live z → ¬ (z ≡ r.0)) where
      abbrev ready : SkipList K
      ready = with_memory key r (raised compare_ height p s)

      next-ready : (z i : ℕ) → next ready z i ≡ next s z i
      unfolding next
      next-ready z i = next-with_memory key r (raised compare_ height p s) z i

      pub ready_key : (z : ℕ) → Among z (chain 0) → key_of ready z ≡ key_of s z
      unfolding key_of
      ready_key z m =
          with_memory_else key r (raised compare_ height p s) z (fresh 0 z (held.owned 0 z m))

      pub ready-IsLayered : IsLayered compare_ ready chain
      ready-IsLayered =
          IsLayered-frame compare_ s ready chain refl raised_low raised_high
            (λ i z _ _. next-ready z i) ready_key held.ok

      pub own_key : key_of ready r.0 ≡ key
      own_key = with_memory_key key r (raised compare_ height p s)

      pub ready-IsLinkedUpTo : IsLinkedUpTo compare_ order 0 r.0 ready chain
      ready-IsLinkedUpTo = record {
        ok = ready-IsLayered;
        prev = raised-IsPrev;
        away = fresh 11 s.head_ held.head_owned;
        above = λ j _ m. fresh j r.0 (held.owned j r.0 m) refl;
        below = λ j e. absurd (omega arith);
        lowest = λ _. rw own_key (
            last_lt-frame compare_ s ready key s.head_ (chain 0) ready_key
            ∙ sym is_last
            ∙ sym raised_lowest);
      }
