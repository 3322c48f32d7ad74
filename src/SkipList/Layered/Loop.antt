-- ===== src/SkipList/Layered/Loop.antt =====
-- All rounds of the loop that links the new node, with a store in the place of line 124.
use rockscopy.Base.{ℕ, suc, ◌+◌, ◌≤◌, ◌<◌, ◌≡◌, refl, arith, ◌⊎◌, inl, inr, ◌∙◌, ap}
use rockscopy.Base.{List, Option, false, Bool-cases, ◌==◌, length}
use rockscopy.Slice.{Sign}
use rockscopy.Arena.{Region}
use rockscopy.SkipList.{SkipList, set_next, max_height, link_loop, link_steps}
use rockscopy.SkipList.Chain.{IsOrder, Among}
use rockscopy.SkipList.Layered.Contains.{keys}
use rockscopy.SkipList.Layered.Splice.{length-put_after, linked}
use rockscopy.SkipList.Layered.Link.{
  IsLinkedUpTo, with_node, after, keys-after, after-members, chain_there,
}

-- What line 124 of skiplist.h means: the new node's link is set.
abbrev pub stores : {K : Type 0} → ℕ → ℕ → Option ℕ → SkipList K → SkipList K
stores x i y s = set_next x i y s

module _ {K : Type 0} (new_chars : List Region → ℕ → ℕ) (node_bytes : ℕ)
    (compare_ : K → K → Sign) where
  abbrev pub run : ℕ → ℕ → ℕ → SkipList K → SkipList K
  run left i x s = link_loop new_chars node_bytes compare_ stores left i x s

  pub run_step :
      (left i x : ℕ) (s : SkipList K) → run (suc left) i x s ≡ run left (i + 1) x (after i x s)
  unfolding link_loop link_steps linked
  run_step left i x s = refl

module _ {K : Type 0} (new_chars : List Region → ℕ → ℕ) (node_bytes : ℕ) (compare_ : K → K → Sign)
    (order : IsOrder compare_) where
  pub zero_right : (i : ℕ) → i + 0 ≡ i
  zero_right i = omega arith

  pub suc_right : (i left : ℕ) → i + suc left ≡ i + 1 + left
  suc_right i left = omega arith

  -- What the rounds of the levels from `start` to below `stop` leave behind.
  pub record HasLinked (start stop x : ℕ) (s s' : SkipList K) (chain chain' : ℕ → List ℕ)
      : Type 0 where
    pub upto : IsLinkedUpTo compare_ order stop x s' chain'
    pub head : s'.head_ ≡ s.head_
    pub arena : s'.arena_ ≡ s.arena_
    pub members : (j z : ℕ) → Among z (chain' j) → (z ≡ x) ⊎ Among z (chain j)
    pub longer : (j : ℕ) → length (chain' j) ≤ suc (length (chain j))
    pub kept : (j : ℕ) → j < start → chain' j ≡ chain j
    pub later : 0 < start → keys s' (chain' 0) ≡ keys s (chain 0)

  after_parts :
      (i x : ℕ) (s : SkipList K)
      → ((after i x s).head_ ≡ s.head_) × ((after i x s).arena_ ≡ s.arena_)
  unfolding linked set_next
  after_parts i x s = (refl, refl)

  module _ (start stop x : ℕ) (s s' : SkipList K) (chain chain' : ℕ → List ℕ)
      (h : IsLinkedUpTo compare_ order start x s chain) (lt : start < max_height)
      (d : HasLinked
        (start + 1)
        stop
        x
        (after start x s)
        s'
        (with_node start x s chain)
        chain') where
    abbrev chain1 : ℕ → List ℕ
    chain1 = with_node start x s chain

    step_longer : (j : ℕ) → length (chain' j) ≤ suc (length (chain j))
    step_longer j = elim (Bool-cases (start == j)) [
      | inl here ↦
          let e : start ≡ j = ground arith in
          let same_ : chain' j ≡ chain1 j = d.kept j (omega arith) in
          rw same_ (rw here (rw e (length-put_after s.head_ (s.prev_ j) x (chain j))))
      | inr there ↦
          omega
            (arith, d.longer j, ap length (chain_there compare_ order start x s chain h lt j there))
    ]

    pub step-HasLinked : HasLinked start stop x s s' chain chain'
    step-HasLinked = record {
      upto = d.upto;
      head = d.head ∙ (after_parts start x s).0;
      arena = d.arena ∙ (after_parts start x s).1;
      members = λ j z m. elim (d.members j z m) [
        | inl e ↦ inl e
        | inr k ↦ after-members compare_ order start x s chain h lt j z k
      ];
      longer = step_longer;
      kept = λ j below.
          d.kept j (omega arith) ∙ chain_there compare_ order start x s chain h lt j (ground arith);
      later = λ pos.
          d.later (omega arith)
          ∙ keys-after compare_ order start x s chain h lt
          ∙ (let e : (start == 0) ≡ false = ground arith in rw e refl);
    }
