-- ===== src/SkipList/Layered/Link.antt =====
-- The loop of `Insert` that links the new node, level by level.
use rockscopy.Base.{ℕ, suc, ◌+◌, ◌≤◌, ◌<◌, ◌≡◌, refl, arith, ◌⊎◌, inl, inr, sym, ◌∙◌, update}
use rockscopy.Base.{List, false, Bool-cases, ◌==◌, if◌then◌else◌}
use rockscopy.Slice.{Sign}
use rockscopy.SkipList.{SkipList, next, set_next, key_of, max_height}
use rockscopy.SkipList.Chain.{IsOrder, Among, Links, Ascending, last_lt}
use rockscopy.SkipList.Layered.{IsLayered, IsPrev}
use rockscopy.SkipList.Layered.Contains.{keys}
use rockscopy.SkipList.Layered.Splice.{
  put_after, put_after-members, put_after-keeps, put_after-adds,
}
use rockscopy.SkipList.Layered.Splice.{
  linked, linked_level, linked_key, Links-linked, Links-frame, Among-move,
}
use rockscopy.SkipList.Layered.Sorted.{insert_sorted, put_after-Sorted}
use rockscopy.SkipList.Layered.Frame.{Ascending-frame, keys-frame, IsLayered-frame}

module _ {K : Type 0} where
  -- The chains with `x` on level `i`.
  abbrev pub with_node : ℕ → ℕ → SkipList K → (ℕ → List ℕ) → ℕ → List ℕ
  with_node i x s chain = update chain i (put_after s.head_ (s.prev_ i) x (chain i))

  -- The list after the first of the two stores of a round, and after both.
  abbrev pub between : ℕ → ℕ → SkipList K → SkipList K
  between i x s = set_next x i (next s (s.prev_ i) i) s

  abbrev pub after : ℕ → ℕ → SkipList K → SkipList K
  after i x s = linked i (s.prev_ i) x s

module _ {K : Type 0} (compare_ : K → K → Sign) (order : IsOrder compare_) where
  -- The node `x` is on the levels under `i`, and on no other.
  pub record IsLinkedUpTo (i x : ℕ) (s : SkipList K) (chain : ℕ → List ℕ) : Type 0 where
    pub ok : IsLayered compare_ s chain
    pub prev : IsPrev s.head_ chain s.prev_
    pub away : ¬ (s.head_ ≡ x)
    pub above : (j : ℕ) → i ≤ j → ¬ Among x (chain j)
    pub below : (j : ℕ) → suc j ≡ i → Among x (chain j)
    pub lowest : i ≡ 0 → last_lt compare_ s (key_of s x) s.head_ (chain 0) ≡ s.prev_ 0

  module _ (i x : ℕ) (s : SkipList K) (chain : ℕ → List ℕ) (h : IsLinkedUpTo i x s chain)
      (lt : i < max_height) where
    between-else :
        (j z : ℕ) → (z ≡ s.head_) ⊎ Among z (chain j) → next (between i x s) z j ≡ next s z j
    unfolding next set_next
    between-else j z m = elim (Bool-cases (x == z)) [
      | inr other ↦ ground arith
      | inl node ↦ elim (Bool-cases (i == j)) [
        | inr there ↦ ground arith
        | inl here ↦ elim m [
          | inl e ↦ absurd (h.away (ground arith))
          | inr k ↦ absurd (h.above j (ground arith) (Among-move x z (chain j) (ground arith) k))
        ]
      ]
    ]

    pub between_key : (z : ℕ) → key_of (between i x s) z ≡ key_of s z
    unfolding key_of set_next
    between_key z = ground arith

    between_parts :
        ((between i x s).head_ ≡ s.head_) × ((between i x s).max_height_ ≡ s.max_height_)
    unfolding set_next
    between_parts = (refl, refl)

    after_parts :
        ((after i x s).head_ ≡ s.head_)
        × ((after i x s).max_height_ ≡ s.max_height_)
        × ((after i x s).prev_ ≡ s.prev_)
    unfolding linked set_next
    after_parts = (refl, refl, refl)

    -- Between the two stores, the list is as it was.
    pub between-IsLayered : IsLayered compare_ (between i x s) chain
    between-IsLayered =
        IsLayered-frame compare_ s (between i x s) chain (between_parts.0)
          (omega (arith, h.ok.low, between_parts.1)) (omega (arith, h.ok.high, between_parts.1))
          (λ j z _ m. between-else j z m) (λ z _. between_key z) h.ok

    apart : (s.prev_ i == x) ≡ false
    apart = elim (Bool-cases (s.prev_ i == x)) [
      | inr e ↦ e
      | inl e ↦ elim (h.prev i lt) [
        | inl at_head ↦ absurd (h.away (ground arith))
        | inr m ↦
            absurd (h.above i (omega arith) (Among-move x (s.prev_ i) (chain i) (ground arith) m))
      ]
    ]

    chain_here : with_node i x s chain i ≡ put_after s.head_ (s.prev_ i) x (chain i)
    chain_here = ground arith

    pub chain_there : (j : ℕ) → (i == j) ≡ false → with_node i x s chain j ≡ chain j
    chain_there j e = ground arith

    after-Links :
        (j : ℕ) → j < max_height → Links compare_ (after i x s) j s.head_ (with_node i x s chain j)
    after-Links j ltj = elim (Bool-cases (i == j)) [
      | inl here ↦
          rw (← (let e : i ≡ j = ground arith in e), chain_here)
            (Links-linked compare_ s i (s.prev_ i) x apart s.head_ (chain i) (h.ok.links i lt)
              h.away (h.above i (omega arith)) (h.prev i lt))
      | inr there ↦ rw (chain_there j there) (
          Links-frame compare_ s (after i x s) j s.head_ (chain j)
            (λ z _. linked_level compare_ s i (s.prev_ i) x apart z j there) (h.ok.links j ltj))
    ]

    -- Behind the last smaller node, the lowest level stays in order.
    lowest-Sorted :
        i ≡ 0
        → Ascending compare_ s (put_after s.head_ (s.prev_ 0) x (chain 0))
          × (keys s (put_after s.head_ (s.prev_ 0) x (chain 0))
              ≡ insert_sorted compare_ (key_of s x) (keys s (chain 0)))
    lowest-Sorted e =
        put_after-Sorted compare_ order s x s.head_ (s.prev_ 0) 0 (chain 0)
          (h.ok.links 0 (omega arith)) (h.lowest e) h.ok.ascending

    pub after_key : (z : ℕ) → key_of (after i x s) z ≡ key_of s z
    after_key z = linked_key compare_ s i (s.prev_ i) x apart z

    after-Ascending : Ascending compare_ (after i x s) (with_node i x s chain 0)
    after-Ascending =
        Ascending-frame compare_ s (after i x s) (with_node i x s chain 0) (λ z _. after_key z)
          (elim (Bool-cases (i == 0)) [
            | inl here ↦ let e : i ≡ 0 = ground arith in rw (here, e) (lowest-Sorted e).0
            | inr there ↦ rw (chain_there 0 there) h.ok.ascending
          ])

    -- The keys of the lowest level, which the round of level 0 changes.
    pub keys-after : keys (after i x s) (with_node i x s chain 0) ≡ (
        if i == 0 then insert_sorted compare_ (key_of s x) (keys s (chain 0)) else keys s (chain 0))
    keys-after =
        keys-frame compare_ s (after i x s) (with_node i x s chain 0) (λ z _. after_key z)
        ∙ elim (Bool-cases (i == 0)) [
          | inl here ↦ let e : i ≡ 0 = ground arith in rw (here, e) (lowest-Sorted e).1
          | inr there ↦ rw there refl
        ]

    after-nested :
        (j z : ℕ) → Among z (with_node i x s chain (suc j)) → Among z (with_node i x s chain j)
    after-nested j z m = elim (Bool-cases (i == j)) [
      | inl here ↦
          let m' : Among z (chain (suc j)) = rw (chain_there (suc j) (ground arith)) at m in
          let e : i ≡ j = ground arith in
          rw (← e, chain_here)
            (put_after-keeps s.head_ (s.prev_ i) x (chain i) z (rw e (h.ok.nested j z m')))
      | inr there ↦ rw (chain_there j there) (elim (Bool-cases (i == suc j)) [
        | inr other ↦ h.ok.nested j z (rw (chain_there (suc j) other) at m)
        | inl top ↦
            let e : i ≡ suc j = ground arith in
            let m' : Among z (put_after s.head_ (s.prev_ i) x (chain i)) =
              rw (← e, chain_here) at m in
            elim (put_after-members s.head_ (s.prev_ i) x (chain i) z m') [
              | inl k ↦ Among-move z x (chain j) k (h.below j (sym e))
              | inr k ↦ h.ok.nested j z (rw e at k)
            ]
      ])
    ]

    pub after-members : (j z : ℕ) → Among z (with_node i x s chain j) → (z ≡ x) ⊎ Among z (chain j)
    after-members j z m = elim (Bool-cases (i == j)) [
      | inl here ↦
          let e : i ≡ j = ground arith in
          let m' : Among z (put_after s.head_ (s.prev_ i) x (chain i)) =
            rw (← e, chain_here) at m in
          elim (put_after-members s.head_ (s.prev_ i) x (chain i) z m') [
            | inl k ↦ inl k
            | inr k ↦ inr (rw e at k)
          ]
      | inr there ↦ inr (rw (chain_there j there) at m)
    ]

    pub after-keeps : (j z : ℕ) → Among z (chain j) → Among z (with_node i x s chain j)
    after-keeps j z m = elim (Bool-cases (i == j)) [
      | inl here ↦
          let e : i ≡ j = ground arith in
          rw (← e, chain_here) (put_after-keeps s.head_ (s.prev_ i) x (chain i) z (rw e m))
      | inr there ↦ rw (chain_there j there) m
    ]

    -- After the second, `x` is on one more level.
    pub after-IsLinkedUpTo : IsLinkedUpTo (i + 1) x (after i x s) (with_node i x s chain)
    unfolding linked set_next
    after-IsLinkedUpTo =
        let (head, low, prev) = after_parts in
        record {
          ok = record {
            links = λ j ltj. rw head (after-Links j ltj);
            ascending = after-Ascending;
            nested = after-nested;
            headless = λ m. elim (after-members 0 s.head_ (rw head at m)) [
              | inl e ↦ h.away e
              | inr k ↦ h.ok.headless k
            ];
            low = omega (arith, low, h.ok.low);
            high = omega (arith, low, h.ok.high);
          };
          prev = λ j ltj. elim (h.prev j ltj) [
            | inl e ↦ inl (rw (prev, head) e)
            | inr m ↦ inr (rw prev (after-keeps j (s.prev_ j) m))
          ];
          away = rw head h.away;
          above = λ j le m. h.above j (omega arith) (rw (chain_there j (ground arith)) at m);
          below = λ j e.
              let e' : i ≡ j = omega arith in
              rw (← e', chain_here) (put_after-adds s.head_ (s.prev_ i) x (chain i) (h.prev i lt));
          lowest = λ e. absurd (omega arith);
        }
