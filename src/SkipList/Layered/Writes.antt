-- ===== src/SkipList/Layered/Writes.antt =====
-- `Insert`, with a store in the place of line 124, and the way that it takes.
use rockscopy.Base.{◌+◌, ℕ, zero, suc, ◌^◌, ◌≤◌, ◌<◌, ◌≡◌, refl, arith, inl, inr, ◌∙◌}
use rockscopy.Base.{◌++◌, [], List, ◌∷◌, Option, some}
use rockscopy.Slice.{Sign}
use rockscopy.Arena.{Region, Arena}
use rockscopy.Arena.Regions.{IsAllocator}
use rockscopy.Arena.Invariant.{IsConsistent}
use rockscopy.SkipList.{SkipList, key_of, max_height, new_node, random_height, find_great_or_equal}
use rockscopy.SkipList.Chain.{IsOrder, Among, last_lt}
use rockscopy.SkipList.Heights.{random_height_bounds}
use rockscopy.SkipList.Layered.Find.{first}
use rockscopy.SkipList.Layered.Rounds.{enough}
use rockscopy.SkipList.Layered.Contains.{keys, find_some, Finds}
use rockscopy.SkipList.Layered.Sorted.{insert_sorted}
use rockscopy.SkipList.Layered.Frame.{keys-frame}
use rockscopy.SkipList.Layered.Link.{IsLinkedUpTo}
use rockscopy.SkipList.Layered.Loop.{run}
use rockscopy.SkipList.Layered.NewNode.{Owned, Owned-Apart, node_size, with_memory, new_node_lem}
use rockscopy.SkipList.Layered.{IsPrev}
use rockscopy.SkipList.Layered.Ready.{
  Holds, raised, raised-IsLayered, ready-IsLinkedUpTo, own_key, ready_key,
}
use rockscopy.SkipList.Layered.Places.{Within-refl}
use rockscopy.SkipList.Layered.Stages.{stages, IsGrowing}
use rockscopy.SkipList.Layered.Reader.{Grows}
use rockscopy.SkipList.Layered.Race.{OneMore}
use rockscopy.SkipList.Layered.Way.{Leads, Leads-append, HasRun, run_lem}
use rockscopy.SkipList.Layered.Finish.{
  finished, insert_from, insert_steps_from, Writes, finished-IsLayered, keys-finished,
  finished-Holds,
}

module _ {K : Type 0} (new_chars : List Region → ℕ → ℕ) (law : IsAllocator new_chars)
    (node_bytes : ℕ) (pos : 0 < node_bytes) (fits : node_bytes ≤ 2 ^ 63) (compare_ : K → K → Sign)
    (order : IsOrder compare_) where
  module _ (fuel n top : ℕ) (key : K) (s : SkipList K) (chain : ℕ → List ℕ) (live : List Region)
      (held : Holds node_bytes compare_ s chain n live) (high : suc top ≤ max_height) (p : ℕ → ℕ)
      (valid : IsPrev s.head_ chain p) (is_last : p 0 ≡ last_lt compare_ s key s.head_ (chain 0))
      (r : ℕ × Arena)
      (fresh : (j z : ℕ) → Owned (node_size node_bytes (suc j)) live z → ¬ (z ≡ r.0)) where
    low : 1 ≤ suc top
    low = omega arith

    abbrev s1 : SkipList K
    s1 = with_memory key r (raised compare_ (suc top) p s)

    up : IsLinkedUpTo compare_ order 0 r.0 s1 chain
    up =
        ready-IsLinkedUpTo node_bytes compare_ s chain n live held (suc top) low high p valid order
          key is_last r fresh

    own : key_of s1 r.0 ≡ key
    own =
        own_key node_bytes compare_ s chain n live held (suc top) low high p valid order key is_last
          r fresh

    same_keys_ : (z : ℕ) → Among z (chain 0) → key_of s1 z ≡ key_of s z
    same_keys_ =
        ready_key node_bytes compare_ s chain n live held (suc top) low high p valid order key
          is_last r fresh

    start : IsGrowing compare_ order n 0 key (keys s (chain 0)) r.0 s1 chain
    start = record {
      upto = up;
      own = own;
      now = inl (refl, keys-frame compare_ s s1 (chain 0) same_keys_);
      short = λ j. omega (arith, held.short j);
      slack = λ j _. held.short j;
    }

    ran :
        HasRun compare_ order new_chars node_bytes n (suc top) 0 key (keys s (chain 0)) r.0 s1 chain
    ran =
        run_lem compare_ order new_chars node_bytes n (suc top) 0 key (keys s (chain 0)) r.0 s1
          chain start (omega arith)

    abbrev s2 : SkipList K
    s2 = run new_chars node_bytes compare_ (suc top) 0 r.0 s1

    reached : 0 + suc top ≡ suc top
    reached = omega arith

    run_keys : keys s2 (ran.chain' 0) ≡ insert_sorted compare_ key (keys s (chain 0))
    run_keys = elim ran.growing.now [ inl (e, _) ↦ absurd (ground arith) | inr (_, e) ↦ e ]

    abbrev AnyMore : List K → Type 0
    AnyMore = OneMore compare_ order key (keys s (chain 0))

    raised-Grows :
        Grows compare_ order (suc n) AnyMore s chain (raised compare_ (suc top) p s) chain
    raised-Grows = record {
      ok = raised-IsLayered node_bytes compare_ s chain n live held (suc top) low high p valid;
      short = λ j. omega (arith, held.short j);
      head = refl;
      more = λ j z m. m;
      between = λ j. Within-refl (chain j);
      same_keys = λ z m. unfold key_of in refl;
      good = inl (
          keys-frame compare_ s (raised compare_ (suc top) p s) (chain 0)
            (λ z _. unfold key_of in refl));
    }

    ready-Grows :
        Grows compare_ order (suc n) AnyMore (raised compare_ (suc top) p s) chain s1 chain
    ready-Grows = record {
      ok = up.ok;
      short = λ j. omega (arith, held.short j);
      head = refl;
      more = λ j z m. m;
      between = λ j. Within-refl (chain j);
      same_keys = λ z m. same_keys_ z m ∙ (unfold key_of in refl);
      good = inl (keys-frame compare_ s s1 (chain 0) same_keys_);
    }

    finished-Grows :
        Grows compare_ order
          (suc n)
          AnyMore
          s2
          ran.chain'
          (finished new_chars node_bytes compare_ r.0 s2)
          ran.chain'
    finished-Grows = record {
      ok =
          finished-IsLayered new_chars node_bytes compare_ order s2 ran.chain' r.0
            ran.has_linked.upto.ok;
      short = ran.growing.short;
      head = refl;
      more = λ j z m. m;
      between = λ j. Within-refl (ran.chain' j);
      same_keys = λ z m. unfold key_of in refl;
      good =
          inr (keys-finished new_chars node_bytes compare_ order s2 (ran.chain' 0) r.0 ∙ run_keys);
    }

    way_all :
        Leads compare_ order
          (suc n)
          AnyMore
          s
          chain
          (raised compare_ (suc top) p s
            ∷ s1
            ∷ (stages (suc top) 0 r.0 s1 ++ (finished new_chars node_bytes compare_ r.0 s2 ∷ [])))
          (finished new_chars node_bytes compare_ r.0 s2)
          ran.chain'
    way_all = (
      chain,
      raised-Grows,
      (
        chain,
        ready-Grows,
        Leads-append compare_ order (suc n) AnyMore s1 s2
            (finished new_chars node_bytes compare_ r.0 s2) chain ran.chain' ran.chain'
            (stages (suc top) 0 r.0 s1) (finished new_chars node_bytes compare_ r.0 s2 ∷ [])
            ran.path (ran.chain', finished-Grows, (refl, refl)),
      ),
    )

    pub found-Writes :
        (found : Option ℕ)
        → find_great_or_equal compare_ fuel s key (some s.prev_) ≡ some (found, some p)
        → (random_height s.rnd_).0 ≡ suc top
        → new_node new_chars node_bytes key (suc top) (raised compare_ (suc top) p s)
          ≡ some (r.0, s1)
        → IsConsistent r.1 (record { start = r.0; bytes = node_size node_bytes (suc top) } ∷ live)
        → Writes new_chars node_bytes compare_ order fuel key s chain n
    found-Writes found e tall is_new consistent = record {
      list = finished new_chars node_bytes compare_ r.0 s2;
      chain' = ran.chain';
      live' = record { start = r.0; bytes = node_size node_bytes (suc top) } ∷ live;
      ts =
          raised compare_ (suc top) p s
          ∷ s1
          ∷ (stages (suc top) 0 r.0 s1 ++ (finished new_chars node_bytes compare_ r.0 s2 ∷ []));
      inserted =
          insert_from new_chars node_bytes compare_ fuel (suc top) key s found p r.0 s1 tall e
            is_new;
      staged =
          insert_steps_from new_chars node_bytes compare_ fuel (suc top) key s found p r.0 s1 tall e
            is_new;
      held =
          finished-Holds new_chars node_bytes compare_ order s s2 chain ran.chain' n top r.0 live
            held ran.has_linked.head (rw reached at ran.has_linked.upto) ran.has_linked.members
            ran.has_linked.longer (rw (ran.has_linked.arena) consistent);
      keys_ = keys-finished new_chars node_bytes compare_ order s2 (ran.chain' 0) r.0 ∙ run_keys;
      way = way_all;
    }

  insert_height :
      (fuel n top : ℕ) (key : K) (s : SkipList K) (chain : ℕ → List ℕ) (live : List Region)
      (held : Holds node_bytes compare_ s chain n live)
      → Finds compare_ order s chain held.ok key fuel s.prev_
      → (random_height s.rnd_).0 ≡ suc top
      → suc top ≤ max_height
      → Writes new_chars node_bytes compare_ order fuel key s chain n
  insert_height fuel n top key s chain live held (p, e, valid, is_last) tall high =
      let (r, is_new, consistent) =
        new_node_lem new_chars node_bytes law key (suc top) (raised compare_ (suc top) p s) live pos
          fits high held.arena in
      let some_ : 0 < node_size node_bytes (suc top) = omega arith in
      found-Writes fuel n top key s chain live held high p valid is_last r
        (λ j z o.
          Owned-Apart (node_size node_bytes (suc j)) live
            (record { start = r.0; bytes = node_size node_bytes (suc top) }) z (omega arith)
            consistent.apart.0 some_ o)
        (first compare_ order s chain held.ok key) e tall is_new consistent

  pub insert-Writes :
      (fuel n : ℕ) (key : K) (s : SkipList K) (chain : ℕ → List ℕ) (live : List Region)
      → Holds node_bytes compare_ s chain n live
      → enough n ≤ fuel
      → Writes new_chars node_bytes compare_ order fuel key s chain n
  insert-Writes fuel n key s chain live held fuel_enough =
      let (low, high) = random_height_bounds s.rnd_ in
      let finds =
        find_some compare_ order s chain held.ok key n fuel s.prev_ held.short fuel_enough
          held.prev in
      go (random_height s.rnd_).0 refl low high finds
    where
      go :
          (height : ℕ)
          → (random_height s.rnd_).0 ≡ height
          → 1 ≤ height
          → height ≤ max_height
          → Finds compare_ order s chain held.ok key fuel s.prev_
          → Writes new_chars node_bytes compare_ order fuel key s chain n
      go zero tall low high finds = absurd (omega arith)
      go (suc top) tall low high finds =
          insert_height fuel n top key s chain live held finds tall high
