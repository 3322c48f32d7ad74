-- ===== src/SkipList/Layered/Finish.antt =====
-- `Insert` from the search to the store of `prev_[0]`, and the lists that it leaves on its way.
use rockscopy.Base.{ℕ, suc, ◌≤◌, ◌≡◌, refl, arith, ◌∙◌, ◌⊎◌, inl, inr, sym, ap, update}
use rockscopy.Base.{◌++◌, [], List, ◌∷◌, Option, some, Bool-cases, ◌==◌, length, ltb}
use rockscopy.Slice.{Sign}
use rockscopy.Arena.{Region}
use rockscopy.Arena.Invariant.{IsConsistent}
use rockscopy.SkipList.{
  SkipList, next, key_of, new_node, random_height, insert, insert_steps, link_steps, last_of,
  find_great_or_equal,
}
use rockscopy.SkipList.Chain.{IsOrder, Among}
use rockscopy.SkipList.Layered.Contains.{keys}
use rockscopy.SkipList.Layered.Sorted.{insert_sorted}
use rockscopy.SkipList.Layered.Frame.{IsLayered-frame, keys-frame}
use rockscopy.SkipList.Layered.Link.{IsLinkedUpTo}
use rockscopy.SkipList.Layered.Loop.{stores, run}
use rockscopy.SkipList.Layered.{IsLayered}
use rockscopy.SkipList.Layered.NewNode.{node_size}
use rockscopy.SkipList.Layered.Ready.{Holds, to_lowest, raised}
use rockscopy.SkipList.Layered.Stages.{stages, link_steps-stages}
use rockscopy.SkipList.Layered.Race.{OneMore}
use rockscopy.SkipList.Layered.Way.{Leads}

module _ {K : Type 0} (new_chars : List Region → ℕ → ℕ) (node_bytes : ℕ)
    (compare_ : K → K → Sign) where
  -- `prev_[0] = x` at the end.
  abbrev pub finished : ℕ → SkipList K → SkipList K
  finished x s = record s { prev_ = update s.prev_ 0 x }

  -- The lists that it leaves on its way.
  pub insert_steps_from :
      (fuel height : ℕ) (key : K) (s : SkipList K) (found : Option ℕ) (p : ℕ → ℕ) (x : ℕ)
      (s' : SkipList K)
      → (random_height s.rnd_).0 ≡ height
      → find_great_or_equal compare_ fuel s key (some s.prev_) ≡ some (found, some p)
      → new_node new_chars node_bytes key height (raised compare_ height p s) ≡ some (x, s')
      → insert_steps new_chars node_bytes compare_ stores fuel key s
        ≡ some (
            raised compare_ height p s
            ∷ s'
            ∷ (stages height 0 x s'
                ++ (finished x (run new_chars node_bytes compare_ height 0 x s') ∷ [])))
  unfolding insert_steps
  insert_steps_from fuel height key s found p x s' tall e e' =
      rw (insert_steps, e, tall, e')
        (ap
            (λ (h : ℕ). some (
              raised compare_ h p s
              ∷ s'
              ∷ (link_steps new_chars node_bytes compare_ stores h 0 x s'
                  ++ (finished x (run new_chars node_bytes compare_ h 0 x s') ∷ []))))
            tall
          ∙ ap
              (λ (ts : List (SkipList K)). some (
                raised compare_ height p s
                ∷ s'
                ∷ (ts ++ (finished x (run new_chars node_bytes compare_ height 0 x s') ∷ []))))
              (link_steps-stages compare_ new_chars node_bytes height 0 x s'))

  last_of-append : (s t : SkipList K) (ts : List (SkipList K)) → last_of s (ts ++ (t ∷ [])) ≡ t
  last_of-append s t [] = refl
  last_of-append s t (u ∷ ts) = last_of-append u t ts

  pub insert_from :
      (fuel height : ℕ) (key : K) (s : SkipList K) (found : Option ℕ) (p : ℕ → ℕ) (x : ℕ)
      (s' : SkipList K)
      → (random_height s.rnd_).0 ≡ height
      → find_great_or_equal compare_ fuel s key (some s.prev_) ≡ some (found, some p)
      → new_node new_chars node_bytes key height (raised compare_ height p s) ≡ some (x, s')
      → insert new_chars node_bytes compare_ stores fuel key s
        ≡ some (finished x (run new_chars node_bytes compare_ height 0 x s'))
  unfolding insert
  insert_from fuel height key s found p x s' tall e e' =
      rw (insert, insert_steps_from fuel height key s found p x s' tall e e')
        (ap some (
          last_of-append s' (finished x (run new_chars node_bytes compare_ height 0 x s'))
            (stages height 0 x s')))

  -- What an insertion does to the list and to what holds of it, with the way that it takes.
  pub record Writes (order : IsOrder compare_) (fuel : ℕ) (key : K) (s : SkipList K)
      (chain : ℕ → List ℕ) (n : ℕ) : Type 0 where
    pub list : SkipList K
    pub chain' : ℕ → List ℕ
    pub live' : List Region
    pub ts : List (SkipList K)
    pub inserted : insert new_chars node_bytes compare_ stores fuel key s ≡ some list
    pub staged : insert_steps new_chars node_bytes compare_ stores fuel key s ≡ some ts
    pub held : Holds node_bytes compare_ list chain' (suc n) live'
    pub keys_ : keys list (chain' 0) ≡ insert_sorted compare_ key (keys s (chain 0))
    pub way :
        Leads compare_ order
          (suc n)
          (OneMore compare_ order key (keys s (chain 0)))
          s
          chain
          ts
          list
          chain'

module _ {K : Type 0} (new_chars : List Region → ℕ → ℕ) (node_bytes : ℕ) (compare_ : K → K → Sign)
    (order : IsOrder compare_) where
  pub finished-IsLayered :
      (s : SkipList K) (chain : ℕ → List ℕ) (x : ℕ)
      → IsLayered compare_ s chain
      → IsLayered compare_ (finished new_chars node_bytes compare_ x s) chain
  finished-IsLayered s chain x ok =
      IsLayered-frame compare_ s (finished new_chars node_bytes compare_ x s) chain refl ok.low
        ok.high (λ i z _ _. unfold next in refl) (λ z _. unfold key_of in refl) ok

  pub keys-finished :
      (s : SkipList K) (xs : List ℕ) (x : ℕ)
      → keys (finished new_chars node_bytes compare_ x s) xs ≡ keys s xs
  keys-finished s xs x =
      keys-frame compare_ s (finished new_chars node_bytes compare_ x s) xs
        (λ z _. unfold key_of in refl)

  -- A linked node is on no level from its height on.
  below_top :
      (s : SkipList K) (chain : ℕ → List ℕ) (top x : ℕ)
      → IsLinkedUpTo compare_ order (suc top) x s chain
      → (j : ℕ) → Among x (chain j)
      → j ≤ top
  below_top s chain top x up j m = elim (Bool-cases (ltb top j)) [
    | inl over ↦ absurd (up.above j (ground arith) m)
    | inr under ↦ ground arith
  ]

  -- The search array ends with the new node.
  pub finished-Holds :
      (s s' : SkipList K) (chain chain' : ℕ → List ℕ) (n top x : ℕ) (live : List Region)
      → Holds node_bytes compare_ s chain n live
      → s'.head_ ≡ s.head_
      → IsLinkedUpTo compare_ order (suc top) x s' chain'
      → ((j z : ℕ) → Among z (chain' j) → (z ≡ x) ⊎ Among z (chain j))
      → ((j : ℕ) → length (chain' j) ≤ suc (length (chain j)))
      → IsConsistent s'.arena_ (record { start = x; bytes = node_size node_bytes (suc top) } ∷ live)
      → Holds node_bytes compare_
          (finished new_chars node_bytes compare_ x s')
          chain'
          (suc n)
          (record { start = x; bytes = node_size node_bytes (suc top) } ∷ live)
  finished-Holds s s' chain chain' n top x live held head up members longer consistent =
      let on_lowest : Among x (chain' 0) =
        to_lowest compare_ s' chain' up.ok top x (up.below top refl) in
      record {
        ok = finished-IsLayered s' chain' x up.ok;
        prev = λ i lt. elim (Bool-cases (0 == i)) [
          | inl here ↦ let e : 0 ≡ i = ground arith in inr (rw (← e) on_lowest)
          | inr there ↦ rw there (up.prev i lt)
        ];
        short = λ j. omega (arith, longer j, held.short j);
        arena = consistent;
        head_owned = inr (rw head held.head_owned);
        owned = λ j z m. elim (members j z m) [
          | inl e ↦
              let low : j ≤ top = below_top s' chain' top x up j (rw e at m) in
              inl (sym e, omega arith)
          | inr k ↦ inr (held.owned j z k)
        ];
      }
