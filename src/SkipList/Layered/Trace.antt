-- ===== src/SkipList/Layered/Trace.antt =====
-- Insertions one after another into the list that the constructor makes, and lookups after them.
use rockscopy.Base.{ℕ, suc, ◌+◌, ◌*◌, ◌^◌, ◌≤◌, ◌<◌, ◌≡◌, refl, arith, ◌⊎◌, inl, inr, ◌∙◌, ap}
use rockscopy.Base.{List, [], ◌∷◌, Option, none, some, Bool, true, length, ◌↔◌}
use rockscopy.Slice.{Sign}
use rockscopy.Arena.{Region, Arena, pointer_size}
use rockscopy.Arena.Regions.{IsAllocator}
use rockscopy.Arena.Invariant.{IsConsistent}
use rockscopy.SkipList.{SkipList, Node, max_height, insert, contains, make}
use rockscopy.SkipList.Chain.{IsOrder}
use rockscopy.SkipList.Empty.{IsEmpty, make_lem}
use rockscopy.SkipList.Layered.Rounds.{enough}
use rockscopy.SkipList.Layered.Contains.{keys, Has, contains-Has}
use rockscopy.SkipList.Layered.Sorted.{insert_sorted, Has-insert_sorted}
use rockscopy.SkipList.Layered.Loop.{stores}
use rockscopy.SkipList.Layered.NewNode.{Owned, node_size}
use rockscopy.SkipList.Layered.Insert.{insert_lem}
use rockscopy.SkipList.Layered.Ready.{Holds}

abbrev pub no_nodes : ℕ → List ℕ
no_nodes i = []

zero_left : (a : ℕ) → 0 + a ≡ a
zero_left a = omega arith

suc_right : (a b : ℕ) → suc a + b ≡ a + suc b
suc_right a b = omega arith

module _ {K : Type 0} (node_bytes : ℕ) (compare_ : K → K → Sign) where
  pub empty-Holds :
      (s : SkipList K) (live : List Region)
      → IsEmpty s
      → IsConsistent s.arena_ live
      → Owned (node_size node_bytes max_height) live s.head_
      → Holds node_bytes compare_ s no_nodes 0 live
  empty-Holds s live e consistent o = record {
    ok = record {
      links = λ i lt. e.ends i lt;
      ascending = tt;
      nested = λ i z m. m;
      headless = λ m. m;
      low = omega (arith, e.low);
      high = omega (arith, e.low);
    };
    prev = λ i lt. inl (e.heads i lt);
    short = λ i. omega arith;
    arena = consistent;
    head_owned = o;
    owned = λ j z m. absurd m;
  }

module _ {K : Type 0} (compare_ : K → K → Sign) where
  -- The keys of the list after some more were inserted, in this order.
  abbrev pub sorted_with : List K → List K → List K
  sorted_with [] ks = ks
  sorted_with (key ∷ more) ks = sorted_with more (insert_sorted compare_ key ks)

  pub Has-sorted_with :
      (q : K) (more ks : List K) → Has q (sorted_with more ks) ↔ (Has q more ⊎ Has q ks)
  Has-sorted_with q [] ks = (λ h. inr h, λ h. elim h [ inl m ↦ absurd m | inr n ↦ n ])
  Has-sorted_with q (key ∷ more) ks =
      let (there, back) = Has-sorted_with q more (insert_sorted compare_ key ks) in
      let (into, out) = Has-insert_sorted compare_ q key ks in
      (
        λ h. elim (there h) [
          | inl m ↦ inl (inr m)
          | inr m ↦ elim (into m) [ inl e ↦ inl (inl e) | inr n ↦ inr n ]
        ],
        λ h. elim h [
          | inl m ↦ elim m [ inl e ↦ back (inr (out (inl e))) | inr n ↦ back (inl n) ]
          | inr m ↦ back (inr (out (inr m)))
        ],
      )

module _ {K : Type 0} (new_chars : List Region → ℕ → ℕ) (node_bytes : ℕ)
    (compare_ : K → K → Sign) where
  -- Insertions one after another.
  abbrev pub insert_all : ℕ → List K → SkipList K → Option (SkipList K)
  insert_all fuel [] s = some s
  insert_all fuel (key ∷ more) s = elim (insert new_chars node_bytes compare_ stores fuel key s) [
    | none ↦ none
    | some s' ↦ insert_all fuel more s'
  ]

  insert_all_step :
      (fuel : ℕ) (key : K) (more : List K) (s s' : SkipList K)
      → insert new_chars node_bytes compare_ stores fuel key s ≡ some s'
      → insert_all fuel (key ∷ more) s ≡ insert_all fuel more s'
  insert_all_step fuel key more s s' e = rw (insert_all, e) refl

module _ {K : Type 0} (new_chars : List Region → ℕ → ℕ) (law : IsAllocator new_chars)
    (node_bytes : ℕ) (pos : 0 < node_bytes) (fits : node_bytes ≤ 2 ^ 63) (compare_ : K → K → Sign)
    (order : IsOrder compare_) where
  abbrev pub HasAll : ℕ → List K → SkipList K → (ℕ → List ℕ) → ℕ → Type 0
  HasAll fuel more s chain n =
      (s' : SkipList K) × (chain' : ℕ → List ℕ) × (live' : List Region) × (insert_all new_chars
          node_bytes compare_ fuel more s
        ≡ some s')
      × Holds node_bytes compare_ s' chain' (length more + n) live'
      × (keys s' (chain' 0) ≡ sorted_with compare_ more (keys s (chain 0)))

  pub insert_all-Holds :
      (fuel : ℕ) (more : List K) (n : ℕ) (s : SkipList K) (chain : ℕ → List ℕ) (live : List Region)
      → Holds node_bytes compare_ s chain n live
      → enough (length more + n) ≤ fuel
      → HasAll fuel more s chain n
  insert_all-Holds fuel [] n s chain live held fuel_enough =
      (s, chain, live, refl, rw (zero_left n) held, refl)
  insert_all-Holds fuel (key ∷ more) n s chain live held fuel_enough =
      let (s1, chain1, live1, e, held1, keys1) =
        insert_lem new_chars law node_bytes pos fits compare_ order fuel n key s chain live held
          (omega arith) in
      let (s2, chain2, live2, e', held2, keys2) =
        insert_all-Holds fuel more (suc n) s1 chain1 live1 held1 (omega arith) in
      (
        s2,
        chain2,
        live2,
        insert_all_step new_chars node_bytes compare_ fuel key more s s1 e ∙ e',
        rw (suc_right (length more) n) held2,
        keys2 ∙ ap (sorted_with compare_ more) keys1,
      )

  -- The constructor's list.
  pub make-Holds :
      (key0 : K) (nodes : ℕ → Node K) (arena : Arena) (live : List Region)
      → IsConsistent arena live
      → (s : SkipList K) × (live' : List Region) × (make new_chars node_bytes key0 nodes arena
          ≡ some s)
        × Holds node_bytes compare_ s no_nodes 0 live'
  make-Holds key0 nodes arena live consistent =
      let (s, made, empty, ok) =
        make_lem new_chars node_bytes law key0 nodes arena live pos fits consistent in
      let head : Region = record { start = s.head_; bytes = node_bytes + pointer_size * 11 } in
      (
        s,
        head ∷ live,
        made,
        empty-Holds node_bytes compare_ s (head ∷ live) empty ok (inl (refl, omega arith)),
      )

  -- Over an allocator that gives aligned and fresh blocks, with `sizeof(Node)` from 1 to 2^63, with
  -- a comparator that is a strict order, and with line 124 read as the store of the new node's
  -- link: on an arena that is consistent with what it has handed out, the constructor succeeds, and
  -- so do insertions of any keys, one after another, repeated ones included. Then `Contains`
  -- returns for every key, and `true` exactly if the key was inserted. The searches take no more
  -- than 12 * (k + 1) rounds, for k keys.
  pub insert_all-contains :
      (key0 : K) (nodes : ℕ → Node K) (arena : Arena) (live : List Region) (more : List K)
      (fuel : ℕ)
      → IsConsistent arena live
      → enough (length more) ≤ fuel
      → (s : SkipList K) × (s' : SkipList K) × (make new_chars node_bytes key0 nodes arena ≡ some s)
        × (insert_all new_chars node_bytes compare_ fuel more s ≡ some s')
        × ((q : K)
            → (b : Bool) × (contains compare_ fuel s' q ≡ some b) × ((b ≡ true) ↔ Has q more))
  insert_all-contains key0 nodes arena live more fuel consistent fuel_enough =
      let (s, live0, made, held) = make-Holds key0 nodes arena live consistent in
      let (s', chain', live', e, held', keys_) =
        insert_all-Holds fuel more 0 s no_nodes live0 held (omega arith) in
      (
        s,
        s',
        made,
        e,
        λ q.
            let (b, e', iff) =
              contains-Has compare_ order s' q chain' (length more + 0) fuel held'.ok held'.short
                (omega arith) in
            let (into, out) = Has-sorted_with compare_ q more [] in
            (
              b,
              e',
              (
                λ h. elim (into (rw keys_ at (iff.0 h))) [ inl m ↦ m | inr m ↦ absurd m ],
                λ m. iff.1 (rw keys_ (out (inl m))),
              ),
            ),
      )
