-- ===== src/SkipList/Layered/Orders.antt =====
-- The order of insertions does not show in the keys of the list.
use mathlib.Core.List.{Permᴰ}
use rockscopy.Base.{ℕ, suc, ◌≤◌, ◌^◌, ◌<◌, ◌≡◌, refl, arith, ◌⊎◌, inl, inr, sym, ◌∙◌, ap}
use rockscopy.Base.{List, [], ◌∷◌, some, true, false, Bool-cases, length}
use rockscopy.Slice.{Sign, less, same, greater}
use rockscopy.Arena.{Region, Arena}
use rockscopy.Arena.Regions.{IsAllocator}
use rockscopy.Arena.Invariant.{IsConsistent}
use rockscopy.SkipList.{SkipList, Node, is_less, make}
use rockscopy.SkipList.Chain.{IsOrder, Links}
use rockscopy.SkipList.Layered.Rounds.{enough}
use rockscopy.SkipList.Layered.Contains.{keys}
use rockscopy.SkipList.Layered.Sorted.{insert_sorted, insert_sorted-under, insert_sorted-past}
use rockscopy.SkipList.Layered.Trace.{
  sorted_with, insert_all, make-Holds, insert_all-Holds, no_nodes,
}

length-Permᴰ : {K : Type 0} {ks ks' : List K} → Permᴰ ks ks' → length ks ≡ length ks'
length-Permᴰ Permᴰ.nil = refl
length-Permᴰ (Permᴰ.cons e p) = ap suc (length-Permᴰ p)
length-Permᴰ (Permᴰ.swap e e') = refl
length-Permᴰ (Permᴰ.trans p p') = length-Permᴰ p ∙ length-Permᴰ p'

module _ {K : Type 0} (compare_ : K → K → Sign) (order : IsOrder compare_) where
  abbrev ins : K → List K → List K
  ins = insert_sorted compare_

  abbrev Under : K → K → Type 0
  Under a b = is_less (compare_ a b) ≡ true

  abbrev Past : K → K → Type 0
  Past a b = is_less (compare_ a b) ≡ false

  Under-trans : (a b c : K) → Under a b → Under b c → Under a c
  unfolding is_less
  Under-trans a b c h k =
      let e : compare_ a c ≡ less = order.trans a b c (ground arith) (ground arith) in rw e refl

  Under-Past : (a b : K) → Under a b → Past b a
  unfolding is_less
  Under-Past a b h =
      let e : compare_ a b ≡ less = ground arith in
      let e' : compare_ b a ≡ greater = (order.less_iff a b).0 e in rw e' refl

  Under-either : (a b : K) → (a ≡ b) ⊎ Under a b ⊎ Under b a
  unfolding is_less
  Under-either a b = go (compare_ a b) refl
    where
      go : (r : Sign) → compare_ a b ≡ r → (a ≡ b) ⊎ Under a b ⊎ Under b a
      go less e = inr (inl (rw e refl))
      go same e = inl ((order.same_iff a b).0 e)
      go greater e =
          inr (inr (let e' : compare_ b a ≡ less = (order.less_iff b a).1 e in rw e' refl))

  -- The smaller of two keys, and the greater, in any order.
  commute-Under : (a b : K) (ks : List K) → Under a b → ins a (ins b ks) ≡ ins b (ins a ks)
  unfolding insert_sorted
  commute-Under a b [] h =
      insert_sorted-past compare_ a b [] (Under-Past a b h)
      ∙ sym (insert_sorted-under compare_ b a [] h)
  commute-Under a b (k ∷ ks) h = elim (Bool-cases (is_less (compare_ k a))) [
    | inl under ↦
        let under' : Under k b = Under-trans k a b under h in
        ap (ins a) (insert_sorted-under compare_ b k ks under')
        ∙ insert_sorted-under compare_ a k (ins b ks) under
        ∙ ap (λ (t : List K). k ∷ t) (commute-Under a b ks h)
        ∙ sym (insert_sorted-under compare_ b k (ins a ks) under')
        ∙ ap (ins b) (sym (insert_sorted-under compare_ a k ks under))
    | inr past ↦
        let right : ins b (ins a (k ∷ ks)) ≡ a ∷ ins b (k ∷ ks) =
          ap (ins b) (insert_sorted-past compare_ a k ks past)
          ∙ insert_sorted-under compare_ b a (k ∷ ks) h in
        elim (Bool-cases (is_less (compare_ k b))) [
          | inl between ↦
              ap (ins a) (insert_sorted-under compare_ b k ks between)
              ∙ insert_sorted-past compare_ a k (ins b ks) past
              ∙ ap (λ (t : List K). a ∷ t) (sym (insert_sorted-under compare_ b k ks between))
              ∙ sym right
          | inr behind ↦
              ap (ins a) (insert_sorted-past compare_ b k ks behind)
              ∙ insert_sorted-past compare_ a b (k ∷ ks) (Under-Past a b h)
              ∙ ap (λ (t : List K). a ∷ t) (sym (insert_sorted-past compare_ b k ks behind))
              ∙ sym right
        ]
  ]

  insert_sorted_comm : (a b : K) (ks : List K) → ins a (ins b ks) ≡ ins b (ins a ks)
  insert_sorted_comm a b ks = elim (Under-either a b) [
    | inl e ↦ rw e refl
    | inr (inl h) ↦ commute-Under a b ks h
    | inr (inr h) ↦ sym (commute-Under b a ks h)
  ]

  sorted_with-Permᴰ :
      {more more' : List K} (ks : List K)
      → Permᴰ more more'
      → sorted_with compare_ more ks ≡ sorted_with compare_ more' ks
  sorted_with-Permᴰ ks Permᴰ.nil = refl
  sorted_with-Permᴰ {more = a ∷ more} {more' = b ∷ more'} ks (Permᴰ.cons e p) =
      sorted_with-Permᴰ (ins a ks) p ∙ ap (λ (k : K). sorted_with compare_ more' (ins k ks)) e
  sorted_with-Permᴰ ks (Permᴰ.swap {a = a} {b = b} {b' = b'} {l = l} e e') =
      ap (sorted_with compare_ l) (
        insert_sorted_comm b a ks
        ∙ ap (λ (k : K). ins k (ins b ks)) e
        ∙ ap (λ (k : K). ins b' (ins k ks)) e')
  sorted_with-Permᴰ ks (Permᴰ.trans p p') = sorted_with-Permᴰ ks p ∙ sorted_with-Permᴰ ks p'

module _ {K : Type 0} (new_chars : List Region → ℕ → ℕ) (law : IsAllocator new_chars)
    (node_bytes : ℕ) (pos : 0 < node_bytes) (fits : node_bytes ≤ 2 ^ 63) (compare_ : K → K → Sign)
    (order : IsOrder compare_) where
  -- Over an allocator that gives aligned and fresh blocks, with `sizeof(Node)` from 1 to 2^63, with
  -- a comparator that is a strict order, and with line 124 read as the store of the new node's
  -- link: on an arena that is consistent with what it has handed out, insertions of any keys into
  -- the list of the constructor, in one order and in any other, both succeed within 12 * (k + 1)
  -- rounds a search, for k keys, and leave the same keys along the lowest level.
  pub insert_all-Permᴰ :
      (key0 : K) (nodes : ℕ → Node K) (arena : Arena) (live : List Region) (more more' : List K)
      (fuel : ℕ)
      → IsConsistent arena live
      → Permᴰ more more'
      → enough (length more) ≤ fuel
      → (s : SkipList K) × (s1 : SkipList K) × (s2 : SkipList K) × (chain1 : List ℕ)
        × (chain2 : List ℕ) × (make new_chars node_bytes key0 nodes arena ≡ some s)
        × (insert_all new_chars node_bytes compare_ fuel more s ≡ some s1)
        × (insert_all new_chars node_bytes compare_ fuel more' s ≡ some s2)
        × Links compare_ s1 0 s1.head_ chain1
        × Links compare_ s2 0 s2.head_ chain2
        × (keys s1 chain1 ≡ keys s2 chain2)
  insert_all-Permᴰ key0 nodes arena live more more' fuel consistent p fuel_enough =
      let (s, live0, made, held) =
        make-Holds new_chars law node_bytes pos fits compare_ order key0 nodes arena live
          consistent in
      let (s1, chain1, live1, e1, held1, keys1) =
        insert_all-Holds new_chars law node_bytes pos fits compare_ order fuel more 0 s no_nodes
          live0 held (omega arith) in
      let (s2, chain2, live2, e2, held2, keys2) =
        insert_all-Holds new_chars law node_bytes pos fits compare_ order fuel more' 0 s no_nodes
          live0 held (omega (arith, length-Permᴰ p)) in
      (
        s,
        s1,
        s2,
        chain1 0,
        chain2 0,
        made,
        e1,
        e2,
        held1.ok.links 0 (omega arith),
        held2.ok.links 0 (omega arith),
        keys1 ∙ sorted_with-Permᴰ compare_ order [] p ∙ sym keys2,
      )
