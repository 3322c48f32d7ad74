-- ===== src/SkipList/Layered/Stages.antt =====
-- A reader between any two stores of the loop that links a new node.
use rockscopy.Base.{ℕ, zero, suc, ◌+◌, ◌≤◌, ◌<◌, ◌≡◌, refl, arith, ◌⊎◌, inl, inr, sym, ◌∙◌, ap}
use rockscopy.Base.{List, [], ◌∷◌, some, Bool, true, false, Bool-cases, length, All, ◌↔◌, ◌==◌}
use rockscopy.Slice.{Sign}
use rockscopy.Arena.{Region}
use rockscopy.SkipList.{SkipList, key_of, max_height, contains, link_loop, link_steps, last_of}
use rockscopy.SkipList.Chain.{IsOrder}
use rockscopy.SkipList.Layered.{IsLayered, IsShort}
use rockscopy.SkipList.Layered.Rounds.{enough}
use rockscopy.SkipList.Layered.Contains.{keys, Has, contains-Has}
use rockscopy.SkipList.Layered.Splice.{length-put_after, linked}
use rockscopy.SkipList.Layered.Sorted.{insert_sorted, Has-insert_sorted}
use rockscopy.SkipList.Layered.Frame.{keys-frame}
use rockscopy.SkipList.Layered.Link.{
  IsLinkedUpTo, with_node, between, after, between-IsLayered, between_key, after_key, chain_there,
  keys-after, after-IsLinkedUpTo,
}
use rockscopy.SkipList.Layered.Loop.{run, run_step, stores}

module _ {K : Type 0} where
  -- The lists of `link_steps` with a store in the place of line 124, by their names in the proofs.
  abbrev pub stages : ℕ → ℕ → ℕ → SkipList K → List (SkipList K)
  stages zero i x s = []
  stages (suc left) i x s = between i x s ∷ after i x s ∷ stages left (i + 1) x (after i x s)

module _ {K : Type 0} (compare_ : K → K → Sign) where
  pub link_steps-stages :
      (new_chars : List Region → ℕ → ℕ) (node_bytes left i x : ℕ) (s : SkipList K)
      → link_steps new_chars node_bytes compare_ stores left i x s ≡ stages left i x s
  unfolding link_steps linked
  link_steps-stages new_chars node_bytes zero i x s = refl
  link_steps-stages new_chars node_bytes (suc left) i x s =
      ap (λ (ts : List (SkipList K)). between i x s ∷ after i x s ∷ ts)
        (link_steps-stages new_chars node_bytes left (i + 1) x (after i x s))

module _ {K : Type 0} (compare_ : K → K → Sign) (order : IsOrder compare_) where
  pub stages-run :
      (new_chars : List Region → ℕ → ℕ) (node_bytes left i x : ℕ) (s : SkipList K)
      → last_of s (stages left i x s) ≡ run new_chars node_bytes compare_ left i x s
  unfolding link_loop link_steps
  stages-run new_chars node_bytes zero i x s = refl
  stages-run new_chars node_bytes (suc left) i x s =
      stages-run new_chars node_bytes left (i + 1) x (after i x s)
      ∙ sym (run_step new_chars node_bytes compare_ left i x s)

  All-map :
      (P Q : SkipList K → Type 0)
      → ((t : SkipList K) → P t → Q t)
      → (ts : List (SkipList K)) → All P ts
      → All Q ts
  All-map P Q f [] h = tt
  All-map P Q f (t ∷ ts) (h, hs) = (f t h, All-map P Q f ts hs)

  -- What a reader may rely on: a well-formed list with the keys from before, and perhaps one more.
  record Reads (n : ℕ) (key : K) (ks : List K) (t : SkipList K) : Type 0 where
    pub chain : ℕ → List ℕ
    pub ok : IsLayered compare_ t chain
    pub short : IsShort n chain
    pub keys_ : (keys t (chain 0) ≡ ks) ⊎ (keys t (chain 0) ≡ insert_sorted compare_ key ks)

  -- The chains as `Reads` has them, through the rounds: those of the levels from `i` on are yet to grow.
  pub record IsGrowing (n i : ℕ) (key : K) (ks : List K) (x : ℕ) (s : SkipList K)
      (chain : ℕ → List ℕ) : Type 0 where
    pub upto : IsLinkedUpTo compare_ order i x s chain
    pub own : key_of s x ≡ key
    pub now :
        (((i == 0) ≡ true) × (keys s (chain 0) ≡ ks))
        ⊎ (((i == 0) ≡ false) × (keys s (chain 0) ≡ insert_sorted compare_ key ks))
    pub short : IsShort (suc n) chain
    pub slack : (j : ℕ) → i ≤ j → length (chain j) ≤ n

  module _ (n i : ℕ) (key : K) (ks : List K) (x : ℕ) (s : SkipList K) (chain : ℕ → List ℕ)
      (g : IsGrowing n i key ks x s chain) (lt : i < max_height) where
    pub either : (keys s (chain 0) ≡ ks) ⊎ (keys s (chain 0) ≡ insert_sorted compare_ key ks)
    either = elim g.now [ inl (e, k) ↦ inl k | inr (e, k) ↦ inr k ]

    between-Reads : Reads (suc n) key ks (between i x s)
    between-Reads =
        let same_ : keys (between i x s) (chain 0) ≡ keys s (chain 0) =
          keys-frame compare_ s (between i x s) (chain 0)
            (λ z _. between_key compare_ order i x s chain g.upto lt z) in
        record {
          chain = chain;
          ok = between-IsLayered compare_ order i x s chain g.upto lt;
          short = g.short;
          keys_ = rw same_ either;
        }

    pub now_after : keys (after i x s) (with_node i x s chain 0) ≡ insert_sorted compare_ key ks
    now_after =
        keys-after compare_ order i x s chain g.upto lt
        ∙ elim g.now [ inl (e, k) ↦ rw (e, g.own, k) refl | inr (e, k) ↦ rw e k ]

    pub chain1_short : (j : ℕ) → length (with_node i x s chain j) ≤ suc n
    chain1_short j = elim (Bool-cases (i == j)) [
      | inl here ↦
          let e : i ≡ j = ground arith in
          let room : length (chain j) ≤ n = g.slack j (omega arith) in
          rw (here, e) (omega (arith, length-put_after s.head_ (s.prev_ j) x (chain j), room))
      | inr there ↦
          omega
            (arith, g.short j, ap length (chain_there compare_ order i x s chain g.upto lt j there))
    ]

    pub after-IsGrowing : IsGrowing n (i + 1) key ks x (after i x s) (with_node i x s chain)
    after-IsGrowing = record {
      upto = after-IsLinkedUpTo compare_ order i x s chain g.upto lt;
      own = after_key compare_ order i x s chain g.upto lt x ∙ g.own;
      now = inr (ground arith, now_after);
      short = chain1_short;
      slack = λ j le. omega (
        arith,
        g.slack j (omega arith),
        ap length (chain_there compare_ order i x s chain g.upto lt j (ground arith)),
      );
    }

    after-Reads : Reads (suc n) key ks (after i x s)
    after-Reads = record {
      chain = with_node i x s chain;
      ok = (after-IsLinkedUpTo compare_ order i x s chain g.upto lt).ok;
      short = chain1_short;
      keys_ = inr now_after;
    }

  stages-Reads :
      (n left i : ℕ) (key : K) (ks : List K) (x : ℕ) (s : SkipList K) (chain : ℕ → List ℕ)
      → IsGrowing n i key ks x s chain
      → i + left ≤ max_height
      → All (Reads (suc n) key ks) (stages left i x s)
  stages-Reads n zero i key ks x s chain g fits = tt
  stages-Reads n (suc left) i key ks x s chain g fits = (
    between-Reads n i key ks x s chain g (omega arith),
    (
      after-Reads n i key ks x s chain g (omega arith),
      stages-Reads n left (i + 1) key ks x (after i x s) (with_node i x s chain)
          (after-IsGrowing n i key ks x s chain g (omega arith)) (omega arith),
    ),
  )

  -- The keys that a reader sees, but for the one that is put in.
  abbrev pub Sees : ℕ → K → List K → SkipList K → Type 0
  Sees fuel key ks t =
      (q : K)
      → ¬ (q ≡ key)
      → (b : Bool) × (contains compare_ fuel t q ≡ some b) × ((b ≡ true) ↔ Has q ks)

  Reads-Sees :
      (n fuel : ℕ) (key : K) (ks : List K) (t : SkipList K)
      → enough n ≤ fuel
      → Reads n key ks t
      → Sees fuel key ks t
  Reads-Sees n fuel key ks t fuel_enough r q other =
      let (b, e, iff) = contains-Has compare_ order t q r.chain n fuel r.ok r.short fuel_enough in
      let (into, out) = Has-insert_sorted compare_ q key ks in
      elim r.keys_ [
        | inl same_ ↦ (b, e, (λ h. rw same_ at (iff.0 h), λ m. iff.1 (rw same_ m)))
        | inr more ↦ (
          b,
          e,
          (
            λ h. elim (into (rw more at (iff.0 h))) [ inl k ↦ absurd (other k) | inr m ↦ m ],
            λ m. iff.1 (rw more (out (inr m))),
          ),
        )
      ]

  pub start-IsGrowing :
      (n x : ℕ) (s : SkipList K) (chain : ℕ → List ℕ)
      → IsLinkedUpTo compare_ order 0 x s chain
      → IsShort n chain
      → IsGrowing n 0 (key_of s x) (keys s (chain 0)) x s chain
  start-IsGrowing n x s chain up short = record {
    upto = up;
    own = refl;
    now = inl (refl, refl);
    short = λ j. omega (arith, short j);
    slack = λ j _. short j;
  }

  -- With a comparator that is a strict order, and with line 124 read as the store of the new node's
  -- link: when the loop of `Insert` links a node that is on no level yet, into a well-formed list
  -- of at most `n` nodes on a level, the stores that it makes are those of `stages`, and after
  -- every single one of them `Contains` returns within 12 * (n + 2) rounds for every key other than
  -- the new one, and `true` exactly if a node had the key before.
  pub stages-Sees :
      (new_chars : List Region → ℕ → ℕ) (node_bytes n fuel left x : ℕ) (s : SkipList K)
      (chain : ℕ → List ℕ)
      → IsLinkedUpTo compare_ order 0 x s chain
      → IsShort n chain
      → left ≤ max_height
      → enough (suc n) ≤ fuel
      → (last_of s (stages left 0 x s) ≡ link_loop new_chars node_bytes compare_ stores left 0 x s)
        × All (Sees fuel (key_of s x) (keys s (chain 0))) (stages left 0 x s)
  stages-Sees new_chars node_bytes n fuel left x s chain up short fits fuel_enough =
      let growing = start-IsGrowing n x s chain up short in
      (
        stages-run new_chars node_bytes left 0 x s,
        All-map (Reads (suc n) (key_of s x) (keys s (chain 0)))
            (Sees fuel (key_of s x) (keys s (chain 0)))
            (λ t r. Reads-Sees (suc n) fuel (key_of s x) (keys s (chain 0)) t fuel_enough r)
            (stages left 0 x s)
            (stages-Reads n left 0 (key_of s x) (keys s (chain 0)) x s chain growing (omega arith)),
      )
