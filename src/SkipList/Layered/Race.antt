-- ===== src/SkipList/Layered/Race.antt =====
-- `Contains` while another thread links a new node.
use rockscopy.Base.{
  Bool-cases, ◌==◌, ◌∷◌, ℕ, zero, suc, ◌+◌, ◌-◌, ◌≤◌, ◌<◌, ◌≡◌, refl, arith, ◌⊎◌, inl, inr, sym,
  ◌∙◌,
}
use rockscopy.Base.{List, some, Bool, true}
use rockscopy.Slice.{Sign}
use rockscopy.Arena.{Region}
use rockscopy.SkipList.{SkipList, key_of, set_next, max_height, contains, link_loop}
use rockscopy.SkipList.{last_of}
use rockscopy.SkipList.Chain.{IsOrder, first_ge}
use rockscopy.SkipList.Layered.{IsShort}
use rockscopy.SkipList.Layered.Rounds.{enough}
use rockscopy.SkipList.Layered.Contains.{keys, Has, matches, matches_iff}
use rockscopy.SkipList.Layered.Splice.{linked}
use rockscopy.SkipList.Layered.Sorted.{insert_sorted, Has-insert_sorted}
use rockscopy.SkipList.Layered.Frame.{keys-frame}
use rockscopy.SkipList.Layered.Link.{
  IsLinkedUpTo, with_node, between, after, between-IsLayered, between_key, after_key, after-keeps,
  after-IsLinkedUpTo,
}
use rockscopy.SkipList.Layered.Loop.{stores}
use rockscopy.SkipList.Layered.Places.{Within, Within-refl, put_after-Within}
use rockscopy.SkipList.Layered.Stages.{
  stages, stages-run, IsGrowing, either, now_after, chain1_short, after-IsGrowing, start-IsGrowing,
}
use rockscopy.SkipList.Layered.Watch.{Turn, watch, watch_contains, watch_contains-alone, loads}
use rockscopy.SkipList.Layered.Reader.{
  Grows, AllGrow, Answered, watch_contains-matches, watch-Answered,
}

with_node-Within :
    {K : Type 0} (i x : ℕ) (s : SkipList K) (chain : ℕ → List ℕ) (j : ℕ)
    → Within (chain j) (with_node i x s chain j)
with_node-Within i x s chain j = elim (Bool-cases (i == j)) [
  | inl here ↦
      let e : i ≡ j = ground arith in
      rw (here, e) (put_after-Within s.head_ (s.prev_ j) x (chain j))
  | inr there ↦ rw there (Within-refl (chain j))
]

module _ {K : Type 0} (compare_ : K → K → Sign) (order : IsOrder compare_) where
  -- The keys that there were, and perhaps the new one.
  abbrev pub OneMore : K → List K → List K → Type 0
  OneMore key ks ks' = (ks' ≡ ks) ⊎ (ks' ≡ insert_sorted compare_ key ks)

  module _ (n i : ℕ) (key : K) (ks : List K) (x : ℕ) (s : SkipList K) (chain : ℕ → List ℕ)
      (g : IsGrowing compare_ order n i key ks x s chain) (lt : i < max_height) where
    pub between-Grows : Grows compare_ order (suc n) (OneMore key ks) s chain (between i x s) chain
    unfolding set_next key_of
    between-Grows = record {
      ok = between-IsLayered compare_ order i x s chain g.upto lt;
      short = g.short;
      head = refl;
      more = λ j z m. m;
      between = λ j. Within-refl (chain j);
      same_keys = λ z _. between_key compare_ order i x s chain g.upto lt z;
      good =
          rw
            (keys-frame compare_ s (between i x s) (chain 0)
              (λ z _. between_key compare_ order i x s chain g.upto lt z))
            (either compare_ order n i key ks x s chain g lt);
    }

    pub after-Grows :
        Grows compare_ order
          (suc n)
          (OneMore key ks)
          (between i x s)
          chain
          (after i x s)
          (with_node i x s chain)
    unfolding linked set_next
    after-Grows = record {
      ok = (after-IsLinkedUpTo compare_ order i x s chain g.upto lt).ok;
      short = chain1_short compare_ order n i key ks x s chain g lt;
      head = refl;
      more = after-keeps compare_ order i x s chain g.upto lt;
      between = with_node-Within i x s chain;
      same_keys = λ z _.
          after_key compare_ order i x s chain g.upto lt z
          ∙ sym (between_key compare_ order i x s chain g.upto lt z);
      good = inr (now_after compare_ order n i key ks x s chain g lt);
    }

  stages-AllGrow :
      (n left i : ℕ) (key : K) (ks : List K) (x : ℕ) (s : SkipList K) (chain : ℕ → List ℕ)
      → IsGrowing compare_ order n i key ks x s chain
      → i + left ≤ max_height
      → AllGrow compare_ order (suc n) (OneMore key ks) s chain (stages left i x s)
  stages-AllGrow n zero i key ks x s chain g fits = tt
  stages-AllGrow n (suc left) i key ks x s chain g fits = (
    chain,
    between-Grows n i key ks x s chain g (omega arith),
    (
      with_node i x s chain,
      after-Grows n i key ks x s chain g (omega arith),
      stages-AllGrow n left (i + 1) key ks x (after i x s) (with_node i x s chain)
          (after-IsGrowing compare_ order n i key ks x s chain g (omega arith)) (omega arith),
    ),
  )

  -- The keys that there were are found, and no others but perhaps the new one.
  pub Has-OneMore :
      (key q : K) (ks ks' : List K)
      → OneMore key ks ks'
      → (Has q ks → Has q ks') × (Has q ks' → Has q ks ⊎ (q ≡ key))
  Has-OneMore key q ks ks' (inl e) = rw e (λ m. m, λ m. inl m)
  Has-OneMore key q ks ks' (inr e) =
      let (into, out) = Has-insert_sorted compare_ q key ks in
      rw e (λ m. out (inr m), λ m. elim (into m) [ inl k ↦ inr k | inr k ↦ inl k ])

  -- What a reader of one key gets.
  abbrev pub Watches : ℕ → List Turn → List (SkipList K) → SkipList K → K → ℕ → K → List K → Type 0
  Watches fuel turns ts s q top key ks =
      (b : Bool) × (watch_contains compare_ fuel turns ts s q top ≡ some b)
      × (Has q ks → b ≡ true)
      × (b ≡ true → Has q ks ⊎ (q ≡ key))

  Answered-Watches :
      (n fuel : ℕ) (turns : List Turn) (ts : List (SkipList K)) (s : SkipList K) (key q : K)
      (top : ℕ) (ks : List K)
      → Answered compare_ order n
          (OneMore key ks)
          (watch compare_ fuel turns ts s q s.head_ top)
          (s ∷ ts)
          q
      → Watches fuel turns ts s q top key ks
  Answered-Watches n fuel turns ts s key q top ks a =
      let iff = matches_iff compare_ order a.list q (a.chain 0) a.ok.ascending in
      let (kept, known) = Has-OneMore key q ks (keys a.list (a.chain 0)) a.good in
      (
        matches compare_ order a.list q (first_ge compare_ a.list q (a.chain 0)),
        watch_contains-matches compare_ order fuel turns ts s a.list q top
            (first_ge compare_ a.list q (a.chain 0)) a.answer,
        λ m. iff.1 (kept m),
        λ e. known (iff.0 e),
      )

  -- With a comparator that is a strict order, and with line 124 read as the store of the new node's
  -- link: when the loop of `Insert` links a node that is on no level yet, into a well-formed list
  -- of at most `n` nodes on a level, the stores that it makes are those of `stages`. A `Contains`
  -- that starts before them from any level below 12, with any number of the stores before each of
  -- its loads and 12 * (n + 2) rounds left when the turns are over, returns: `true` if a node had
  -- the key before, and `false` if none had it and it is not the new one. With loads only, from the
  -- level of `max_height_`, it is the `Contains` of one thread.
  pub watch_contains-stages :
      (new_chars : List Region → ℕ → ℕ) (node_bytes n fuel left x : ℕ) (s : SkipList K)
      (chain : ℕ → List ℕ)
      → IsLinkedUpTo compare_ order 0 x s chain
      → IsShort n chain
      → left ≤ max_height
      → enough (suc n) ≤ fuel
      → (turns : List Turn) (q : K) (top k : ℕ) → top < max_height
      → (last_of s (stages left 0 x s) ≡ link_loop new_chars node_bytes compare_ stores left 0 x s)
        × (watch_contains compare_ fuel (loads k) (stages left 0 x s) s q (s.max_height_ - 1)
            ≡ contains compare_ (k + fuel) s q)
        × Watches fuel turns (stages left 0 x s) s q top (key_of s x) (keys s (chain 0))
  watch_contains-stages new_chars node_bytes n fuel left x s chain up short fits fuel_enough turns q
        top k lt =
      let growing = start-IsGrowing compare_ order n x s chain up short in
      (
        stages-run compare_ order new_chars node_bytes left 0 x s,
        watch_contains-alone compare_ fuel k (stages left 0 x s) s q,
        Answered-Watches (suc n) fuel turns (stages left 0 x s) s (key_of s x) q top
            (keys s (chain 0))
            (watch-Answered compare_ order (suc n) (OneMore (key_of s x) (keys s (chain 0))) fuel
              fuel_enough q turns (stages left 0 x s) s chain up.ok (λ j. omega (arith, short j))
              (inl refl)
              (stages-AllGrow n left 0 (key_of s x) (keys s (chain 0)) x s chain growing
                (omega arith))
              s.head_ top lt (inl refl)),
      )
