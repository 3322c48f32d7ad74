-- ===== src/SkipList/Layered/Way.antt =====
-- The stores of a writer as a way from one list to another.
use rockscopy.Base.{ℕ, zero, suc, ◌+◌, ◌≤◌, ◌≡◌, refl, arith, inr}
use rockscopy.Base.{List, [], ◌∷◌, ◌++◌}
use rockscopy.Slice.{Sign}
use rockscopy.Arena.{Region}
use rockscopy.SkipList.{SkipList, max_height, link_loop}
use rockscopy.SkipList.{last_of, link_steps}
use rockscopy.SkipList.Chain.{IsOrder}
use rockscopy.SkipList.Layered.Link.{with_node, after}
use rockscopy.SkipList.Layered.Splice.{linked}
use rockscopy.SkipList.Layered.Loop.{run, HasLinked, step-HasLinked, zero_right, suc_right}
use rockscopy.SkipList.Layered.Stages.{stages, IsGrowing, after-IsGrowing}
use rockscopy.SkipList.Layered.Reader.{Grows, AllGrow}
use rockscopy.SkipList.Layered.Race.{OneMore, between-Grows, after-Grows}

module _ {K : Type 0} (compare_ : K → K → Sign) (order : IsOrder compare_) where
  -- From `s` over each list of `ts` to `s'`, with the chains.
  abbrev pub Leads :
      ℕ
      → (List K → Type 0)
      → SkipList K
      → (ℕ → List ℕ)
      → List (SkipList K)
      → SkipList K
      → (ℕ → List ℕ)
      → Type 0
  Leads n good s chain [] s' chain' = (s ≡ s') × (chain ≡ chain')
  Leads n good s chain (t ∷ ts) s' chain' =
      (next_ : ℕ → List ℕ) × Grows compare_ order n good s chain t next_
      × Leads n good t next_ ts s' chain'

  Grows-weaken :
      (n m : ℕ) (good good' : List K → Type 0) (s t : SkipList K) (chain chain' : ℕ → List ℕ)
      → n ≤ m
      → ((ks : List K) → good ks → good' ks)
      → Grows compare_ order n good s chain t chain'
      → Grows compare_ order m good' s chain t chain'
  Grows-weaken n m good good' s t chain chain' le f g = record {
    ok = g.ok;
    short = λ j. omega (arith, g.short j);
    head = g.head;
    more = g.more;
    between = g.between;
    same_keys = g.same_keys;
    good = f _ g.good;
  }

  pub Leads-weaken :
      (n m : ℕ) (good good' : List K → Type 0) (s s' : SkipList K) (chain chain' : ℕ → List ℕ)
      (ts : List (SkipList K))
      → n ≤ m
      → ((ks : List K) → good ks → good' ks)
      → Leads n good s chain ts s' chain'
      → Leads m good' s chain ts s' chain'
  Leads-weaken n m good good' s s' chain chain' [] le f p = p
  Leads-weaken n m good good' s s' chain chain' (t ∷ ts) le f (next_, g, p) = (
    next_,
    Grows-weaken n m good good' s t chain next_ le f g,
    Leads-weaken n m good good' t s' next_ chain' ts le f p,
  )

  pub Leads-append :
      (n : ℕ) (good : List K → Type 0) (s s' s'' : SkipList K) (chain chain' chain'' : ℕ → List ℕ)
      (ts ts' : List (SkipList K))
      → Leads n good s chain ts s' chain'
      → Leads n good s' chain' ts' s'' chain''
      → Leads n good s chain (ts ++ ts') s'' chain''
  Leads-append n good s s' s'' chain chain' chain'' [] ts' (e, e') q = rw (e, e') q
  Leads-append n good s s' s'' chain chain' chain'' (t ∷ ts) ts' (next_, g, p) q =
      (next_, g, Leads-append n good t s' s'' next_ chain' chain'' ts ts' p q)

  pub Leads-AllGrow :
      (n : ℕ) (good : List K → Type 0) (s s' : SkipList K) (chain chain' : ℕ → List ℕ)
      (ts : List (SkipList K))
      → Leads n good s chain ts s' chain'
      → AllGrow compare_ order n good s chain ts
  Leads-AllGrow n good s s' chain chain' [] p = tt
  Leads-AllGrow n good s s' chain chain' (t ∷ ts) (next_, g, p) =
      (next_, g, Leads-AllGrow n good t s' next_ chain' ts p)

  pub Leads-last :
      (n : ℕ) (good : List K → Type 0) (s s' : SkipList K) (chain chain' : ℕ → List ℕ)
      (ts : List (SkipList K))
      → Leads n good s chain ts s' chain'
      → last_of s ts ≡ s'
  Leads-last n good s s' chain chain' [] (e, e') = e
  Leads-last n good s s' chain chain' (t ∷ ts) (next_, g, p) =
      Leads-last n good t s' next_ chain' ts p

  module _ (new_chars : List Region → ℕ → ℕ) (node_bytes : ℕ) where
    -- Where the rounds of the loop lead, from level `i` on.
    pub record HasRun (n left i : ℕ) (key : K) (ks : List K) (x : ℕ) (s : SkipList K)
        (chain : ℕ → List ℕ) : Type 0 where
      pub chain' : ℕ → List ℕ
      pub has_linked :
          HasLinked new_chars node_bytes compare_ order i
            (i + left)
            x
            s
            (run new_chars node_bytes compare_ left i x s)
            chain
            chain'
      pub growing :
          IsGrowing compare_ order n
            (i + left)
            key
            ks
            x
            (run new_chars node_bytes compare_ left i x s)
            chain'
      pub path :
          Leads
            (suc n)
            (OneMore compare_ order key ks)
            s
            chain
            (stages left i x s)
            (run new_chars node_bytes compare_ left i x s)
            chain'

    pub run_lem :
        (n left i : ℕ) (key : K) (ks : List K) (x : ℕ) (s : SkipList K) (chain : ℕ → List ℕ)
        → IsGrowing compare_ order n i key ks x s chain
        → i + left ≤ max_height
        → HasRun n left i key ks x s chain
    unfolding link_loop link_steps linked
    run_lem n zero i key ks x s chain g fits = record {
      chain' = chain;
      has_linked = record {
        upto = rw (zero_right new_chars node_bytes compare_ order i) g.upto;
        head = refl;
        arena = refl;
        members = λ j z m. inr m;
        longer = λ j. omega arith;
        kept = λ j _. refl;
        later = λ _. refl;
      };
      growing = rw (zero_right new_chars node_bytes compare_ order i) g;
      path = (refl, refl);
    }
    run_lem n (suc left) i key ks x s chain g fits =
        let r =
          run_lem n left (i + 1) key ks x (after i x s) (with_node i x s chain)
            (after-IsGrowing compare_ order n i key ks x s chain g (omega arith)) (omega arith) in
        record {
          chain' = r.chain';
          has_linked =
              step-HasLinked new_chars node_bytes compare_ order i (i + suc left) x s
                (run new_chars node_bytes compare_ left (i + 1) x (after i x s)) chain r.chain'
                g.upto (omega arith)
                (rw (suc_right new_chars node_bytes compare_ order i left) r.has_linked);
          growing = rw (suc_right new_chars node_bytes compare_ order i left) r.growing;
          path = (
            chain,
            between-Grows compare_ order n i key ks x s chain g (omega arith),
            (
              with_node i x s chain,
              after-Grows compare_ order n i key ks x s chain g (omega arith),
              r.path,
            ),
          );
        }
