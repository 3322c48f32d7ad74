-- ===== src/SkipList/Layered/Writer.antt =====
-- `Contains` while another thread inserts keys.
use rockscopy.Base.{◌↔◌, ℕ, suc, ◌+◌, ◌-◌, ◌^◌, ◌≤◌, ◌<◌, ◌≡◌, refl, arith, ◌⊎◌, inl, inr}
use rockscopy.Base.{List, [], ◌∷◌, ◌++◌, Option, none, some, Bool, true, length}
use rockscopy.Slice.{Sign}
use rockscopy.Arena.{Region}
use rockscopy.Arena.Regions.{IsAllocator}
use rockscopy.SkipList.{SkipList, max_height, contains, insert_steps, last_of}
use rockscopy.SkipList.Chain.{IsOrder, Links, first_ge}
use rockscopy.SkipList.Layered.Rounds.{enough}
use rockscopy.SkipList.Layered.Contains.{keys, Has, matches, matches_iff}
use rockscopy.SkipList.Layered.Sorted.{insert_sorted, Has-insert_sorted}
use rockscopy.SkipList.Layered.Ready.{Holds}
use rockscopy.SkipList.Layered.Watch.{Turn, watch, watch_contains, watch_contains-alone, loads}
use rockscopy.SkipList.Layered.Reader.{IsOneOf, Answered, watch-Answered, watch_contains-matches}
use rockscopy.SkipList.Layered.Race.{OneMore, Has-OneMore}
use rockscopy.SkipList.Layered.Loop.{stores}
use rockscopy.SkipList.Layered.Way.{Leads, Leads-append, Leads-weaken, Leads-AllGrow, Leads-last}
use rockscopy.SkipList.Layered.Writes.{insert-Writes}
use rockscopy.SkipList.Layered.Trace.{insert_all}

module _ {K : Type 0} (new_chars : List Region → ℕ → ℕ) (node_bytes : ℕ)
    (compare_ : K → K → Sign) where
  -- The lists that insertions one after another leave on their way.
  abbrev pub insert_all_steps : ℕ → List K → SkipList K → Option (List (SkipList K))
  insert_all_steps fuel [] s = some []
  insert_all_steps fuel (key ∷ more) s =
      elim (insert_steps new_chars node_bytes compare_ stores fuel key s) [
        | none ↦ none
        | some ts ↦ elim (insert_all_steps fuel more (last_of s ts)) [
          | none ↦ none
          | some ts' ↦ some (ts ++ ts')
        ]
      ]

  stages_step :
      (fuel : ℕ) (key : K) (more : List K) (s s' : SkipList K) (ts ts' : List (SkipList K))
      → insert_steps new_chars node_bytes compare_ stores fuel key s ≡ some ts
      → last_of s ts ≡ s'
      → insert_all_steps fuel more s' ≡ some ts'
      → insert_all_steps fuel (key ∷ more) s ≡ some (ts ++ ts')
  stages_step fuel key more s s' ts ts' e l e' = rw (insert_all_steps, e, l, e') refl

-- The keys from before are there, and besides them only some of those that are inserted.
abbrev pub Some : {K : Type 0} → List K → List K → List K → Type 0
Some {K} more ks ks' =
    ((q : K) → Has q ks → Has q ks') × ((q : K) → Has q ks' → Has q ks ⊎ Has q more)

module _ {K : Type 0} (compare_ : K → K → Sign) where
  -- Whether `q` is among the keys along the lowest level of one of the lists.
  abbrev pub AnswersIn : Bool → K → List (SkipList K) → Type 0
  AnswersIn b q ts =
      (t : SkipList K) × IsOneOf t ts
      × (xs : List ℕ) × Links compare_ t 0 t.head_ xs
      × ((b ≡ true) ↔ Has q (keys t xs))

  -- What a reader of one key gets.
  abbrev pub ReadsAmong :
      ℕ → List Turn → List (SkipList K) → SkipList K → K → ℕ → List K → List K → Type 0
  ReadsAmong fuel turns ts s q top more ks =
      (b : Bool) × (watch_contains compare_ fuel turns ts s q top ≡ some b)
      × AnswersIn b q (s ∷ ts)
      × (Has q ks → b ≡ true)
      × (b ≡ true → Has q ks ⊎ Has q more)

module _ {K : Type 0} (new_chars : List Region → ℕ → ℕ) (law : IsAllocator new_chars)
    (node_bytes : ℕ) (pos : 0 < node_bytes) (fits : node_bytes ≤ 2 ^ 63) (compare_ : K → K → Sign)
    (order : IsOrder compare_) where
  OneMore-Some :
      (key : K) (more ks ks' : List K)
      → OneMore compare_ order key ks ks'
      → Some (key ∷ more) ks ks'
  OneMore-Some key more ks ks' o = (
    λ q m. (Has-OneMore compare_ order key q ks ks' o).0 m,
    λ q m. elim ((Has-OneMore compare_ order key q ks ks' o).1 m) [
      | inl k ↦ inl k
      | inr e ↦ inr (inl e)
    ],
  )

  Some-later :
      (key : K) (more ks ks' : List K)
      → Some more (insert_sorted compare_ key ks) ks'
      → Some (key ∷ more) ks ks'
  Some-later key more ks ks' (kept, known) = (
    λ q m. kept q ((Has-insert_sorted compare_ q key ks).1 (inr m)),
    λ q m. elim (known q m) [
      | inr k ↦ inr (inr k)
      | inl k ↦ elim ((Has-insert_sorted compare_ q key ks).0 k) [
        | inl e ↦ inr (inl e)
        | inr n ↦ inl n
      ]
    ],
  )

  -- Insertions one after another, with the way that they take.
  pub record AllWrites (fuel : ℕ) (more : List K) (s : SkipList K) (chain : ℕ → List ℕ) (n : ℕ)
      : Type 0 where
    pub list : SkipList K
    pub chain' : ℕ → List ℕ
    pub ts : List (SkipList K)
    pub inserted : insert_all new_chars node_bytes compare_ fuel more s ≡ some list
    pub staged : insert_all_steps new_chars node_bytes compare_ fuel more s ≡ some ts
    pub way :
        Leads compare_ order (length more + n) (Some more (keys s (chain 0))) s chain ts list chain'

  pub insert_all-AllWrites :
      (fuel : ℕ) (more : List K) (n : ℕ) (s : SkipList K) (chain : ℕ → List ℕ) (live : List Region)
      → Holds node_bytes compare_ s chain n live
      → enough (length more + n) ≤ fuel
      → AllWrites fuel more s chain n
  insert_all-AllWrites fuel [] n s chain live held fuel_enough = record {
    list = s;
    chain' = chain;
    ts = [];
    inserted = refl;
    staged = refl;
    way = (refl, refl);
  }
  insert_all-AllWrites fuel (key ∷ more) n s chain live held fuel_enough =
      let w =
        insert-Writes new_chars law node_bytes pos fits compare_ order fuel n key s chain live held
          (omega arith) in
      let ws =
        insert_all-AllWrites fuel more (suc n) w.list w.chain' w.live' w.held (omega arith) in
      let ks = keys s (chain 0) in
      let first_ =
        Leads-weaken compare_ order (suc n) (length (key ∷ more) + n)
          (OneMore compare_ order key ks) (Some (key ∷ more) ks) s w.list chain w.chain' w.ts
          (omega arith) (λ ks'. OneMore-Some key more ks ks') w.way in
      let later =
        Leads-weaken compare_ order (length more + suc n) (length (key ∷ more) + n)
          (Some more (keys w.list (w.chain' 0))) (Some (key ∷ more) ks) w.list ws.list w.chain'
          ws.chain' ws.ts (omega arith) (λ ks' m. Some-later key more ks ks' (rw w.keys_ at m))
          ws.way in
      record {
        list = ws.list;
        chain' = ws.chain';
        ts = w.ts ++ ws.ts;
        inserted = rw (insert_all, w.inserted) ws.inserted;
        staged =
            stages_step new_chars node_bytes compare_ fuel key more s w.list w.ts ws.ts w.staged
              (Leads-last compare_ order (suc n) (OneMore compare_ order key ks) s w.list chain
                w.chain' w.ts w.way)
              ws.staged;
        way =
            Leads-append compare_ order (length (key ∷ more) + n) (Some (key ∷ more) ks) s w.list
              ws.list chain w.chain' ws.chain' w.ts ws.ts first_ later;
      }

  Answered-Finds :
      (n fuel : ℕ) (turns : List Turn) (ts : List (SkipList K)) (s : SkipList K) (q : K) (top : ℕ)
      (more ks : List K)
      → Answered compare_ order n
          (Some more ks)
          (watch compare_ fuel turns ts s q s.head_ top)
          (s ∷ ts)
          q
      → ReadsAmong compare_ fuel turns ts s q top more ks
  Answered-Finds n fuel turns ts s q top more ks a =
      let iff = matches_iff compare_ order a.list q (a.chain 0) a.ok.ascending in
      (
        matches compare_ order a.list q (first_ge compare_ a.list q (a.chain 0)),
        watch_contains-matches compare_ order fuel turns ts s a.list q top
            (first_ge compare_ a.list q (a.chain 0)) a.answer,
        (a.list, a.among, a.chain 0, a.ok.links 0 (omega arith), iff),
        λ m. iff.1 (a.good.0 q m),
        λ e. a.good.1 q (iff.0 e),
      )

  -- Over an allocator that gives aligned and fresh blocks, with `sizeof(Node)` from 1 to 2^63, with
  -- a comparator that is a strict order, and with line 124 read as the store of the new node's
  -- link: on a list that `Holds` (as for `insert_lem`), with at most `n` nodes on a level, another
  -- thread inserts m more keys, one after another, repeated ones included. It leaves the lists of
  -- `insert_all_steps` one after another: those of `Insert` (`insert_steps`), one for each store of
  -- a link, where what no reader loads is taken together with the store of the height, the memory
  -- of the new node or the end; the last one is that of the insertions. A `Contains` that runs
  -- meanwhile, from any level below 12 and with any number of these steps before each of its
  -- rounds, returns, where 12 * (n + m + 1) rounds are left to it when the turns are over. What it
  -- returns is right of one of these lists: `true` exactly if the key is along its lowest level; so
  -- it is `true` if the key was there at the start, and `false` if it was not and is not one of
  -- those inserted. With rounds of the reader only, from the level of `max_height_`, it is the
  -- `Contains` of one thread.
  pub watch_contains-insert_all :
      (n fuel k top : ℕ) (more : List K) (s : SkipList K) (chain : ℕ → List ℕ) (live : List Region)
      (turns : List Turn) (q : K)
      → Holds node_bytes compare_ s chain n live
      → enough (length more + n) ≤ fuel
      → top < max_height
      → (ts : List (SkipList K)) × (insert_all_steps new_chars node_bytes compare_ fuel more s
          ≡ some ts)
        × (insert_all new_chars node_bytes compare_ fuel more s ≡ some (last_of s ts))
        × (watch_contains compare_ fuel (loads k) ts s q (s.max_height_ - 1)
            ≡ contains compare_ (k + fuel) s q)
        × ReadsAmong compare_ fuel turns ts s q top more (keys s (chain 0))
  watch_contains-insert_all n fuel k top more s chain live turns q held fuel_enough lt =
      let w = insert_all-AllWrites fuel more n s chain live held fuel_enough in
      let ks = keys s (chain 0) in
      let ended : last_of s w.ts ≡ w.list =
        Leads-last compare_ order (length more + n) (Some more ks) s w.list chain w.chain' w.ts
          w.way in
      (
        w.ts,
        w.staged,
        rw ended w.inserted,
        watch_contains-alone compare_ fuel k w.ts s q,
        Answered-Finds (length more + n) fuel turns w.ts s q top more ks (
            watch-Answered compare_ order (length more + n) (Some more ks) fuel fuel_enough q turns
              w.ts s chain held.ok (λ j. omega (arith, held.short j)) (λ r m. m, λ r m. inl m)
              (Leads-AllGrow compare_ order (length more + n) (Some more ks) s w.list chain w.chain'
                w.ts w.way)
              s.head_ top lt (inl refl)),
      )
