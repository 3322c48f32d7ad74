-- ===== src/SkipList/Layered/Watch.antt =====
-- db/skiplist.h: `Contains` while another thread inserts. Steps of the other thread may come before
-- every round of the loop of `FindGreatOrEqual`.
use rockscopy.Base.{◌+◌, ◌-◌, ℕ, zero, suc, ◌+◌, ◌≡◌, refl, arith}
use rockscopy.Base.{List, [], ◌∷◌, Option, none, some, Bool, true, false, ◌>>=◌}
use rockscopy.Slice.{Sign}
use rockscopy.SkipList.{
  contains, find_great_or_equal, SkipList, next, key_of, key_is_after_node, is_less, find_loop,
  find_round, FindRound, faults, finds, moves, equal,
}
use rockscopy.SkipList.Search.{Stops}

-- Whose turn it is.
pub data Turn : Type 0 where
  load : Turn
  store : Turn

abbrev pub loads : ℕ → List Turn
loads zero = []
loads (suc k) = load ∷ loads k

-- What the search found, with the list that it came to the end in.
abbrev pub seen :
    {K : Type 0} → SkipList K → Option (Option ℕ × Option (ℕ → ℕ)) → Option (Option ℕ × SkipList K)
seen s none = none
seen s (some (found, prev)) = some (found, s)

module _ {K : Type 0} (compare_ : K → K → Sign) (fuel : ℕ) where
  -- The loop of `FindGreatOrEqual` without `prev`, each round on the list that there is by then, with
  -- the lists that the other thread leaves one after another. When the turns are over, it runs alone.
  abbrev pub watch :
      List Turn → List (SkipList K) → SkipList K → K → ℕ → ℕ → Option (Option ℕ × SkipList K)
  watch [] ts s key x level = seen s (find_loop compare_ fuel s key none x level)
  watch (store ∷ turns) [] s key x level = watch turns [] s key x level
  watch (store ∷ turns) (t ∷ ts) s key x level = watch turns ts t key x level
  watch (load ∷ turns) ts s key x level = elim (find_round compare_ s key none x level) [
    | faults ↦ none
    | finds n prev' ↦ some (n, s)
    | moves prev' y l ↦ watch turns ts s key y l
  ]

  -- `Contains` with that search from the level `top` on, which depends on when the height was
  -- loaded. A key is not written again once its node is linked, so that it may be read last.
  abbrev pub watch_contains : List Turn → List (SkipList K) → SkipList K → K → ℕ → Option Bool
  watch_contains turns ts s key top = do
    (x, t) ← watch turns ts s key s.head_ top
    elim x [ none ↦ some false | some n ↦ some (equal compare_ key (key_of t n)) ]

  abbrev round_of : Bool → Option ℕ → ℕ → Option ℕ → ℕ → FindRound
  round_of after o level out x = elim after [
    | true ↦ elim o [ none ↦ faults | some n ↦ moves none n level ]
    | false ↦ elim level [ zero ↦ finds out none | suc l ↦ moves none x l ]
  ]

  same_round :
      (s : SkipList K) (after : Bool) (o : Option ℕ) (level : ℕ) (out : Option ℕ) (x : ℕ)
      (f : ℕ → ℕ → Option (Option ℕ × SkipList K))
      (g : Option (ℕ → ℕ) → ℕ → ℕ → Option (Option ℕ × Option (ℕ → ℕ)))
      → ((y l : ℕ) → f y l ≡ seen s (g none y l))
      → ◌≡◌ {A = Option (Option ℕ × SkipList K)}
          (elim (round_of after o level out x) [
            | faults ↦ none
            | finds n prev' ↦ some (n, s)
            | moves prev' y l ↦ f y l
          ])
          (seen s (elim (round_of after o level out x) [
            | faults ↦ none
            | finds n prev' ↦ some (n, prev')
            | moves prev' y l ↦ g prev' y l
          ]))
  same_round s true none level out x f g h = refl
  same_round s true (some n) level out x f g h = h n level
  same_round s false o zero out x f g h = refl
  same_round s false o (suc l) out x f g h = h x l

  -- With loads only, it is the loop.
  pub watch_alone :
      (k : ℕ) (ts : List (SkipList K)) (s : SkipList K) (key : K) (x level : ℕ)
      → watch (loads k) ts s key x level ≡ seen s (find_loop compare_ (k + fuel) s key none x level)
  unfolding find_loop
  watch_alone zero ts s key x level = let e : 0 + fuel ≡ fuel = omega arith in rw e refl
  watch_alone (suc k) ts s key x level =
      let e : suc k + fuel ≡ suc (k + fuel) = omega arith in
      rw e (
        same_round s (key_is_after_node compare_ s key (next s x level)) (next s x level) level
          (next s x zero) x (λ y l. watch (loads k) ts s key y l)
          (λ prev' y l. find_loop compare_ (k + fuel) s key prev' y l)
          (λ y l. watch_alone k ts s key y l))

  abbrev answer : SkipList K → K → Option ℕ → Option Bool
  answer t q found = elim found [
    | none ↦ some false
    | some n ↦ some (equal compare_ q (key_of t n))
  ]

  seen_key :
      (s : SkipList K) (q : K) (w : Option (Option ℕ × Option (ℕ → ℕ)))
      → (seen s w >>= (λ (r : Option ℕ × SkipList K). answer r.1 q r.0))
        ≡ (w >>= (λ (r : Option ℕ × Option (ℕ → ℕ)). answer s q r.0))
  seen_key s q none = refl
  seen_key s q (some (x, prev)) = refl

  pub watch_contains-alone :
      (k : ℕ) (ts : List (SkipList K)) (s : SkipList K) (q : K)
      → watch_contains (loads k) ts s q (s.max_height_ - 1) ≡ contains compare_ (k + fuel) s q
  unfolding contains find_great_or_equal
  watch_contains-alone k ts s q =
      rw (watch_contains, watch_alone k ts s q s.head_ (s.max_height_ - 1))
        (seen_key s q (find_loop compare_ (k + fuel) s q none s.head_ (s.max_height_ - 1)))

  pub watch_along :
      (turns : List Turn) (ts : List (SkipList K)) (s : SkipList K) (key : K) (x level y : ℕ)
      → next s x level ≡ some y
      → is_less (compare_ (key_of s y) key) ≡ true
      → watch (load ∷ turns) ts s key x level ≡ watch turns ts s key y level
  unfolding key_is_after_node
  watch_along turns ts s key x level y e under = ground (arith, e, under)

  pub watch_down :
      (turns : List Turn) (ts : List (SkipList K)) (s : SkipList K) (key : K) (x l : ℕ)
      → Stops compare_ s key (next s x (suc l))
      → watch (load ∷ turns) ts s key x (suc l) ≡ watch turns ts s key x l
  watch_down turns ts s key x l e = rw (watch, e) refl

  pub watch_out :
      (turns : List Turn) (ts : List (SkipList K)) (s : SkipList K) (key : K) (x : ℕ)
      → Stops compare_ s key (next s x 0)
      → watch (load ∷ turns) ts s key x 0 ≡ some (next s x 0, s)
  watch_out turns ts s key x e = rw (watch, e) refl
