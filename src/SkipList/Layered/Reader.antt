-- ===== src/SkipList/Layered/Reader.antt =====
-- What a search among the stores of another thread answers.
use rockscopy.Base.{ℕ, zero, suc, ◌≤◌, ◌<◌, ◌≡◌, refl, arith, ◌⊎◌, inl, inr, sym, ◌∙◌, ap}
use rockscopy.Base.{List, [], ◌∷◌, Option, none, some, Bool-cases}
use rockscopy.Slice.{Sign}
use rockscopy.SkipList.{SkipList, key_of, is_less, max_height}
use rockscopy.SkipList.Chain.{IsOrder, Among, first_ge}
use rockscopy.SkipList.Position.{is_less-less}
use rockscopy.SkipList.Layered.{IsLayered, IsShort}
use rockscopy.SkipList.Layered.Rounds.{enough, rounds-enough}
use rockscopy.SkipList.Layered.Find.{
  HasPassed, HasStopped, Stands, Stands-on, stops_out, stops_before, find_loop_lem,
}
use rockscopy.SkipList.Layered.Contains.{keys, matches}
use rockscopy.SkipList.Layered.Ready.{to_lowest}
use rockscopy.SkipList.Layered.Places.{Within}
use rockscopy.SkipList.Layered.Watch.{
  watch_contains, seen, Turn, load, store, watch, watch_out, watch_down, watch_along,
}

-- `t` is one of the lists.
abbrev pub IsOneOf : {K : Type 0} → SkipList K → List (SkipList K) → Type 0
IsOneOf t [] = ⊥
IsOneOf t (u ∷ us) = (t ≡ u) ⊎ IsOneOf t us

module _ {K : Type 0} (compare_ : K → K → Sign) (order : IsOrder compare_) (n : ℕ)
    (fits_keys : List K → Type 0) where
  -- What a store may do to the list: its levels only grow, and no key changes.
  pub record Grows (s : SkipList K) (chain : ℕ → List ℕ) (t : SkipList K) (chain' : ℕ → List ℕ)
      : Type 0 where
    pub ok : IsLayered compare_ t chain'
    pub short : IsShort n chain'
    pub head : t.head_ ≡ s.head_
    pub more : (j z : ℕ) → Among z (chain j) → Among z (chain' j)
    pub between : (j : ℕ) → Within (chain j) (chain' j)
    pub same_keys : (z : ℕ) → Among z (chain 0) → key_of t z ≡ key_of s z
    pub good : fits_keys (keys t (chain' 0))

  abbrev pub AllGrow : SkipList K → (ℕ → List ℕ) → List (SkipList K) → Type 0
  AllGrow s chain [] = Unit {0}
  AllGrow s chain (t ∷ ts) = (chain' : ℕ → List ℕ) × Grows s chain t chain' × AllGrow t chain' ts

  pub passed_on :
      (s t : SkipList K) (chain chain' : ℕ → List ℕ) (ok : IsLayered compare_ s chain)
      (g : Grows s chain t chain') (key : K) (level x : ℕ)
      → HasPassed compare_ order s chain ok key level x
      → HasPassed compare_ order t chain' g.ok key level x
  passed_on s t chain chain' ok g key level x (inl e) = inl (e ∙ sym g.head)
  passed_on s t chain chain' ok g key level x (inr (m, u)) =
      inr (g.more level x m, rw (g.same_keys x (to_lowest compare_ s chain ok level x m)) u)

  -- The answer is that of a search in one of the lists.
  pub record Answered (w : Option (Option ℕ × SkipList K)) (ts : List (SkipList K)) (key : K)
      : Type 0 where
    pub list : SkipList K
    pub among : IsOneOf list ts
    pub chain : ℕ → List ℕ
    pub ok : IsLayered compare_ list chain
    pub good : fits_keys (keys list (chain 0))
    pub answer : w ≡ some (first_ge compare_ list key (chain 0), list)

  module _ (fuel : ℕ) (fuel_enough : enough n ≤ fuel) (key : K) where
    abbrev Answers : List Turn → List (SkipList K) → SkipList K → ℕ → ℕ → Type 0
    Answers turns ts s x level = Answered (watch compare_ fuel turns ts s key x level) (s ∷ ts) key

    same_answer :
        (w w' : Option (Option ℕ × SkipList K)) (ts : List (SkipList K))
        → w ≡ w'
        → Answered w' ts key
        → Answered w ts key
    same_answer w w' ts e a = record {
      list = a.list;
      among = a.among;
      chain = a.chain;
      ok = a.ok;
      good = a.good;
      answer = e ∙ a.answer;
    }

    alone :
        (ts : List (SkipList K)) (s : SkipList K) (chain : ℕ → List ℕ)
        (ok : IsLayered compare_ s chain)
        → IsShort n chain
        → fits_keys (keys s (chain 0))
        → (x level : ℕ) → level < max_height
        → HasPassed compare_ order s chain ok key level x
        → Answers [] ts s x level
    alone ts s chain ok short good x level lt passed =
        let (rest, a) = Stands-on compare_ order s chain ok key level x lt passed in
        let (out, e, _) =
          find_loop_lem compare_ order s chain ok key fuel level x rest none lt a tt
            (omega (arith, a.short, rounds-enough chain n level fuel short lt fuel_enough)) in
        record {
          list = s;
          among = inl refl;
          chain = chain;
          ok = ok;
          good = good;
          answer = ap (seen s) e;
        }

    stop_on :
        (turns : List Turn) (ts : List (SkipList K)) (s : SkipList K) (chain : ℕ → List ℕ)
        (ok : IsLayered compare_ s chain)
        → fits_keys (keys s (chain 0))
        → (x level : ℕ) → HasPassed compare_ order s chain ok key level x
        → HasStopped compare_ order s chain ok key level x
        → ((l : ℕ)
            → suc l ≡ level
            → HasPassed compare_ order s chain ok key l x
            → Answers turns ts s x l)
        → Answers (load ∷ turns) ts s x level
    stop_on turns ts s chain ok good x zero passed stop below = record {
      list = s;
      among = inl refl;
      chain = chain;
      ok = ok;
      good = good;
      answer =
          watch_out compare_ fuel turns ts s key x stop.stops
          ∙ ap (λ (o : Option ℕ). some (o, s)) (sym (stop.found refl));
    }
    stop_on turns ts s chain ok good x (suc l) passed stop below =
        let passed' : HasPassed compare_ order s chain ok key l x = elim passed [
          | inl e ↦ inl e
          | inr (m, u) ↦ inr (ok.nested l x m, u)
        ] in
        same_answer (watch compare_ fuel (load ∷ turns) ts s key x (suc l))
          (watch compare_ fuel turns ts s key x l) (s ∷ ts)
          (watch_down compare_ fuel turns ts s key x l stop.stops) (below l refl passed')

    load_on :
        (turns : List Turn) (ts : List (SkipList K)) (s : SkipList K) (chain : ℕ → List ℕ)
        (ok : IsLayered compare_ s chain)
        → fits_keys (keys s (chain 0))
        → (x level : ℕ) → level < max_height
        → (rest : List ℕ) → Stands compare_ order s chain ok key level x rest
        → ((y l : ℕ)
            → l < max_height
            → HasPassed compare_ order s chain ok key l y
            → Answers turns ts s y l)
        → Answers (load ∷ turns) ts s x level
    load_on turns ts s chain ok good x level lt [] a on =
        stop_on turns ts s chain ok good x level a.passed
          (stops_out compare_ order s chain ok key level x a) (λ l e p. on x l (omega arith) p)
    load_on turns ts s chain ok good x level lt (y ∷ ys) a on =
        elim (Bool-cases (is_less (compare_ (key_of s y) key))) [
          | inl under ↦
              same_answer (watch compare_ fuel (load ∷ turns) ts s key x level)
                (watch compare_ fuel turns ts s key y level) (s ∷ ts)
                (watch_along compare_ fuel turns ts s key x level y a.linked.0 under)
                (on y level lt
                  (inr (a.members y (inl refl), is_less-less compare_ s (key_of s y) key under)))
          | inr past ↦
              stop_on turns ts s chain ok good x level a.passed
                (stops_before compare_ order s chain ok key level x y ys a past)
                (λ l e p. on x l (omega arith) p)
        ]

    pub watch-Answered :
        (turns : List Turn) (ts : List (SkipList K)) (s : SkipList K) (chain : ℕ → List ℕ)
        (ok : IsLayered compare_ s chain)
        → IsShort n chain
        → fits_keys (keys s (chain 0))
        → AllGrow s chain ts
        → (x level : ℕ) → level < max_height
        → HasPassed compare_ order s chain ok key level x
        → Answers turns ts s x level
    watch-Answered [] ts s chain ok short good grows x level lt passed =
        alone ts s chain ok short good x level lt passed
    watch-Answered (store ∷ turns) [] s chain ok short good grows x level lt passed =
        watch-Answered turns [] s chain ok short good grows x level lt passed
    watch-Answered (store ∷ turns) (t ∷ ts) s chain ok short good (chain', g, more) x level lt
          passed =
        let a =
          watch-Answered turns ts t chain' g.ok g.short g.good more x level lt
            (passed_on s t chain chain' ok g key level x passed) in
        record {
          list = a.list;
          among = inr a.among;
          chain = a.chain;
          ok = a.ok;
          good = a.good;
          answer = a.answer;
        }
    watch-Answered (load ∷ turns) ts s chain ok short good grows x level lt passed =
        let (rest, a) = Stands-on compare_ order s chain ok key level x lt passed in
        load_on turns ts s chain ok good x level lt rest a
          (λ y l below p. watch-Answered turns ts s chain ok short good grows y l below p)

module _ {K : Type 0} (compare_ : K → K → Sign) (order : IsOrder compare_) where
  -- The node found is compared by the key that it has in the end.
  pub watch_contains-matches :
      (fuel : ℕ) (turns : List Turn) (ts : List (SkipList K)) (s t : SkipList K) (q : K) (top : ℕ)
      (found : Option ℕ)
      → watch compare_ fuel turns ts s q s.head_ top ≡ some (found, t)
      → watch_contains compare_ fuel turns ts s q top ≡ some (matches compare_ order t q found)
  watch_contains-matches fuel turns ts s t q top none e = rw (watch_contains, e) refl
  watch_contains-matches fuel turns ts s t q top (some m) e = rw (watch_contains, e) refl
