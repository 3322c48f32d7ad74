-- ===== src/SkipList/Layered/Find.antt =====
-- `FindGreatOrEqual` on a list whose upper levels need not be in order.
use mathlib.Core.Option
use rockscopy.Base.{
  ℕ, zero, suc, ◌+◌, ◌≤◌, ◌<◌, ◌≡◌, refl, arith, ◌⊎◌, inl, inr, sym, ◌∙◌, ap, update,
}
use rockscopy.Base.{List, [], ◌∷◌, Option, none, some, length, true, false, Bool-cases, ◌==◌}
use rockscopy.Slice.{Sign}
use rockscopy.SkipList.{SkipList, next, key_of, key_is_after_node, is_less, max_height, find_loop}
use rockscopy.SkipList.Chain.{IsOrder, Among, Links, first_ge, last_lt}
use rockscopy.SkipList.Position.{Under, At, At-advance, At-descend, is_less-less}
use rockscopy.SkipList.Search.{find_loop_along, find_loop_down, find_loop_out, Stops}
use rockscopy.SkipList.Layered.{IsLayered, IsPrev}
use rockscopy.SkipList.Layered.Rounds.{rounds}

module _ {K : Type 0} (compare_ : K → K → Sign) (order : IsOrder compare_) (s : SkipList K)
    (chain : ℕ → List ℕ) (ok : IsLayered compare_ s chain) (key : K) where
  abbrev pub first : Option ℕ
  first = first_ge compare_ s key (chain 0)

  abbrev pub last : ℕ
  last = last_lt compare_ s key s.head_ (chain 0)

  -- A node of a level has the rest of the level behind it.
  behind :
      (level p : ℕ) (xs : List ℕ) (x : ℕ)
      → Links compare_ s level p xs
      → Among x xs
      → (rest : List ℕ) × Links compare_ s level x rest
        × (length rest ≤ length xs)
        × ((z : ℕ) → Among z rest → Among z xs)
  behind level p [] x links m = absurd m
  behind level p (y ∷ ys) x links (inl e) = (ys, rw e links.1, omega arith, λ z m. inr m)
  behind level p (y ∷ ys) x links (inr m) =
      let (rest, l, short, members) = behind level y ys x links.1 m in
      (rest, l, omega (arith, short), λ z k. inr (members z k))

  abbrev pub HasPassed : ℕ → ℕ → Type 0
  HasPassed level x = (x ≡ s.head_) ⊎ (Among x (chain level) × Under compare_ s key x)

  -- The search has come to `x` on a level, with `rest` behind it; on the lowest level, what it looks
  -- for lies in `rest`.
  pub record Stands (level x : ℕ) (rest : List ℕ) : Type 0 where
    pub linked : Links compare_ s level x rest
    pub passed : HasPassed level x
    pub short : length rest ≤ length (chain level)
    pub members : (z : ℕ) → Among z rest → Among z (chain level)
    pub lowest : level ≡ 0 → At compare_ s key (chain 0) 0 x rest

  pub Stands-on :
      (level x : ℕ) → level < max_height → HasPassed level x → (rest : List ℕ) × Stands level x rest
  Stands-on zero x lt passed =
      let (rest, a) =
        At-descend compare_ s order key (chain 0) 0 x (ok.links 0 lt) ok.ascending passed in
      (
        rest,
        record {
          linked = a.linked;
          passed = passed;
          short = a.short;
          members = a.members;
          lowest = λ e. a;
        },
      )
  Stands-on (suc l) x lt (inl e) = (
    chain (suc l),
    record {
      linked = rw e (ok.links (suc l) lt);
      passed = inl e;
      short = omega arith;
      members = λ z m. m;
      lowest = λ e'. absurd (omega arith);
    },
  )
  Stands-on (suc l) x lt (inr (m, u)) =
      let (rest, linked, short, members) =
        behind (suc l) s.head_ (chain (suc l)) x (ok.links (suc l) lt) m in
      (
        rest,
        record {
          linked = linked;
          passed = inr (m, u);
          short = short;
          members = members;
          lowest = λ e. absurd (omega arith);
        },
      )

  Stands-along :
      (level x y : ℕ) (ys : List ℕ)
      → Stands level x (y ∷ ys)
      → is_less (compare_ (key_of s y) key) ≡ true
      → Stands level y ys
  Stands-along level x y ys a under = record {
    linked = a.linked.1;
    passed = inr (a.members y (inl refl), is_less-less compare_ s (key_of s y) key under);
    short = omega (arith, a.short);
    members = λ z m. a.members z (inr m);
    lowest = λ e. At-advance compare_ s y ys (a.lowest e) under;
  }

  -- The array to fill, before and after the search.
  abbrev pub IsIn : Option (ℕ → ℕ) → Type 0
  IsIn none = Unit {0}
  IsIn (some p) = IsPrev s.head_ chain p

  abbrev pub IsOut : Option (ℕ → ℕ) → Option (ℕ → ℕ) → Type 0
  IsOut none out = out ≡ none
  IsOut (some p) out = (p' : ℕ → ℕ) × (out ≡ some p') × IsPrev s.head_ chain p' × (p' 0 ≡ last)

  update-IsPrev :
      (p : ℕ → ℕ) (level x : ℕ)
      → IsPrev s.head_ chain p
      → HasPassed level x
      → IsPrev s.head_ chain (update p level x)
  update-IsPrev p level x h passed i lt = elim (Bool-cases (level == i)) [
    | inl here ↦
        let e : level ≡ i = ground arith in
        elim passed [ inl at_head ↦ inl (ground arith) | inr (m, u) ↦ inr (rw (here, ← e) m) ]
    | inr there ↦ rw there (h i lt)
  ]

  update-IsIn :
      (prev : Option (ℕ → ℕ)) (level x : ℕ)
      → IsIn prev
      → HasPassed level x
      → IsIn (Option.map (λ p. update p level x) prev)
  update-IsIn none level x h passed = tt
  update-IsIn (some p) level x h passed = update-IsPrev p level x h passed

  abbrev pub Answers : ℕ → ℕ → ℕ → Option (ℕ → ℕ) → Type 0
  Answers fuel level x prev =
      (out : Option (ℕ → ℕ)) × (find_loop compare_ fuel s key prev x level ≡ some (first, out))
      × IsOut prev out

  -- The loop stops on a level; on the lowest, this is where the answer lies.
  pub record HasStopped (level x : ℕ) : Type 0 where
    pub stops : Stops compare_ s key (next s x level)
    pub found : level ≡ 0 → first ≡ next s x 0
    pub before : level ≡ 0 → last ≡ x

  pub stops_out : (level x : ℕ) → Stands level x [] → HasStopped level x
  unfolding key_is_after_node
  stops_out level x a = record {
    stops = rw a.linked refl;
    found = λ e. (a.lowest e).found ∙ sym (a.lowest e).linked;
    before = λ e. (a.lowest e).before;
  }

  pub stops_before :
      (level x y : ℕ) (ys : List ℕ)
      → Stands level x (y ∷ ys)
      → is_less (compare_ (key_of s y) key) ≡ false
      → HasStopped level x
  unfolding key_is_after_node
  stops_before level x y ys a past = record {
    stops = rw a.linked.0 past;
    found = λ e. (a.lowest e).found ∙ rw (past, first_ge) (sym (a.lowest e).linked.0);
    before = λ e. (a.lowest e).before ∙ rw (past, last_lt);
  }

  IsOut-at_end :
      (prev : Option (ℕ → ℕ)) (x : ℕ)
      → IsIn prev
      → HasPassed 0 x
      → last ≡ x
      → IsOut prev (Option.map (λ p. update p 0 x) prev)
  IsOut-at_end none x h passed e = refl
  IsOut-at_end (some p) x h passed e = (update p 0 x, refl, update-IsPrev p 0 x h passed, sym e)

  IsOut-below :
      (prev out : Option (ℕ → ℕ)) (l x : ℕ)
      → IsOut (Option.map (λ p. update p l x) prev) out
      → IsOut prev out
  IsOut-below none out l x h = h
  IsOut-below (some p) out l x h = h

  leave :
      (fuel level x : ℕ) (prev : Option (ℕ → ℕ))
      → level < max_height
      → HasStopped level x
      → HasPassed level x
      → IsIn prev
      → rounds chain level < suc fuel
      → ((l : ℕ) (rest : List ℕ) (prev' : Option (ℕ → ℕ))
          → l < max_height
          → Stands l x rest
          → IsIn prev'
          → rounds chain l + length rest < fuel
          → Answers fuel l x prev')
      → Answers (suc fuel) level x prev
  unfolding rounds
  leave fuel zero x prev lt stop passed h enough lower = (
    Option.map (λ p. update p 0 x) prev,
    find_loop_out compare_ s key fuel x prev stop.stops
        ∙ ap (λ (t : Option ℕ). some (t, Option.map (λ p. update p 0 x) prev))
            (sym (stop.found refl)),
    IsOut-at_end prev x h passed (stop.before refl),
  )
  leave fuel (suc l) x prev lt stop passed h enough lower =
      let passed' : HasPassed l x = elim passed [
        | inl e ↦ inl e
        | inr (m, u) ↦ inr (ok.nested l x m, u)
      ] in
      let (rest, a) = Stands-on l x (omega arith) passed' in
      let prev' = Option.map (λ p. update p (suc l) x) prev in
      let (out, e, good) =
        lower l rest prev' (omega arith) a (update-IsIn prev (suc l) x h passed)
          (omega (arith, a.short)) in
      (
        out,
        find_loop_down compare_ s key fuel x l prev stop.stops ∙ e,
        IsOut-below prev out (suc l) x good,
      )

  pub find_loop_lem :
      (fuel level x : ℕ) (rest : List ℕ) (prev : Option (ℕ → ℕ))
      → level < max_height
      → Stands level x rest
      → IsIn prev
      → rounds chain level + length rest < fuel
      → Answers fuel level x prev
  find_loop_lem zero level x rest prev lt a h enough = absurd (omega arith)
  find_loop_lem (suc fuel) level x [] prev lt a h enough =
      leave fuel level x prev lt (stops_out level x a) a.passed h (omega arith)
        (λ l rest prev'. find_loop_lem fuel l x rest prev')
  find_loop_lem (suc fuel) level x (y ∷ ys) prev lt a h enough =
      elim (Bool-cases (is_less (compare_ (key_of s y) key))) [
        | inl under ↦
            let (out, e, good) =
              find_loop_lem fuel level y ys prev lt (Stands-along level x y ys a under) h
                (omega arith) in
            (out, find_loop_along compare_ s key fuel x level y prev a.linked.0 under ∙ e, good)
        | inr past ↦
            leave fuel level x prev lt (stops_before level x y ys a past) a.passed h (omega arith)
              (λ l rest prev'. find_loop_lem fuel l x rest prev')
      ]
