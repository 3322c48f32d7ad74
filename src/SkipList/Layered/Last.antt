-- ===== src/SkipList/Layered/Last.antt =====
-- `FindLessThan` and `FindLast` on a list whose upper levels need not be in order.
use rockscopy.Base.{ℕ, zero, suc, ◌+◌, ◌-◌, ◌≤◌, ◌<◌, ◌≡◌, refl, arith, ◌⊎◌, inl, inr, ◌∙◌, ap}
use rockscopy.Base.{List, [], ◌∷◌, Option, some, length}
use rockscopy.Slice.{Sign}
use rockscopy.SkipList.{SkipList, max_height, find_less_than, find_last_loop, find_last}
use rockscopy.SkipList.Chain.{IsOrder, Among, Links, last_lt}
use rockscopy.SkipList.Less.{less_than-follows, Asserted}
use rockscopy.SkipList.Layered.{IsLayered, IsShort}
use rockscopy.SkipList.Layered.Rounds.{rounds, enough, rounds-enough}
use rockscopy.SkipList.Layered.Find.{first}
use rockscopy.SkipList.Layered.Contains.{from_head}

module _ {K : Type 0} (compare_ : K → K → Sign) (order : IsOrder compare_) (s : SkipList K)
    (chain : ℕ → List ℕ) (ok : IsLayered compare_ s chain) (key : K) where
  -- With a comparator that is a strict order: on a list of at most `n` nodes on a level of which
  -- only the lowest level need be in order, `FindLessThan` returns within 12 * (n + 1) rounds: its
  -- assertion holds in each of them, and what it returns is the last node of the lowest level whose
  -- key is less, or the head.
  pub find_less_than_layered :
      (n fuel : ℕ)
      → IsShort n chain
      → enough n ≤ fuel
      → find_less_than compare_ fuel s key ≡ some (last_lt compare_ s key s.head_ (chain 0))
  unfolding find_less_than
  find_less_than_layered n fuel short fuel_enough =
      let (out, e, good) =
        from_head compare_ order s chain ok key n fuel (some (λ i. s.head_)) short fuel_enough
          (λ i lt. inl refl) in
      let (p, is_p, valid, lowest) = good in
      let at_head : Asserted compare_ s key s.head_ = ground arith in
      less_than-follows compare_ s key fuel (s.max_height_ - 1) s.head_ (λ i. s.head_) p
        (first compare_ order s chain ok key) at_head
        (e ∙ ap (λ (o : Option (ℕ → ℕ)). some (first compare_ order s chain ok key, o)) is_p)
      ∙ ap some lowest

-- The last node of a chain that follows `h`, or `h` itself.
abbrev pub final : ℕ → List ℕ → ℕ
final h [] = h
final h (y ∷ ys) = final y ys

module _ {K : Type 0} (compare_ : K → K → Sign) (s : SkipList K) (chain : ℕ → List ℕ)
    (ok : IsLayered compare_ s chain) where
  -- The walk has come to `x` on a level, with `rest` behind it.
  record Walks (level x : ℕ) (rest : List ℕ) : Type 0 where
    pub linked : Links compare_ s level x rest
    pub place : (x ≡ s.head_) ⊎ Among x (chain level)
    pub members : (z : ℕ) → Among z rest → Among z (chain level)
    pub short : length rest ≤ length (chain level)
    pub same_end : final x rest ≡ final s.head_ (chain level)

  behind :
      (level h : ℕ) (xs : List ℕ) (x : ℕ)
      → Links compare_ s level h xs
      → Among x xs
      → (rest : List ℕ) × Links compare_ s level x rest
        × (length rest ≤ length xs)
        × ((z : ℕ) → Among z rest → Among z xs)
        × (final x rest ≡ final h xs)
  behind level h [] x links m = absurd m
  behind level h (y ∷ ys) x links (inl e) = (ys, rw e links.1, omega arith, λ z m. inr m, rw e refl)
  behind level h (y ∷ ys) x links (inr m) =
      let (rest, l, short, members, same_) = behind level y ys x links.1 m in
      (rest, l, omega (arith, short), λ z k. inr (members z k), same_)

  Walks-on :
      (level x : ℕ)
      → level < max_height
      → (x ≡ s.head_) ⊎ Among x (chain level)
      → (rest : List ℕ) × Walks level x rest
  Walks-on level x lt (inl e) = (
    chain level,
    record {
      linked = rw e (ok.links level lt);
      place = inl e;
      members = λ z m. m;
      short = omega arith;
      same_end = rw e refl;
    },
  )
  Walks-on level x lt (inr m) =
      let (rest, l, short, members, same_) =
        behind level s.head_ (chain level) x (ok.links level lt) m in
      (
        rest,
        record { linked = l; place = inr m; members = members; short = short; same_end = same_ },
      )

  find_last_loop_lem :
      (fuel level x : ℕ) (rest : List ℕ)
      → level < max_height
      → Walks level x rest
      → rounds chain level + length rest < fuel
      → find_last_loop fuel s x level ≡ some (final s.head_ (chain 0))
  unfolding find_last_loop rounds
  find_last_loop_lem zero level x rest lt w enough_ = absurd (omega arith)
  find_last_loop_lem (suc fuel) level x (y ∷ ys) lt w enough_ =
      rw (w.linked.0, find_last_loop)
        (find_last_loop_lem fuel level y ys lt
          (record {
            linked = w.linked.1;
            place = inr (w.members y (inl refl));
            members = λ z m. w.members z (inr m);
            short = omega (arith, w.short);
            same_end = w.same_end;
          })
          (omega arith))
  find_last_loop_lem (suc fuel) zero x [] lt w enough_ =
      rw (w.linked, find_last_loop) (ap some w.same_end)
  find_last_loop_lem (suc fuel) (suc l) x [] lt w enough_ =
      let place : (x ≡ s.head_) ⊎ Among x (chain l) = elim w.place [
        | inl e ↦ inl e
        | inr m ↦ inr (ok.nested l x m)
      ] in
      let (rest, w') = Walks-on l x (omega arith) place in
      rw (w.linked, find_last_loop)
        (find_last_loop_lem fuel l x rest (omega arith) w' (omega (arith, w'.short)))

  -- On a list of at most `n` nodes on a level, whose levels are chains of nodes of the level below,
  -- `FindLast` returns within 12 * (n + 1) rounds: the last node of the lowest level, or the head
  -- if it has none.
  pub find_last_lem :
      (n fuel : ℕ)
      → IsShort n chain
      → enough n ≤ fuel
      → find_last fuel s ≡ some (final s.head_ (chain 0))
  unfolding find_last
  find_last_lem n fuel short fuel_enough =
      let lt : s.max_height_ - 1 < max_height = omega (arith, ok.low, ok.high) in
      let (rest, w) = Walks-on (s.max_height_ - 1) s.head_ lt (inl refl) in
      find_last_loop_lem fuel (s.max_height_ - 1) s.head_ rest lt w (
        omega (arith, w.short, rounds-enough chain n (s.max_height_ - 1) fuel short lt fuel_enough))
