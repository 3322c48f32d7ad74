-- ===== src/SkipList/Layered/Wait.antt =====
-- A reader comes to its end by its own loads, whatever is stored meanwhile.
use native.Mathlib.Nat.{mul-le-mul_right}
use rockscopy.Base.{
  ℕ, zero, suc, ◌+◌, ◌-◌, ◌*◌, ◌^◌, ◌≤◌, ◌<◌, ◌≡◌, refl, arith, inl, inr, sym, ◌∙◌,
}
use rockscopy.Base.{List, [], ◌∷◌, Option, none, some, Bool, false, Bool-cases, length}
use rockscopy.Slice.{Sign}
use rockscopy.Arena.{Region}
use rockscopy.Arena.Regions.{IsAllocator}
use rockscopy.SkipList.{SkipList, next, key_of, is_less, max_height, equal, contains, last_of}
use rockscopy.SkipList.Chain.{IsOrder, Among}
use rockscopy.SkipList.Position.{is_less-less}
use rockscopy.SkipList.Layered.{IsLayered, IsShort}
use rockscopy.SkipList.Layered.Rounds.{enough}
use rockscopy.SkipList.Layered.Find.{
  HasPassed, Stands, Stands-on, HasStopped, stops_out, stops_before,
}
use rockscopy.SkipList.Layered.Contains.{keys}
use rockscopy.SkipList.Layered.Places.{
  place, place-lt, place-next, place-Within, keep, Links-IsWithoutRepeats,
}
use rockscopy.SkipList.Layered.Ready.{Holds}
use rockscopy.SkipList.Layered.Way.{Leads-AllGrow}
use rockscopy.SkipList.Layered.Watch.{
  Turn, load, store, loads, watch, watch_contains, watch_out, watch_down, watch_along,
}
use rockscopy.SkipList.Layered.Reader.{AllGrow, passed_on}
use rockscopy.SkipList.Layered.Trace.{insert_all}
use rockscopy.SkipList.Layered.Writer.{
  AnswersIn, Some, insert_all_steps, insert_all-AllWrites, watch_contains-insert_all,
}

abbrev pub loads_in : List Turn → ℕ
loads_in [] = 0
loads_in (load ∷ turns) = suc (loads_in turns)
loads_in (store ∷ turns) = loads_in turns

module _ {K : Type 0} (compare_ : K → K → Sign) (order : IsOrder compare_) (n : ℕ)
    (good : List K → Type 0) (key : K) where
  -- The search ends within the turns: what is left to do alone does not matter.
  abbrev Ends : List Turn → List (SkipList K) → SkipList K → ℕ → ℕ → Type 0
  Ends turns ts s x level =
      (r : Option ℕ × SkipList K) × ((left : ℕ)
        → watch compare_ left turns ts s key x level ≡ some r)

  -- Loads enough for the nodes behind `x` on its level and all the levels below.
  abbrev IsEnough : List Turn → SkipList K → (ℕ → List ℕ) → ℕ → ℕ → Type 0
  IsEnough turns s chain x level =
      level * (n + 1) + n < loads_in turns + place x (s.head_ ∷ chain level)

  module _ (s : SkipList K) (chain : ℕ → List ℕ) (ok : IsLayered compare_ s chain) where
    on_level :
        (level x : ℕ)
        → HasPassed compare_ order s chain ok key level x
        → Among x (s.head_ ∷ chain level)
    on_level level x (inl e) = inl e
    on_level level x (inr (m, u)) = inr m

    place-le :
        (level x : ℕ)
        → IsShort n chain
        → HasPassed compare_ order s chain ok key level x
        → place x (s.head_ ∷ chain level) ≤ n
    place-le level x short passed =
        omega (arith, short level, place-lt x (s.head_ ∷ chain level) (on_level level x passed))

    stop_on :
        (turns : List Turn) (ts : List (SkipList K)) (level x : ℕ)
        → IsShort n chain
        → HasPassed compare_ order s chain ok key level x
        → HasStopped compare_ order s chain ok key level x
        → IsEnough (load ∷ turns) s chain x level
        → ((l : ℕ)
            → suc l ≡ level
            → HasPassed compare_ order s chain ok key l x
            → IsEnough turns s chain x l
            → Ends turns ts s x l)
        → Ends (load ∷ turns) ts s x level
    stop_on turns ts zero x short passed stop e below =
        ((next s x 0, s), λ left. watch_out compare_ left turns ts s key x stop.stops)
    stop_on turns ts (suc l) x short passed stop e below =
        let passed' : HasPassed compare_ order s chain ok key l x = elim passed [
          | inl k ↦ inl k
          | inr (m, u) ↦ inr (ok.nested l x m, u)
        ] in
        let (r, ends) = below l refl passed' (omega (arith, e, place-le (suc l) x short passed)) in
        (r, λ left. watch_down compare_ left turns ts s key x l stop.stops ∙ ends left)

    load_on :
        (turns : List Turn) (ts : List (SkipList K)) (level x : ℕ)
        → level < max_height
        → IsShort n chain
        → (rest : List ℕ) → Stands compare_ order s chain ok key level x rest
        → IsEnough (load ∷ turns) s chain x level
        → ((y l : ℕ)
            → l < max_height
            → HasPassed compare_ order s chain ok key l y
            → IsEnough turns s chain y l
            → Ends turns ts s y l)
        → Ends (load ∷ turns) ts s x level
    load_on turns ts level x lt short [] a e on =
        stop_on turns ts level x short a.passed (stops_out compare_ order s chain ok key level x a)
          e (λ l k p f. on x l (omega arith) p f)
    load_on turns ts level x lt short (y ∷ ys) a e on =
        elim (Bool-cases (is_less (compare_ (key_of s y) key))) [
          | inl under ↦
              let further =
                place-next compare_ s level s.head_ x y (chain level) (ok.links level lt)
                  (on_level level x a.passed) a.linked.0 in
              let (r, ends) =
                on y level lt
                  (inr (a.members y (inl refl), is_less-less compare_ s (key_of s y) key under))
                  (omega (arith, e, further)) in
              (
                r,
                λ left.
                    watch_along compare_ left turns ts s key x level y a.linked.0 under ∙ ends left,
              )
          | inr past ↦
              stop_on turns ts level x short a.passed
                (stops_before compare_ order s chain ok key level x y ys a past) e
                (λ l k p f. on x l (omega arith) p f)
        ]

  watch-Ends :
      (turns : List Turn) (ts : List (SkipList K)) (s : SkipList K) (chain : ℕ → List ℕ)
      (ok : IsLayered compare_ s chain)
      → IsShort n chain
      → AllGrow compare_ order n good s chain ts
      → (x level : ℕ) → level < max_height
      → HasPassed compare_ order s chain ok key level x
      → IsEnough turns s chain x level
      → Ends turns ts s x level
  watch-Ends [] ts s chain ok short grows x level lt passed e =
      absurd (omega (arith, e, place-le s chain ok level x short passed))
  watch-Ends (store ∷ turns) [] s chain ok short grows x level lt passed e =
      watch-Ends turns [] s chain ok short grows x level lt passed e
  watch-Ends (store ∷ turns) (t ∷ ts) s chain ok short (chain', g, more) x level lt passed e =
      let kept : place x (s.head_ ∷ chain level) ≤ place x (s.head_ ∷ chain' level) =
        place-Within x (keep s.head_ (g.between level))
          (rw (← g.head)
            (Links-IsWithoutRepeats compare_ t level t.head_ (chain' level) (g.ok.links level lt)))
          (on_level s chain ok level x passed) in
      watch-Ends turns ts t chain' g.ok g.short more x level lt
        (passed_on compare_ order n good s t chain chain' ok g key level x passed)
        (rw (g.head) (omega (arith, e, kept)))
  watch-Ends (load ∷ turns) ts s chain ok short grows x level lt passed e =
      let (rest, a) = Stands-on compare_ order s chain ok key level x lt passed in
      load_on s chain ok turns ts level x lt short rest a e
        (λ y l below p f. watch-Ends turns ts s chain ok short grows y l below p f)

module _ {K : Type 0} (new_chars : List Region → ℕ → ℕ) (law : IsAllocator new_chars)
    (node_bytes : ℕ) (pos : 0 < node_bytes) (fits : node_bytes ≤ 2 ^ 63) (compare_ : K → K → Sign)
    (order : IsOrder compare_) where
  ends_contains :
      (turns : List Turn) (ts : List (SkipList K)) (s t : SkipList K) (q : K) (top left : ℕ)
      (found : Option ℕ)
      → watch compare_ left turns ts s q s.head_ top ≡ some (found, t)
      → watch_contains compare_ left turns ts s q top
        ≡ elim found [ none ↦ some false | some m ↦ some (equal compare_ q (key_of t m)) ]
  ends_contains turns ts s t q top left found e = rw (watch_contains, e) refl

  -- Over an allocator that gives aligned and fresh blocks, with `sizeof(Node)` from 1 to 2^63, with
  -- a comparator that is a strict order, and with line 124 read as the store of the new node's
  -- link: on a list that `Holds` (as for `insert_lem`), with at most `n` nodes on a level, while
  -- another thread inserts m more keys, one after another, by the steps of `Insert`
  -- (`insert_all_steps`), the last of which leaves what the insertions end with: a `Contains` from
  -- any level below 12 that gets 12 * (n + m + 1) rounds is at its end within them, however many
  -- steps of the other thread come before each of its rounds, and no round is left to do alone. Its
  -- answer is `true` exactly if the key is along the lowest level of one of the lists that there
  -- were meanwhile. With rounds of the reader only, from the level of `max_height_`, it is the
  -- `Contains` of one thread.
  pub watch_contains-ends :
      (n fuel k top : ℕ) (more : List K) (s : SkipList K) (chain : ℕ → List ℕ) (live : List Region)
      (turns : List Turn) (q : K)
      → Holds node_bytes compare_ s chain n live
      → enough (length more + n) ≤ fuel
      → enough (length more + n) ≤ loads_in turns
      → top < max_height
      → (ts : List (SkipList K)) × (insert_all_steps new_chars node_bytes compare_ fuel more s
          ≡ some ts)
        × (insert_all new_chars node_bytes compare_ fuel more s ≡ some (last_of s ts))
        × (watch_contains compare_ fuel (loads k) ts s q (s.max_height_ - 1)
            ≡ contains compare_ (k + fuel) s q)
        × (b : Bool) × ((left : ℕ) → watch_contains compare_ left turns ts s q top ≡ some b)
        × AnswersIn compare_ b q (s ∷ ts)
  watch_contains-ends n fuel k top more s chain live turns q held fuel_enough loads_enough lt =
      let w =
        insert_all-AllWrites new_chars law node_bytes pos fits compare_ order fuel more n s chain
          live held fuel_enough in
      let (ts, staged, ended, alone, reads) =
        watch_contains-insert_all new_chars law node_bytes pos fits compare_ order n fuel k top more
          s chain live turns q held fuel_enough lt in
      let (b, answers, right, _, _) = reads in
      let N = length more + n in
      let low : top ≤ 11 = omega arith in
      let good = Some more (keys s (chain 0)) in
      let same_ : w.ts ≡ ts = cc (w.staged, staged) in
      let (r, ends) =
        watch-Ends compare_ order N good q turns w.ts s chain held.ok
          (λ j. omega (arith, held.short j))
          (Leads-AllGrow compare_ order N good s w.list chain w.chain' w.ts w.way) s.head_ top lt
          (inl refl) (omega (arith, mul-le-mul_right (N + 1) low)) in
      (
        ts,
        staged,
        ended,
        alone,
        b,
        λ left.
            ends_contains turns ts s r.1 q top left r.0 (rw (← same_) (ends left))
            ∙ sym (ends_contains turns ts s r.1 q top fuel r.0 (rw (← same_) (ends fuel)))
            ∙ answers,
        right,
      )
