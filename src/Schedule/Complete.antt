-- ===== src/Schedule/Complete.antt =====
-- A complete round of `ArenaRealTime::start_tournament` has every choice of robots exactly once.
use mathlib.Core.Option.{some-injective}
use realtimebattle.Base.{
  ℕ, zero, suc, ◌+◌, ◌-◌, ◌≤◌, ◌<◌, ◌≡◌, refl, sym, ap, ◌∙◌, false, List, [], ◌∷◌, ◌++◌, some,
  arith, ◌==◌, length, length-append, All, get_or, get_elem?, set, Option-cases, Bool-cases, inl,
  inr,
}
use realtimebattle.Base.Int.{pos, pos_part}
use realtimebattle.Double.{Double}
use realtimebattle.Schedule.{
  next_sequence, count_up, round_from, first_sequence, complete_round, binomial,
}
use realtimebattle.Schedule.Rounds.{
  choose, consecutive, IsRising, extend, advance, next_sequence-eq-advance, length-consecutive,
  length-advance, advance-IsRising, consecutive-IsRising,
}
use realtimebattle.Schedule.Count.{
  later, later-consecutive, later-advance-none, later-advance-some, later_injective,
  later-lt-choose,
}

-- `robots_per_game` different robots out of 1 … `number_of_robots`, in rising order.
pub record IsSequence (n r : ℕ) (cs : List ℕ) : Type 0 where
  pub size : length cs ≡ r
  pub rising : IsRising 1 (n + 1 - r) cs

-- The rows are sequences with t - 1, t - 2, … sequences to come.
abbrev CountsDown : ℕ → ℕ → ℕ → List (List ℕ) → Type 0
CountsDown n r t [] = Unit {0}
CountsDown n r t (row ∷ rows) =
    IsSequence n r row × (later n row + 1 ≡ t) × CountsDown n r (later n row) rows

next_sequence-IsSequence :
    (n r : ℕ) (cs : List ℕ)
    → r ≤ n
    → IsSequence n r cs
    → 0 < later n cs
    → (cs' : List ℕ) × (next_sequence n r cs ≡ some cs')
      × IsSequence n r cs'
      × (later n cs' + 1 ≡ later n cs)
next_sequence-IsSequence n r cs small h more =
    rw (next_sequence-eq-advance n r cs h.size) (elim (Option-cases (advance (n + 1 - r) cs)) [
      | inl last ↦
          absurd (omega (arith, later-advance-none 1 (n + 1 - r) n cs (omega arith) h.rising last))
      | inr (cs', e) ↦ (
        cs',
        e,
        record {
          size = length-advance (n + 1 - r) cs e ∙ h.size;
          rising = advance-IsRising 1 (n + 1 - r) cs h.rising e;
        },
        omega (arith, later-advance-some 1 (n + 1 - r) n cs (omega arith) h.rising e),
      )
    ])

round_from-CountsDown :
    (games n r : ℕ) (cs : List ℕ)
    → r ≤ n
    → IsSequence n r cs
    → games ≤ later n cs
    → (rows : List (List ℕ)) × (round_from games n r cs ≡ some rows)
      × (length rows ≡ games)
      × CountsDown n r (later n cs) rows
unfolding round_from
round_from-CountsDown zero n r cs small h enough = ([], refl, refl, tt)
round_from-CountsDown (suc games) n r cs small h enough =
    let (cs', e, h', fewer) = next_sequence-IsSequence n r cs small h (omega arith) in
    let (rows, es, len, down) = round_from-CountsDown games n r cs' small h' (omega arith) in
    (cs' ∷ rows, rw (e, round_from, es, round_from) refl, ap suc len, (h', fewer, down))

count_up-eq-consecutive : (m i : ℕ) → count_up m i ≡ consecutive (i + 1) m
unfolding count_up
count_up-eq-consecutive zero i = refl
count_up-eq-consecutive (suc m) i = ap (◌∷◌ (i + 1)) (count_up-eq-consecutive m (i + 1))

set-last : (m x v : ℕ) → set (consecutive x (suc m)) m v ≡ consecutive x m ++ (v ∷ [])
set-last zero x v = refl
set-last (suc m) x v = ap (◌∷◌ x) (set-last m (x + 1) v)

get_or-last : (m x : ℕ) → get_or (consecutive x (suc m)) m 0 ≡ x + m
get_or-last zero x = omega arith
get_or-last (suc m) x = get_or-last m (x + 1) ∙ omega arith

advance-first :
    (m x limit : ℕ)
    → 0 < x
    → x ≤ limit
    → advance limit (consecutive x m ++ ((x + m - 1) ∷ [])) ≡ some (consecutive x (suc m))
unfolding advance extend
advance-first zero x limit p q =
    let e : x + 0 - 1 + 1 ≡ x = omega arith in
    let below : (x + 0 - 1 == limit) ≡ false = ground arith in rw (below, e)
advance-first (suc m) x limit p q =
    let e : x + suc m - 1 ≡ x + 1 + m - 1 = omega arith in
    rw (e, advance-first m (x + 1) (limit + 1) (omega arith) (omega arith))

first_sequence-eq-append : (r : ℕ) → first_sequence (suc r) ≡ consecutive 1 r ++ ((1 + r - 1) ∷ [])
unfolding first_sequence
first_sequence-eq-append r =
    let last : suc r - 1 ≡ r = omega arith in
    rw (count_up-eq-consecutive r 1, last, get_or-last r 1) (set-last r 1 (1 + r - 1))

next_sequence-first :
    (n r : ℕ)
    → suc r ≤ n
    → next_sequence n (suc r) (first_sequence (suc r)) ≡ some (consecutive 1 (suc r))
next_sequence-first n r h =
    let size : length (first_sequence (suc r)) ≡ suc r =
      ap length (first_sequence-eq-append r)
      ∙ (length-append (consecutive 1 r) _ ∙ omega (arith, length-consecutive r 1)) in
    next_sequence-eq-advance n (suc r) (first_sequence (suc r)) size
    ∙ (ap (advance (n + 1 - suc r)) (first_sequence-eq-append r)
        ∙ advance-first r 1 (n + 1 - suc r) (omega arith) (omega arith))

IsSequence-lt-choose : (n r : ℕ) (cs : List ℕ) → r ≤ n → IsSequence n r cs → later n cs < choose n r
IsSequence-lt-choose n r cs small h =
    let e : n - 0 ≡ n = omega arith in
    rw (e, h.size) at (later-lt-choose 0 (n + 1 - r) n cs (omega (arith, h.size)) h.rising)

complete_round-CountsDown :
    (n r : ℕ)
    → 0 < r
    → r ≤ n
    → (rows : List (List ℕ)) × (complete_round (choose n r) n r ≡ some rows)
      × (length rows ≡ choose n r)
      × CountsDown n r (choose n r) rows
unfolding complete_round round_from
complete_round-CountsDown n zero p q = absurd (omega arith)
complete_round-CountsDown n (suc r) p q =
    let first : List ℕ = consecutive 1 (suc r) in
    let limit_pos : 1 ≤ n + 1 - suc r = omega arith in
    let h : IsSequence n (suc r) first = record {
      size = length-consecutive (suc r) 1;
      rising = consecutive-IsRising (suc r) 1 (n + 1 - suc r) 1 (omega arith) limit_pos;
    } in
    let all : suc (later n first) ≡ choose n (suc r) =
      let e : n - 0 ≡ n = omega arith in rw e at (later-consecutive (suc r) n 0 (omega arith)) in
    let (rows, e, len, down) =
      round_from-CountsDown (later n first) n (suc r) first q h (omega arith) in
    rw (← all) (
      first ∷ rows,
      rw (next_sequence-first n r q, round_from, e, round_from) refl,
      ap suc len,
      (h, omega arith, down),
    )

All-of-CountsDown :
    (n r t : ℕ) (rows : List (List ℕ)) → CountsDown n r t rows → All (IsSequence n r) rows
All-of-CountsDown n r t [] down = tt
All-of-CountsDown n r t (row ∷ rows) (h, e, down) =
    (h, All-of-CountsDown n r (later n row) rows down)

get_elem?-CountsDown :
    (n r t : ℕ) (rows : List (List ℕ)) (cs : List ℕ)
    → r ≤ n
    → length rows ≡ t
    → CountsDown n r t rows
    → IsSequence n r cs
    → later n cs < t
    → get_elem? rows (t - 1 - later n cs) ≡ some cs
get_elem?-CountsDown n r t [] cs small len down h below = absurd (omega arith)
get_elem?-CountsDown n r t (row ∷ rows) cs small len (g, e, down) h below =
    elim (Bool-cases (later n cs == later n row)) [
      | inl same ↦
          let index : t - 1 - later n cs ≡ 0 = ground arith in
          let equal : row ≡ cs =
            later_injective 1 (n + 1 - r) n row cs (g.size ∙ sym h.size) (omega (arith, h.size))
              g.rising h.rising (ground arith) in
          rw (index, equal)
      | inr other ↦
          let index : t - 1 - later n cs ≡ suc (later n row - 1 - later n cs) = ground arith in
          rw index (
            get_elem?-CountsDown n r (later n row) rows cs small (omega arith) down h
              (ground arith))
    ]

index-CountsDown :
    (n r t : ℕ) (rows : List (List ℕ)) (cs : List ℕ) (j : ℕ)
    → CountsDown n r t rows
    → get_elem? rows j ≡ some cs
    → j + later n cs + 1 ≡ t
index-CountsDown n r t [] cs j down e = cc
index-CountsDown n r t (row ∷ rows) cs zero (g, c, down) e =
    let same : row ≡ cs = some-injective _ _ e in rw (← same) (omega arith)
index-CountsDown n r t (row ∷ rows) cs (suc j) (g, c, down) e =
    omega (arith, index-CountsDown n r (later n row) rows cs j down e)

-- A complete round of n over r games.
pub complete_round_once :
    (n r : ℕ)
    → 0 < r
    → r ≤ n
    → (rows : List (List ℕ)) × (complete_round (choose n r) n r ≡ some rows)
      × (length rows ≡ choose n r)
      × All (IsSequence n r) rows
      × ((cs : List ℕ)
          → IsSequence n r cs
          → (i : ℕ) × (get_elem? rows i ≡ some cs) × ((j : ℕ) → get_elem? rows j ≡ some cs → j ≡ i))
complete_round_once n r p q =
    let (rows, e, len, down) = complete_round-CountsDown n r p q in
    (
      rows,
      e,
      len,
      All-of-CountsDown n r (choose n r) rows down,
      λ cs h.
          let below = IsSequence-lt-choose n r cs q h in
          (
            choose n r - 1 - later n cs,
            get_elem?-CountsDown n r (choose n r) rows cs q len down h below,
            λ j found. omega (arith, index-CountsDown n r (choose n r) rows cs j down found, below),
          ),
    )

-- For `robots_per_game` between 1 and the number of robots, and where binomial in its double arithmetic gives the number of
-- groups, n over r: a complete round of as many games as binomial says ends without the fatal error and has n over r
-- rows. Every row is a rising list of r different robots out of 1 … n, and every such list stands in the
-- round at one place and at no other.
pub complete_round_each_once {ℓ} :
    {W : Type ℓ} (d : Double W) (n r : ℕ)
    → 0 < r
    → r ≤ n
    → binomial d n r ≡ pos (choose n r)
    → (rows : List (List ℕ)) × (complete_round (pos_part (binomial d n r)) n r ≡ some rows)
      × (length rows ≡ choose n r)
      × All (IsSequence n r) rows
      × ((cs : List ℕ)
          → IsSequence n r cs
          → (i : ℕ) × (get_elem? rows i ≡ some cs) × ((j : ℕ) → get_elem? rows j ≡ some cs → j ≡ i))
complete_round_each_once d n r p q e =
    let (rows, made, len, seqs, once) = complete_round_once n r p q in
    (rows, ap (λ b. complete_round (pos_part b) n r) e ∙ made, len, seqs, once)
