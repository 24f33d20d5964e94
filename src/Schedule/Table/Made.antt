-- ===== src/Schedule/Table/Made.antt =====
-- The table of sequences that src/ArenaRealTime.cc makes is right, and can be made.
use mathlib.Core.Path.{subst}
use native.Mathlib.Nat.{div-add-mod'}
use realtimebattle.Base.{
  ℕ, zero, suc, ◌+◌, ◌*◌, ◌/◌, ◌%◌, ◌≤◌, ◌<◌, ◌≡◌, refl, sym, ◌∙◌, inl, true, false, List, [], ◌∷◌,
  ◌++◌, arith, length, length-append, All-append, length-replicate, ◌==◌, if◌then◌else◌,
}
use realtimebattle.Base.Int.{pos}
use realtimebattle.Double.{Double}
use realtimebattle.Schedule.{binomial}
use realtimebattle.Schedule.Complete.{IsSequence, complete_round_once}
use realtimebattle.Schedule.Draws.{Ends, CanDraw, Rows, rest_rows-Rows, rest_rows_can_end}
use realtimebattle.Schedule.Fair.{IsFair}
use realtimebattle.Schedule.Rest.{Entrant, Draw, Outcome, done, starved, fault, drawn, rest_rows}
use realtimebattle.Schedule.Rounds.{choose}
use realtimebattle.Schedule.Shuffle.{swap, shuffle, reorder_pointer_array}
use realtimebattle.Schedule.Table.{
  Tabled, made, no_sequence, no_value, out_of_array, first_draw, all_rounds, with_rest,
  robots_in_sequence,
}
use realtimebattle.Schedule.Table.Kept.{
  IsKept, reorder-keeps, IsRow, IsSequence-IsRow, All-map, All-both, count-replicate, All-replicate,
}

module _ {ℓ} {W : Type ℓ} (d : Double W) (rand_max n r : ℕ) where
  -- So many rows, if there is a table.
  abbrev pub IsTable : ℕ → Tabled → Type 0
  IsTable k (made rows rands) = IsKept (IsRow n r) k rows
  IsTable k no_sequence = ⊥
  IsTable k no_value = Unit
  IsTable k out_of_array = Unit

  recount : {k k' : ℕ} (t : Tabled) → k ≡ k' → IsTable k t → IsTable k' t
  recount t e h = subst (λ x. IsTable x t) e h

  all_rounds-IsTable :
      0 < r
      → r ≤ n
      → (rounds k : ℕ) (rows : List (List ℕ)) (rands : List ℕ) → IsKept (IsRow n r) k rows
      → IsTable (k + rounds * choose n r) (all_rounds d rand_max n r (choose n r) rounds rows rands)
  unfolding all_rounds
  all_rounds-IsTable p q zero k rows rands h = recount (made rows rands) (omega arith) h
  all_rounds-IsTable p q (suc rounds) k rows rands (len, h) =
      let (new, e, size, seqs, once) = complete_round_once n r p q in
      let g = choose n r in
      let both : IsKept (IsRow n r) (k + g) (rows ++ new) = (
        length-append rows new ∙ omega (arith, len, size),
        All-append (IsRow n r) rows new h
            (All-map (IsSequence n r) (IsRow n r) new (λ cs s. IsSequence-IsRow n r cs q s) seqs),
      ) in
      recount _ (regroup k rounds g) (
        rw (e, IsTable)
          (shuffled (reorder_pointer_array d rand_max g (rows ++ new) rands)
            (reorder-keeps (IsRow n r) d rand_max g (k + g) (rows ++ new) rands both)
            (all_rounds-IsTable p q rounds (k + g))))
    where
      regroup : (k rounds g : ℕ) → k + g + rounds * g ≡ k + suc rounds * g
      regroup k rounds g = grind arith

      shuffled :
          (o : Outcome (List (List ℕ)))
          → Ends (IsKept (IsRow n r) (k + choose n r)) o
          → ((rows' : List (List ℕ)) (rands' : List ℕ)
              → IsKept (IsRow n r) (k + choose n r) rows'
              → IsTable
                  (k + choose n r + rounds * choose n r)
                  (all_rounds d rand_max n r (choose n r) rounds rows' rands'))
          → IsTable (k + choose n r + rounds * choose n r) (elim o [
            | done rows' rands' ↦ all_rounds d rand_max n r (choose n r) rounds rows' rands'
            | starved ↦ no_value
            | fault ↦ out_of_array
          ])
      shuffled (done rows' rands') h more = more rows' rands' h
      shuffled starved h more = tt
      shuffled fault h more = tt

  first_draw-IsFair : 0 < n → IsFair n (first_draw n)
  first_draw-IsFair p =
      let e : Entrant = record { playing = false; played = 0 } in
      record {
        size = length-replicate n e;
        near = All-replicate _ n e (inl refl);
        on_min = sym (count-replicate (λ x. x.played == 0) n e);
        some_left = p;
        room = inl (count-replicate (λ x. if x.playing then x.played == 0 else false) n e);
      }

  with_rest-IsTable :
      (rem k : ℕ) (t : Tabled)
      → 0 < n
      → IsTable k t
      → IsTable (k + rem) (with_rest d rand_max n r rem t)
  unfolding with_rest
  with_rest-IsTable rem k (made rows rands) p (len, h) =
      drawn_rest (rest_rows d rand_max n rem r (first_draw n) rands)
        (rest_rows-Rows d rand_max n rem r (first_draw n) rands (first_draw-IsFair p))
    where
      drawn_rest :
          (o : Outcome (List (List ℕ) × Draw))
          → Ends (Rows d rand_max n rem r) o
          → IsTable (k + rem) (elim o [
            | done (more, s) rands' ↦ made (rows ++ more) rands'
            | starved ↦ no_value
            | fault ↦ out_of_array
          ])
      drawn_rest (done (more, s) rands') (size, lens, numbers, fair) = (
        length-append rows more ∙ omega (arith, len, size),
        All-append (IsRow n r) rows more h (All-both (λ row. length row ≡ r) _ more lens numbers),
      )
      drawn_rest starved e = tt
      drawn_rest fault e = tt
  with_rest-IsTable rem k no_sequence p h = h
  with_rest-IsTable rem k no_value p h = tt
  with_rest-IsTable rem k out_of_array p h = tt

  -- Random values with which no shuffle moves a row: each is drawn twice.
  pairs : ℕ → List ℕ → List ℕ
  pairs zero rest = rest
  pairs (suc k) rest = 0 ∷ 0 ∷ pairs k rest

  all_pairs : ℕ → ℕ → List ℕ → List ℕ
  all_pairs size zero rest = rest
  all_pairs size (suc rounds) rest = pairs (size * 5) (all_pairs size rounds rest)

  shuffle-pairs :
      (size rounds : ℕ) (rows : List (List ℕ)) (rest : List ℕ)
      → shuffle d rand_max size rounds rows (pairs rounds rest) ≡ done rows rest
  unfolding shuffle pairs swap
  shuffle-pairs size zero rows rest = refl
  shuffle-pairs size (suc rounds) rows rest =
      rw (same (drawn d rand_max size 0)) (shuffle-pairs size rounds rows rest)
    where
      same : (k : ℕ) → (k == k) ≡ true
      same k = ground arith

  all_rounds_end :
      0 < r
      → r ≤ n
      → (rounds : ℕ) (rows : List (List ℕ)) (rest : List ℕ)
      → (rows' : List (List ℕ)) × (all_rounds d rand_max n r
            (choose n r)
            rounds
            rows
            (all_pairs (choose n r) rounds rest)
          ≡ made rows' rest)
  unfolding all_rounds all_pairs
  all_rounds_end p q zero rows rest = (rows, refl)
  all_rounds_end p q (suc rounds) rows rest =
      let (new, e, size, seqs, once) = complete_round_once n r p q in
      let (rows', ends) = all_rounds_end p q rounds (rows ++ new) rest in
      let still : reorder_pointer_array d rand_max (choose n r) (rows ++ new)
            (pairs (choose n r * 5) (all_pairs (choose n r) rounds rest))
          ≡ done (rows ++ new) (all_pairs (choose n r) rounds rest) =
        unfold reorder_pointer_array in
        shuffle-pairs (choose n r) (choose n r * 5) (rows ++ new)
          (all_pairs (choose n r) rounds rest) in
      (rows', rw (e, all_rounds, still) ends)

  with_rest_end :
      (rem : ℕ) (rows : List (List ℕ)) (rands : List ℕ) (more : List (List ℕ)) (s : Draw)
      → rest_rows d rand_max n rem r (first_draw n) rands ≡ done (more, s) []
      → with_rest d rand_max n r rem (made rows rands) ≡ made (rows ++ more) []
  unfolding with_rest
  with_rest_end rem rows rands more s e = rw (e, with_rest) refl

  -- For robots enough for a game, and where binomial gives their number of groups: if the rows of
  -- robots_in_sequence are made, there is one for each sequence, with as many numbers as a game has
  -- robots, all from 1 to the number of robots; the fatal error never comes; and if rand() can yield every
  -- robot, there are values of rand() with which they are made.
  pub robots_in_sequence-IsTable :
      (n_o_sequences : ℕ)
      → 0 < r
      → r ≤ n
      → binomial d n r ≡ pos (choose n r)
      → ((rands : List ℕ)
          → IsTable n_o_sequences (robots_in_sequence d rand_max n r n_o_sequences rands))
        × (CanDraw d rand_max n
            → (rands : List ℕ) × (rows : List (List ℕ)) × (robots_in_sequence d rand_max n r
                  n_o_sequences rands
                ≡ made rows []))
  unfolding robots_in_sequence
  robots_in_sequence-IsTable n_o p q e =
      let g = choose n r in
      let rounds = n_o / g in
      (
        λ rands. rw e (
            recount _ (mod_div n_o g) (
              with_rest-IsTable (n_o % g) (0 + rounds * g) _ (omega (arith, p, q))
                (all_rounds-IsTable p q rounds 0 [] rands (refl, tt)))),
        λ can.
            let (rands, (more, s), ends) =
              rest_rows_can_end d rand_max n can (n_o % g) r (first_draw n)
                (first_draw-IsFair (omega (arith, p, q))) q in
            let (rows, first) = all_rounds_end p q rounds [] (rands ++ []) in
            (
              all_pairs g rounds (rands ++ []),
              rows ++ more,
              rw (e, first) (with_rest_end (n_o % g) rows (rands ++ []) more s (ends [])),
            ),
      )
    where
      mod_div : (a b : ℕ) → 0 + a / b * b + a % b ≡ a
      mod_div a b = omega (arith, div-add-mod' a b)
