-- ===== src/Schedule/Inside.antt =====
-- The matches that are left over in src/ArenaRealTime.cc: values of rand() that each draw a robot never lead outside
-- the arrays.
use mathlib.Core.Path.{subst}
use realtimebattle.Base.{
  refl, ℕ, zero, suc, ◌<◌, ◌≡◌, ◌≢◌, List, [], ◌∷◌, get_elem?, get_elem?-within, inl, inr, Option,
  none, some, arith, All, Bool-cases,
}
use realtimebattle.Double.{Double}
use realtimebattle.Schedule.Rest.{
  Entrant, Draw, Outcome, done, starved, fault, is_refused, drawn, place, match_row, rest_rows,
  bind, taken,
}
use realtimebattle.Schedule.Fair.{IsFair, enrol-IsFair, clear-IsFair}

module _ {ℓ} {W : Type ℓ} (d : Double W) (rand_max n : ℕ) where
  -- The value draws a robot that is there.
  abbrev pub IsWithin : ℕ → Type 0
  IsWithin r = drawn d rand_max n r < n

  -- The state is fair, and the values that are left are within.
  abbrev Inside {κ} : {A : Type κ} → (A → Draw) → Outcome A → Type 0
  Inside state (done a rands) = IsFair n (state a) × All IsWithin rands
  Inside state starved = Unit
  Inside state fault = ⊥

  Inside-bind {κ ι} :
      {A : Type κ} {B : Type ι} (p : A → Draw) (q : B → Draw) (o : Outcome A)
      (f : A → List ℕ → Outcome B)
      → Inside p o
      → ((a : A) (rands : List ℕ) → IsFair n (p a) → All IsWithin rands → Inside q (f a rands))
      → Inside q (bind o f)
  Inside-bind p q (done a rands) f (g, w) k = k a rands g w
  Inside-bind p q starved f h k = tt
  Inside-bind p q fault f h k = h

  taken-Inside :
      (s : Draw) (nr : ℕ) (rands : List ℕ) (again : Outcome (ℕ × Draw)) (o : Option Entrant)
      → IsFair n s
      → get_elem? s.entrants nr ≡ o
      → nr < n
      → All IsWithin rands
      → Inside (λ a. a.1) again
      → Inside (λ a. a.1) (taken n s nr rands again o)
  unfolding taken
  taken-Inside s nr rands again none f at lt w h =
      let (e, there) = get_elem?-within s.entrants nr (omega (arith, f.size, lt)) in cc
  taken-Inside s nr rands again (some e) f at lt w h = elim (Bool-cases (is_refused s e)) [
    | inl refused ↦ rw refused h
    | inr free ↦ rw free (enrol-IsFair n s nr f at free, w)
  ]

  place-Inside :
      (s : Draw) (rands : List ℕ)
      → IsFair n s
      → All IsWithin rands
      → Inside (λ a. a.1) (place d rand_max n s rands)
  unfolding place
  place-Inside s [] f w = tt
  place-Inside s (r ∷ rands) f (lt, w) =
      taken-Inside s (drawn d rand_max n r) rands _ _ f refl lt w (place-Inside s rands f w)

  match_row-Inside :
      (places : ℕ) (s : Draw) (rands : List ℕ)
      → IsFair n s
      → All IsWithin rands
      → Inside (λ a. a.1) (match_row d rand_max n places s rands)
  unfolding match_row
  match_row-Inside zero s rands f w = (f, w)
  match_row-Inside (suc places) s rands f w =
      Inside-bind _ _ (place d rand_max n s rands) _ (place-Inside s rands f w)
        (λ (nr, s') rands' f' w'.
          Inside-bind _ _ (match_row d rand_max n places s' rands') _
            (match_row-Inside places s' rands' f' w') (λ (row, s'') rands'' g v. (g, v)))

  rest_rows-Inside :
      (games places : ℕ) (s : Draw) (rands : List ℕ)
      → IsFair n s
      → All IsWithin rands
      → Inside (λ a. a.1) (rest_rows d rand_max n games places s rands)
  unfolding rest_rows
  rest_rows-Inside zero places s rands f w = (f, w)
  rest_rows-Inside (suc games) places s rands f w =
      Inside-bind _ _ (match_row d rand_max n places _ rands) _
        (match_row-Inside places _ rands (clear-IsFair n s f) w)
        (λ (row, s') rands' f' w'.
          Inside-bind _ _ (rest_rows d rand_max n games places s' rands') _
            (rest_rows-Inside games places s' rands' f' w') (λ (rows, s'') rands'' g v. (g, v)))

  pub rest_rows_inside :
      (games places : ℕ) (s : Draw) (rands : List ℕ)
      → IsFair n s
      → All IsWithin rands
      → rest_rows d rand_max n games places s rands ≢ fault
  rest_rows_inside games places s rands f w e =
      let state : List (List ℕ) × Draw → Draw = λ a. a.1 in
      let inside : Inside state fault =
        subst (Inside state) e (rest_rows-Inside games places s rands f w) in
      inside
