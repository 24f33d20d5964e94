-- ===== src/Schedule/Draws.antt =====
-- The matches that are left over after the complete rounds of src/ArenaRealTime.cc: what each loop of
-- the draw keeps, and that there are always values of rand() with which it ends.
use realtimebattle.Base.{
  ℕ, zero, suc, ◌+◌, ◌≤◌, ◌<◌, ◌≡◌, ◌≢◌, refl, ap, List, [], ◌∷◌, map, ◌++◌, get_elem?, inl, inr,
  Option, none, some, arith, All, length, count, get_elem?-lt, Bool-cases,
}
use realtimebattle.Double.{Double}
use realtimebattle.Schedule.Rest.{
  Entrant, Draw, Outcome, done, starved, fault, enrol, is_refused, clear, drawn, place, match_row,
  rest_rows, bind, taken,
}
use realtimebattle.Schedule.Inside.{IsWithin, rest_rows_inside}
use realtimebattle.Schedule.Fair.{
  IsFair, enrol-IsFair, clear-IsFair, is_playing, count_playing-clear, IsFair-Candidate,
  count_playing-enrol, IsNear,
}

-- What holds of the result, if there is one.
abbrev pub Ends {ℓ κ} : {A : Type ℓ} (P : A → Type κ) → Outcome A → Type κ
Ends P (done a rands) = P a
Ends P starved = Unit
Ends P fault = Unit

Ends-bind {ℓ κ ℓ' κ'} :
    {A : Type ℓ} {B : Type κ} (P : A → Type ℓ') (Q : B → Type κ') (o : Outcome A)
    (f : A → List ℕ → Outcome B)
    → Ends P o
    → ((a : A) (rands : List ℕ) → P a → Ends Q (f a rands))
    → Ends Q (bind o f)
Ends-bind P Q (done a rands) f h k = k a rands h
Ends-bind P Q starved f h k = tt
Ends-bind P Q fault f h k = tt

append_assoc : (xs ys zs : List ℕ) → (xs ++ ys) ++ zs ≡ xs ++ (ys ++ zs)
append_assoc [] ys zs = refl
append_assoc (x ∷ xs) ys zs = ap (λ ws. x ∷ ws) (append_assoc xs ys zs)

taken-IsFair :
    (n : ℕ) (s : Draw) (nr : ℕ) (rands : List ℕ) (again : Outcome (ℕ × Draw)) (o : Option Entrant)
    → IsFair n s
    → get_elem? s.entrants nr ≡ o
    → Ends (λ a. (a.0 < n) × IsFair n a.1) again
    → Ends (λ a. (a.0 < n) × IsFair n a.1) (taken n s nr rands again o)
unfolding taken
taken-IsFair n s nr rands again none f at h = tt
taken-IsFair n s nr rands again (some e) f at h = elim (Bool-cases (is_refused s e)) [
  | inl refused ↦ rw refused h
  | inr free ↦
      rw free (omega (arith, get_elem?-lt s.entrants nr at, f.size), enrol-IsFair n s nr f at free)
]

module _ {ℓ} {W : Type ℓ} (d : Double W) (rand_max n : ℕ) where
  place-IsFair :
      (s : Draw) (rands : List ℕ)
      → IsFair n s
      → Ends (λ a. (a.0 < n) × IsFair n a.1) (place d rand_max n s rands)
  unfolding place
  place-IsFair s [] f = tt
  place-IsFair s (r ∷ rands) f =
      taken-IsFair n s (drawn d rand_max n r) rands _ _ f refl (place-IsFair s rands f)

  -- A number of a robot, which counts from 1.
  abbrev pub IsNumber : ℕ → Type 0
  IsNumber nr = (0 < nr) × (nr ≤ n)

  match_row-IsFair :
      (places : ℕ) (s : Draw) (rands : List ℕ)
      → IsFair n s
      → Ends
          (λ a. (length a.0 ≡ places) × All IsNumber a.0 × IsFair n a.1)
          (match_row d rand_max n places s rands)
  unfolding match_row
  match_row-IsFair zero s rands f = (refl, tt, f)
  match_row-IsFair (suc places) s rands f =
      Ends-bind _ _ (place d rand_max n s rands) _ (place-IsFair s rands f)
        (λ (nr, s') rands' (lt, f').
          Ends-bind _ _ (match_row d rand_max n places s' rands') _
            (match_row-IsFair places s' rands' f')
            (λ (row, s'') rands'' g. (ap suc g.0, ((omega arith, omega (arith, lt)), g.1), g.2)))

  abbrev pub Rows : ℕ → ℕ → List (List ℕ) × Draw → Type 0
  Rows games places a =
      (length a.0 ≡ games)
      × All (λ row. length row ≡ places) a.0
      × All (All IsNumber) a.0
      × IsFair n a.1

  pub rest_rows-Rows :
      (games places : ℕ) (s : Draw) (rands : List ℕ)
      → IsFair n s
      → Ends (Rows games places) (rest_rows d rand_max n games places s rands)
  unfolding rest_rows
  rest_rows-Rows zero places s rands f = (refl, tt, tt, f)
  rest_rows-Rows (suc games) places s rands f =
      Ends-bind _ _ (match_row d rand_max n places _ rands) _
        (match_row-IsFair places _ rands (clear-IsFair n s f))
        (λ (row, s') rands' f'.
          Ends-bind _ _ (rest_rows d rand_max n games places s' rands') _
            (rest_rows-Rows games places s' rands' f'.2)
            (λ (rows, s'') rands'' g. (ap suc g.0, (f'.0, g.1), (f'.1, g.2), g.3)))

  -- The rows and the state after them, where the draw has ended; the values of rand() may be too few.
  abbrev pub IsDrawn : ℕ → ℕ → Outcome (List (List ℕ) × Draw) → Type 0
  IsDrawn games places (done (rows, s') rands) =
      (length rows ≡ games)
      × All (λ row. length row ≡ places) rows
      × IsFair n s'
      × All (IsNear s'.min_matches_played) s'.entrants
  IsDrawn games places starved = Unit
  IsDrawn games places fault = Unit

  Rows-IsDrawn :
      (games places : ℕ) (o : Outcome (List (List ℕ) × Draw))
      → Ends (Rows games places) o
      → IsDrawn games places o
  Rows-IsDrawn games places (done (rows, s') rands) (count_rows, sizes, numbers, fair) =
      (count_rows, sizes, fair, fair.near)
  Rows-IsDrawn games places starved h = tt
  Rows-IsDrawn games places fault h = tt

  -- From a fair state, for all values of rand(): if the draw ends with matches, these have the number and the
  -- length asked for, and the state after them is fair, so that no two robots differ by more than one
  -- in the matches they have played. Where each value draws a robot that is there, as RAND_MAX does not, nothing is
  -- read outside the arrays, so that the draw ends with matches or has come to the end of the values.
  pub rest_rows-IsFair :
      (games places : ℕ) (s : Draw) (rands : List ℕ)
      → IsFair n s
      → IsDrawn games places (rest_rows d rand_max n games places s rands)
        × (All (IsWithin d rand_max n) rands → rest_rows d rand_max n games places s rands ≢ fault)
  rest_rows-IsFair games places s rands f = (
    Rows-IsDrawn games places _ (rest_rows-Rows games places s rands f),
    rest_rows_inside d rand_max n games places s rands f,
  )

  abbrev pub CanDraw : Type 0
  CanDraw = (nr : ℕ) → nr < n → (r : ℕ) × (drawn d rand_max n r ≡ nr)

  module _ (can_draw : CanDraw) where
    place_ends :
        (s : Draw)
        → IsFair n s
        → count is_playing s.entrants < n
        → (r : ℕ) × (nr : ℕ) × (s' : Draw) × ((rest : List ℕ)
            → place d rand_max n s (r ∷ rest) ≡ done (nr, s') rest)
          × IsFair n s'
          × (count is_playing s'.entrants ≡ count is_playing s.entrants + 1)
    unfolding place taken
    place_ends s f h =
        let (nr, e, lt, at, free) = IsFair-Candidate n s f h in
        let (r, draws) = can_draw nr (omega (arith, lt, f.size)) in
        (
          r,
          nr,
          enrol n s nr e,
          (λ rest. rw (draws, at, free) refl),
          enrol-IsFair n s nr f at free,
          count_playing-enrol n s nr at free,
        )

    match_row_ends :
        (places : ℕ) (s : Draw)
        → IsFair n s
        → count is_playing s.entrants + places ≤ n
        → (rands : List ℕ) × (row : List ℕ) × (s' : Draw) × ((rest : List ℕ)
            → match_row d rand_max n places s (rands ++ rest) ≡ done (row, s') rest)
          × IsFair n s'
    unfolding match_row
    match_row_ends zero s f h = ([], [], s, (λ rest. refl), f)
    match_row_ends (suc places) s f h =
        let (r, nr, s1, eq1, f1, more) = place_ends s f (omega (arith, h)) in
        let (rands, row, s2, eq2, f2) = match_row_ends places s1 f1 (omega (arith, more, h)) in
        (r ∷ rands, (nr + 1) ∷ row, s2, (λ rest. rw (eq1 (rands ++ rest), eq2 rest) refl), f2)

    -- If rand() can yield every robot and a match has no more places than there are robots, then there
    -- are values of rand() with which the draw of all the matches ends: the loop that draws again is
    -- never stuck.
    pub rest_rows_can_end :
        (games places : ℕ) (s : Draw)
        → IsFair n s
        → places ≤ n
        → (rands : List ℕ) × (a : List (List ℕ) × Draw) × ((rest : List ℕ)
            → rest_rows d rand_max n games places s (rands ++ rest) ≡ done a rest)
    unfolding rest_rows
    rest_rows_can_end zero places s f h = ([], ([], s), (λ rest. refl))
    rest_rows_can_end (suc games) places s f h =
        let (rands1, row, s1, eq1, f1) =
          match_row_ends places (record s { entrants = map clear s.entrants }) (clear-IsFair n s f)
            (omega (arith, count_playing-clear s.entrants, h)) in
        let (rands2, (rows, s2), eq2) = rest_rows_can_end games places s1 f1 h in
        (
          rands1 ++ rands2,
          (row ∷ rows, s2),
          (λ rest. rw (append_assoc rands1 rands2 rest, eq1 (rands2 ++ rest), eq2 rest) refl),
        )
