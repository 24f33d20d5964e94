-- ===== src/Schedule/Shuffle.antt =====
-- The shuffle of the rows of a round: reorder_pointer_array of src/Various.cc.
use realtimebattle.Base.{
  ℕ, zero, suc, ◌*◌, ◌≤◌, ◌<◌, ◌≡◌, ◌≢◌, refl, ◌∙◌, inl, inr, Bool, List, [], ◌∷◌, Option, none,
  some, arith, ◌==◌, if◌then◌else◌, length, get_elem?, set, length-set, get_elem?-set_ne,
  Bool-cases, All, count, count-set, get_elem?-within,
}
use realtimebattle.Double.{Double}
use realtimebattle.Schedule.Rest.{Outcome, done, starved, fault, drawn}

module _ {ℓ} {A : Type ℓ} where
  -- `temp_p = array[n1]; array[n1] = array[n2]; array[n2] = temp_p;`
  abbrev pub write_both : List A → ℕ → ℕ → A → A → List A
  write_both xs n1 n2 a1 a2 = set (set xs n1 a2) n2 a1

  abbrev pub exchange : List A → ℕ → ℕ → Option A → Option A → Option (List A)
  exchange xs n1 n2 none a2 = none
  exchange xs n1 n2 (some a1) none = none
  exchange xs n1 n2 (some a1) (some a2) = some (write_both xs n1 n2 a1 a2)

  -- `none` is an access outside the array.
  unfoldable pub swap : List A → ℕ → ℕ → Option (List A)
  swap xs n1 n2 =
      if n1 == n2 then some xs else exchange xs n1 n2 (get_elem? xs n1) (get_elem? xs n2)

module _ {ℓ} {A : Type ℓ} where
  abbrev pub or_fault : Option (List A) → (List A → Outcome (List A)) → Outcome (List A)
  or_fault none f = fault
  or_fault (some xs) f = f xs

module _ {ℓ κ} {W : Type ℓ} {A : Type κ} (d : Double W) (rand_max size : ℕ) where
  -- `for(int i=0; i<size*5; i++)`, on the first `size` elements of the array.
  unfoldable pub shuffle : ℕ → List A → List ℕ → Outcome (List A)
  unfolding drawn swap
  shuffle zero xs rands = done xs rands
  shuffle (suc rounds) xs [] = starved
  shuffle (suc rounds) xs (r ∷ []) = starved
  shuffle (suc rounds) xs (r ∷ q ∷ rands) =
      or_fault (swap xs (drawn d rand_max size r) (drawn d rand_max size q))
        (λ xs'. shuffle rounds xs' rands)

  unfoldable pub reorder_pointer_array : List A → List ℕ → Outcome (List A)
  unfolding shuffle
  reorder_pointer_array xs rands = shuffle (size * 5) xs rands

module _ {ℓ} {A : Type ℓ} (p : A → Bool) where
  count-write_both :
      (xs : List A) (n1 n2 : ℕ) (a1 a2 : A)
      → n1 ≢ n2
      → get_elem? xs n1 ≡ some a1
      → get_elem? xs n2 ≡ some a2
      → count p (write_both xs n1 n2 a1 a2) ≡ count p xs
  count-write_both xs n1 n2 a1 a2 ne h k = omega (
    arith,
    count-set p xs n1 a2 h,
    count-set p (set xs n1 a2) n2 a1 (get_elem?-set_ne xs a2 ne ∙ k),
  )

module _ {ℓ} {A : Type ℓ} where
  -- The same elements, each as often, and none moved from `size` on.
  pub record IsShuffled (size : ℕ) (xs ys : List A) : Type ℓ where
    pub as_long : length ys ≡ length xs
    pub as_often : (p : A → Bool) → count p ys ≡ count p xs
    pub in_place : (i : ℕ) → size ≤ i → get_elem? ys i ≡ get_elem? xs i

  IsShuffled-refl : (size : ℕ) (xs : List A) → IsShuffled size xs xs
  IsShuffled-refl size xs = record { as_long = refl; as_often = λ p. refl; in_place = λ i h. refl }

  IsShuffled-trans :
      (size : ℕ) {xs ys zs : List A}
      → IsShuffled size xs ys
      → IsShuffled size ys zs
      → IsShuffled size xs zs
  IsShuffled-trans size s t = record {
    as_long = t.as_long ∙ s.as_long;
    as_often = λ p. t.as_often p ∙ s.as_often p;
    in_place = λ i h. t.in_place i h ∙ s.in_place i h;
  }

  write_both-IsShuffled :
      (size : ℕ) (xs : List A) (n1 n2 : ℕ) (a1 a2 : A)
      → n1 ≢ n2
      → n1 < size
      → n2 < size
      → get_elem? xs n1 ≡ some a1
      → get_elem? xs n2 ≡ some a2
      → IsShuffled size xs (write_both xs n1 n2 a1 a2)
  write_both-IsShuffled size xs n1 n2 a1 a2 ne l1 l2 h k = record {
    as_long = length-set (set xs n1 a2) n2 a1 ∙ length-set xs n1 a2;
    as_often = λ p. count-write_both p xs n1 n2 a1 a2 ne h k;
    in_place = λ i le.
        get_elem?-set_ne (set xs n1 a2) a1 (λ e. absurd (omega (arith, e, le)))
        ∙ get_elem?-set_ne xs a2 (λ e. absurd (omega (arith, e, le)));
  }

  swap-IsShuffled :
      (size : ℕ) (xs : List A) (n1 n2 : ℕ)
      → size ≤ length xs
      → n1 < size
      → n2 < size
      → (ys : List A) × (swap xs n1 n2 ≡ some ys) × IsShuffled size xs ys
  unfolding swap
  swap-IsShuffled size xs n1 n2 h l1 l2 = elim (Bool-cases (n1 == n2)) [
    | inl e ↦ (xs, rw e refl, IsShuffled-refl size xs)
    | inr ne ↦
        let (a1, h1) = get_elem?-within xs n1 (omega arith) in
        let (a2, h2) = get_elem?-within xs n2 (omega arith) in
        (
          write_both xs n1 n2 a1 a2,
          rw (ne, h1, h2) refl,
          write_both-IsShuffled size xs n1 n2 a1 a2 (ground arith) l1 l2 h1 h2,
        )
  ]

module _ {ℓ κ} {W : Type ℓ} {A : Type κ} (d : Double W) (rand_max size : ℕ) where
  shuffle-IsShuffled :
      (rounds : ℕ) (xs : List A) (rands : List ℕ)
      → size ≤ length xs
      → 2 * rounds ≤ length rands
      → All (λ r. drawn d rand_max size r < size) rands
      → (ys : List A) × (rest : List ℕ) × (shuffle d rand_max size rounds xs rands ≡ done ys rest)
        × IsShuffled size xs ys
  unfolding shuffle
  shuffle-IsShuffled zero xs rands h le draws = (xs, rands, refl, IsShuffled-refl size xs)
  shuffle-IsShuffled (suc rounds) xs [] h le draws = absurd (omega arith)
  shuffle-IsShuffled (suc rounds) xs (r ∷ []) h le draws = absurd (omega arith)
  shuffle-IsShuffled (suc rounds) xs (r ∷ q ∷ rands) h le (l1, (l2, draws)) =
      let (ys, e, s) =
        swap-IsShuffled size xs (drawn d rand_max size r) (drawn d rand_max size q) h l1 l2 in
      let (zs, rest, f, t) =
        shuffle-IsShuffled rounds ys rands (omega (arith, s.as_long)) (omega arith) draws in
      (zs, rest, rw e f, IsShuffled-trans size s t)

  -- With numbers enough, none of which is drawn as `size` (as RAND_MAX is), the shuffle of the first
  -- `size` elements ends inside the array; each element is then in it as often as before, and those
  -- after the first `size` are where they were.
  pub reorder_pointer_array-IsShuffled :
      (xs : List A) (rands : List ℕ)
      → size ≤ length xs
      → 2 * (size * 5) ≤ length rands
      → All (λ r. drawn d rand_max size r < size) rands
      → (ys : List A) × (rest : List ℕ) × (reorder_pointer_array d rand_max size xs rands
          ≡ done ys rest)
        × IsShuffled size xs ys
  unfolding reorder_pointer_array
  reorder_pointer_array-IsShuffled xs rands h le draws =
      shuffle-IsShuffled (size * 5) xs rands h le draws
