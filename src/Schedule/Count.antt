-- ===== src/Schedule/Count.antt =====
-- How many sequences a complete round of src/ArenaRealTime.cc has still to come, and which.
use mathlib.Core.Path.{ap₂}
use realtimebattle.Base.{
  ℕ, zero, suc, ◌+◌, ◌-◌, ◌≤◌, ◌<◌, ◌≡◌, ◌≢◌, refl, sym, ap, List, [], ◌∷◌, some, none, arith,
  length, Option-cases, inl, inr,
}
use realtimebattle.Schedule.Rounds.{
  choose, consecutive, IsRising, extend, advance, length-consecutive, length-advance,
}

-- How many lists of the same length with numbers up to `n` come after this one.
abbrev pub later : ℕ → List ℕ → ℕ
later n [] = 0
later n (x ∷ xs) = choose (n - x) (suc (length xs)) + later n xs

pub choose-zero_of_lt : (n k : ℕ) → n < k → choose n k ≡ 0
choose-zero_of_lt n zero h = absurd (omega arith)
choose-zero_of_lt zero (suc k) h = refl
choose-zero_of_lt (suc n) (suc k) h =
    omega (arith, choose-zero_of_lt n k (omega arith), choose-zero_of_lt n (suc k) (omega arith))

choose-le_suc : (n k : ℕ) → choose n k ≤ choose (suc n) k
choose-le_suc n zero = omega arith
choose-le_suc n (suc k) = omega arith

-- Pascal's rule at a number that is not written as a successor.
choose_step : (a b k : ℕ) → a ≡ b + 1 → choose a (suc k) ≡ choose b k + choose b (suc k)
choose_step zero b k e = absurd (omega arith)
choose_step (suc a) b k e = let same : a ≡ b = omega arith in rw same

choose-le_add : (d n k : ℕ) → choose n k ≤ choose (d + n) k
choose-le_add zero n k = let e : 0 + n ≡ n = omega arith in rw e (omega arith)
choose-le_add (suc d) n k =
    let e : suc d + n ≡ suc (d + n) = omega arith in
    rw e (omega (arith, choose-le_add d n k, choose-le_suc (d + n) k))

choose_mono : (a b k : ℕ) → a ≤ b → choose a k ≤ choose b k
choose_mono a b k h = let e : b - a + a ≡ b = omega arith in rw e at (choose-le_add (b - a) a k)

pub later-consecutive :
    (m n x : ℕ) → x + m ≤ n → suc (later n (consecutive (x + 1) m)) ≡ choose (n - x) m
later-consecutive zero n x h = refl
later-consecutive (suc m) n x h = omega (
  arith,
  later-consecutive m n (x + 1) (omega arith),
  choose_step (n - x) (n - (x + 1)) m (omega arith),
  length-consecutive m (x + 1 + 1),
  ap (λ k. choose (n - (x + 1)) (suc k)) (length-consecutive m (x + 1 + 1)),
)

-- After the last list nothing comes.
pub later-advance-none :
    (lo limit n : ℕ) (cs : List ℕ)
    → limit + length cs ≡ n + 1
    → IsRising lo limit cs
    → advance limit cs ≡ none
    → later n cs ≡ 0
unfolding advance extend
later-advance-none lo limit n [] top h e = refl
later-advance-none lo limit n (x ∷ xs) top h e = elim (Option-cases (advance (limit + 1) xs)) [
  | inr (ys, more) ↦ absurd (ground arith)
  | inl full ↦
      let rest = later-advance-none (x + 1) (limit + 1) n xs (omega arith) h.2 full in
      let at_limit : x ≡ limit = ground arith in
      let gap : n - x ≡ length xs = omega arith in
      rw gap (omega (arith, rest, choose-zero_of_lt (length xs) (suc (length xs)) (omega arith)))
]

-- A step takes exactly one list off those to come.
pub later-advance-some :
    (lo limit n : ℕ) (cs : List ℕ) {ys : List ℕ}
    → limit + length cs ≡ n + 1
    → IsRising lo limit cs
    → advance limit cs ≡ some ys
    → later n cs ≡ suc (later n ys)
unfolding advance extend
later-advance-some lo limit n [] top h e = cc
later-advance-some lo limit n (x ∷ xs) {ys} top h e = elim (Option-cases (advance (limit + 1) xs)) [
  | inr (zs, more) ↦
      let rest = later-advance-some (x + 1) (limit + 1) n xs (omega arith) h.2 more in
      let same : ys ≡ x ∷ zs = ground arith in
      rw (same, length-advance (limit + 1) xs more) (omega (arith, rest))
  | inl full ↦
      let rest = later-advance-none (x + 1) (limit + 1) n xs (omega arith) h.2 full in
      let same : ys ≡ consecutive (x + 1) (suc (length xs)) = ground arith in
      let below : x ≢ limit = ground arith in
      rw (same, rest) (omega (arith, later-consecutive (suc (length xs)) n x (omega arith)))
]

-- A rising list has fewer successors than there are lists above a smaller start.
pub later-lt-choose :
    (x limit n : ℕ) (xs : List ℕ)
    → limit + length xs ≡ n + 1
    → IsRising (x + 1) limit xs
    → later n xs < choose (n - x) (length xs)
later-lt-choose x limit n [] top h = omega arith
later-lt-choose x limit n (y ∷ ys) top (low, high, h) = omega (
  arith,
  later-lt-choose y (limit + 1) n ys (omega arith) h,
  choose_step (n - y + 1) (n - y) (length ys) refl,
  choose_mono (n - y + 1) (n - x) (suc (length ys)) (omega arith),
)

-- An earlier first number leaves more to come.
later-lt_of_lt :
    (x y lo limit n : ℕ) (xs ys : List ℕ)
    → length xs ≡ length ys
    → limit + length (y ∷ ys) ≡ n + 1
    → IsRising lo limit (y ∷ ys)
    → x < y
    → later n (y ∷ ys) < later n (x ∷ xs)
later-lt_of_lt x y lo limit n xs ys same top h lt = rw same (
    omega (
      arith,
      later-lt-choose y (limit + 1) n ys (omega arith) h.2,
      choose_step (n - y + 1) (n - y) (length ys) refl,
      choose_mono (n - y + 1) (n - x) (suc (length ys)) (omega arith),
    ))

-- The number of lists to come tells the list.
pub later_injective :
    (lo limit n : ℕ) (xs ys : List ℕ)
    → length xs ≡ length ys
    → limit + length ys ≡ n + 1
    → IsRising lo limit xs
    → IsRising lo limit ys
    → later n xs ≡ later n ys
    → xs ≡ ys
later_injective lo limit n [] [] same top p q e = refl
later_injective lo limit n [] (y ∷ ys) same top p q e = absurd (omega arith)
later_injective lo limit n (x ∷ xs) [] same top p q e = absurd (omega arith)
later_injective lo limit n (x ∷ xs) (y ∷ ys) same top p q e =
    let same' : length xs ≡ length ys = omega arith in
    let not_less : ¬ (x < y) =
      λ lt. omega (arith, later-lt_of_lt x y lo limit n xs ys same' top q lt) in
    let not_more : ¬ (y < x) =
      λ lt. omega (arith, later-lt_of_lt y x lo limit n ys xs (sym same') (omega arith) p lt) in
    let heads : x ≡ y = omega arith in
    let tops = ap₂ (λ (a b : ℕ). choose (n - a) (suc b)) heads same' in
    let risen : IsRising (x + 1) (limit + 1) ys = rw heads q.2 in
    ap₂ ◌∷◌ heads
      (later_injective (x + 1) (limit + 1) n xs ys same' (omega arith) p.2 risen (omega arith))
