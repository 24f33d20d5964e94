-- ===== src/Schedule/Rounds.antt =====
-- The loop of src/ArenaRealTime.cc over a complete round, read on lists: `advance` says which
-- sequence follows, and `later` how many sequences are still to come.
use realtimebattle.Base.{
  ℕ, zero, suc, ◌+◌, ◌-◌, ◌≤◌, ◌≡◌, refl, ap, ◌∙◌, inl, inr, List, [], ◌∷◌, Option, some, none,
  arith, ◌==◌, if◌then◌else◌, length, get_or, set, Option-cases, Bool-cases,
}
use realtimebattle.Schedule.{last_free, fill_up, raise, next_sequence}

abbrev pub choose : ℕ → ℕ → ℕ
choose n zero = 1
choose zero (suc k) = 0
choose (suc n) (suc k) = choose n k + choose n (suc k)

-- x, x + 1, …: m numbers.
abbrev pub consecutive : ℕ → ℕ → List ℕ
consecutive x zero = []
consecutive x (suc m) = x ∷ consecutive (x + 1) m

-- Strictly rising from `lo`, the i-th number at most `limit` + i.
abbrev pub IsRising : ℕ → ℕ → List ℕ → Type 0
IsRising lo limit [] = Unit {0}
IsRising lo limit (x ∷ xs) = (lo ≤ x) × (x ≤ limit) × IsRising (x + 1) (limit + 1) xs

-- The next list in the lexicographic order.
unfoldable pub extend : ℕ → ℕ → List ℕ → Option (List ℕ) → Option (List ℕ)
extend limit x xs (some ys) = some (x ∷ ys)
extend limit x xs none = if x == limit then none else some (consecutive (x + 1) (suc (length xs)))

unfoldable pub advance : ℕ → List ℕ → Option (List ℕ)
advance limit [] = none
advance limit (x ∷ xs) = extend limit x xs (advance (limit + 1) xs)

-- `advance` is what the code computes with its indices.

free_from_tail : ℕ → ℕ → Option ℕ → Option ℕ
free_from_tail limit x (some k) = some (suc k)
free_from_tail limit x none = if x == limit then none else some 0

last_free-cons :
    (limit x : ℕ) (xs : List ℕ) (m : ℕ)
    → last_free limit (x ∷ xs) (suc m) ≡ free_from_tail limit x (last_free (limit + 1) xs m)
unfolding last_free free_from_tail
last_free-cons limit x xs zero = ground arith
last_free-cons limit x xs (suc m) = ground (arith, last_free-cons limit x xs m)

fill_up-cons :
    (left j x : ℕ) (cs : List ℕ) → fill_up left (suc (suc j)) (x ∷ cs) ≡ x ∷ fill_up left (suc j) cs
unfolding fill_up
fill_up-cons zero j x cs = refl
fill_up-cons (suc left) j x cs =
    let before : suc (suc j) - 1 ≡ suc j = omega arith in
    let before' : suc j - 1 ≡ j = omega arith in
    let next : suc (suc j) + 1 ≡ suc (suc (suc j)) = omega arith in
    let next' : suc j + 1 ≡ suc (suc j) = omega arith in
    rw (before, before', next, next')
      (fill_up-cons left (suc j) x (set cs (suc j) (get_or cs j 0 + 1)))

fill_up-consecutive :
    (x : ℕ) (cs : List ℕ) → fill_up (length cs) 1 (x ∷ cs) ≡ consecutive x (suc (length cs))
unfolding fill_up
fill_up-consecutive x [] = refl
fill_up-consecutive x (c ∷ cs) =
    rw (fill_up-cons (length cs) 0 x ((x + 1) ∷ cs)) (ap (◌∷◌ x) (fill_up-consecutive (x + 1) cs))

-- The step of the loop, with the limit in place of the number of robots.
abbrev step : ℕ → ℕ → List ℕ → Option (List ℕ)
step limit r cs = raise r cs (last_free limit cs r)

raise-cons :
    (limit x : ℕ) (xs : List ℕ) (found : Option ℕ)
    → raise (suc (length xs)) (x ∷ xs) (free_from_tail limit x found)
      ≡ extend limit x xs (raise (length xs) xs found)
unfolding raise extend free_from_tail
raise-cons limit x xs (some k) =
    let rest : suc (length xs) - (suc k + 1) ≡ length xs - (k + 1) = omega arith in
    let next : suc k + 1 ≡ suc (suc k) = omega arith in
    let next' : k + 1 ≡ suc k = omega arith in
    rw (rest, next, next')
      (ap some (fill_up-cons (length xs - suc k) k x (set xs k (get_or xs k 0 + 1))))
raise-cons limit x xs none = elim (Bool-cases (x == limit)) [
  | inl at_limit ↦ rw at_limit
  | inr below ↦
      let rest : suc (length xs) - (0 + 1) ≡ length xs = omega arith in
      rw (below, rest) (ap some (fill_up-consecutive (x + 1) xs))
]

step-eq-advance : (limit : ℕ) (cs : List ℕ) → step limit (length cs) cs ≡ advance limit cs
unfolding advance last_free raise
step-eq-advance limit [] = refl
step-eq-advance limit (x ∷ xs) = rw last_free-cons (
    raise-cons limit x xs (last_free (limit + 1) xs (length xs))
    ∙ rw (step-eq-advance (limit + 1) xs))

pub next_sequence-eq-advance :
    (n r : ℕ) (cs : List ℕ) → length cs ≡ r → next_sequence n r cs ≡ advance (n + 1 - r) cs
unfolding next_sequence
next_sequence-eq-advance n r cs e = rw (← e) (step-eq-advance (n + 1 - length cs) cs)

-- The order of the lists and their number.

pub consecutive-IsRising :
    (m lo limit x : ℕ) → lo ≤ x → x ≤ limit → IsRising lo limit (consecutive x m)
consecutive-IsRising zero lo limit x p q = tt
consecutive-IsRising (suc m) lo limit x p q =
    (p, q, consecutive-IsRising m (x + 1) (limit + 1) (x + 1) (omega arith) (omega arith))

pub length-consecutive : (m x : ℕ) → length (consecutive x m) ≡ m
length-consecutive zero x = refl
length-consecutive (suc m) x = ap suc (length-consecutive m (x + 1))

pub length-advance :
    (limit : ℕ) (cs : List ℕ) {ys : List ℕ} → advance limit cs ≡ some ys → length ys ≡ length cs
unfolding advance extend
length-advance limit [] e = cc
length-advance limit (x ∷ xs) e = elim (Option-cases (advance (limit + 1) xs)) [
  | inr (zs, more) ↦ ground (arith, length-advance (limit + 1) xs more)
  | inl full ↦ ground (arith, length-consecutive (length xs) (x + 1 + 1))
]

pub advance-IsRising :
    (lo limit : ℕ) (cs : List ℕ) {ys : List ℕ}
    → IsRising lo limit cs
    → advance limit cs ≡ some ys
    → IsRising lo limit ys
unfolding advance extend
advance-IsRising lo limit [] h e = cc
advance-IsRising lo limit (x ∷ xs) (low, high, h) e = elim (Option-cases (advance (limit + 1) xs)) [
  | inr (zs, more) ↦ ground (arith, advance-IsRising (x + 1) (limit + 1) xs h more)
  | inl full ↦ ground (arith, consecutive-IsRising (suc (length xs)) lo limit (x + 1))
]
