-- ===== src/Schedule/Table/Kept.antt =====
-- What the shuffle and the draw of src/ArenaRealTime.cc leave of rows that are rows of robots.
use mathlib.Core.Path.{subst}
use mathlib.Core.Option.{some-injective}
use realtimebattle.Base.{
  ℕ, zero, suc, ◌+◌, ◌-◌, ◌*◌, ◌≤◌, ◌<◌, ◌≡◌, refl, ◌∙◌, Bool, List, [], ◌∷◌, Option, none, some,
  arith, length, length-set, replicate, get_elem?, set, All, count, if◌then◌else◌, ◌==◌, if-holds,
}
use realtimebattle.Double.{Double}
use realtimebattle.Schedule.Complete.{IsSequence}
use realtimebattle.Schedule.Draws.{Ends}
use realtimebattle.Schedule.Rest.{drawn}
use realtimebattle.Schedule.Rounds.{IsRising}
use realtimebattle.Schedule.Shuffle.{exchange, or_fault, swap, shuffle, reorder_pointer_array}

-- What a swap leaves of a list of which all have a property.
module _ {ℓ κ} {A : Type ℓ} (P : A → Type κ) where
  All-at : (xs : List A) (i : ℕ) (a : A) → All P xs → get_elem? xs i ≡ some a → P a
  All-at [] i a h e = cc
  All-at (x ∷ xs) zero a (h, hs) e = subst P (some-injective _ _ e) h
  All-at (x ∷ xs) (suc i) a (h, hs) e = All-at xs i a hs e

  All-set : (xs : List A) (i : ℕ) (v : A) → P v → All P xs → All P (set xs i v)
  All-set [] i v p h = tt
  All-set (x ∷ xs) zero v p (h, hs) = (p, hs)
  All-set (x ∷ xs) (suc i) v p (h, hs) = (h, All-set xs i v p hs)

  abbrev pub IsKept : ℕ → List A → Type κ
  IsKept k xs = (length xs ≡ k) × All P xs

  abbrev KeptIf : ℕ → Option (List A) → Type κ
  KeptIf k none = Unit
  KeptIf k (some xs) = IsKept k xs

  swap-KeptIf : (k : ℕ) (xs : List A) (n1 n2 : ℕ) → IsKept k xs → KeptIf k (swap xs n1 n2)
  unfolding swap
  swap-KeptIf k xs n1 n2 (len, h) =
      if-holds (KeptIf k) (n1 == n2) (len, h) (both (get_elem? xs n1) (get_elem? xs n2) refl refl)
    where
      both :
          (o1 o2 : Option A)
          → get_elem? xs n1 ≡ o1
          → get_elem? xs n2 ≡ o2
          → KeptIf k (exchange xs n1 n2 o1 o2)
      both none o2 e1 e2 = tt
      both (some a1) none e1 e2 = tt
      both (some a1) (some a2) e1 e2 = (
        length-set (set xs n1 a2) n2 a1 ∙ length-set xs n1 a2 ∙ len,
        All-set (set xs n1 a2) n2 a1 (All-at xs n1 a1 h e1)
            (All-set xs n1 a2 (All-at xs n2 a2 h e2) h),
      )

  module _ {ℓ'} {W : Type ℓ'} (d : Double W) (rand_max size : ℕ) where
    shuffle-keeps :
        (rounds k : ℕ) (xs : List A) (rands : List ℕ)
        → IsKept k xs
        → Ends (IsKept k) (shuffle d rand_max size rounds xs rands)
    unfolding shuffle
    shuffle-keeps zero k xs rands h = h
    shuffle-keeps (suc rounds) k xs [] h = tt
    shuffle-keeps (suc rounds) k xs (r ∷ []) h = tt
    shuffle-keeps (suc rounds) k xs (r ∷ q ∷ rands) h =
        go (swap xs (drawn d rand_max size r) (drawn d rand_max size q))
          (swap-KeptIf k xs (drawn d rand_max size r) (drawn d rand_max size q) h)
          (λ ys. shuffle-keeps rounds k ys rands)
      where
        go :
            (o : Option (List A))
            → KeptIf k o
            → ((ys : List A)
                → IsKept k ys
                → Ends (IsKept k) (shuffle d rand_max size rounds ys rands))
            → Ends (IsKept k) (or_fault o (λ ys. shuffle d rand_max size rounds ys rands))
        go none h more = tt
        go (some ys) h more = more ys h

    pub reorder-keeps :
        (k : ℕ) (xs : List A) (rands : List ℕ)
        → IsKept k xs
        → Ends (IsKept k) (reorder_pointer_array d rand_max size xs rands)
    unfolding reorder_pointer_array
    reorder-keeps k xs rands h = shuffle-keeps (size * 5) k xs rands h

-- A row of r numbers of robots out of n.
abbrev pub IsRow : ℕ → ℕ → List ℕ → Type 0
IsRow n r row = (length row ≡ r) × All (λ nr. (0 < nr) × (nr ≤ n)) row

rising_numbers :
    (lo limit n : ℕ) (cs : List ℕ)
    → 0 < lo
    → limit + length cs ≤ n + 1
    → IsRising lo limit cs
    → All (λ nr. (0 < nr) × (nr ≤ n)) cs
rising_numbers lo limit n [] p q h = tt
rising_numbers lo limit n (c ∷ cs) p q (a, b, h) = (
  (omega arith, omega arith),
  rising_numbers (c + 1) (limit + 1) n cs (omega arith) (omega arith) h,
)

pub IsSequence-IsRow : (n r : ℕ) (cs : List ℕ) → r ≤ n → IsSequence n r cs → IsRow n r cs
IsSequence-IsRow n r cs le s =
    (s.size, rising_numbers 1 (n + 1 - r) n cs (omega arith) (omega (arith, s.size)) s.rising)

pub All-map {ℓ κ κ'} :
    {A : Type ℓ} (P : A → Type κ) (Q : A → Type κ') (xs : List A)
    → ((x : A) → P x → Q x)
    → All P xs
    → All Q xs
All-map P Q [] f h = tt
All-map P Q (x ∷ xs) f (h, hs) = (f x h, All-map P Q xs f hs)

pub All-both {ℓ κ κ'} :
    {A : Type ℓ} (P : A → Type κ) (Q : A → Type κ') (xs : List A)
    → All P xs
    → All Q xs
    → All (λ x. P x × Q x) xs
All-both P Q [] h k = tt
All-both P Q (x ∷ xs) (h, hs) (k, ks) = ((h, k), All-both P Q xs hs ks)

pub count-replicate {ℓ} :
    {A : Type ℓ} (p : A → Bool) (n : ℕ) (a : A) → count p (replicate n a) ≡ (if p a then n else 0)
count-replicate p zero a = if-holds (λ x. 0 ≡ x) (p a) refl refl
count-replicate p (suc n) a = ground (arith, count-replicate p n a)

pub All-replicate {ℓ κ} :
    {A : Type ℓ} (P : A → Type κ) (n : ℕ) (a : A) → P a → All P (replicate n a)
All-replicate P zero a h = tt
All-replicate P (suc n) a h = (h, All-replicate P n a h)
