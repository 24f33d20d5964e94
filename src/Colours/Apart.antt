-- ===== src/Colours/Apart.antt =====
-- The colours that find_free_colour of src/ArenaRealTime.cc finds.
use mathlib.Core.Path.{subst}
use realtimebattle.Base.{
  ℕ, zero, suc, ◌+◌, ◌%◌, ◌≡◌, refl, sym, ap, ◌∙◌, ◌⊎◌, inl, inr, Bool, true, false, not, ◌&&◌,
  ◌||◌, Option, none, some, List, [], ◌∷◌, ◌==◌, arith, if◌then◌else◌, if-cases, Bool-cases,
}
use realtimebattle.Base.Int.{ℤ, pos}
use realtimebattle.Double.{Double, ◌≺◌, ◌⊀◌}
use realtimebattle.Options.{Options, get_l, background_colour}
use realtimebattle.Colours.{
  Painted, Found, colour, impossible, no_end, colour_or, colour_dist, apart_from, is_colour_allowed,
  mate_colour, try_colours, search_colour, find_free_colour,
}
use realtimebattle.Arena.Scores.{has}

same : (p q : ℕ) → (p == q) ≡ true → p ≡ q
same p q e = ground arith

true_not_false : ¬ (true ≡ false)
true_not_false h = ground arith

and_last : (a : Bool) {b : Bool} → a && b ≡ true → b ≡ true
and_last a h = ground arith

-- The first of some tries.
picked {ℓ} :
    (P : ℤ → Type ℓ) (b : Bool) {t c : ℤ} {x : Option ℤ}
    → (if b then some t else x) ≡ some c
    → (b ≡ true → P t)
    → (x ≡ some c → P c)
    → P c
picked P true {t} h k l = subst P (ap (λ o. elim o [ some z ↦ z | none ↦ t ]) h) (k refl)
picked P false h k l = l h

module _ {ℓ} {W : Type ℓ} ⦃d : Double W⦄ where
  -- min_dist after so many rounds.
  abbrev pub shrink : ℕ → W → W
  shrink zero m = m
  shrink (suc k) m = shrink k (d.mul m (d.lit 8 1))

  abbrev pub IsApart : ℤ → W → ℕ → (ℕ → Painted) → List ℕ → Type 0
  IsApart c m robotp robots all =
      (p : ℕ) → has all p ≡ true → (p == robotp) ≡ false → colour_dist c (robots p).rgb_colour ⊀ m

  apart_from-IsApart :
      (c : ℤ) (m : W) (robotp : ℕ) (robots : ℕ → Painted) (all : List ℕ)
      → apart_from c m robotp robots all ≡ true
      → IsApart c m robotp robots all
  unfolding apart_from
  apart_from-IsApart c m robotp robots [] h p at other = ground arith
  apart_from-IsApart c m robotp robots (q ∷ ps) h p at other = elim (Bool-cases (p == q)) [
    | inl e ↦
        subst (λ x. colour_dist c (robots x).rgb_colour ⊀ m) (sym (same p q e))
          (head (ap (λ x. x == robotp) (sym (same p q e)) ∙ other))
    | inr e ↦
        apart_from-IsApart c m robotp robots ps tail p (ap (λ x. x || has ps p) (sym e) ∙ at) other
  ]
    where
      tail : apart_from c m robotp robots ps ≡ true
      tail = ground arith

      head : (q == robotp) ≡ false → colour_dist c (robots q).rgb_colour ⊀ m
      head e = ground arith

module _ {ℓ} {W : Type ℓ} ⦃d : Double W⦄ (o : Options W) (rand : ℕ → ℕ) (robots : ℕ → Painted)
    (all : List ℕ) (robotp : ℕ) where
  -- At least so far from the colours of the other robots of the sequence and from the background.
  abbrev pub IsClear : ℤ → W → Type 0
  IsClear c m = IsApart c m robotp robots all × (colour_dist c (get_l o background_colour) ⊀ m)

  -- A colour of a mate, or one that is clear at a distance of more than 0.01.
  abbrev pub IsFree : Found → Type ℓ
  IsFree (colour c) =
      (mate_colour o rand robots all robotp all ≡ some c)
      ⊎ ((m : W) × (d.lit 1 2 ≺ m) × (IsClear c m ⊎ IsClear c (d.mul m (d.lit 2 0))))
  IsFree impossible = (m : W) × (d.lit 1 2 ⊀ m)
  IsFree no_end = W × ⊥

  allowed-IsClear :
      (c : ℤ) (m : W) → is_colour_allowed o rand robots all robotp c m ≡ true → IsClear c m
  unfolding is_colour_allowed
  allowed-IsClear c m h = (apart_from-IsApart c m robotp robots all (ground arith), ground arith)

  or_mate :
      (f : Found) (x : Option ℤ)
      → IsFree f
      → ((c : ℤ) → x ≡ some c → IsFree (colour c))
      → IsFree (colour_or f x)
  or_mate f none h k = h
  or_mate f (some c) h k = k c refl

  tries-IsClear :
      (k : ℕ) (m : W) (n : ℕ) (c : ℤ)
      → try_colours o rand robots all robotp k m n ≡ some c
      → IsClear c (d.mul m (d.lit 2 0))
  unfolding try_colours
  tries-IsClear zero m n c h = ground arith
  tries-IsClear (suc k) m n c h =
      picked (λ z. IsClear z (d.mul m (d.lit 2 0)))
        (is_colour_allowed o rand robots all robotp (pos (rand n % 16777216)) (d.mul m (d.lit 2 0)))
        h (allowed-IsClear (pos (rand n % 16777216)) (d.mul m (d.lit 2 0)))
        (tries-IsClear k m (n + 1) c)

  -- A round of the loop.
  round-IsFree :
      (k : ℕ) (home away : ℤ) (random : Bool) (m : W) (n : ℕ) (rest : Found)
      → (d.lit 1 2 ≺ m → IsFree rest)
      → IsFree (
          if d.lt (d.lit 1 2) m
          then if not random && is_colour_allowed o rand robots all robotp home m
            then colour home
            else if not random && is_colour_allowed o rand robots all robotp away m
            then colour away
            else colour_or rest (try_colours o rand robots all robotp k m n)
          else impossible)
  round-IsFree k home away random m n rest next =
      if-cases IsFree (d.lt (d.lit 1 2) m)
        (λ e.
          if-cases IsFree (not random && is_colour_allowed o rand robots all robotp home m)
            (λ a. inr (m, e, inl (allowed-IsClear home m (and_last (not random) a))))
            (λ _.
              if-cases IsFree (not random && is_colour_allowed o rand robots all robotp away m)
                (λ a. inr (m, e, inl (allowed-IsClear away m (and_last (not random) a))))
                (λ _.
                  or_mate rest (try_colours o rand robots all robotp k m n) (next e)
                    (λ c h. inr (m, e, inr (tries-IsClear k m n c h))))))
        (λ e. (m, e))

  search-IsFree :
      (fuel : ℕ) (home away : ℤ) (random : Bool) (m : W) (n : ℕ)
      → d.lit 1 2 ⊀ shrink fuel m
      → IsFree (search_colour o rand robots all robotp (suc fuel) home away random m n)
  unfolding search_colour
  search-IsFree zero home away random m n h =
      round-IsFree 25 home away random m n no_end (λ e. elim (true_not_false (sym e ∙ h)) [ ])
  search-IsFree (suc fuel) home away random m n h =
      round-IsFree 25 home away random m n _
        (λ _. search-IsFree fuel home away random (d.mul m (d.lit 8 1)) (n + 25) h)

  -- With fuel for twelve rounds, where 0.1 * 0.8 ^ 11 is not above 0.01: find_free_colour ends. It ends
  -- with the fatal error, or with the colour of a mate of the robot's team, or with a colour that is, for
  -- some distance above 0.01, not nearer than that to the background colour and to the colour of any other
  -- robot of the sequence.
  pub find_free_colour-IsFree :
      (home away : ℤ) (random : Bool) (n : ℕ)
      → d.lit 1 2 ⊀ shrink 11 (d.lit 1 1)
      → IsFree (find_free_colour o rand robots all robotp 12 home away random n)
  unfolding find_free_colour
  find_free_colour-IsFree home away random n h =
      let searched = search-IsFree 11 home away random (d.lit 1 1) n h in
      if-cases IsFree (robots robotp).in_team
        (λ _. or_mate _ (mate_colour o rand robots all robotp all) searched (λ c e. inl e))
        (λ _. searched)
