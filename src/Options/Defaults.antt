-- ===== src/Options/Defaults.antt =====
-- The entries that the constructor of src/Options.cc writes are in range.
use Prim.Native.String.{String}
use realtimebattle.Base.{
  ℕ, ◌*◌, ◌^◌, ◌≤◌, ◌<◌, ◌≡◌, refl, true, List, [], ◌∷◌, arith, All, All-append,
}
use realtimebattle.Double.{Double, IsOrdered, IsRounded}
use realtimebattle.Options.{OptionInfo}
use realtimebattle.Options.Table.{robot_options, game_options, long_options, default_options}
use realtimebattle.Options.Ranges.{IsInRange, IsLongInRange, AllInRange}

module _ {ℓ} {W : Type ℓ} ⦃d : Double W⦄ (laws : IsOrdered W) (rounded : IsRounded W) where
  open rounded use {
    le_trans, lit_le, le_neg, neg_le_lit, pi_nonneg, pi_grows, two_pi_grows, two_pi_shrinks,
  }
  open laws use {not_lt_of_le}

  IsInRange-of-le :
      (i : OptionInfo W)
      → i.default_value ≡ i.value
      → d.le i.min_value i.value ≡ true
      → d.le i.value i.max_value ≡ true
      → IsInRange i
  IsInRange-of-le i e low high =
      let range = not_lt_of_le _ _ (le_trans _ _ _ low high) in
      let value_ge = not_lt_of_le _ _ low in
      let value_le = not_lt_of_le _ _ high in
      record {
        range = range;
        value_ge = value_ge;
        value_le = value_le;
        default_ge = rw e value_ge;
        default_le = rw e value_le;
      }

  -- An entry of three literals.
  plain :
      (i : OptionInfo W) (mn en mv ev mx ex : ℕ)
      → (i.default_value ≡ i.value)
        × (i.min_value ≡ d.lit mn en)
        × (i.value ≡ d.lit mv ev)
        × (i.max_value ≡ d.lit mx ex)
      → (mn * 10 ^ ev ≤ mv * 10 ^ en) × (mv * 10 ^ ex ≤ mx * 10 ^ ev)
      → IsInRange i
  plain i mn en mv ev mx ex (e, a, b, c) (p, q) =
      IsInRange-of-le i e (rw (a, b) (lit_le mn en mv ev p)) (rw (b, c) (lit_le mv ev mx ex q))

  -- An entry for a rotation speed, by default one turn in `k` seconds.
  turning :
      (i : OptionInfo W) (k : ℕ)
      → 0 < k
      → k ≤ 50
      → (i.default_value ≡ i.value)
        × (i.min_value ≡ d.div (d.mul (d.lit 2 0) d.pi) (d.lit 50 0))
        × (i.value ≡ d.div (d.mul (d.lit 2 0) d.pi) (d.lit k 0))
        × (i.max_value ≡ d.mul (d.mul (d.lit 2 0) d.pi) (d.lit 5 0))
      → IsInRange i
  turning i k p q (e, a, b, c) =
      IsInRange-of-le i e (rw (a, b) (two_pi_shrinks k 50 p q))
        (rw (b, c) (two_pi_grows k 5 p (omega arith)))

  -- `All`, as a family, so that a proof is a plain list of proofs.
  infixr 5 ◌▹◌
  data InRanges : List (OptionInfo W) → Type ℓ where
    end : InRanges []
    ◌▹◌ :
        {i : OptionInfo W} {is : List (OptionInfo W)}
        → IsInRange i
        → InRanges is
        → InRanges (i ∷ is)

  All-of-InRanges : {is : List (OptionInfo W)} → InRanges is → All IsInRange is
  All-of-InRanges end = tt
  All-of-InRanges (h ▹ hs) = (h, All-of-InRanges hs)

  robot_options-InRanges : InRanges robot_options
  unfolding robot_options
  robot_options-InRanges =
      plain _ _ _ _ _ _ _ (refl, refl, refl, refl) (omega arith)
      ▹ plain _ _ _ _ _ _ _ (refl, refl, refl, refl) (omega arith)
      ▹ plain _ _ _ _ _ _ _ (refl, refl, refl, refl) (omega arith)
      ▹ plain _ _ _ _ _ _ _ (refl, refl, refl, refl) (omega arith)
      ▹ plain _ _ _ _ _ _ _ (refl, refl, refl, refl) (omega arith)
      ▹ IsInRange-of-le _ refl (rw le_neg (lit_le 5 1 10 0 (omega arith))) (neg_le_lit 5 1 0 0)
      ▹ plain _ _ _ _ _ _ _ (refl, refl, refl, refl) (omega arith)
      ▹ plain _ _ _ _ _ _ _ (refl, refl, refl, refl) (omega arith)
      ▹ plain _ _ _ _ _ _ _ (refl, refl, refl, refl) (omega arith)
      ▹ plain _ _ _ _ _ _ _ (refl, refl, refl, refl) (omega arith)
      ▹ plain _ _ _ _ _ _ _ (refl, refl, refl, refl) (omega arith)
      ▹ plain _ _ _ _ _ _ _ (refl, refl, refl, refl) (omega arith)
      ▹ plain _ _ _ _ _ _ _ (refl, refl, refl, refl) (omega arith)
      ▹ plain _ _ _ _ _ _ _ (refl, refl, refl, refl) (omega arith)
      ▹ IsInRange-of-le _ refl (pi_nonneg 3) (pi_grows 3 2 (omega arith) (omega arith))
      ▹ plain _ _ _ _ _ _ _ (refl, refl, refl, refl) (omega arith)
      ▹ plain _ _ _ _ _ _ _ (refl, refl, refl, refl) (omega arith)
      ▹ turning _ 8 (omega arith) (omega arith) (refl, refl, refl, refl)
      ▹ turning _ 4 (omega arith) (omega arith) (refl, refl, refl, refl)
      ▹ turning _ 3 (omega arith) (omega arith) (refl, refl, refl, refl)
      ▹ end

  game_options-InRanges : InRanges game_options
  unfolding game_options
  game_options-InRanges =
      plain _ _ _ _ _ _ _ (refl, refl, refl, refl) (omega arith)
      ▹ plain _ _ _ _ _ _ _ (refl, refl, refl, refl) (omega arith)
      ▹ plain _ _ _ _ _ _ _ (refl, refl, refl, refl) (omega arith)
      ▹ plain _ _ _ _ _ _ _ (refl, refl, refl, refl) (omega arith)
      ▹ plain _ _ _ _ _ _ _ (refl, refl, refl, refl) (omega arith)
      ▹ plain _ _ _ _ _ _ _ (refl, refl, refl, refl) (omega arith)
      ▹ plain _ _ _ _ _ _ _ (refl, refl, refl, refl) (omega arith)
      ▹ plain _ _ _ _ _ _ _ (refl, refl, refl, refl) (omega arith)
      ▹ plain _ _ _ _ _ _ _ (refl, refl, refl, refl) (omega arith)
      ▹ plain _ _ _ _ _ _ _ (refl, refl, refl, refl) (omega arith)
      ▹ plain _ _ _ _ _ _ _ (refl, refl, refl, refl) (omega arith)
      ▹ plain _ _ _ _ _ _ _ (refl, refl, refl, refl) (omega arith)
      ▹ plain _ _ _ _ _ _ _ (refl, refl, refl, refl) (omega arith)
      ▹ plain _ _ _ _ _ _ _ (refl, refl, refl, refl) (omega arith)
      ▹ plain _ _ _ _ _ _ _ (refl, refl, refl, refl) (omega arith)
      ▹ plain _ _ _ _ _ _ _ (refl, refl, refl, refl) (omega arith)
      ▹ plain _ _ _ _ _ _ _ (refl, refl, refl, refl) (omega arith)
      ▹ plain _ _ _ _ _ _ _ (refl, refl, refl, refl) (omega arith)
      ▹ plain _ _ _ _ _ _ _ (refl, refl, refl, refl) (omega arith)
      ▹ plain _ _ _ _ _ _ _ (refl, refl, refl, refl) (omega arith)
      ▹ plain _ _ _ _ _ _ _ (refl, refl, refl, refl) (omega arith)
      ▹ plain _ _ _ _ _ _ _ (refl, refl, refl, refl) (omega arith)
      ▹ plain _ _ _ _ _ _ _ (refl, refl, refl, refl) (omega arith)
      ▹ plain _ _ _ _ _ _ _ (refl, refl, refl, refl) (omega arith)
      ▹ plain _ _ _ _ _ _ _ (refl, refl, refl, refl) (omega arith)
      ▹ plain _ _ _ _ _ _ _ (refl, refl, refl, refl) (omega arith)
      ▹ end

  long_options-InRange : All IsLongInRange long_options
  unfolding long_options
  long_options-InRange = omega arith

  -- In the options that the program starts with, every value and default is in range.
  pub default_options-InRange : (tmp_dir : String) → AllInRange {W = W} (default_options tmp_dir)
  unfolding default_options
  default_options-InRange tmp_dir = (
    All-append IsInRange robot_options game_options (All-of-InRanges robot_options-InRanges)
        (All-of-InRanges game_options-InRanges),
    long_options-InRange,
  )
