-- ===== src/Options/Ranges.antt =====
-- Every numeric option of src/Options.cc stays between its smallest and largest value, and the reader
-- of option files ends.
use Prim.Native.String.{String}
use text.Mathlib.Text.{◌==◌ as str_eq}
use text.Mathlib.TextEquality.{eq_iff}
use realtimebattle.Base.{
  ℕ, zero, suc, ◌≤◌, ◌<◌, ◌≡◌, Bool, List, [], ◌∷◌, some, arith, All, Option-cases, inl, inr,
  Bool-cases,
}
use realtimebattle.Base.Int.{ℤ, ◌≤ℤ◌}
use realtimebattle.Double.{Double, IsOrdered, ◌⊀◌, min_rtb-not_above, max_rtb-not_below}
use realtimebattle.Input.{Input, DoubleInput, IsConsuming}
use realtimebattle.Options.{EntryDatatype, entry_int, entry_hex, OptionInfo, Options}
use realtimebattle.Options.Read.{
  clamp_ℤ, clamp_double, store, read_doubles, read_long, read_longs, read_strings, read_option,
  read_options, read_options_file,
}

-- The value and the default lie in the range, which is not empty.
pub record IsInRange {ℓ} {W : Type ℓ} ⦃d : Double W⦄ (i : OptionInfo W) : Type 0 where
  pub range : i.max_value ⊀ i.min_value
  pub value_ge : i.value ⊀ i.min_value
  pub value_le : i.max_value ⊀ i.value
  pub default_ge : i.default_value ⊀ i.min_value
  pub default_le : i.max_value ⊀ i.default_value

pub record IsLongInRange (i : OptionInfo ℤ) : Type 0 where
  pub range : i.min_value ≤ℤ i.max_value
  pub value_ge : i.min_value ≤ℤ i.value
  pub value_le : i.value ≤ℤ i.max_value
  pub default_ge : i.min_value ≤ℤ i.default_value
  pub default_le : i.default_value ≤ℤ i.max_value

abbrev pub AllInRange {ℓ} : {W : Type ℓ} ⦃d : Double W⦄ → Options W → Type 0
AllInRange o = All IsInRange o.all_double_options × All IsLongInRange o.all_long_options

module _ {ℓ} {W : Type ℓ} ⦃d : Double W⦄ (laws : IsOrdered W) where
  store-IsInRange :
      (as_default : Bool) (i : OptionInfo W) (v : W)
      → IsInRange i
      → IsInRange (store as_default i (clamp_double i v))
  store-IsInRange as_default i v h = ground (
    arith,
    min_rtb-not_above laws v i.max_value,
    max_rtb-not_below laws v i.min_value,
    max_rtb-not_below laws i.max_value i.min_value,
  )

store-IsLongInRange :
    (as_default : Bool) (i : OptionInfo ℤ) (v : ℤ)
    → IsLongInRange i
    → IsLongInRange (store as_default i (clamp_ℤ i.min_value i.max_value v))
store-IsLongInRange as_default i v h = ground arith

module _ {κ} {S : Type κ} ⦃inp : Input S⦄ where
  read_longs-InRange :
      (name : String) (as_default : Bool) (is : List (OptionInfo ℤ)) (s : S)
      → All IsLongInRange is
      → All IsLongInRange (read_longs name as_default is s).0
  unfolding read_longs
  read_longs-InRange name as_default [] s h = tt
  read_longs-InRange name as_default (i ∷ is) s (h, hs) =
      let (v, s1) = read_long i.datatype s in
      elim (Bool-cases (str_eq name i.label)) [
        | inl e ↦
            rw e (store-IsLongInRange as_default i v h, read_longs-InRange name as_default is s1 hs)
        | inr e ↦ rw e (h, read_longs-InRange name as_default is s hs)
      ]

module _ {ℓ κ} {W : Type ℓ} {S : Type κ} ⦃d : Double W⦄ ⦃inp : Input S⦄ ⦃reads : DoubleInput W S⦄
    (laws : IsOrdered W) where
  open inp use {skip_ws, get_text, get_char, read_word}
  open reads use {read_double}

  read_doubles-InRange :
      (name : String) (as_default : Bool) (is : List (OptionInfo W)) (s : S)
      → All IsInRange is
      → All IsInRange (read_doubles name as_default is s).0
  unfolding read_doubles
  read_doubles-InRange name as_default [] s h = tt
  read_doubles-InRange name as_default (i ∷ is) s (h, hs) =
      let (v, s1) = read_double s in
      elim (Bool-cases (str_eq name i.label)) [
        | inl e ↦
            rw e
              (store-IsInRange laws as_default i v h, read_doubles-InRange name as_default is s1 hs)
        | inr e ↦ rw e (h, read_doubles-InRange name as_default is s hs)
      ]

  read_option-InRange :
      (as_default : Bool) (o : Options W) (s : S) {o' : Options W} {s' : S}
      → AllInRange o
      → read_option as_default o s ≡ some (o', s')
      → AllInRange o'
  unfolding read_option
  read_option-InRange as_default o s h e =
      let (name, s1) = get_text 100 58 (skip_ws s) in
      let (_, s2) = get_char s1 in
      let (ds, s3) = read_doubles name as_default o.all_double_options s2 in
      ground (
        arith,
        read_doubles-InRange name as_default o.all_double_options s2 h.0,
        read_longs-InRange name as_default o.all_long_options s3 h.1,
      )

  read_options-InRange :
      (fuel : ℕ) (as_default : Bool) (o : Options W) (s : S) {o' : Options W}
      → AllInRange o
      → read_options fuel as_default o s ≡ some o'
      → AllInRange o'
  unfolding read_options
  read_options-InRange zero as_default o s h e = cc
  read_options-InRange (suc fuel) as_default o s h e =
      elim (Option-cases (read_option as_default o s)) [
        | inl stop ↦ ground arith
        | inr ((o1, s1), more) ↦
            read_options-InRange fuel as_default o1 s1 (read_option-InRange as_default o s h more)
              (rw (more, read_options) at e)
      ]

  module _ (eats : IsConsuming W S) where
    open eats use {
      remaining, skip_ws_le, get_text_lt, get_char_le, read_word_le, read_int_le, read_double_le,
    }

    read_doubles_le :
        (name : String) (as_default : Bool) (is : List (OptionInfo W)) (s : S)
        → remaining (read_doubles name as_default is s).1 ≤ remaining s
    unfolding read_doubles
    read_doubles_le name as_default [] s = omega arith
    read_doubles_le name as_default (i ∷ is) s =
        let (v, s1) = read_double s in
        elim (Bool-cases (str_eq name i.label)) [
          | inl e ↦ rw e (omega (arith, read_doubles_le name as_default is s1, read_double_le s))
          | inr e ↦ rw e (read_doubles_le name as_default is s)
        ]

    read_long_le : (t : EntryDatatype) (s : S) → remaining (read_long t s).1 ≤ remaining s
    unfolding read_long
    read_long_le entry_int s = read_int_le s
    read_long_le entry_hex s = read_word_le s
    read_long_le _ s = omega arith

    read_longs_le :
        (name : String) (as_default : Bool) (is : List (OptionInfo ℤ)) (s : S)
        → remaining (read_longs name as_default is s).1 ≤ remaining s
    unfolding read_longs
    read_longs_le name as_default [] s = omega arith
    read_longs_le name as_default (i ∷ is) s =
        let (v, s1) = read_long i.datatype s in
        elim (Bool-cases (str_eq name i.label)) [
          | inl e ↦
              rw e (omega (arith, read_longs_le name as_default is s1, read_long_le i.datatype s))
          | inr e ↦ rw e (read_longs_le name as_default is s)
        ]

    read_strings_le :
        (name : String) (as_default : Bool) (is : List (OptionInfo String)) (s : S)
        → remaining (read_strings name as_default is s).1 ≤ remaining s
    unfolding read_strings
    read_strings_le name as_default [] s = omega arith
    read_strings_le name as_default (i ∷ is) s =
        let (v, s1) = read_word s in
        elim (Bool-cases (str_eq name i.label)) [
          | inl e ↦ rw e (omega (arith, read_strings_le name as_default is s1, read_word_le s))
          | inr e ↦ rw e (read_strings_le name as_default is s)
        ]

    read_option_lt :
        (as_default : Bool) (o : Options W) (s : S) {o' : Options W} {s' : S}
        → read_option as_default o s ≡ some (o', s')
        → remaining s' < remaining s
    unfolding read_option
    read_option_lt as_default o s e =
        let (name, s1) = get_text 100 58 (skip_ws s) in
        let (_, s2) = get_char s1 in
        let (ds, s3) = read_doubles name as_default o.all_double_options s2 in
        let (ls, s4) = read_longs name as_default o.all_long_options s3 in
        ground (
          arith,
          eq_iff name "",
          skip_ws_le s,
          get_text_lt 100 58 (skip_ws s),
          get_char_le s1,
          read_doubles_le name as_default o.all_double_options s2,
          read_longs_le name as_default o.all_long_options s3,
          read_strings_le name as_default o.all_string_options s4,
        )

    -- The reader of option files ends: fuel above the length of the file is enough for a result.
    pub read_options_total :
        (fuel : ℕ) (as_default : Bool) (o : Options W) (s : S)
        → remaining s < fuel
        → (o' : Options W) × (read_options fuel as_default o s ≡ some o')
    unfolding read_options
    read_options_total zero as_default o s h = elim h [ ]
    read_options_total (suc fuel) as_default o s h =
        elim (Option-cases (read_option as_default o s)) [
          | inl stop ↦ (o, rw (stop, read_options))
          | inr ((o1, s1), more) ↦
              rw (more, read_options)
                (read_options_total fuel as_default o1 s1
                  (omega (arith, read_option_lt as_default o s more)))
        ]

    -- Whatever an option file says, reading it with fuel above its length gives a result, and leaves
    -- every numeric option and its default between the smallest and the largest value, if they were.
    pub read_options_file-InRange :
        (fuel : ℕ) (as_default : Bool) (o : Options W) (s : S)
        → AllInRange o
        → remaining s < fuel
        → (o' : Options W) × (read_options_file fuel as_default o (some s) ≡ some o')
          × AllInRange o'
    unfolding read_options_file
    read_options_file-InRange fuel as_default o s h enough =
        let (o', e) = read_options_total fuel as_default o s enough in
        (o', e, read_options-InRange fuel as_default o s h e)
