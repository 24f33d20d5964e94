-- ===== src/Options/Read.antt =====
-- `Options::read_options_file` of src/Options.cc. A missing file is `none`.
use Prim.Native.Char.{code}
use Prim.Native.String.{String}
use text.Mathlib.Text.{◌==◌ as str_eq}
use realtimebattle.Base.{ℕ, zero, suc, Bool, List, [], ◌∷◌, Option, some, none, ◌==◌, if◌then◌else◌}
use realtimebattle.Base.Int.{ℤ, ltb_ℤ}
use realtimebattle.Double.{Double, min_rtb, max_rtb}
use realtimebattle.Input.{Input, DoubleInput}
use realtimebattle.Options.{EntryDatatype, entry_int, entry_hex, OptionInfo, Options}

-- `while( option_value[0] == ' ' ) option_value = option_value.substr(1);`
unfoldable pub strip_spaces : String → String
strip_spaces String.[] = ""
strip_spaces (String.◌∷◌ c s) =
    let rest = strip_spaces s in if code c == 32 then rest else String.◌∷◌ c s

-- The value of an entry, and its default too if the file gives the defaults.
abbrev pub store {ℓ} : {A : Type ℓ} → Bool → OptionInfo A → A → OptionInfo A
store as_default i v =
    if as_default then record i { value = v; default_value = v } else record i { value = v }

-- `min_rtb` and `max_rtb` on `long`.
abbrev pub clamp_ℤ : ℤ → ℤ → ℤ → ℤ
clamp_ℤ mn mx v = let low = if ltb_ℤ v mx then v else mx in if ltb_ℤ mn low then low else mn

abbrev pub clamp_double {ℓ} : {W : Type ℓ} ⦃d : Double W⦄ → OptionInfo W → W → W
clamp_double i v = max_rtb (min_rtb v i.max_value) i.min_value

module _ {κ} {S : Type κ} ⦃inp : Input S⦄ where
  open inp use {read_int, read_word, hex_of}

  -- A decimal number, or a word read as a hexadecimal one; another datatype reads nothing.
  unfoldable pub read_long : EntryDatatype → S → ℤ × S
  unfolding strip_spaces
  read_long entry_int s = read_int s
  read_long entry_hex s = let (w, s1) = read_word s in (hex_of (strip_spaces w), s1)
  read_long _ s = (ℤ.pos 0, s)

  unfoldable pub read_longs : String → Bool → List (OptionInfo ℤ) → S → List (OptionInfo ℤ) × S
  unfolding read_long
  read_longs name as_default [] s = ([], s)
  read_longs name as_default (i ∷ is) s =
      let (v, s1) = read_long i.datatype s in
      let matched = str_eq name i.label in
      let i' = if matched then store as_default i (clamp_ℤ i.min_value i.max_value v) else i in
      let (is', s2) = read_longs name as_default is (if matched then s1 else s) in (i' ∷ is', s2)

  unfoldable pub read_strings :
      String → Bool → List (OptionInfo String) → S → List (OptionInfo String) × S
  unfolding strip_spaces
  read_strings name as_default [] s = ([], s)
  read_strings name as_default (i ∷ is) s =
      let (v, s1) = read_word s in
      let matched = str_eq name i.label in
      let i' = if matched then store as_default i (strip_spaces v) else i in
      let (is', s2) = read_strings name as_default is (if matched then s1 else s) in (i' ∷ is', s2)

module _ {ℓ κ} {W : Type ℓ} {S : Type κ} ⦃d : Double W⦄ ⦃inp : Input S⦄
    ⦃reads : DoubleInput W S⦄ where
  open inp use {skip_ws, get_text, get_char}
  open reads use {read_double}

  -- The three loops over the arrays: an entry whose label is the name reads its value.
  unfoldable pub read_doubles : String → Bool → List (OptionInfo W) → S → List (OptionInfo W) × S
  read_doubles name as_default [] s = ([], s)
  read_doubles name as_default (i ∷ is) s =
      let (v, s1) = read_double s in
      let matched = str_eq name i.label in
      let i' = if matched then store as_default i (clamp_double i v) else i in
      let (is', s2) = read_doubles name as_default is (if matched then s1 else s) in (i' ∷ is', s2)

  -- One round of the `for(;;)`: `none` is the `break` at an empty name.
  unfoldable pub read_option : Bool → Options W → S → Option (Options W × S)
  unfolding read_doubles read_longs read_strings
  read_option as_default o s =
      let (name, s1) = get_text 100 58 (skip_ws s) in
      let (_, s2) = get_char s1 in
      let (ds, s3) = read_doubles name as_default o.all_double_options s2 in
      let (ls, s4) = read_longs name as_default o.all_long_options s3 in
      let (ts, s5) = read_strings name as_default o.all_string_options s4 in
      let o' : Options W = record {
        all_double_options = ds;
        all_long_options = ls;
        all_string_options = ts;
      } in
      if str_eq name "" then none else some (o', s5)

  -- The loop on fuel; `none` means that the fuel ran out.
  unfoldable pub read_options : ℕ → Bool → Options W → S → Option (Options W)
  read_options zero as_default o s = none
  read_options (suc fuel) as_default o s = elim (read_option as_default o s) [
    | none ↦ some o
    | some (o', s') ↦ read_options fuel as_default o' s'
  ]

  unfoldable pub read_options_file : ℕ → Bool → Options W → Option S → Option (Options W)
  read_options_file fuel as_default o none = some o
  read_options_file fuel as_default o (some s) = read_options fuel as_default o s
