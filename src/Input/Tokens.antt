-- ===== src/Input/Tokens.antt =====
-- A stream on which the theorems are tried: a list of tokens. It meets the laws of `IsConsuming`.
use Prim.Native.String.{String}
use realtimebattle.Base.{
  ℕ, ◌≤◌, ◌<◌, ◌≢◌, refl, Bool, true, false, List, [], ◌∷◌, some, arith, length,
}
use realtimebattle.Base.Int.{ℤ, pos}
use realtimebattle.Double.Whole.{Whole}
use realtimebattle.Input.{Input, DoubleInput, IsConsuming}

pub data Token : Type 0 where
  text : String → Token
  number : ℤ → Token
  letter : ℕ → Token

abbrev pub Tokens : Type 0
Tokens = List Token

abbrev is_empty : Tokens → Bool
is_empty [] = true
is_empty (t ∷ s) = false

abbrev take_text : Tokens → String × Tokens
take_text (text w ∷ s) = (w, s)
take_text s = ("", s)

abbrev take_number : Tokens → ℤ × Tokens
take_number (number z ∷ s) = (z, s)
take_number s = (pos 0, s)

abbrev take_letter : ℕ → Tokens → ℕ × Tokens
take_letter c (letter k ∷ s) = (k, s)
take_letter c (t ∷ s) = (c, s)
take_letter c [] = (c, [])

instance abbrev pub token_input : Input Tokens
token_input = record {
  good = λ s. true;
  eof = is_empty;
  at_end = is_empty;
  skip_ws = λ s. s;
  get_text = λ n c s. take_text s;
  get_char = λ s. (0, s);
  read_char = take_letter;
  read_word = take_text;
  read_int = take_number;
  read_hex = take_number;
  hex_of = λ w. pos 0;
}

abbrev take_whole : Tokens → Whole × Tokens
take_whole s = let (z, s') = take_number s in (some z, s')

instance abbrev pub token_doubles : DoubleInput Whole Tokens
token_doubles = record { read_double = take_whole }

pub take_text_le : (s : Tokens) → length (take_text s).1 ≤ length s
take_text_le [] = omega arith
take_text_le (text w ∷ s) = omega arith
take_text_le (number z ∷ s) = omega arith
take_text_le (letter k ∷ s) = omega arith

pub take_text_lt : (s : Tokens) → (take_text s).0 ≢ "" → length (take_text s).1 < length s
take_text_lt [] h = absurd (h refl)
take_text_lt (text w ∷ s) h = omega arith
take_text_lt (number z ∷ s) h = absurd (h refl)
take_text_lt (letter k ∷ s) h = absurd (h refl)

pub take_number_le : (s : Tokens) → length (take_number s).1 ≤ length s
take_number_le [] = omega arith
take_number_le (text w ∷ s) = omega arith
take_number_le (number z ∷ s) = omega arith
take_number_le (letter k ∷ s) = omega arith

pub take_letter_le : (c : ℕ) (s : Tokens) → length (take_letter c s).1 ≤ length s
take_letter_le c [] = omega arith
take_letter_le c (text w ∷ s) = omega arith
take_letter_le c (number z ∷ s) = omega arith
take_letter_le c (letter k ∷ s) = omega arith

pub take_letter_lt : (c : ℕ) (s : Tokens) → 0 < length s → length (take_letter c s).1 < length s
take_letter_lt c [] h = elim h [ ]
take_letter_lt c (text w ∷ s) h = omega arith
take_letter_lt c (number z ∷ s) h = omega arith
take_letter_lt c (letter k ∷ s) h = omega arith

abbrev pub tokens_consumed : IsConsuming Whole Tokens
tokens_consumed = record {
  remaining = length;
  skip_ws_le = λ s. omega arith;
  get_text_lt = λ n c s h. take_text_lt s h;
  read_char_le = take_letter_le;
  get_char_le = λ s. omega arith;
  read_char_lt = take_letter_lt;
  read_word_le = take_text_le;
  read_int_le = take_number_le;
  read_double_le = take_number_le;
}
