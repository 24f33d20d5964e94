-- ===== src/Input.antt =====
-- The input streams of the C++ library, as the program uses them: `istringstream` for the messages of
-- a robot, `ifstream` for arena and option files. They are parameters. An operation returns what it
-- reads and the stream after it; a number that cannot be read has the value that the library leaves.
pub mod Tokens
use Prim.Native.String.{String}
use realtimebattle.Base.{ℕ, ◌≤◌, ◌<◌, ◌≡◌, ◌≢◌, Bool, false}
use realtimebattle.Base.Int.{ℤ}

pub record Input {κ} (S : Type κ) : Type κ where
  pub good : S → Bool
  pub eof : S → Bool
  -- `peek() == eof`
  pub at_end : S → Bool
  -- `>> ws`
  pub skip_ws : S → S
  -- `get(buffer, n, delim)`: at most n - 1 characters, up to the delimiter, which stays
  pub get_text : ℕ → ℕ → S → String × S
  -- `get(c)`, and `>> c` with the value of c before it, which stays if nothing is read; as codes
  pub get_char : S → ℕ × S
  pub read_char : ℕ → S → ℕ × S
  pub read_word : S → String × S
  pub read_int : S → ℤ × S
  pub read_hex : S → ℤ × S
  -- `istringstream(t) >> std::hex >> v` with v = 0 before
  pub hex_of : String → ℤ

pub record DoubleInput {ℓ κ} (W : Type ℓ) (S : Type κ) : Type (ℓ ⊔ κ) where
  pub read_double : S → W × S

-- What the loops over a stream rely on. `remaining` is what can still be taken off the stream, nothing
-- if it has failed: reading never makes it longer, `get` gives no text or takes something off, and so
-- does `>> c` where anything is left.
pub record IsConsuming {ℓ κ} (W : Type ℓ) (S : Type κ) ⦃i : Input S⦄ ⦃r : DoubleInput W S⦄
    : Type (ℓ ⊔ κ) where
  pub remaining : S → ℕ
  pub skip_ws_le : (s : S) → remaining (i.skip_ws s) ≤ remaining s
  pub get_text_lt :
      (n c : ℕ) (s : S) → (i.get_text n c s).0 ≢ "" → remaining (i.get_text n c s).1 < remaining s
  pub read_char_le : (c : ℕ) (s : S) → remaining (i.read_char c s).1 ≤ remaining s
  pub get_char_le : (s : S) → remaining (i.get_char s).1 ≤ remaining s
  pub read_char_lt : (c : ℕ) (s : S) → 0 < remaining s → remaining (i.read_char c s).1 < remaining s
  pub read_word_le : (s : S) → remaining (i.read_word s).1 ≤ remaining s
  pub read_int_le : (s : S) → remaining (i.read_int s).1 ≤ remaining s
  pub read_double_le : (s : S) → remaining (r.read_double s).1 ≤ remaining s
