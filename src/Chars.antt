-- ===== src/Chars.antt =====
-- Texts as lists of the codes of their characters, with the operations of `std::string` that
-- src/Various.cc uses.
use Prim.Native.Char.{code}
use Prim.Native.String.{String}
use realtimebattle.Base.{
  ℕ, suc, ◌+◌, ◌-◌, ◌≡◌, refl, Bool, true, false, ◌&&◌, List, [], ◌∷◌, Option, none, some, arith,
  leb, ltb, ◌==◌, if◌then◌else◌, length, take, drop,
}

abbrev pub Chars : Type 0
Chars = List ℕ

abbrev pub codes : String → Chars
codes String.[] = []
codes (String.◌∷◌ c s) = code c ∷ codes s

abbrev pub is_empty : Chars → Bool
is_empty [] = true
is_empty (c ∷ cs) = false

-- `s == t`
abbrev pub same_text : Chars → Chars → Bool
same_text [] [] = true
same_text [] (d ∷ ds) = false
same_text (c ∷ cs) [] = false
same_text (c ∷ cs) (d ∷ ds) = (c == d) && same_text cs ds

-- `s.find(c)`
abbrev pub find : ℕ → Chars → Option ℕ
find c [] = none
find c (d ∷ ds) =
    if d == c then some 0 else elim (find c ds) [ none ↦ none | some i ↦ some (suc i) ]

-- `s.find(c, pos)`
abbrev pub find_from : ℕ → Chars → ℕ → Option ℕ
find_from c s pos = elim (find c (drop pos s)) [ none ↦ none | some i ↦ some (pos + i) ]

-- `s.substr(pos, n)` for a pos that is not past the end
abbrev pub substr : Chars → ℕ → ℕ → Chars
substr s pos n = take n (drop pos s)

-- `s.substr(s.size() - n, n)`: a text that is too short throws out_of_range.
abbrev pub last_chars : Chars → ℕ → Option Chars
last_chars s n = if ltb (length s) n then none else some (drop (length s - n) s)

-- `s.at(s.size() - 1)`: the empty text throws out_of_range.
abbrev pub last_char : Chars → Option ℕ
last_char [] = none
last_char (c ∷ []) = some c
last_char (c ∷ d ∷ ds) = last_char (d ∷ ds)

abbrev pub tolower : ℕ → ℕ
tolower c = if leb b'A' c && leb c b'Z' then c + 32 else c

-- The characters before the first c.
abbrev pub before : ℕ → Chars → Chars
before c [] = []
before c (d ∷ ds) = if d == c then [] else d ∷ before c ds

pub same_text-eq : (s t : Chars) → same_text s t ≡ true → s ≡ t
same_text-eq [] [] h = refl
same_text-eq [] (d ∷ ds) h = ground arith
same_text-eq (c ∷ cs) [] h = ground arith
same_text-eq (c ∷ cs) (d ∷ ds) h = ground (arith, same_text-eq cs ds)

abbrev pub before_first : ℕ → List Chars → List Chars
before_first c [] = []
before_first c (f ∷ fs) = (c ∷ f) ∷ fs

-- The texts that a separator keeps apart.
abbrev pub fields : ℕ → Chars → List Chars
fields sep [] = [] ∷ []
fields sep (c ∷ cs) = if c == sep then [] ∷ fields sep cs else before_first c (fields sep cs)
