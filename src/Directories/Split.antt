-- ===== src/Directories/Split.antt =====
-- What split_colonseparated_dirs of src/Various.cc makes of a search path.
use mathlib.Core.List.{append_assoc}
use realtimebattle.Base.{
  ℕ, zero, suc, ◌+◌, ◌-◌, ◌≤◌, ◌<◌, ◌≡◌, refl, sym, ap, ◌∙◌, inl, inr, false, List, [], ◌∷◌, ◌++◌,
  Option, none, some, arith, if◌then◌else◌, length, take, drop, length-drop, Option-cases,
}
use realtimebattle.Chars.{Chars, fields, is_empty, find, find_from}
use realtimebattle.Directories.{
  Listed, listed, exception, with_slash, push_dir, last_dir, split_loop, split_colonseparated_dirs,
}

-- Each with its slash, if none is empty.
abbrev pub slashed : List Chars → Option (List Chars)
slashed [] = some []
slashed (f ∷ fs) = elim (with_slash f) [
  | none ↦ none
  | some d ↦ elim (slashed fs) [ none ↦ none | some ds ↦ some (d ∷ ds) ]
]

abbrev pub add_all : List Chars → Option (List Chars) → Listed
add_all str_list none = exception
add_all str_list (some ds) = listed (str_list ++ ds)

fields-none : (s : Chars) → find b':' s ≡ none → fields b':' s ≡ s ∷ []
fields-none [] h = refl
fields-none (c ∷ cs) h = ground (arith, fields-none cs)

fields-some :
    (s : Chars) (i : ℕ)
    → find b':' s ≡ some i
    → (fields b':' s ≡ take i s ∷ fields b':' (drop (suc i) s)) × (i < length s)
fields-some [] i h = ground arith
fields-some (c ∷ cs) zero h = ground arith
fields-some (c ∷ cs) (suc i) h = ground (arith, fields-some cs i)

drop-nil : (n : ℕ) → drop {A = ℕ} n [] ≡ []
drop-nil zero = refl
drop-nil (suc n) = refl

drop-drop : (m n : ℕ) (s : Chars) → drop n (drop m s) ≡ drop (m + n) s
drop-drop zero n s = ap (λ k. drop k s) (omega arith)
drop-drop (suc m) n [] = drop-nil n ∙ sym (drop-nil (suc m + n))
drop-drop (suc m) n (c ∷ cs) =
    let e : suc (m + n) ≡ suc m + n = omega arith in drop-drop m n cs ∙ ap (λ k. drop k (c ∷ cs)) e

take_all : (n : ℕ) (s : Chars) → length s ≤ n → take n s ≡ s
take_all zero [] h = refl
take_all zero (c ∷ cs) h = absurd (omega arith)
take_all (suc n) [] h = refl
take_all (suc n) (c ∷ cs) h = ap (◌∷◌ c) (take_all n cs (omega arith))

with_slash-not_empty : (s d : Chars) → with_slash s ≡ some d → is_empty d ≡ false
unfolding with_slash
with_slash-not_empty [] d h = ground arith
with_slash-not_empty (c ∷ cs) [] h = ground arith
with_slash-not_empty (c ∷ cs) (d ∷ ds) h = refl

-- The last field, from lastpos on.
last_dir-slashed :
    (dirs : Chars) (lastpos : ℕ) (current : Chars) (l : List Chars)
    → is_empty current ≡ false
    → last_dir dirs lastpos current l ≡ add_all l (slashed (drop lastpos dirs ∷ []))
unfolding last_dir
last_dir-slashed dirs lastpos current l e =
    let whole =
      take_all (length dirs - lastpos) (drop lastpos dirs)
        (omega (arith, length-drop lastpos dirs)) in
    rw (e, whole) (last (with_slash (drop lastpos dirs)))
  where
    last :
        (o : Option Chars)
        → push_dir l o
          ≡ add_all l (elim o [
            | none ↦ none
            | some d ↦ elim (slashed []) [ none ↦ none | some ds ↦ some (d ∷ ds) ]
          ])
    last none = refl
    last (some d) = refl

add_all-append :
    (l : List Chars) (d : Chars) (o : Option (List Chars))
    → add_all (l ++ d ∷ []) o ≡ add_all l (elim o [ none ↦ none | some ds ↦ some (d ∷ ds) ])
add_all-append l d none = refl
add_all-append l d (some ds) = ap listed (append_assoc l (d ∷ []) ds)

split_loop-fields :
    (fuel : ℕ) (dirs : Chars) (lastpos : ℕ) (current : Chars) (l : List Chars)
    → length (drop lastpos dirs) < fuel
    → is_empty current ≡ false
    → split_loop fuel dirs lastpos current l ≡ add_all l (slashed (fields b':' (drop lastpos dirs)))
unfolding split_loop
split_loop-fields zero dirs lastpos current l h e = elim h [ ]
split_loop-fields (suc fuel) dirs lastpos current l h e =
    elim (Option-cases (find b':' (drop lastpos dirs))) [
      | inl n ↦
          rw (n, split_loop, find_from, fields-none (drop lastpos dirs) n)
            (last_dir-slashed dirs lastpos current l e)
      | inr (i, f) ↦
          let (split, lt) = fields-some (drop lastpos dirs) i f in
          let left : drop (suc i) (drop lastpos dirs) ≡ drop (lastpos + i + 1) dirs =
            drop-drop lastpos (suc i) dirs ∙ next lastpos i dirs in
          let width : lastpos + i - lastpos ≡ i = omega arith in
          rw (f, split_loop, find_from, split, left, width)
            (go (take i (drop lastpos dirs)) (lastpos + i + 1)
              (omega (arith, length-drop (lastpos + i + 1) dirs, length-drop lastpos dirs))
              (split_loop-fields fuel dirs (lastpos + i + 1)))
    ]
  where
    next : (m i : ℕ) (s : Chars) → drop (m + suc i) s ≡ drop (m + i + 1) s
    next m i s = let e : m + suc i ≡ m + i + 1 = omega arith in ap (λ k. drop k s) e

    go :
        (piece : Chars) (at : ℕ)
        → length (drop at dirs) < fuel
        → ((current : Chars) (l : List Chars)
            → length (drop at dirs) < fuel
            → is_empty current ≡ false
            → split_loop fuel dirs at current l ≡ add_all l (slashed (fields b':' (drop at dirs))))
        → elim (with_slash piece) [
          | none ↦ exception
          | some dir ↦ split_loop fuel dirs at dir (l ++ dir ∷ [])
        ]
          ≡ add_all l (slashed (piece ∷ fields b':' (drop at dirs)))
    go piece at lt ih = elim (Option-cases (with_slash piece)) [
      | inl n ↦ rw (n, slashed) refl
      | inr (d, s) ↦
          rw (s, slashed)
            (ih d (l ++ d ∷ []) lt (with_slash-not_empty piece d s)
              ∙ add_all-append l d (slashed (fields b':' (drop at dirs))))
    ]

-- The directories of a path are its texts between the colons, with a slash at the end of each, after
-- those of the list; the path with no text has none; in all other paths an empty text between the colons,
-- or at an end, is the fatal error.
pub split_colonseparated_dirs-fields :
    (dirs : Chars) (str_list : List Chars)
    → split_colonseparated_dirs dirs str_list
      ≡ (if is_empty dirs then listed str_list else add_all str_list (slashed (fields b':' dirs)))
unfolding split_colonseparated_dirs
split_colonseparated_dirs-fields [] str_list = refl
split_colonseparated_dirs-fields (c ∷ cs) str_list =
    split_loop-fields (length (c ∷ cs) + 1) (c ∷ cs) 0 (c ∷ cs) str_list (omega arith) refl
