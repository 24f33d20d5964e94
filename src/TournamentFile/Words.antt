-- ===== src/TournamentFile/Words.antt =====
-- The words of a tournament file, as parse_tournament_file of src/Various.cc reads them.
use mathlib.Core.Path.{subst}
use realtimebattle.Base.{
  ◌≤◌, ◌<◌, ◌≡◌, sym, ◌∙◌, true, false, [], ◌∷◌, Option, none, some, arith, length, if-cases, ◌⊎◌,
  inl, inr, ap, Bool-cases, if◌then◌else◌,
}
use realtimebattle.Chars.{Chars}
use realtimebattle.TournamentFile.{
  Stream, is_space, skip_ws, word_of, after_word, take_word, read_word, too_long,
}

-- Reading a word takes a character at least, unless the file ends with it.
length-skip_ws : (cs : Chars) → length (skip_ws cs) ≤ length cs
length-skip_ws [] = omega arith
length-skip_ws (c ∷ cs) = ground (arith, length-skip_ws cs)

length-after_word : (cs : Chars) → length (after_word cs) ≤ length cs
length-after_word [] = omega arith
length-after_word (c ∷ cs) = ground (arith, length-after_word cs)

length-take_word :
    (buffer cs : Chars)
    → (length (take_word buffer cs).1.unread ≤ length cs)
      × ((take_word buffer cs).1.at_eof ≡ false → length (take_word buffer cs).1.unread < length cs)
length-take_word buffer [] = (omega arith, λ h. ground arith)
length-take_word buffer (c ∷ cs) =
    (omega (arith, length-after_word cs), λ h. omega (arith, length-after_word cs))

pub length-read_word :
    (buffer : Chars) (s : Stream)
    → (length (read_word buffer s).1.unread ≤ length s.unread)
      × ((read_word buffer s).1.at_eof ≡ false
          → length (read_word buffer s).1.unread < length s.unread)
unfolding read_word
length-read_word buffer s =
    let taken = length-take_word buffer (skip_ws s.unread) in
    if-cases {A = Chars × Stream}
      (λ x.
        (length x.1.unread ≤ length s.unread)
        × (x.1.at_eof ≡ false → length x.1.unread < length s.unread))
      s.at_eof (λ e. (omega arith, λ h. absurd (contrary (sym e ∙ h))))
      (λ _. (
        omega (arith, length-skip_ws s.unread, taken.0),
        λ h. omega (arith, length-skip_ws s.unread, taken.1 h),
      ))
  where
    contrary : true ≡ false → ⊥
    contrary h = ground arith

-- Somewhere a word of 200 characters or more begins, or goes on for as many.
unfoldable pub HasLong : Chars → Type 0
HasLong [] = ⊥
HasLong (c ∷ cs) = (199 < length (word_of (c ∷ cs))) ⊎ HasLong cs

HasLong-after_word : (cs : Chars) → HasLong (after_word cs) → HasLong cs
unfolding HasLong
HasLong-after_word [] h = h
HasLong-after_word (c ∷ cs) h = elim (Bool-cases (is_space c)) [
  | inl space ↦ subst HasLong (ap (λ b. if b then c ∷ cs else after_word cs) space) h
  | inr letter ↦ inr (
      HasLong-after_word cs
        (subst HasLong (ap (λ b. if b then c ∷ cs else after_word cs) letter) h))
]

HasLong-skip_ws : (cs : Chars) → HasLong (skip_ws cs) → HasLong cs
unfolding HasLong
HasLong-skip_ws [] h = h
HasLong-skip_ws (c ∷ cs) h = elim (Bool-cases (is_space c)) [
  | inl space ↦
      inr (HasLong-skip_ws cs (subst HasLong (ap (λ b. if b then skip_ws cs else c ∷ cs) space) h))
  | inr letter ↦ subst HasLong (ap (λ b. if b then skip_ws cs else c ∷ cs) letter) h
]

HasLong-take_word : (buffer cs : Chars) → HasLong (take_word buffer cs).1.unread → HasLong cs
unfolding HasLong
HasLong-take_word buffer [] h = h
HasLong-take_word buffer (c ∷ cs) h = inr (HasLong-after_word cs h)

-- What is left after a word has no longer words than there were.
pub HasLong-read_word :
    (buffer : Chars) (s : Stream) → HasLong (read_word buffer s).1.unread → HasLong s.unread
unfolding read_word
HasLong-read_word buffer s h =
    elim s.at_eof
        as (λ b.
          HasLong (if b then (buffer, s) else take_word buffer (skip_ws s.unread)).1.unread
          → HasLong s.unread) [
            | true ↦ λ k. k
            | false ↦ λ k. HasLong-skip_ws s.unread (HasLong-take_word buffer (skip_ws s.unread) k)
          ]
      h

skipped-HasLong :
    (buffer cs : Chars)
    → too_long buffer ≡ false
    → too_long (take_word buffer (skip_ws cs)).0 ≡ true
    → HasLong cs
unfolding HasLong
skipped-HasLong buffer [] short h = cc
skipped-HasLong buffer (c ∷ cs) short h = elim (Bool-cases (is_space c)) [
  | inl space ↦ inr (
      skipped-HasLong buffer cs short (
        subst (λ x. too_long (take_word buffer x).0 ≡ true)
          (ap (λ b. if b then skip_ws cs else c ∷ cs) space) h))
  | inr letter ↦
      let long : too_long (c ∷ word_of cs) ≡ true =
        subst (λ x. too_long (take_word buffer x).0 ≡ true)
          (ap (λ b. if b then skip_ws cs else c ∷ cs) letter) h in
      inl (
        subst (λ w. 199 < length w) (sym (ap (λ b. if b then [] else c ∷ word_of cs) letter))
          (not_short (c ∷ word_of cs) long))
]
  where
    not_short : (w : Chars) → too_long w ≡ true → 199 < length w
    not_short w h = ground arith

-- A word that is read and is too long stands in what is left of the file.
pub read_word-HasLong :
    (buffer : Chars) (s : Stream)
    → too_long buffer ≡ false
    → too_long (read_word buffer s).0 ≡ true
    → HasLong s.unread
unfolding read_word
read_word-HasLong buffer s short h =
    elim s.at_eof
        as (λ b.
          too_long (if b then (buffer, s) else take_word buffer (skip_ws s.unread)).0 ≡ true
          → HasLong s.unread) [
            | true ↦ λ k. cc
            | false ↦ λ k. skipped-HasLong buffer s.unread short k
          ]
      h

abbrev pub HasLongText : Option Chars → Type 0
HasLongText none = ⊥
HasLongText (some text) = HasLong text
