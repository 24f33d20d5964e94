-- ===== src/LogFile/Lines.antt =====
-- Which log files check_logfile of src/Various.cc accepts.
use realtimebattle.Base.{
  ℕ, zero, suc, ◌+◌, ◌≤◌, ◌<◌, ◌≡◌, refl, sym, ap, Bool, true, false, ◌&&◌, ◌||◌, List, [], ◌∷◌,
  some, arith, ltb, ◌==◌, if◌then◌else◌, length, if-holds, lt→ltb,
}
use realtimebattle.Chars.{Chars, codes, fields, before_first}
use realtimebattle.Directories.{FileStat, FileSystem}
use realtimebattle.LogFile.{
  Got, line, end, too_long, put_before, getline, first_of, is_known, Checked, accepted, refused,
  check_lines, check_logfile,
}

abbrev is_in : Chars → ℕ → Bool
is_in [] c = false
is_in (d ∷ ds) c = c == d || is_in ds c

-- The letters of the messages in a log, and H for the header, which stands in the first line.
abbrev pub may_start : ℕ → ℕ → Bool
may_start n c = is_in (codes "AGOLRTPCMSD") c || (c == b'H' && n == 1)

may_start-is_known : (n c : ℕ) → is_known n c ≡ may_start n c
unfolding is_known
may_start-is_known n c = ground arith

-- The lines of a file, of which the last has no end: the first has one of the letters, the others one
-- but H, and none has 200 characters.
abbrev pub are_lines : ℕ → List Chars → Bool
are_lines n [] = true
are_lines n (l ∷ []) = ltb (length l) 200
are_lines n (l ∷ m ∷ ls) =
    (may_start n (first_of l) && ltb (length l) 200) && are_lines (n + 1) (m ∷ ls)

fields-cons : (sep : ℕ) (s : Chars) → (f : Chars) × (fs : List Chars) × (fields sep s ≡ f ∷ fs)
fields-cons sep [] = ([], [], refl)
fields-cons sep (c ∷ cs) =
    let (f, fs, e) = fields-cons sep cs in
    if-holds (λ x. (f : Chars) × (fs : List Chars) × (x ≡ f ∷ fs)) (c == sep)
      ([], fields sep cs, refl) (c ∷ f, fs, ap (before_first c) e)

-- What a getline found in a text with these lines.
abbrev IsGot : ℕ → Chars → List Chars → Got → Type 0
IsGot n cs ls (line l rest) =
    (ls ≡ l ∷ fields b'\n' rest) × (length l ≤ n) × (length rest < length cs)
IsGot n cs ls end = (l : Chars) × (ls ≡ l ∷ []) × (length l ≤ n)
IsGot n cs ls (too_long l) =
    (first : Chars) × (rest : List Chars) × (ls ≡ first ∷ rest)
    × (n < length first)
    × (n < length cs)

put_before-IsGot :
    (n c : ℕ) (cs : Chars) (ls : List Chars) (g : Got)
    → IsGot n cs ls g
    → IsGot (suc n) (c ∷ cs) (before_first c ls) (put_before c g)
put_before-IsGot n c cs ls (line l rest) (e, a, b) =
    (ap (before_first c) e, omega arith, omega arith)
put_before-IsGot n c cs ls end (l, e, a) = (c ∷ l, ap (before_first c) e, omega arith)
put_before-IsGot n c cs ls (too_long l) (first, rest, e, a, b) =
    (c ∷ first, rest, ap (before_first c) e, omega arith, omega arith)

both :
    (n : ℕ) (cs : Chars) (b : Bool) (ls ms : List Chars) (g k : Got)
    → IsGot n cs ls g
    → IsGot n cs ms k
    → IsGot n cs (if b then ls else ms) (if b then g else k)
both n cs true ls ms g k p q = p
both n cs false ls ms g k p q = q

too_long-IsGot :
    (c : ℕ) (cs : Chars) (ls : List Chars)
    → ((f : Chars) × (fs : List Chars) × (ls ≡ f ∷ fs))
    → IsGot 0 (c ∷ cs) (before_first c ls) (too_long [])
too_long-IsGot c cs ls (f, fs, e) = (c ∷ f, fs, ap (before_first c) e, omega arith, omega arith)

getline-IsGot : (n : ℕ) (cs : Chars) → IsGot n cs (fields b'\n' cs) (getline n cs)
unfolding getline
getline-IsGot n [] = ([], refl, omega arith)
getline-IsGot zero (c ∷ cs) =
    both 0 (c ∷ cs) (c == b'\n') _ _ _ _ (refl, omega arith, omega arith)
      (too_long-IsGot c cs (fields b'\n' cs) (fields-cons b'\n' cs))
getline-IsGot (suc n) (c ∷ cs) =
    both (suc n) (c ∷ cs) (c == b'\n') _ _ _ _ (refl, omega arith, omega arith)
      (put_before-IsGot n c cs (fields b'\n' cs) (getline n cs) (getline-IsGot n cs))

abbrev pub answer : Bool → Checked
answer true = accepted
answer false = refused

are_lines-long :
    (n : ℕ) (first : Chars) (rest : List Chars)
    → 199 < length first
    → are_lines n (first ∷ rest) ≡ false
are_lines-long n first [] h = ground arith
are_lines-long n first (m ∷ ms) h = ground arith

-- A stream that has failed gives no letter.
refused_once_failed : (fuel n : ℕ) (cs : Chars) → 0 < fuel → check_lines fuel n true cs ≡ refused
unfolding check_lines is_known
refused_once_failed zero n cs h = elim h [ ]
refused_once_failed (suc fuel) n cs h = refl

are_lines-fields :
    (n : ℕ) (l s : Chars)
    → are_lines n (l ∷ fields b'\n' s)
      ≡ (is_known n (first_of l) && ltb (length l) 200) && are_lines (n + 1) (fields b'\n' s)
are_lines-fields n l s =
    let (f, fs, e) = fields-cons b'\n' s in rw (may_start-is_known n (first_of l), e) refl

if_known :
    (b short r : Bool) (x : Checked)
    → short ≡ true
    → x ≡ answer r
    → elim b [ true ↦ x | false ↦ refused ] ≡ answer ((b && short) && r)
if_known true short r x s e = rw s e
if_known false short r x s e = refl

either_refused :
    (b : Bool) (x : Checked) → x ≡ refused → elim b [ true ↦ x | false ↦ refused ] ≡ refused
either_refused true x e = e
either_refused false x e = refl

check_lines-are_lines :
    (fuel n : ℕ) (cs : Chars)
    → length cs < fuel
    → check_lines fuel n false cs ≡ answer (are_lines (n + 1) (fields b'\n' cs))
unfolding check_lines
check_lines-are_lines zero n cs h = elim h [ ]
check_lines-are_lines (suc fuel) n cs h =
    got (getline 199 cs) (getline-IsGot 199 cs) (check_lines-are_lines fuel (n + 1))
  where
    got :
        (g : Got)
        → IsGot 199 cs (fields b'\n' cs) g
        → ((rest : Chars)
            → length rest < fuel
            → check_lines fuel (n + 1) false rest
              ≡ answer (are_lines (n + 1 + 1) (fields b'\n' rest)))
        → elim g [
          | end ↦ accepted
          | line l rest ↦ elim (is_known (n + 1) (first_of l)) [
            | true ↦ check_lines fuel (n + 1) false rest
            | false ↦ refused
          ]
          | too_long l ↦ elim (is_known (n + 1) (first_of l)) [
            | true ↦ check_lines fuel (n + 1) true []
            | false ↦ refused
          ]
        ]
          ≡ answer (are_lines (n + 1) (fields b'\n' cs))
    got end (l, e, a) more = rw e (ap answer (sym (lt→ltb (length l) 200 (omega arith))))
    got (line l rest) (e, a, b) more =
        rw (e, are_lines-fields (n + 1) l rest)
          (if_known (is_known (n + 1) (first_of l)) (ltb (length l) 200) _ _
            (lt→ltb (length l) 200 (omega arith)) (more rest (omega arith)))
    got (too_long l) (first, rest, e, a, b) more =
        rw (e, are_lines-long (n + 1) first rest a)
          (either_refused (is_known (n + 1) (first_of l)) _
            (refused_once_failed fuel (n + 1) [] (omega arith)))

-- What may be read.
abbrev pub is_file : FileStat → Bool
is_file st = st.is_regular && st.is_readable

-- For a regular file that may be read and can be opened, the function returns. It accepts the file just
-- if its lines are lines of a log: none of 200 characters or more; each but what follows the last end of
-- a line has one of the twelve letters in front, and H only if it is the first.
pub check_logfile-are_lines :
    (fs : FileSystem) (fname : Chars) (filestat : FileStat) (text : Chars)
    → fs.stat fname ≡ some filestat
    → is_file filestat ≡ true
    → fs.contents fname ≡ some text
    → check_logfile fs fname ≡ answer (are_lines 1 (fields b'\n' text))
unfolding check_logfile
check_logfile-are_lines fs fname filestat text s r c =
    rw (s, check_logfile, r, c) (check_lines-are_lines (length text + 1) 0 text (omega arith))
