-- ===== src/Directories/Found.antt =====
-- The files that the searches of src/Various.cc find.
use mathlib.Core.List.{append-nil, append_assoc}
use realtimebattle.Base.{
  ℕ, zero, suc, ◌-◌, ◌≡◌, refl, sym, ap, ◌∙◌, inl, inr, Bool, true, false, ◌&&◌, List, [], ◌∷◌,
  ◌++◌, Option, none, some, arith, ltb, if◌then◌else◌, length, take, drop, All, All-append,
  Option-cases, if-holds, take-append-drop,
}
use realtimebattle.Chars.{Chars, codes, same_text, same_text-eq, before, find, substr}
use realtimebattle.Directories.{
  FileStat, FileSystem, text_of, check_if_filename_is_robot, check_if_filename_is_arena, check_file,
  search_entries, search_directories, search_all, search_file, search_word,
  check_for_robots_and_arenas,
}

ends : (fname s : Chars) (k : ℕ) → same_text s (drop k fname) ≡ true → fname ≡ take k fname ++ s
ends fname s k h =
    sym (take-append-drop k fname)
    ∙ ap (λ t. take k fname ++ t) (sym (same_text-eq s (drop k fname) h))

take-before :
    (n c : ℕ) (s : Chars) → length (take n (before c s)) ≡ n → take n (before c s) ≡ take n s
take-before zero c s h = refl
take-before (suc n) c [] h = ground arith
take-before (suc n) c (d ∷ ds) h = ground (arith, take-before n c ds)

starts :
    (s : Chars)
    → same_text (take 6 (before b'\n' s)) (codes "scale ") ≡ true
    → s ≡ codes "scale " ++ drop 6 s
starts s h =
    let e = same_text-eq (take 6 (before b'\n' s)) (codes "scale ") h in
    let n : length (take 6 (before b'\n' s)) ≡ 6 = rw e refl in
    sym (take-append-drop 6 s) ∙ ap (λ t. t ++ drop 6 s) (sym (take-before 6 b'\n' s n) ∙ e)

module _ (fs : FileSystem) where
  -- A regular file with the right of its kind, the right ending, and for an arena the right start.
  pub record IsRobotFile (fname : Chars) : Type 0 where
    pub filestat : FileStat
    pub is_there : fs.stat fname ≡ some filestat
    pub regular : filestat.is_regular ≡ true
    pub executable : filestat.is_executable ≡ true
    pub name : Chars
    pub ending : fname ≡ name ++ codes ".robot"

  pub record IsArenaFile (fname : Chars) : Type 0 where
    pub filestat : FileStat
    pub is_there : fs.stat fname ≡ some filestat
    pub regular : filestat.is_regular ≡ true
    pub readable : filestat.is_readable ≡ true
    pub name : Chars
    pub ending : fname ≡ name ++ codes ".arena"
    pub rest : Chars
    pub start : text_of (fs.contents fname) ≡ codes "scale " ++ rest

  abbrev pub IsFile : Bool → Chars → Type 0
  IsFile true fname = IsRobotFile fname
  IsFile false fname = IsArenaFile fname

  check_if_filename_is_robot-IsRobotFile :
      (fname : Chars) → check_if_filename_is_robot fs fname ≡ some true → IsRobotFile fname
  unfolding check_if_filename_is_robot
  check_if_filename_is_robot-IsRobotFile fname h = elim (Option-cases (fs.stat fname)) [
    | inl n ↦ elim (missing n) [ ]
    | inr (st, e) ↦ record {
      filestat = st;
      is_there = e;
      regular = ground arith;
      executable = ground arith;
      name = take (length fname - 6) fname;
      ending = ends fname (codes ".robot") (length fname - 6) (ground arith);
    }
  ]
    where
      missing : fs.stat fname ≡ none → ⊥
      missing n = ground arith

  check_if_filename_is_arena-IsArenaFile :
      (fname : Chars) → check_if_filename_is_arena fs fname ≡ some true → IsArenaFile fname
  unfolding check_if_filename_is_arena
  check_if_filename_is_arena-IsArenaFile fname h = elim (Option-cases (fs.stat fname)) [
    | inl n ↦ elim (missing n) [ ]
    | inr (st, e) ↦ record {
      filestat = st;
      is_there = e;
      regular = ground arith;
      readable = ground arith;
      name = take (length fname - 6) fname;
      ending = ends fname (codes ".arena") (length fname - 6) (ground arith);
      rest = drop 6 (text_of (fs.contents fname));
      start = starts (text_of (fs.contents fname)) (ground arith);
    }
  ]
    where
      missing : fs.stat fname ≡ none → ⊥
      missing n = ground arith

  check_file-IsFile :
      (b : Bool) (fname : Chars) → check_file fs b fname ≡ some true → IsFile b fname
  unfolding check_file
  check_file-IsFile true fname h = check_if_filename_is_robot-IsRobotFile fname h
  check_file-IsFile false fname h = check_if_filename_is_arena-IsArenaFile fname h

  -- The list goes on with files of the kind.
  abbrev pub Extends : Bool → List Chars → Option (List Chars) → Type 0
  Extends b l none = Unit
  Extends b l (some found) = (new : List Chars) × (found ≡ l ++ new) × All (IsFile b) new

  Extends-none : (b : Bool) (l : List Chars) → Extends b l (some l)
  Extends-none b l = ([], sym (append-nil l), tt)

  Extends-one :
      (b : Bool) (l : List Chars) (f : Chars) → IsFile b f → Extends b l (some (l ++ f ∷ []))
  Extends-one b l f h = (f ∷ [], refl, (h, tt))

  -- From a longer list on.
  Extends-trans :
      (b : Bool) (l new : List Chars) (o : Option (List Chars))
      → All (IsFile b) new
      → Extends b (l ++ new) o
      → Extends b l o
  Extends-trans b l new none h e = tt
  Extends-trans b l new (some found) h (more, e, k) =
      (new ++ more, e ∙ append_assoc l new more, All-append (IsFile b) new more h k)

  search_entries-Extends :
      (b : Bool) (dir : Chars) (es l : List Chars) → Extends b l (search_entries fs b dir es l)
  unfolding search_entries
  search_entries-Extends b dir [] l = Extends-none b l
  search_entries-Extends b dir (e ∷ es) l =
      go (check_file fs b (dir ++ e)) (check_file-IsFile b (dir ++ e))
        (search_entries-Extends b dir es)
    where
      go :
          (o : Option Bool)
          → (o ≡ some true → IsFile b (dir ++ e))
          → ((m : List Chars) → Extends b m (search_entries fs b dir es m))
          → Extends b l (elim o [
            | none ↦ none
            | some res ↦ search_entries fs b dir es (if res then l ++ (dir ++ e) ∷ [] else l)
          ])
      go none h more = tt
      go (some true) h more =
          Extends-trans b l ((dir ++ e) ∷ []) _ (h refl, tt) (more (l ++ (dir ++ e) ∷ []))
      go (some false) h more = more l

  search_directories-Extends :
      (b : Bool) (dir : Chars) (l : List Chars) → Extends b l (search_directories fs dir l b)
  unfolding search_directories
  search_directories-Extends b dir l =
      elim (fs.entries dir)
        as (λ o. Extends b l (elim o [ none ↦ some l | some es ↦ search_entries fs b dir es l ])) [
          | none ↦ Extends-none b l
          | some es ↦ search_entries-Extends b dir es l
        ]

  search_all-Extends : (b : Bool) (dirs l : List Chars) → Extends b l (search_all fs dirs l b)
  unfolding search_all
  search_all-Extends b [] l = Extends-none b l
  search_all-Extends b (dir ∷ dirs) l =
      go (search_directories fs dir l b) (search_directories-Extends b dir l)
        (search_all-Extends b dirs)
    where
      go :
          (o : Option (List Chars))
          → Extends b l o
          → ((m : List Chars) → Extends b m (search_all fs dirs m b))
          → Extends b l (elim o [ none ↦ none | some found ↦ search_all fs dirs found b ])
      go none e more = tt
      go (some found) (new, e, h) more = Extends-trans b l new _ h (rw e (more (l ++ new)))

  -- One name is tried, and more if it is no such file.
  one-Extends :
      (b : Bool) (l : List Chars) (f : Chars) (more : Option (List Chars))
      → Extends b l more
      → Extends b l (elim (check_file fs b f) [
        | none ↦ none
        | some true ↦ some (l ++ f ∷ [])
        | some false ↦ more
      ])
  one-Extends b l f more k = go (check_file fs b f) (check_file-IsFile b f)
    where
      go :
          (o : Option Bool)
          → (o ≡ some true → IsFile b f)
          → Extends b l
              (elim o [ none ↦ none | some true ↦ some (l ++ f ∷ []) | some false ↦ more ])
      go none h = tt
      go (some true) h = Extends-one b l f (h refl)
      go (some false) h = k

  search_file-Extends :
      (b : Bool) (word : Chars) (dirs l : List Chars) → Extends b l (search_file fs word dirs l b)
  unfolding search_file
  search_file-Extends b word [] l = Extends-none b l
  search_file-Extends b word (dir ∷ dirs) l =
      one-Extends b l (dir ++ word) _ (search_file-Extends b word dirs l)

  search_word-Extends :
      (b : Bool) (word : Chars) (l dirs : List Chars) → Extends b l (search_word fs word l dirs b)
  unfolding search_word
  search_word-Extends b word l dirs = go (find b'/' word)
    where
      go :
          (o : Option ℕ)
          → Extends b l (elim o [
            | none ↦ search_file fs word dirs l b
            | some i ↦ elim (check_file fs b word) [
              | none ↦ none
              | some true ↦ some (l ++ word ∷ [])
              | some false ↦ search_file fs word dirs l b
            ]
          ])
      go none = search_file-Extends b word dirs l
      go (some i) = one-Extends b l word _ (search_file-Extends b word dirs l)

  -- Whatever the word, the list is kept and goes on with files of the kind that is looked for: regular
  -- files that the rights allow to run, or to read, with the ending of their kind, and an arena starts
  -- with "scale ".
  pub check_for_robots_and_arenas-Extends :
      (b : Bool) (word : Chars) (tour_list dir_list : List Chars)
      → Extends b tour_list (check_for_robots_and_arenas fs word tour_list dir_list b)
  unfolding check_for_robots_and_arenas
  check_for_robots_and_arenas-Extends b word l dirs =
      if-holds (Extends b l)
        (ltb 1 (length word) && same_text (substr word (length word - 2) 2) (codes "/*"))
        (search_directories-Extends b (substr word 0 (length word - 1)) l)
        (if-holds (Extends b l) (same_text word (codes "*")) (search_all-Extends b dirs l)
          (search_word-Extends b word l dirs))
