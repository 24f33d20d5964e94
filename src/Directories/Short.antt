-- ===== src/Directories/Short.antt =====
-- Names that are too short for the tests of src/Various.cc.
use realtimebattle.Base.{
  ◌≡◌, refl, ap, ◌∙◌, Bool, true, false, ◌&&◌, ◌||◌, List, [], ◌∷◌, ◌++◌, Option, none, some, arith,
  ltb, if◌then◌else◌, length,
}
use realtimebattle.Chars.{Chars}
use realtimebattle.Directories.{FileSystem, check_file, search_entries, search_directories}

abbrev pub is_none {ℓ} : {A : Type ℓ} → Option A → Bool
is_none none = true
is_none (some a) = false

abbrev pub any : (Chars → Bool) → List Chars → Bool
any p [] = false
any p (e ∷ es) = p e || any p es

abbrev pub entries_of : Option (List Chars) → List Chars
entries_of none = []
entries_of (some es) = es

module _ (fs : FileSystem) where
  -- A regular file that can be run and whose whole name has fewer characters than ".robot".
  abbrev pub is_short : Chars → Bool
  is_short fname = elim (fs.stat fname) [
    | none ↦ false
    | some st ↦ (st.is_regular && st.is_executable) && ltb (length fname) 6
  ]

  check_robot_none : (fname : Chars) → is_none (check_file fs true fname) ≡ is_short fname
  unfolding check_file
  check_robot_none fname = ground arith

  check_arena_none : (fname : Chars) → is_none (check_file fs false fname) ≡ false
  unfolding check_file
  check_arena_none fname = ground arith

  check_none : (b : Bool) (f : Chars) → is_none (check_file fs b f) ≡ b && is_short f
  check_none true f = check_robot_none f
  check_none false f = check_arena_none f

  -- A name of the directory that ends the search.
  abbrev pub ends_search : Bool → Chars → Chars → Bool
  ends_search b dir e = b && is_short (dir ++ e)

  search_entries_none :
      (b : Bool) (dir : Chars) (es l : List Chars)
      → is_none (search_entries fs b dir es l) ≡ any (ends_search b dir) es
  unfolding search_entries
  search_entries_none b dir [] l = refl
  search_entries_none b dir (e ∷ es) l =
      go (check_file fs b (dir ++ e)) (check_none b (dir ++ e)) (search_entries_none b dir es)
    where
      go :
          (o : Option Bool)
          → is_none o ≡ ends_search b dir e
          → ((m : List Chars) → is_none (search_entries fs b dir es m) ≡ any (ends_search b dir) es)
          → is_none (elim o [
            | none ↦ none
            | some res ↦ search_entries fs b dir es (if res then l ++ (dir ++ e) ∷ [] else l)
          ])
            ≡ any (ends_search b dir) (e ∷ es)
      go none h more = ap (λ c. c || any (ends_search b dir) es) h
      go (some res) h more =
          more (if res then l ++ (dir ++ e) ∷ [] else l)
          ∙ ap (λ c. c || any (ends_search b dir) es) h

  -- The search through a directory ends in the fatal error just if it looks for robots and the directory
  -- has a regular file that can be run and whose name, the directory's included, has fewer than six
  -- characters; a search for arenas never does.
  pub search_directories-is_short :
      (b : Bool) (dir : Chars) (l : List Chars)
      → is_none (search_directories fs dir l b)
        ≡ any (ends_search b dir) (entries_of (fs.entries dir))
  unfolding search_directories
  search_directories-is_short b dir l =
      elim (fs.entries dir)
        as (λ o.
          is_none (elim o [ none ↦ some l | some es ↦ search_entries fs b dir es l ])
          ≡ any (ends_search b dir) (entries_of o)) [
            | none ↦ refl
            | some es ↦ search_entries_none b dir es l
          ]
