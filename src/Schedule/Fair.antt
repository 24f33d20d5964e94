-- ===== src/Schedule/Fair.antt =====
-- The draw of src/ArenaRealTime.cc is fair, and can always go on.
use realtimebattle.Base.{
  ℕ, zero, suc, ◌+◌, ◌-◌, ◌<◌, ◌≡◌, ◌⊎◌, inl, inr, refl, sym, ap, Bool, true, false, List, [], ◌∷◌,
  map, ◌==◌, if◌then◌else◌, get_elem?, set, some, arith, All, length, count, count-set,
  get_elem?-lt, length-set, Bool-cases, ◌∙◌,
}
use realtimebattle.Schedule.Rest.{Entrant, Draw, enrol, is_refused, clear}

abbrev is_at : ℕ → Entrant → Bool
is_at m e = e.played == m

abbrev is_busy_at : ℕ → Entrant → Bool
is_busy_at m e = if e.playing then e.played == m else false

abbrev is_free_at : ℕ → Entrant → Bool
is_free_at m e = if e.playing then false else e.played == m

abbrev pub is_playing : Entrant → Bool
is_playing e = e.playing

count_split :
    (m : ℕ) (es : List Entrant)
    → count (is_at m) es ≡ count (is_free_at m) es + count (is_busy_at m) es
count_split m [] = refl
count_split m (e ∷ es) = ground (arith, count_split m es)

abbrev pub IsNear : ℕ → Entrant → Type 0
IsNear m e = (e.played ≡ m) ⊎ (e.played ≡ m + 1)

All-set :
    (m : ℕ) (es : List Entrant) (nr : ℕ) (e : Entrant)
    → IsNear m e
    → All (IsNear m) es
    → All (IsNear m) (set es nr e)
All-set m [] nr e h hs = tt
All-set m (x ∷ es) zero e h (g, gs) = (h, gs)
All-set m (x ∷ es) (suc nr) e h (g, gs) = (g, All-set m es nr e h gs)

-- Where none is at the minimum, all are one above.
count-above :
    (m : ℕ) (es : List Entrant)
    → All (IsNear m) es
    → count (is_at m) es ≡ 0
    → (count (is_at (m + 1)) es ≡ length es)
      × (count (is_busy_at (m + 1)) es ≡ count is_playing es)
      × All (IsNear (m + 1)) es
count-above m [] h e = (refl, refl, tt)
count-above m (x ∷ es) (h, hs) e = ground (arith, count-above m es hs)

-- The invariant of the draw among `n` robots. `room` says that the robots on the minimum are not all
-- taken: either none of them plays this match, or the minimum has gone up in this match.
pub record IsFair (n : ℕ) (s : Draw) : Type 0 where
  pub size : length s.entrants ≡ n
  pub near : All (IsNear s.min_matches_played) s.entrants
  pub on_min : s.number_of_robots_on_min_matches ≡ count (is_at s.min_matches_played) s.entrants
  pub some_left : 0 < s.number_of_robots_on_min_matches
  pub room :
      (count (is_busy_at s.min_matches_played) s.entrants ≡ 0)
      ⊎ (s.number_of_robots_on_min_matches + count is_playing s.entrants
          ≡ n + count (is_busy_at s.min_matches_played) s.entrants)

pub enrol-IsFair :
    (n : ℕ) (s : Draw) (nr : ℕ) {e : Entrant}
    → IsFair n s
    → get_elem? s.entrants nr ≡ some e
    → is_refused s e ≡ false
    → IsFair n (enrol n s nr e)
unfolding enrol
enrol-IsFair n s nr {e} f at h =
    let m = s.min_matches_played in
    let e' : Entrant = record { playing = true; played = e.played + 1 } in
    let es' = set s.entrants nr e' in
    let free : e.playing ≡ false = ground arith in
    let low : e.played ≡ m = ground arith in
    let near' : All (IsNear m) es' =
      All-set m s.entrants nr e' (inr (ap (λ (k : ℕ). k + 1) low)) f.near in
    let len = length-set s.entrants nr e' in
    let c_at : count (is_at m) es' + 1 ≡ count (is_at m) s.entrants =
      ground (arith, count-set (is_at m) s.entrants nr e' at) in
    let c_busy : count (is_busy_at m) es' ≡ count (is_busy_at m) s.entrants =
      ground (arith, count-set (is_busy_at m) s.entrants nr e' at) in
    let c_playing : count is_playing es' ≡ count is_playing s.entrants + 1 =
      ground (arith, count-set is_playing s.entrants nr e' at) in
    elim (Bool-cases (s.number_of_robots_on_min_matches - 1 == 0)) [
      | inl last ↦
          let none_at : count (is_at m) es' ≡ 0 = ground (arith, c_at) in
          let up = count-above m es' near' none_at in
          rw last record {
            size = len ∙ f.size;
            near = up.2;
            on_min = omega (arith, up.0, len, f.size);
            some_left = omega (arith, get_elem?-lt s.entrants nr at, f.size);
            room = inr (omega (arith, up.1));
          }
      | inr more ↦ rw more record {
        size = len ∙ f.size;
        near = near';
        on_min = omega (arith, c_at, f.on_min);
        some_left = ground (arith, f.some_left);
        room = elim f.room [
          | inl none_busy ↦ inl (c_busy ∙ none_busy)
          | inr taken ↦ inr (omega (arith, taken, c_busy, c_playing, f.some_left))
        ];
      }
    ]

clear-IsNear : (m : ℕ) (es : List Entrant) → All (IsNear m) es → All (IsNear m) (map clear es)
clear-IsNear m [] h = tt
clear-IsNear m (e ∷ es) (h, hs) = (h, clear-IsNear m es hs)

length-clear : (es : List Entrant) → length (map clear es) ≡ length es
length-clear [] = refl
length-clear (e ∷ es) = ap suc (length-clear es)

count_at-clear : (m : ℕ) (es : List Entrant) → count (is_at m) (map clear es) ≡ count (is_at m) es
count_at-clear m [] = refl
count_at-clear m (e ∷ es) = ap (λ k. (if e.played == m then 1 else 0) + k) (count_at-clear m es)

count_busy-clear : (m : ℕ) (es : List Entrant) → count (is_busy_at m) (map clear es) ≡ 0
count_busy-clear m [] = refl
count_busy-clear m (e ∷ es) = omega (arith, count_busy-clear m es)

pub count_playing-clear : (es : List Entrant) → count is_playing (map clear es) ≡ 0
count_playing-clear [] = refl
count_playing-clear (e ∷ es) = omega (arith, count_playing-clear es)

pub clear-IsFair :
    (n : ℕ) (s : Draw) → IsFair n s → IsFair n (record s { entrants = map clear s.entrants })
clear-IsFair n s f =
    let m = s.min_matches_played in
    record {
      size = length-clear s.entrants ∙ f.size;
      near = clear-IsNear m s.entrants f.near;
      on_min = f.on_min ∙ sym (count_at-clear m s.entrants);
      some_left = f.some_left;
      room = inl (count_busy-clear m s.entrants);
    }

-- A robot that can be taken: it plays not yet and is on the minimum.
abbrev pub Candidate : Draw → Type 0
Candidate s =
    (nr : ℕ) × (e : Entrant) × (nr < length s.entrants)
    × (get_elem? s.entrants nr ≡ some e)
    × (is_refused s e ≡ false)

free_one :
    (m : ℕ) (es : List Entrant)
    → 0 < count (is_free_at m) es
    → (nr : ℕ) × (e : Entrant) × (nr < length es)
      × (get_elem? es nr ≡ some e)
      × (is_free_at m e ≡ true)
free_one m [] h = elim h [ ]
free_one m (e ∷ es) h = elim (Bool-cases (is_free_at m e)) [
  | inl here ↦ (0, e, omega arith, refl, here)
  | inr later ↦
      let rest : 0 < count (is_free_at m) es = ground (arith, h, later) in
      let (nr, e', lt, at, free) = free_one m es rest in (suc nr, e', omega (arith, lt), at, free)
]

pub IsFair-Candidate :
    (n : ℕ) (s : Draw) → IsFair n s → count is_playing s.entrants < n → Candidate s
IsFair-Candidate n s f h =
    let m = s.min_matches_played in
    let split = count_split m s.entrants in
    let some_free : 0 < count (is_free_at m) s.entrants = elim f.room [
      | inl none_busy ↦ omega (arith, split, none_busy, f.on_min, f.some_left)
      | inr taken ↦ omega (arith, split, taken, f.on_min, h)
    ] in
    let (nr, e, lt, at, free) = free_one m s.entrants some_free in (nr, e, lt, at, ground arith)

pub count_playing-enrol :
    (n : ℕ) (s : Draw) (nr : ℕ) {e : Entrant}
    → get_elem? s.entrants nr ≡ some e
    → is_refused s e ≡ false
    → count is_playing (enrol n s nr e).entrants ≡ count is_playing s.entrants + 1
unfolding enrol
count_playing-enrol n s nr {e} at h = ground (
  arith,
  count-set is_playing s.entrants nr (record { playing = true; played = e.played + 1 }) at,
)
