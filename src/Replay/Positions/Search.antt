-- ===== src/Replay/Positions/Search.antt =====
-- What the search for a time of src/ArenaReplay.cc finds, the step from it, and the game that is sought.
use mathlib.Core.Option.{some-injective}
use mathlib.Core.Path.{subst}
use realtimebattle.Base.{
  ℕ, zero, suc, ◌+◌, ◌≤◌, ◌≡◌, refl, sym, ap, ◌∙◌, ◌⊎◌, inl, inr, true, false, not, ◌||◌, List, [],
  ◌∷◌, ◌++◌, none, some, length, get_elem?, get_elem?-lt, replicate, if◌then◌else◌, if-cases,
  Bool-cases, All, arith,
}
use realtimebattle.Base.Int.{ℤ, pos, negsuc, ltb_ℤ, ◌+ℤ◌, ◌≤ℤ◌, +ℤ_parts, -ℤ_parts}
use realtimebattle.Double.{Double, ◌≺◌, ◌⊀◌}
use realtimebattle.Replay.{eq_id}
use realtimebattle.Replay.Positions.{
  TimePosInfo, steps_to, find_from, find_streampos_for_time, step_target, turned_page, change_game,
}

abbrev pub IsWithin : ℤ → ℤ → Type 0
IsWithin n x = (pos 1 ≤ℤ x) × (x ≤ℤ n)

turned_page-IsWithin :
    (ig is games sn gn : ℤ)
    → IsWithin games gn
    → pos 0 ≤ℤ games +ℤ ig
    → ig ≤ℤ games
    → IsWithin games (turned_page ig is games sn gn).1
unfolding turned_page
turned_page-IsWithin ig is games sn gn g c e =
    let P : ℤ × ℤ → Type 0 = λ p. IsWithin games p.1 in
    if-cases P (eq_id is (pos 0))
      (λ same.
        if-cases P (not (ltb_ℤ (gn +ℤ ig) (games +ℤ pos 1)))
          (λ above.
            ground (arith, +ℤ_parts gn ig, +ℤ_parts games (pos 1), -ℤ_parts (gn +ℤ ig) games))
          (λ inside.
            if-cases P (not (ltb_ℤ (pos 0) (gn +ℤ ig)))
              (λ below.
                ground (arith, +ℤ_parts gn ig, +ℤ_parts games ig, +ℤ_parts (gn +ℤ ig) games))
              (λ within. ground (arith, +ℤ_parts gn ig, +ℤ_parts games (pos 1)))))
      (λ other. if-cases P (ltb_ℤ is (pos 0)) (λ back. ground arith) (λ on. ground arith))

sought-IsWithin : (n x : ℤ) → (ltb_ℤ x (pos 1) || ltb_ℤ n x) ≡ false → IsWithin n x
sought-IsWithin n x inside = ground arith

-- From a game of a sequence, on or back by at most as many games as a sequence has, and by any number of sequences:
-- if a game is sought in the log, its sequence is one of the tournament, and its number is that of a game of a sequence.
pub change_game-IsGame :
    (ig is games sequences sn gn : ℤ) {page : ℤ × ℤ}
    → IsWithin games gn
    → pos 0 ≤ℤ games +ℤ ig
    → ig ≤ℤ games
    → change_game ig is games sequences sn gn ≡ some page
    → IsWithin sequences page.0 × IsWithin games page.1
unfolding change_game
change_game-IsGame ig is games sequences sn gn {page} g c e h =
    let sought = turned_page ig is games sn gn in
    let found = λ (p : ℤ × ℤ). IsWithin sequences p.0 × IsWithin games p.1 in
    elim (Bool-cases (ltb_ℤ sought.0 (pos 1) || ltb_ℤ sequences sought.0)) [
      | inl outside ↦ cc (sym h ∙ ap (λ b. if b then none else some sought) outside)
      | inr inside ↦
          subst found
            (some-injective sought page
              (sym (ap (λ b. if b then none else some sought) inside) ∙ h))
            (
              sought-IsWithin sequences sought.0 inside,
              turned_page-IsWithin ig is games sn gn g c e,
            )
    ]

module _ {ℓ} {W : Type ℓ} where
  -- The array: the times of the game, which stand in the log, and entries that stand nowhere.
  abbrev pub array : List (TimePosInfo W) → ℕ → W → List (TimePosInfo W)
  array ts n t = ts ++ replicate n (record { position = negsuc 0; time = t })

  abbrev pub IsThere : TimePosInfo W → Type 0
  IsThere t = ltb_ℤ (pos 0) t.position ≡ true

IsThere-on : (x : ℤ) → ltb_ℤ (pos 0) x ≡ true → ltb_ℤ (negsuc 0) x ≡ true
IsThere-on x h = ground arith

module _ {ℓ} {W : Type ℓ} ⦃d : Double W⦄ where
  open d use {lit, lt}

  -- The time is not below those of the list before the place.
  abbrev pub NotBelow : W → List (TimePosInfo W) → ℕ → Type ℓ
  NotBelow now ts k =
      (j : ℕ) (t : TimePosInfo W) → suc j ≤ k → get_elem? ts j ≡ some t → now ⊀ t.time

  -- The first entry of the list that the time is below, counted from i; -1 if there is none.
  abbrev pub IsFirst : W → List (TimePosInfo W) → ℕ → ℤ → Type ℓ
  IsFirst now ts i r =
      ((k : ℕ) × (r ≡ pos (i + k))
        × (t : TimePosInfo W) × (get_elem? ts k ≡ some t)
        × (now ≺ t.time)
        × NotBelow now ts k)
      ⊎ (r ≡ negsuc 0) × NotBelow now ts (length ts)

  find_from-none : (now : W) (i n : ℕ) (t : W) → find_from now i (array [] n t) ≡ negsuc 0
  unfolding find_from
  find_from-none now i zero t = refl
  find_from-none now i (suc n) t = refl

  NotBelow-suc :
      (now : W) (ts : List (TimePosInfo W)) (u : TimePosInfo W) (k : ℕ)
      → now ⊀ u.time
      → NotBelow now ts k
      → NotBelow now (u ∷ ts) (suc k)
  NotBelow-suc now ts u k b f zero t h e =
      subst (λ (v : TimePosInfo W). now ⊀ v.time) (some-injective _ _ e) b
  NotBelow-suc now ts u k b f (suc j) t h e = f j t (omega arith) e

  IsFirst-suc :
      (now : W) (ts : List (TimePosInfo W)) (u : TimePosInfo W) (i : ℕ) {r : ℤ}
      → now ⊀ u.time
      → IsFirst now ts (i + 1) r
      → IsFirst now (u ∷ ts) i r
  IsFirst-suc now ts u i b (inl (k, e, t, at, below, before)) =
      inl (suc k, e ∙ ap pos (omega arith), t, at, below, NotBelow-suc now ts u _ b before)
  IsFirst-suc now ts u i b (inr (e, before)) = inr (e, NotBelow-suc now ts u _ b before)

  find_from-IsFirst :
      (now : W) (ts : List (TimePosInfo W)) (n : ℕ) (t : W) (i : ℕ)
      → All IsThere ts
      → IsFirst now ts i (find_from now i (array ts n t))
  unfolding find_from
  find_from-IsFirst now [] n t i there = inr (find_from-none now i n t, λ j u h e. ground arith)
  find_from-IsFirst now (u ∷ ts) n t i (here, there) =
      let P = IsFirst now (u ∷ ts) i in
      let rest = find_from now (i + 1) (array ts n t) in
      subst (λ b. P (if b then (if lt now u.time then pos i else rest) else negsuc 0))
        (sym (IsThere-on u.position here))
        (if-cases P (lt now u.time)
          (λ below. inl (0, ap pos (omega arith), u, refl, below, λ j v h e. ground arith))
          (λ not_below.
            IsFirst-suc now ts u i not_below (find_from-IsFirst now ts n t (i + 1) there)))

  -- In the array of a game whose times from the second on all stand at places above 0 of the log: the search gives
  -- the place in the array just before the first of these times that the given time is below, or -1 if it is below
  -- none of them.
  pub find_streampos_for_time-IsFirst :
      (now : W) (first : TimePosInfo W) (ts : List (TimePosInfo W)) (n : ℕ) (t : W)
      → All IsThere ts
      → IsFirst now ts 0 (find_streampos_for_time now (array (first ∷ ts) n t))
  unfolding find_streampos_for_time
  find_streampos_for_time-IsFirst now first ts n t there = find_from-IsFirst now ts n t 0 there

  find_streampos_for_time-over :
      (now : W) (first : TimePosInfo W) (ts : List (TimePosInfo W)) (n : ℕ) (t : W)
      → All IsThere ts
      → NotBelow now ts (length ts)
      → find_streampos_for_time now (array (first ∷ ts) n t) ≡ negsuc 0
  find_streampos_for_time-over now first ts n t there over =
      elim (find_streampos_for_time-IsFirst now first ts n t there) [
        | inl (k, e, u, at, below, before) ↦
            let not_below = over k u (get_elem?-lt ts k at) at in cc
        | inr (e, before) ↦ e
      ]

  -- A game whose times all stand at places above 0 of the log, where the time shown, as a `float`, is below none
  -- from the second on: a step forward goes to the first time of the game.
  pub step_target-first :
      (to_float : W → W) (now : W) (first : TimePosInfo W) (ts : List (TimePosInfo W)) (n : ℕ)
      (t : W)
      → IsThere first
      → All IsThere ts
      → NotBelow (to_float now) ts (length ts)
      → step_target to_float (pos 1) now (array (first ∷ ts) n t) ≡ steps_to first
  unfolding step_target
  step_target-first to_float now first ts n t here there over =
      rw (find_streampos_for_time-over (to_float now) first ts n t there over)
        (ground (arith, here))
