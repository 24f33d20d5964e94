-- ===== src/Arena/Scores.antt =====
-- The statistics that a round and the end of a game of src/ArenaRealTime.cc give the robots.
use realtimebattle.Base.{
  ℕ, ◌+◌, ◌-◌, ◌≡◌, refl, sym, ap, ◌∙◌, Bool, true, false, ◌&&◌, ◌||◌, List, [], ◌∷◌, arith, length,
  length-append, ltb, ◌==◌, if◌then◌else◌, if-cases, if-holds, Bool-cases, inl, inr,
}
use realtimebattle.Base.Int.{ℤ, pos, ◌-ℤ◌}
use realtimebattle.Double.{Double}
use realtimebattle.Robot.{Robot, Game, die, set_stats}
use realtimebattle.Arena.{Arena, game_of, at_pointer, for_each, delete_lists}
use realtimebattle.Arena.Games.{end_for, bury_all}
use realtimebattle.Arena.Ticks.{still_alive, bury, remove_dead}

abbrev pub has : List ℕ → ℕ → Bool
has [] q = false
has (p ∷ ps) q = (q == p) || has ps q

module _ {ℓ} {W : Type ℓ} where
  -- A loop over pointers does its body once for each robot, if doing it again changes nothing.
  for_each_once :
      (f : Robot W → Robot W)
      → ((r : Robot W) → f (f r) ≡ f r)
      → (ps : List ℕ) (robots : ℕ → Robot W) (q : ℕ)
      → for_each f ps robots q ≡ (if has ps q then f (robots q) else robots q)
  for_each_once f again [] robots q = refl
  for_each_once f again (p ∷ ps) robots q =
      for_each_once f again ps (at_pointer f p robots) q
      ∙ elim (Bool-cases (q == p)) [ inl e ↦ rw e (here (has ps q)) | inr e ↦ rw e refl ]
    where
      here : (c : Bool) → (if c then f (f (robots q)) else f (robots q)) ≡ f (robots q)
      here true = again (robots q)
      here false = refl

  -- A robot that is to have a statistic.
  abbrev pub owed : Robot W → Bool
  owed r = r.alive || r.dead_but_stats_not_set

  -- The statistics a robot has and the one that it is to have.
  abbrev pub scores : Robot W → ℕ
  scores r = length r.statistics + (if owed r then 1 else 0)

module _ {ℓ} {W : Type ℓ} ⦃d : Double W⦄ where
  -- A test that fails leaves the robot.
  skip : {c : Bool} → c ≡ false → (x r : Robot W) → (if c then x else r) ≡ r
  skip e x r = ap (λ c. if c then x else r) e

  bury_again : (a : Arena W) (k : ℕ) (r : Robot W) → bury a k (bury a k r) ≡ bury a k r
  unfolding bury set_stats
  bury_again a k r =
      if-cases (λ x. bury a k x ≡ x) r.dead_but_stats_not_set (λ e. refl)
        (λ e. skip e (set_stats (game_of a) (pos k) false r) r)

  die-alive : (r : Robot W) → (die r).alive ≡ false
  unfolding die
  die-alive r = if-cases {A = Robot W} (λ x. x.alive ≡ false) r.alive (λ e. refl) (λ e. e)

  end_for_again : (a b : Arena W) (r : Robot W) → end_for a b (end_for a b r) ≡ end_for a b r
  unfolding end_for set_stats
  end_for_again a b r =
      if-cases (λ x. end_for a b x ≡ x) (r.alive || r.dead_but_stats_not_set)
        (λ e. skip (ap (λ c. c || false) (die-alive r)) _ _) (λ e. skip e _ r)

  set_stats-scores :
      (g : Game W) (k : ℤ) (t : Bool) (r : Robot W)
      → r.alive ≡ false
      → scores (set_stats g k t r) ≡ length r.statistics + 1
  unfolding set_stats
  set_stats-scores g k t r e = omega (
    arith,
    length-append r.statistics _,
    ap {B = ℕ} (λ c. length (set_stats g k t r).statistics + (if c || false then 1 else 0)) e,
  )

  die-statistics : (r : Robot W) → (die r).statistics ≡ r.statistics
  unfolding die
  die-statistics r = if-holds {A = Robot W} (λ x. x.statistics ≡ r.statistics) r.alive refl refl

  -- Who is to have a statistic and has not had it counts one more.
  scores-owed : (r : Robot W) → owed r ≡ true → length r.statistics + 1 ≡ scores r
  scores-owed r e = ap {B = ℕ} (λ c. length r.statistics + (if c then 1 else 0)) (sym e)

  bury-scores :
      (a : Arena W) (k : ℕ) (r : Robot W)
      → r.alive && r.dead_but_stats_not_set ≡ false
      → scores (bury a k r) ≡ scores r
  unfolding bury
  bury-scores a k r h =
      if-cases {A = Robot W} (λ x. scores x ≡ scores r) r.dead_but_stats_not_set
        (λ e.
          set_stats-scores (game_of a) (pos k) false r (left e)
          ∙ scores-owed r (ap (λ c. r.alive || c) e ∙ at_last r.alive))
        (λ e. refl)
    where
      left : r.dead_but_stats_not_set ≡ true → r.alive ≡ false
      left e = ground arith

      at_last : (c : Bool) → (c || true) ≡ true
      at_last true = refl
      at_last false = refl

  end_for-scores : (a b : Arena W) (r : Robot W) → scores (end_for a b r) ≡ scores r
  unfolding end_for
  end_for-scores a b r =
      if-cases {A = Robot W} (λ x. scores x ≡ scores r) (owed r)
        (λ e.
          set_stats-scores (game_of b) a.robots_left true (die r) (die-alive r)
          ∙ ap (λ ss. length ss + 1) (die-statistics r)
          ∙ scores-owed r e)
        (λ e. refl)

  end_for-pays : (a b : Arena W) (r : Robot W) → owed (end_for a b r) ≡ false
  unfolding end_for set_stats
  end_for-pays a b r =
      if-cases {A = Robot W} (λ x. owed x ≡ false) (owed r)
        (λ e. ap (λ c. c || false) (die-alive r)) (λ e. e)

  remove_dead-scores :
      (a : Arena W) (q : ℕ)
      → (a.robots q).alive && (a.robots q).dead_but_stats_not_set ≡ false
      → scores ((remove_dead a).robots q) ≡ scores (a.robots q)
  unfolding remove_dead
  remove_dead-scores a q h =
      let alive = still_alive a.robots a.robots_on_arena in
      let killed = length a.robots_on_arena - length alive in
      let a1 = record a { robots_on_arena = alive; robots_left = a.robots_left -ℤ pos killed } in
      if-holds {A = Arena W} (λ x. scores (x.robots q) ≡ scores (a.robots q)) (ltb 0 killed)
        (ap scores (
            for_each_once (bury a1 killed) (bury_again a1 killed) a1.all_robots_in_sequence
              a1.robots q)
          ∙ if-holds {A = Robot W} (λ x. scores x ≡ scores (a.robots q))
              (has a.all_robots_in_sequence q) (bury-scores a1 killed (a.robots q) h) refl)
        refl

  -- For a robot of the sequence, of which not both hold that it lives and that it waits for a statistic: a
  -- round that takes the dead off the arena keeps the statistics that it has and the one that it is to have
  -- together; the end of the game gives it the one that it is to have, and then it is to have none.
  pub scores-bury_all :
      (a : Arena W) (q : ℕ)
      → (a.robots q).alive && (a.robots q).dead_but_stats_not_set ≡ false
      → has a.all_robots_in_sequence q ≡ true
      → (scores ((remove_dead a).robots q) ≡ scores (a.robots q))
        × (length ((bury_all a).robots q).statistics ≡ scores (a.robots q))
        × (owed ((bury_all a).robots q) ≡ false)
  unfolding bury_all delete_lists
  scores-bury_all a q h m =
      let a1 = record a { robots_left = pos 0 } in
      let r = a.robots q in
      let once : (bury_all a).robots q ≡ end_for a a1 r =
        for_each_once (end_for a a1) (end_for_again a a1) a.all_robots_in_sequence a.robots q
        ∙ ap (λ c. if c then end_for a a1 r else r) m in
      let paid : owed ((bury_all a).robots q) ≡ false = ap owed once ∙ end_for-pays a a1 r in
      (
        remove_dead-scores a q h,
        settled ((bury_all a).robots q) paid ∙ ap scores once ∙ end_for-scores a a1 r,
        paid,
      )
    where
      settled : (r : Robot W) → owed r ≡ false → length r.statistics ≡ scores r
      settled r e = omega (arith, ap {B = ℕ} (λ c. length r.statistics + (if c then 1 else 0)) e)
