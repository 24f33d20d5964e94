-- ===== src/Replay/Revived.antt =====
-- A robot that dies in a replay and lives again when the replay is rewound, in src/ArenaReplay.cc.
use mathlib.Core.Path.{subst}
use realtimebattle.Base.{
  ℕ, ◌≡◌, refl, sym, ap, ◌∙◌, true, false, List, [], ◌∷◌, some, ◌==◌, ==_iff, if◌then◌else◌,
  if-holds, if-cases, arith,
}
use realtimebattle.Base.Int.{ℤ, pos, ◌+ℤ◌, ◌-ℤ◌, +ℤ_cancel}
use realtimebattle.Double.{Double, min_rtb}
use realtimebattle.Options.{Options, get_d}
use realtimebattle.Options as opt
use realtimebattle.Replay.{
  Player, Replay, find_robot, change_player, at_robot, live, die, set_stats, drop_energy,
}
use realtimebattle.Replay.Lines.{
  Posture, robot_line, robot_dies, parsed, kill, kill_robot, revive, show_robot,
  parse_log_line_forward, parse_log_line_rewind,
}

module _ {ℓ} {W : Type ℓ} where
  -- A search by ids does not see what else changes.
  find_robot-same :
      (old new : ℕ → Player W) (id : ℤ) (ps : List ℕ)
      → ((q : ℕ) → (new q).id ≡ (old q).id)
      → find_robot new id ps ≡ find_robot old id ps
  unfolding find_robot
  find_robot-same old new id [] h = refl
  find_robot-same old new id (p ∷ ps) h = ground (arith, h p, find_robot-same old new id ps h)

  at_robot_self :
      (f : Player W → Player W) (p : ℕ) (robots : ℕ → Player W)
      → at_robot f p robots p ≡ f (robots p)
  at_robot_self f p robots = rw ((==_iff p p).1 refl) refl

module _ {ℓ} {W : Type ℓ} ⦃d : Double W⦄ (o : Options W) where
  open d use {lit, neg, add, le}

  -- The same robot, dead, with as much time survived.
  abbrev SameDead : Player W → Player W → Type ℓ
  SameDead x y =
      (y.id ≡ x.id)
      × (y.alive ≡ false)
      × (y.time_survived_in_sequence ≡ x.time_survived_in_sequence)

  die-SameDead : (x : Player W) → SameDead x (die x)
  unfolding die
  die-SameDead x =
      if-cases (SameDead x) x.alive (λ alive. (refl, refl, refl)) (λ dead. (refl, dead, refl))

  drop_energy-SameDead : (x : Player W) → x.alive ≡ false → SameDead x (drop_energy o x)
  unfolding drop_energy
  drop_energy-SameDead x dead =
      let e = min_rtb (add x.energy (neg x.energy)) (get_d o opt.robot_max_energy) in
      if-holds (SameDead x) (le e (lit 0 0)) (die-SameDead (record x { energy = e }))
        (refl, dead, refl)

  -- Dead, with the time until now added to the time that it has survived.
  abbrev Fallen : Replay W → Player W → Player W → Type ℓ
  Fallen r x y =
      (y.id ≡ x.id)
      × (y.alive ≡ false)
      × (y.time_survived_in_sequence ≡ add x.time_survived_in_sequence r.current_replay_time)

  kill-Fallen :
      (pnts : W) (place : ℤ) (r : Replay W) (x : Player W) → Fallen r x (kill o pnts place r x)
  unfolding kill set_stats
  kill-Fallen pnts place r x =
      let (id, dead, time) = die-SameDead x in
      let now = r.current_replay_time in
      let y = set_stats r.sequence_nr r.game_nr pnts place now r.log_from_stdin (die x) in
      let (id', dead', time') = drop_energy-SameDead y dead in
      (id' ∙ id, dead', time' ∙ ap (λ t. add t now) time)

  -- The replay after the line that says that the robot at p dies.
  abbrev killed : W → ℤ → ℕ → Replay W → Replay W
  killed pnts place p r = record (change_player (kill o pnts place r) p r) {
    robots_killed_this_round = r.robots_killed_this_round +ℤ pos 1;
  }

  kill_robot-killed :
      (id : ℤ) (pnts : W) (place : ℤ) (p : ℕ) (r : Replay W)
      → find_robot r.robots id r.robots_on_arena ≡ some p
      → (r.robots p).alive ≡ true
      → kill_robot o id pnts place r ≡ parsed (killed pnts place p r)
  unfolding kill_robot
  kill_robot-killed id pnts place p r found alive =
      rw (found, kill_robot) (ap (λ c. parsed (if c then killed pnts place p r else r)) alive)

  killed-Fallen :
      (pnts : W) (place : ℤ) (p : ℕ) (r : Replay W) (q : ℕ)
      → ((killed pnts place p r).robots q).id ≡ (r.robots q).id
  killed-Fallen pnts place p r q =
      if-holds (λ (x : Player W). x.id ≡ (r.robots q).id) (q == p)
        (kill-Fallen pnts place r (r.robots q)).0 refl

  -- The replay after the line that shows the robot at p, which was dead.
  abbrev shown : Posture W → ℕ → Replay W → Replay W
  shown at p r = record (change_player (revive o at r) p r) {
    robots_killed_this_round = r.robots_killed_this_round -ℤ pos 1;
  }

  show_robot-shown :
      (id : ℤ) (at : Posture W) (p : ℕ) (r : Replay W)
      → find_robot r.robots id r.robots_on_arena ≡ some p
      → (r.robots p).alive ≡ false
      → show_robot o id at r ≡ parsed (shown at p r)
  unfolding show_robot
  show_robot-shown id at p r found dead =
      rw (found, show_robot)
        (ap (λ c. parsed (if c then change_player (revive o at r) p r else shown at p r)) dead)

  -- Alive, where and as the line shows it, with no position in the game.
  abbrev pub Revived : Posture W → W → Player W → Type ℓ
  Revived at time y =
      (y.alive ≡ true)
      × (y.center ≡ at.center)
      × (y.robot_angle ≡ at.robot_angle)
      × (y.cannon_angle ≡ at.cannon_angle)
      × (y.radar_angle ≡ at.radar_angle)
      × (y.energy ≡ at.energy)
      × (y.position_this_game ≡ pos 0)
      × (y.time_survived_in_sequence ≡ add time (lit 0 0))

  revive-Revived :
      (at : Posture W) (r : Replay W) (x : Player W)
      → x.alive ≡ false
      → Revived at x.time_survived_in_sequence (revive o at r x)
  unfolding revive live set_stats
  revive-Revived at r x dead =
      if-cases (Revived at x.time_survived_in_sequence) x.alive (λ alive. cc)
        (λ e. (refl, refl, refl, refl, refl, refl, refl, refl))

  -- A robot on the arena that is alive and dies in a replay, and whose line R is the next that is rewound: there is no error,
  -- and the robot lives, with the place, the three angles and the energy of that line, has no position in the game, and as
  -- many robots have died in the round as before. But the time that it had survived at its death stays added.
  pub rewind-kill :
      (id : ℤ) (pnts : W) (place : ℤ) (at : Posture W) (p : ℕ) (r : Replay W)
      → find_robot r.robots id r.robots_on_arena ≡ some p
      → (r.robots p).alive ≡ true
      → (s t : Replay W) × (parse_log_line_forward o (robot_dies id pnts place) r ≡ parsed s)
        × (parse_log_line_rewind o (robot_line id at) s ≡ parsed t)
        × (t.robots_killed_this_round ≡ r.robots_killed_this_round)
        × Revived at (add (r.robots p).time_survived_in_sequence r.current_replay_time) (t.robots p)
  unfolding parse_log_line_forward parse_log_line_rewind
  rewind-kill id pnts place at p r found alive =
      let s = killed pnts place p r in
      let there = at_robot_self (kill o pnts place r) p r.robots in
      let (same, dead, time) = kill-Fallen pnts place r (r.robots p) in
      let dead_now : (s.robots p).alive ≡ false = ap (λ (x : Player W). x.alive) there ∙ dead in
      let survived = ap (λ (x : Player W). x.time_survived_in_sequence) there ∙ time in
      let found_now : find_robot s.robots id s.robots_on_arena ≡ some p =
        find_robot-same r.robots s.robots id r.robots_on_arena (killed-Fallen pnts place p r)
        ∙ found in
      (
        s,
        shown at p s,
        kill_robot-killed id pnts place p r found alive,
        show_robot-shown id at p s found_now dead_now,
        +ℤ_cancel r.robots_killed_this_round (pos 1),
        subst (Revived at _) (sym (at_robot_self (revive o at s) p s.robots)) (
            subst (λ t. Revived at t (revive o at s (s.robots p))) survived
              (revive-Revived at s (s.robots p) dead_now)),
      )
