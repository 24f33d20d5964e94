-- ===== src/Motion/Rounds/Sound.antt =====
-- What a round of src/ArenaRealTime.cc leaves of the robots.
use mathlib.Core.Path.{subst}
use realtimebattle.Base.{
  ℕ, ◌≡◌, ap, ◌∙◌, false, ◌&&◌, List, [], ◌∷◌, ◌==◌, ==_iff, inl, inr, Bool-cases, arith,
}
use realtimebattle.Base.Int.{ℤ}
use realtimebattle.Double.{Double, IsOrdered, ◌≺◌, ◌⊀◌, infinity_rtb}
use realtimebattle.Vector2D.{Vector2D}
use realtimebattle.Options.{Options}
use realtimebattle.Robot.{Robot}
use realtimebattle.Robot.Vital.{IsVital}
use realtimebattle.Arena.Ticks.{still_alive}
use realtimebattle.Arena.Scores.{has}
use realtimebattle.Motion.{Field}
use realtimebattle.Motion.Shots.{move_shots}
use realtimebattle.Motion.Shots.Alive.{move_shots-all_alive}
use realtimebattle.Motion.Rounds.{
  Order, of_flight, read_robot_messages, update_each, erase_robots, play_round,
}
use realtimebattle.Motion.Rounds.Lasts.{
  IsRound, goes_on, IsRound->>=, Lasts, Lasts-after, read_robot_messages-Lasts, update_each-Lasts,
  IsFlight-Lasts,
}

module _ {ℓ} {W : Type ℓ} where
  -- A list of pointers without the dead.
  has-still_alive :
      ⦃d : Double W⦄ (robots : ℕ → Robot W) (ps : List ℕ) (q : ℕ)
      → has (still_alive robots ps) q ≡ ((robots q).alive && has ps q)
  unfolding still_alive
  has-still_alive robots [] q = ground arith
  has-still_alive robots (p ∷ ps) q = elim (Bool-cases (q == p)) [
    | inl e ↦
        subst (λ x. has (still_alive robots (x ∷ ps)) q ≡ ((robots q).alive && has (x ∷ ps) q))
          ((==_iff q p).0 e) (ground (arith, has-still_alive robots ps q))
    | inr e ↦ ground (arith, has-still_alive robots ps q)
  ]

module _ {ℓ} {W : Type ℓ} ⦃d : Double W⦄ (laws : IsOrdered W) (o : Options W) where
  open d use {lit, sub, div}

  -- The robots of a field after a round that began with another: who was sound is sound, who was dead
  -- is dead, and on the arena are those from before that live.
  pub record IsPlayed (f g : Field W) : Type ℓ where
    pub sound : (q : ℕ) → IsVital o (f.robots q) → IsVital o (g.robots q)
    pub dead : (q : ℕ) → (f.robots q).alive ≡ false → (g.robots q).alive ≡ false
    pub left_over :
        (q : ℕ) → has g.robots_on_arena q ≡ ((g.robots q).alive && has f.robots_on_arena q)

  erase_robots-IsPlayed : (f g : Field W) → Lasts laws o f g → IsPlayed f (erase_robots g)
  unfolding erase_robots
  erase_robots-IsPlayed f g (lives, same) = record {
    sound = λ q. (lives q).0;
    dead = λ q. (lives q).1;
    left_over = λ q.
        has-still_alive g.robots g.robots_on_arena q
        ∙ ap (λ ps. (g.robots q).alive && has ps q) same;
  }

  -- A round of a game with a time step below `infinity_rtb` and a fiftieth of it that is not below 0, whatever
  -- the robots ask for: it ends, with an error or with a field. In the field every robot whose energy and life were sound has
  -- them sound, every dead robot is dead, and on the arena are just the robots from before that are alive.
  pub play_round-IsPlayed :
      (left : ℤ) (ex : List (Vector2D W)) (early orders : ℕ → Field W → List (Order W))
      (timestep : W) (sequence : List ℕ) (f : Field W)
      → ((x y z : W) → x ≺ z → y ⊀ lit 0 0 → lit 0 0 ≺ sub x y → sub x y ≺ z)
      → timestep ≺ infinity_rtb
      → div timestep (lit 50 0) ⊀ lit 0 0
      → IsRound (IsPlayed f) (play_round o left ex early orders timestep sequence f)
  unfolding play_round
  play_round-IsPlayed left ex early orders timestep sequence f sub_below finite eps =
      IsRound->>= (Lasts laws o f) (IsPlayed f) (read_robot_messages o left ex early sequence f) _
        (read_robot_messages-Lasts laws o left ex early sequence f)
        (λ g l.
          IsRound->>= (Lasts laws o f) (IsPlayed f) (of_flight (move_shots o timestep g)) _
            (Lasts-after laws o f g (of_flight (move_shots o timestep g)) l (shots_last g))
            (λ h m.
              IsRound->>= (Lasts laws o f) (IsPlayed f)
                (update_each o left ex orders timestep h.robots_on_arena h) _
                (Lasts-after laws o f h (update_each o left ex orders timestep h.robots_on_arena h)
                  m
                  (update_each-Lasts laws o left ex orders sub_below timestep finite eps
                    h.robots_on_arena h))
                (λ k n. goes_on (erase_robots-IsPlayed f k n))))
    where
      shots_last : (g : Field W) → IsRound (Lasts laws o g) (of_flight (move_shots o timestep g))
      shots_last g =
          IsFlight-Lasts laws o g _ (move_shots o timestep g)
            (λ h (stays, alive). (stays.0, stays.1)) (move_shots-all_alive laws o timestep g finite)
