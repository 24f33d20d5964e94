-- ===== src/Motion/Rounds/Lasts.antt =====
-- What each part of a round of src/ArenaRealTime.cc leaves of the robots.
use realtimebattle.Base.{ℕ, ◌≡◌, ◌≢◌, refl, ap, ◌∙◌, List, [], ◌∷◌, if-cases}
use realtimebattle.Base.Int.{ℤ}
use realtimebattle.Double.{Double, IsOrdered, ◌≺◌, ◌⊀◌, infinity_rtb}
use realtimebattle.Vector2D.{Vector2D}
use realtimebattle.Options.{Options}
use realtimebattle.Robot.{Robot, change_velocity}
use realtimebattle.Motion.{Field, Motion, change_robot, move_robot}
use realtimebattle.Motion.Kept.{Kept, Lives, change_robot-Kept}
use realtimebattle.Motion.Ends.{IsEnd, ends_moved, ends_with_error, move_robot-IsEnd}
use realtimebattle.Motion.Shots.{Flight}
use realtimebattle.Motion.Shots.Stays.{IsFlight, flight_flown, flight_lost}
use realtimebattle.Motion.Shooting.{fire_shot, energy_of_firing}
use realtimebattle.Motion.Shooting.Fired.{
  IsFired, too_weak, left_barrel, hit_at_once, hit_nothing, fire_shot-IsFired,
}
use realtimebattle.Motion.Rounds.{
  Order, shoot_order, turn_order, drive_order, Fault, had_no_end, Round, played, stopped, ◌>>=◌,
  of_motion, of_flight, update_radar_and_cannon, obey, obey_all, listen, read_robot_messages,
  update_robot, update_each,
}

-- The round goes on with such a field, or ends with an error, but not for want of fuel.
pub data IsRound {ℓ κ} {W : Type ℓ} (P : Field W → Type κ) : Round W → Type (ℓ ⊔ κ) where
  goes_on : {f : Field W} → P f → IsRound P (played f)
  is_stopped : {e : Fault} → e ≢ had_no_end → IsRound P (stopped e)

module _ {ℓ} {W : Type ℓ} where
  pub IsRound->>= {κ μ} :
      (P : Field W → Type κ) (Q : Field W → Type μ) (m : Round W) (k : Field W → Round W)
      → IsRound P m
      → ((g : Field W) → P g → IsRound Q (k g))
      → IsRound Q (m >>= k)
  IsRound->>= P Q (played g) k (goes_on p) h = h g p
  IsRound->>= P Q (stopped e) k (is_stopped n) h = is_stopped n

module _ {ℓ} {W : Type ℓ} ⦃d : Double W⦄ (laws : IsOrdered W) (o : Options W) where
  open d use {lit, sub, div, le}

  -- The robots stay sound, and those on the arena are those from before.
  abbrev pub Lasts : Field W → Field W → Type 0
  Lasts f g =
      ((q : ℕ) → Lives o (f.robots q) (g.robots q)) × (g.robots_on_arena ≡ f.robots_on_arena)

  Lasts-refl : (f : Field W) → Lasts f f
  Lasts-refl f = (λ q. (λ v. v, λ a. a), refl)

  Lasts-trans : (f g h : Field W) → Lasts f g → Lasts g h → Lasts f h
  Lasts-trans f g h (l, a) (m, b) =
      (λ q. (λ v. (m q).0 ((l q).0 v), λ e. (m q).1 ((l q).1 e)), b ∙ a)

  pub Lasts-after :
      (f g : Field W) (m : Round W) → Lasts f g → IsRound (Lasts g) m → IsRound (Lasts f) m
  Lasts-after f g (played h) l (goes_on k) = goes_on (Lasts-trans f g h l k)
  Lasts-after f g (stopped e) l (is_stopped n) = is_stopped n

  -- One step of a round, and the rest of it.
  Lasts->>= :
      (f : Field W) (m : Round W) (k : Field W → Round W)
      → IsRound (Lasts f) m
      → ((g : Field W) → IsRound (Lasts g) (k g))
      → IsRound (Lasts f) (m >>= k)
  Lasts->>= f m k p h = IsRound->>= (Lasts f) (Lasts f) m k p (λ g l. Lasts-after f g (k g) l (h g))

  change_robot-Lasts :
      (g : Robot W → Robot W) (p : ℕ) (f : Field W)
      → Lives o (f.robots p) (g (f.robots p))
      → Lasts f (change_robot g p f)
  change_robot-Lasts g p f h = let kept = change_robot-Kept o g p f h in (kept.0, kept.1)

  IsFired-Lasts :
      (left : ℤ) (ex : List (Vector2D W)) (p : ℕ) (en : W) (f : Field W) (m : Flight W)
      → IsFired laws o left ex p en f m
      → IsRound (Lasts f) (of_flight m)
  IsFired-Lasts left ex p en f _ (too_weak weak) = goes_on (Lasts-refl f)
  IsFired-Lasts left ex p en f _ (left_barrel strong free (lives, spent) (pays, others, e)) =
      goes_on (lives, ap (λ (x : Field W). x.robots_on_arena) e)
  IsFired-Lasts left ex p en f _
        (hit_at_once strong full (lives, spent) stays shape object struck charged) =
      goes_on (lives, stays.1)
  IsFired-Lasts left ex p en f _ (hit_nothing strong full none_there) = is_stopped (λ e. cc)

  pub IsFlight-Lasts :
      (f : Field W) (P : Field W → Type ℓ) (m : Flight W)
      → ((g : Field W) → P g → Lasts f g)
      → IsFlight laws o P m
      → IsRound (Lasts f) (of_flight m)
  IsFlight-Lasts f P _ h (flight_flown {f = g} p) = goes_on (h g p)
  IsFlight-Lasts f P _ h (flight_lost s g itself) = is_stopped (λ e. cc)

  module _ (left : ℤ) (ex : List (Vector2D W)) where
    obey-Lasts :
        (p : ℕ) (order : Order W) (f : Field W) → IsRound (Lasts f) (obey o left ex p order f)
    unfolding obey
    obey-Lasts p (shoot_order wanted) f =
        IsFired-Lasts left ex p (energy_of_firing o (f.robots p) wanted) f
          (fire_shot o left ex p wanted f) (fire_shot-IsFired laws o left ex p wanted f).1
    obey-Lasts p (turn_order angles) f =
        goes_on (change_robot-Lasts (λ r. record r { angles = angles }) p f (λ v. v, λ a. a))
    obey-Lasts p (drive_order acc brk) f = goes_on (
        change_robot-Lasts (λ r. record r { acceleration = acc; brake_percent = brk }) p f
          (λ v. v, λ a. a))

    obey_all-Lasts :
        (p : ℕ) (orders : List (Order W)) (f : Field W)
        → IsRound (Lasts f) (obey_all o left ex p orders f)
    unfolding obey_all
    obey_all-Lasts p [] f = goes_on (Lasts-refl f)
    obey_all-Lasts p (order ∷ rest) f =
        Lasts->>= f (obey o left ex p order f) (λ g. obey_all o left ex p rest g)
          (obey-Lasts p order f) (λ g. obey_all-Lasts p rest g)

    module _ (orders : ℕ → Field W → List (Order W)) where
      listen-Lasts : (p : ℕ) (f : Field W) → IsRound (Lasts f) (listen o left ex orders p f)
      listen-Lasts p f =
          if-cases (IsRound (Lasts f)) (f.robots p).alive (λ alive. obey_all-Lasts p (orders p f) f)
            (λ dead. goes_on (Lasts-refl f))

      pub read_robot_messages-Lasts :
          (ps : List ℕ) (f : Field W)
          → IsRound (Lasts f) (read_robot_messages o left ex orders ps f)
      unfolding read_robot_messages
      read_robot_messages-Lasts [] f = goes_on (Lasts-refl f)
      read_robot_messages-Lasts (p ∷ ps) f =
          Lasts->>= f (listen o left ex orders p f) (λ g. read_robot_messages o left ex orders ps g)
            (listen-Lasts p f) (λ g. read_robot_messages-Lasts ps g)

      module _ (sub_below : (x y z : W) → x ≺ z → y ⊀ lit 0 0 → lit 0 0 ≺ sub x y → sub x y ≺ z)
          (timestep : W) (finite : timestep ≺ infinity_rtb)
          (eps : div timestep (lit 50 0) ⊀ lit 0 0) where
        IsEnd-Lasts :
            (f g : Field W) (m : Motion W)
            → Lasts f g
            → IsEnd (Kept o g) m
            → IsRound (Lasts f) (of_motion m)
        IsEnd-Lasts f g _ l (ends_moved {f = h} kept) =
            goes_on (Lasts-trans f g h l (kept.0, kept.1))
        IsEnd-Lasts f g _ l ends_with_error = is_stopped (λ e. cc)

        update_robot-Lasts :
            (p : ℕ) (f : Field W) → IsRound (Lasts f) (update_robot o left ex orders timestep p f)
        unfolding update_robot update_radar_and_cannon change_velocity
        update_robot-Lasts p f =
            let steer : Robot W → Robot W =
              λ r. change_velocity o timestep (update_radar_and_cannon o timestep r) in
            let steered = change_robot steer p f in
            Lasts->>= f _ (λ g. listen o left ex orders p g)
              (if-cases (IsRound (Lasts f)) (f.robots p).alive
                (λ alive.
                  IsEnd-Lasts f steered (move_robot o timestep p steered)
                    (change_robot-Lasts steer p f (λ v. v, λ a. a))
                    (move_robot-IsEnd laws o sub_below timestep p steered finite eps))
                (λ dead. goes_on (Lasts-refl f)))
              (λ g. listen-Lasts p g)

        pub update_each-Lasts :
            (ps : List ℕ) (f : Field W)
            → IsRound (Lasts f) (update_each o left ex orders timestep ps f)
        unfolding update_each
        update_each-Lasts [] f = goes_on (Lasts-refl f)
        update_each-Lasts (p ∷ ps) f =
            Lasts->>= f (update_robot o left ex orders timestep p f)
              (λ g. update_each o left ex orders timestep ps g) (update_robot-Lasts p f)
              (λ g. update_each-Lasts ps g)
