-- ===== src/Arena/Kept.antt =====
-- What the parts of a tick of src/ArenaRealTime.cc leave of the control part of the arena.
use realtimebattle.Base.{
  ◌≡◌, refl, ap, ◌∙◌, ◌⊎◌, inl, inr, false, Option, none, some, if◌then◌else◌, if-holds,
}
use realtimebattle.Double.{Double}
use realtimebattle.Vector2D.{Vector2D}
use realtimebattle.Input.{Input, DoubleInput}
use realtimebattle.Options.{Options, DoubleOption}
use realtimebattle.Options as opt
use realtimebattle.Arena.{paused, is_state, Arena, set_state, update_timer}
use realtimebattle.Arena.Placing.{Host, find_space}
use realtimebattle.Arena.Ticks.{
  Calls, Moved, check_in_time, halt_if_asked, remove_dead, after_motion, update, put_cookie,
  put_mine, add_cookie, add_mine, sometimes, check_robots, carry_on,
}
use realtimebattle.Arena.Control.{Control, control, find_space-control}

module _ {ℓ κ} {W : Type ℓ} {S : Type κ} ⦃d : Double W⦄ ⦃inp : Input S⦄ ⦃dbl : DoubleInput W S⦄
    (h : Host W S) (o : Options W) where
  remove_dead-control : (a : Arena W) → control (remove_dead a) ≡ control a
  unfolding remove_dead
  remove_dead-control a = if-holds (λ (x : Arena W). control x ≡ control a) _ refl refl

  pub update-control : (m : Moved W) (a : Arena W) → control (update m a) ≡ control a
  unfolding update after_motion
  update-control m a = remove_dead-control (after_motion m a)

  put_cookie-control :
      (r en : W) (f : Option (Vector2D W) × Arena W) → control (put_cookie r en f) ≡ control f.1
  unfolding put_cookie
  put_cookie-control r en (none, a) = refl
  put_cookie-control r en (some p, a) = refl

  add_cookie-control : (a : Arena W) → control (add_cookie h o a) ≡ control a
  unfolding add_cookie
  add_cookie-control a =
      put_cookie-control _ _ (find_space h o 100 _ _) ∙ find_space-control h o 100 _ _

  put_mine-control :
      (r en : W) (f : Option (Vector2D W) × Arena W) → control (put_mine r en f) ≡ control f.1
  unfolding put_mine
  put_mine-control r en (none, a) = refl
  put_mine-control r en (some p, a) = refl

  add_mine-control : (a : Arena W) → control (add_mine h o a) ≡ control a
  unfolding add_mine
  add_mine-control a =
      put_mine-control _ _ (find_space h o 100 _ _) ∙ find_space-control h o 100 _ _

  pub sometimes-control :
      (n : DoubleOption) (f : Arena W → Arena W) (a : Arena W)
      → ((x : Arena W) → control (f x) ≡ control x)
      → control (sometimes h o n f a) ≡ control a
  unfolding sometimes
  sometimes-control n f a keeps = if-holds (λ (x : Arena W). control x ≡ control a) _ (keeps _) refl

  check_in_time-control : (c : Calls W) (a : Arena W) → control (check_in_time h o c a) ≡ control a
  unfolding check_in_time check_robots
  check_in_time-control c a = if-holds (λ (x : Arena W). control x ≡ control a) _ refl refl

  pub extras-control :
      (c : Calls W) (a : Arena W)
      → control (
          sometimes h o opt.mine_frequency
            (add_mine h o)
            (sometimes h o opt.cookie_frequency (add_cookie h o) (check_in_time h o c a)))
        ≡ control a
  extras-control c a =
      let a1 = check_in_time h o c a in
      let a2 = sometimes h o opt.cookie_frequency (add_cookie h o) a1 in
      sometimes-control opt.mine_frequency (add_mine h o) a2 add_mine-control
      ∙ sometimes-control opt.cookie_frequency (add_cookie h o) a1 add_cookie-control
      ∙ check_in_time-control c a

  -- A game that goes on may be halted, and that is all.
  pub carry_on-control :
      (c : Calls W) (a : Arena W)
      → (control (carry_on h o c a) ≡ control a)
        ⊎ (control (carry_on h o c a) ≡ record (control a) { state = paused })
  unfolding carry_on halt_if_asked set_state
  carry_on-control c a =
      let same = extras-control c a in
      let a3 =
        sometimes h o opt.mine_frequency (add_mine h o)
          (sometimes h o opt.cookie_frequency (add_cookie h o) (check_in_time h o c a)) in
      let halted : Arena W = record (set_state paused a3) { halt_next = false } in
      let halt : Control → Control = λ x. record x { state = paused } in
      if-holds (λ (x : Arena W). (control x ≡ control a) ⊎ (control x ≡ halt (control a)))
        a3.halt_next {t = halted} {u = a3} (inr (ap halt same)) (inl same)

  pub ticked-control :
      (a : Arena W)
      → control (if is_state a.state paused then a else update_timer o h.clock a) ≡ control a
  unfolding update_timer
  ticked-control a =
      if-holds (λ (x : Arena W). control x ≡ control a) (is_state a.state paused) refl refl
