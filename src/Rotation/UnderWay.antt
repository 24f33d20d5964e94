-- ===== src/Rotation/UnderWay.antt =====
-- What `Robot::update_rotation` of src/Robot.cc leaves of a rotation.
use realtimebattle.Base.{ℕ, ◌≡◌, false, ◌⊎◌, arith}
use realtimebattle.Double.{Double}
use realtimebattle.Rotation.{
  Rotation, RotationMode, normal_rot, sweep_left, sweep_right, rotate_to_right, rotate_to_left,
  update_rotation, set_rot,
}

module _ {ℓ} {W : Type ℓ} ⦃d : Double W⦄ where
  abbrev pub IsUnderWay : Rotation W → Type ℓ
  IsUnderWay a =
      (a.mode ≡ normal_rot)
      ⊎ (a.mode ≡ rotate_to_right) × (d.le a.right a.position ≡ false)
      ⊎ (a.mode ≡ rotate_to_left) × (d.le a.position a.left ≡ false)
      ⊎ (a.mode ≡ sweep_left) × (d.le a.position a.left ≡ false)
      ⊎ (a.mode ≡ sweep_right) × ((d.le a.right a.position ≡ false) ⊎ (a.position ≡ a.left))

  step-IsUnderWay :
      (n : ℕ) (p v l r t : W) (m : RotationMode)
      → IsUnderWay (update_rotation n (set_rot p v l r m) t).0
  unfolding update_rotation
  step-IsUnderWay n p v l r t normal_rot = ground arith
  step-IsUnderWay n p v l r t rotate_to_right = ground arith
  step-IsUnderWay n p v l r t rotate_to_left = ground arith
  step-IsUnderWay n p v l r t sweep_left = ground arith
  step-IsUnderWay n p v l r t sweep_right = ground arith

  -- A turn that goes on after a step has not reached its end: a turn to the right is short of its right
  -- end, one to the left of its left end, and a sweep of the end that it moves to, or it has just
  -- turned round at its left end.
  pub update_rotation-IsUnderWay :
      (send_rotation_reached : ℕ) (a0 : Rotation W) (timestep : W)
      → IsUnderWay (update_rotation send_rotation_reached a0 timestep).0
  update_rotation-IsUnderWay n a0 timestep =
      step-IsUnderWay n a0.position a0.vel a0.left a0.right timestep a0.mode
