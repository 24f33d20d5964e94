-- ===== src/Rotation/Messages.antt =====
-- The rotation messages of src/Robot.cc keep the greatest speeds.
use realtimebattle.Base.{◌≡◌, refl, Bool, true, false, arith, if◌then◌else◌, if-holds}
use realtimebattle.Double.{Double, IsOrdered, IsSigned, ◌⊀◌, min_rtb, sgn_rtb}
use realtimebattle.Input.{Input, DoubleInput}
use realtimebattle.Rotation.{
  Rotation, RotationMode, Angles, MaxRotate, has_bit, limit_if, turn_to, unwind, is_mode, sweep,
  sweep_left, rotate, rotate_amount, rotate_to, sweep_message, RotationMessage, rotate_msg,
  rotate_to_msg, rotate_amount_msg, sweep_msg, get_rotation_message,
}
use realtimebattle.Rotation.Limits.{
  IsBound, IsSpeed, min_caps, min_keeps, min_nonneg, limit_keeps, limit_nonneg, limit_caps,
  HasBounds, IsLimited, speed_2, speed_3, both-IsSpeed, turn_by-IsSpeed, set_if-IsSpeed,
}

module _ {ℓ} {W : Type ℓ} ⦃d : Double W⦄ (laws : IsOrdered W) (signs : IsSigned W) (m : MaxRotate W)
    (bounds : HasBounds laws signs m) where
  -- What the chain of three limits gives for each bit that is set.
  abbrev Chain : Bool → Bool → Bool → W → Type 0
  Chain b c r s =
      (b ≡ true → m.robot_max ⊀ s)
      × (c ≡ true → m.cannon_max ⊀ s)
      × (r ≡ true → m.radar_max ⊀ s)
      × (s ⊀ d.lit 0 0)

  speed_3-Chain : (b c r : Bool) (v : W) → Chain b c r (speed_3 laws signs m b c r (d.fabs v))
  speed_3-Chain b c r v =
      let ((nb, zb), (nc, zc), (nr, zr)) = bounds in
      let v1 = limit_if b (d.fabs v) m.robot_max in
      let v2 = speed_2 laws signs m b c (d.fabs v) in
      (
        (λ h.
            (limit_keeps laws signs r _ v2 _
              (limit_keeps laws signs c _ v1 _ (limit_caps laws signs b (d.fabs v) _ h nb) nc)
              nr).0),
        (λ h. (limit_keeps laws signs r _ v2 _ (limit_caps laws signs c v1 _ h nc) nr).0),
        (λ h. (limit_caps laws signs r v2 _ h nr).0),
        limit_nonneg laws signs r v2 m.radar_max
            (limit_nonneg laws signs c v1 m.cannon_max
              (limit_nonneg laws signs b (d.fabs v) m.robot_max (signs.fabs_nonneg v) zb) zc)
            zr,
      )

  turn_to-IsSpeed :
      (a : Rotation W) (k s e : W)
      → IsBound laws signs k
      → k ⊀ s
      → s ⊀ d.lit 0 0
      → IsSpeed laws signs k (turn_to a s e).vel
  unfolding turn_to
  turn_to-IsSpeed a k s e bound h j =
      turn_by-IsSpeed laws signs (unwind a e) k s (d.sub e (unwind a e).position) bound h j

  -- The speed times the sign of the speed asked for.
  signed-IsSpeed :
      (k s x : W)
      → IsBound laws signs k
      → k ⊀ s
      → s ⊀ d.lit 0 0
      → IsSpeed laws signs k (d.mul s (sgn_rtb x))
  signed-IsSpeed k s x bound h j =
      let (forward, backward) = both-IsSpeed laws signs k s bound h j in
      if-holds (λ (q : W). IsSpeed laws signs k (d.mul s q)) (d.lt (d.lit 0 0) x)
        (rw (signs.mul_one s) forward) (rw (signs.mul_minus_one s) backward)

  sweep-IsSpeed :
      (a : Rotation W) (k s l r : W) (dir : RotationMode)
      → IsBound laws signs k
      → k ⊀ s
      → s ⊀ d.lit 0 0
      → IsSpeed laws signs k (sweep a s l r dir).0.vel
  unfolding sweep
  sweep-IsSpeed a k s l r dir bound h j =
      let (forward, backward) = both-IsSpeed laws signs k s bound h j in
      if-holds (λ (q : W). IsSpeed laws signs k q) (is_mode (sweep a s l r dir).1 sweep_left)
        backward forward

  abbrev sweep_1 : Bool → W → W
  sweep_1 c v = if c then min_rtb (d.fabs v) m.cannon_max else v

  abbrev sweep_2 : Bool → Bool → W → W
  sweep_2 c r v = if r then min_rtb (d.fabs (sweep_1 c v)) m.radar_max else sweep_1 c v

  sweep_2-cannon :
      (c r : Bool) (v : W) → c ≡ true → (m.cannon_max ⊀ sweep_2 c r v) × (sweep_2 c r v ⊀ d.lit 0 0)
  sweep_2-cannon false r v h = absurd (ground (arith, h))
  sweep_2-cannon true false v h =
      let (bound_b, (nc, zc), bound_r) = bounds in
      (
        (min_caps laws signs (d.fabs v) m.cannon_max nc).0,
        min_nonneg laws signs _ _ (signs.fabs_nonneg v) zc,
      )
  sweep_2-cannon true true v h =
      let (bound_b, (nc, zc), (nr, zr)) = bounds in
      let v1 = sweep_1 true v in
      let (cap, num) = min_caps laws signs (d.fabs v) m.cannon_max nc in
      let nonneg = min_nonneg laws signs (d.fabs v) m.cannon_max (signs.fabs_nonneg v) zc in
      (
        (min_keeps laws signs m.cannon_max (d.fabs v1) m.radar_max
            (signs.fabs_not_above v1 m.cannon_max nonneg cap, signs.fabs_number v1 num) nr).0,
        min_nonneg laws signs (d.fabs v1) m.radar_max (signs.fabs_nonneg v1) zr,
      )

  sweep_2-radar :
      (c r : Bool) (v : W) → r ≡ true → (m.radar_max ⊀ sweep_2 c r v) × (sweep_2 c r v ⊀ d.lit 0 0)
  sweep_2-radar c false v h = absurd (ground (arith, h))
  sweep_2-radar c true v h =
      let (bound_b, bound_c, (nr, zr)) = bounds in
      (
        (min_caps laws signs (d.fabs (sweep_1 c v)) m.radar_max nr).0,
        min_nonneg laws signs _ _ (signs.fabs_nonneg (sweep_1 c v)) zr,
      )

  -- A block of SWEEP that is done only if its bit is set.
  swept-IsSpeed :
      (on : Bool) (k : W) (p : Rotation W × RotationMode) (b : Rotation W) (dir : RotationMode)
      → (on ≡ true → IsSpeed laws signs k p.0.vel)
      → IsSpeed laws signs k b.vel
      → IsSpeed laws signs k (if on then p else (b, dir)).0.vel
  swept-IsSpeed true k p b dir h old = h refl
  swept-IsSpeed false k p b dir h old = old

  module _ {κ} {S : Type κ} ⦃inp : Input S⦄ ⦃dbl : DoubleInput W S⦄ where
    rotate_amount-IsLimited :
        (g : Angles W) (s : S)
        → IsLimited laws signs m g
        → IsLimited laws signs m (rotate_amount m g s).0
    unfolding rotate_amount
    rotate_amount-IsLimited g s (old_b, old_c, old_r) =
        let (bits, s1) = inp.read_int s in
        let (v, s2) = dbl.read_double s1 in
        let (amount, s3) = dbl.read_double s2 in
        let b = has_bit bits 1 in
        let c = has_bit bits 2 in
        let r = has_bit bits 4 in
        let v3 = speed_3 laws signs m b c r (d.fabs v) in
        let (caps_b, caps_c, caps_r, nonneg) = speed_3-Chain b c r v in
        let (bound_b, bound_c, bound_r) = bounds in
        (
          set_if-IsSpeed laws signs b m.robot_max _ g.robot_angle
              (λ h. turn_by-IsSpeed laws signs g.robot_angle _ v3 amount bound_b (caps_b h) nonneg)
              old_b,
          set_if-IsSpeed laws signs c m.cannon_max _ g.cannon_angle
              (λ h. turn_by-IsSpeed laws signs g.cannon_angle _ v3 amount bound_c (caps_c h) nonneg)
              old_c,
          set_if-IsSpeed laws signs r m.radar_max _ g.radar_angle
              (λ h. turn_by-IsSpeed laws signs g.radar_angle _ v3 amount bound_r (caps_r h) nonneg)
              old_r,
        )

    rotate_to-IsLimited :
        (g : Angles W) (s : S)
        → IsLimited laws signs m g
        → IsLimited laws signs m (rotate_to m g s).0
    unfolding rotate_to
    rotate_to-IsLimited g s (old_b, old_c, old_r) =
        let (bits, s1) = inp.read_int s in
        let (v, s2) = dbl.read_double s1 in
        let c = has_bit bits 2 in
        let r = has_bit bits 4 in
        let v3 = speed_3 laws signs m false c r (d.fabs v) in
        let (caps_b, caps_c, caps_r, nonneg) = speed_3-Chain false c r v in
        let (bound_b, bound_c, bound_r) = bounds in
        (
          old_b,
          set_if-IsSpeed laws signs c m.cannon_max _ g.cannon_angle
              (λ h. turn_to-IsSpeed g.cannon_angle _ v3 _ bound_c (caps_c h) nonneg) old_c,
          set_if-IsSpeed laws signs r m.radar_max _ g.radar_angle
              (λ h. turn_to-IsSpeed g.radar_angle _ v3 _ bound_r (caps_r h) nonneg) old_r,
        )

    rotate-IsLimited :
        (g : Angles W) (s : S) → IsLimited laws signs m g → IsLimited laws signs m (rotate m g s).0
    unfolding rotate
    rotate-IsLimited g s (old_b, old_c, old_r) =
        let (bits, s1) = inp.read_int s in
        let (v, s2) = dbl.read_double s1 in
        let b = has_bit bits 1 in
        let c = has_bit bits 2 in
        let r = has_bit bits 4 in
        let v3 = speed_3 laws signs m b c r (d.fabs v) in
        let (caps_b, caps_c, caps_r, nonneg) = speed_3-Chain b c r v in
        let (bound_b, bound_c, bound_r) = bounds in
        (
          set_if-IsSpeed laws signs b m.robot_max _ g.robot_angle
              (λ h. signed-IsSpeed _ v3 v bound_b (caps_b h) nonneg) old_b,
          set_if-IsSpeed laws signs c m.cannon_max _ g.cannon_angle
              (λ h. signed-IsSpeed _ v3 v bound_c (caps_c h) nonneg) old_c,
          set_if-IsSpeed laws signs r m.radar_max _ g.radar_angle
              (λ h. signed-IsSpeed _ v3 v bound_r (caps_r h) nonneg) old_r,
        )

    sweep_message-IsLimited :
        (g : Angles W) (s : S)
        → IsLimited laws signs m g
        → IsLimited laws signs m (sweep_message m g s).0
    unfolding sweep_message
    sweep_message-IsLimited g s (old_b, old_c, old_r) =
        let (bits, s1) = inp.read_int s in
        let (v, s2) = dbl.read_double s1 in
        let c = has_bit bits 2 in
        let r = has_bit bits 4 in
        let (bound_b, bound_c, bound_r) = bounds in
        (
          old_b,
          swept-IsSpeed c m.cannon_max _ g.cannon_angle _
              (λ h.
                let (cap, nonneg) = sweep_2-cannon c r v h in
                sweep-IsSpeed g.cannon_angle _ (sweep_2 c r v) _ _ _ bound_c cap nonneg)
              old_c,
          swept-IsSpeed r m.radar_max _ g.radar_angle _
              (λ h.
                let (cap, nonneg) = sweep_2-radar c r v h in
                sweep-IsSpeed g.radar_angle _ (sweep_2 c r v) _ _ _ bound_r cap nonneg)
              old_r,
        )

    -- The four rotation messages, whatever they say, keep every angle within its greatest speed, if
    -- the greatest speeds are numbers that are not below 0.
    pub get_rotation_message-IsLimited :
        (msg : RotationMessage) (g : Angles W) (s : S)
        → IsLimited laws signs m g
        → IsLimited laws signs m (get_rotation_message m msg g s).0
    unfolding get_rotation_message
    get_rotation_message-IsLimited rotate_msg g s = rotate-IsLimited g s
    get_rotation_message-IsLimited rotate_to_msg g s = rotate_to-IsLimited g s
    get_rotation_message-IsLimited rotate_amount_msg g s = rotate_amount-IsLimited g s
    get_rotation_message-IsLimited sweep_msg g s = sweep_message-IsLimited g s
