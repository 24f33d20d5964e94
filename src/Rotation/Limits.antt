-- ===== src/Rotation/Limits.antt =====
-- The speeds that the rotation messages of src/Robot.cc set.
use realtimebattle.Base.{◌≡◌, Bool, true, false, arith, refl, if◌then◌else◌, if-holds}
use realtimebattle.Double.{Double, IsOrdered, IsSigned, ◌⊀◌, min_rtb}
use realtimebattle.Rotation.{Rotation, Angles, MaxRotate, limit_if, turn_by}

module _ {ℓ} {W : Type ℓ} ⦃d : Double W⦄ (laws : IsOrdered W) (signs : IsSigned W) where
  -- A greatest speed is a number and not below 0.
  abbrev pub IsBound : W → Type 0
  IsBound m = (d.eq m m ≡ true) × (m ⊀ d.lit 0 0)

  abbrev pub IsSpeed : W → W → Type 0
  IsSpeed m v = (m ⊀ v) × (v ⊀ d.neg m)

  abbrev pub Capped : W → W → Type 0
  Capped m s = (m ⊀ s) × (d.eq s s ≡ true)

  pub min_caps : (s m : W) → d.eq m m ≡ true → Capped m (min_rtb s m)
  min_caps s m h = ground (arith, laws.lt_asymm s m, laws.lt_asymm m m, signs.number_of_lt s m)

  pub min_keeps : (m s y : W) → Capped m s → d.eq y y ≡ true → Capped m (min_rtb s y)
  min_keeps m s y (h, k) n = ground (arith, signs.lt_connected m s y k)

  pub min_nonneg : (s m : W) → s ⊀ d.lit 0 0 → m ⊀ d.lit 0 0 → min_rtb s m ⊀ d.lit 0 0
  min_nonneg s m h k = ground arith

  pub limit_keeps :
      (b : Bool) (m s y : W) → Capped m s → d.eq y y ≡ true → Capped m (limit_if b s y)
  limit_keeps true m s y h n = min_keeps m s y h n
  limit_keeps false m s y h n = h

  pub limit_nonneg :
      (b : Bool) (s m : W) → s ⊀ d.lit 0 0 → m ⊀ d.lit 0 0 → limit_if b s m ⊀ d.lit 0 0
  limit_nonneg true s m h k = min_nonneg s m h k
  limit_nonneg false s m h k = h

  pub both-IsSpeed :
      (m s : W) → IsBound m → m ⊀ s → s ⊀ d.lit 0 0 → IsSpeed m s × IsSpeed m (d.neg s)
  both-IsSpeed m s (n, k) h j = (
    (h, signs.nonneg_not_below s m j k),
    (signs.neg_not_above s m j k, ground (arith, laws.lt_neg m s)),
  )

  pub turn_by-IsSpeed :
      (a : Rotation W) (m s amount : W)
      → IsBound m
      → m ⊀ s
      → s ⊀ d.lit 0 0
      → IsSpeed m (turn_by a s amount).vel
  unfolding turn_by
  turn_by-IsSpeed a m s amount bound h j =
      let (forward, backward) = both-IsSpeed m s bound h j in
      if-holds (λ (q : Rotation W). IsSpeed m q.vel) (d.lt (d.lit 0 0) amount) forward backward

  pub limit_caps : (b : Bool) (s m : W) → b ≡ true → d.eq m m ≡ true → Capped m (limit_if b s m)
  limit_caps true s m h n = min_caps s m n
  limit_caps false s m h n = absurd (ground (arith, h))

  abbrev pub HasBounds : MaxRotate W → Type 0
  HasBounds m = IsBound m.robot_max × IsBound m.cannon_max × IsBound m.radar_max

  abbrev pub IsLimited : MaxRotate W → Angles W → Type 0
  IsLimited m g =
      IsSpeed m.robot_max g.robot_angle.vel
      × IsSpeed m.cannon_max g.cannon_angle.vel
      × IsSpeed m.radar_max g.radar_angle.vel

  abbrev pub speed_2 : MaxRotate W → Bool → Bool → W → W
  speed_2 m b c v = limit_if c (limit_if b v m.robot_max) m.cannon_max

  abbrev pub speed_3 : MaxRotate W → Bool → Bool → Bool → W → W
  speed_3 m b c r v = limit_if r (speed_2 m b c v) m.radar_max

  -- An angle that is set only if its bit is.
  pub set_if-IsSpeed :
      (on : Bool) (m : W) (a b : Rotation W)
      → (on ≡ true → IsSpeed m a.vel)
      → IsSpeed m b.vel
      → IsSpeed m (if on then a else b).vel
  set_if-IsSpeed true m a b h old = h refl
  set_if-IsSpeed false m a b h old = old
