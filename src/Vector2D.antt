-- ===== src/Vector2D.antt =====
-- src/Vector2D.cc and include/Vector2D.h: plane vectors over `Double`, without the stream operators.
use realtimebattle.Double.{Double}

pub record Vector2D {ℓ} (W : Type ℓ) : Type ℓ where
  pub x : W
  pub y : W

module _ {ℓ} {W : Type ℓ} ⦃d : Double W⦄ where
  open d use {add, sub, mul, div, neg, sqrt, cos, sin, atan2, eq}

  abbrev pub vec : W → W → Vector2D W
  vec a b = record { x = a; y = b }

  infixl 65 ◌+ᵥ◌ ◌-ᵥ◌
  infixl 70 ◌*ᵥ◌ ◌/ᵥ◌
  unfoldable pub ◌+ᵥ◌ : Vector2D W → Vector2D W → Vector2D W
  u +ᵥ v = vec (add u.x v.x) (add u.y v.y)

  unfoldable pub ◌-ᵥ◌ : Vector2D W → Vector2D W → Vector2D W
  u -ᵥ v = vec (sub u.x v.x) (sub u.y v.y)

  unfoldable pub negate : Vector2D W → Vector2D W
  negate v = vec (neg v.x) (neg v.y)

  -- Both products of a vector and a number.
  unfoldable pub ◌*ᵥ◌ : Vector2D W → W → Vector2D W
  v *ᵥ k = vec (mul v.x k) (mul v.y k)

  unfoldable pub ◌/ᵥ◌ : Vector2D W → W → Vector2D W
  v /ᵥ k = vec (div v.x k) (div v.y k)

  unfoldable pub rotate : Vector2D W → W → Vector2D W
  rotate v a =
      vec (sub (mul (cos a) v.x) (mul (sin a) v.y)) (add (mul (sin a) v.x) (mul (cos a) v.y))

  unfoldable pub rotate90 : Vector2D W → Vector2D W
  rotate90 v = vec (neg v.y) v.x

  unfoldable pub dot : Vector2D W → Vector2D W → W
  dot u v = add (mul u.x v.x) (mul u.y v.y)

  unfoldable pub vedge : Vector2D W → Vector2D W → W
  vedge u v = sub (mul u.x v.y) (mul u.y v.x)

  unfoldable pub lengthsqr : Vector2D W → W
  lengthsqr v = add (mul v.x v.x) (mul v.y v.y)

  unfoldable pub length : Vector2D W → W
  length v = sqrt (add (mul v.x v.x) (mul v.y v.y))

  unfoldable pub vec2angle : Vector2D W → W
  vec2angle v = atan2 v.y v.x

  unfoldable pub angle2vec : W → Vector2D W
  angle2vec a = vec (cos a) (sin a)

  -- `normalize`, and `unit` on a copy.
  unfoldable pub unit : Vector2D W → Vector2D W
  unfolding ◌/ᵥ◌ length
  unit v = v /ᵥ length v
