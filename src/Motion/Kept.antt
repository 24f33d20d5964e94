-- ===== src/Motion/Kept.antt =====
-- What the collisions of Robot::move of src/Robot.cc keep.
use mathlib.Core.Path.{subst}
use realtimebattle.Base.{
  ℕ, ◌≡◌, refl, sym, false, List, [], ◌∷◌, ◌==◌, ==_iff, if-cases, arith, Option, none, some,
  get_elem?,
}
use realtimebattle.Double.{Double, IsOrdered}
use realtimebattle.Vector2D.{Vector2D, ◌+ᵥ◌, ◌*ᵥ◌}
use realtimebattle.Shapes.{get_normal}
use realtimebattle.ObjectLists.{ObjectType, robot, shot, wall, cookie, mine, Item}
use realtimebattle.ArenaFile.{Wall}
use realtimebattle.Options.{Options}
use realtimebattle.Robot.{Robot, change_energy, bounce_on_wall, bounce_on_robot}
use realtimebattle.Robot.Vital.{IsVital, IsOutlived, collisions-IsVital}
use realtimebattle.Arena.{Extra, at_pointer}
use realtimebattle.Motion.{
  Shot, Field, remove_shot, remove_extra, change_robot, advance, bounce_off, energy_of_shot,
  energy_of_extra, shot_at, extra_at, hit_wall, hit_robot, hit_shot, hit_cookie, hit_mine, hit,
}

-- The first list is the second without some of its elements.
pub data IsPart {ℓ} {A : Type ℓ} : List A → List A → Type ℓ where
  part_nil : IsPart [] []
  part_keep : {x : A} {xs ys : List A} → IsPart xs ys → IsPart (x ∷ xs) (x ∷ ys)
  part_drop : {x : A} {xs ys : List A} → IsPart xs ys → IsPart xs (x ∷ ys)

pub IsPart-refl {ℓ} : {A : Type ℓ} (xs : List A) → IsPart xs xs
IsPart-refl [] = part_nil
IsPart-refl (x ∷ xs) = part_keep (IsPart-refl xs)

pub IsPart-trans {ℓ} : {A : Type ℓ} {xs ys zs : List A} → IsPart xs ys → IsPart ys zs → IsPart xs zs
IsPart-trans h part_nil = h
IsPart-trans h (part_drop k) = part_drop (IsPart-trans h k)
IsPart-trans (part_keep h) (part_keep k) = part_keep (IsPart-trans h k)
IsPart-trans (part_drop h) (part_keep k) = part_drop (IsPart-trans h k)

module _ {ℓ} {W : Type ℓ} where
  pub remove_shot-IsPart : (a : ℕ) (ss : List (Shot W)) → IsPart (remove_shot a ss) ss
  remove_shot-IsPart a [] = part_nil
  remove_shot-IsPart a (s ∷ ss) =
      if-cases (λ l. IsPart l (s ∷ ss)) (s.address == a) (λ h. part_drop (remove_shot-IsPart a ss))
        (λ h. part_keep (remove_shot-IsPart a ss))

  pub remove_extra-IsPart : (a : ℕ) (es : List (Extra W)) → IsPart (remove_extra a es) es
  remove_extra-IsPart a [] = part_nil
  remove_extra-IsPart a (e ∷ es) =
      if-cases (λ l. IsPart l (e ∷ es)) (e.item.address == a)
        (λ h. part_drop (remove_extra-IsPart a es)) (λ h. part_keep (remove_extra-IsPart a es))

module _ {ℓ} {W : Type ℓ} ⦃d : Double W⦄ (o : Options W) where
  open d use {neg}

  -- Energy and life stay sound, and the dead stay dead.
  abbrev pub Lives : Robot W → Robot W → Type 0
  Lives r r' = (IsVital o r → IsVital o r') × (r.alive ≡ false → r'.alive ≡ false)

  abbrev pub Kept : Field W → Field W → Type ℓ
  Kept f f' =
      ((q : ℕ) → Lives (f.robots q) (f'.robots q))
      × (f'.robots_on_arena ≡ f.robots_on_arena)
      × (f'.walls ≡ f.walls)
      × (f'.shot_count ≡ f.shot_count)
      × IsPart f'.shots f.shots
      × IsPart f'.cookies f.cookies
      × IsPart f'.mines f.mines

  pub Kept-refl : (f : Field W) → Kept f f
  Kept-refl f = (
    λ q. (λ h. h, λ h. h),
    refl,
    refl,
    refl,
    IsPart-refl f.shots,
    IsPart-refl f.cookies,
    IsPart-refl f.mines,
  )

  pub Kept-trans : (f g h : Field W) → Kept f g → Kept g h → Kept f h
  Kept-trans f g h (r1, o1, w1, n1, s1, c1, m1) (r2, o2, w2, n2, s2, c2, m2) = (
    λ q. (λ v. (r2 q).0 ((r1 q).0 v), λ v. (r2 q).1 ((r1 q).1 v)),
    cc,
    cc,
    cc,
    IsPart-trans s2 s1,
    IsPart-trans c2 c1,
    IsPart-trans m2 m1,
  )

  at_pointer-Lives :
      (g : Robot W → Robot W) (p : ℕ) (old new : ℕ → Robot W)
      → ((q : ℕ) → Lives (old q) (new q))
      → Lives (old p) (g (new p))
      → (q : ℕ) → Lives (old q) (at_pointer g p new q)
  at_pointer-Lives g p old new before h q =
      if-cases (λ r. Lives (old q) r) (q == p)
        (λ e. subst (λ x. Lives (old x) (g (new x))) (sym ((==_iff q p).0 e)) h) (λ e. before q)

  -- What a change of one robot keeps.
  pub change_robot-Kept :
      (g : Robot W → Robot W) (p : ℕ) (f : Field W)
      → Lives (f.robots p) (g (f.robots p))
      → Kept f (change_robot g p f)
  change_robot-Kept g p f h = (
    at_pointer-Lives g p f.robots f.robots (λ q. (λ v. v, λ a. a)) h,
    refl,
    refl,
    refl,
    IsPart-refl f.shots,
    IsPart-refl f.cookies,
    IsPart-refl f.mines,
  )

  outlived-Lives : (r r' : Robot W) → IsVital o r' × IsOutlived r r' → Lives r r'
  outlived-Lives r r' (v, (a, s)) = (λ h. v, λ dead. ground arith)

  pub advance-Kept : (time : W) (p : ℕ) (f : Field W) → Kept f (change_robot (advance o time) p f)
  unfolding advance
  advance-Kept time p f = change_robot-Kept (advance o time) p f (λ v. v, λ a. a)

  module _ (laws : IsOrdered W) where
    change_energy-Lives : (e : W) (r : Robot W) → Lives r (change_energy o e r)
    change_energy-Lives e r =
        outlived-Lives r (change_energy o e r) (collisions-IsVital laws o e e e r.center r r).0

    bounce_off-Lives :
        (w : Option (Wall W)) (n : Vector2D W) (r : Robot W) → Lives r (bounce_off o w n r)
    bounce_off-Lives none n r = (λ v. v, λ a. a)
    bounce_off-Lives (some w) n r =
        outlived-Lives r (bounce_on_wall o w.bounce_coeff w.hardness_coeff n r)
          (collisions-IsVital laws o r.energy w.bounce_coeff w.hardness_coeff n r r).1

    hit_wall-Kept : (eps : W) (p : ℕ) (i : Item W) (f : Field W) → Kept f (hit_wall o eps p i f)
    unfolding hit_wall
    hit_wall-Kept eps p i f =
        let normal = get_normal i.shape (f.robots p).center in
        let w = get_elem? f.walls i.address in
        let bounced = change_robot (bounce_off o w normal) p f in
        let off : Robot W → Robot W = λ r. record r { center = r.center +ᵥ normal *ᵥ eps } in
        Kept-trans f bounced (change_robot off p bounced)
          (change_robot-Kept (bounce_off o w normal) p f (bounce_off-Lives w normal (f.robots p)))
          (change_robot-Kept off p bounced (λ v. v, λ a. a))

    hit_robot-Kept : (p : ℕ) (i : Item W) (f : Field W) → Kept f (hit_robot o p i f)
    unfolding hit_robot
    hit_robot-Kept p i f =
        let normal = get_normal i.shape (f.robots p).center in
        let both = bounce_on_robot o (f.robots p) (f.robots i.address) normal in
        let e = (f.robots p).energy in
        let vital = collisions-IsVital laws o e e e normal (f.robots p) (f.robots i.address) in
        let (r, a, w, n, s, c, m) =
          change_robot-Kept (λ r. both.0) p f (outlived-Lives (f.robots p) both.0 vital.2) in
        (
          at_pointer-Lives (λ r. both.1) i.address f.robots (at_pointer (λ r. both.0) p f.robots) r
              (outlived-Lives (f.robots i.address) both.1 vital.3),
          a,
          w,
          n,
          s,
          c,
          m,
        )

    pub energy-Kept : (e : W) (p : ℕ) (f : Field W) → Kept f (change_robot (change_energy o e) p f)
    energy-Kept e p f =
        change_robot-Kept (change_energy o e) p f (change_energy-Lives e (f.robots p))

    hit_shot-Kept : (p : ℕ) (i : Item W) (f : Field W) → Kept f (hit_shot o p i f)
    unfolding hit_shot
    hit_shot-Kept p i f =
        let e = neg (energy_of_shot o (shot_at i.address f.shots)) in
        let (r, a, w, n, s, c, m) = energy-Kept e p f in
        (r, a, w, n, remove_shot-IsPart i.address f.shots, c, m)

    hit_cookie-Kept : (p : ℕ) (i : Item W) (f : Field W) → Kept f (hit_cookie o p i f)
    unfolding hit_cookie
    hit_cookie-Kept p i f =
        let e = energy_of_extra o (extra_at i.address f.cookies) in
        let (r, a, w, n, s, c, m) = energy-Kept e p f in
        (r, a, w, n, s, remove_extra-IsPart i.address f.cookies, m)

    hit_mine-Kept : (p : ℕ) (i : Item W) (f : Field W) → Kept f (hit_mine o p i f)
    unfolding hit_mine
    hit_mine-Kept p i f =
        let e = neg (energy_of_extra o (extra_at i.address f.mines)) in
        let (r, a, w, n, s, c, m) = energy-Kept e p f in
        (r, a, w, n, s, c, remove_extra-IsPart i.address f.mines)

    pub hit-Kept :
        (t : ObjectType) (eps remaining : W) (p : ℕ) (i : Item W) (f : Field W)
        → Kept f (hit o t eps remaining p i f).0
    unfolding hit
    hit-Kept wall eps remaining p i f = hit_wall-Kept eps p i f
    hit-Kept robot eps remaining p i f = hit_robot-Kept p i f
    hit-Kept shot eps remaining p i f = hit_shot-Kept p i f
    hit-Kept cookie eps remaining p i f = hit_cookie-Kept p i f
    hit-Kept mine eps remaining p i f = hit_mine-Kept p i f
