-- ===== src/Robot/Vital.antt =====
-- The energy of a robot and its life, through the collisions of src/Robot.cc.
use realtimebattle.Base.{◌≡◌, refl, true, false, not, ◌&&◌, ◌||◌, arith, if-cases}
use realtimebattle.Double.{Double, IsOrdered, ◌⊀◌, min_rtb, min_rtb-not_above}
use realtimebattle.Vector2D.{Vector2D}
use realtimebattle.Options.{Options, get_d}
use realtimebattle.Options as opt
use realtimebattle.Robot.{Robot, die, change_energy, injured, bounce_on_wall, bounce_on_robot}

module _ {ℓ} {W : Type ℓ} ⦃d : Double W⦄ where
  -- Not above the greatest energy, and with some energy if alive.
  abbrev pub IsVital : Options W → Robot W → Type 0
  IsVital o r =
      (get_d o opt.robot_max_energy ⊀ r.energy)
      × (r.alive ≡ true → d.le r.energy (d.lit 0 0) ≡ false)

  -- Alive before and after, or dead; dead now if the energy is gone.
  abbrev pub IsOutlived : Robot W → Robot W → Type 0
  IsOutlived r r' =
      (r'.alive ≡ (r.alive && not (d.le r'.energy (d.lit 0 0))))
      × (r'.dead_but_stats_not_set
          ≡ (r.dead_but_stats_not_set || (r.alive && d.le r'.energy (d.lit 0 0))))

  died-IsVital :
      (o : Options W) (r : Robot W)
      → get_d o opt.robot_max_energy ⊀ r.energy
      → d.le r.energy (d.lit 0 0) ≡ true
      → IsVital o (die r)
  unfolding die
  died-IsVital o r h e = ground arith

  died-IsOutlived :
      (r r0 : Robot W)
      → r.alive ≡ r0.alive
      → r.dead_but_stats_not_set ≡ r0.dead_but_stats_not_set
      → d.le r.energy (d.lit 0 0) ≡ true
      → IsOutlived r0 (die r)
  unfolding die
  died-IsOutlived r r0 a b e = ground arith

  module _ (laws : IsOrdered W) (o : Options W) where
    change_energy-IsVital :
        (e : W) (r : Robot W) → IsVital o (change_energy o e r) × IsOutlived r (change_energy o e r)
    unfolding change_energy
    change_energy-IsVital e r =
        let level = min_rtb (d.add r.energy e) (get_d o opt.robot_max_energy) in
        let capped = min_rtb-not_above laws (d.add r.energy e) (get_d o opt.robot_max_energy) in
        let r' = record r { energy = level } in
        if-cases (λ (x : Robot W). IsVital o x × IsOutlived r x) (d.le level (d.lit 0 0))
          {t = die r'} {u = r'}
          (λ gone. (died-IsVital o r' capped gone, died-IsOutlived r' r refl refl gone))
          (λ left. ((capped, λ alive. left), ground arith))

    injured-IsVital :
        (v : Vector2D W) (hardness e p : W) (r : Robot W)
        → IsVital o (injured o v hardness e p r) × IsOutlived r (injured o v hardness e p r)
    unfolding injured
    injured-IsVital v hardness e p r = change_energy-IsVital _ (record r { velocity = v })

    -- Whatever the energies before, a change of energy, a bounce on a wall and a bounce of two robots leave
    -- no robot with more than the greatest energy, and none alive whose energy is at most 0; who was
    -- alive dies just then, to get statistics, and who was dead stays so.
    pub collisions-IsVital :
        (e bounce_c hardness_c : W) (normal : Vector2D W) (r r' : Robot W)
        → (IsVital o (change_energy o e r) × IsOutlived r (change_energy o e r))
          × (IsVital o (bounce_on_wall o bounce_c hardness_c normal r)
              × IsOutlived r (bounce_on_wall o bounce_c hardness_c normal r))
          × (IsVital o (bounce_on_robot o r r' normal).0
              × IsOutlived r (bounce_on_robot o r r' normal).0)
          × (IsVital o (bounce_on_robot o r r' normal).1
              × IsOutlived r' (bounce_on_robot o r r' normal).1)
    unfolding bounce_on_wall bounce_on_robot
    collisions-IsVital e bounce_c hardness_c normal r r' = (
      change_energy-IsVital e r,
      injured-IsVital _ _ _ _ r,
      injured-IsVital _ _ _ _ r,
      injured-IsVital _ _ _ _ r',
    )
