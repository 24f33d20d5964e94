-- ===== src/Motion/Ends.antt =====
-- How the recursion of Robot::move of src/Robot.cc ends.
use realtimebattle.Base.{
  ℕ, zero, suc, ◌+◌, ◌<◌, ◌≡◌, refl, false, ◌&&◌, inl, inr, some, if-cases, ltb, arith,
}
use realtimebattle.Double.{Double, IsOrdered, ◌≺◌, ◌⊀◌, infinity_rtb, lt_irrefl}
use realtimebattle.ObjectLists.{ObjectType, robot, shot, wall, cookie, mine, Item}
use realtimebattle.Options.{Options}
use realtimebattle.Motion.{
  Field, Motion, moved, unknown_object, too_many_bounces, no_end, change_robot, advance, hit,
  time_to_collision, ahead, go_on, move, move_robot,
}
use realtimebattle.Motion.Ahead.{on_field-IsAhead}
use realtimebattle.Motion.Kept.{Kept, Kept-trans, advance-Kept, hit-Kept}

-- The motion ends with such a field, or with the error on the number of bounces.
pub data IsEnd {ℓ} {W : Type ℓ} (P : Field W → Type ℓ) : Motion W → Type ℓ where
  ends_moved : {f : Field W} → P f → IsEnd P (moved f)
  ends_with_error : IsEnd P too_many_bounces

module _ {ℓ} {W : Type ℓ} ⦃d : Double W⦄ (laws : IsOrdered W) (o : Options W) where
  open d use {lit, sub, div, lt}

  IsEnd-after :
      (f g : Field W) (m : Motion W) → Kept o f g → IsEnd (Kept o g) m → IsEnd (Kept o f) m
  IsEnd-after f g (moved h) k (ends_moved e) = ends_moved (Kept-trans o f g h k e)
  IsEnd-after f g unknown_object k e = elim e [ ]
  IsEnd-after f g no_end k e = elim e [ ]
  IsEnd-after f g too_many_bounces k e = ends_with_error

  time_not_negative :
      (iterstep : ℕ) (eps dist : W)
      → eps ⊀ lit 0 0
      → dist ⊀ lit 0 0
      → time_to_collision o iterstep eps dist ⊀ lit 0 0
  time_not_negative iterstep eps dist h k = ground arith

  steps_left : (fuel iterstep : ℕ) → suc fuel + iterstep ≡ 67 → ltb 65 iterstep ≡ false → 0 < fuel
  steps_left fuel iterstep sum few = ground arith

  go_on-IsEnd :
      (iterstep p : ℕ) (f g : Field W) (remaining : W) (more : Motion W)
      → Kept o f g
      → (ltb 65 iterstep ≡ false → lit 0 0 ≺ remaining → IsEnd (Kept o g) more)
      → IsEnd (Kept o f) (go_on o iterstep p (g, remaining) more)
  go_on-IsEnd iterstep p f g remaining more k h =
      if-cases (IsEnd (Kept o f)) (ltb 65 iterstep) (λ many. ends_with_error)
        (λ few.
          if-cases (IsEnd (Kept o f)) ((g.robots p).alive && lt (lit 0 0) remaining)
            (λ on. IsEnd-after f g more k (h few (ground arith))) (λ off. ends_moved k))

  module _ (sub_below : (x y z : W) → x ≺ z → y ⊀ lit 0 0 → lit 0 0 ≺ sub x y → sub x y ≺ z) where
    -- The time that remains after a collision, if any, is again below infinity.
    hit-remaining :
        (t : ObjectType) (eps remaining : W) (p : ℕ) (i : Item W) (f : Field W)
        → (lit 0 0 ≺ remaining → remaining ≺ infinity_rtb)
        → lit 0 0 ≺ (hit o t eps remaining p i f).1
        → (hit o t eps remaining p i f).1 ≺ infinity_rtb
    unfolding hit
    hit-remaining wall eps remaining p i f h = h
    hit-remaining robot eps remaining p i f h = ground (arith, lt_irrefl laws (lit 0 0))
    hit-remaining shot eps remaining p i f h = h
    hit-remaining cookie eps remaining p i f h = h
    hit-remaining mine eps remaining p i f h = h

    move-IsEnd :
        (fuel iterstep : ℕ) (timestep eps : W) (p : ℕ) (f : Field W)
        → fuel + iterstep ≡ 67
        → 0 < fuel
        → eps ⊀ lit 0 0
        → timestep ≺ infinity_rtb
        → IsEnd (Kept o f) (move o fuel timestep iterstep eps p f)
    unfolding move
    move-IsEnd zero iterstep timestep eps p f sum pos e t = elim pos [ ]
    move-IsEnd (suc fuel) iterstep timestep eps p f sum pos e t =
        if-cases (IsEnd (Kept o f)) (lt timestep (ahead o p f).dist)
          (λ free. ends_moved (advance-Kept o timestep p f))
          (λ near.
            elim (on_field-IsAhead laws (f.robots p).center (f.robots p).velocity
              (f.robots p).radius (some p) f) [
                | inl (far, none_there) ↦ ground (arith, far, near, t)
                | inr (k, i, shape, object, dist, met) ↦
                    let time = time_to_collision o iterstep eps (ahead o p f).dist in
                    let there = change_robot (advance o time) p f in
                    let after = hit o k eps (sub timestep time) p i there in
                    rw shape (
                      rw object (
                        go_on-IsEnd iterstep p f after.0 after.1 _
                          (Kept-trans o f there after.0 (advance-Kept o time p f)
                            (hit-Kept o laws k eps (sub timestep time) p i there))
                          (λ few left.
                            move-IsEnd fuel (iterstep + 1) after.1 eps p after.0 (omega arith)
                              (steps_left fuel iterstep sum few) e
                              (hit-remaining k eps (sub timestep time) p i there
                                (sub_below timestep time infinity_rtb t
                                  (time_not_negative iterstep eps (ahead o p f).dist e dist))
                                left))))
              ])

    -- A time step below `infinity_rtb` and a fiftieth of it that is not below 0 let the motion of a robot
    -- end: at most 66 nested calls are made, none of them collides with an unknown object, and the motion
    -- gives a field or the error that there were too many bounces. In a field that it gives, every robot
    -- whose energy and life were sound has them sound, every dead robot is dead, the robots on the arena,
    -- the walls and the number of shots are those from before, and the shots, cookies and mines are those
    -- from before without some.
    pub move_robot-IsEnd :
        (timestep : W) (p : ℕ) (f : Field W)
        → timestep ≺ infinity_rtb
        → div timestep (lit 50 0) ⊀ lit 0 0
        → IsEnd (Kept o f) (move_robot o timestep p f)
    unfolding move_robot
    move_robot-IsEnd timestep p f t e =
        move-IsEnd 66 1 timestep (div timestep (lit 50 0)) p f refl (omega arith) e t
