-- ===== src/Motion/Shots/Alive.antt =====
-- What a round of the shots, move_shots of src/ArenaBase.cc, leaves on the list.
use mathlib.Core.Path.{subst}
use realtimebattle.Base.{
  ℕ, ◌≡◌, refl, sym, ap, ◌∙◌, true, ◌⊎◌, inl, inr, List, [], ◌∷◌, ◌==◌, ==_iff, none, some,
  if-cases, Bool-cases, Option-cases, arith,
}
use realtimebattle.Double.{Double, IsOrdered, ◌≺◌, infinity_rtb}
use realtimebattle.Options.{Options}
use realtimebattle.Arena.Scores.{has}
use realtimebattle.Motion.{Shot, Field, remove_shot, shot_at}
use realtimebattle.Motion.Shots.{
  Flight, flown, unknown_object, lost, addresses, move_shot, erase_dead, move_if_alive,
  move_shots_from, move_shots,
}
use realtimebattle.Motion.Shots.Listed.{
  LeftOrSame, shot_at-remove_shot, shot_at-address, remove_shot-LeftOrSame, shot_at-of-IsNone,
}
use realtimebattle.Motion.Shots.Stays.{
  Stays, Stays-refl, Stays-trans, Flies, IsFlight, flight_flown, flight_lost,
}
use realtimebattle.Motion.Shots.Flights.{move_shot-Flies}

module _ {ℓ} {W : Type ℓ} ⦃d : Double W⦄ (laws : IsOrdered W) (o : Options W) where
  open d use {lit, neg, lt}

  -- Not dead, if it is on the list.
  abbrev pub AliveAt : ℕ → Field W → Type ℓ
  AliveAt b f = (s : Shot W) → shot_at b f.shots ≡ some s → s.alive ≡ true

  AliveAt-after : (b : ℕ) (f g : Field W) → LeftOrSame b f.shots g.shots → AliveAt b f → AliveAt b g
  AliveAt-after b f g (inl left) h s e = ground (arith, left, e)
  AliveAt-after b f g (inr same) h s e = h s (sym same ∙ e)

  erase_dead-Flies :
      (a : ℕ) (f : Field W) → Flies laws o a f (erase_dead o a f) × AliveAt a (erase_dead o a f)
  unfolding erase_dead
  erase_dead-Flies a f = elim (Option-cases (shot_at a f.shots)) [
    | inl gone ↦ rw (gone, erase_dead) ((Stays-refl laws o f, λ b h. inr refl), λ s e. cc)
    | inr (s, here) ↦
        rw (here, erase_dead)
          (if-cases (λ g. Flies laws o a f g × AliveAt a g) s.alive
            (λ alive. ((Stays-refl laws o f, λ b h. inr refl), λ r e. ground arith))
            (λ dead. erased))
  ]
    where
      erased :
          Flies laws o a f (record f { shots = remove_shot a f.shots })
          × AliveAt a (record f { shots = remove_shot a f.shots })
      erased =
          let (r, on, w, c, m, n) = Stays-refl laws o f in
          (
            (
              (
                r,
                on,
                w,
                c,
                m,
                λ b e.
                    shot_at-of-IsNone b f.shots (remove_shot a f.shots)
                      (remove_shot-LeftOrSame a b f.shots) e,
              ),
              λ b h. remove_shot-LeftOrSame a b f.shots,
            ),
            λ s e. cc (shot_at-remove_shot a f.shots),
          )

  LeftOrSame-trans :
      (b : ℕ) (f g h : Field W)
      → LeftOrSame b f.shots g.shots
      → LeftOrSame b g.shots h.shots
      → LeftOrSame b f.shots h.shots
  LeftOrSame-trans b f g h first (inl left) = inl left
  LeftOrSame-trans b f g h (inl left) (inr same) = inl (same ∙ left)
  LeftOrSame-trans b f g h (inr as_before) (inr same) = inr (same ∙ as_before)

  -- After the first shots of the round, what is left to do for the shot at b.
  abbrev AllAlive : List ℕ → Field W → Field W → Type ℓ
  AllAlive as_listed f g =
      Stays laws o f g × ((b : ℕ) → (has as_listed b ≡ true) ⊎ AliveAt b f → AliveAt b g)

  turn-Flies :
      (timestep : W) (a : ℕ) (s : Shot W) (f : Field W)
      → timestep ≺ infinity_rtb
      → shot_at a f.shots ≡ some s
      → IsFlight laws o (Flies laws o a f) (move_if_alive o timestep s f)
  turn-Flies timestep a s f t here =
      if-cases (IsFlight laws o (Flies laws o a f)) s.alive
        (λ alive.
          subst (λ x. IsFlight laws o (Flies laws o x f) (move_shot o timestep s f)) same
            (move_shot-Flies laws o timestep s f t (ap (λ x. shot_at x f.shots) same ∙ here)))
        (λ dead. flight_flown (Stays-refl laws o f, λ b h. inr refl))
    where
      same : s.address ≡ a
      same = shot_at-address a f.shots s here

  IsFlight-map :
      (P Q : Field W → Type ℓ) (m : Flight W)
      → ((g : Field W) → P g → Q g)
      → IsFlight laws o P m
      → IsFlight laws o Q m
  IsFlight-map P Q (flown g) h (flight_flown p) = flight_flown (h g p)
  IsFlight-map P Q unknown_object h e = elim e [ ]
  IsFlight-map P Q lost h (flight_lost s f itself) = flight_lost s f itself

  -- What the turn of one shot and the erasure of the dead do, before the shots that follow.
  AllAlive-after :
      (a : ℕ) (rest : List ℕ) (f g k : Field W)
      → Flies laws o a f g
      → AllAlive rest (erase_dead o a g) k
      → AllAlive (a ∷ rest) f k
  AllAlive-after a rest f g k (stays, others) (stays', alive) =
      let h = erase_dead o a g in
      let ((erased, same), gone) = erase_dead-Flies a g in
      let through = Stays-trans laws o f g h stays erased in
      (
        Stays-trans laws o f h k through stays',
        λ b listed. elim (Bool-cases (b == a)) [
          | inl e ↦ alive b (inr (subst (λ x. AliveAt x h) (sym ((==_iff b a).0 e)) gone))
          | inr e ↦ alive b (elim listed [
            | inl later ↦ inl (ground arith)
            | inr before ↦
                inr (AliveAt-after b f h (LeftOrSame-trans b f g h (others b e) (same b e)) before)
          ])
        ],
      )

  -- A shot that has left the list in the round is not met.
  AllAlive-skip :
      (a : ℕ) (rest : List ℕ) (f g : Field W)
      → shot_at a f.shots ≡ none
      → AllAlive rest f g
      → AllAlive (a ∷ rest) f g
  AllAlive-skip a rest f g gone (stays, alive) = (
    stays,
    λ b listed. elim (Bool-cases (b == a)) [
      | inl e ↦ alive b (inr (λ s at. cc (ap (λ x. shot_at x f.shots) ((==_iff b a).0 e))))
      | inr e ↦ alive b (elim listed [ inl later ↦ inl (ground arith) | inr before ↦ inr before ])
    ],
  )

  move_shots_from-AllAlive :
      (timestep : W) (as_listed : List ℕ) (f : Field W)
      → timestep ≺ infinity_rtb
      → IsFlight laws o (AllAlive as_listed f) (move_shots_from o timestep as_listed f)
  unfolding move_shots_from
  move_shots_from-AllAlive timestep [] f t =
      flight_flown {f = f}
        (Stays-refl laws o f, λ b h. elim h [ inl listed ↦ cc | inr alive ↦ alive ])
  move_shots_from-AllAlive timestep (a ∷ rest) f t = elim (Option-cases (shot_at a f.shots)) [
    | inl gone ↦
        rw (gone, move_shots_from)
          (IsFlight-map (AllAlive rest f) (AllAlive (a ∷ rest) f)
            (move_shots_from o timestep rest f) (λ g. AllAlive-skip a rest f g gone)
            (move_shots_from-AllAlive timestep rest f t))
    | inr (s, here) ↦
        rw (here, move_shots_from)
          (on (move_if_alive o timestep s f) (turn-Flies timestep a s f t here) (λ g flies.
            IsFlight-map (AllAlive rest (erase_dead o a g)) (AllAlive (a ∷ rest) f)
              (move_shots_from o timestep rest (erase_dead o a g))
              (λ k. AllAlive-after a rest f g k flies)
              (move_shots_from-AllAlive timestep rest (erase_dead o a g) t)))
  ]
    where
      on :
          (m : Flight W)
          → IsFlight laws o (Flies laws o a f) m
          → ((g : Field W)
              → Flies laws o a f g
              → IsFlight laws o
                  (AllAlive (a ∷ rest) f)
                  (move_shots_from o timestep rest (erase_dead o a g)))
          → IsFlight laws o (AllAlive (a ∷ rest) f) (elim m [
            | flown g ↦ move_shots_from o timestep rest (erase_dead o a g)
            | unknown_object ↦ unknown_object
            | lost ↦ lost
          ])
      on (flown g) (flight_flown p) h = h g p
      on unknown_object e h = elim e [ ]
      on lost (flight_lost s f itself) h = flight_lost s f itself

  has-addresses :
      (b : ℕ) (ss : List (Shot W)) → (shot_at b ss ≡ none) ⊎ (has (addresses ss) b ≡ true)
  has-addresses b [] = inl refl
  has-addresses b (s ∷ ss) = ground (arith, has-addresses b ss)

  -- A round of the shots with a time step below `infinity_rtb` ends with a field, or at a shot that meets
  -- itself: no shot collides with an unknown object, and none with a shot that is not on the list. In the
  -- field after it every shot on the list is alive, none is at an address at which none was, every robot
  -- whose energy and life were sound has them sound, every dead robot is dead, the robots on the arena and
  -- the walls are those from before, and the cookies and mines are those from before without some.
  pub move_shots-all_alive :
      (timestep : W) (f : Field W)
      → timestep ≺ infinity_rtb
      → IsFlight laws o (λ g. Stays laws o f g × ((b : ℕ) → AliveAt b g)) (move_shots o timestep f)
  unfolding move_shots
  move_shots-all_alive timestep f t =
      IsFlight-map (AllAlive (addresses f.shots) f)
        (λ g. Stays laws o f g × ((b : ℕ) → AliveAt b g)) (move_shots o timestep f)
        (λ g (stays, alive). (
          stays,
          λ b. elim (has-addresses b f.shots) [
            | inl none_there ↦ λ s e. cc (stays.5 b none_there)
            | inr listed ↦ alive b (inl listed)
          ],
        ))
        (move_shots_from-AllAlive timestep (addresses f.shots) f t)
