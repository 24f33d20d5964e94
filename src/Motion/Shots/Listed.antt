-- ===== src/Motion/Shots/Listed.antt =====
-- The list of shots of src/ArenaBase.cc, when a shot leaves it or is changed.
use mathlib.Core.Path.{subst}
use realtimebattle.Base.{
  ℕ, ◌≡◌, refl, sym, ◌∙◌, false, ◌⊎◌, inl, inr, List, [], ◌∷◌, ◌==◌, ==_iff, none, some, Bool-cases,
  arith,
}
use realtimebattle.Motion.{Shot, remove_shot, shot_at}
use realtimebattle.Motion.Shots.{put_shot}

module _ {ℓ} {W : Type ℓ} where
  -- The shot at the address has left the list or is as it was.
  abbrev pub LeftOrSame : ℕ → List (Shot W) → List (Shot W) → Type ℓ
  LeftOrSame b old new = (shot_at b new ≡ none) ⊎ (shot_at b new ≡ shot_at b old)

  pub shot_at-remove_shot : (a : ℕ) (ss : List (Shot W)) → shot_at a (remove_shot a ss) ≡ none
  shot_at-remove_shot a [] = refl
  shot_at-remove_shot a (s ∷ ss) = elim (Bool-cases (s.address == a)) [
    | inl e ↦ rw e (shot_at-remove_shot a ss)
    | inr e ↦ rw (e, e) (shot_at-remove_shot a ss)
  ]

  pub shot_at-address :
      (a : ℕ) (ss : List (Shot W)) (s : Shot W) → shot_at a ss ≡ some s → s.address ≡ a
  shot_at-address a [] s h = cc
  shot_at-address a (r ∷ ss) s h = ground (arith, shot_at-address a ss s)

  remove_shot-other :
      (a b : ℕ) (ss : List (Shot W))
      → (b == a) ≡ false
      → shot_at b (remove_shot a ss) ≡ shot_at b ss
  remove_shot-other a b [] h = refl
  remove_shot-other a b (s ∷ ss) h = elim (Bool-cases (s.address == a)) [
    | inl e ↦
        let differs : (s.address == b) ≡ false = ground arith in
        rw (e, differs) (remove_shot-other a b ss h)
    | inr e ↦ rw (e, remove_shot-other a b ss h) refl
  ]

  pub remove_shot-LeftOrSame : (a b : ℕ) (ss : List (Shot W)) → LeftOrSame b ss (remove_shot a ss)
  remove_shot-LeftOrSame a b ss = elim (Bool-cases (b == a)) [
    | inl e ↦ inl (
        subst (λ x. shot_at x (remove_shot a ss) ≡ none) (sym ((==_iff b a).0 e))
          (shot_at-remove_shot a ss))
    | inr e ↦ inr (remove_shot-other a b ss e)
  ]

  pub put_shot-other :
      (a b : ℕ) (s' : Shot W) (ss : List (Shot W))
      → s'.address ≡ a
      → (b == a) ≡ false
      → shot_at b (put_shot a s' ss) ≡ shot_at b ss
  put_shot-other a b s' [] e h = refl
  put_shot-other a b s' (s ∷ ss) e h = ground (arith, put_shot-other a b s' ss e h)

  pub put_shot-none :
      (a b : ℕ) (s' : Shot W) (ss : List (Shot W))
      → s'.address ≡ a
      → shot_at b ss ≡ none
      → shot_at b (put_shot a s' ss) ≡ none
  put_shot-none a b s' [] e h = refl
  put_shot-none a b s' (s ∷ ss) e h = ground (arith, put_shot-none a b s' ss e)

  pub shot_at-of-IsNone :
      (a : ℕ) (old new : List (Shot W))
      → LeftOrSame a old new
      → shot_at a old ≡ none
      → shot_at a new ≡ none
  shot_at-of-IsNone a old new (inl h) n = h
  shot_at-of-IsNone a old new (inr h) n = h ∙ n
