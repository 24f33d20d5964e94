-- ===== src/Replay/Undo.antt =====
-- Lines of a log that are played and then rewound: parse_log_line_forward and parse_log_line_rewind of
-- src/ArenaReplay.cc.
use realtimebattle.Base.{◌≡◌, refl, sym, ap, ◌∙◌, List, [], ◌∷◌, ◌++◌, none, some}
use realtimebattle.Base.Int.{ℤ}
use realtimebattle.Double.{Double, ◌≺◌}
use realtimebattle.Vector2D.{Vector2D, ◌+ᵥ◌, ◌*ᵥ◌}
use realtimebattle.Options.{Options}
use realtimebattle.Replay.{
  Kind, shot, cookie, mine, Piece, logged, ObjectPosInfo, Replay, pieces, with_pieces, find_piece,
  erase_piece, find_object_in_log,
}
use realtimebattle.Replay.Lines.{
  LogLine, robot_line, new_line, robot_dies, piece_dies, unknown_dies, parsed, put_piece,
  drop_piece, place_of, restore_piece, parse_log_line_forward, parse_log_line_rewind,
}
use realtimebattle.Replay.Pieces.{
  erase-append, find-restored, with_pieces_same, pieces_of_with, with_pieces_twice,
}

module _ {ℓ} {W : Type ℓ} where
  -- The two replays differ at most in the order of shots, cookies and mines: by each id the same is found.
  abbrev pub Alike : Replay W → Replay W → Type ℓ
  Alike r s =
      (record s { shots = r.shots; cookies = r.cookies; mines = r.mines } ≡ r)
      × ((k : Kind) (q : ℤ) → find_piece q (pieces k s) ≡ find_piece q (pieces k r))

  with_pieces-Alike :
      (k : Kind) (ps : List (Piece W)) (r : Replay W)
      → ((q : ℤ) → find_piece q ps ≡ find_piece q (pieces k r))
      → Alike r (with_pieces k ps r)
  with_pieces-Alike shot ps r h = (
    refl,
    λ k q.
        elim k
          as (λ k. find_piece q (pieces k (with_pieces shot ps r)) ≡ find_piece q (pieces k r)) [
            | shot ↦ h q
            | cookie ↦ refl
            | mine ↦ refl
          ],
  )
  with_pieces-Alike cookie ps r h = (
    refl,
    λ k q.
        elim k
          as (λ k. find_piece q (pieces k (with_pieces cookie ps r)) ≡ find_piece q (pieces k r)) [
            | shot ↦ refl
            | cookie ↦ h q
            | mine ↦ refl
          ],
  )
  with_pieces-Alike mine ps r h = (
    refl,
    λ k q.
        elim k
          as (λ k. find_piece q (pieces k (with_pieces mine ps r)) ≡ find_piece q (pieces k r)) [
            | shot ↦ refl
            | cookie ↦ refl
            | mine ↦ h q
          ],
  )

module _ {ℓ} {W : Type ℓ} ⦃d : Double W⦄ (o : Options W) where
  open d use {lit, add, sub}

  log_of_with :
      (k : Kind) (ps : List (Piece W)) (r : Replay W)
      → (with_pieces k ps r).object_positions_in_log ≡ r.object_positions_in_log
  log_of_with shot ps r = refl
  log_of_with cookie ps r = refl
  log_of_with mine ps r = refl

  place_of_with :
      (j k : Kind) (info : ObjectPosInfo W) (ps : List (Piece W)) (r : Replay W)
      → place_of o j info (with_pieces k ps r) ≡ place_of o j info r
  unfolding place_of
  place_of_with shot shot info ps r = refl
  place_of_with shot cookie info ps r = refl
  place_of_with shot mine info ps r = refl
  place_of_with cookie k info ps r = refl
  place_of_with mine k info ps r = refl

  drop-put :
      (k : Kind) (p : Piece W) (r : Replay W)
      → find_piece p.id (pieces k r) ≡ none
      → drop_piece k p.id (put_piece k p r) ≡ r
  unfolding drop_piece put_piece
  drop-put k p r new =
      let qs = pieces k r ++ (p ∷ []) in
      ap (λ ps. with_pieces k (erase_piece p.id ps) (with_pieces k qs r)) (pieces_of_with k qs r)
      ∙ with_pieces_twice k (erase_piece p.id qs) qs r
      ∙ ap (λ ps. with_pieces k ps r) (erase-append p.id (pieces k r) p new refl)
      ∙ with_pieces_same k r

  put-drop :
      (k : Kind) (id : ℤ) (p : Piece W) (r : Replay W)
      → put_piece k p (drop_piece k id r)
        ≡ with_pieces k (erase_piece id (pieces k r) ++ (p ∷ [])) r
  unfolding drop_piece put_piece
  put-drop k id p r =
      let qs = erase_piece id (pieces k r) in
      ap (λ ps. with_pieces k (ps ++ (p ∷ [])) (with_pieces k qs r)) (pieces_of_with k qs r)
      ∙ with_pieces_twice k (qs ++ (p ∷ [])) qs r

  restore-drop :
      (k : Kind) (id : ℤ) (info : ObjectPosInfo W) (r : Replay W)
      → find_object_in_log (logged k) id r.object_positions_in_log ≡ some info
      → info.start_time ≺ info.end_time
      → restore_piece o k id (drop_piece k id r)
        ≡ parsed (put_piece k (place_of o k info r) (drop_piece k id r))
  unfolding restore_piece drop_piece
  restore-drop k id info r noted before =
      let qs = erase_piece id (pieces k r) in
      let same : find_object_in_log (logged k) id (with_pieces k qs r).object_positions_in_log
          ≡ some info =
        ap (find_object_in_log (logged k) id) (log_of_with k qs r) ∙ noted in
      rw (same, restore_piece)
        (rw before
          (ap (λ p. parsed (put_piece k p (with_pieces k qs r))) (place_of_with k k info qs r)))

  -- Where the notes on the log put a piece at a time: shots have flown on from where they came.
  abbrev pub noted_at : Kind → ObjectPosInfo W → W → Piece W
  noted_at shot info now = record {
    id = info.id;
    center = info.position +ᵥ info.vel *ᵥ sub now info.start_time;
    velocity = info.vel;
  }
  noted_at cookie info now = record { id = info.id; center = info.position; velocity = info.vel }
  noted_at mine info now = record { id = info.id; center = info.position; velocity = info.vel }

  place_of-noted_at :
      (k : Kind) (info : ObjectPosInfo W) (r : Replay W)
      → place_of o k info r ≡ noted_at k info r.current_replay_time
  unfolding place_of
  place_of-noted_at shot info r = refl
  place_of-noted_at cookie info r = refl
  place_of-noted_at mine info r = refl

  -- A line that can be rewound: what comes is not there yet; or what dies is there once, the notes on the log have when it came, that was
  -- before it dies, and it is where they say.
  pub data IsUndoable : LogLine W → Replay W → Type ℓ where
    comes :
        {k : Kind} {id : ℤ} {c v : Vector2D W} {r : Replay W}
        → find_piece id (pieces k r) ≡ none
        → IsUndoable (new_line k id c v) r
    dies :
        {k : Kind} {id : ℤ} {r : Replay W} {info : ObjectPosInfo W}
        → find_piece id (pieces k r) ≡ some (noted_at k info r.current_replay_time)
        → find_piece id (erase_piece id (pieces k r)) ≡ none
        → find_object_in_log (logged k) id r.object_positions_in_log ≡ some info
        → info.start_time ≺ info.end_time
        → IsUndoable (piece_dies k id) r

  -- A line that brings a shot, a cookie or a mine that is not there yet, or takes one that is there once, that came before it
  -- died, and that is where the notes on the log put it (a shot has flown on from where it came, by its velocity): played and
  -- then rewound, the line gives no error, and leaves the replay as it was but for the order of the shots, cookies and
  -- mines: by each id the same is found, at the same place.
  pub rewind-forward :
      (l : LogLine W) (r : Replay W)
      → IsUndoable l r
      → (s t : Replay W) × (parse_log_line_forward o l r ≡ parsed s)
        × (parse_log_line_rewind o l s ≡ parsed t)
        × Alike r t
  unfolding parse_log_line_forward parse_log_line_rewind
  rewind-forward (new_line k id c v) r (comes new) =
      let p : Piece W = record { id = id; center = c; velocity = v } in
      (put_piece k p r, r, refl, ap parsed (drop-put k p r new), (refl, λ j q. refl))
  rewind-forward (piece_dies k id) r (dies {info = info} here once noted before) =
      let p = place_of o k info r in
      let ps = erase_piece id (pieces k r) ++ (p ∷ []) in
      (
        drop_piece k id r,
        with_pieces k ps r,
        refl,
        restore-drop k id info r noted before ∙ ap parsed (put-drop k id p r),
        with_pieces-Alike k ps r (λ q.
            find-restored id q (pieces k r) p (here ∙ ap some (sym (place_of-noted_at k info r)))
              once),
      )
  rewind-forward (robot_line id at) r h = elim h [ ]
  rewind-forward (robot_dies id pnts place) r h = elim h [ ]
  rewind-forward (unknown_dies id) r h = elim h [ ]
