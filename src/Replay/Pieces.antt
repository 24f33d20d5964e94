-- ===== src/Replay/Pieces.antt =====
-- Lines of a log that are played and then rewound: parse_log_line_forward and parse_log_line_rewind of
-- src/ArenaReplay.cc.
use realtimebattle.Base.{
  ◌≡◌, refl, sym, ap, ◌∙◌, inl, inr, true, false, List, [], ◌∷◌, ◌++◌, none, some, if◌then◌else◌,
  Bool-cases, arith,
}
use mathlib.Core.Option.{some-injective}
use realtimebattle.Base.Int.{ℤ, pos, negsuc}
use realtimebattle.Replay.{
  Kind, shot, cookie, mine, Piece, Replay, eq_id, pieces, with_pieces, find_piece, erase_piece,
}

eq_id_refl : (a : ℤ) → eq_id a a ≡ true
unfolding eq_id
eq_id_refl (pos n) = ground arith
eq_id_refl (negsuc n) = ground arith

eq_id-eq : (a b : ℤ) → eq_id a b ≡ true → a ≡ b
unfolding eq_id
eq_id-eq a b h = ground arith

module _ {ℓ} {W : Type ℓ} where
  pub erase-append :
      (id : ℤ) (ps : List (Piece W)) (p : Piece W)
      → find_piece id ps ≡ none
      → p.id ≡ id
      → erase_piece id (ps ++ (p ∷ [])) ≡ ps
  unfolding find_piece erase_piece
  erase-append id [] p h e = rw e (rw (eq_id_refl id) refl)
  erase-append id (q ∷ ps) p h e = elim (Bool-cases (eq_id q.id id)) [
    | inl same ↦ cc (sym h ∙ ap (λ c. if c then some q else find_piece id ps) same)
    | inr differs ↦ rw differs (
        ap (λ l. q ∷ l)
          (erase-append id ps p (sym (ap (λ c. if c then some q else find_piece id ps) differs) ∙ h)
            e))
  ]

  -- What is found once the piece that was found first is put at the end.
  find-append :
      (q : ℤ) (ps : List (Piece W)) (p : Piece W)
      → find_piece q (ps ++ (p ∷ []))
        ≡ elim (find_piece q ps) [ some c ↦ some c | none ↦ if eq_id p.id q then some p else none ]
  unfolding find_piece
  find-append q [] p = refl
  find-append q (c ∷ ps) p = elim (Bool-cases (eq_id c.id q)) [
    | inl same ↦ rw (same, find_piece) refl
    | inr differs ↦ rw (differs, find_piece) (find-append q ps p)
  ]

  find-id : (q : ℤ) (ps : List (Piece W)) (c : Piece W) → find_piece q ps ≡ some c → c.id ≡ q
  unfolding find_piece
  find-id q [] c h = cc
  find-id q (p ∷ ps) c h = elim (Bool-cases (eq_id p.id q)) [
    | inl same ↦
        let found : p ≡ c =
          some-injective p c (sym (ap (λ b. if b then some p else find_piece q ps) same) ∙ h) in
        sym (ap (λ (x : Piece W). x.id) found) ∙ eq_id-eq p.id q same
    | inr differs ↦
        find-id q ps c (sym (ap (λ b. if b then some p else find_piece q ps) differs) ∙ h)
  ]

  find-erase :
      (id q : ℤ) (ps : List (Piece W))
      → eq_id id q ≡ false
      → find_piece q (erase_piece id ps) ≡ find_piece q ps
  unfolding find_piece erase_piece
  find-erase id q [] h = refl
  find-erase id q (p ∷ ps) h = elim (Bool-cases (eq_id p.id id)) [
    | inl same ↦ rw same (
        sym (
          ap (λ b. if b then some p else find_piece q ps)
            (ap (λ x. eq_id x q) (eq_id-eq p.id id same) ∙ h)))
    | inr differs ↦ rw differs (ap (λ x. if eq_id p.id q then some p else x) (find-erase id q ps h))
  ]

  -- What is taken off and put at the end again is found as before.
  pub find-restored :
      (id q : ℤ) (ps : List (Piece W)) (c : Piece W)
      → find_piece id ps ≡ some c
      → find_piece id (erase_piece id ps) ≡ none
      → find_piece q (erase_piece id ps ++ (c ∷ [])) ≡ find_piece q ps
  find-restored id q ps c here once =
      find-append q (erase_piece id ps) c ∙ elim (Bool-cases (eq_id id q)) [
        | inl same ↦ ground (arith, eq_id-eq id q same, find-id id ps c here)
        | inr differs ↦ ground (arith, find-erase id q ps differs, find-id id ps c here)
      ]

  pub with_pieces_same : (k : Kind) (r : Replay W) → with_pieces k (pieces k r) r ≡ r
  with_pieces_same shot r = refl
  with_pieces_same cookie r = refl
  with_pieces_same mine r = refl

  pub pieces_of_with :
      (k : Kind) (ps : List (Piece W)) (r : Replay W) → pieces k (with_pieces k ps r) ≡ ps
  pieces_of_with shot ps r = refl
  pieces_of_with cookie ps r = refl
  pieces_of_with mine ps r = refl

  pub with_pieces_twice :
      (k : Kind) (ps qs : List (Piece W)) (r : Replay W)
      → with_pieces k ps (with_pieces k qs r) ≡ with_pieces k ps r
  with_pieces_twice shot ps qs r = refl
  with_pieces_twice cookie ps qs r = refl
  with_pieces_twice mine ps qs r = refl
