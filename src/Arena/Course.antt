-- ===== src/Arena/Course.antt =====
-- The course of a tournament, without the details of src/ArenaRealTime.cc: games in their order, and
-- sequences in theirs. The ticks and buttons of the arena follow it.
use realtimebattle.Base.{ℕ, ◌+◌, ◌≤◌, ◌<◌, ◌≡◌, refl, inl, inr, Bool, true, false, arith}
use realtimebattle.Arena.{
  State, no_state, not_started, starting_robots, game_in_progress, pausing_between_games, paused,
  before_game_start, shutting_down_robots, finished, exiting,
}
use realtimebattle.Arena.Control.{Control}
use realtimebattle.Arena.Order.{Begun, Ended, Followed}

-- `between s g`: in sequence s, after g of its games; `playing s g`: in its g-th game.
pub data Phase : Type 0 where
  idle over nowhere : Phase
  between playing : ℕ → ℕ → Phase
  closing : ℕ → Phase

-- The moves, for a tournament of `sequences` sequences of `games` games, where `unable` says that the first game of
-- a sequence has to be begun and cannot be.
pub data Follows (unable : Bool) (games sequences : ℕ) : Phase → Phase → Type 0 where
  stay : {p : Phase} → Follows unable games sequences p p
  begin : {s g : ℕ} → g < games → Follows unable games sequences (between s g) (playing s (g + 1))
  rest : {s g : ℕ} → g < games → Follows unable games sequences (playing s g) (between s g)
  next : {s g : ℕ} → g < games → Follows unable games sequences (playing s g) (playing s (g + 1))
  close : {s g : ℕ} → g ≡ games → Follows unable games sequences (playing s g) (closing s)
  launch : {s : ℕ} → s < sequences → Follows unable games sequences (closing s) (between (s + 1) 0)
  finish : {s : ℕ} → s ≡ sequences → Follows unable games sequences (closing s) over
  -- the sequence's first game cannot be started
  abandon :
      {s g : ℕ} → unable ≡ true → Follows unable games sequences (between s g) (closing sequences)

abbrev pub view : State → ℕ → ℕ → Phase
view no_state s g = nowhere
view not_started s g = idle
view starting_robots s g = between s g
view game_in_progress s g = playing s g
view pausing_between_games s g = between s g
view paused s g = playing s g
view before_game_start s g = between s g
view shutting_down_robots s g = closing s
view finished s g = over
view exiting s g = nowhere

abbrev pub view_of : Control → Phase
view_of c = view c.state c.sequence_nr c.game_nr

-- One move, in the same tournament. Where the first game cannot be begun, the sequence is closed with the tournament.
abbrev pub Moves : Bool → Control → Control → Type 0
Moves unable c c' =
    (c'.games_per_sequence ≡ c.games_per_sequence)
    × (c'.sequences_in_tournament ≡ c.sequences_in_tournament)
    × (unable ≡ true → view_of c' ≡ closing c.sequences_in_tournament)
    × Follows unable c.games_per_sequence c.sequences_in_tournament (view_of c) (view_of c')

never : {A : Type 0} → false ≡ true → A
never e = cc

on_eq : {u : Bool} (c : Control) {x y : Control} → x ≡ y → Moves u c y → Moves u c x
on_eq c e m = rw e m

pub Moves-unmoved : (c c' : Control) → c' ≡ c → Moves false c c'
Moves-unmoved c c' e = on_eq c e (refl, refl, never, stay)

abbrev IsFrom : Phase → Control → Type 0
IsFrom p c = view_of c ≡ p

pub Begun-between :
    (c c' : Control)
    → c.game_nr < c.games_per_sequence
    → IsFrom (between c.sequence_nr c.game_nr) c
    → Begun c c'
    → Moves false c c'
Begun-between c c' lt v (inl e) = on_eq c e (refl, refl, never, rw v stay)
Begun-between c c' lt v (inr (inl e)) = Moves-unmoved c c' e
Begun-between c c' lt v (inr (inr (inl e))) = on_eq c e (refl, refl, never, rw v stay)
Begun-between c c' lt v (inr (inr (inr e))) = on_eq c e (refl, refl, never, rw v (begin lt))

pub Begun-playing :
    (c c' : Control)
    → c.game_nr < c.games_per_sequence
    → IsFrom (playing c.sequence_nr c.game_nr) c
    → Begun c c'
    → Moves false c c'
Begun-playing c c' lt v (inl e) = on_eq c e (refl, refl, never, rw v (rest lt))
Begun-playing c c' lt v (inr (inl e)) = Moves-unmoved c c' e
Begun-playing c c' lt v (inr (inr (inl e))) = on_eq c e (refl, refl, never, rw v (rest lt))
Begun-playing c c' lt v (inr (inr (inr e))) = on_eq c e (refl, refl, never, rw v (next lt))

pub halted-playing :
    (c c' : Control)
    → IsFrom (playing c.sequence_nr c.game_nr) c
    → c' ≡ record c { state = paused }
    → Moves false c c'
halted-playing c c' v e = on_eq c e (refl, refl, never, rw v stay)

pub Ended-playing :
    (c c' : Control)
    → c.game_nr ≤ c.games_per_sequence
    → IsFrom (playing c.sequence_nr c.game_nr) c
    → Ended c c'
    → Moves false c c'
Ended-playing c c' le v (inl (last, e)) = on_eq c e (refl, refl, never, rw v (close last))
Ended-playing c c' le v (inr (more, b)) = Begun-playing c c' (ground arith) v b

pub Ended-between :
    (c c' : Control)
    → c.game_nr < c.games_per_sequence
    → IsFrom (between c.sequence_nr c.game_nr) c
    → Ended c c'
    → Moves false c c'
Ended-between c c' lt v (inl (last, e)) = absurd (omega arith)
Ended-between c c' lt v (inr (more, b)) = Begun-between c c' lt v b

pub Ended-closing :
    (c c' : Control)
    → c.game_nr ≡ c.games_per_sequence
    → IsFrom (closing c.sequence_nr) c
    → Ended c c'
    → Moves false c c'
Ended-closing c c' last v (inl (same, e)) = on_eq c e (refl, refl, never, rw v stay)
Ended-closing c c' last v (inr (more, b)) = absurd (ground arith)

pub Followed-closing :
    (c c' : Control)
    → c.sequence_nr ≤ c.sequences_in_tournament
    → IsFrom (closing c.sequence_nr) c
    → Followed c c'
    → Moves false c c'
Followed-closing c c' within v (inl (last, e)) = on_eq c e (refl, refl, never, rw v (finish last))
Followed-closing c c' within v (inr (more, e)) =
    on_eq c e (refl, refl, never, rw v (launch (ground arith)))

Begun-same :
    (c c' : Control)
    → Begun c c'
    → (c'.games_per_sequence ≡ c.games_per_sequence)
      × (c'.sequences_in_tournament ≡ c.sequences_in_tournament)
Begun-same c c' (inl e) = rw e (refl, refl)
Begun-same c c' (inr (inl e)) = rw e (refl, refl)
Begun-same c c' (inr (inr (inl e))) = rw e (refl, refl)
Begun-same c c' (inr (inr (inr e))) = rw e (refl, refl)

-- The first game of a sequence could not be begun, and the sequence is closed with the tournament.
pub Ended-abandon :
    (c c1 c' : Control)
    → IsFrom (between c.sequence_nr c.game_nr) c
    → Begun c c1
    → Ended
        (record c1 { game_nr = c1.games_per_sequence; sequence_nr = c1.sequences_in_tournament })
        c'
    → Moves true c c'
Ended-abandon c c1 c' v b (inr (more, b')) = absurd (ground arith)
Ended-abandon c c1 c' v b (inl (same, e)) =
    let (games, sequences) : (c1.games_per_sequence ≡ c.games_per_sequence)
        × (c1.sequences_in_tournament ≡ c.sequences_in_tournament) =
      Begun-same c c1 b in
    on_eq c e (games, sequences, λ u. rw sequences refl, rw v (rw sequences (abandon refl)))
