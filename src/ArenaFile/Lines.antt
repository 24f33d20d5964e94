-- ===== src/ArenaFile/Lines.antt =====
-- A line of an arena file by its keyword, and the loop over the lines: `parse_arena_line` of
-- src/ArenaBase.cc and `parse_arena_file` of src/ArenaRealTime.cc, without the copy to the log.
use Prim.Native.String.{String}
use text.Mathlib.Text.{◌==◌ as str_eq}
use realtimebattle.Base.{ℕ, zero, suc, not, Option, some, none, if◌then◌else◌}
use realtimebattle.Double.{Double}
use realtimebattle.Input.{Input, DoubleInput}
use realtimebattle.ArenaFile.{
  Plan, Parsed, accept, refuse, parse_scale, parse_angle_unit, parse_boundary,
  parse_exclusion_point, parse_inner_circle, parse_circle, parse_arc, parse_line, parse_polygon,
  parse_closed_polygon,
}
use realtimebattle.ArenaFile.Curve.{Turn, ends, goes_on, parse_poly_curve}

pub data Keyword : Type 0 where
  scale angle_unit boundary exclusion_point inner_circle circle arc : Keyword
  line polygon closed_polygon poly_curve blank unknown : Keyword

-- The chain of `strcmp(text, ...)`.
unfoldable pub keyword : String → Keyword
keyword text =
    if str_eq text "scale"
    then scale
    else if str_eq text "angle_unit"
    then angle_unit
    else if str_eq text "boundary"
    then boundary
    else if str_eq text "exclusion_point"
    then exclusion_point
    else if str_eq text "inner_circle"
    then inner_circle
    else if str_eq text "circle"
    then circle
    else if str_eq text "arc"
    then arc
    else if str_eq text "line"
    then line
    else if str_eq text "polygon"
    then polygon
    else if str_eq text "closed_polygon"
    then closed_polygon
    else if str_eq text "poly_curve"
    then poly_curve
    else if str_eq text ""
    then blank
    else unknown

module _ {ℓ κ} {W : Type ℓ} {S : Type κ} ⦃d : Double W⦄ ⦃inp : Input S⦄
    ⦃dbl : DoubleInput W S⦄ where
  unfoldable pub parse_rest : ℕ → Keyword → Plan W → S → Turn W S
  unfolding parse_scale parse_angle_unit parse_boundary parse_exclusion_point parse_inner_circle
      parse_circle parse_arc parse_line parse_polygon parse_closed_polygon parse_poly_curve
  parse_rest fuel scale p s = ends (parse_scale p s)
  parse_rest fuel angle_unit p s = ends (parse_angle_unit p s)
  parse_rest fuel boundary p s = ends (parse_boundary p s)
  parse_rest fuel exclusion_point p s = ends (parse_exclusion_point p s)
  parse_rest fuel inner_circle p s = ends (parse_inner_circle p s)
  parse_rest fuel circle p s = ends (parse_circle p s)
  parse_rest fuel arc p s = ends (parse_arc p s)
  parse_rest fuel line p s = ends (parse_line p s)
  parse_rest fuel polygon p s = ends (parse_polygon p s)
  parse_rest fuel closed_polygon p s = ends (parse_closed_polygon p s)
  parse_rest fuel poly_curve p s = parse_poly_curve fuel p s
  parse_rest fuel blank p s = ends (accept p s)
  parse_rest fuel unknown p s = ends (refuse p s)

  unfoldable pub parse_arena_line : ℕ → Plan W → S → Turn W S
  unfolding parse_rest keyword
  parse_arena_line fuel p s =
      let (text, s1) = inp.get_text 20 32 (inp.skip_ws s) in parse_rest fuel (keyword text) p s1

  -- After a line: stop if it was refused or the file is at its end. In a curve without end, `none`.
  abbrev pub continue_lines : (Plan W → S → Option (Parsed W S)) → Turn W S → Option (Parsed W S)
  continue_lines next (goes_on pen p' s') = none
  continue_lines next (ends r) =
      if not r.ok then some r else if inp.eof r.file then some r else next r.plan r.file

  -- The do-while loop, with the arena that it leaves. `lines` bounds the lines, `fuel` those of a curve.
  unfoldable pub parse_lines : ℕ → ℕ → Plan W → S → Option (Parsed W S)
  unfolding parse_arena_line
  parse_lines zero fuel p s = none
  parse_lines (suc lines) fuel p s =
      let next = parse_lines lines fuel in
      if not (inp.good s)
      then some (refuse p s)
      else continue_lines next (parse_arena_line fuel p s)

  -- `parse_arena_file` on an open file and the arena as it is before.
  unfoldable pub parse_arena_file : ℕ → ℕ → W → Plan W → S → Option (Parsed W S)
  unfolding parse_lines
  parse_arena_file lines fuel arena_scale p s =
      parse_lines lines fuel
        (record p { succession = 1; scale = arena_scale; angle_factor = d.lit 1 0 }) s
