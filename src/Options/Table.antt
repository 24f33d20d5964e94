-- ===== src/Options/Table.antt =====
-- The entries that the constructor of src/Options.cc writes, in the order of the enumerations.
use Prim.Native.String.{String}
use realtimebattle.Base.{true, false, List, [], ◌∷◌, ◌++◌}
use realtimebattle.Base.Int.{ℤ, pos}
use realtimebattle.Double.{Double}
use realtimebattle.Options.{
  Page, entry_int, entry_double, entry_hex, entry_char, OptionInfo, option_info, Options,
}

module _ {ℓ} {W : Type ℓ} ⦃d : Double W⦄ where
  open d use {lit, pi, neg, mul, div}

  unfoldable pub robot_options : List (OptionInfo W)
  robot_options =
      option_info entry_double Page.environment (lit 982 2) (lit 2 1) (lit 20 0) 12 false true
        "Gravitational Constant"
      ∷ option_info entry_double Page.environment (lit 5 3) (lit 0 0) (lit 1 0) 12 false true
          "Air resistance"
      ∷ option_info entry_double Page.environment (lit 2 3) (lit 0 0) (lit 1 0) 12 false true
          "Roll friction"
      ∷ option_info entry_double Page.environment (lit 1 1) (lit 0 0) (lit 5 0) 12 false true
          "Slide/brake friction"
      ∷ option_info entry_double Page.robot (lit 2 0) (lit 1 1) (lit 10 0) 12 true true
          "Robot max acceleration"
      ∷ option_info entry_double Page.robot (neg (lit 5 1)) (neg (lit 10 0)) (lit 0 0) 12 true true
          "Robot min acceleration"
      ∷ option_info entry_double Page.robot (lit 5 1) (lit 1 1) (lit 10 0) 12 false true
          "Robot radius"
      ∷ option_info entry_double Page.robot (lit 1 0) (lit 1 2) (lit 100 0) 12 false true
          "Robot mass"
      ∷ option_info entry_double Page.robot (lit 7 1) (lit 0 0) (lit 1 0) 12 false true
          "Robot bounce coefficient"
      ∷ option_info entry_double Page.robot (lit 5 1) (lit 0 0) (lit 1 0) 12 false true
          "Robot hardness coefficient"
      ∷ option_info entry_double Page.robot (lit 5 1) (lit 0 0) (lit 1 0) 12 false true
          "Robot protection coefficient"
      ∷ option_info entry_double Page.robot (lit 7 1) (lit 0 0) (lit 1 0) 12 false true
          "Robot front bounce coefficient"
      ∷ option_info entry_double Page.robot (lit 9 1) (lit 0 0) (lit 1 0) 12 false true
          "Robot front hardness coefficient"
      ∷ option_info entry_double Page.robot (lit 9 1) (lit 0 0) (lit 1 0) 12 false true
          "Robot front protection coefficient"
      ∷ option_info entry_double Page.robot (div pi (lit 3 0)) (lit 0 0) (mul pi (lit 2 0)) 12 false
          true "Robot frontsize [radians]"
      ∷ option_info entry_double Page.robot (lit 100 0) (lit 1 2) (lit 10_000 0) 12 true true
          "Robot start energy"
      ∷ option_info entry_double Page.robot (lit 120 0) (lit 1 2) (lit 10_000 0) 12 true true
          "Robot max energy"
      ∷ option_info entry_double Page.robot (div (mul (lit 2 0) pi) (lit 8 0))
          (div (mul (lit 2 0) pi) (lit 50 0)) (mul (mul (lit 2 0) pi) (lit 5 0)) 12 true true
          "Robot max rotate speed [rad/s]"
      ∷ option_info entry_double Page.robot (div (mul (lit 2 0) pi) (lit 4 0))
          (div (mul (lit 2 0) pi) (lit 50 0)) (mul (mul (lit 2 0) pi) (lit 5 0)) 12 true true
          "Robot cannon max rotate speed [rad/s]"
      ∷ option_info entry_double Page.robot (div (mul (lit 2 0) pi) (lit 3 0))
          (div (mul (lit 2 0) pi) (lit 50 0)) (mul (mul (lit 2 0) pi) (lit 5 0)) 12 true true
          "Robot radar max rotate speed [rad/s]"
      ∷ []

  unfoldable pub game_options : List (OptionInfo W)
  game_options =
      option_info entry_double Page.shot (lit 1 1) (lit 1 2) (lit 1 0) 12 false true "Shot radius"
      ∷ option_info entry_double Page.shot (lit 10 0) (lit 1 1) (lit 100 0) 12 true true
          "Shot speed"
      ∷ option_info entry_double Page.shot (lit 75 3) (lit 0 0) (lit 1 0) 12 false true
          "Shooting penalty (times shot energy)"
      ∷ option_info entry_double Page.shot (lit 5 1) (lit 0 0) (lit 100 0) 12 true true
          "Shot min energy"
      ∷ option_info entry_double Page.shot (lit 30 0) (lit 0 0) (lit 100_000_000 0) 12 true true
          "Shot max energy"
      ∷ option_info entry_double Page.shot (lit 10 0) (lit 0 0) (lit 100_000_000 0) 12 true true
          "Shot energy increase speed [energy/s]"
      ∷ option_info entry_double Page.extras (lit 15 0) (lit 0 0) (lit 100_000_000 0) 12 false true
          "Cookie max energy"
      ∷ option_info entry_double Page.extras (lit 10 0) (lit 0 0) (lit 100_000_000 0) 12 false true
          "Cookie min energy"
      ∷ option_info entry_double Page.extras (lit 3 2) (lit 0 0) (lit 100_000_000 0) 12 false true
          "Cookie frequency [cookies per second]"
      ∷ option_info entry_double Page.extras (lit 3 1) (lit 1 2) (lit 1 0) 12 false true
          "Cookie radius"
      ∷ option_info entry_double Page.extras (lit 25 0) (lit 0 0) (lit 100_000_000 0) 12 false true
          "Mine max energy"
      ∷ option_info entry_double Page.extras (lit 15 0) (lit 0 0) (lit 100_000_000 0) 12 false true
          "Mine min energy"
      ∷ option_info entry_double Page.extras (lit 6 2) (lit 0 0) (lit 100_000_000 0) 12 false true
          "Mine frequency [mines per second]"
      ∷ option_info entry_double Page.extras (lit 3 1) (lit 1 2) (lit 1 0) 12 false true
          "Mine radius"
      ∷ option_info entry_double Page.misc (lit 1 0) (lit 1 3) (lit 1000 0) 12 false true
          "Arena scale"
      ∷ option_info entry_double Page.misc (lit 5 0) (lit 1 3) (lit 1000 0) 12 false false
          "Fast forward factor"
      ∷ option_info entry_double Page.time (lit 120 0) (lit 1 0) (lit 100_000_000 0) 12 false true
          "Timeout [s]"
      ∷ option_info entry_double Page.time (lit 1 1) (lit 1 3) (lit 1 0) 12 false false
          "Max timestep"
      ∷ option_info entry_double Page.time (lit 1 0) (lit 1 2) (lit 100 0) 12 false false
          "Timescale"
      ∷ option_info entry_double Page.time (lit 5 2) (lit 1 2) (lit 1 0) 12 false false
          "Update interval [s]"
      ∷ option_info entry_double Page.time (lit 2 0) (lit 5 2) (lit 1_000_000 0) 12 false false
          "Robot startup time [s]"
      ∷ option_info entry_double Page.time (lit 5 0) (lit 1 2) (lit 100_000_000 0) 12 false false
          "Start CPU time [s]"
      ∷ option_info entry_double Page.time (lit 25 1) (lit 1 2) (lit 100_000_000 0) 12 false false
          "Extra CPU time [s]"
      ∷ option_info entry_double Page.time (lit 60 0) (lit 1 0) (lit 100_000_000 0) 12 false false
          "Extra CPU period [s]"
      ∷ option_info entry_double Page.time (lit 9 1) (lit 1 1) (lit 1 0) 12 false false
          "CPU time warning percentage"
      ∷ option_info entry_double Page.time (lit 1 0) (lit 1 2) (lit 1_000_000 0) 12 false false
          "Process check interval"
      ∷ []

unfoldable pub long_options : List (OptionInfo ℤ)
long_options =
    option_info entry_int Page.environment (pos 2) (pos 0) (pos 2) 4 true true
      "Send robot coordinates"
    ∷ option_info entry_int Page.misc (pos 120) (pos 1) (pos 10_000) 6 false false
        "Max robots allowed simultaneously"
    ∷ option_info entry_int Page.robot (pos 10) (pos 1) (pos 100) 4 true true "Robot energy levels"
    ∷ option_info entry_hex Page.misc (pos 0xfaf0e6) (pos 0x000000) (pos 0xffffff) 6 false false
        "Background colour"
    ∷ option_info entry_hex Page.misc (pos 0x000000) (pos 0x000000) (pos 0xffffff) 6 false false
        "Foreground colour"
    ∷ option_info entry_hex Page.misc (pos 0x1111ee) (pos 0x000000) (pos 0xffffff) 6 false false
        "Colour for RTB messages"
    ∷ option_info entry_hex Page.extras (pos 0x35d715) (pos 0x000000) (pos 0xffffff) 6 false false
        "Cookie colour"
    ∷ option_info entry_hex Page.extras (pos 0xff0000) (pos 0x000000) (pos 0xffffff) 6 false false
        "Mine colour"
    ∷ option_info entry_int Page.time (pos 1) (pos 1) (pos 1000) 5 false false
        "Logging frequency [Each nth update interval]"
    ∷ option_info entry_int Page.size_of_windows (pos 350) (pos 185) (pos 10_000) 6 false false
        "Initial Arena window width"
    ∷ option_info entry_int Page.size_of_windows (pos 350) (pos 120) (pos 10_000) 6 false false
        "Initial Arena window height"
    ∷ option_info entry_int Page.size_of_windows (pos 0) (pos 0) (pos 10_000) 6 false false
        "Initial Arena window x position"
    ∷ option_info entry_int Page.size_of_windows (pos 0) (pos 0) (pos 10_000) 6 false false
        "Initial Arena window y position"
    ∷ option_info entry_int Page.size_of_windows (pos 0) (pos 0) (pos 10_000) 6 false false
        "Initial Control window x position"
    ∷ option_info entry_int Page.size_of_windows (pos 0) (pos 0) (pos 10_000) 6 false false
        "Initial Control window y position"
    ∷ option_info entry_int Page.size_of_windows (pos 394) (pos 300) (pos 10_000) 6 false false
        "Initial Message window width"
    ∷ option_info entry_int Page.size_of_windows (pos 210) (pos 110) (pos 10_000) 6 false false
        "Initial Message window height"
    ∷ option_info entry_int Page.size_of_windows (pos 0) (pos 0) (pos 10_000) 6 false false
        "Initial Message window x position"
    ∷ option_info entry_int Page.size_of_windows (pos 0) (pos 0) (pos 10_000) 6 false false
        "Initial Message window y position"
    ∷ option_info entry_int Page.size_of_windows (pos 394) (pos 175) (pos 10_000) 6 false false
        "Initial Score window width"
    ∷ option_info entry_int Page.size_of_windows (pos 374) (pos 80) (pos 10_000) 6 false false
        "Initial Score window height"
    ∷ option_info entry_int Page.size_of_windows (pos 0) (pos 0) (pos 10_000) 6 false false
        "Initial Score window x position"
    ∷ option_info entry_int Page.size_of_windows (pos 0) (pos 0) (pos 10_000) 6 false false
        "Initial Score window y position"
    ∷ option_info entry_int Page.size_of_windows (pos 499) (pos 320) (pos 10_000) 6 false false
        "Initial Statistics window width"
    ∷ option_info entry_int Page.size_of_windows (pos 428) (pos 130) (pos 10_000) 6 false false
        "Initial Statistics window height"
    ∷ []

-- `tmp_dir` is $HOME/rtb, or /tmp/rtb where HOME is not set.
unfoldable pub string_options : String → List (OptionInfo String)
string_options tmp_dir =
    option_info entry_char Page.misc "" "" "" 1000 false false "Robot search path"
    ∷ option_info entry_char Page.misc "" "" "" 1000 false false "Arena search path"
    ∷ option_info entry_char Page.misc tmp_dir "" "" 1000 false false
        "Directory for temporary files"
    ∷ []

unfoldable pub default_options {ℓ} : {W : Type ℓ} ⦃d : Double W⦄ → String → Options W
unfolding robot_options game_options long_options string_options
default_options tmp_dir = record {
  all_double_options = robot_options ++ game_options;
  all_long_options = long_options;
  all_string_options = string_options tmp_dir;
}
