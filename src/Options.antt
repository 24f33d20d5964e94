-- ===== src/Options.antt =====
-- include/Options.h and src/Options.cc: the three arrays of options. An array is a list in the
-- order of its enumeration; `Table` has the entries that the constructor writes, `Read` the reader of
-- option files.
pub mod Table
pub mod Read
pub mod Ranges
pub mod Defaults
use Prim.Native.String.{String}
use realtimebattle.Base.{ℕ, Bool, List, Option, some, none, get_elem?}
use realtimebattle.Base.Int.{ℤ, pos}
use realtimebattle.Double.{Double}

pub data DoubleOption : Type 0 where
  grav_const air_resistance roll_friction slide_friction robot_max_acceleration : DoubleOption
  robot_min_acceleration robot_radius robot_mass robot_bounce_coeff : DoubleOption
  robot_hardness robot_protection robot_front_bounce_coeff robot_front_hardness : DoubleOption
  robot_front_protection robot_frontsize robot_start_energy robot_max_energy : DoubleOption
  robot_max_rotate robot_cannon_max_rotate robot_radar_max_rotate shot_radius : DoubleOption
  shot_speed shooting_penalty shot_min_energy shot_max_energy : DoubleOption
  shot_energy_increase_speed cookie_max_energy cookie_min_energy cookie_frequency : DoubleOption
  cookie_radius mine_max_energy mine_min_energy mine_frequency mine_radius : DoubleOption
  arena_scale fast_forward_factor timeout max_timestep timescale update_interval : DoubleOption
  robot_startup_time cpu_start_limit cpu_extra cpu_period cpu_warning_percent : DoubleOption
  check_interval : DoubleOption

pub data LongOption : Type 0 where
  send_robot_coordinates max_robots_allowed robot_energy_levels background_colour : LongOption
  foreground_colour rtb_message_colour cookie_colour mine_colour : LongOption
  log_every_nth_update_interval arena_window_size_x arena_window_size_y : LongOption
  arena_window_pos_x arena_window_pos_y control_window_pos_x control_window_pos_y : LongOption
  message_window_size_x message_window_size_y message_window_pos_x : LongOption
  message_window_pos_y score_window_size_x score_window_size_y score_window_pos_x : LongOption
  score_window_pos_y statistics_window_size_x statistics_window_size_y : LongOption

pub data StringOption : Type 0 where
  robot_search_path arena_search_path tmp_rtb_dir : StringOption

pub data EntryDatatype : Type 0 where
  entry_int entry_double entry_hex entry_char entry_bool : EntryDatatype

pub data Page : Type 0 where
  environment robot shot extras time size_of_windows misc : Page

-- `option_info_t`, without the translated label and the widget.
pub record OptionInfo {ℓ} (A : Type ℓ) : Type ℓ where
  pub datatype : EntryDatatype
  pub page : Page
  pub value : A
  pub default_value : A
  pub min_value : A
  pub max_value : A
  pub max_letters_in_entry : ℕ
  pub broadcast_option : Bool
  pub log_option : Bool
  pub label : String

-- The constructor: value, smallest and largest value in this order; the value is the default too.
abbrev pub option_info {ℓ} :
    {A : Type ℓ} → EntryDatatype → Page → A → A → A → ℕ → Bool → Bool → String → OptionInfo A
option_info t p v mn mx letters bo lo s = record {
  datatype = t;
  page = p;
  value = v;
  default_value = v;
  min_value = mn;
  max_value = mx;
  max_letters_in_entry = letters;
  broadcast_option = bo;
  log_option = lo;
  label = s;
}

pub record Options {ℓ} (W : Type ℓ) : Type ℓ where
  pub all_double_options : List (OptionInfo W)
  pub all_long_options : List (OptionInfo ℤ)
  pub all_string_options : List (OptionInfo String)

abbrev pub double_index : DoubleOption → ℕ
double_index DoubleOption.grav_const = 0
double_index DoubleOption.air_resistance = 1
double_index DoubleOption.roll_friction = 2
double_index DoubleOption.slide_friction = 3
double_index DoubleOption.robot_max_acceleration = 4
double_index DoubleOption.robot_min_acceleration = 5
double_index DoubleOption.robot_radius = 6
double_index DoubleOption.robot_mass = 7
double_index DoubleOption.robot_bounce_coeff = 8
double_index DoubleOption.robot_hardness = 9
double_index DoubleOption.robot_protection = 10
double_index DoubleOption.robot_front_bounce_coeff = 11
double_index DoubleOption.robot_front_hardness = 12
double_index DoubleOption.robot_front_protection = 13
double_index DoubleOption.robot_frontsize = 14
double_index DoubleOption.robot_start_energy = 15
double_index DoubleOption.robot_max_energy = 16
double_index DoubleOption.robot_max_rotate = 17
double_index DoubleOption.robot_cannon_max_rotate = 18
double_index DoubleOption.robot_radar_max_rotate = 19
double_index DoubleOption.shot_radius = 20
double_index DoubleOption.shot_speed = 21
double_index DoubleOption.shooting_penalty = 22
double_index DoubleOption.shot_min_energy = 23
double_index DoubleOption.shot_max_energy = 24
double_index DoubleOption.shot_energy_increase_speed = 25
double_index DoubleOption.cookie_max_energy = 26
double_index DoubleOption.cookie_min_energy = 27
double_index DoubleOption.cookie_frequency = 28
double_index DoubleOption.cookie_radius = 29
double_index DoubleOption.mine_max_energy = 30
double_index DoubleOption.mine_min_energy = 31
double_index DoubleOption.mine_frequency = 32
double_index DoubleOption.mine_radius = 33
double_index DoubleOption.arena_scale = 34
double_index DoubleOption.fast_forward_factor = 35
double_index DoubleOption.timeout = 36
double_index DoubleOption.max_timestep = 37
double_index DoubleOption.timescale = 38
double_index DoubleOption.update_interval = 39
double_index DoubleOption.robot_startup_time = 40
double_index DoubleOption.cpu_start_limit = 41
double_index DoubleOption.cpu_extra = 42
double_index DoubleOption.cpu_period = 43
double_index DoubleOption.cpu_warning_percent = 44
double_index DoubleOption.check_interval = 45

abbrev pub long_index : LongOption → ℕ
long_index LongOption.send_robot_coordinates = 0
long_index LongOption.max_robots_allowed = 1
long_index LongOption.robot_energy_levels = 2
long_index LongOption.background_colour = 3
long_index LongOption.foreground_colour = 4
long_index LongOption.rtb_message_colour = 5
long_index LongOption.cookie_colour = 6
long_index LongOption.mine_colour = 7
long_index LongOption.log_every_nth_update_interval = 8
long_index LongOption.arena_window_size_x = 9
long_index LongOption.arena_window_size_y = 10
long_index LongOption.arena_window_pos_x = 11
long_index LongOption.arena_window_pos_y = 12
long_index LongOption.control_window_pos_x = 13
long_index LongOption.control_window_pos_y = 14
long_index LongOption.message_window_size_x = 15
long_index LongOption.message_window_size_y = 16
long_index LongOption.message_window_pos_x = 17
long_index LongOption.message_window_pos_y = 18
long_index LongOption.score_window_size_x = 19
long_index LongOption.score_window_size_y = 20
long_index LongOption.score_window_pos_x = 21
long_index LongOption.score_window_pos_y = 22
long_index LongOption.statistics_window_size_x = 23
long_index LongOption.statistics_window_size_y = 24

abbrev value_or {ℓ} : {A : Type ℓ} → A → Option (OptionInfo A) → A
value_or a none = a
value_or a (some i) = i.value

-- An index is always inside its array.
unfoldable pub get_d {ℓ} : {W : Type ℓ} ⦃d : Double W⦄ → Options W → DoubleOption → W
get_d ⦃d⦄ o n = value_or (d.lit 0 0) (get_elem? o.all_double_options (double_index n))

unfoldable pub get_l {ℓ} : {W : Type ℓ} → Options W → LongOption → ℤ
get_l o n = value_or (pos 0) (get_elem? o.all_long_options (long_index n))

abbrev pub string_index : StringOption → ℕ
string_index StringOption.robot_search_path = 0
string_index StringOption.arena_search_path = 1
string_index StringOption.tmp_rtb_dir = 2

unfoldable pub get_s {ℓ} : {W : Type ℓ} → Options W → StringOption → String
get_s o n = value_or "" (get_elem? o.all_string_options (string_index n))
