-- ===== src/Lib.antt =====
-- RealTimeBattle: a server that runs a tournament between robots, which are programs of their own.
-- The library models parts of the server, in the configuration without graphics (NO_GRAPHICS).
--
-- The parts and their files:
--   * Double, Double/Whole: `double` and <math.h> are parameters, with what IEEE 754 says of the
--     comparisons as laws (NaN compares false). min_rtb, max_rtb and sgn_rtb are those of
--     include/Various.h. Whole is an instance on which the theorems are tried.
--   * Input, Input/Tokens: the streams that files and messages are read from, parameters too, and an
--     instance. What a failed read leaves in a `double` or an `int` is a function of the stream.
--   * Vector2D: src/Vector2D.cc. Shapes: src/GeometricalObjects.cc, the four shapes with get_distance,
--     within_distance and get_normal; Shapes/Distance has the theorems.
--   * ObjectLists: the searches of src/ArenaBase.cc over the object lists (get_shortest_distance,
--     space_available, find_object_by_id); ObjectLists/Shortest has the theorems.
--   * ArenaFile: parse_arena_line of src/ArenaBase.cc, with the poly_curve in ArenaFile/Curve, and
--     parse_arena_file of src/ArenaRealTime.cc in ArenaFile/Lines. Growth, Sound, Curve/Adds and
--     Curve/Ends have the theorems. What a line can change is the record Plan.
--   * Options: the option tables of src/Options.cc (Table), read_options_file (Read); Ranges and
--     Defaults have the theorems.
--   * Schedule: the sequences of a tournament, start_tournament of src/ArenaRealTime.cc with binomial
--     of src/Various.cc. Complete rounds are in Schedule, with Rounds, Count and Complete; the matches
--     left over are in Rest, with Fair, Draws and Inside; Shuffle is reorder_pointer_array of src/Various.cc, and
--     Table puts the rows together, with the theorems in Table/Made.
--   * Rotation: rotation_t of include/Structs.h, update_rotation and the messages ROTATE, ROTATE_TO,
--     ROTATE_AMOUNT and SWEEP of src/Robot.cc; UnderWay, Limits and Messages have the theorems.
--   * Names: check_name_uniqueness of src/Robot.cc; Names/Unique has the theorems.
--   * Robot: the members of a robot that games change, with die, set_stats, change_energy, bounce_on_wall,
--     bounce_on_robot, change_velocity and their like of src/Robot.cc; Robot/Vital has the theorems.
--   * Arena: the state of src/ArenaBase.cc and its small operations. Arena/Placing: the places of robots,
--     and Host. Arena/Games: start_game, end_game, the sequences and the tournament of
--     src/ArenaRealTime.cc. Arena/Ticks: timeout_function, and the buttons of src/ControlWindow.cc. A
--     pointer to a robot is a number, and the arena has a function from numbers to robots. Arena/Control
--     is the part that says how far a tournament is. Kept, Consistent, Runs, Reach, Pause and Scores have the
--     theorems on what is kept; Order, Course and Refines those on the order of games, where Course is
--     the abstract course of a tournament.
--   * Motion: the object lists and the robots as one field, and Robot::move of src/Robot.cc; Motion/Shots:
--     src/Shot.cc and move_shots of src/ArenaBase.cc; Motion/Shooting: what SHOOT does in get_messages of
--     src/Robot.cc; Motion/Rounds: a round of a game, update of src/ArenaRealTime.cc, which puts these
--     together. Motion/Ahead has what the searches find, and Motion/Kept, Motion/Ends, Motion/Shots/Alive,
--     Motion/Shooting/Fired and Motion/Rounds/Sound have the theorems.
--   * Messages: the table of include/Messagetypes.h, and get_messages of src/Robot.cc with
--     name2msg_from_robot_type and check_state_for_message; Messages/Names and Messages/Limits have the
--     theorems.
--   * Replay: what the lines of a log change in src/ArenaReplay.cc. Replay/Lines: parse_log_line_forward and
--     parse_log_line_rewind, on lines that have been read; Replay/Positions: get_time_positions_in_game,
--     find_streampos_for_time, step_forward up to the entry that it goes to, and change_game up to the
--     place in the log. Undo, Revived, Positions/Search and Positions/Times have the theorems.
--   * Colours: find_free_colour, is_colour_allowed and colour_dist of src/ArenaRealTime.cc; Colours/Apart
--     has the theorem.
--   * Chars: texts as lists of the codes of their characters. Directories: the search for the files of
--     robots and arenas in src/Various.cc (split_colonseparated_dirs, search_directories,
--     check_for_robots_and_arenas); Split, Found and Short have the theorems.
--   * TournamentFile: parse_tournament_file of src/Various.cc; Words and Sound have its proof, and Played leads from
--     the file to start_tournament. LogFile: check_logfile of src/Various.cc; Lines has the theorem.
--   * Base: the names and lemmas that the others share. Tests: the theorems at concrete inputs.
--
-- An arena file fills the object lists that the searches read; the shapes in them answer by
-- get_distance. The options give the arena's scale and the greatest speeds of rotation. A tick of the
-- arena starts, ends and scores games; a game reads its arena file and puts the robots where the
-- searches find space; the table of sequences says which robots play. A tournament file says which
-- files are robots and arenas, and what it starts is what start_tournament asks for.
--
-- What the arena runs on is a parameter: the files, rand(), the timer, what a robot's messages make of it
-- before it is placed, and whether find_free_colour has a colour for it (Host); and the parts of the server
-- that a tick calls (Calls): the motion of robots and shots, what robots say while they start and while they
-- end, the check of their processes, and what the tournament file gives. The motion, the messages and the
-- colours may be a fatal error. Each of these parts is modelled by itself: a round of the motion on a field
-- that is part of the arena, where what a robot asks for is a parameter; the messages in Messages; the colours
-- in Colours. The file system is a parameter of the searches (FileSystem), and so is what a stream makes of a
-- number. get_messages takes the number of robots left and two constants of the system (Outside). A result
-- says whether the code returns, ends in a fatal error, quits, or reads a file for ever.
--
-- Fuel: read_options takes fuel, and more than the rest of the file is enough. curve_loop takes fuel
-- and says where it is without it; as much as the rest of the file is enough, unless the file ends
-- inside the curve. parse_lines takes fuel for the lines besides. rand() is a list of the values that
-- it will return, and `starved` says that the list was too short. find_free_colour takes fuel, and
-- twelve rounds are enough, as double arithmetic brings 0.1 below 0.01 in eleven; there rand() is a
-- function from the number of the call. get_messages takes a number of rounds, and is the loop after at
-- most so many. start_game bounds the lines and curves of an arena file, and is `endless` where that is
-- too few. split_colonseparated_dirs, parse_tournament_file and check_logfile have as much fuel as their
-- text has characters and one more, which is proved to be enough.
--
-- The motion of a robot takes 66 calls at most, which is proved to be enough.
--
-- Not modelled: what is sent to robots, what is written to log files, processes, network and windows, the
-- client programs, and the copies of gettext and getopt. Of a replay, the reads from the log and the search in
-- it, the lists that are made again after a jump (recreate_lists), the clock and the motion of shots.
pub mod Base
pub mod Double
pub mod Vector2D
pub mod Shapes
pub mod ObjectLists
pub mod Input
pub mod Options
pub mod Schedule
pub mod ArenaFile
pub mod Rotation
pub mod Names
pub mod Robot
pub mod Arena
pub mod Colours
pub mod Chars
pub mod Directories
pub mod TournamentFile
pub mod LogFile
pub mod Motion
pub mod Messages
pub mod Replay
mod Tests
