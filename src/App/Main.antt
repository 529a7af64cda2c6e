-- ===== src/App/Main.antt =====
-- src/app/main.cc, and the start of App::Run in src/app/app.cc: from the command line to a run.
-- What getopt_long returns is the data of `Command`, with `optarg`. strtol and strtoul are parameters. Exit codes
-- are EXIT_SUCCESS, 0, and EXIT_FAILURE, 1. What is printed is left out.
pub mod Options
use minetest_map_analyzer.Prelude.{
  ℕ, ◌%◌, ◌^◌, ◌||◌, Bool, true, false, List, [], ◌∷◌, str_eq, if◌then◌else◌,
}
use minetest_map_analyzer.Prelude.Int.{ℤ, pos, ◌+ℤ◌, to_u64, signed32}
use minetest_map_analyzer.Exceptions.{Result, ok, bind_result}
use minetest_map_analyzer.Minegeld.{codes}
use minetest_map_analyzer.Pos.{Pos, sort}
use minetest_map_analyzer.Pos.Text.{parse}
use minetest_map_analyzer.NameFilter
use minetest_map_analyzer.NameFilter.{Regex, NameFilter}
use minetest_map_analyzer.App.Config.{Config, MapDriverType, new_config}
use minetest_map_analyzer.App.State.{App, new_app}
use minetest_map_analyzer.App.Preserve.{block_at}
use minetest_map_analyzer.App.Run.{lookup_node_extra_info, preregister_content_ids}

-- The values of `c` in the switch.
pub data Command : Type 0 where
  flag_set help track_minegeld : Command
  max_load_avg threads min_pos max_pos only_pos driver map_file out_file pattern_file stats_file
        radius :
      List ℕ → Command
  unrecognized : ℤ → Command

-- The loop goes on with a Config, or the program exits.
pub data Parsing : Type 0 where
  going : Config → Parsing
  exits : ℕ → Parsing

-- `if (!... .parse(optarg)) exit(EXIT_FAILURE)`
abbrev if_parsed : (Pos → Config) → Bool × Pos → Parsing
if_parsed f (true, p) = going (f p)
if_parsed f (false, p) = exits 1

-- The upper corner that `--pos` sets.
abbrev pub corner_after : Pos → Pos
corner_after p = block_at (p.x +ℤ pos 1) (p.y +ℤ pos 1) (p.z +ℤ pos 1)

-- The names of the drivers.
unfoldable pub set_driver : List ℕ → Config → Parsing
set_driver name config =
    if str_eq name (codes "sqlite")
    then going (record config { driver_type = MapDriverType.sqlite })
    else if str_eq name (codes "postgresql") || str_eq name (codes "pgsql")
    then going (record config { driver_type = MapDriverType.postgresql })
    else exits 1

abbrev pub and_then : Parsing → (Config → Parsing) → Parsing
and_then (going config) f = f config
and_then (exits n) f = exits n

-- `config.min_pos.sort(&config.max_pos)`
abbrev pub sorted : Config → Config
sorted config =
    let (low, high) = sort config.min_pos config.max_pos in
    record config { min_pos = low; max_pos = high }

abbrev is_unset : List ℕ → Bool
is_unset [] = true
is_unset (c ∷ text) = false

-- The checks behind the loop.
unfoldable pub check_config : Bool → Config → Parsing
check_config extra_args config =
    if extra_args
    then exits 1
    else if is_unset config.map_filename
    then exits 1
    else if is_unset config.out_filename
    then exits 1
    else going (sorted config)

module _ (strtol : List ℕ → ℤ) (strtoul : List ℕ → ℕ) where
  -- The switch. A long and an unsigned long are narrowed to int.
  unfoldable pub apply_command : Command → Config → Parsing
  apply_command Command.flag_set config = going config
  apply_command Command.help config = exits 0
  apply_command Command.track_minegeld config = going (record config { track_minegeld = true })
  apply_command (Command.max_load_avg arg) config = going config
  apply_command (Command.threads arg) config =
      going (record config { threads = signed32 (to_u64 (strtol arg) % 2 ^ 32) })
  apply_command (Command.min_pos arg) config =
      if_parsed (λ p. record config { min_pos = p }) (parse arg config.min_pos)
  apply_command (Command.max_pos arg) config =
      if_parsed (λ p. record config { max_pos = p }) (parse arg config.max_pos)
  apply_command (Command.only_pos arg) config =
      if_parsed (λ p. record config { min_pos = p; max_pos = corner_after p })
        (parse arg config.min_pos)
  apply_command (Command.driver arg) config = set_driver arg config
  apply_command (Command.map_file arg) config = going (record config { map_filename = arg })
  apply_command (Command.out_file arg) config = going (record config { out_filename = arg })
  apply_command (Command.pattern_file arg) config = going (record config { pattern_filename = arg })
  apply_command (Command.stats_file arg) config = going (record config { stats_filename = arg })
  apply_command (Command.radius arg) config =
      going (record config { preserve_radius = signed32 (strtoul arg % 2 ^ 32) })
  apply_command (Command.unrecognized c) config = going config

  -- The loop of main
  unfoldable pub command_loop : List Command → Config → Parsing
  command_loop [] config = going config
  command_loop (c ∷ commands) config =
      and_then (apply_command c config) λ config'. command_loop commands config'

  -- main, up to the App: the Config of the run, or the exit code.
  unfoldable pub main_config : List Command → Bool → Parsing
  main_config commands extra_args =
      and_then (command_loop commands (record new_config { threads = pos 1 }))
        λ config. check_config extra_args config

-- App::Run, up to the producer: the filter's file is read where there is a name for it. A file that cannot
-- be read has no lines.
module _ (regex : Regex) (read_file : List ℕ → List ℕ) where
  unfoldable pub load_filter : List ℕ → Result (NameFilter regex)
  load_filter [] = ok (NameFilter.empty regex)
  load_filter (c ∷ pattern_filename) =
      NameFilter.load regex (NameFilter.empty regex) (read_file (c ∷ pattern_filename))

  unfoldable pub start_app : Config → Result (NameFilter regex × App)
  start_app config =
      bind_result (load_filter config.pattern_filename)
        λ filter. ok (filter, preregister_content_ids (lookup_node_extra_info regex filter) new_app)
