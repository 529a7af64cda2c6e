-- ===== src/Tests/Options.antt =====
-- The options of the command line.
use minetest_map_analyzer.Prelude.{ℕ, ◌≡◌, ◌↔◌, true, false, List, [], ◌∷◌, arith}
use minetest_map_analyzer.Prelude.Int.{ℤ, pos, negsuc}
use minetest_map_analyzer.Minegeld.{codes}
use minetest_map_analyzer.Pos.{Pos, inside}
use minetest_map_analyzer.Pos.Text.{str}
use minetest_map_analyzer.App.Config.{Config}
use minetest_map_analyzer.App.Main.{Command, going, main_config}
use minetest_map_analyzer.App.Main.Options.{
  GoesOn, IsRunnable, main_config-GoesOn, main_config-only_pos,
}

abbrev strtol : List ℕ → ℤ
strtol text = pos 4

abbrev strtoul : List ℕ → ℕ
strtoul text = 10

abbrev corner : Pos
corner = record { x = negsuc 2047; y = pos 12; z = pos 2047 }

main_config-only_pos_example :
    (config : Config) × (main_config strtol strtoul
        (Command.map_file (codes "map.sqlite")
          ∷ Command.out_file (codes "out.sqlite")
          ∷ Command.only_pos (str corner)
          ∷ [])
        false
      ≡ going config)
    × ((config.map_filename ≡ codes "map.sqlite") × (config.out_filename ≡ codes "out.sqlite"))
    × ((inside corner config.min_pos config.max_pos ≡ true) ↔ (corner ≡ corner))
main_config-only_pos_example =
    main_config-only_pos strtol strtoul corner corner 109 111 (codes "ap.sqlite")
      (codes "ut.sqlite") (omega arith)

main_config-GoesOn_example : GoesOn IsRunnable (
    main_config strtol strtoul
      (Command.threads (codes "4")
        ∷ Command.driver (codes "pgsql")
        ∷ Command.min_pos (codes "5,6")
        ∷ [])
      false)
main_config-GoesOn_example =
    main_config-GoesOn strtol strtoul
      (Command.threads (codes "4")
        ∷ Command.driver (codes "pgsql")
        ∷ Command.min_pos (codes "5,6")
        ∷ [])
      false
