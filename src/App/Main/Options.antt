-- ===== src/App/Main/Options.antt =====
-- src/app/main.cc: the Config that a run starts with.
use minetest_map_analyzer.Prelude.{
  ℕ, ◌≡◌, refl, ap, ◌↔◌, ◌⊎◌, inl, inr, Bool, true, false, ◌||◌, List, [], ◌∷◌, str_eq, Bool-cases,
  arith,
}
use minetest_map_analyzer.Prelude.Int.{ℤ, pos, ◌+ℤ◌, ◌≤ℤ◌, signed16, to_u16}
use minetest_map_analyzer.Minegeld.{codes}
use minetest_map_analyzer.Pos.{Pos, inside, sort}
use minetest_map_analyzer.Pos.Ids.{IsBlockPos, IsBlockCoordinate}
use minetest_map_analyzer.Pos.Order.{inside-sort, Within, sort-Sorts}
use minetest_map_analyzer.Pos.Text.{str, parse, parse-str}
use minetest_map_analyzer.Pos.Nodes.{IsNodePos}
use minetest_map_analyzer.App.Config.{Config, new_config}
use minetest_map_analyzer.App.Main.{
  Command, Parsing, going, exits, if_parsed, corner_after, set_driver, apply_command, command_loop,
  and_then, check_config, sorted, main_config,
}

-- A file name has been given.
abbrev pub IsGiven : List ℕ → Type 0
IsGiven [] = ⊥
IsGiven (c ∷ text) = Unit

-- The program exits with 0 or 1, or goes on with a Config of the kind `P`.
abbrev pub GoesOn : (Config → Type 0) → Parsing → Type 0
GoesOn P (going config) = P config
GoesOn P (exits n) = (n ≡ 0) ⊎ (n ≡ 1)

-- Both files are named, and in each dimension the lower corner is not above the upper one.
abbrev pub IsRunnable : Config → Type 0
IsRunnable config =
    IsGiven config.map_filename
    × IsGiven config.out_filename
    × (config.min_pos.x ≤ℤ config.max_pos.x)
    × (config.min_pos.y ≤ℤ config.max_pos.y)
    × (config.min_pos.z ≤ℤ config.max_pos.z)

abbrev AnyConfig : Config → Type 0
AnyConfig config = Unit

GoesOn-if_parsed : (f : Pos → Config) (r : Bool × Pos) → GoesOn AnyConfig (if_parsed f r)
GoesOn-if_parsed f (true, p) = tt
GoesOn-if_parsed f (false, p) = inr refl

GoesOn-set_driver : (name : List ℕ) (config : Config) → GoesOn AnyConfig (set_driver name config)
unfolding set_driver
GoesOn-set_driver name config = elim (Bool-cases (str_eq name (codes "sqlite"))) [
  | inl e ↦ rw e tt
  | inr e ↦
      rw e (elim (Bool-cases (str_eq name (codes "postgresql") || str_eq name (codes "pgsql"))) [
        | inl e' ↦ rw e' tt
        | inr e' ↦ rw e' (inr refl)
      ])
]

given_lem :
    (m o : List ℕ) (config : Config)
    → config.map_filename ≡ m
    → config.out_filename ≡ o
    → GoesOn IsRunnable (check_config false config)
unfolding check_config
given_lem [] o config em eo = rw em (inr refl)
given_lem (c ∷ m) [] config em eo = rw (em, eo) (inr refl)
given_lem (c ∷ m) (c' ∷ o) config em eo =
    let (x, y, z) = sort-Sorts config.min_pos config.max_pos in rw (em, eo) (tt, tt, x.0, y.0, z.0)

GoesOn-check_config :
    (extra_args : Bool) (config : Config) → GoesOn IsRunnable (check_config extra_args config)
unfolding check_config
GoesOn-check_config true config = inr refl
GoesOn-check_config false config =
    given_lem config.map_filename config.out_filename config refl refl

module _ (strtol : List ℕ → ℤ) (strtoul : List ℕ → ℕ) where
  GoesOn-apply_command :
      (c : Command) (config : Config) → GoesOn AnyConfig (apply_command strtol strtoul c config)
  unfolding apply_command
  GoesOn-apply_command Command.flag_set config = tt
  GoesOn-apply_command Command.help config = inl refl
  GoesOn-apply_command Command.track_minegeld config = tt
  GoesOn-apply_command (Command.max_load_avg arg) config = tt
  GoesOn-apply_command (Command.threads arg) config = tt
  GoesOn-apply_command (Command.min_pos arg) config = GoesOn-if_parsed _ (parse arg config.min_pos)
  GoesOn-apply_command (Command.max_pos arg) config = GoesOn-if_parsed _ (parse arg config.max_pos)
  GoesOn-apply_command (Command.only_pos arg) config = GoesOn-if_parsed _ (parse arg config.min_pos)
  GoesOn-apply_command (Command.driver arg) config = GoesOn-set_driver arg config
  GoesOn-apply_command (Command.map_file arg) config = tt
  GoesOn-apply_command (Command.out_file arg) config = tt
  GoesOn-apply_command (Command.pattern_file arg) config = tt
  GoesOn-apply_command (Command.stats_file arg) config = tt
  GoesOn-apply_command (Command.radius arg) config = tt
  GoesOn-apply_command (Command.unrecognized c) config = tt

  and_then-GoesOn :
      (P : Config → Type 0) (o : Parsing) (f : Config → Parsing)
      → GoesOn AnyConfig o
      → ((config : Config) → GoesOn P (f config))
      → GoesOn P (and_then o f)
  and_then-GoesOn P (going config) f h k = k config
  and_then-GoesOn P (exits n) f h k = h

  GoesOn-command_loop :
      (commands : List Command) (config : Config)
      → GoesOn AnyConfig (command_loop strtol strtoul commands config)
  unfolding command_loop
  GoesOn-command_loop [] config = tt
  GoesOn-command_loop (c ∷ commands) config =
      and_then-GoesOn AnyConfig (apply_command strtol strtoul c config) _
        (GoesOn-apply_command c config) (GoesOn-command_loop commands)

  -- Whatever the command line, the program exits with 0 or 1, or it goes on to a run for which both files
  -- are named, and whose lower corner is not above the upper one in any dimension.
  pub main_config-GoesOn :
      (commands : List Command) (extra_args : Bool)
      → GoesOn IsRunnable (main_config strtol strtoul commands extra_args)
  unfolding main_config
  main_config-GoesOn commands extra_args =
      and_then-GoesOn IsRunnable (command_loop strtol strtoul commands _) _
        (GoesOn-command_loop commands _) (GoesOn-check_config extra_args)

  block_fits : (c : ℤ) → IsBlockCoordinate c → signed16 (to_u16 (c +ℤ pos 1)) ≡ c +ℤ pos 1
  unfolding ◌+ℤ◌
  block_fits c h = ground arith

  Within-next : (c v : ℤ) → Within c (c +ℤ pos 1) v ↔ (v ≡ c)
  unfolding ◌+ℤ◌
  Within-next c v = ground arith

  block_fits_node : (p : Pos) → IsBlockPos p → IsNodePos p
  block_fits_node p h = omega arith

  inside-corner_after :
      (p q : Pos)
      → IsBlockPos p
      → (inside q (sort p (corner_after p)).0 (sort p (corner_after p)).1 ≡ true) ↔ (q ≡ p)
  inside-corner_after p q (hx, hy, hz) =
      let box = inside-sort q p (corner_after p) in
      let next : (c v : ℤ)
          → IsBlockCoordinate c
          → Within c (signed16 (to_u16 (c +ℤ pos 1))) v ↔ (v ≡ c) =
        λ c v h. rw (block_fits c h) (Within-next c v) in
      let x = next p.x q.x hx in
      let y = next p.y q.y hy in
      let z = next p.z q.z hz in
      (
        λ e. let (wx, wy, wz) = box.0 e in λ i. record { x = x.0 wx i; y = y.0 wy i; z = z.0 wz i },
        λ e. box.1 (x.1 (ap (λ v. v.x) e), y.1 (ap (λ v. v.y) e), z.1 (ap (λ v. v.z) e)),
      )

  -- `--pos x,y,z`, for the position of a block, with the two files that a run needs, goes on to a run with
  -- those files, and the box of its configuration holds that position alone.
  pub main_config-only_pos :
      (p q : Pos) (c c' : ℕ) (map_file out_file : List ℕ)
      → IsBlockPos p
      → (config : Config) × (main_config strtol strtoul
            (Command.map_file (c ∷ map_file)
              ∷ Command.out_file (c' ∷ out_file)
              ∷ Command.only_pos (str p)
              ∷ [])
            false
          ≡ going config)
        × ((config.map_filename ≡ c ∷ map_file) × (config.out_filename ≡ c' ∷ out_file))
        × ((inside q config.min_pos config.max_pos ≡ true) ↔ (q ≡ p))
  unfolding main_config command_loop apply_command check_config
  main_config-only_pos p q c c' map_file out_file h =
      let config = sorted (record new_config {
        threads = pos 1;
        map_filename = c ∷ map_file;
        out_filename = c' ∷ out_file;
        min_pos = p;
        max_pos = corner_after p;
      }) in
      (
        config,
        rw (parse-str p (new_config).min_pos (block_fits_node p h)) refl,
        (refl, refl),
        inside-corner_after p q h,
      )
