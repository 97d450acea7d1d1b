-- ===== src/Examples/ArgsTests.antt =====
-- The theorem on the command line, where a mode, a scale and a bad element are given.
use way_displays.Prelude.{ℕ, ◌+◌, ◌*◌, ◌-◌, ℤ, pos, List, [], ◌∷◌}
use way_displays.Prelude.Text.{codes}
use way_displays.Args.{Conversions}
use way_displays.Args.Laws.{Gives}
use way_displays.Args.Cli.{CliOption, set, yaml, cli_parse}
use way_displays.Args.WellFormed.{HasWell, cli_parse-HasWell}
use way_displays.Examples.Concrete.{desk}

-- The number that the digits make.
abbrev number : ℕ → List ℕ → ℕ
number n [] = n
number n (c ∷ cs) = number (n * 10 + (c - 48)) cs

abbrev decimal : Conversions ℤ
decimal = record {
  strtof = λ s. pos (number 0 (codes s) * 1000);
  atof = λ s. pos (number 0 (codes s) * 1000);
  atoi = λ s. pos (number 0 (codes s));
  round = λ r. r;
  size_of = λ r. 2000;
  lround = λ r. r;
}

abbrev set_mode : List CliOption
set_mode = yaml ∷ set "mode" ("DP-1" ∷ "1920" ∷ "1080" ∷ "60" ∷ []) ∷ []

cli_parse-HasWell_example :
    Gives (HasWell desk decimal) (cli_parse desk decimal (λ n. n + 500) set_mode)
cli_parse-HasWell_example = cli_parse-HasWell desk decimal (λ n. n + 500) set_mode
