-- ===== src/Args/Cli.antt =====
-- `cli_parse` of src/cli.c and `main` of src/main.c. What `getopt_long` of the C library reads off the
-- command line is a list of options, each with its argument, and with the arguments that are left at
-- that moment.
use way_displays.Prelude.{
  ℕ, ◌+◌, Bool, true, false, ◌||◌, Option, none, some, String, List, [], ◌∷◌, if◌then◌else◌,
}
use way_displays.Enums.{LogThreshold}
use way_displays.Platform.{Platform}
use way_displays.Ipc.{IpcRequest}
use way_displays.Args.{Conversions, Parsed, parsed, exits, ◌>>=◌}
use way_displays.Args.Requests.{
  args_log_threshold, args_ipc_list, args_ipc_get, args_ipc_set, args_ipc_del, args_ipc_toggle,
  args_ipc_write, args_ipc_reapply,
}

-- `'L'`, `'h'`, `'c'`, and so on, and `'?'`.
pub data CliOption : Type 0 where
  log_threshold config : String → CliOption
  help version yaml unknown : CliOption
  list get write reapply : List String → CliOption
  set del toggle : String → List String → CliOption

pub record Cli (Real : Type 0) : Type 0 where
  pub ipc_request : Option (IpcRequest Real)
  pub cfg_path : Option String
  pub with_yaml : Bool
  pub threshold : Option LogThreshold

abbrev pub no_options : {Real : Type 0} → Cli Real
no_options = record { ipc_request = none; cfg_path = none; with_yaml = false; threshold = none }

abbrev pub with_threshold : {Real : Type 0} → Cli Real → Option LogThreshold → Parsed (Cli Real)
with_threshold cli none = exits 1
with_threshold cli (some t) = parsed (record cli { threshold = some t })

abbrev pub with_request : {Real : Type 0} → Cli Real → Parsed (IpcRequest Real) → Parsed (Cli Real)
with_request cli request = request >>= λ r. parsed (record cli { ipc_request = some r })

-- What a request asks to be logged, and whether in YAML.
abbrev pub for_client :
    {Real : Type 0} → Bool → Option LogThreshold → IpcRequest Real → IpcRequest Real
for_client as_yaml threshold request =
    if request.yaml || as_yaml
    then record request { yaml = true; log_threshold = some LogThreshold.warning }
    else record request { yaml = false; log_threshold = threshold }

abbrev pub finish : {Real : Type 0} → Cli Real → Option (IpcRequest Real) → Cli Real
finish cli none = cli
finish cli (some request) = record cli {
  ipc_request = some (for_client cli.with_yaml cli.threshold request);
}

-- What `main` goes on with: the client, the server with the path of its configuration, or nothing.
pub data Program (Real : Type 0) : Type 0 where
  client : IpcRequest Real → Program Real
  server : Option String → Program Real

module _ (pf : Platform) (conv : Conversions pf.Real) where
  open pf use {Real}

  -- One turn of the loop. The struct of a mode that an option gives is placed at `addr`.
  unfoldable pub cli_option : ℕ → Cli Real → CliOption → Parsed (Cli Real)
  unfolding args_log_threshold
  cli_option addr cli (log_threshold optarg) = with_threshold cli (args_log_threshold optarg)
  cli_option addr cli help = exits 0
  cli_option addr cli (config optarg) = parsed (record cli { cfg_path = some optarg })
  cli_option addr cli version = exits 0
  cli_option addr cli yaml = parsed (record cli { with_yaml = true })
  cli_option addr cli (list args) = with_request cli (args_ipc_list Real args)
  cli_option addr cli (get args) = with_request cli (args_ipc_get Real args)
  cli_option addr cli (set optarg args) = with_request cli (args_ipc_set pf conv addr optarg args)
  cli_option addr cli (del optarg args) = with_request cli (args_ipc_del pf conv addr optarg args)
  cli_option addr cli (toggle optarg args) =
      with_request cli (args_ipc_toggle pf conv addr optarg args)
  cli_option addr cli (write args) = with_request cli (args_ipc_write Real args)
  cli_option addr cli (reapply args) = with_request cli (args_ipc_reapply Real args)
  cli_option addr cli unknown = exits 1

  -- The loop, with the places of the structs.
  unfoldable pub cli_options : (ℕ → ℕ) → Cli Real → List CliOption → Parsed (Cli Real)
  unfolding cli_option
  cli_options addr cli [] = parsed cli
  cli_options addr cli (o ∷ os) =
      cli_option (addr 0) cli o >>= λ next. cli_options (λ n. addr (n + 1)) next os

  unfoldable pub cli_parse : (ℕ → ℕ) → List CliOption → Parsed (Cli Real)
  unfolding cli_options
  cli_parse addr os = cli_options addr no_options os >>= λ cli. parsed (finish cli cli.ipc_request)

  abbrev pub program_of : Cli Real → Option (IpcRequest Real) → Program Real
  program_of cli (some request) = client request
  program_of cli none = server cli.cfg_path

  -- `main`, where `display` says whether WAYLAND_DISPLAY is set.
  unfoldable pub main : (ℕ → ℕ) → Bool → List CliOption → Parsed (Program Real)
  unfolding cli_parse
  main addr display os = cli_parse addr os >>= λ cli.
      if display then parsed (program_of cli cli.ipc_request) else exits 1
