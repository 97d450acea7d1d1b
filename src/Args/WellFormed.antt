-- ===== src/Args/WellFormed.antt =====
-- What holds of every request that src/cli.c makes of a command line.
use way_displays.Prelude.{
  ℕ, ◌+◌, ◌==◌, ◌≡◌, refl, sym, subst, Bool, true, false, ◌||◌, Option, none, some, String, List,
  [], ◌∷◌, pick, length,
}
use way_displays.Enums.{CfgElement, IpcCommand, LogThreshold}
use way_displays.Enums.Values.{cfg_element_val}
use way_displays.Platform.{Platform}
use way_displays.Cfg.{Cfg}
use way_displays.Ipc.{IpcRequest, ipc_request_init}
use way_displays.Args.{Conversions, Parsed}
use way_displays.Args.Element.{args_cfg}
use way_displays.Args.Requests.{
  set_takes, del_takes, toggle_takes, request_for, plain_request, args_ipc_set, args_ipc_del,
  args_ipc_toggle, args_ipc_list, args_ipc_get, args_ipc_write, args_ipc_reapply,
  args_log_threshold,
}
use way_displays.Args.Cli.{
  CliOption, log_threshold, config, help, version, yaml, unknown, list, get, write, reapply, set,
  del, toggle, Cli, no_options, with_threshold, with_request, finish, cli_option, cli_options,
  cli_parse,
}
use way_displays.Args.Laws.{Gives, Gives-bind, HasUsable, Makes, set-Makes, del-Makes, toggle-Makes}

module _ (pf : Platform) (conv : Conversions pf.Real) where
  open pf use {lib, Real}

  abbrev IsChange : Option (Cfg Real) → Type 0
  IsChange o = (cfg : Cfg Real) × (o ≡ some cfg) × HasUsable pf conv cfg

  abbrev FitsCommand : Option (Cfg Real) → Option IpcCommand → Type 0
  FitsCommand o none = ⊥
  FitsCommand o (some IpcCommand.cfg_set) = IsChange o
  FitsCommand o (some IpcCommand.cfg_del) = IsChange o
  FitsCommand o (some IpcCommand.cfg_toggle) = IsChange o
  FitsCommand o (some _) = o ≡ none

  -- The request asks for a change with a configuration whose modes may be asked for, or for something
  -- else without a configuration.
  abbrev pub IsWellFormed : IpcRequest Real → Type 0
  IsWellFormed request = FitsCommand request.cfg request.command

  abbrev IsFor : IpcCommand → Type 0
  IsFor command =
      (cfg : Cfg Real)
      → HasUsable pf conv cfg
      → IsWellFormed (record (ipc_request_init (some command)) { cfg = some cfg })

  request-IsWellFormed :
      (takes : CfgElement → ℕ → Bool) (addr : ℕ) (command : IpcCommand) (o : Option CfgElement)
      (args : List String)
      → IsFor command
      → ((element : CfgElement)
          → takes element (length args) ≡ true
          → Makes pf conv (args_cfg pf conv addr command element args))
      → Gives IsWellFormed (request_for pf conv takes addr command o args)
  request-IsWellFormed takes addr command none args ok k = tt
  request-IsWellFormed takes addr command (some element) args ok k =
      pick (Gives IsWellFormed) (takes element (length args)) _ _
        (λ e.
          Gives-bind (HasUsable pf conv) IsWellFormed (args_cfg pf conv addr command element args) _
            (k element e) ok)
        (λ e. tt)

  set-IsWellFormed :
      (addr : ℕ) (optarg : String) (args : List String)
      → Gives IsWellFormed (args_ipc_set pf conv addr optarg args)
  unfolding args_ipc_set ipc_request_init
  set-IsWellFormed addr optarg args =
      request-IsWellFormed set_takes addr IpcCommand.cfg_set (cfg_element_val (some optarg)) args
        (λ cfg u. (cfg, refl, u)) (λ element e. set-Makes pf conv addr element args e)

  del-IsWellFormed :
      (addr : ℕ) (optarg : String) (args : List String)
      → Gives IsWellFormed (args_ipc_del pf conv addr optarg args)
  unfolding args_ipc_del ipc_request_init
  del-IsWellFormed addr optarg args =
      request-IsWellFormed del_takes addr IpcCommand.cfg_del (cfg_element_val (some optarg)) args
        (λ cfg u. (cfg, refl, u)) (λ element e. del-Makes pf conv addr element args e)

  toggle-IsWellFormed :
      (addr : ℕ) (optarg : String) (args : List String)
      → Gives IsWellFormed (args_ipc_toggle pf conv addr optarg args)
  unfolding args_ipc_toggle ipc_request_init
  toggle-IsWellFormed addr optarg args =
      request-IsWellFormed toggle_takes addr IpcCommand.cfg_toggle (cfg_element_val (some optarg))
        args (λ cfg u. (cfg, refl, u)) (λ element e. toggle-Makes pf conv addr element args)

  abbrev IsWell : Option (IpcRequest Real) → Type 0
  IsWell none = Unit
  IsWell (some request) = IsWellFormed request

  -- The request that was read, if any, is well formed.
  abbrev pub HasWell : Cli Real → Type 0
  HasWell cli = IsWell cli.ipc_request

  requested-HasWell :
      (cli : Cli Real) (p : Parsed (IpcRequest Real))
      → Gives IsWellFormed p
      → Gives HasWell (with_request cli p)
  requested-HasWell cli p g = Gives-bind IsWellFormed HasWell p _ g (λ r w. w)

  plain-HasWell :
      (cli : Cli Real) (command : IpcCommand) (args : List String)
      → IsWellFormed (ipc_request_init (some command))
      → Gives HasWell (with_request cli (plain_request Real command args))
  plain-HasWell cli command args w =
      requested-HasWell cli (plain_request Real command args)
        (pick (Gives IsWellFormed) (length args == 0) _ _ (λ e. w) (λ e. tt))

  threshold-HasWell :
      (cli : Cli Real) (t : Option LogThreshold)
      → HasWell cli
      → Gives HasWell (with_threshold cli t)
  threshold-HasWell cli none w = tt
  threshold-HasWell cli (some t) w = w

  option-HasWell :
      (addr : ℕ) (cli : Cli Real) (o : CliOption)
      → HasWell cli
      → Gives HasWell (cli_option pf conv addr cli o)
  unfolding cli_option args_ipc_list args_ipc_get args_ipc_write args_ipc_reapply ipc_request_init
  option-HasWell addr cli (log_threshold optarg) w =
      threshold-HasWell cli (args_log_threshold optarg) w
  option-HasWell addr cli help w = tt
  option-HasWell addr cli (config optarg) w = w
  option-HasWell addr cli version w = tt
  option-HasWell addr cli yaml w = w
  option-HasWell addr cli (list args) w = plain-HasWell cli IpcCommand.list args refl
  option-HasWell addr cli (get args) w = plain-HasWell cli IpcCommand.get args refl
  option-HasWell addr cli (set optarg args) w =
      requested-HasWell cli (args_ipc_set pf conv addr optarg args)
        (set-IsWellFormed addr optarg args)
  option-HasWell addr cli (del optarg args) w =
      requested-HasWell cli (args_ipc_del pf conv addr optarg args)
        (del-IsWellFormed addr optarg args)
  option-HasWell addr cli (toggle optarg args) w =
      requested-HasWell cli (args_ipc_toggle pf conv addr optarg args)
        (toggle-IsWellFormed addr optarg args)
  option-HasWell addr cli (write args) w = plain-HasWell cli IpcCommand.cfg_write args refl
  option-HasWell addr cli (reapply args) w = plain-HasWell cli IpcCommand.reapply args refl
  option-HasWell addr cli unknown w = tt

  options-HasWell :
      (addr : ℕ → ℕ) (cli : Cli Real) (os : List CliOption)
      → HasWell cli
      → Gives HasWell (cli_options pf conv addr cli os)
  unfolding cli_options
  options-HasWell addr cli [] w = w
  options-HasWell addr cli (o ∷ os) w =
      Gives-bind HasWell HasWell (cli_option pf conv (addr 0) cli o) _
        (option-HasWell (addr 0) cli o w) (λ next v. options-HasWell (λ n. addr (n + 1)) next os v)

  finished-HasWell :
      (cli : Cli Real) (o : Option (IpcRequest Real))
      → cli.ipc_request ≡ o
      → IsWell o
      → HasWell (finish cli o)
  finished-HasWell cli none e w = subst IsWell (sym e) w
  finished-HasWell cli (some request) e w =
      pick IsWellFormed (request.yaml || cli.with_yaml)
        (record request { yaml = true; log_threshold = some LogThreshold.warning })
        (record request { yaml = false; log_threshold = cli.threshold }) (λ q. w) (λ q. w)

  -- Whatever the command line is, no argument is followed that is not there, and a request that is
  -- read of it is well formed: it asks for a change with a configuration whose modes may be asked
  -- for, or for something else without a configuration.
  pub cli_parse-HasWell :
      (addr : ℕ → ℕ) (os : List CliOption) → Gives HasWell (cli_parse pf conv addr os)
  unfolding cli_parse
  cli_parse-HasWell addr os =
      Gives-bind HasWell HasWell (cli_options pf conv addr no_options os) _
        (options-HasWell addr no_options os tt)
        (λ cli w. finished-HasWell cli cli.ipc_request refl w)
