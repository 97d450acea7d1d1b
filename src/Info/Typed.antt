-- ===== src/Info/Typed.antt =====
-- The commands that src/info/print.c prints for a configuration, typed at a shell: what src/cli.c and
-- src/args.c read of them.
use way_displays.Prelude.{ℕ, ◌≡◌, refl, ap, ◌∙◌, none, some, List, [], ◌∷◌, map, All}
use way_displays.Enums.{IpcCommand}
use way_displays.Platform.{Platform}
use way_displays.Cfg.{Cfg}
use way_displays.Ipc.{IpcRequest, ipc_request_init}
use way_displays.Args.{Conversions, Parsed, parsed, ◌>>=◌}
use way_displays.Args.Requests.{args_ipc_set}
use way_displays.Args.Cli.{
  Cli, no_options, with_request, finish, cli_option, cli_options, cli_parse,
}
use way_displays.Info.{Format}
use way_displays.Info.Commands.{Command, Line, line_text, print_cfg_commands}
use way_displays.Info.Shell.{Shell, Getopt, LineSafe, words, words_plain, split-line_text}
use way_displays.Info.Safe.{Typable, print_cfg_commands-LineSafe}
use way_displays.Info.Parts.{replies, sets, parts, Printable}
use way_displays.Info.Accepted.{replies-print_cfg_commands}

module _ (pf : Platform) (conv : Conversions pf.Real) (fmt : Format pf.Real) (addr : ℕ) (sh : Shell)
    (getopt : Getopt) where
  open pf use {Real}

  -- Each printed line that is not empty, typed as a command. The struct of a mode is placed at `addr`.
  abbrev pub typed : List Line → List (Parsed (Cli Real))
  typed [] = []
  typed (none ∷ ls) = typed ls
  typed (some c ∷ ls) =
      cli_parse pf conv (λ n. addr) (getopt.options (sh.split (line_text (some c)))) ∷ typed ls

  abbrev finished : Parsed (IpcRequest Real) → Parsed (Cli Real)
  finished r = (with_request no_options r >>= λ cli. parsed cli) >>= λ cli.
      parsed (finish cli cli.ipc_request)

  typed_command :
      (c : Command)
      → LineSafe (some c)
      → cli_parse pf conv (λ n. addr) (getopt.options (sh.split (line_text (some c))))
        ≡ finished (args_ipc_set pf conv addr c.element (words c.args))
  unfolding cli_parse cli_options cli_option
  typed_command c s =
      ap (λ l. cli_parse pf conv (λ n. addr) (getopt.options l)) (split-line_text sh c s)
      ∙ ap (cli_parse pf conv (λ n. addr))
          (getopt.set_option "way-displays" c.element (words c.args) (words_plain c.args s.1))

  typed_lines :
      (ls : List Line) → All LineSafe ls → typed ls ≡ map finished (replies pf conv fmt addr ls)
  typed_lines [] h = refl
  typed_lines (none ∷ ls) h = typed_lines ls h.1
  typed_lines (some c ∷ ls) h = λ i. typed_command c h.0 i ∷ typed_lines ls h.1 i

  -- The client is to ask that one part of a configuration is set.
  abbrev pub asks : Cfg Real → Parsed (Cli Real)
  asks part = parsed (record no_options {
    ipc_request = some (record (ipc_request_init (some IpcCommand.cfg_set)) { cfg = some part });
  })

  finished-sets : (l : List (Cfg Real)) → map finished (map (sets pf conv fmt addr) l) ≡ map asks l
  unfolding ipc_request_init
  finished-sets [] = refl
  finished-sets (p ∷ l) = ap (λ r. asks p ∷ r) (finished-sets l)

  -- Each command that is printed for a configuration, typed at a shell, is read as the request that sets
  -- one part of the configuration, in the order of the parts: where no name and no callback command has
  -- a single quote or looks like an option, numbers are printed as words and read as they are printed,
  -- the modes may be asked for, the transforms are those of the protocol, and no name comes twice in
  -- the order.
  pub commands_accepted :
      (cfg : Cfg Real)
      → Printable pf conv fmt addr cfg
      → Typable pf fmt cfg
      → typed (print_cfg_commands pf fmt cfg) ≡ map asks (parts pf conv fmt addr cfg)
  commands_accepted cfg b t =
      typed_lines (print_cfg_commands pf fmt cfg) (print_cfg_commands-LineSafe pf fmt cfg t)
      ∙ ap (map finished) (replies-print_cfg_commands pf conv fmt addr cfg b)
      ∙ finished-sets (parts pf conv fmt addr cfg)
