-- ===== src/Args/Requests.antt =====
-- The functions of src/args.c that make a request for the server.
use way_displays.Prelude.{
  ℕ, ◌==◌, Bool, false, ◌&&◌, Option, none, some, String, List, length, leb, if◌then◌else◌,
}
use way_displays.Enums.{CfgElement, IpcCommand, LogThreshold}
use way_displays.Enums.Values.{cfg_element_val, log_threshold_val}
use way_displays.Platform.{Platform}
use way_displays.Ipc.{IpcRequest, ipc_request_init}
use way_displays.Args.{Conversions, Parsed, parsed, exits, ◌>>=◌}
use way_displays.Args.Element.{args_cfg}

-- Whether `--set` takes this many arguments for the element.
unfoldable pub set_takes : CfgElement → ℕ → Bool
set_takes CfgElement.mode n = leb 2 n && leb n 4
set_takes CfgElement.arrange_align n = n == 2
set_takes CfgElement.scale n = n == 2
set_takes CfgElement.transform n = n == 2
set_takes CfgElement.scaling n = n == 1
set_takes CfgElement.auto_scale n = n == 1
set_takes CfgElement.disabled n = n == 1
set_takes CfgElement.vrr_off n = n == 1
set_takes CfgElement.callback_cmd n = n == 1
set_takes CfgElement.order n = leb 1 n
set_takes _ n = false

unfoldable pub del_takes : CfgElement → ℕ → Bool
del_takes CfgElement.mode n = n == 1
del_takes CfgElement.transform n = n == 1
del_takes CfgElement.scale n = n == 1
del_takes CfgElement.disabled n = n == 1
del_takes CfgElement.vrr_off n = n == 1
del_takes CfgElement.callback_cmd n = n == 0
del_takes _ n = false

unfoldable pub toggle_takes : CfgElement → ℕ → Bool
toggle_takes CfgElement.scaling n = n == 0
toggle_takes CfgElement.auto_scale n = n == 0
toggle_takes CfgElement.vrr_off n = n == 1
toggle_takes CfgElement.disabled n = n == 1
toggle_takes _ n = false

-- `--log-threshold`.
unfoldable pub args_log_threshold : String → Option LogThreshold
args_log_threshold optarg = log_threshold_val (some optarg)

module _ (Real : Type 0) where
  -- A command that takes no arguments.
  abbrev pub plain_request : IpcCommand → List String → Parsed (IpcRequest Real)
  plain_request command args =
      if length args == 0 then parsed (ipc_request_init (some command)) else exits 1

  unfoldable pub args_ipc_list : List String → Parsed (IpcRequest Real)
  args_ipc_list args = plain_request IpcCommand.list args

  unfoldable pub args_ipc_get : List String → Parsed (IpcRequest Real)
  args_ipc_get args = plain_request IpcCommand.get args

  unfoldable pub args_ipc_write : List String → Parsed (IpcRequest Real)
  args_ipc_write args = plain_request IpcCommand.cfg_write args

  unfoldable pub args_ipc_reapply : List String → Parsed (IpcRequest Real)
  args_ipc_reapply args = plain_request IpcCommand.reapply args

module _ (pf : Platform) (conv : Conversions pf.Real) where
  open pf use {Real}

  -- The request with the configuration that the arguments give, for an element that takes as many.
  abbrev pub request_for :
      (CfgElement → ℕ → Bool)
      → ℕ
      → IpcCommand
      → Option CfgElement
      → List String
      → Parsed (IpcRequest Real)
  request_for takes addr command none args = exits 1
  request_for takes addr command (some element) args =
      if takes element (length args)
      then (args_cfg pf conv addr command element args >>= λ cfg.
          parsed (record (ipc_request_init (some command)) { cfg = some cfg }))
      else exits 1

  unfoldable pub args_ipc_set : ℕ → String → List String → Parsed (IpcRequest Real)
  unfolding set_takes args_cfg
  args_ipc_set addr optarg args =
      request_for set_takes addr IpcCommand.cfg_set (cfg_element_val (some optarg)) args

  unfoldable pub args_ipc_del : ℕ → String → List String → Parsed (IpcRequest Real)
  unfolding del_takes args_cfg
  args_ipc_del addr optarg args =
      request_for del_takes addr IpcCommand.cfg_del (cfg_element_val (some optarg)) args

  unfoldable pub args_ipc_toggle : ℕ → String → List String → Parsed (IpcRequest Real)
  unfolding toggle_takes args_cfg
  args_ipc_toggle addr optarg args =
      request_for toggle_takes addr IpcCommand.cfg_toggle (cfg_element_val (some optarg)) args
