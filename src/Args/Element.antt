-- ===== src/Args/Element.antt =====
-- `args_cfg` of src/args.c: the configuration that a command for one element gives.
use way_displays.Prelude.{
  ℕ, ℤ, pos, ltb_ℤ, Bool, true, false, ◌&&◌, Option, none, some, String, List, [], ◌∷◌,
  if◌then◌else◌,
}
use way_displays.Prelude.Text.{strcasecmp}
use way_displays.Enums.{CfgElement, IpcCommand, OnOff}
use way_displays.Enums.Values.{arrange_val_start, align_val_start, on_off_val, transform_val}
use way_displays.Platform.{Platform}
use way_displays.Mode.{Mode, mode_init}
use way_displays.Cfg.{Cfg, CfgDisabled}
use way_displays.Cfg.Init.{cfg_init}
use way_displays.Args.{Conversions, Parsed, parsed, exits, undefined, ◌>>=◌, int32_of}

-- `cfg_disabled_init` of src/cfg/disabled.c.
unfoldable pub cfg_disabled_init : CfgDisabled
cfg_disabled_init = record { conditions = [] }

-- `argv[optind]`, or NULL.
abbrev pub argument : List String → Option String
argument [] = none
argument (a ∷ rest) = some a

-- `!parsed`: the program exits with EXIT_FAILURE.
abbrev pub if_parsed : {A : Type 0} → Option A → Parsed A
if_parsed none = exits 1
if_parsed (some a) = parsed a

abbrev pub if_positive : Mode → Bool → Parsed Mode
if_positive mode true = parsed mode
if_positive mode false = exits 1

abbrev pub positive : ℤ → Bool
positive z = ltb_ℤ (pos 0) z

module _ (pf : Platform) (conv : Conversions pf.Real) where
  open pf use {lib, Real, of_int, mul, lt}
  open lib use {sp, ss}

  abbrev pub fresh : Cfg Real
  fresh = cfg_init pf

  -- ARRANGE_ALIGN. Nothing is read behind an arrangement that is not one.
  unfoldable pub arrange_align : List String → Parsed (Cfg Real)
  arrange_align args = if_parsed (arrange_val_start (argument args)) >>= λ arrange. elim args [
    | [] ↦ exits 1
    | _ ∷ rest ↦ if_parsed (align_val_start (argument rest)) >>= λ align.
        parsed (record fresh { arrange = some arrange; align = some align })
  ]

  -- SCALING and AUTO_SCALE: on is taken as a toggle.
  unfoldable pub switched : IpcCommand → List String → Parsed OnOff
  switched IpcCommand.cfg_toggle args = parsed OnOff.on
  switched IpcCommand.cfg_set args = if_parsed (on_off_val (argument args))
  switched _ args = exits 1

  -- SCALE, in thousandths.
  unfoldable pub scale_of : IpcCommand → List String → Parsed (List (String × ℕ))
  scale_of IpcCommand.cfg_set (name ∷ text ∷ rest) =
      let scale = conv.strtof text in
      if lt (of_int (pos 0)) scale
      then parsed
          (sp.put fresh.scales name (conv.size_of (conv.round (mul scale (of_int (pos 1000))))))
      else exits 1
  scale_of IpcCommand.cfg_set _ = undefined
  scale_of IpcCommand.cfg_del (name ∷ rest) = parsed (sp.put fresh.scales name 1000)
  scale_of IpcCommand.cfg_del [] = undefined
  scale_of _ args = exits 1

  -- The resolution, the refresh where it is there, and the rest that is not read.
  unfoldable pub resolution_of : Mode → List String → Parsed Mode
  unfolding int32_of
  resolution_of mode (width ∷ height ∷ []) =
      let sized = record mode { width = conv.atoi width; height = conv.atoi height } in
      if_positive sized (positive sized.width && positive sized.height)
  resolution_of mode (width ∷ height ∷ hz ∷ rest) =
      let sized = record mode {
        width = conv.atoi width;
        height = conv.atoi height;
        refresh_mhz = int32_of (conv.lround (mul (conv.atof hz) (of_int (pos 1000))));
      } in
      if_positive sized
        (positive sized.width && positive sized.height && positive sized.refresh_mhz)
  resolution_of mode _ = exits 1

  -- MODE, whose struct `calloc` places at `addr`.
  unfoldable pub mode_arg : ℕ → List String → Parsed Mode
  unfolding resolution_of mode_init
  mode_arg addr [] = undefined
  mode_arg addr (text ∷ rest) =
      if strcasecmp text "MAX"
      then parsed (record (mode_init addr) { max = true })
      else resolution_of (mode_init addr) (text ∷ rest)

  unfoldable pub modes_of : ℕ → IpcCommand → List String → Parsed (List (String × Mode))
  unfolding mode_arg mode_init
  modes_of addr IpcCommand.cfg_set (name ∷ rest) =
      mode_arg addr rest >>= λ mode. parsed (sp.put fresh.modes name mode)
  modes_of addr IpcCommand.cfg_set [] = undefined
  modes_of addr IpcCommand.cfg_del (name ∷ rest) =
      parsed (sp.put fresh.modes name (record (mode_init addr) { max = true }))
  modes_of addr IpcCommand.cfg_del [] = undefined
  modes_of addr _ args = exits 1

  -- TRANSFORM; the one that is deleted is 90 degrees.
  unfoldable pub transforms_of : IpcCommand → List String → Parsed (List (String × ℕ))
  transforms_of IpcCommand.cfg_set (name ∷ rest) =
      if_parsed (transform_val (argument rest)) >>= λ t. parsed (sp.put fresh.transforms name t)
  transforms_of IpcCommand.cfg_set [] = undefined
  transforms_of IpcCommand.cfg_del (name ∷ rest) = parsed (sp.put fresh.transforms name 1)
  transforms_of IpcCommand.cfg_del [] = undefined
  transforms_of _ args = exits 1

  -- VRR_OFF, ORDER and DISABLED: all that is left.
  unfoldable pub add_args : List String → List String → List String
  add_args set [] = set
  add_args set (a ∷ rest) = add_args (ss.add set a) rest

  unfoldable pub put_args : List (String × CfgDisabled) → List String → List (String × CfgDisabled)
  unfolding cfg_disabled_init
  put_args map [] = map
  put_args map (a ∷ rest) = put_args (sp.put map a cfg_disabled_init) rest

  -- CALLBACK_CMD.
  unfoldable pub callback_of : IpcCommand → List String → Parsed String
  callback_of IpcCommand.cfg_set (cmd ∷ rest) = parsed cmd
  callback_of IpcCommand.cfg_set [] = undefined
  callback_of IpcCommand.cfg_del args = parsed ""
  callback_of _ args = exits 1

  unfoldable pub args_cfg : ℕ → IpcCommand → CfgElement → List String → Parsed (Cfg Real)
  unfolding arrange_align switched scale_of modes_of transforms_of add_args put_args callback_of
  args_cfg addr command CfgElement.arrange_align args = arrange_align args
  args_cfg addr command CfgElement.scaling args =
      switched command args >>= λ v. parsed (record fresh { scaling = some v })
  args_cfg addr command CfgElement.auto_scale args =
      switched command args >>= λ v. parsed (record fresh { auto_scale = some v })
  args_cfg addr command CfgElement.scale args =
      scale_of command args >>= λ m. parsed (record fresh { scales = m })
  args_cfg addr command CfgElement.mode args =
      modes_of addr command args >>= λ m. parsed (record fresh { modes = m })
  args_cfg addr command CfgElement.vrr_off args =
      parsed (record fresh { adaptive_sync_off = add_args fresh.adaptive_sync_off args })
  args_cfg addr command CfgElement.transform args =
      transforms_of command args >>= λ m. parsed (record fresh { transforms = m })
  args_cfg addr command CfgElement.disabled args =
      parsed (record fresh { disableds = put_args fresh.disableds args })
  args_cfg addr command CfgElement.order args =
      parsed (record fresh { order_name_desc = add_args fresh.order_name_desc args })
  args_cfg addr command CfgElement.callback_cmd args =
      callback_of command args >>= λ cmd. parsed (record fresh { callback_cmd = some cmd })
  args_cfg addr command _ args = exits 1
