-- ===== src/Info/Parts.antt =====
-- The words of the commands that src/info/print.c prints, as src/args.c reads them, and the parts of a
-- configuration that they are to set.
use way_displays.Prelude.{
  ℕ, ◌==◌, ℤ, pos, negsuc, eqb_ℤ, ◌≡◌, true, false, Option, none, some, String, List, [], ◌∷◌, ◌++◌,
  map, All, length, if◌then◌else◌,
}
use way_displays.Prelude.Text.{strcasecmp}
use way_displays.Enums.{Arrange, Align, OnOff, IpcCommand}
use way_displays.Platform.{Platform}
use way_displays.Mode.{Mode, mode_init}
use way_displays.Cfg.{Cfg, CfgDisabled}
use way_displays.Cfg.Init.{cfg_init}
use way_displays.Cfg.Validate.{IsUsable}
use way_displays.Ipc.{IpcRequest, ipc_request_init}
use way_displays.Args.{Conversions, Parsed, parsed, int32_of}
use way_displays.Args.Element.{cfg_disabled_init}
use way_displays.Args.Requests.{args_ipc_set}
use way_displays.Yaml.Parts.{Distinct}
use way_displays.Yaml.ModeBack.{IsTransform}
use way_displays.Info.{Format}
use way_displays.Info.Shell.{words}
use way_displays.Info.Commands.{Line, thousandth}

module _ (pf : Platform) (conv : Conversions pf.Real) (fmt : Format pf.Real) (addr : ℕ) where
  open pf use {lib, Real, of_int, mul, lt}
  open lib use {sp, ss, ps}

  -- What `args_ipc_set` reads of each command. The struct of a mode is placed at `addr`.
  abbrev pub replies : List Line → List (Parsed (IpcRequest Real))
  replies [] = []
  replies (none ∷ ls) = replies ls
  replies (some c ∷ ls) = args_ipc_set pf conv addr c.element (words c.args) ∷ replies ls

  abbrev pub sets : Cfg Real → Parsed (IpcRequest Real)
  sets part = parsed (record (ipc_request_init (some IpcCommand.cfg_set)) { cfg = some part })

  abbrev pub nothing : Cfg Real
  nothing = cfg_init pf

  abbrev pub arrange_align_parts : Option Align → Option Arrange → List (Cfg Real)
  arrange_align_parts (some align) (some arrange) =
      record nothing { arrange = some arrange; align = some align } ∷ []
  arrange_align_parts _ _ = []

  abbrev pub order_parts : List String → List (Cfg Real)
  order_parts [] = []
  order_parts (s ∷ l) = record nothing { order_name_desc = s ∷ l } ∷ []

  abbrev pub scaling_parts : Option OnOff → List (Cfg Real)
  scaling_parts none = []
  scaling_parts (some v) = record nothing { scaling = some v } ∷ []

  abbrev pub auto_scale_parts : Option OnOff → List (Cfg Real)
  auto_scale_parts none = []
  auto_scale_parts (some v) = record nothing { auto_scale = some v } ∷ []

  -- The mode without what is not printed.
  abbrev pub restated : Mode → Mode
  restated m = if m.max then record (mode_init addr) { max = true } else record (mode_init addr) {
    width = m.width;
    height = m.height;
    refresh_mhz = m.refresh_mhz;
  }

  abbrev pub mode_parts : List (String × Mode) → List (Cfg Real)
  mode_parts [] = []
  mode_parts ((name, m) ∷ rest) =
      let more = mode_parts rest in
      if m.max_preferred_refresh
      then more
      else record nothing { modes = (name, restated m) ∷ [] } ∷ more

  abbrev pub disabled_parts : List (String × CfgDisabled) → List (Cfg Real)
  disabled_parts [] = []
  disabled_parts ((name, d) ∷ rest) =
      let more = disabled_parts rest in
      if length d.conditions == 0
      then record nothing { disableds = (name, cfg_disabled_init) ∷ [] } ∷ more
      else more

  abbrev pub callback_parts : Option String → List (Cfg Real)
  callback_parts none = []
  callback_parts (some cmd) = record nothing { callback_cmd = some cmd } ∷ []

  -- The configuration, in parts that one command can set.
  abbrev pub parts : Cfg Real → List (Cfg Real)
  parts cfg =
      arrange_align_parts cfg.align cfg.arrange
      ++ (order_parts cfg.order_name_desc
          ++ (scaling_parts cfg.scaling
              ++ (auto_scale_parts cfg.auto_scale
                  ++ (map (λ e. record nothing { scales = e ∷ [] }) cfg.scales
                      ++ (mode_parts cfg.modes
                          ++ (map (λ e. record nothing { transforms = e ∷ [] }) cfg.transforms
                              ++ (disabled_parts cfg.disableds
                                  ++ (map (λ s. record nothing { adaptive_sync_off = s ∷ [] })
                                        cfg.adaptive_sync_off
                                      ++ callback_parts cfg.callback_cmd))))))))

  -- A number is read as it is printed.
  abbrev pub ScaleBack : ℕ → Type 0
  ScaleBack v =
      let scale = conv.strtof (fmt.three (thousandth pf fmt (pos v))) in
      (lt (of_int (pos 0)) scale ≡ true)
      × (conv.size_of (conv.round (mul scale (of_int (pos 1000)))) ≡ v)

  abbrev pub HzBack : ℤ → Type 0
  HzBack mhz =
      int32_of
        (conv.lround (mul (conv.atof (fmt.general (thousandth pf fmt mhz))) (of_int (pos 1000))))
      ≡ mhz

  abbrev pub IntBack : ℤ → Type 0
  IntBack z = (conv.atoi (fmt.int z) ≡ z) × (strcasecmp (fmt.int z) "MAX" ≡ false)

  -- A mode that may be asked for; those of its numbers that are printed are read as they are printed.
  pub record ModeBack (m : Mode) : Type 0 where
    pub usable : IsUsable m
    pub width_back : m.max ≡ false → IntBack m.width
    pub height_back : m.max ≡ false → IntBack m.height
    pub hz_back : eqb_ℤ m.refresh_mhz (negsuc 0) ≡ false → HzBack m.refresh_mhz

  -- Numbers are read as they are printed, modes may be asked for, transforms are those of the protocol,
  -- and no name comes twice in the order.
  pub record Printable (cfg : Cfg Real) : Type 0 where
    pub order : Distinct cfg.order_name_desc
    pub scales : All (λ e. ScaleBack e.1) cfg.scales
    pub modes : All (λ e. ModeBack e.1) cfg.modes
    pub transforms : All (λ e. IsTransform e.1) cfg.transforms
