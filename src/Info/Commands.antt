-- ===== src/Info/Commands.antt =====
-- `print_cfg_commands` of src/info/print.c: the commands that set what a configuration has. A line is an
-- empty one or a command, whose arguments are quoted or not.
use way_displays.Prelude.{
  ℕ, ◌==◌, ltb, ℤ, pos, negsuc, eqb_ℤ, Option, none, some, String, List, [], ◌∷◌, ◌++◌,
  if◌then◌else◌,
}
use way_displays.Enums.{Arrange, Align, OnOff, arrange_code, align_code, on_off_code}
use way_displays.Enums.Names.{_name, arranges, aligns, on_offs, transforms}
use way_displays.Platform.{Platform}
use way_displays.Mode.{Mode}
use way_displays.Cfg.{Cfg, CfgDisabled}
use way_displays.Yaml.Marshal.{flat, name_in}
use way_displays.Info.{Format, text_of}
use way_displays.Info.Delta.{◌+++◌}

pub data Argument : Type 0 where
  bare quoted : String → Argument

-- `tail` is what stands behind the last argument.
pub record Command : Type 0 where
  pub element : String
  pub args : List Argument
  pub tail : String

-- A line that is NULL is an empty one.
abbrev pub Line : Type 0
Line = Option Command

abbrev pub command : String → List Argument → Line
command element args = some (record { element = element; args = args; tail = "" })

abbrev pub argument_text : Argument → String
argument_text (bare s) = s
argument_text (quoted s) = "'" +++ s +++ "'"

abbrev pub args_text : List Argument → String → String
args_text [] tail = tail
args_text (a ∷ as') tail = " " +++ argument_text a +++ args_text as' tail

-- What is logged of a line.
abbrev pub line_text : Line → String
line_text none = ""
line_text (some c) = "way-displays -s " +++ c.element +++ args_text c.args c.tail

-- `print_newline`, before the first line that is printed.
abbrev pub below_newline : List Line → List Line
below_newline [] = []
below_newline (l ∷ ls) = none ∷ l ∷ ls

unfoldable pub arrange_align_lines : Option Align → Option Arrange → List Line
arrange_align_lines (some align) (some arrange) =
    none
    ∷ command "ARRANGE_ALIGN" (
        bare (text_of (name_in arranges arrange_code (some arrange)))
        ∷ bare (text_of (name_in aligns align_code (some align)))
        ∷ [])
    ∷ []
arrange_align_lines _ _ = []

abbrev pub quoted_all : List String → List Argument
quoted_all [] = []
quoted_all (s ∷ l) = quoted s ∷ quoted_all l

unfoldable pub on_off_lines : String → Option OnOff → List Line
on_off_lines element none = []
on_off_lines element (some v) =
    none ∷ command element (bare (text_of (name_in on_offs on_off_code (some v))) ∷ []) ∷ []

unfoldable pub transform_lines : List (String × ℕ) → List Line
transform_lines [] = []
transform_lines ((name, t) ∷ rest) =
    command "TRANSFORM" (quoted name ∷ bare (text_of (flat (_name transforms t))) ∷ [])
    ∷ transform_lines rest

unfoldable pub vrr_off_lines : List String → List Line
vrr_off_lines [] = []
vrr_off_lines (name ∷ rest) = command "VRR_OFF" (quoted name ∷ []) ∷ vrr_off_lines rest

unfoldable pub callback_lines : Option String → List Line
callback_lines none = []
callback_lines (some cmd) = none ∷ command "CALLBACK_CMD" (quoted cmd ∷ []) ∷ []

module _ (pf : Platform) (fmt : Format pf.Real) where
  open pf use {lib, Real, of_int, div}
  open lib use {ss, ps}

  unfoldable pub order_lines : List String → List Line
  order_lines order =
      if ltb 0 (ss.size order)
      then none ∷ some (record { element = "ORDER"; args = quoted_all order; tail = " " }) ∷ []
      else []

  abbrev pub thousandth : ℤ → Real
  thousandth n = div (of_int n) (of_int (pos 1000))

  unfoldable pub scale_lines : List (String × ℕ) → List Line
  scale_lines [] = []
  scale_lines ((name, v) ∷ rest) =
      command "SCALE" (quoted name ∷ bare (fmt.three (thousandth (pos v))) ∷ []) ∷ scale_lines rest

  abbrev pub mode_args : Mode → List Argument
  mode_args m =
      if m.max
      then bare "MAX" ∷ []
      else bare (fmt.int m.width)
        ∷ bare (fmt.int m.height)
        ∷ (if eqb_ℤ m.refresh_mhz (negsuc 0)
            then []
            else bare (fmt.general (thousandth m.refresh_mhz)) ∷ [])

  -- A mode with the preferred resolution has no command.
  unfoldable pub mode_lines : List (String × Mode) → List Line
  mode_lines [] = []
  mode_lines ((name, m) ∷ rest) =
      let more = mode_lines rest in
      if m.max_preferred_refresh then more else command "MODE" (quoted name ∷ mode_args m) ∷ more

  -- Displays that are disabled whatever holds.
  unfoldable pub disabled_lines : List (String × CfgDisabled) → List Line
  disabled_lines [] = []
  disabled_lines ((name, d) ∷ rest) =
      let more = disabled_lines rest in
      if ps.size d.conditions == 0 then command "DISABLED" (quoted name ∷ []) ∷ more else more

  unfoldable pub print_cfg_commands : Cfg Real → List Line
  unfolding arrange_align_lines order_lines on_off_lines scale_lines mode_lines transform_lines
      disabled_lines vrr_off_lines callback_lines
  print_cfg_commands cfg =
      arrange_align_lines cfg.align cfg.arrange
      ++ (order_lines cfg.order_name_desc
          ++ (on_off_lines "SCALING" cfg.scaling
              ++ (on_off_lines "AUTO_SCALE" cfg.auto_scale
                  ++ (below_newline (scale_lines cfg.scales)
                      ++ (below_newline (mode_lines cfg.modes)
                          ++ (below_newline (transform_lines cfg.transforms)
                              ++ (below_newline (disabled_lines cfg.disableds)
                                  ++ (below_newline (vrr_off_lines cfg.adaptive_sync_off)
                                      ++ callback_lines cfg.callback_cmd))))))))
