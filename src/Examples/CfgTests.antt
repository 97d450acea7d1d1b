-- ===== src/Examples/CfgTests.antt =====
-- The theorems on the configuration, at the configuration of a laptop and a request to change it.
use way_displays.Prelude.{
  inl, ℤ, ◌≡◌, refl, ◌⊎◌, ◌&&◌, not, Bool, false, Option, none, some, String, List, [], ◌∷◌,
  is_some, or_else, if◌then◌else◌, pos,
}
use way_displays.Enums.{IpcCommand, Arrange, Align}
use way_displays.Cfg.Clashes.{
  cfg_disabled_cond_with_name_desc, cfg_disabled_filter_conditional_clashes,
  filter_conditional_clashes_lem,
}
use way_displays.Cfg.{CfgDisabled, Cfg}
use way_displays.Cfg.Equal.{cfg_equal}
use way_displays.Cfg.Validate.{cfg_validate_fix, IsValid}
use way_displays.Cfg.Valid.{validate_fix-IsValid}
use way_displays.Cfg.Merge.{cfg_merge_set, cfg_merge_del, cfg_merge_toggle, cfg_merge}
use way_displays.Cfg.Merge.Laws.{toggle_twice, set_then_del, merge_sound}
use way_displays.Prelude.Text.{strlen}
use way_displays.Platform.{Platform}
use text.Mathlib.Text.{◌==◌ as str_eq}
use way_displays.Examples.Concrete.{desk, cfg}

abbrev request : Cfg ℤ
request = record cfg {
  arrange = some Arrange.col;
  align = some Align.middle;
  auto_scale_dpi = pos 0;
  scales = ("HDMI", 2000) ∷ [];
  adaptive_sync_off = "DP-1" ∷ [];
  disableds = ("eDP-1", record { conditions = [] }) ∷ [];
}

abbrev get : {V : Type 0} → List (String × V) → String → Option V
get = desk.lib.sp.get

abbrev contains : List String → String → Bool
contains = desk.lib.ss.contains

validate_fix-IsValid_example : IsValid (cfg_validate_fix request)
validate_fix-IsValid_example = validate_fix-IsValid request

-- A laptop panel, found by the regular expression of the defaults.
abbrev laptop : Platform
laptop = record desk { regcomp = λ s. some (λ t. str_eq t "eDP-1") }

toggle_twice_example :
    let again = cfg_merge_toggle desk (cfg_merge_toggle desk cfg request) request in
    (again.scaling ≡ cfg.scaling)
    × (again.auto_scale ≡ cfg.auto_scale)
    × (contains again.adaptive_sync_off "DP-1" ≡ contains cfg.adaptive_sync_off "DP-1")
    × (is_some (get again.disableds "DP-1") ≡ is_some (get cfg.disableds "DP-1"))
toggle_twice_example = toggle_twice desk cfg request "DP-1" refl refl

set_then_del_example :
    let after = cfg_merge_del desk (cfg_merge_set desk cfg request) request in
    (get after.scales "HDMI" ≡ none)
    × (get after.modes "HDMI" ≡ get cfg.modes "HDMI")
    × (get after.transforms "HDMI" ≡ get cfg.transforms "HDMI")
    × (get after.disableds "HDMI" ≡ get cfg.disableds "HDMI")
    × (contains after.adaptive_sync_off "HDMI" ≡ contains cfg.adaptive_sync_off "HDMI")
    × (after.callback_cmd ≡ (if is_some request.callback_cmd then some "" else cfg.callback_cmd))
    × (after ≡ record cfg {
      scales = after.scales;
      modes = after.modes;
      transforms = after.transforms;
      disableds = after.disableds;
      adaptive_sync_off = after.adaptive_sync_off;
      callback_cmd = after.callback_cmd;
      arrange = some Arrange.col;
      align = some Align.middle;
      scaling = or_else request.scaling cfg.scaling;
      auto_scale = or_else request.auto_scale cfg.auto_scale;
      order_name_desc = request.order_name_desc;
    })
set_then_del_example = set_then_del desk cfg request "HDMI"

abbrev merged : Cfg ℤ
merged = cfg_validate_fix (cfg_merge_set desk cfg request)

merge_sound_example :
    IsValid merged
    × (cfg_equal desk merged cfg ≡ false)
    × ((IpcCommand.cfg_set ≡ IpcCommand.cfg_set)
        ⊎ (IpcCommand.cfg_set ≡ IpcCommand.cfg_del)
        ⊎ (IpcCommand.cfg_set ≡ IpcCommand.cfg_toggle))
unfolding cfg_merge cfg_equal cfg_validate_fix cfg_merge_set
merge_sound_example = merge_sound desk cfg merged (some request) IpcCommand.cfg_set refl

abbrev lid_closed : String × CfgDisabled
lid_closed =
    ("eDP-1", record { conditions = record { plugged = []; unplugged = []; lid = none } ∷ [] })

abbrev other : String × CfgDisabled
other = ("HDMI", record { conditions = [] })

filter_conditional_clashes_lem_example :
    cfg_disabled_cond_with_name_desc desk "HDMI" lid_closed ≡ false
unfolding cfg_disabled_filter_conditional_clashes way_displays.Prelude.Text.strcasestr
    way_displays.Prelude.Text.strlen
filter_conditional_clashes_lem_example =
    filter_conditional_clashes_lem desk (lid_closed ∷ [])
      (("edp", record { conditions = [] }) ∷ other ∷ []) other lid_closed (inl refl) (inl refl)
