-- ===== src/Cfg/Merge.antt =====
-- The merges of src/cfg/cfg.c, by which the commands set, delete and toggle change the configuration.
-- `cfg_clone` makes deep copies, so that a configuration is a value; NULL configurations are the
-- callers' concern.
pub mod Laws
use way_displays.Prelude.{
  ℕ, ◌==◌, Bool, true, false, Option, none, some, String, List, [], ◌∷◌, if◌then◌else◌, or_else,
  not,
}
use way_displays.Enums.{OnOff, IpcCommand}
use way_displays.Platform.{Platform}
use way_displays.Cfg.{Cfg, CfgDisabled}
use way_displays.Cfg.Equal.{cfg_equal}
use way_displays.Cfg.Validate.{cfg_validate_fix}

-- `(val == ON) ? OFF : ON`, where an unset value is not ON.
unfoldable pub on_off_invert : Option OnOff → Option OnOff
on_off_invert (some OnOff.on) = some OnOff.off
on_off_invert _ = some OnOff.on

-- What CFG_TOGGLE does with a switch: the request passes ON whatever the state.
unfoldable pub toggle_on_off : Option OnOff → Option OnOff → Option OnOff
unfolding on_off_invert
toggle_on_off (some OnOff.on) merged = on_off_invert merged
toggle_on_off _ merged = merged

module _ (pf : Platform) where
  open pf use {lib, Real}
  open lib use {sp, ss}

  unfoldable pub cfg_merge_set : Cfg Real → Cfg Real → Cfg Real
  cfg_merge_set to from = record to {
    align = or_else from.align to.align;
    arrange = or_else from.arrange to.arrange;
    auto_scale = or_else from.auto_scale to.auto_scale;
    scaling = or_else from.scaling to.scaling;
    callback_cmd = or_else from.callback_cmd to.callback_cmd;
    disableds = sp.put_all to.disableds from.disableds;
    modes = sp.put_all to.modes from.modes;
    scales = sp.put_all to.scales from.scales;
    transforms = sp.put_all to.transforms from.transforms;
    adaptive_sync_off = ss.add_all to.adaptive_sync_off from.adaptive_sync_off;
    order_name_desc =
        if ss.size from.order_name_desc == 0 then to.order_name_desc else from.order_name_desc;
  }

  -- Any callback in the request means none.
  abbrev pub del_callback : Option String → Option String → Option String
  del_callback none old = old
  del_callback (some c) old = some ""

  unfoldable pub cfg_merge_del : Cfg Real → Cfg Real → Cfg Real
  cfg_merge_del to from = record to {
    disableds = sp.remove_in to.disableds from.disableds;
    modes = sp.remove_in to.modes from.modes;
    scales = sp.remove_in to.scales from.scales;
    transforms = sp.remove_in to.transforms from.transforms;
    adaptive_sync_off = ss.remove_in to.adaptive_sync_off from.adaptive_sync_off;
    callback_cmd = del_callback from.callback_cmd to.callback_cmd;
  }

  -- `sset_remove` answers whether the set contained the text; if not, it is added.
  unfoldable pub toggle_vrr : List String → List String → List String
  toggle_vrr s [] = s
  toggle_vrr s (v ∷ vs) = toggle_vrr (if ss.contains s v then ss.remove s v else ss.add s v) vs

  -- `spmap_put_if_absent_clone` answers the value that is present; if one is, it is removed.
  abbrev pub toggle_one :
      Option CfgDisabled
      → List (String × CfgDisabled)
      → String
      → CfgDisabled
      → List (String × CfgDisabled)
  toggle_one none m k d = sp.put_if_absent m k d
  toggle_one (some old) m k d = sp.remove m k

  unfoldable pub toggle_disableds :
      List (String × CfgDisabled) → List (String × CfgDisabled) → List (String × CfgDisabled)
  toggle_disableds m [] = m
  toggle_disableds m ((k, d) ∷ rest) = toggle_disableds (toggle_one (sp.get m k) m k d) rest

  unfoldable pub cfg_merge_toggle : Cfg Real → Cfg Real → Cfg Real
  unfolding toggle_on_off toggle_vrr toggle_disableds
  cfg_merge_toggle to from = record to {
    scaling = toggle_on_off from.scaling to.scaling;
    auto_scale = toggle_on_off from.auto_scale to.auto_scale;
    adaptive_sync_off = toggle_vrr to.adaptive_sync_off from.adaptive_sync_off;
    disableds = toggle_disableds to.disableds from.disableds;
  }

  -- The `switch` of `cfg_merge`.
  unfoldable pub merge_by : IpcCommand → Cfg Real → Cfg Real → Option (Cfg Real)
  merge_by IpcCommand.cfg_del to from = some (cfg_merge_del to from)
  merge_by IpcCommand.cfg_toggle to from = some (cfg_merge_toggle to from)
  merge_by IpcCommand.cfg_set to from = some (cfg_merge_set to from)
  merge_by _ to from = none

  -- NULL (`none`) means that the configuration does not change.
  abbrev pub changed : Cfg Real → Cfg Real → Option (Cfg Real)
  changed to merged = if cfg_equal pf merged to then none else some merged

  unfoldable pub cfg_merge : Cfg Real → Option (Cfg Real) → IpcCommand → Option (Cfg Real)
  unfolding merge_by
  cfg_merge to none command = none
  cfg_merge to (some from) command = elim (merge_by command to from) [
    | none ↦ none
    | some merged ↦ changed to (cfg_validate_fix merged)
  ]
