-- ===== src/Examples/DesireTests.antt =====
-- The theorems on what is desired, for a laptop with a monitor.
use mathlib.Core.List.{Perm}
use way_displays.Prelude.{◌≡◌, refl, pos, none, some, List, [], ◌∷◌, map, arith}
use way_displays.Enums.{Arrange, Align, ManualOverride, IpcCommand}
use way_displays.Head.{Head}
use way_displays.Head.Override.{override_by}
use way_displays.Desire.Override.{decision, override-decision}
use mathlib.Core.Bool.{true, false}
use way_displays.Desire.{desire_head}
use way_displays.Desire.Order.{desire_order}
use way_displays.Desire.OrderLaws.{desire_order_perm}
use way_displays.Desire.Enabled.{disabled_keeps_output}
use way_displays.Desire.Positions.{largest, desire_positions}
use way_displays.Desire.Row.{InRow, ApartInRow, positions-InRow}
use way_displays.Desire.Column.{InColumn, ApartInColumn, positions-InColumn}
use way_displays.Examples.Concrete.{desk, cfg, monitor, panel, displ}

abbrev two : List Head
two = monitor ∷ panel ∷ []

positions-InRow_example :
    InRow
      (largest (λ h. h.scaled_height) (pos 0) two)
      (pos 0)
      (desire_positions none (some Align.bottom) two)
    × ApartInRow (desire_positions none (some Align.bottom) two)
positions-InRow_example = positions-InRow none (some Align.bottom) two (ground arith) (ground arith)

positions-InColumn_example :
    let heads = desire_positions (some Arrange.col) (some Align.right) two in
    InColumn (largest (λ h. h.scaled_width) (pos 0) two) (pos 0) heads × ApartInColumn heads
positions-InColumn_example = positions-InColumn (some Align.right) two (ground arith)

desire_order_perm_example :
    Perm (desire_order desk ("eDP-1" ∷ "DP" ∷ []) displ.heads) (map (λ e. e.1) displ.heads)
desire_order_perm_example = desire_order_perm desk ("eDP-1" ∷ "DP" ∷ []) displ.heads

abbrev turned_off : Head
turned_off = record monitor { overrided_enabled = ManualOverride.override_false }

disabled_keeps_output_example :
    ((desire_head desk cfg none displ.heads turned_off).head.des.zmode
      ≡ (desire_head desk cfg none displ.heads turned_off).head.cur.zmode)
    × ((desire_head desk cfg none displ.heads turned_off).head.des.adaptive_sync
        ≡ (desire_head desk cfg none displ.heads turned_off).head.cur.adaptive_sync)
unfolding desire_head way_displays.Desire.desire_reapply
    way_displays.Desire.desire_scaled_dimensions way_displays.Desire.desire_adaptive_sync
    way_displays.Desire.desire_transform way_displays.Desire.desire_scale
    way_displays.Desire.desire_mode way_displays.Desire.desire_enabled
    way_displays.Cfg.Disabled.cfg_disabled_applies_to_head
disabled_keeps_output_example = disabled_keeps_output desk cfg none displ.heads turned_off refl refl

override-decision_example :
    (decision false (override_by IpcCommand.cfg_toggle monitor) ≡ false)
    × (decision false (
          override_by IpcCommand.cfg_del
            (record monitor { cur = record monitor.cur { enabled = false } }))
        ≡ true)
    × (decision false (
          override_by IpcCommand.cfg_set
            (record monitor { cur = record monitor.cur { enabled = true } }))
        ≡ false)
override-decision_example = override-decision false monitor refl
