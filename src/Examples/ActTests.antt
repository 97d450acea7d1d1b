-- ===== src/Examples/ActTests.antt =====
-- The theorems on the machine that applies the changes, where the mode of the monitor has failed.
use way_displays.Prelude.{[], ◌↔◌, All, ◌≡◌, refl, inl, ℤ, none, some, [], arith}
use way_displays.Enums.{DisplState, CfgElement}
use way_displays.Head.{Head}
use way_displays.Displ.{head_at}
use way_displays.World.{World, running, fault}
use way_displays.Act.{act}
use way_displays.Act.Handlers.{act_handle_failure, act_handle_success}
use way_displays.Act.HandlerLaws.{
  ModeFailed, mode_failure_lem, IsAlone, without_head, freed_head_faults,
}
use way_displays.Act.Machine.{Answers, one_configuration, act_cancelled_lem}
use way_displays.Act.Apply.{act_apply}
use way_displays.Act.Refusals.{refusals, refusals_end}
use way_displays.Head.FindMode.{head_find_mode}
use way_displays.Head.FindModeLaws.{IsUnique}
use way_displays.Act.Settled.{IsSettled, apply-IsSettled}
use way_displays.Examples.Concrete.{desk, world, displ, monitor, fhd_144, cfg}

one_configuration_example : Answers desk world (act desk world)
one_configuration_example = one_configuration desk world (ground arith)

mode_failure_lem_example :
    (v : World ℤ) × (after : Head) × (act_handle_failure desk world ≡ running v)
    × (head_at v.displ.heads 7 ≡ some after)
    × ModeFailed desk 13 fhd_144 monitor after
    × (v.displ.delta.head ≡ none)
unfolding head_at
mode_failure_lem_example = mode_failure_lem desk world 7 13 fhd_144 monitor refl refl refl refl refl

alone : IsAlone desk displ.heads 1 7
alone z h i e = ground arith

freed_head_faults_example :
    (act_handle_success desk (without_head desk world 1 99) ≡ fault)
    × (act_handle_failure desk (without_head desk world 1 99) ≡ fault)
freed_head_faults_example =
    freed_head_faults desk world 1 99 monitor CfgElement.mode refl alone refl (inl refl) refl

abbrev cancelled_again : World ℤ
cancelled_again = record world {
  cancellation_retries = 5;
  displ = record displ { state = DisplState.cancelled };
}

act_cancelled_lem_example :
    (v : World ℤ) × (act desk cancelled_again ≡ running v)
    × (v.cancellation_retries ≡ 6)
    × (v.requests ≡ [])
    × (v.displ.state ≡ DisplState.idle)
    × (v.displ.heads ≡ displ.heads)
    × (v.cfg ≡ cfg)
act_cancelled_lem_example = act_cancelled_lem desk cancelled_again refl

apply-IsSettled_example : ((act_apply desk world).requests ≡ []) ↔ All IsSettled displ.heads
apply-IsSettled_example = apply-IsSettled desk world

unique : IsUnique monitor.modes
unique e f i j s = ground arith

refusals_end_example :
    ((refusals desk cfg 3 monitor).modes ≡ [])
    × ((head_find_mode desk cfg (refusals desk cfg 3 monitor)).zmode ≡ none)
refusals_end_example = refusals_end desk cfg monitor unique
