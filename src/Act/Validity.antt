-- ===== src/Act/Validity.antt =====
-- `act` of src/act.c leaves a valid configuration valid: `desire` only remembers in it what was warned of.
use text.Mathlib.Text.{◌==◌ as str_eq}
use way_displays.Prelude.{
  ℕ, ◌==◌, ◌≡◌, refl, sym, subst, Bool, Option, none, some, String, List, [], ◌∷◌, ◌++◌, All, pick,
  if◌then◌else◌,
}
use way_displays.Enums.{DisplState, LogThreshold}
use way_displays.Platform.{Platform}
use way_displays.Mode.{Mode}
use way_displays.Cfg.{Cfg}
use way_displays.Cfg.Validate.{IsUsable, IsValid}
use way_displays.Lid.{Lid}
use way_displays.Head.{Head}
use way_displays.Head.FindMode.{
  FindMode, Message, warn_user_mode, warn_user, user_mode, user_choice, preferred, head_find_mode,
}
use way_displays.World.{World, Outcome, running, exited, fault, ◌>>=◌}
use way_displays.Desire.{Desired, desire_mode, desire_enabled, desire_head}
use way_displays.Desire.All.{desire_each, desire}
use way_displays.Act.{in_state, print_arrivals, settle, act_in, act}
use way_displays.Act.Apply.{act_apply}
use way_displays.Act.Handlers.{act_handle_failure, act_handle_success, act_handle_cancelled}
use way_displays.Act.HandlerLaws.{cancelled_lem}
use way_displays.Act.Machine.{EndsQuiet, quiet_failure, quiet_success}

abbrev AreUsable : List (String × Mode) → Type 0
AreUsable modes = All (λ e. IsUsable e.1) modes

warn_user_mode-AreUsable :
    (k : String) (modes : List (String × Mode))
    → AreUsable modes
    → AreUsable (warn_user_mode k modes)
warn_user_mode-AreUsable k [] u = tt
warn_user_mode-AreUsable k ((j, m) ∷ rest) u =
    pick AreUsable (str_eq j k) _ _
      (λ e. (
        record {
          width_ok = u.0.width_ok;
          height_ok = u.0.height_ok;
          refresh_ok = u.0.refresh_ok;
          resolution_ok = u.0.resolution_ok;
        },
        u.1,
      ))
      (λ e. (u.0, warn_user_mode-AreUsable k rest u.1))

-- A valid configuration stays so with other modes that are usable.
modes-IsValid :
    {Real : Type 0} (cfg : Cfg Real) (modes : List (String × Mode))
    → IsValid cfg
    → AreUsable modes
    → IsValid (record cfg { modes = modes })
modes-IsValid cfg modes v u = record { aligned = v.aligned; dpi_above = v.dpi_above; usable = u }

module _ (pf : Platform) where
  open pf use {lib, Real}
  open lib use {pp}

  warn_user-AreUsable :
      (user : Option (String × Mode)) (chosen : Option Mode) (head : Head)
      (modes : List (String × Mode))
      → AreUsable modes
      → AreUsable (warn_user pf user chosen head modes).0
  warn_user-AreUsable none chosen head modes u = u
  warn_user-AreUsable (some (k, m)) (some c) head modes u = u
  warn_user-AreUsable (some (k, m)) none head modes u =
      pick (λ (r : List (String × Mode) × List (LogThreshold × Message)). AreUsable r.0)
        m.warned_no_mode _ _ (λ e. u) (λ e. warn_user_mode-AreUsable k modes u)

  found-AreUsable :
      (cfg : Cfg Real) (head : Head)
      → IsValid cfg
      → AreUsable (head_find_mode pf cfg head).modes_cfg
  unfolding head_find_mode
  found-AreUsable cfg head v =
      let user = user_choice pf (user_mode pf cfg head) (preferred pf head) head.modes in
      pick (λ (r : FindMode). AreUsable r.modes_cfg) (pp.size head.modes == 0) _ _ (λ e. v.usable)
        (λ e. warn_user-AreUsable (user_mode pf cfg head) user head cfg.modes v.usable)

  desire_head-IsValid :
      (cfg : Cfg Real) (lid : Option Lid) (heads : List (ℕ × Head)) (head : Head)
      → IsValid cfg
      → IsValid (desire_head pf cfg lid heads head).cfg
  unfolding desire_head desire_mode
  desire_head-IsValid cfg lid heads head v =
      let h = desire_enabled pf cfg lid heads (record head { des = head.cur }) in
      pick (λ (r : Desired Real). IsValid r.cfg) h.des.enabled _ _
        (λ e. modes-IsValid cfg (head_find_mode pf cfg h).modes_cfg v (found-AreUsable cfg h v))
        (λ e. v)

  desire_each-IsValid :
      (cfg : Cfg Real) (lid : Option Lid) (before rest : List (ℕ × Head))
      (messages : List (LogThreshold × Message))
      → IsValid cfg
      → IsValid (desire_each pf cfg lid before rest messages).cfg
  unfolding desire_each
  desire_each-IsValid cfg lid before [] messages v = v
  desire_each-IsValid cfg lid before ((z, h) ∷ rest) messages v =
      let d = desire_head pf cfg lid (before ++ ((z, h) ∷ rest)) h in
      desire_each-IsValid d.cfg lid (before ++ ((z, d.head) ∷ [])) rest (messages ++ d.messages)
        (desire_head-IsValid cfg lid (before ++ ((z, h) ∷ rest)) h v)

  act_apply-cfg : (w : World Real) → (act_apply pf w).cfg ≡ w.cfg
  unfolding act_apply
  act_apply-cfg w = pick (λ (v : World Real). v.cfg ≡ w.cfg) _ _ _ (λ e. refl) (λ e. refl)

  settle-IsValid : (w : World Real) → IsValid w.cfg → IsValid (settle pf w).cfg
  unfolding settle desire
  settle-IsValid w v =
      subst IsValid (sym (act_apply-cfg (desire pf w)))
        (desire_each-IsValid w.cfg w.lid [] w.displ.heads w.messages v)

  abbrev pub EndsValid : Outcome Real → Type 0
  EndsValid (running v) = IsValid v.cfg
  EndsValid (exited status v) = Unit
  EndsValid fault = Unit

  settled-EndsValid :
      (w : World Real) (o : Outcome Real)
      → IsValid w.cfg
      → EndsQuiet pf w o
      → EndsValid (o >>= λ v. running (settle pf (in_state DisplState.idle v)))
  settled-EndsValid w (running v) i (r, s, n, c) =
      settle-IsValid (in_state DisplState.idle v) (subst IsValid (sym c) i)
  settled-EndsValid w (exited status v) i q = tt
  settled-EndsValid w fault i q = tt

  retried-EndsValid :
      (w : World Real) (retry : Bool)
      → IsValid w.cfg
      → EndsValid (running (if retry then settle pf w else w))
  retried-EndsValid w retry v =
      pick (λ (x : World Real). IsValid x.cfg) retry (settle pf w) w (λ e. settle-IsValid w v)
        (λ e. v)

  act_in-EndsValid :
      (state : DisplState) (w : World Real) → IsValid w.cfg → EndsValid (act_in pf state w)
  unfolding act_in act_handle_failure act_handle_success act_handle_cancelled
  act_in-EndsValid DisplState.succeeded w v = settled-EndsValid w (act_handle_success pf w) v (
      quiet_success pf w.displ.delta.element w.displ.delta.head
        (record w { cancellation_retries = 0 }))
  act_in-EndsValid DisplState.outstanding w v = v
  act_in-EndsValid DisplState.failed w v =
      settled-EndsValid w (act_handle_failure pf w) v
        (quiet_failure pf w.displ.delta.element w.displ.delta.head w)
  act_in-EndsValid DisplState.cancelled w v =
      let w' = in_state DisplState.idle w in
      retried-EndsValid (act_handle_cancelled w').0 (act_handle_cancelled w').1
        (subst IsValid (sym (cancelled_lem w').4) v)
  act_in-EndsValid DisplState.idle w v = settle-IsValid w v

  pub act-EndsValid : (w : World Real) → IsValid w.cfg → EndsValid (act pf w)
  unfolding act
  act-EndsValid w v = act_in-EndsValid w.displ.state (print_arrivals w) v
