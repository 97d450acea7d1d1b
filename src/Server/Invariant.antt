-- ===== src/Server/Invariant.antt =====
-- What every turn of the loop of src/server.c keeps: the configuration is valid, the display is at rest,
-- and an operation is in progress only while a configuration is outstanding.
use way_displays.Prelude.{
  ◌≡◌, refl, sym, subst, inl, inr, true, false, not, Option, none, some, List, pick,
}
use way_displays.Enums.{DisplState}
use way_displays.Log.{LogCapLine}
use way_displays.Platform.{Platform}
use way_displays.Cfg.Merge.Laws.{merge_sound}
use way_displays.Cfg.Validate.{IsValid}
use way_displays.Cfg.File.Laws.{reload-IsValid}
use way_displays.World.{World, Outcome, running, exited, fault}
use way_displays.Act.{act}
use way_displays.Act.AtRest.{IsAtRest, EndsAtRest, act-EndsAtRest}
use way_displays.Act.Validity.{EndsValid, act-EndsValid}
use way_displays.Ipc.{
  IpcOperation, Delivery, delivered, not_marshalled, not_written, ipc_send_operation,
  ipc_operation_update_rc,
}
use way_displays.Server.{Server, goes_on, after_send, notify_ipc_operation}
use way_displays.Server.Kept.{
  Holds, Holds-bind, IsKept, after_send-world, until_act-Keeps, signalled-Keeps,
}
use way_displays.Server.Turn.{
  Input, signalled, after_act, act_turn, inform, informed_of, reported, react, dispatch, turn,
}

-- An operation in progress is not done, and waits for an answer of the compositor.
abbrev pub IsBusy : {Real : Type 0} → Option (IpcOperation Real) → DisplState → Type 0
IsBusy none state = Unit
IsBusy (some o) state = (o.done ≡ false) × (state ≡ DisplState.outstanding)

pub record IsSettled {Real : Type 0} (s : Server Real) : Type 0 where
  pub valid : IsValid s.world.cfg
  pub at_rest : IsAtRest s.world.displ.state
  pub busy : IsBusy s.operation s.world.displ.state

module _ (pf : Platform) where
  open pf use {Real}

  abbrev HasValid : World Real → Type 0
  HasValid w = IsValid w.cfg

  valid_kept : IsKept pf HasValid
  valid_kept = record {
    by_merge = λ w req command m e v. (merge_sound pf w.cfg m req command e).0;
    by_reload = λ w fs f log v. reload-IsValid pf fs f log w.cfg v;
    by_heads = λ w heads v. v;
    by_lid = λ w lid v. v;
  }

  -- After `act`.
  abbrev HasActed : Server Real → Type 0
  HasActed s = IsValid s.world.cfg × IsAtRest s.world.displ.state

  acted :
      (s : Server Real) (o : Outcome Real)
      → EndsValid pf o
      → EndsAtRest pf o
      → Holds HasActed (after_act pf s o)
  acted s (running w) v r = (v, r)
  acted s (exited status w) v r = tt
  acted s fault v r = tt

  act_turn-acted : (s : Server Real) → HasValid s.world → Holds HasActed (act_turn pf s)
  unfolding act_turn
  act_turn-acted s v =
      acted s (act pf s.world) (act-EndsValid pf s.world v) (act-EndsAtRest pf s.world)

  -- The operation that is left after a sending, in the two states.
  sent-idle :
      (d : Delivery) (o : IpcOperation Real) (s : Server Real) (state : DisplState)
      → o.done ≡ true
      → IsBusy (after_send s (ipc_send_operation d o)).operation state
  unfolding ipc_send_operation ipc_operation_update_rc
  sent-idle delivered o s state e = rw e tt
  sent-idle not_marshalled o s state e = tt
  sent-idle not_written o s state e = tt

  sent-outstanding :
      (d : Delivery) (o : IpcOperation Real) (s : Server Real) (state : DisplState)
      → o.done ≡ false
      → state ≡ DisplState.outstanding
      → IsBusy (after_send s (ipc_send_operation d o)).operation state
  unfolding ipc_send_operation ipc_operation_update_rc
  sent-outstanding delivered o s state e q = rw e (refl, q)
  sent-outstanding not_marshalled o s state e q = tt
  sent-outstanding not_written o s state e q = tt

  sent-IsBusy :
      (lines : List LogCapLine) (d : Delivery) (o : IpcOperation Real) (s : Server Real)
      (state : DisplState)
      → IsAtRest state
      → IsBusy (after_send s (ipc_send_operation d (reported pf lines state o))).operation state
  sent-IsBusy lines d o s state (inl e) = sent-idle d (reported pf lines state o) s state (rw e)
  sent-IsBusy lines d o s state (inr e) =
      sent-outstanding d (reported pf lines state o) s state (rw e) e

  informed_of-IsSettled :
      (lines : List LogCapLine) (d : Delivery) (s : Server Real) (o : Option (IpcOperation Real))
      → s.operation ≡ o
      → HasActed s
      → IsSettled (informed_of pf lines d s o)
  unfolding notify_ipc_operation
  informed_of-IsSettled lines d s none e (v, r) = record { valid = v; at_rest = r; busy = rw e tt }
  informed_of-IsSettled lines d s (some o) e (v, r) =
      let s' = record s { operation = some (reported pf lines s.world.displ.state o) } in
      let sent = ipc_send_operation d (reported pf lines s.world.displ.state o) in
      let same : (after_send s' sent).world ≡ s.world = after_send-world s' sent in
      record {
        valid = subst (λ (w : World Real). IsValid w.cfg) (sym same) v;
        at_rest = subst (λ (w : World Real). IsAtRest w.displ.state) (sym same) r;
        busy =
            subst (λ (w : World Real). IsBusy (after_send s' sent).operation w.displ.state)
              (sym same) (sent-IsBusy lines d o s' s.world.displ.state r);
      }

  react-IsSettled :
      (i : Input Real) (s : Server Real) → HasValid s.world → Holds IsSettled (react pf i s)
  unfolding react inform
  react-IsSettled i s v =
      Holds-bind HasActed IsSettled _ _
        (Holds-bind (λ t. HasValid t.world) HasActed _ (act_turn pf)
          (until_act-Keeps pf HasValid valid_kept i s v) act_turn-acted)
        (λ t h. informed_of-IsSettled i.act_lines i.report t t.operation refl h)

  turn-Holds : (i : Input Real) (s : Server Real) → HasValid s.world → Holds IsSettled (turn pf i s)
  unfolding turn dispatch
  turn-Holds i s v =
      let t = dispatch pf i.events s in
      pick (Holds IsSettled) (not i.polled) _ _ (λ e. tt)
        λ e.
          pick (Holds IsSettled) (not i.read) _ _ (λ e. tt)
            λ e.
              pick (Holds IsSettled) (not i.output_manager) _ _ (λ e. tt)
                λ e.
                  Holds-bind (λ x. HasValid x.world) IsSettled (signalled pf i.signal t)
                    (react pf i) (signalled-Keeps pf HasValid valid_kept i.signal t v)
                    (react-IsSettled i)

  -- After every turn that goes on, whatever the outside delivers in it, the configuration is valid if
  -- it was before, the display is idle or waits for the compositor, and an operation of a client is
  -- only in progress while the display waits.
  pub turn-IsSettled :
      (i : Input Real) (s t : Server Real)
      → IsValid s.world.cfg
      → turn pf i s ≡ goes_on t
      → IsSettled t
  turn-IsSettled i s t v e = subst (Holds IsSettled) e (turn-Holds i s v)
