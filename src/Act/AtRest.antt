-- ===== src/Act/AtRest.antt =====
-- The states in which `act` of src/act.c leaves the display.
use way_displays.Prelude.{◌≡◌, refl, ◌⊎◌, inl, inr, subst, sym}
use way_displays.Enums.{DisplState}
use way_displays.Platform.{Platform}
use way_displays.World.{World, Outcome, running, exited, fault}
use way_displays.Act.{act, act_in, print_arrivals}
use way_displays.Act.Machine.{Answers, one_configuration}

abbrev pub IsAtRest : DisplState → Type 0
IsAtRest s = (s ≡ DisplState.idle) ⊎ (s ≡ DisplState.outstanding)

module _ (pf : Platform) where
  open pf use {Real}

  abbrev pub EndsAtRest : Outcome Real → Type 0
  EndsAtRest (running v) = IsAtRest v.displ.state
  EndsAtRest (exited status v) = Unit
  EndsAtRest fault = Unit

  EndsAtRest-of : (w : World Real) (o : Outcome Real) → Answers pf w o → EndsAtRest o
  EndsAtRest-of w (running v) (inl (a, b)) = inl b
  EndsAtRest-of w (running v) (inr (body, kind, a, b)) = inr b
  EndsAtRest-of w (exited status v) a = tt
  EndsAtRest-of w fault a = tt

  waits : (w : World Real) → w.displ.state ≡ DisplState.outstanding → EndsAtRest (act pf w)
  unfolding act act_in
  waits w e = subst (λ s. EndsAtRest (act_in pf s (print_arrivals w))) (sym e) (inr e)

  at_rest_in : (s : DisplState) (w : World Real) → w.displ.state ≡ s → EndsAtRest (act pf w)
  at_rest_in DisplState.outstanding w e = waits w e
  at_rest_in DisplState.idle w e = EndsAtRest-of w (act pf w) (one_configuration pf w (λ q. cc))
  at_rest_in DisplState.succeeded w e =
      EndsAtRest-of w (act pf w) (one_configuration pf w (λ q. cc))
  at_rest_in DisplState.cancelled w e =
      EndsAtRest-of w (act pf w) (one_configuration pf w (λ q. cc))
  at_rest_in DisplState.failed w e = EndsAtRest-of w (act pf w) (one_configuration pf w (λ q. cc))

  pub act-EndsAtRest : (w : World Real) → EndsAtRest (act pf w)
  act-EndsAtRest w = at_rest_in w.displ.state w refl
