-- ===== src/Cfg/Merge/Laws.antt =====
-- What the merges of src/cfg/cfg.c do to the configuration.
use text.Mathlib.Text.{◌==◌ as str_eq}
use text.Mathlib.TextEquality.{eq_iff}
use mathlib.Core.Option.{some-injective}
use way_displays.Prelude.{
  ◌≡◌, refl, subst, ◌⊎◌, inl, inr, Bool, true, false, not, ◌&&◌, Option, none, some, String, List,
  [], ◌∷◌, ◌==◌, length, if◌then◌else◌, is_some, or_else, arith, Bool-cases,
}
use way_displays.Enums.{OnOff, IpcCommand}
use way_displays.Platform.{Platform}
use way_displays.Cfg.{Cfg, CfgDisabled}
use way_displays.Cfg.Equal.{cfg_equal}
use way_displays.Cfg.Validate.{cfg_validate_fix, IsValid}
use way_displays.Cfg.Valid.{validate_fix-IsValid}
use way_displays.Cfg.Merge.{
  toggle_on_off, cfg_merge_set, cfg_merge_del, del_callback, toggle_vrr, toggle_one,
  toggle_disableds, cfg_merge_toggle, merge_by, changed, cfg_merge,
}

abbrev pub flip : Bool → Bool → Bool
flip true b = not b
flip false b = b

-- Whether the text stands in the list an odd number of times.
abbrev pub odd_vrr : List String → String → Bool
odd_vrr [] b = false
odd_vrr (v ∷ vs) b = flip (str_eq v b) (odd_vrr vs b)

abbrev pub odd_key : List (String × CfgDisabled) → String → Bool
odd_key [] b = false
odd_key (e ∷ es) b = flip (str_eq e.0 b) (odd_key es b)

module _ (pf : Platform) where
  open pf use {lib, Real}
  open lib use {sp, ss}

  flip_twice : (a b : Bool) → flip a (flip a b) ≡ b
  flip_twice a b = ground arith

  get_after :
      {V : Type 0} (m n : List (String × V)) (k : String)
      → sp.get (sp.remove_in (sp.put_all m n) n) k
        ≡ (if is_some (sp.get n k) then none else sp.get m k)
  get_after m n k = ground (arith, sp.get-remove_in (sp.put_all m n) n k, sp.get-put_all m n k)

  callback_after :
      (to from : Option String)
      → del_callback pf from (or_else from to) ≡ (if is_some from then some "" else to)
  callback_after to none = refl
  callback_after to (some c) = refl

  toggle_step_vrr :
      (s : List String) (v b : String)
      → ss.contains (if ss.contains s v then ss.remove s v else ss.add s v) b
        ≡ flip (str_eq v b) (ss.contains s b)
  toggle_step_vrr s v b =
      ground (arith, ss.contains-remove s v b, ss.contains-add s v b, eq_iff v b)

  contains-toggle_vrr :
      (s t : List String) (b : String)
      → ss.contains (toggle_vrr pf s t) b ≡ flip (odd_vrr t b) (ss.contains s b)
  unfolding toggle_vrr
  contains-toggle_vrr s [] b = refl
  contains-toggle_vrr s (v ∷ vs) b = ground (
    arith,
    contains-toggle_vrr (if ss.contains s v then ss.remove s v else ss.add s v) vs b,
    toggle_step_vrr s v b,
  )

  toggle_step_key :
      (m : List (String × CfgDisabled)) (k b : String) (d : CfgDisabled)
      → is_some (sp.get (toggle_one pf (sp.get m k) m k d) b)
        ≡ flip (str_eq k b) (is_some (sp.get m b))
  toggle_step_key m k b d =
      ground (arith, sp.get-remove m k b, sp.get-put_if_absent m k b d, eq_iff k b)

  get-toggle_disableds :
      (m t : List (String × CfgDisabled)) (b : String)
      → is_some (sp.get (toggle_disableds pf m t) b) ≡ flip (odd_key t b) (is_some (sp.get m b))
  unfolding toggle_disableds
  get-toggle_disableds m [] b = refl
  get-toggle_disableds m ((k, d) ∷ rest) b = ground (
    arith,
    get-toggle_disableds (toggle_one pf (sp.get m k) m k d) rest b,
    toggle_step_key m k b d,
  )

  toggle_on_off_twice :
      (f s : Option OnOff) → is_some s ≡ true → toggle_on_off f (toggle_on_off f s) ≡ s
  unfolding toggle_on_off
  toggle_on_off_twice f s h = ground arith

  -- A toggle that is repeated restores both switches, where they are set, the set of displays
  -- without VRR, and which displays have an entry in DISABLED.
  pub toggle_twice :
      (to from : Cfg Real) (b : String)
      → is_some to.scaling ≡ true
      → is_some to.auto_scale ≡ true
      → let again = cfg_merge_toggle pf (cfg_merge_toggle pf to from) from in
        (again.scaling ≡ to.scaling)
        × (again.auto_scale ≡ to.auto_scale)
        × (ss.contains again.adaptive_sync_off b ≡ ss.contains to.adaptive_sync_off b)
        × (is_some (sp.get again.disableds b) ≡ is_some (sp.get to.disableds b))
  unfolding cfg_merge_toggle
  toggle_twice to from b h k = (
    toggle_on_off_twice from.scaling to.scaling h,
    toggle_on_off_twice from.auto_scale to.auto_scale k,
    rw
        (
          contains-toggle_vrr (toggle_vrr pf to.adaptive_sync_off from.adaptive_sync_off)
              from.adaptive_sync_off b,
          contains-toggle_vrr to.adaptive_sync_off from.adaptive_sync_off b,
        )
        (flip_twice (odd_vrr from.adaptive_sync_off b) _),
    rw
        (
          get-toggle_disableds (toggle_disableds pf to.disableds from.disableds) from.disableds b,
          get-toggle_disableds to.disableds from.disableds b,
        )
        (flip_twice (odd_key from.disableds b) _),
  )

  -- Deleting what was set takes away, of the scales, modes, transforms, VRR and disableds, all that
  -- the request names, and leaves the others of these as they were before both. A callback that the
  -- request has becomes the empty one; what it sets of the arrangement, the alignment, the switches and
  -- the order stays set, and so does all that it does not set.
  pub set_then_del :
      (to from : Cfg Real) (k : String)
      → let after = cfg_merge_del pf (cfg_merge_set pf to from) from in
        (sp.get after.scales k
          ≡ (if is_some (sp.get from.scales k) then none else sp.get to.scales k))
        × (sp.get after.modes k
            ≡ (if is_some (sp.get from.modes k) then none else sp.get to.modes k))
        × (sp.get after.transforms k
            ≡ (if is_some (sp.get from.transforms k) then none else sp.get to.transforms k))
        × (sp.get after.disableds k
            ≡ (if is_some (sp.get from.disableds k) then none else sp.get to.disableds k))
        × (ss.contains after.adaptive_sync_off k
            ≡ (not (ss.contains from.adaptive_sync_off k) && ss.contains to.adaptive_sync_off k))
        × (after.callback_cmd ≡ (if is_some from.callback_cmd then some "" else to.callback_cmd))
        × (after ≡ record to {
          scales = after.scales;
          modes = after.modes;
          transforms = after.transforms;
          disableds = after.disableds;
          adaptive_sync_off = after.adaptive_sync_off;
          callback_cmd = after.callback_cmd;
          arrange = or_else from.arrange to.arrange;
          align = or_else from.align to.align;
          scaling = or_else from.scaling to.scaling;
          auto_scale = or_else from.auto_scale to.auto_scale;
          order_name_desc =
              if length from.order_name_desc == 0 then to.order_name_desc else from.order_name_desc;
        })
  unfolding cfg_merge_del cfg_merge_set
  set_then_del to from k = (
    get_after to.scales from.scales k,
    get_after to.modes from.modes k,
    get_after to.transforms from.transforms k,
    get_after to.disableds from.disableds k,
    ground (
      arith,
      ss.contains-remove_in (ss.add_all to.adaptive_sync_off from.adaptive_sync_off)
          from.adaptive_sync_off k,
      ss.contains-add_all to.adaptive_sync_off from.adaptive_sync_off k,
    ),
    callback_after to.callback_cmd from.callback_cmd,
    (λ i. record (cfg_merge_del pf (cfg_merge_set pf to from) from) {
      order_name_desc =
          if ss.size_lem from.order_name_desc i == 0
          then to.order_name_desc
          else from.order_name_desc;
    }),
  )

  changed_sound :
      (to x m : Cfg Real)
      → changed pf to (cfg_validate_fix x) ≡ some m
      → IsValid m × (cfg_equal pf m to ≡ false)
  changed_sound to x m h = elim (Bool-cases (cfg_equal pf (cfg_validate_fix x) to)) [
    | inl same ↦ let e = rw same at h in cc
    | inr differs ↦
        let e = some-injective _ _ (rw differs at h) in
        (subst IsValid e (validate_fix-IsValid x), subst (λ c. cfg_equal pf c to ≡ false) e differs)
  ]

  -- A request that merges changes the configuration, to a valid one; and only the commands set,
  -- delete and toggle merge.
  pub merge_sound :
      (to m : Cfg Real) (from : Option (Cfg Real)) (command : IpcCommand)
      → cfg_merge pf to from command ≡ some m
      → IsValid m
        × (cfg_equal pf m to ≡ false)
        × ((command ≡ IpcCommand.cfg_set)
            ⊎ (command ≡ IpcCommand.cfg_del)
            ⊎ (command ≡ IpcCommand.cfg_toggle))
  unfolding cfg_merge merge_by
  merge_sound to m none command h = cc
  merge_sound to m (some from) IpcCommand.cfg_set h =
      let (v, e) = changed_sound to _ m h in (v, e, inl refl)
  merge_sound to m (some from) IpcCommand.cfg_del h =
      let (v, e) = changed_sound to _ m h in (v, e, inr (inl refl))
  merge_sound to m (some from) IpcCommand.cfg_toggle h =
      let (v, e) = changed_sound to _ m h in (v, e, inr (inr refl))
  merge_sound to m (some from) _ h = cc
