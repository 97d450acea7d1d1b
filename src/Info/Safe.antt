-- ===== src/Info/Safe.antt =====
-- The commands that src/info/print.c prints for a configuration keep their words when they are typed.
use way_displays.Prelude.{
  ltb, ◌==◌, pos, negsuc, eqb_ℤ, refl, inl, inr, ◌≡◌, false, Option, none, some, String, List, [],
  ◌∷◌, ◌++◌, All, ℕ, pick,
}
use way_displays.Enums.{Arrange, Align, OnOff, arrange_code, align_code}
use way_displays.Enums.Names.{_name, arranges, aligns, transforms}
use way_displays.Platform.{Platform}
use way_displays.Mode.{Mode}
use way_displays.Cfg.{Cfg, CfgDisabled}
use way_displays.Yaml.Marshal.{flat, name_in}
use way_displays.Yaml.ModeBack.{IsTransform}
use way_displays.Info.{Format, text_of}
use way_displays.Info.Commands.{
  bare, Line, below_newline, arrange_align_lines, quoted_all, on_off_lines, transform_lines,
  vrr_off_lines, callback_lines, order_lines, thousandth, scale_lines, mode_args, mode_lines,
  disabled_lines, print_cfg_commands,
}
use way_displays.Info.Shell.{QuoteSafe, WordSafe, ArgumentSafe, LineSafe}

both-LineSafe : (a b : List Line) → All LineSafe a → All LineSafe b → All LineSafe (a ++ b)
both-LineSafe [] b p q = q
both-LineSafe (l ∷ a) b p q = (p.0, both-LineSafe a b p.1 q)

below-LineSafe : (a : List Line) → All LineSafe a → All LineSafe (below_newline a)
below-LineSafe [] p = tt
below-LineSafe (l ∷ a) p = (tt, p)

all_quoted : (l : List String) → All QuoteSafe l → All ArgumentSafe (quoted_all l)
all_quoted [] h = tt
all_quoted (s ∷ l) h = (h.0, all_quoted l h.1)

arrange_align-LineSafe :
    (a : Option Align) (r : Option Arrange) → All LineSafe (arrange_align_lines a r)
unfolding arrange_align_lines _name
arrange_align-LineSafe none r = tt
arrange_align-LineSafe (some a) none = tt
arrange_align-LineSafe (some a) (some r) = (
  tt,
  (
    (
      refl,
      (
        elim r as (λ r. ArgumentSafe (bare (text_of (name_in arranges arrange_code (some r))))) [
          | Arrange.row ↦ (refl, refl)
          | Arrange.col ↦ (refl, refl)
        ],
        (
          elim a as (λ a. ArgumentSafe (bare (text_of (name_in aligns align_code (some a))))) [
            | Align.top ↦ (refl, refl)
            | Align.middle ↦ (refl, refl)
            | Align.bottom ↦ (refl, refl)
            | Align.left ↦ (refl, refl)
            | Align.right ↦ (refl, refl)
          ],
          tt,
        ),
      ),
      inl refl,
    ),
    tt,
  ),
)

scaling-LineSafe : (v : Option OnOff) → All LineSafe (on_off_lines "SCALING" v)
unfolding on_off_lines _name
scaling-LineSafe none = tt
scaling-LineSafe (some OnOff.on) = (tt, ((refl, ((refl, refl), tt), inl refl), tt))
scaling-LineSafe (some OnOff.off) = (tt, ((refl, ((refl, refl), tt), inl refl), tt))

auto_scale-LineSafe : (v : Option OnOff) → All LineSafe (on_off_lines "AUTO_SCALE" v)
unfolding on_off_lines _name
auto_scale-LineSafe none = tt
auto_scale-LineSafe (some OnOff.on) = (tt, ((refl, ((refl, refl), tt), inl refl), tt))
auto_scale-LineSafe (some OnOff.off) = (tt, ((refl, ((refl, refl), tt), inl refl), tt))

transform-WordSafe : (t : ℕ) → IsTransform t → WordSafe (text_of (flat (_name transforms t)))
unfolding _name
transform-WordSafe t (inl e) = rw e (refl, refl)
transform-WordSafe t (inr (inl e)) = rw e (refl, refl)
transform-WordSafe t (inr (inr (inl e))) = rw e (refl, refl)
transform-WordSafe t (inr (inr (inr (inl e)))) = rw e (refl, refl)
transform-WordSafe t (inr (inr (inr (inr (inl e))))) = rw e (refl, refl)
transform-WordSafe t (inr (inr (inr (inr (inr (inl e)))))) = rw e (refl, refl)
transform-WordSafe t (inr (inr (inr (inr (inr (inr e)))))) = rw e (refl, refl)

transform-LineSafe :
    (l : List (String × ℕ))
    → All (λ e. QuoteSafe e.0) l
    → All (λ e. IsTransform e.1) l
    → All LineSafe (transform_lines l)
unfolding transform_lines
transform-LineSafe [] h k = tt
transform-LineSafe ((s, t) ∷ l) h k =
    ((refl, (h.0, (transform-WordSafe t k.0, tt)), inl refl), transform-LineSafe l h.1 k.1)

vrr_off-LineSafe : (l : List String) → All QuoteSafe l → All LineSafe (vrr_off_lines l)
unfolding vrr_off_lines
vrr_off-LineSafe [] h = tt
vrr_off-LineSafe (s ∷ l) h = ((refl, (h.0, tt), inl refl), vrr_off-LineSafe l h.1)

abbrev pub QuoteSafeIf : Option String → Type 0
QuoteSafeIf none = Unit
QuoteSafeIf (some s) = QuoteSafe s

callback-LineSafe : (c : Option String) → QuoteSafeIf c → All LineSafe (callback_lines c)
unfolding callback_lines
callback-LineSafe none h = tt
callback-LineSafe (some c) h = (tt, ((refl, (h, tt), inl refl), tt))

module _ (pf : Platform) (fmt : Format pf.Real) where
  open pf use {lib, Real}
  open lib use {ss, ps}

  order-LineSafe : (l : List String) → All QuoteSafe l → All LineSafe (order_lines pf fmt l)
  unfolding order_lines
  order-LineSafe l h =
      pick (All LineSafe) (ltb 0 (ss.size l)) _ []
        (λ e. (tt, ((refl, all_quoted l h, inr refl), tt))) (λ e. tt)

  scale-LineSafe :
      (l : List (String × ℕ))
      → All (λ e. QuoteSafe e.0 × WordSafe (fmt.three (thousandth pf fmt (pos e.1)))) l
      → All LineSafe (scale_lines pf fmt l)
  unfolding scale_lines
  scale-LineSafe [] h = tt
  scale-LineSafe ((s, v) ∷ l) h = ((refl, (h.0.0, (h.0.1, tt)), inl refl), scale-LineSafe l h.1)

  -- The numbers of a mode that are printed are printed as words.
  pub record ModeSafe (m : Mode) : Type 0 where
    pub width_safe : m.max_preferred_refresh ≡ false → m.max ≡ false → WordSafe (fmt.int m.width)
    pub height_safe : m.max_preferred_refresh ≡ false → m.max ≡ false → WordSafe (fmt.int m.height)
    pub hz_safe :
        m.max_preferred_refresh ≡ false
        → m.max ≡ false
        → eqb_ℤ m.refresh_mhz (negsuc 0) ≡ false
        → WordSafe (fmt.general (thousandth pf fmt m.refresh_mhz))

  mode_args-safe :
      (m : Mode)
      → m.max_preferred_refresh ≡ false
      → ModeSafe m
      → All ArgumentSafe (mode_args pf fmt m)
  mode_args-safe m p s =
      pick (All ArgumentSafe) m.max _ _ (λ e. ((refl, refl), tt))
        (λ e. (
          s.width_safe p e,
          (
            s.height_safe p e,
            pick (All ArgumentSafe) (eqb_ℤ m.refresh_mhz (negsuc 0)) [] _ (λ g. tt)
                (λ g. (s.hz_safe p e g, tt)),
          ),
        ))

  mode-LineSafe :
      (l : List (String × Mode))
      → All (λ e. QuoteSafe e.0 × ModeSafe e.1) l
      → All LineSafe (mode_lines pf fmt l)
  unfolding mode_lines
  mode-LineSafe [] h = tt
  mode-LineSafe ((s, m) ∷ l) h =
      let more = mode-LineSafe l h.1 in
      pick (All LineSafe) m.max_preferred_refresh (mode_lines pf fmt l) _ (λ e. more)
        (λ e. ((refl, (h.0.0, mode_args-safe m e h.0.1), inl refl), more))

  disabled-LineSafe :
      (l : List (String × CfgDisabled))
      → All (λ e. QuoteSafe e.0) l
      → All LineSafe (disabled_lines pf fmt l)
  unfolding disabled_lines
  disabled-LineSafe [] h = tt
  disabled-LineSafe ((s, d) ∷ l) h =
      let more = disabled-LineSafe l h.1 in
      pick (All LineSafe) (ps.size d.conditions == 0) _ (disabled_lines pf fmt l)
        (λ e. ((refl, (h.0, tt), inl refl), more)) (λ e. more)

  -- No name, and no callback command, has a single quote in it or looks like an option, and numbers are
  -- printed as words.
  pub record Typable (cfg : Cfg Real) : Type 0 where
    pub order : All QuoteSafe cfg.order_name_desc
    pub scales :
        All (λ e. QuoteSafe e.0 × WordSafe (fmt.three (thousandth pf fmt (pos e.1)))) cfg.scales
    pub modes : All (λ e. QuoteSafe e.0 × ModeSafe e.1) cfg.modes
    pub transforms : All (λ e. QuoteSafe e.0) cfg.transforms
    pub transforms_known : All (λ e. IsTransform e.1) cfg.transforms
    pub disableds : All (λ e. QuoteSafe e.0) cfg.disableds
    pub vrr_off : All QuoteSafe cfg.adaptive_sync_off
    pub callback : QuoteSafeIf cfg.callback_cmd

  pub print_cfg_commands-LineSafe :
      (cfg : Cfg Real) → Typable cfg → All LineSafe (print_cfg_commands pf fmt cfg)
  unfolding print_cfg_commands
  print_cfg_commands-LineSafe cfg t =
      both-LineSafe (arrange_align_lines cfg.align cfg.arrange) _
        (arrange_align-LineSafe cfg.align cfg.arrange)
        (both-LineSafe (order_lines pf fmt cfg.order_name_desc) _
          (order-LineSafe cfg.order_name_desc t.order)
          (both-LineSafe (on_off_lines "SCALING" cfg.scaling) _ (scaling-LineSafe cfg.scaling) (
            both-LineSafe (on_off_lines "AUTO_SCALE" cfg.auto_scale) _
              (auto_scale-LineSafe cfg.auto_scale)
              (both-LineSafe (below_newline (scale_lines pf fmt cfg.scales)) _
                (below-LineSafe (scale_lines pf fmt cfg.scales)
                  (scale-LineSafe cfg.scales t.scales))
                (both-LineSafe (below_newline (mode_lines pf fmt cfg.modes)) _
                  (below-LineSafe (mode_lines pf fmt cfg.modes) (mode-LineSafe cfg.modes t.modes))
                  (both-LineSafe (below_newline (transform_lines cfg.transforms)) _
                    (below-LineSafe (transform_lines cfg.transforms)
                      (transform-LineSafe cfg.transforms t.transforms t.transforms_known))
                    (both-LineSafe (below_newline (disabled_lines pf fmt cfg.disableds)) _
                      (below-LineSafe (disabled_lines pf fmt cfg.disableds)
                        (disabled-LineSafe cfg.disableds t.disableds))
                      (both-LineSafe (below_newline (vrr_off_lines cfg.adaptive_sync_off)) _
                        (below-LineSafe (vrr_off_lines cfg.adaptive_sync_off)
                          (vrr_off-LineSafe cfg.adaptive_sync_off t.vrr_off))
                        (callback-LineSafe cfg.callback_cmd t.callback)))))))))
