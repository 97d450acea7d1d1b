-- ===== src/Info/ModeReplies.antt =====
-- What src/args.c reads of the commands for modes that src/info/print.c prints.
use way_displays.Prelude.{
  ℕ, suc, ℤ, pos, negsuc, ◌≤ℤ◌, eqb_ℤ, ◌≡◌, refl, arith, ap, ◌∙◌, sym, ◌⊎◌, inl, inr, true, false,
  Bool-cases, ◌&&◌, String, List, [], ◌∷◌, map, All, length, leb,
}
use way_displays.Prelude.Text.{strcasecmp}
use way_displays.Enums.Names.{_val}
use way_displays.Enums.Values.{cfg_element_val}
use way_displays.Platform.{Platform}
use way_displays.Mode.{Mode, mode_init}
use way_displays.Cfg.Init.{cfg_init}
use way_displays.Ipc.{ipc_request_init}
use way_displays.Args.{Conversions, parsed, int32_of}
use way_displays.Args.Element.{mode_arg, positive}
use way_displays.Args.Requests.{args_ipc_set}
use way_displays.Info.{Format}
use way_displays.Info.Commands.{mode_args, thousandth, mode_lines}
use way_displays.Info.Shell.{words}
use way_displays.Info.Parts.{replies, sets, nothing, restated, mode_parts, ModeBack}
use way_displays.Info.Replies.{put_one}

module _ (pf : Platform) (conv : Conversions pf.Real) (fmt : Format pf.Real) (addr : ℕ) where
  open pf use {lib, Real, of_int, mul, lt}
  open lib use {sp, ss, ps}

  sized : (z : ℤ) → pos 1 ≤ℤ z → positive z ≡ true
  sized z h = ground arith

  two_args :
      (w h : String) (m : Mode)
      → strcasecmp w "MAX" ≡ false
      → conv.atoi w ≡ m.width
      → conv.atoi h ≡ m.height
      → pos 1 ≤ℤ m.width
      → pos 1 ≤ℤ m.height
      → mode_arg pf conv addr (w ∷ h ∷ [])
        ≡ parsed (record (mode_init addr) { width = m.width; height = m.height })
  unfolding mode_arg
  two_args w h m e p q a b = rw (e, p, q, sized m.width a, sized m.height b) refl

  three_args :
      (w h r : String) (m : Mode)
      → strcasecmp w "MAX" ≡ false
      → conv.atoi w ≡ m.width
      → conv.atoi h ≡ m.height
      → int32_of (conv.lround (mul (conv.atof r) (of_int (pos 1000)))) ≡ m.refresh_mhz
      → pos 1 ≤ℤ m.width
      → pos 1 ≤ℤ m.height
      → pos 1 ≤ℤ m.refresh_mhz
      → mode_arg pf conv addr (w ∷ h ∷ r ∷ [])
        ≡ parsed (record (mode_init addr) {
          width = m.width;
          height = m.height;
          refresh_mhz = m.refresh_mhz;
        })
  unfolding mode_arg
  three_args w h r m e p q t a b c =
      rw (e, p, q, t, sized m.width a, sized m.height b, sized m.refresh_mhz c) refl

  mode_set :
      (s : String) (args : List String) (mode : Mode)
      → (leb 2 (suc (length args)) && leb (suc (length args)) 4) ≡ true
      → mode_arg pf conv addr args ≡ parsed mode
      → args_ipc_set pf conv addr "MODE" (s ∷ args)
        ≡ sets pf conv fmt addr (record (nothing pf conv fmt addr) { modes = (s, mode) ∷ [] })
  unfolding args_ipc_set ipc_request_init cfg_init cfg_element_val _val strcasecmp
  mode_set s args mode e f = rw (e, f, put_one pf conv fmt addr Mode s mode) refl

  max_arg : mode_arg pf conv addr ("MAX" ∷ []) ≡ parsed (record (mode_init addr) { max = true })
  unfolding mode_arg strcasecmp
  max_arg = refl

  no_refresh : (z : ℤ) → eqb_ℤ z (negsuc 0) ≡ true → z ≡ negsuc 0
  no_refresh z e = ground arith

  given_refresh : (z : ℤ) → eqb_ℤ z (negsuc 0) ≡ false → (z ≡ negsuc 0) ⊎ (pos 1 ≤ℤ z) → pos 1 ≤ℤ z
  given_refresh z e h = ground arith

  without_refresh :
      (m : Mode)
      → m.max ≡ false
      → m.max_preferred_refresh ≡ false
      → eqb_ℤ m.refresh_mhz (negsuc 0) ≡ true
      → ModeBack pf conv fmt addr m
      → mode_arg pf conv addr (fmt.int m.width ∷ fmt.int m.height ∷ [])
        ≡ parsed (record (mode_init addr) {
          width = m.width;
          height = m.height;
          refresh_mhz = m.refresh_mhz;
        })
  unfolding mode_init
  without_refresh m e f g b =
      let (w, h) = b.usable.resolution_ok e f in
      two_args (fmt.int m.width) (fmt.int m.height) m (b.width_back e).1 (b.width_back e).0
        (b.height_back e).0 w h
      ∙ ap
          (λ r.
            parsed
              (record (mode_init addr) { width = m.width; height = m.height; refresh_mhz = r }))
          (sym (no_refresh m.refresh_mhz g))

  with_refresh :
      (m : Mode)
      → m.max ≡ false
      → m.max_preferred_refresh ≡ false
      → eqb_ℤ m.refresh_mhz (negsuc 0) ≡ false
      → ModeBack pf conv fmt addr m
      → mode_arg pf conv addr
          (fmt.int m.width ∷ fmt.int m.height ∷ fmt.general (thousandth pf fmt m.refresh_mhz) ∷ [])
        ≡ parsed (record (mode_init addr) {
          width = m.width;
          height = m.height;
          refresh_mhz = m.refresh_mhz;
        })
  with_refresh m e f g b =
      let (w, h) = b.usable.resolution_ok e f in
      three_args (fmt.int m.width) (fmt.int m.height)
        (fmt.general (thousandth pf fmt m.refresh_mhz)) m (b.width_back e).1 (b.width_back e).0
        (b.height_back e).0 (b.hz_back g) w h (given_refresh m.refresh_mhz g b.usable.refresh_ok)

  mode_reply :
      (s : String) (m : Mode)
      → m.max_preferred_refresh ≡ false
      → ModeBack pf conv fmt addr m
      → args_ipc_set pf conv addr "MODE" (s ∷ words (mode_args pf fmt m))
        ≡ sets pf conv fmt addr
            (record (nothing pf conv fmt addr) { modes = (s, restated pf conv fmt addr m) ∷ [] })
  mode_reply s m e b = elim (Bool-cases m.max) [
    | inl largest ↦
        rw largest (mode_set s ("MAX" ∷ []) (record (mode_init addr) { max = true }) refl max_arg)
    | inr asked ↦ elim (Bool-cases (eqb_ℤ m.refresh_mhz (negsuc 0))) [
      | inl any ↦ rw (asked, any) (mode_set s _ _ refl (without_refresh m asked e any b))
      | inr given ↦ rw (asked, given) (mode_set s _ _ refl (with_refresh m asked e given b))
    ]
  ]

  pub mode-set :
      (l : List (String × Mode))
      → All (λ e. ModeBack pf conv fmt addr e.1) l
      → replies pf conv fmt addr (mode_lines pf fmt l)
        ≡ map (sets pf conv fmt addr) (mode_parts pf conv fmt addr l)
  unfolding mode_lines
  mode-set [] h = refl
  mode-set ((s, m) ∷ l) h = elim (Bool-cases m.max_preferred_refresh) [
    | inl e ↦ rw e (mode-set l h.1)
    | inr e ↦ rw (e, mode_reply s m e h.0, mode-set l h.1) refl
  ]
