-- ===== src/Info/Accepted.antt =====
-- What src/args.c reads of the words of all commands that src/info/print.c prints.
use way_displays.Prelude.{ℕ, ◌≡◌, ◌∙◌, List, [], ◌∷◌, ◌++◌, map, All}
use way_displays.Platform.{Platform}
use way_displays.Cfg.{Cfg}
use way_displays.Args.{Conversions}
use way_displays.Info.{Format}
use way_displays.Info.Commands.{
  Line, below_newline, arrange_align_lines, order_lines, on_off_lines, scale_lines, mode_lines,
  transform_lines, disabled_lines, vrr_off_lines, callback_lines, print_cfg_commands,
}
use way_displays.Info.Parts.{
  replies, sets, nothing, arrange_align_parts, order_parts, scaling_parts, auto_scale_parts,
  mode_parts, disabled_parts, callback_parts, parts, Printable,
}
use way_displays.Info.Replies.{
  joined, below, arrange_align-set, scaling-set, auto_scale-set, callback-set, vrr_off-set,
  disabled-set, transform-set, scale-set, order-set,
}
use way_displays.Info.ModeReplies.{mode-set}

module _ (pf : Platform) (conv : Conversions pf.Real) (fmt : Format pf.Real) (addr : ℕ) where
  open pf use {lib, Real, of_int, mul, lt}
  open lib use {sp, ss, ps}

  -- Lines, with the parts that they set.
  abbrev Piece : Type 0
  Piece = List Line × List (Cfg Real)

  abbrev lines_of : Piece → List Piece → List Line
  lines_of p [] = p.0
  lines_of p (q ∷ rest) = p.0 ++ lines_of q rest

  abbrev parts_of : Piece → List Piece → List (Cfg Real)
  parts_of p [] = p.1
  parts_of p (q ∷ rest) = p.1 ++ parts_of q rest

  abbrev IsAccepted : Piece → Type 0
  IsAccepted p = replies pf conv fmt addr p.0 ≡ map (sets pf conv fmt addr) p.1

  all_joined :
      (p : Piece) (rest : List Piece)
      → IsAccepted p
      → All IsAccepted rest
      → replies pf conv fmt addr (lines_of p rest) ≡ map (sets pf conv fmt addr) (parts_of p rest)
  all_joined p [] e h = e
  all_joined p (q ∷ rest) e h =
      joined pf conv fmt addr p.0 (lines_of q rest) p.1 (parts_of q rest) e
        (all_joined q rest h.0 h.1)

  abbrev pieces : Cfg Real → List Piece
  pieces cfg =
      (order_lines pf fmt cfg.order_name_desc, order_parts pf conv fmt addr cfg.order_name_desc)
      ∷ (on_off_lines "SCALING" cfg.scaling, scaling_parts pf conv fmt addr cfg.scaling)
      ∷ (on_off_lines "AUTO_SCALE" cfg.auto_scale, auto_scale_parts pf conv fmt addr cfg.auto_scale)
      ∷ (
        below_newline (scale_lines pf fmt cfg.scales),
        map (λ e. record (nothing pf conv fmt addr) { scales = e ∷ [] }) cfg.scales,
      )
      ∷ (below_newline (mode_lines pf fmt cfg.modes), mode_parts pf conv fmt addr cfg.modes)
      ∷ (
        below_newline (transform_lines cfg.transforms),
        map (λ e. record (nothing pf conv fmt addr) { transforms = e ∷ [] }) cfg.transforms,
      )
      ∷ (
        below_newline (disabled_lines pf fmt cfg.disableds),
        disabled_parts pf conv fmt addr cfg.disableds,
      )
      ∷ (
        below_newline (vrr_off_lines cfg.adaptive_sync_off),
        map (λ s. record (nothing pf conv fmt addr) { adaptive_sync_off = s ∷ [] })
            cfg.adaptive_sync_off,
      )
      ∷ (callback_lines cfg.callback_cmd, callback_parts pf conv fmt addr cfg.callback_cmd)
      ∷ []

  -- The words of each command are read as the request that sets one part.
  pub replies-print_cfg_commands :
      (cfg : Cfg Real)
      → Printable pf conv fmt addr cfg
      → replies pf conv fmt addr (print_cfg_commands pf fmt cfg)
        ≡ map (sets pf conv fmt addr) (parts pf conv fmt addr cfg)
  unfolding print_cfg_commands
  replies-print_cfg_commands cfg b =
      all_joined
        (
          arrange_align_lines cfg.align cfg.arrange,
          arrange_align_parts pf conv fmt addr cfg.align cfg.arrange,
        )
        (pieces cfg) (arrange_align-set pf conv fmt addr cfg.align cfg.arrange)
        (
          order-set pf conv fmt addr cfg.order_name_desc b.order,
          (
            scaling-set pf conv fmt addr cfg.scaling,
            (
              auto_scale-set pf conv fmt addr cfg.auto_scale,
              (
                below pf conv fmt addr (scale_lines pf fmt cfg.scales)
                    ∙ scale-set pf conv fmt addr cfg.scales b.scales,
                (
                  below pf conv fmt addr (mode_lines pf fmt cfg.modes)
                      ∙ mode-set pf conv fmt addr cfg.modes b.modes,
                  (
                    below pf conv fmt addr (transform_lines cfg.transforms)
                        ∙ transform-set pf conv fmt addr cfg.transforms b.transforms,
                    (
                      below pf conv fmt addr (disabled_lines pf fmt cfg.disableds)
                          ∙ disabled-set pf conv fmt addr cfg.disableds,
                      (
                        below pf conv fmt addr (vrr_off_lines cfg.adaptive_sync_off)
                            ∙ vrr_off-set pf conv fmt addr cfg.adaptive_sync_off,
                        (callback-set pf conv fmt addr cfg.callback_cmd, tt),
                      ),
                    ),
                  ),
                ),
              ),
            ),
          ),
        )
