-- ===== src/Examples/InfoTests.antt =====
-- The theorems on reports, at the monitor and the panel of a laptop, and at a configuration whose numbers
-- are printed as so many strokes.
use way_displays.Prelude.{ℕ, ◌≡◌, ℤ, List, [], ◌∷◌, is_some, first}
use way_displays.Head.{Head}
use way_displays.Head.Changes.{head_current_not_desired}
use way_displays.Info.{Format}
use way_displays.Info.Delta.{delta_human}
use way_displays.Info.Reported.{delta_human_lem}
use way_displays.Prelude.{
  String, false, refl, suc, zero, pos, pos_part, div_ℤ, ◌/◌, map, inl, inr, arith,
}
use way_displays.Prelude.Text.{append, strlen, strcasecmp}
use way_displays.Mode.{Mode}
use way_displays.Cfg.{Cfg}
use way_displays.Args.{Conversions, int32_of}
use way_displays.Info.Commands.{print_cfg_commands}
use way_displays.Info.Parts.{parts, Printable}
use way_displays.Info.Safe.{Typable}
use way_displays.Info.Typed.{typed, asks, commands_accepted}
use way_displays.Examples.Typing.{shell, getopt}
use way_displays.Examples.Concrete.{desk, monitor, panel, mode_of, cfg}

abbrev plain_format : Format ℤ
plain_format = record {
  int = λ n. "#";
  three = λ n. "#.###";
  two = λ n. "#.##";
  general = λ n. "#";
  padded = λ w n. "#";
  zero_padded = λ w n. "#";
}

abbrev heads : List (ℕ × Head)
heads = (1, monitor) ∷ (2, panel) ∷ []

delta_human_lem_example :
    is_some (delta_human desk plain_format heads)
    ≡ is_some (first (λ e. head_current_not_desired e.1) heads)
delta_human_lem_example = delta_human_lem desk plain_format heads

abbrev unary : ℕ → String
unary zero = ""
unary (suc n) = append "1" (unary n)

abbrev counted : Conversions ℤ
counted = record {
  strtof = λ s. pos (strlen s);
  atof = λ s. pos (strlen s);
  atoi = λ s. pos (strlen s);
  round = λ r. r;
  size_of = λ r. pos_part r / 1000;
  lround = λ r. div_ℤ r 1000;
}

abbrev counting : Format ℤ
counting = record plain_format {
  int = λ n. unary (pos_part n);
  three = λ n. unary (pos_part n);
  general = λ n. unary (pos_part n);
}

abbrev small : Mode
small = record (mode_of 9 4 3 5) { max = false }

abbrev printed_cfg : Cfg ℤ
printed_cfg = record cfg {
  scales = ("DP-1 on the left", 3) ∷ [];
  modes = ("DP-1", small) ∷ [];
  transforms = ("DP-1", 3) ∷ [];
}

printed_cfg-Printable : Printable desk counted counting 30 printed_cfg
unfolding strlen strcasecmp int32_of way_displays.Prelude.◌*ℤ◌
printed_cfg-Printable = record {
  order = ((refl, tt), (tt, tt));
  scales = ((refl, refl), tt);
  modes = (
    record {
      usable = record {
        width_ok = inr (omega arith);
        height_ok = inr (omega arith);
        refresh_ok = inr (omega arith);
        resolution_ok = λ e f. omega arith;
      };
      width_back = λ e. (refl, refl);
      height_back = λ e. (refl, refl);
      hz_back = λ e. refl;
    },
    tt,
  );
  transforms = (inr (inr (inl refl)), tt);
}

printed_cfg-Typable : Typable desk counting printed_cfg
printed_cfg-Typable = record {
  order = ((refl, refl), ((refl, refl), tt));
  scales = (((refl, refl), (refl, refl)), tt);
  modes = (
    (
      (refl, refl),
      record {
        width_safe = λ p e. (refl, refl);
        height_safe = λ p e. (refl, refl);
        hz_safe = λ p e g. (refl, refl);
      },
    ),
    tt,
  );
  transforms = ((refl, refl), tt);
  transforms_known = (inr (inr (inl refl)), tt);
  disableds = tt;
  vrr_off = ((refl, refl), tt);
  callback = tt;
}

commands_accepted_example :
    typed desk counted counting 30 shell getopt (print_cfg_commands desk counting printed_cfg)
    ≡ map (asks desk counted counting 30 shell getopt) (parts desk counted counting 30 printed_cfg)
commands_accepted_example =
    commands_accepted desk counted counting 30 shell getopt printed_cfg printed_cfg-Printable
      printed_cfg-Typable
