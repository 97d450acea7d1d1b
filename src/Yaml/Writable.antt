-- ===== src/Yaml/Writable.antt =====
-- The configurations that src/yaml/marshal-types.c can write without loss, and the first half of the
-- elements of one as src/yaml/unmarshal-types.c reads them.
use Prim.Native.Nat.{ℕ}
use way_displays.Prelude.{◌≡◌, refl, some, String, List, [], All}
use way_displays.Enums.{arrange_code, align_code, scale_round_strategy_code}
use way_displays.Enums.Names.{_name, arranges, aligns, scale_round_tos, scale_round_strategies}
use way_displays.Platform.{Platform}
use way_displays.Cfg.{Cfg}
use way_displays.Cfg.Init.{cfg_init}
use way_displays.Yaml.{Scanner, no_context}
use way_displays.Yaml.Document.{pairs_in}
use way_displays.Yaml.Marshal.{
  Printer, Entries, flat, name_in, of_sset, yaml_map_add_str, add_on_off, yaml_map_add_int_nz,
  yaml_map_add_float_nz, yaml_map_add_sset,
}
use way_displays.Yaml.Parts.{GoodNames, keys}
use way_displays.Yaml.ModeBack.{IsTransform, ScaleKept, ModeKept}
use way_displays.Yaml.DisabledBack.{GoodDisableds}
use way_displays.Yaml.Elements.{
  Effect, read_entries, node_step, str_step, on_off_step, arrange-Effect, align-Effect,
  scale_round_strategy-Effect, scaling-Effect, auto_scale-Effect,
}
use way_displays.Yaml.Collected.{
  RoundKept, DpiKept, RealKept, order-Effect, round_to-Effect, dpi_step, min_step, max_step,
}

module _ (pf : Platform) (sc : Scanner pf.Real) (pr : Printer pf.Real) (addr : String → ℕ) where
  open pf use {Real}

  -- The entries are read as the configuration.
  abbrev pub Reads : Entries → Cfg Real → Type 0
  Reads m c = read_entries pf sc addr m ≡ (c, no_context)

  -- The names of displays are good and differ in each set and map, the modes can be written, the
  -- conditions ask for something and differ, and the numbers are read as they are printed.
  pub record Writable (cfg : Cfg Real) : Type 0 where
    pub order : GoodNames pf cfg.order_name_desc
    pub vrr_off : GoodNames pf cfg.adaptive_sync_off
    pub round_to : RoundKept pf sc pr addr cfg.scale_round_to
    pub dpi : DpiKept pf sc pr addr cfg.auto_scale_dpi
    pub low : RealKept pf sc pr addr cfg.auto_scale_min
    pub high : RealKept pf sc pr addr cfg.auto_scale_max
    pub scale_names : GoodNames pf (keys cfg.scales)
    pub scale_values : All (λ e. ScaleKept pf sc pr addr e.1) cfg.scales
    pub mode_names : GoodNames pf (keys cfg.modes)
    pub mode_values : All (λ e. ModeKept pf sc pr addr (addr e.0) e.1) cfg.modes
    pub transform_names : GoodNames pf (keys cfg.transforms)
    pub transform_values : All (λ e. IsTransform e.1) cfg.transforms
    pub disabled_values : GoodDisableds pf cfg.disableds

  pub sset_step :
      (key : String) (l : List String) (m : Entries) (c d : Cfg Real)
      → Reads m c
      → Effect pf sc addr key (some (of_sset l)) c d
      → Reads (yaml_map_add_sset (some key) l m) d
  unfolding yaml_map_add_sset
  sset_step key l m c d e f = node_step pf sc addr key (some (of_sset l)) m c d e f

  abbrev first_entries : Cfg Real → Entries
  first_entries cfg =
      let m1 : Entries =
        yaml_map_add_str (some "ARRANGE") (name_in arranges arrange_code cfg.arrange) [] in
      let m2 : Entries = yaml_map_add_str (some "ALIGN") (name_in aligns align_code cfg.align) m1 in
      let m3 : Entries = yaml_map_add_sset (some "ORDER") cfg.order_name_desc m2 in
      let m4 : Entries = add_on_off (some "SCALING") cfg.scaling m3 in
      let m5 : Entries =
        yaml_map_add_str (some "SCALE_ROUND_TO") (flat (_name scale_round_tos cfg.scale_round_to))
          m4 in
      m5

  abbrev first : Cfg Real → Cfg Real
  first cfg = record (cfg_init pf) {
    arrange = cfg.arrange;
    align = cfg.align;
    order_name_desc = cfg.order_name_desc;
    scaling = cfg.scaling;
    scale_round_to = cfg.scale_round_to;
  }

  first_read : (cfg : Cfg Real) → Writable cfg → Reads (first_entries cfg) (first cfg)
  unfolding cfg_init pairs_in
  first_read cfg w =
      let m1 : Entries =
        yaml_map_add_str (some "ARRANGE") (name_in arranges arrange_code cfg.arrange) [] in
      let k1 : Cfg Real = record (cfg_init pf) { arrange = cfg.arrange } in
      let e1 =
        str_step pf sc addr "ARRANGE" (name_in arranges arrange_code cfg.arrange) [] (cfg_init pf)
          k1 (refl) (arrange-Effect pf sc addr cfg.arrange (cfg_init pf) refl) in
      let m2 : Entries = yaml_map_add_str (some "ALIGN") (name_in aligns align_code cfg.align) m1 in
      let k2 : Cfg Real = record k1 { align = cfg.align } in
      let e2 =
        str_step pf sc addr "ALIGN" (name_in aligns align_code cfg.align) m1 k1 k2 (e1)
          (align-Effect pf sc addr cfg.align k1 refl) in
      let m3 : Entries = yaml_map_add_sset (some "ORDER") cfg.order_name_desc m2 in
      let k3 : Cfg Real = record k2 { order_name_desc = cfg.order_name_desc } in
      let e3 =
        sset_step "ORDER" cfg.order_name_desc m2 k2 k3 (e2)
          (order-Effect pf sc pr addr cfg.order_name_desc k2 w.order refl) in
      let m4 : Entries = add_on_off (some "SCALING") cfg.scaling m3 in
      let k4 : Cfg Real = record k3 { scaling = cfg.scaling } in
      let e4 =
        on_off_step pf sc addr "SCALING" cfg.scaling m3 k3 k4 (e3)
          (scaling-Effect pf sc addr cfg.scaling k3 refl) in
      let m5 : Entries =
        yaml_map_add_str (some "SCALE_ROUND_TO") (flat (_name scale_round_tos cfg.scale_round_to))
          m4 in
      let k5 : Cfg Real = record k4 { scale_round_to = cfg.scale_round_to } in
      let e5 =
        str_step pf sc addr "SCALE_ROUND_TO" (flat (_name scale_round_tos cfg.scale_round_to)) m4 k4
          k5 (e4) (round_to-Effect pf sc pr addr cfg.scale_round_to k4 w.round_to refl) in
      e5

  abbrev pub general_entries : Cfg Real → Entries
  general_entries cfg =
      let m1 : Entries =
        yaml_map_add_str (some "SCALE_ROUND_STRATEGY")
          (name_in scale_round_strategies scale_round_strategy_code cfg.scale_round_strategy)
          (first_entries cfg) in
      let m2 : Entries = add_on_off (some "AUTO_SCALE") cfg.auto_scale m1 in
      let m3 : Entries = yaml_map_add_int_nz pf pr (some "AUTO_SCALE_DPI") cfg.auto_scale_dpi m2 in
      let m4 : Entries =
        yaml_map_add_float_nz pf pr (some "AUTO_SCALE_MIN") cfg.auto_scale_min m3 in
      let m5 : Entries =
        yaml_map_add_float_nz pf pr (some "AUTO_SCALE_MAX") cfg.auto_scale_max m4 in
      m5

  abbrev pub general : Cfg Real → Cfg Real
  general cfg = record (first cfg) {
    scale_round_strategy = cfg.scale_round_strategy;
    auto_scale = cfg.auto_scale;
    auto_scale_dpi = cfg.auto_scale_dpi;
    auto_scale_min = cfg.auto_scale_min;
    auto_scale_max = cfg.auto_scale_max;
  }

  pub general_read : (cfg : Cfg Real) → Writable cfg → Reads (general_entries cfg) (general cfg)
  unfolding cfg_init pairs_in
  general_read cfg w =
      let m1 : Entries =
        yaml_map_add_str (some "SCALE_ROUND_STRATEGY")
          (name_in scale_round_strategies scale_round_strategy_code cfg.scale_round_strategy)
          (first_entries cfg) in
      let k1 : Cfg Real = record (first cfg) { scale_round_strategy = cfg.scale_round_strategy } in
      let e1 =
        str_step pf sc addr "SCALE_ROUND_STRATEGY"
          (name_in scale_round_strategies scale_round_strategy_code cfg.scale_round_strategy)
          (first_entries cfg) (first cfg) k1 (first_read cfg w)
          (scale_round_strategy-Effect pf sc addr cfg.scale_round_strategy (first cfg) refl) in
      let m2 : Entries = add_on_off (some "AUTO_SCALE") cfg.auto_scale m1 in
      let k2 : Cfg Real = record k1 { auto_scale = cfg.auto_scale } in
      let e2 =
        on_off_step pf sc addr "AUTO_SCALE" cfg.auto_scale m1 k1 k2 (e1)
          (auto_scale-Effect pf sc addr cfg.auto_scale k1 refl) in
      let m3 : Entries = yaml_map_add_int_nz pf pr (some "AUTO_SCALE_DPI") cfg.auto_scale_dpi m2 in
      let k3 : Cfg Real = record k2 { auto_scale_dpi = cfg.auto_scale_dpi } in
      let e3 = dpi_step pf sc pr addr cfg.auto_scale_dpi m2 k2 w.dpi refl (e2) in
      let m4 : Entries =
        yaml_map_add_float_nz pf pr (some "AUTO_SCALE_MIN") cfg.auto_scale_min m3 in
      let k4 : Cfg Real = record k3 { auto_scale_min = cfg.auto_scale_min } in
      let e4 = min_step pf sc pr addr cfg.auto_scale_min m3 k3 w.low refl (e3) in
      let m5 : Entries =
        yaml_map_add_float_nz pf pr (some "AUTO_SCALE_MAX") cfg.auto_scale_max m4 in
      let k5 : Cfg Real = record k4 { auto_scale_max = cfg.auto_scale_max } in
      let e5 = max_step pf sc pr addr cfg.auto_scale_max m4 k4 w.high refl (e4) in e5
