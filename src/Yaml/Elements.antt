-- ===== src/Yaml/Elements.antt =====
-- One element of a configuration: what src/yaml/unmarshal-types.c makes of the entry that
-- src/yaml/marshal-types.c writes for it.
use Prim.Native.Nat.{ℕ}
use way_displays.Prelude.{◌≡◌, refl, ap, ◌∙◌, Option, none, some, String, [], ◌∷◌, ◌++◌}
use way_displays.Prelude.Text.{strcasecmp, starts_with_case, strlen}
use way_displays.Enums.{
  Arrange, Align, OnOff, ScaleRoundStrategy, LogThreshold, arrange_code, align_code,
  scale_round_strategy_code, log_threshold_code,
}
use way_displays.Enums.Names.{
  _name, _val, val_in, _val_start, val_start_in, arranges, aligns, scale_round_strategies,
  log_thresholds,
}
use way_displays.Enums.Values.{
  arrange_val_start, align_val_start, cfg_element_val, on_off_val, scale_round_strategy_val,
  log_threshold_val,
}
use way_displays.Platform.{Platform}
use way_displays.Cfg.{Cfg}
use way_displays.Cfg.Init.{cfg_init}
use way_displays.Yaml.{Node, scalar, entries, Scanner, Context, no_context}
use way_displays.Yaml.Primitives.{
  yaml_scalar_to_string, yaml_scalar_to_enum, yaml_scalar_to_enum_def, yaml_scalar_to_boolean,
  yaml_scalar_to_on_off_def, yaml_scalar_to_string_def,
}
use way_displays.Yaml.Document.{key_in, element_in, pairs_in}
use way_displays.Yaml.Marshal.{
  Entries, pairs_of, name_in, yaml_map_add_str, yaml_map_add_node, yaml_map_add_bool, add_on_off,
}

module _ (pf : Platform) (sc : Scanner pf.Real) (addr : String → ℕ) where
  open pf use {Real}

  -- What is read of the entries of a mapping that is being made.
  abbrev pub read_entries : Entries → Cfg Real × Context
  read_entries m = pairs_in pf sc addr (cfg_init pf, no_context) (entries (pairs_of m))

  -- The entry for a key, if it is there, takes one configuration to the other.
  abbrev pub Effect : String → Option Node → Cfg Real → Cfg Real → Type 0
  Effect key none c d = c ≡ d
  Effect key (some n) c d = key_in pf sc addr (c, no_context) (some key) n ≡ (d, no_context)

  abbrev pub named : Option String → Option Node
  named none = none
  named (some s) = some (scalar s)

  pairs-append :
      (m : Entries) (c : Cfg Real × Context) (key : String) (n : Node)
      → pairs_in pf sc addr c (entries (pairs_of (m ++ (key, n) ∷ [])))
        ≡ key_in pf sc addr (pairs_in pf sc addr c (entries (pairs_of m))) (some key) n
  unfolding pairs_in yaml_scalar_to_string
  pairs-append [] c key n = refl
  pairs-append ((k, v) ∷ m) c key n = pairs-append m (key_in pf sc addr c (some k) v) key n

  pub node_step :
      (key : String) (o : Option Node) (m : Entries) (c d : Cfg Real)
      → read_entries m ≡ (c, no_context)
      → Effect key o c d
      → read_entries (yaml_map_add_node (some key) o m) ≡ (d, no_context)
  unfolding yaml_map_add_node
  node_step key none m c d e f = e ∙ ap (λ x. (x, no_context)) f
  node_step key (some n) m c d e f =
      pairs-append m (cfg_init pf, no_context) key n
      ∙ ap (λ x. key_in pf sc addr x (some key) n) e
      ∙ f

  pub str_step :
      (key : String) (o : Option String) (m : Entries) (c d : Cfg Real)
      → read_entries m ≡ (c, no_context)
      → Effect key (named o) c d
      → read_entries (yaml_map_add_str (some key) o m) ≡ (d, no_context)
  unfolding yaml_map_add_str yaml_map_add_node
  str_step key none m c d e f = node_step key none m c d e f
  str_step key (some s) m c d e f = node_step key (some (scalar s)) m c d e f

  pub arrange-Effect :
      (a : Option Arrange) (c : Cfg Real)
      → c.arrange ≡ none
      → Effect "ARRANGE" (named (name_in arranges arrange_code a)) c (record c { arrange = a })
  unfolding element_in cfg_element_val yaml_scalar_to_enum_def yaml_scalar_to_enum
      yaml_scalar_to_string arrange_val_start _name _val val_in _val_start val_start_in strcasecmp
      starts_with_case strlen
  arrange-Effect none c e = λ i. record c { arrange = e i }
  arrange-Effect (some Arrange.row) c e = refl
  arrange-Effect (some Arrange.col) c e = refl

  pub align-Effect :
      (a : Option Align) (c : Cfg Real)
      → c.align ≡ none
      → Effect "ALIGN" (named (name_in aligns align_code a)) c (record c { align = a })
  unfolding element_in cfg_element_val yaml_scalar_to_enum_def yaml_scalar_to_enum
      yaml_scalar_to_string align_val_start _name _val val_in _val_start val_start_in strcasecmp
      starts_with_case strlen
  align-Effect none c e = λ i. record c { align = e i }
  align-Effect (some Align.top) c e = refl
  align-Effect (some Align.middle) c e = refl
  align-Effect (some Align.bottom) c e = refl
  align-Effect (some Align.left) c e = refl
  align-Effect (some Align.right) c e = refl

  pub scale_round_strategy-Effect :
      (a : Option ScaleRoundStrategy) (c : Cfg Real)
      → c.scale_round_strategy ≡ none
      → Effect "SCALE_ROUND_STRATEGY"
          (named (name_in scale_round_strategies scale_round_strategy_code a))
          c
          (record c { scale_round_strategy = a })
  unfolding element_in cfg_element_val yaml_scalar_to_enum_def yaml_scalar_to_enum
      yaml_scalar_to_string scale_round_strategy_val _name _val val_in _val_start val_start_in
      strcasecmp starts_with_case strlen
  scale_round_strategy-Effect none c e = λ i. record c { scale_round_strategy = e i }
  scale_round_strategy-Effect (some ScaleRoundStrategy.nearest) c e = refl
  scale_round_strategy-Effect (some ScaleRoundStrategy.up) c e = refl
  scale_round_strategy-Effect (some ScaleRoundStrategy.down) c e = refl

  pub log_threshold-Effect :
      (a : Option LogThreshold) (c : Cfg Real)
      → c.log_threshold ≡ none
      → Effect "LOG_THRESHOLD"
          (named (name_in log_thresholds log_threshold_code a))
          c
          (record c { log_threshold = a })
  unfolding element_in cfg_element_val yaml_scalar_to_enum_def yaml_scalar_to_enum
      yaml_scalar_to_string log_threshold_val _name _val val_in _val_start val_start_in strcasecmp
      starts_with_case strlen
  log_threshold-Effect none c e = λ i. record c { log_threshold = e i }
  log_threshold-Effect (some LogThreshold.debug) c e = refl
  log_threshold-Effect (some LogThreshold.info) c e = refl
  log_threshold-Effect (some LogThreshold.warning) c e = refl
  log_threshold-Effect (some LogThreshold.error) c e = refl
  log_threshold-Effect (some LogThreshold.fatal) c e = refl

  -- How an on and off is written.
  abbrev pub on_off_text : Option OnOff → Option String
  on_off_text none = none
  on_off_text (some OnOff.on) = some "TRUE"
  on_off_text (some OnOff.off) = some "FALSE"

  pub on_off_step :
      (key : String) (v : Option OnOff) (m : Entries) (c d : Cfg Real)
      → read_entries m ≡ (c, no_context)
      → Effect key (named (on_off_text v)) c d
      → read_entries (add_on_off (some key) v m) ≡ (d, no_context)
  unfolding add_on_off yaml_map_add_bool yaml_map_add_str
  on_off_step key none m c d e f = str_step key none m c d e f
  on_off_step key (some OnOff.on) m c d e f = str_step key (some "TRUE") m c d e f
  on_off_step key (some OnOff.off) m c d e f = str_step key (some "FALSE") m c d e f

  pub scaling-Effect :
      (v : Option OnOff) (c : Cfg Real)
      → c.scaling ≡ none
      → Effect "SCALING" (named (on_off_text v)) c (record c { scaling = v })
  unfolding element_in cfg_element_val yaml_scalar_to_on_off_def yaml_scalar_to_boolean
      yaml_scalar_to_enum yaml_scalar_to_string on_off_val _val val_in strcasecmp
  scaling-Effect none c e = λ i. record c { scaling = e i }
  scaling-Effect (some OnOff.on) c e = refl
  scaling-Effect (some OnOff.off) c e = refl

  pub auto_scale-Effect :
      (v : Option OnOff) (c : Cfg Real)
      → c.auto_scale ≡ none
      → Effect "AUTO_SCALE" (named (on_off_text v)) c (record c { auto_scale = v })
  unfolding element_in cfg_element_val yaml_scalar_to_on_off_def yaml_scalar_to_boolean
      yaml_scalar_to_enum yaml_scalar_to_string on_off_val _val val_in strcasecmp
  auto_scale-Effect none c e = λ i. record c { auto_scale = e i }
  auto_scale-Effect (some OnOff.on) c e = refl
  auto_scale-Effect (some OnOff.off) c e = refl

  pub laptop_lid_monitor-Effect :
      (v : Option OnOff) (c : Cfg Real)
      → c.laptop_lid_monitor ≡ none
      → Effect "LAPTOP_LID_MONITOR" (named (on_off_text v)) c (record c { laptop_lid_monitor = v })
  unfolding element_in cfg_element_val yaml_scalar_to_on_off_def yaml_scalar_to_boolean
      yaml_scalar_to_enum yaml_scalar_to_string on_off_val _val val_in strcasecmp
  laptop_lid_monitor-Effect none c e = λ i. record c { laptop_lid_monitor = e i }
  laptop_lid_monitor-Effect (some OnOff.on) c e = refl
  laptop_lid_monitor-Effect (some OnOff.off) c e = refl

  pub callback-Effect :
      (v : Option String) (c : Cfg Real)
      → c.callback_cmd ≡ none
      → Effect "CALLBACK_CMD" (named v) c (record c { callback_cmd = v })
  unfolding element_in cfg_element_val yaml_scalar_to_string_def yaml_scalar_to_string _val val_in
      strcasecmp
  callback-Effect none c e = λ i. record c { callback_cmd = e i }
  callback-Effect (some v) c e = refl
