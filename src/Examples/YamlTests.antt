-- ===== src/Examples/YamlTests.antt =====
-- The theorem on the names of displays, where one entry has a name and another a regular expression.
use way_displays.Prelude.{ℤ, pos, ◌≡◌, some}
use way_displays.Prelude.Text.{strlen}
use way_displays.Cfg.{Cfg}
use way_displays.Yaml.{
  Pairs, no_pairs, pair, no_nodes, node, scalar, sequence, mapping, Scanner, Context, loaded,
}
use way_displays.Yaml.Document.{yaml_map_to_cfg}
use way_displays.Yaml.Valid.{NamesValid, map_to_cfg-NamesValid}
use way_displays.Examples.Concrete.{desk}

-- The number that is read is the length of the text.
abbrev scanner : Scanner ℤ
scanner = record {
  scan_int = λ s. some (pos (strlen s));
  scan_float = λ s. some (pos (strlen s));
  round = λ r. r;
  size_of = λ r. 1500;
  lround = λ r. r;
}

abbrev conditions : Pairs
conditions =
    pair (scalar "IF")
      (sequence (
        node
          (mapping (
            pair (scalar "PLUGGED") (sequence (node (scalar "!^DP-") no_nodes))
              (pair (scalar "UNPLUGGED") (sequence (node (scalar "HDMI-A-1") no_nodes)) no_pairs)))
          no_nodes))
      no_pairs

abbrev document : Pairs
document =
    pair (scalar "SCALE")
      (mapping
        (pair (scalar "HDMI-A-1") (scalar "1.5") (pair (scalar "!^DP-") (scalar "2") no_pairs)))
      (pair (scalar "ORDER") (sequence (node (scalar "eDP-1") (node (scalar "!DP") no_nodes))) (
        pair (scalar "DISABLED") (mapping (pair (scalar "eDP-1") (mapping conditions) no_pairs))
          no_pairs))

map_to_cfg-NamesValid_example :
    (cfg : Cfg ℤ) × (uc : Context) × (yaml_map_to_cfg desk scanner
        (λ s. strlen s)
        (mapping document)
      ≡ loaded (cfg, uc))
    × NamesValid desk scanner (λ s. strlen s) cfg
map_to_cfg-NamesValid_example = map_to_cfg-NamesValid desk scanner (λ s. strlen s) document
