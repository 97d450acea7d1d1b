-- ===== src/Yaml/Messages.antt =====
-- The lines of the log that src/yaml/marshal-types.c puts into a response, as
-- src/yaml/unmarshal-types.c reads them.
use Prim.Native.Nat.{ℕ}
use way_displays.Prelude.{
  ◌≡◌, refl, arith, sym, ap, ◌∙◌, Bool, true, false, Option, none, some, String, List, [], ◌∷◌,
  ◌++◌, ltb, not, select, if◌then◌else◌,
}
use mathlib.Core.List.{append_assoc, append-nil}
use way_displays.Enums.{LogThreshold, log_threshold_code}
use way_displays.Enums.Names.{_val, val_in, _name}
use way_displays.Enums.Values.{log_threshold_val}
use way_displays.Prelude.Text.{strcasecmp}
use way_displays.Log.{LogCapLine}
use way_displays.Platform.{Platform}
use way_displays.Ipc.{lines_from}
use way_displays.Yaml.{Node, scalar, items}
use way_displays.Yaml.Primitives.{
  yaml_map_to_spmap, put_pairs, yaml_scalar_to_string, into_col, yaml_seq_into_col,
}
use way_displays.Yaml.Marshal.{nodes_of, yaml_map_add_str}
use way_displays.Yaml.State.{message_of, messages_from, if_any, yaml_seq_from_messages}
use way_displays.Yaml.Responses.{yaml_map_into_log_cap_lines, add_lines, messages_of}

module _ (pf : Platform) where
  open pf use {lib, Real}
  open lib use {sp}

  pub single : (key : String) (n : Node) → sp.put [] key n ≡ (key, n) ∷ []
  single key n = sp.put-append [] key n (sp.get_lem [] key)

  abbrev line_of : LogThreshold → String → LogCapLine
  line_of t l = record { threshold = t; line = l }

  line_read :
      (lines : List LogCapLine) (t : LogThreshold) (l : String)
      → yaml_map_into_log_cap_lines pf lines (message_of (line_of t l)) ≡ lines ++ line_of t l ∷ []
  unfolding yaml_map_into_log_cap_lines yaml_map_to_spmap put_pairs yaml_scalar_to_string
      yaml_map_add_str _name log_threshold_val _val val_in strcasecmp
  line_read lines LogThreshold.debug l = ap (add_lines lines) (single "DEBUG" (scalar l))
  line_read lines LogThreshold.info l = ap (add_lines lines) (single "INFO" (scalar l))
  line_read lines LogThreshold.warning l = ap (add_lines lines) (single "WARNING" (scalar l))
  line_read lines LogThreshold.error l = ap (add_lines lines) (single "ERROR" (scalar l))
  line_read lines LogThreshold.fatal l = ap (add_lines lines) (single "FATAL" (scalar l))

  abbrev read_nodes : List LogCapLine → List Node → List LogCapLine
  read_nodes acc ns = into_col (yaml_map_into_log_cap_lines pf) acc (items (nodes_of ns))

  read_one :
      (below : Bool) (acc sel : List LogCapLine) (c : LogCapLine) (ns : List Node)
      → ((lines : List LogCapLine) → read_nodes lines ns ≡ lines ++ sel)
      → read_nodes acc (if below then ns else message_of c ∷ ns)
        ≡ acc ++ (if not below then c ∷ sel else sel)
  read_one true acc sel c ns h = h acc
  read_one false acc sel c ns h =
      ap (λ l. read_nodes l ns) (line_read acc c.threshold c.line)
      ∙ h (acc ++ c ∷ [])
      ∙ append_assoc acc (c ∷ []) sel

  abbrev shown : ℕ → List LogCapLine → List LogCapLine
  shown t cs = select (λ c. not (ltb (log_threshold_code c.threshold) t)) cs

  -- The lines of the messages, behind those that are there.
  nodes_read :
      (t : ℕ) (cs acc : List LogCapLine) → read_nodes acc (messages_from t cs) ≡ acc ++ shown t cs
  nodes_read t [] acc = sym (append-nil acc)
  nodes_read t (c ∷ cs) acc =
      read_one (ltb (log_threshold_code c.threshold) t) acc (shown t cs) c (messages_from t cs)
        (nodes_read t cs)

  seq_read : (ns : List Node) → messages_of pf (if_any ns) ≡ read_nodes [] ns
  unfolding yaml_seq_into_col
  seq_read [] = refl
  seq_read (n ∷ ns) = refl

  all_shown : (cs : List LogCapLine) → shown 0 cs ≡ cs
  all_shown [] = refl
  all_shown (c ∷ cs) = ground (arith, all_shown cs)

  -- The lines that are read are those from the threshold on.
  pub messages_read :
      (t : Option LogThreshold) (cs : List LogCapLine)
      → messages_of pf (yaml_seq_from_messages t cs) ≡ lines_from t cs
  unfolding yaml_seq_from_messages
  messages_read none cs = seq_read (messages_from 0 cs) ∙ nodes_read 0 cs [] ∙ all_shown cs
  messages_read (some t) cs =
      seq_read (messages_from (log_threshold_code t) cs) ∙ nodes_read (log_threshold_code t) cs []
