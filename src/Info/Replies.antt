-- ===== src/Info/Replies.antt =====
-- What src/args.c reads of the commands that src/info/print.c prints, but those for modes.
use mathlib.Core.List.{map-append, append-nil, append_assoc}
use way_displays.Prelude.{
  ℕ, suc, ◌==◌, ltb, ◌≡◌, refl, arith, ap, ◌∙◌, sym, inl, inr, Bool, true, false, Option, none,
  some, String, List, [], ◌∷◌, ◌++◌, map, All, length, leb, if◌then◌else◌,
}
use way_displays.Prelude.Text.{strcasecmp, starts_with_case, strlen}
use way_displays.Enums.Names.{_val, _val_start, _name, transforms}
use way_displays.Enums.Values.{
  cfg_element_val, arrange_val_start, align_val_start, on_off_val, transform_val,
}
use way_displays.Enums.{Arrange, Align, OnOff}
use way_displays.Platform.{Platform}
use way_displays.Cfg.{Cfg, CfgDisabled}
use way_displays.Cfg.Init.{cfg_init}
use way_displays.Ipc.{ipc_request_init}
use way_displays.Args.{Conversions}
use way_displays.Args.Element.{cfg_disabled_init, add_args}
use way_displays.Args.Requests.{args_ipc_set}
use way_displays.Yaml.Parts.{Distinct, Absent-later, empty_contains}
use way_displays.Yaml.ModeBack.{IsTransform}
use way_displays.Yaml.Marshal.{flat}
use way_displays.Info.{Format, text_of}
use way_displays.Info.Commands.{
  quoted, Line, command, quoted_all, below_newline, arrange_align_lines, order_lines, on_off_lines,
  scale_lines, transform_lines, disabled_lines, vrr_off_lines, callback_lines,
}
use way_displays.Info.Shell.{words}
use way_displays.Info.Parts.{
  replies, sets, nothing, arrange_align_parts, order_parts, scaling_parts, auto_scale_parts,
  disabled_parts, callback_parts, ScaleBack,
}

module _ (pf : Platform) (conv : Conversions pf.Real) (fmt : Format pf.Real) (addr : ℕ) where
  open pf use {lib, Real, of_int, mul, lt}
  open lib use {sp, ss, ps}

  pub replies-append :
      (a b : List Line)
      → replies pf conv fmt addr (a ++ b) ≡ replies pf conv fmt addr a ++ replies pf conv fmt addr b
  replies-append [] b = refl
  replies-append (none ∷ a) b = replies-append a b
  replies-append (some c ∷ a) b =
      ap (λ l. args_ipc_set pf conv addr c.element (words c.args) ∷ l) (replies-append a b)

  pub joined :
      (a b : List Line) (x y : List (Cfg Real))
      → replies pf conv fmt addr a ≡ map (sets pf conv fmt addr) x
      → replies pf conv fmt addr b ≡ map (sets pf conv fmt addr) y
      → replies pf conv fmt addr (a ++ b) ≡ map (sets pf conv fmt addr) (x ++ y)
  joined a b x y p q =
      replies-append a b ∙ (λ i. p i ++ q i) ∙ sym (map-append (sets pf conv fmt addr) x y)

  pub below :
      (ls : List Line) → replies pf conv fmt addr (below_newline ls) ≡ replies pf conv fmt addr ls
  below [] = refl
  below (l ∷ ls) = refl

  pub arrange_align-set :
      (a : Option Align) (r : Option Arrange)
      → replies pf conv fmt addr (arrange_align_lines a r)
        ≡ map (sets pf conv fmt addr) (arrange_align_parts pf conv fmt addr a r)
  unfolding arrange_align_lines args_ipc_set ipc_request_init cfg_init cfg_element_val
      arrange_val_start align_val_start _val _val_start _name strcasecmp starts_with_case strlen
  arrange_align-set none r = refl
  arrange_align-set (some a) none = refl
  arrange_align-set (some Align.top) (some Arrange.row) = refl
  arrange_align-set (some Align.middle) (some Arrange.row) = refl
  arrange_align-set (some Align.bottom) (some Arrange.row) = refl
  arrange_align-set (some Align.left) (some Arrange.row) = refl
  arrange_align-set (some Align.right) (some Arrange.row) = refl
  arrange_align-set (some Align.top) (some Arrange.col) = refl
  arrange_align-set (some Align.middle) (some Arrange.col) = refl
  arrange_align-set (some Align.bottom) (some Arrange.col) = refl
  arrange_align-set (some Align.left) (some Arrange.col) = refl
  arrange_align-set (some Align.right) (some Arrange.col) = refl

  pub scaling-set :
      (v : Option OnOff)
      → replies pf conv fmt addr (on_off_lines "SCALING" v)
        ≡ map (sets pf conv fmt addr) (scaling_parts pf conv fmt addr v)
  unfolding on_off_lines args_ipc_set ipc_request_init cfg_init cfg_element_val on_off_val _val
      _name strcasecmp
  scaling-set none = refl
  scaling-set (some OnOff.on) = refl
  scaling-set (some OnOff.off) = refl

  pub auto_scale-set :
      (v : Option OnOff)
      → replies pf conv fmt addr (on_off_lines "AUTO_SCALE" v)
        ≡ map (sets pf conv fmt addr) (auto_scale_parts pf conv fmt addr v)
  unfolding on_off_lines args_ipc_set ipc_request_init cfg_init cfg_element_val on_off_val _val
      _name strcasecmp
  auto_scale-set none = refl
  auto_scale-set (some OnOff.on) = refl
  auto_scale-set (some OnOff.off) = refl

  pub callback-set :
      (c : Option String)
      → replies pf conv fmt addr (callback_lines c)
        ≡ map (sets pf conv fmt addr) (callback_parts pf conv fmt addr c)
  unfolding callback_lines args_ipc_set ipc_request_init cfg_init cfg_element_val _val strcasecmp
  callback-set none = refl
  callback-set (some c) = refl

  pub put_one : (V : Type 0) (k : String) (v : V) → sp.put [] k v ≡ (k, v) ∷ []
  put_one V k v = sp.put-append {V = V} [] k v (sp.get_lem {V = V} [] k)

  pub vrr_off-set :
      (l : List String)
      → replies pf conv fmt addr (vrr_off_lines l)
        ≡ map
            (sets pf conv fmt addr)
            (map (λ s. record (nothing pf conv fmt addr) { adaptive_sync_off = s ∷ [] }) l)
  unfolding vrr_off_lines args_ipc_set ipc_request_init cfg_init cfg_element_val _val strcasecmp
  vrr_off-set [] = refl
  vrr_off-set (s ∷ l) = λ i.
      sets pf conv fmt addr (record (nothing pf conv fmt addr) {
        adaptive_sync_off = ss.add-append [] s (ss.contains-empty s) i;
      })
      ∷ vrr_off-set l i

  if_set :
      (t : Bool) (l : Line) (p : Cfg Real) (ls : List Line) (more : List (Cfg Real))
      → replies pf conv fmt addr (l ∷ []) ≡ sets pf conv fmt addr p ∷ []
      → replies pf conv fmt addr ls ≡ map (sets pf conv fmt addr) more
      → replies pf conv fmt addr (if t then l ∷ ls else ls)
        ≡ map (sets pf conv fmt addr) (if t then p ∷ more else more)
  if_set true l p ls more e f = replies-append (l ∷ []) ls ∙ (λ i. e i ++ f i)
  if_set false l p ls more e f = f

  disabled_reply :
      (s : String)
      → replies pf conv fmt addr (command "DISABLED" (quoted s ∷ []) ∷ [])
        ≡ sets pf conv fmt addr
            (record (nothing pf conv fmt addr) { disableds = (s, cfg_disabled_init) ∷ [] })
          ∷ []
  unfolding args_ipc_set ipc_request_init cfg_init cfg_element_val _val strcasecmp
  disabled_reply s = λ i.
      sets pf conv fmt addr (record (nothing pf conv fmt addr) {
        disableds = put_one CfgDisabled s cfg_disabled_init i;
      })
      ∷ []

  pub disabled-set :
      (l : List (String × CfgDisabled))
      → replies pf conv fmt addr (disabled_lines pf fmt l)
        ≡ map (sets pf conv fmt addr) (disabled_parts pf conv fmt addr l)
  unfolding disabled_lines
  disabled-set [] = refl
  disabled-set ((s, d) ∷ l) =
      ap
        (λ n. replies pf conv fmt addr (
          if n == 0
          then command "DISABLED" (quoted s ∷ []) ∷ disabled_lines pf fmt l
          else disabled_lines pf fmt l))
        (ps.size_lem d.conditions)
      ∙ if_set (length d.conditions == 0) (command "DISABLED" (quoted s ∷ []))
          (record (nothing pf conv fmt addr) { disableds = (s, cfg_disabled_init) ∷ [] })
          (disabled_lines pf fmt l) (disabled_parts pf conv fmt addr l) (disabled_reply s)
          (disabled-set l)

  transform_back :
      (t : ℕ) → IsTransform t → transform_val (some (text_of (flat (_name transforms t)))) ≡ some t
  unfolding transform_val _name _val strcasecmp
  transform_back t (inl e) = rw e refl
  transform_back t (inr (inl e)) = rw e refl
  transform_back t (inr (inr (inl e))) = rw e refl
  transform_back t (inr (inr (inr (inl e)))) = rw e refl
  transform_back t (inr (inr (inr (inr (inl e))))) = rw e refl
  transform_back t (inr (inr (inr (inr (inr (inl e)))))) = rw e refl
  transform_back t (inr (inr (inr (inr (inr (inr e)))))) = rw e refl

  pub transform-set :
      (l : List (String × ℕ))
      → All (λ e. IsTransform e.1) l
      → replies pf conv fmt addr (transform_lines l)
        ≡ map
            (sets pf conv fmt addr)
            (map (λ e. record (nothing pf conv fmt addr) { transforms = e ∷ [] }) l)
  unfolding transform_lines args_ipc_set ipc_request_init cfg_init cfg_element_val _val strcasecmp
  transform-set [] h = refl
  transform-set ((s, t) ∷ l) h = rw (transform_back t h.0, put_one ℕ s t, transform-set l h.1) refl

  pub scale-set :
      (l : List (String × ℕ))
      → All (λ e. ScaleBack pf conv fmt addr e.1) l
      → replies pf conv fmt addr (scale_lines pf fmt l)
        ≡ map
            (sets pf conv fmt addr)
            (map (λ e. record (nothing pf conv fmt addr) { scales = e ∷ [] }) l)
  unfolding scale_lines args_ipc_set ipc_request_init cfg_init cfg_element_val _val strcasecmp
  scale-set [] h = refl
  scale-set ((s, v) ∷ l) h = rw (h.0.0, h.0.1, put_one ℕ s v, scale-set l h.1) refl

  added :
      (l set : List String)
      → All (λ s. ss.contains set s ≡ false) l
      → Distinct l
      → add_args pf conv set l ≡ set ++ l
  unfolding add_args
  added [] set h d = sym (append-nil set)
  added (s ∷ l) set h d =
      ap (λ u. add_args pf conv u l) (ss.add-append set s h.0)
      ∙ added l (set ++ s ∷ []) (Absent-later pf set s l h.0 h.1 d.0) d.1
      ∙ append_assoc set (s ∷ []) l

  unquoted : (l : List String) → words (quoted_all l) ≡ l
  unquoted [] = refl
  unquoted (s ∷ l) = ap (λ m. s ∷ m) (unquoted l)

  order_reply :
      (s : String) (l : List String)
      → Distinct (s ∷ l)
      → args_ipc_set pf conv addr "ORDER" (s ∷ l)
        ≡ sets pf conv fmt addr (record (nothing pf conv fmt addr) { order_name_desc = s ∷ l })
  unfolding args_ipc_set ipc_request_init cfg_init cfg_element_val _val strcasecmp
  order_reply s l d =
      let takes : leb 1 (suc (length l)) ≡ true = ground arith in
      rw (takes, added (s ∷ l) [] (empty_contains pf (s ∷ l)) d) refl

  pub order-set :
      (l : List String)
      → Distinct l
      → replies pf conv fmt addr (order_lines pf fmt l)
        ≡ map (sets pf conv fmt addr) (order_parts pf conv fmt addr l)
  unfolding order_lines
  order-set [] d = rw (ss.size_lem []) refl
  order-set (s ∷ l) d =
      let some_size : ltb 0 (suc (length l)) ≡ true = ground arith in
      ap
        (λ n. replies pf conv fmt addr (
          if ltb 0 n
          then none
            ∷ some (record { element = "ORDER"; args = quoted_all (s ∷ l); tail = " " })
            ∷ []
          else []))
        (ss.size_lem (s ∷ l))
      ∙ rw (some_size, unquoted l, order_reply s l d) refl
