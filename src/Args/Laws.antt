-- ===== src/Args/Laws.antt =====
-- What holds of every request that src/args.c and src/cli.c make of a command line.
use way_displays.Prelude.{
  ℕ, ℤ, pos, negsuc, ◌≤ℤ◌, ◌≡◌, refl, sym, subst, inl, inr, Bool, true, false, ◌&&◌, Option, none,
  some, String, List, [], ◌∷◌, All, arith, pick, length,
}
use way_displays.Prelude.Text.{strcasecmp}
use way_displays.Enums.{CfgElement, IpcCommand, OnOff}
use way_displays.Enums.Values.{align_val_start, arrange_val_start, on_off_val, transform_val}
use way_displays.Platform.{Platform}
use way_displays.Mode.{Mode, mode_init}
use way_displays.Cfg.{Cfg}
use way_displays.Cfg.Init.{cfg_init}
use way_displays.Cfg.Validate.{IsUsable}
use way_displays.Args.{Conversions, Parsed, parsed, exits, undefined, ◌>>=◌, int32_of}
use way_displays.Args.Element.{
  argument, if_parsed, if_positive, positive, fresh, arrange_align, switched, scale_of,
  resolution_of, mode_arg, modes_of, transforms_of, callback_of, args_cfg,
}
use way_displays.Args.Requests.{set_takes, del_takes}

-- What is read is so, and no argument is followed that is not there.
abbrev pub Gives : {A : Type 0} → (A → Type 0) → Parsed A → Type 0
Gives P (parsed a) = P a
Gives P (exits status) = Unit
Gives P undefined = ⊥

pub Gives-bind :
    {A B : Type 0} (P : A → Type 0) (Q : B → Type 0) (p : Parsed A) (f : A → Parsed B)
    → Gives P p
    → ((a : A) → P a → Gives Q (f a))
    → Gives Q (p >>= f)
Gives-bind P Q (parsed a) f g k = k a g
Gives-bind P Q (exits status) f g k = tt
Gives-bind P Q undefined f g k = elim g [ ]

abbrev pub Any : {A : Type 0} → A → Type 0
Any a = Unit

if_parsed-Gives : {A : Type 0} (o : Option A) → Gives Any (if_parsed o)
if_parsed-Gives none = tt
if_parsed-Gives (some a) = tt

if_positive-Gives :
    (P : Mode → Type 0) (m : Mode) (b : Bool) → (b ≡ true → P m) → Gives P (if_positive m b)
if_positive-Gives P m true k = k refl
if_positive-Gives P m false k = tt

max-IsUsable : (addr : ℕ) → IsUsable (record (mode_init addr) { max = true })
unfolding mode_init
max-IsUsable addr = record {
  width_ok = inl refl;
  height_ok = inl refl;
  refresh_ok = inl refl;
  resolution_ok = λ e. cc;
}

positive_above : (z : ℤ) → positive z ≡ true → pos 1 ≤ℤ z
positive_above z e = ground arith

and_left : (a b : Bool) → (a && b) ≡ true → a ≡ true
and_left true b e = refl
and_left false b e = e

and_right : (a b : Bool) → (a && b) ≡ true → b ≡ true
and_right true b e = e
and_right false b e = cc

module _ (pf : Platform) (conv : Conversions pf.Real) where
  open pf use {lib, Real, of_int, mul, lt}
  open lib use {sp, ss}

  -- Every mode that the configuration has may be asked for.
  abbrev pub HasUsable : Cfg Real → Type 0
  HasUsable cfg = All (λ (e : String × Mode). IsUsable e.1) cfg.modes

  sized-IsUsable :
      (m : Mode) (w h : ℤ)
      → m.refresh_mhz ≡ negsuc 0
      → (positive w && positive h) ≡ true
      → IsUsable (record m { width = w; height = h })
  sized-IsUsable m w h r e =
      let p = positive_above w (and_left (positive w) (positive h) e) in
      let q = positive_above h (and_right (positive w) (positive h) e) in
      record {
        width_ok = inr p;
        height_ok = inr q;
        refresh_ok = inl r;
        resolution_ok = λ a b. (p, q);
      }

  refreshed-IsUsable :
      (m : Mode) (w h r : ℤ)
      → (positive w && positive h && positive r) ≡ true
      → IsUsable (record m { width = w; height = h; refresh_mhz = r })
  refreshed-IsUsable m w h r e =
      let p = positive_above w (ground arith) in
      let q = positive_above h (ground arith) in
      record {
        width_ok = inr p;
        height_ok = inr q;
        refresh_ok = inr (positive_above r (ground arith));
        resolution_ok = λ a b. (p, q);
      }

  resolution-IsUsable :
      (m : Mode) (args : List String)
      → m.refresh_mhz ≡ negsuc 0
      → Gives IsUsable (resolution_of pf conv m args)
  unfolding resolution_of
  resolution-IsUsable m [] e = tt
  resolution-IsUsable m (w ∷ []) e = tt
  resolution-IsUsable m (w ∷ h ∷ []) e =
      if_positive-Gives IsUsable _ _ (sized-IsUsable m (conv.atoi w) (conv.atoi h) e)
  resolution-IsUsable m (w ∷ h ∷ hz ∷ rest) e = if_positive-Gives IsUsable _ _ (
      refreshed-IsUsable m (conv.atoi w) (conv.atoi h)
        (int32_of (conv.lround (mul (conv.atof hz) (of_int (pos 1000))))))

  mode_arg-IsUsable :
      (addr : ℕ) (text : String) (rest : List String)
      → Gives IsUsable (mode_arg pf conv addr (text ∷ rest))
  unfolding mode_arg mode_init
  mode_arg-IsUsable addr text rest =
      pick (Gives IsUsable) (strcasecmp text "MAX") _ _ (λ e. max-IsUsable addr)
        (λ e. resolution-IsUsable (mode_init addr) (text ∷ rest) refl)

  -- One entry is put in the empty map.
  put-HasUsable :
      (name : String) (m : Mode)
      → IsUsable m
      → All (λ (e : String × Mode). IsUsable e.1) (sp.put [] name m)
  put-HasUsable name m u =
      subst (All (λ (e : String × Mode). IsUsable e.1))
        (sym (sp.put-append [] name m (sp.get_lem [] name))) (u, tt)

  abbrev pub Makes : Parsed (Cfg Real) → Type 0
  Makes p = Gives HasUsable p

  switched-Makes :
      (command : IpcCommand) (args : List String) (f : OnOff → Cfg Real)
      → ((v : OnOff) → (f v).modes ≡ [])
      → Makes (switched pf conv command args >>= λ v. parsed (f v))
  unfolding switched
  switched-Makes IpcCommand.cfg_set args f k =
      Gives-bind Any HasUsable (if_parsed (on_off_val (argument args))) _
        (if_parsed-Gives (on_off_val (argument args))) (λ v t. rw (k v) tt)
  switched-Makes IpcCommand.cfg_toggle args f k = rw (k OnOff.on) tt
  switched-Makes _ args f k = tt

  arranged-Makes : (args : List String) → Makes (arrange_align pf conv args)
  unfolding arrange_align cfg_init
  arranged-Makes [] =
      Gives-bind Any HasUsable (if_parsed (arrange_val_start none)) _
        (if_parsed-Gives (arrange_val_start none)) (λ v t. tt)
  arranged-Makes (a ∷ rest) =
      Gives-bind Any HasUsable (if_parsed (arrange_val_start (some a))) _
        (if_parsed-Gives (arrange_val_start (some a)))
        (λ v t.
          Gives-bind Any HasUsable (if_parsed (align_val_start (argument rest))) _
            (if_parsed-Gives (align_val_start (argument rest))) (λ w u. tt))

  scaled-Makes :
      (name text : String)
      → Makes (
          scale_of pf conv IpcCommand.cfg_set (name ∷ text ∷ []) >>= λ m.
          parsed (record (fresh pf conv) { scales = m }))
  unfolding scale_of cfg_init
  scaled-Makes name text =
      Gives-bind Any HasUsable _ _
        (pick (Gives Any) (lt (of_int (pos 0)) (conv.strtof text)) _ _ (λ e. tt) (λ e. tt))
        (λ m u. tt)

  transformed-Makes :
      (name : String) (rest : List String)
      → Makes (
          transforms_of pf conv IpcCommand.cfg_set (name ∷ rest) >>= λ m.
          parsed (record (fresh pf conv) { transforms = m }))
  unfolding transforms_of cfg_init
  transformed-Makes name rest =
      elim (transform_val (argument rest))
        as (λ o. Makes (
          (if_parsed o >>= λ t. parsed (sp.put [] name t)) >>= λ m.
          parsed (record (fresh pf conv) { transforms = m }))) [ none ↦ tt | some t ↦ tt ]

  moded-Makes :
      (addr : ℕ) (name text : String) (rest : List String)
      → Makes (
          modes_of pf conv addr IpcCommand.cfg_set (name ∷ text ∷ rest) >>= λ m.
          parsed (record (fresh pf conv) { modes = m }))
  unfolding modes_of cfg_init
  moded-Makes addr name text rest =
      Gives-bind (All (λ (e : String × Mode). IsUsable e.1)) HasUsable _ _
        (Gives-bind IsUsable (All (λ (e : String × Mode). IsUsable e.1))
          (mode_arg pf conv addr (text ∷ rest)) _ (mode_arg-IsUsable addr text rest)
          (λ m u. put-HasUsable name m u))
        (λ m u. u)

  pub set-Makes :
      (addr : ℕ) (element : CfgElement) (args : List String)
      → set_takes element (length args) ≡ true
      → Makes (args_cfg pf conv addr IpcCommand.cfg_set element args)
  unfolding args_cfg set_takes cfg_init callback_of scale_of transforms_of modes_of
  set-Makes addr CfgElement.arrange_align args h = arranged-Makes args
  set-Makes addr CfgElement.scaling args h = switched-Makes IpcCommand.cfg_set args _ (λ v. refl)
  set-Makes addr CfgElement.auto_scale args h = switched-Makes IpcCommand.cfg_set args _ (λ v. refl)
  set-Makes addr CfgElement.scale (name ∷ text ∷ []) h = scaled-Makes name text
  set-Makes addr CfgElement.scale [] h = cc
  set-Makes addr CfgElement.scale (name ∷ []) h = cc
  set-Makes addr CfgElement.scale (a ∷ b ∷ c ∷ rest) h = ground arith
  set-Makes addr CfgElement.mode [] h = cc
  set-Makes addr CfgElement.mode (name ∷ []) h = cc
  set-Makes addr CfgElement.mode (name ∷ text ∷ rest) h = moded-Makes addr name text rest
  set-Makes addr CfgElement.transform [] h = cc
  set-Makes addr CfgElement.transform (name ∷ rest) h = transformed-Makes name rest
  set-Makes addr CfgElement.callback_cmd [] h = cc
  set-Makes addr CfgElement.callback_cmd (cmd ∷ rest) h = tt
  set-Makes addr _ args h = tt

  pub del-Makes :
      (addr : ℕ) (element : CfgElement) (args : List String)
      → del_takes element (length args) ≡ true
      → Makes (args_cfg pf conv addr IpcCommand.cfg_del element args)
  unfolding args_cfg del_takes cfg_init callback_of scale_of transforms_of modes_of switched
  del-Makes addr CfgElement.arrange_align args h = arranged-Makes args
  del-Makes addr CfgElement.scale [] h = cc
  del-Makes addr CfgElement.mode [] h = cc
  del-Makes addr CfgElement.mode (name ∷ rest) h = put-HasUsable name _ (max-IsUsable addr)
  del-Makes addr CfgElement.transform [] h = cc
  del-Makes addr CfgElement.scale (name ∷ rest) h = tt
  del-Makes addr CfgElement.transform (name ∷ rest) h = tt
  del-Makes addr _ args h = tt

  pub toggle-Makes :
      (addr : ℕ) (element : CfgElement) (args : List String)
      → Makes (args_cfg pf conv addr IpcCommand.cfg_toggle element args)
  unfolding args_cfg cfg_init callback_of scale_of transforms_of modes_of switched
  toggle-Makes addr CfgElement.arrange_align args = arranged-Makes args
  toggle-Makes addr _ args = tt
