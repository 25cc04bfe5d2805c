-- ===== src/Store/Settings/Survival.antt =====
-- Settings that are saved come back after a restart.
use phb_open_ferm.Prelude.{◌≡◌, ◌≢◌, refl, ◌∙◌, ap, true, false, ◌==◌, arith, test_of_ne, if_false}
use phb_open_ferm.Prelude.Int.{ℤ, pos, ◌≤ℤ◌, ◌<ℤ◌, int64_max, eqb_ℤ}
use phb_open_ferm.Prelude.Dict.{insert, lookup-insert}
use phb_open_ferm.Decimal.{format_int}
use phb_open_ferm.Decimal.RoundTrip.{parse_int-format_int, format_int-ne-empty}
use phb_open_ferm.Float64.{Float64}
use phb_open_ferm.Control.{SystemState}
use phb_open_ferm.Control.Config.{Config}
use phb_open_ferm.Control.Setters.{apply_controller_settings}
use phb_open_ferm.Store.{Db}
use phb_open_ferm.Store.Settings.{
  ControllerSettings, get_setting, float_setting, int_setting, load_controller_settings,
  save_controller_settings, or_else, configured, boot_settings,
}

int_setting-format_int : (n : ℤ) → pos 0 ≤ℤ n → n ≤ℤ int64_max → int_setting (format_int n) ≡ n
int_setting-format_int n lo hi =
    let shown : (format_int n == "") ≡ false =
      test_of_ne (format_int n) "" (format_int-ne-empty n) in
    let back = parse_int-format_int n (omega arith) hi in rw (shown, back) (ground arith)

module _ {R : Type 0} ⦃f : Float64 R⦄ where
  -- A band that is positive, is not zero, and is read back from its print.
  pub record IsPrintable (x : R) : Type 0 where
    pub positive : f.lt (f.decimal (pos 0) 0) x ≡ true
    pub nonzero : f.eq x (f.decimal (pos 0) 0) ≡ false
    pub printed : f.general x ≢ ""
    pub reads : f.parse_float (f.general x) ≡ x

  float_setting-general : (x : R) → IsPrintable x → float_setting (f.general x) ≡ x
  float_setting-general x p =
      let shown : (f.general x == "") ≡ false = test_of_ne (f.general x) "" p.printed in
      rw (shown, p.reads, p.positive) refl

  abbrev apply_settings : ControllerSettings R → SystemState R → SystemState R
  apply_settings cs s = apply_controller_settings cs.band_c cs.min_change_s cs.max_open s

  boot_settings_at :
      (cfg : Config R) (db : Db R) (s : SystemState R)
      → boot_settings (λ _. false) cfg db s
        ≡ apply_settings (or_else (load_controller_settings (λ _. false) db) (configured cfg)) s
  unfolding boot_settings
  boot_settings_at cfg db s = refl

  or_else_set :
      (cs other : ControllerSettings R)
      → f.eq cs.band_c (f.decimal (pos 0) 0) ≡ false
      → eqb_ℤ cs.min_change_s (pos 0) ≡ false
      → eqb_ℤ cs.max_open (pos 0) ≡ false
      → or_else cs other ≡ cs
  unfolding or_else
  or_else_set cs other b n m = λ i. record {
    band_c = if_false (f.eq cs.band_c (f.decimal (pos 0) 0)) other.band_c {y = cs.band_c} b i;
    min_change_s =
        if_false (eqb_ℤ cs.min_change_s (pos 0)) other.min_change_s {y = cs.min_change_s} n i;
    max_open = if_false (eqb_ℤ cs.max_open (pos 0)) other.max_open {y = cs.max_open} m i;
  }

  load-save :
      (cs : ControllerSettings R) (db : Db R)
      → IsPrintable cs.band_c
      → pos 0 ≤ℤ cs.min_change_s
      → cs.min_change_s ≤ℤ int64_max
      → pos 0 ≤ℤ cs.max_open
      → cs.max_open ≤ℤ int64_max
      → load_controller_settings (λ _. false) (save_controller_settings (λ _. false) cs db).0 ≡ cs
  unfolding load_controller_settings save_controller_settings
  load-save cs db band lo hi lo' hi' =
      let b = f.general cs.band_c in
      let n = format_int cs.min_change_s in
      let m = format_int cs.max_open in
      let one = insert "band_c" b db.settings in
      let two = insert "min_change_s" n one in
      let in_band : get_setting false "band_c" (record db { settings = insert "max_open" m two })
          ≡ b =
        rw
          (
            get_setting,
            lookup-insert "max_open" "band_c" m two,
            lookup-insert "min_change_s" "band_c" n one,
            lookup-insert "band_c" "band_c" b db.settings,
          )
          refl in
      let in_min : get_setting false "min_change_s"
            (record db { settings = insert "max_open" m two })
          ≡ n =
        rw
          (
            get_setting,
            lookup-insert "max_open" "min_change_s" m two,
            lookup-insert "min_change_s" "min_change_s" n one,
          )
          refl in
      let in_max : get_setting false "max_open" (record db { settings = insert "max_open" m two })
          ≡ m =
        rw (get_setting, lookup-insert "max_open" "max_open" m two) refl in
      let same_band = ap float_setting in_band ∙ float_setting-general cs.band_c band in
      let same_min = ap int_setting in_min ∙ int_setting-format_int cs.min_change_s lo hi in
      let same_max = ap int_setting in_max ∙ int_setting-format_int cs.max_open lo' hi' in
      λ i. record { band_c = same_band i; min_change_s = same_min i; max_open = same_max i }

  -- Settings that were saved without an error, with a positive band that its print determines, a
  -- positive least time and a positive limit that fit an `int64`, are the ones that a restart applies,
  -- whatever the configuration says.
  pub settings_survive :
      (cs : ControllerSettings R) (db : Db R) (cfg : Config R) (s : SystemState R)
      → IsPrintable cs.band_c
      → pos 0 <ℤ cs.min_change_s
      → cs.min_change_s ≤ℤ int64_max
      → pos 0 <ℤ cs.max_open
      → cs.max_open ≤ℤ int64_max
      → ((save_controller_settings (λ _. false) cs db).1 ≡ true)
        × (boot_settings (λ _. false) cfg (save_controller_settings (λ _. false) cs db).0 s
            ≡ apply_controller_settings cs.band_c cs.min_change_s cs.max_open s)
  unfolding save_controller_settings
  settings_survive cs db cfg s band lo hi lo' hi' =
      let saved = load-save cs db band (omega arith) hi (omega arith) hi' in
      let min_set : eqb_ℤ cs.min_change_s (pos 0) ≡ false = ground arith in
      let max_set : eqb_ℤ cs.max_open (pos 0) ≡ false = ground arith in
      (
        refl,
        boot_settings_at cfg (save_controller_settings (λ _. false) cs db).0 s
            ∙ ap (λ (c : ControllerSettings R). apply_settings (or_else c (configured cfg)) s) saved
            ∙ ap (λ (c : ControllerSettings R). apply_settings c s)
                (or_else_set cs (configured cfg) band.nonzero min_set max_set),
      )
