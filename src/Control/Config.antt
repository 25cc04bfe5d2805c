-- ===== src/Control/Config.antt =====
-- `Config`, `LoadConfig` and `NewState` of controller.go. Reading a file and decoding YAML are not
-- part of the repository: they are arguments.
use phb_open_ferm.Prelude.{
  String, refl, ◌⊎◌, inl, inr, false, List, [], ◌∷◌, map, ◌==◌, if◌then◌else◌, All,
}
use phb_open_ferm.Prelude.Int.{ℤ, pos, eqb_ℤ}
use phb_open_ferm.Time.{Time, zero_time, of_seconds}
use phb_open_ferm.Float64.{Float64}
use phb_open_ferm.Control.{Fermenter, SystemState, mode_fixed, no_override, valve_closed}
use phb_open_ferm.Control.Invariant.{IsWellFormed, IsSound}

pub record FermenterConfig (R : Type 0) : Type 0 where
  pub id : String
  pub name : String
  pub target_c : R

pub record Config (R : Type 0) : Type 0 where
  pub addr : String
  pub device : String
  pub baud : ℤ
  pub fermenters : List (FermenterConfig R)
  pub band_c : R
  pub min_change_s : ℤ
  pub max_open_valves : ℤ
  pub high_margin_c : R
  pub low_margin_c : R
  pub debounce_s : ℤ

-- os.ReadFile and yaml.Unmarshal: a value, or an error.
pub record Files (Bytes R : Type 0) : Type 0 where
  pub read_file : String → String ⊎ Bytes
  pub unmarshal : Bytes → String ⊎ Config R

module _ {R : Type 0} ⦃f : Float64 R⦄ where
  -- The defaults of the fields that the file leaves at zero.
  unfoldable pub with_defaults : Config R → Config R
  with_defaults c = record c {
    baud = if eqb_ℤ c.baud (pos 0) then pos 115200 else c.baud;
    addr = if c.addr == "" then ":8080" else c.addr;
    high_margin_c =
        if f.eq c.high_margin_c (f.decimal (pos 0) 0)
        then f.decimal (pos 15) 1
        else c.high_margin_c;
    low_margin_c =
        if f.eq c.low_margin_c (f.decimal (pos 0) 0) then f.decimal (pos 15) 1 else c.low_margin_c;
    debounce_s = if eqb_ℤ c.debounce_s (pos 0) then pos 30 else c.debounce_s;
  }

  decode : {Bytes : Type 0} → Files Bytes R → Bytes → String ⊎ Config R
  decode io b = elim (io.unmarshal b) [ inl e ↦ inl e | inr c ↦ inr (with_defaults c) ]

  unfoldable pub load_config : {Bytes : Type 0} → Files Bytes R → String → String ⊎ Config R
  unfolding decode
  load_config io path = elim (io.read_file path) [
    | inr b ↦ decode io b
    | inl _ ↦ elim (io.read_file "config.phb.yaml") [ inl e ↦ inl e | inr b ↦ decode io b ]
  ]

  abbrev pub new_fermenter : Time → Config R → FermenterConfig R → Fermenter R
  new_fermenter now cfg c = record {
    id = c.id;
    name = c.name;
    target_c = c.target_c;
    beer_c = f.decimal (pos 0) 0;
    valve = valve_closed;
    band_c = cfg.band_c;
    min_change = of_seconds cfg.min_change_s;
    last_change = zero_time;
    last_update = now;
    allow_immediate = false;
    mode = mode_fixed;
    override_until = zero_time;
    override = no_override;
  }

  unfoldable pub new_state : Time → Config R → SystemState R
  new_state now cfg = record {
    fv = map (new_fermenter now cfg) cfg.fermenters;
    max_open = cfg.max_open_valves;
    on_target_change = false;
  }

  pub new_state-IsSound : (now : Time) (cfg : Config R) → IsSound (new_state now cfg)
  unfolding new_state
  new_state-IsSound now cfg = all cfg.fermenters
    where
      all : (cs : List (FermenterConfig R)) → All IsWellFormed (map (new_fermenter now cfg) cs)
      all [] = tt
      all (c ∷ cs) = (record { valve_known = inr refl; override_known = inl refl }, all cs)
