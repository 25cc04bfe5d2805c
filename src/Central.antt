-- ===== src/Central.antt =====
-- central-server/cmd/controlplane/main.go, which answers bundles of profiles and keeps nothing of them.
use phb_open_ferm.Prelude.{ℕ, String, inl, inr, ◌⊎◌, List, [], ◌∷◌, length}

-- `Raw` is json.RawMessage.
pub record ProfileBundle (Raw : Type 0) : Type 0 where
  pub schema : String
  pub templates : List Raw
  pub signature : String

pub record Reply : Type 0 where
  pub status : ℕ
  pub text : String

-- The body that is decoded, or the error of its decoding. The second component is the number that is
-- logged.
unfoldable pub apply_profiles : {Raw : Type 0} → String ⊎ ProfileBundle Raw → Reply × List ℕ
apply_profiles (inl e) = (record { status = 400; text = e }, [])
apply_profiles (inr bundle) = (record { status = 202; text = "" }, length bundle.templates ∷ [])

abbrev pub healthz : Reply
healthz = record { status = 200; text = "ok" }
