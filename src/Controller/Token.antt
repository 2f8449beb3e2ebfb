-- ===== src/Controller/Token.antt =====
-- The FRP token: its file, its fingerprint in the store, and the recovery of a lost one
-- (crates/controller/src/api.rs).
use webtop_manager.Prelude.{
  ℕ, String, Bool, true, false, not, ◌&&◌, ◌||◌, Option, none, some, List, ◌∷◌, str_eq,
  if◌then◌else◌, is_some,
}
use webtop_manager.Prelude.Results.{ok, err}
use webtop_manager.Prelude.Actions.{
  ◌>>=◌, ◌>>◌, pure, raise, gets, modify, reject_if, ok_or, map_err,
}
use webtop_manager.Contracts.Failures
use webtop_manager.Contracts.Settings.{
  ServerSettings, ServerTokenState, ready, missing, recovery_pending,
}
use webtop_manager.Database.State.{
  get_server_settings, has_server_settings, get_frp_token_metadata, save_frp_token_metadata,
  set_frpc_desired_running,
}
use webtop_manager.Controller.State.{Handler, Fallible, with_database, with_token}

pub record ServerTokenMaterial : Type 0 where
  pub state : ServerTokenState
  pub token : Option (List ℕ)
  pub fingerprint : Option String

-- `apply_server_token_state`.
unfoldable pub apply_server_token_state : ServerSettings → ServerTokenMaterial → ServerSettings
apply_server_token_state settings m = record settings {
  token_configured = is_some m.token;
  token_state = m.state;
}

-- An empty file counts as none.
abbrev pub nonempty : Option (List ℕ) → Option (List ℕ)
nonempty (some (b ∷ bs)) = some (b ∷ bs)
nonempty _ = none

abbrev pub missing_material : Option String → ServerTokenMaterial
missing_material f = record { state = missing; token = none; fingerprint = f }

abbrev pub usable_material : (List ℕ → String) → ServerTokenState → List ℕ → ServerTokenMaterial
usable_material fingerprint state token = record {
  state = state;
  token = some token;
  fingerprint = some (fingerprint token);
}

abbrev pub is_ready : ServerTokenState → Bool
is_ready ready = true
is_ready _ = false

abbrev pub is_pending : ServerTokenState → Bool
is_pending recovery_pending = true
is_pending _ = false

module _ {D : Type 0} where
  unfoldable pub read_server_token : Fallible D (Option (List ℕ))
  read_server_token s =
      if s.token_file.readable then (ok (nonempty s.token_file.contents), s) else (err tt, s)

  -- The temporary file and the rename write the new contents whole, or leave the old ones.
  unfoldable pub replace_secret : List ℕ → Fallible D (Unit {0})
  replace_secret bytes s =
      if s.token_file.writable then (ok tt, with_token (some bytes) s) else (err tt, s)

-- `fingerprint` is the hexadecimal SHA-256 digest, and `generated` what the random generator
-- yields if a token is generated.
module _ {D : Type 0} (fingerprint : List ℕ → String) (generated : List ℕ) where
  unfoldable pub inspect_or_initialize_server_token : Fallible D ServerTokenMaterial
  unfolding read_server_token replace_secret get_frp_token_metadata save_frp_token_metadata
      has_server_settings
  inspect_or_initialize_server_token = do
    token ← read_server_token
    metadata ← gets (λ s. get_frp_token_metadata s.database)
    elim metadata [
      | some m ↦ elim token [
        | none ↦ pure (missing_material (some m.fingerprint))
        | some t ↦
            if not (str_eq (fingerprint t) m.fingerprint)
            then pure (missing_material (some m.fingerprint))
            else pure (
                usable_material fingerprint (if m.recovery_pending then recovery_pending else ready)
                  t)
      ]
      | none ↦ elim token [
        | some t ↦ do
          modify (with_database (save_frp_token_metadata (fingerprint t) false))
          pure (usable_material fingerprint ready t)
        | none ↦ do
          configured ← gets (λ s. has_server_settings s.database)
          if configured then pure (missing_material none) else do
            replace_secret generated
            modify (with_database (save_frp_token_metadata (fingerprint generated) false))
            pure (usable_material fingerprint ready generated)
      ]
    ]

  unfoldable pub required_server_token : Bool → Handler D (List ℕ)
  required_server_token allow_recovery_pending = do
    material ← map_err (λ _. Failures.internal) inspect_or_initialize_server_token
    reject_if
        (not (is_ready material.state || (allow_recovery_pending && is_pending material.state)))
        Failures.frp_token_recovery_required
    ok_or material.token Failures.frp_token_recovery_required

  -- `recover_server_token`; `remove_frpc` is the call of docker.rs.
  unfoldable pub recover_server_token : Fallible D (Unit {0}) → Handler D ServerSettings
  recover_server_token remove_frpc = do
    current ← map_err (λ _. Failures.internal) inspect_or_initialize_server_token
    recovered ← elim current.state [
      | ready ↦ raise Failures.invalid_request
      | recovery_pending ↦ pure current
      | missing ↦ do
        map_err (λ _. Failures.docker) remove_frpc
        modify (with_database (set_frpc_desired_running false))
        map_err (λ _. Failures.internal) (replace_secret generated)
        modify (with_database (save_frp_token_metadata (fingerprint generated) true))
        pure (usable_material fingerprint recovery_pending generated)
    ]
    settings ← gets (λ s. get_server_settings s.database)
    pure (apply_server_token_state settings recovered)
