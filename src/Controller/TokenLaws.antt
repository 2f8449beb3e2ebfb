-- ===== src/Controller/TokenLaws.antt =====
-- The FRP token is generated once, checked against its fingerprint, and never replaced silently
-- (`inspect_or_initialize_server_token`, `required_server_token` and `recover_server_token` of
-- crates/controller/src/api.rs).
use webtop_manager.Prelude.{refl}
use text.Mathlib.TextPositions.{eq_refl}
use webtop_manager.Contracts.Settings.{recovery_pending, ServerSettings, ready, missing}
use webtop_manager.Prelude.{
  ◌∙◌, ap, true, [], false, Bool, ◌⊎◌, ◌∷◌, ℕ, String, ◌≡◌, Option, none, some, List, eq_iff, arith,
}
use webtop_manager.Prelude.Results.{ok}
use webtop_manager.Database.State.{
  set_frpc_desired_running, get_server_settings, save_frp_token_metadata,
  complete_frp_token_recovery, Database,
}
use webtop_manager.Controller.State.{with_token, with_database, TokenFile, Fallible, AppState}
use webtop_manager.Controller.Token.{
  apply_server_token_state, replace_secret, usable_material, nonempty, required_server_token,
  recover_server_token, ServerTokenMaterial, inspect_or_initialize_server_token,
}

-- The digest in the store.
abbrev pub recorded : Database → Option String
recorded db = elim db.frp_token_metadata [ none ↦ none | some m ↦ some m.fingerprint ]

abbrev digest_or_empty : Database → String
digest_or_empty db = elim db.frp_token_metadata [ none ↦ "" | some m ↦ m.fingerprint ]

abbrev contents_or_empty : TokenFile → List ℕ
contents_or_empty f = elim f.contents [ none ↦ [] | some bytes ↦ bytes ]

module _ {D : Type 0} (fingerprint : List ℕ → String) where
  -- The token that a state holds: the file's contents, whose digest the store has recorded.
  pub record IsPaired (s : AppState D) (t : List ℕ) : Type 0 where
    pub file : s.token_file.contents ≡ some t
    pub digest : recorded s.database ≡ some (fingerprint t)

module _ {D : Type 0} (fingerprint : List ℕ → String) (generated : List ℕ) where
  -- Whatever the inspection returns as a token is the token file's contents afterwards, and its
  -- digest is the recorded one.
  inspect-IsPaired :
      (s : AppState D) (m : ServerTokenMaterial) (t : List ℕ)
      → (inspect_or_initialize_server_token fingerprint generated s).0 ≡ ok m
      → m.token ≡ some t
      → IsPaired fingerprint (inspect_or_initialize_server_token fingerprint generated s).1 t
  unfolding inspect_or_initialize_server_token
  inspect-IsPaired s m t e h = record {
    file = ground arith;
    digest = ground (arith, eq_iff (fingerprint t) (digest_or_empty s.database));
  }

  -- The inspection writes the token file only on first use: where there is no token, no recorded
  -- digest and no server settings.
  pub inspect-token_file :
      (s : AppState D)
      → ((inspect_or_initialize_server_token fingerprint generated s).1.token_file ≡ s.token_file)
        ⊎ ((nonempty s.token_file.contents ≡ none)
            × (s.database.frp_token_metadata ≡ none)
            × (s.database.server_settings ≡ none))
  unfolding inspect_or_initialize_server_token
  inspect-token_file s = ground arith

  -- A token that is handed out is paired with the store; where a pending recovery is not allowed,
  -- none is pending.
  pub required_server_token-IsPaired :
      (allow : Bool) (s : AppState D) (t : List ℕ)
      → (required_server_token fingerprint generated allow s).0 ≡ ok t
      → IsPaired fingerprint (required_server_token fingerprint generated allow s).1 t
        × (allow ≡ false
            → (required_server_token fingerprint generated allow s).1.database.frp_token_metadata
              ≡ some (record { fingerprint = fingerprint t; recovery_pending = false }))
  unfolding required_server_token inspect_or_initialize_server_token
  required_server_token-IsPaired allow s t e = (
    record {
      file = ground arith;
      digest = ground (arith, eq_iff (fingerprint t) (digest_or_empty s.database));
    },
    (λ h. ground (arith, eq_iff (fingerprint t) (digest_or_empty s.database))),
  )

  -- A token file that is not empty, where its digest is the recorded one or none is recorded, is not
  -- rewritten by a recovery, whether one is pending or not, and whatever the daemon call and the
  -- generator would yield; and where the file can be read, its digest is the recorded one afterwards.
  pub recover_server_token-keeps :
      (remove_frpc : Fallible D (Unit {0})) (s : AppState D) (b : ℕ) (bs : List ℕ)
      → s.token_file.contents ≡ some (b ∷ bs)
      → (recorded s.database ≡ none) ⊎ (recorded s.database ≡ some (fingerprint (b ∷ bs)))
      → ((recover_server_token fingerprint generated remove_frpc s).1.token_file ≡ s.token_file)
        × (s.token_file.readable ≡ true
            → recorded (recover_server_token fingerprint generated remove_frpc s).1.database
              ≡ some (fingerprint (b ∷ bs)))
  unfolding recover_server_token inspect_or_initialize_server_token
  recover_server_token-keeps remove_frpc s b bs there known = (
    ground (arith, there, known, eq_refl (fingerprint (b ∷ bs))),
    (λ readable. ground (arith, there, known, readable, eq_refl (fingerprint (b ∷ bs)))),
  )

-- A second inspection, with whatever the generator would yield, returns what the first returned
-- and changes nothing, if generated tokens are not empty.
pub inspect_idempotent :
    {D : Type 0} (fingerprint : List ℕ → String) (b : ℕ) (bs other : List ℕ) (s : AppState D)
    (m : ServerTokenMaterial)
    → (inspect_or_initialize_server_token fingerprint (b ∷ bs) s).0 ≡ ok m
    → inspect_or_initialize_server_token fingerprint other
        (inspect_or_initialize_server_token fingerprint (b ∷ bs) s).1
      ≡ (ok m, (inspect_or_initialize_server_token fingerprint (b ∷ bs) s).1)
unfolding inspect_or_initialize_server_token
inspect_idempotent fingerprint b bs other s m e =
    ground (
      arith,
      eq_refl (fingerprint (contents_or_empty s.token_file)),
      eq_refl (fingerprint (b ∷ bs)),
    )

module _ {D : Type 0} (fingerprint : List ℕ → String) (b : ℕ) (bs : List ℕ) where
  abbrev pub confirm : AppState D → AppState D
  confirm s = record s {
    database = (complete_frp_token_recovery (fingerprint (b ∷ bs)) s.database).0;
  }

  -- The state that a recovery leaves, after the daemon call has led to `s'`.
  abbrev recovered_state : AppState D → AppState D
  recovered_state s' =
      with_database (save_frp_token_metadata (fingerprint (b ∷ bs)) true)
        (with_token (some (b ∷ bs)) (with_database (set_frpc_desired_running false) s'))

  replace_lem :
      (s : AppState D)
      → s.token_file.writable ≡ true
      → replace_secret (b ∷ bs) s ≡ (ok tt, with_token (some (b ∷ bs)) s)
  unfolding replace_secret
  replace_lem s w = ground arith

  recover_lem :
      (s s' : AppState D) (remove_frpc : Fallible D (Unit {0})) (m : ServerTokenMaterial)
      → inspect_or_initialize_server_token fingerprint (b ∷ bs) s ≡ (ok m, s)
      → m.state ≡ missing
      → remove_frpc s ≡ (ok tt, s')
      → s'.token_file.writable ≡ true
      → recover_server_token fingerprint (b ∷ bs) remove_frpc s ≡ (
        ok (
            apply_server_token_state
              (get_server_settings s'.database)
              (usable_material fingerprint recovery_pending (b ∷ bs))),
        recovered_state s',
      )
  unfolding recover_server_token set_frpc_desired_running get_server_settings
      save_frp_token_metadata
  recover_lem s s' remove_frpc m inspected lost removed w =
      ground (arith, replace_lem (with_database (set_frpc_desired_running false) s') w)

  inspect_readable :
      (s : AppState D) (m : ServerTokenMaterial)
      → inspect_or_initialize_server_token fingerprint (b ∷ bs) s ≡ (ok m, s)
      → s.token_file.readable ≡ true
  unfolding inspect_or_initialize_server_token
  inspect_readable s m e = ground arith

  inspect_recovered :
      (s' : AppState D) (other : List ℕ)
      → s'.token_file.readable ≡ true
      → ((inspect_or_initialize_server_token fingerprint other (recovered_state s')).0
          ≡ ok (usable_material fingerprint recovery_pending (b ∷ bs)))
        × ((inspect_or_initialize_server_token fingerprint other (confirm (recovered_state s'))).0
            ≡ ok (usable_material fingerprint ready (b ∷ bs)))
  unfolding inspect_or_initialize_server_token complete_frp_token_recovery save_frp_token_metadata
  inspect_recovered s' other r = (
    ground (arith, eq_refl (fingerprint (b ∷ bs))),
    ground (arith, eq_refl (fingerprint (b ∷ bs))),
  )

  -- A lost token is replaced by recovery, and becomes usable once the connection test has confirmed
  -- it: from a state whose inspection says that the token is missing, with a daemon call that
  -- succeeds and leaves the token file alone, and a file that can be read and written, recovery
  -- leaves the new token waiting; confirming its digest makes the next inspection return it as ready.
  pub recovery_cycle :
      (s s' : AppState D) (remove_frpc : Fallible D (Unit {0})) (m : ServerTokenMaterial)
      (other : List ℕ)
      → inspect_or_initialize_server_token fingerprint (b ∷ bs) s ≡ (ok m, s)
      → m.state ≡ missing
      → remove_frpc s ≡ (ok tt, s')
      → s'.token_file ≡ s.token_file
      → s.token_file.writable ≡ true
      → ((settings : ServerSettings) × ((recover_server_token fingerprint (b ∷ bs) remove_frpc s).0
            ≡ ok settings)
          × (settings.token_state ≡ recovery_pending))
        × ((inspect_or_initialize_server_token fingerprint other
              (recover_server_token fingerprint (b ∷ bs) remove_frpc s).1).0
            ≡ ok (usable_material fingerprint recovery_pending (b ∷ bs)))
        × ((inspect_or_initialize_server_token fingerprint other
              (confirm (recover_server_token fingerprint (b ∷ bs) remove_frpc s).1)).0
            ≡ ok (usable_material fingerprint ready (b ∷ bs)))
  recovery_cycle s s' remove_frpc m other inspected lost removed file w =
      let readable : s'.token_file.readable ≡ true =
        ap (λ (f : TokenFile). f.readable) file ∙ inspect_readable s m inspected in
      let writable : s'.token_file.writable ≡ true = ap (λ (f : TokenFile). f.writable) file ∙ w in
      let (pending, confirmed) = inspect_recovered s' other readable in
      rw (recover_lem s s' remove_frpc m inspected lost removed writable)
        ((_, refl, unfold apply_server_token_state in refl), pending, confirmed)
