-- ===== src/Contracts/Checks.antt =====
-- What the checks of `EnvironmentSpec::validate` (crates/contracts/src/lib.rs) accept, one by one.
use webtop_manager.Prelude.{
  ℕ, String, ◌≡◌, ◌↔◌, inl, inr, ◌≤◌, ◌<◌, ◌*◌, Bool, true, false, Option, none, some, List, [],
  ◌∷◌, ◌++◌, any, All, arith, is_some, bool_ne, Option-cases, Bool-cases,
}
use webtop_manager.Prelude.Text.{codes, parse_unsigned}
use webtop_manager.Prelude.Results.{Result, ok, ◌>>◌, >>-eq-ok_iff, reject_if-ok_iff}
use webtop_manager.Contracts.Errors.{invalid_environment_port}
use webtop_manager.Contracts.Spec.{ℤ, pos, negsuc, MountSpec, PublicationSpec}
use webtop_manager.Contracts.Paths.{
  Component, components, components_eq, components_eq_iff, starts_with, starts_with_iff,
  is_absolute,
}
use webtop_manager.Contracts.Validate.{
  is_shm_too_small, check_publication, is_reserved_key, check_keys, get_value, is_bad_port,
  check_port, check_ports, check_mount, check_mounts, is_bad_device,
}

-- At least 64 MiB.
abbrev pub HasShm : ℤ → Type 0
HasShm (pos n) = 64 * 1024 * 1024 ≤ n
HasShm (negsuc n) = ⊥

-- Width and height are both set or both automatic.
abbrev pub HasResolution : Option ℕ → Option ℕ → Type 0
HasResolution none none = Unit
HasResolution (some w) (some h) = Unit
HasResolution _ _ = ⊥

-- A disabled publication has no port; an enabled one has a positive port, or none yet and the
-- choice of it left to the controller.
abbrev pub PublicationPort : Bool → Option ℕ → Bool → Type 0
PublicationPort false none automatic = Unit
PublicationPort false (some port) automatic = ⊥
PublicationPort true (some port) automatic = 0 < port
PublicationPort true none automatic = automatic ≡ true

-- A path below or at `base`.
abbrev pub IsUnder : String → String → Type 0
IsUnder base path = (rest : List Component) × (components path ≡ components base ++ rest)

pub record IsMount (mount : MountSpec) : Type 0 where
  pub host : is_absolute mount.host_path ≡ true
  pub container : is_absolute mount.container_path ≡ true
  pub not_socket : ¬ (components mount.host_path ≡ components "/var/run/docker.sock")
  pub not_config : ¬ (components mount.container_path ≡ components "/config")
  pub not_run : ¬ IsUnder "/run/webtop-manager" mount.container_path

abbrev pub IsFresh : List (List Component) → List Component → Type 0
IsFresh targets target = All (λ other. ¬ (target ≡ other)) targets

-- Every mount is legal, and no two have the same target.
abbrev pub AreMounts : List (List Component) → List MountSpec → Type 0
AreMounts targets [] = Unit
AreMounts targets (mount ∷ mounts) =
    IsMount mount
    × IsFresh targets (components mount.container_path)
    × AreMounts (components mount.container_path ∷ targets) mounts

-- The value of a port variable, if it is set, reads as a positive `u16`.
abbrev pub IsPortValue : Option String → Type 0
IsPortValue none = Unit
IsPortValue (some value) =
    (port : ℕ) × (parse_unsigned 65535 (codes value) ≡ some port) × (0 < port)

pub shm_iff : (z : ℤ) → (is_shm_too_small z ≡ false) ↔ HasShm z
unfolding is_shm_too_small
shm_iff (pos n) = ground arith
shm_iff (negsuc n) = ground arith

pub resolution_iff :
    (w h : Option ℕ) → (bool_ne (is_some w) (is_some h) ≡ false) ↔ HasResolution w h
resolution_iff none none = ground arith
resolution_iff none (some h) = ground arith
resolution_iff (some w) none = ground arith
resolution_iff (some w) (some h) = ground arith

pub publication_iff :
    (p : PublicationSpec)
    → (check_publication p ≡ ok tt) ↔ PublicationPort p.enabled p.remote_port p.automatic_port
unfolding check_publication
publication_iff p = ground arith

-- Both checks of a sequence, each against its own meaning.
both_iff :
    {E B P Q : Type 0} {m : Result E (Unit {0})} {k : Result E B} {b : B}
    → (m ≡ ok tt) ↔ P
    → (k ≡ ok b) ↔ Q
    → ((m >> k) ≡ ok b) ↔ (P × Q)
both_iff {m} {k} {b} p q =
    let (to, from) = >>-eq-ok_iff m k b in
    ((λ h. (p.0 (to h).0, q.0 (to h).1)), (λ h. from (p.1 h.0, q.1 h.1)))

pub keys_iff :
    (env : List (String × String))
    → (check_keys env ≡ ok tt) ↔ All (λ kv. is_reserved_key kv.0 ≡ false) env
unfolding check_keys
keys_iff [] = ground arith
keys_iff ((key, value) ∷ rest) = both_iff (reject_if-ok_iff _ _) (keys_iff rest)

bad_port_iff :
    (value : String)
    → (is_bad_port value ≡ false)
      ↔ ((port : ℕ) × (parse_unsigned 65535 (codes value) ≡ some port) × (0 < port))
unfolding is_bad_port
bad_port_iff value = elim (Option-cases (parse_unsigned 65535 (codes value))) [
  | inl missing ↦ ((λ h. ground arith), (λ h. ground (arith, h.1)))
  | inr (port, found) ↦ ((λ h. (port, found, ground arith)), (λ h. ground (arith, h.1, h.2)))
]

port_iff : (key : String) (o : Option String) → (check_port key o ≡ ok tt) ↔ IsPortValue o
unfolding check_port
port_iff key none = ground arith
port_iff key (some value) =
    let (to, from) = reject_if-ok_iff (is_bad_port value) (invalid_environment_port key) in
    ((λ h. (bad_port_iff value).0 (to h)), (λ h. from ((bad_port_iff value).1 h)))

pub ports_iff :
    (env : List (String × String)) (keys : List String)
    → (check_ports env keys ≡ ok tt) ↔ All (λ key. IsPortValue (get_value key env)) keys
unfolding check_ports
ports_iff env [] = ground arith
ports_iff env (key ∷ keys) = both_iff (port_iff key (get_value key env)) (ports_iff env keys)

IsFresh-iff :
    (target : List Component) (targets : List (List Component))
    → (any (components_eq target) targets ≡ false) ↔ IsFresh targets target
IsFresh-iff target [] = ground arith
IsFresh-iff target (other ∷ targets) = (
  (λ h. (
    (λ e. ground (arith, components_eq_iff target other)),
    (IsFresh-iff target targets).0 (ground arith),
  )),
  (λ h. ground (arith, components_eq_iff target other, h.0, (IsFresh-iff target targets).1 h.1)),
)

IsUnder-iff :
    (base path : String)
    → (starts_with (components path) (components base) ≡ false) ↔ (¬ IsUnder base path)
IsUnder-iff base path =
    let (to, from) = starts_with_iff (components path) (components base) in
    (
      (λ h u. ground (arith, from u)),
      (λ n. elim (Bool-cases (starts_with (components path) (components base))) [
        | inl below ↦ absurd (n (to below))
        | inr other ↦ other
      ]),
    )

IsMount-iff :
    (targets : List (List Component)) (mount : MountSpec)
    → (check_mount targets mount ≡ ok tt)
      ↔ (IsMount mount × IsFresh targets (components mount.container_path))
unfolding check_mount
IsMount-iff targets mount =
    let socket =
      components_eq_iff (components mount.host_path) (components "/var/run/docker.sock") in
    let config = components_eq_iff (components mount.container_path) (components "/config") in
    let run = IsUnder-iff "/run/webtop-manager" mount.container_path in
    let fresh = IsFresh-iff (components mount.container_path) targets in
    (
      (λ h. (
        record {
          host = ground arith;
          container = ground arith;
          not_socket = λ e. ground (arith, socket);
          not_config = λ e. ground (arith, config);
          not_run = run.0 (ground arith);
        },
        fresh.0 (ground arith),
      )),
      (λ (m, apart). ground (
        arith,
        m.host,
        m.container,
        socket,
        config,
        m.not_socket,
        m.not_config,
        run.1 m.not_run,
        fresh.1 apart,
      )),
    )

pub mounts_iff :
    (targets : List (List Component)) (mounts : List MountSpec)
    → (check_mounts targets mounts ≡ ok tt) ↔ AreMounts targets mounts
unfolding check_mounts
mounts_iff targets [] = ground arith
mounts_iff targets (mount ∷ mounts) =
    let (to, from) =
      both_iff (IsMount-iff targets mount)
        (mounts_iff (components mount.container_path ∷ targets) mounts) in
    ((λ h. ((to h).0.0, (to h).0.1, (to h).1)), (λ h. from ((h.0, h.1), h.2)))

device_iff :
    (device : String)
    → (is_bad_device device ≡ false) ↔ ((is_absolute device ≡ true) × IsUnder "/dev" device)
unfolding is_bad_device
device_iff device =
    let (to, from) = starts_with_iff (components device) (components "/dev") in
    ((λ h. (ground arith, to (ground arith))), (λ h. ground (arith, h.0, from h.1)))

pub devices_iff :
    (devices : List String)
    → (any is_bad_device devices ≡ false)
      ↔ All (λ device. (is_absolute device ≡ true) × IsUnder "/dev" device) devices
devices_iff [] = ground arith
devices_iff (device ∷ devices) = (
  (λ h. ((device_iff device).0 (ground arith), (devices_iff devices).0 (ground arith))),
  (λ h. ground (arith, (device_iff device).1 h.0, (devices_iff devices).1 h.1)),
)
