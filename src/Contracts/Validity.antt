-- ===== src/Contracts/Validity.antt =====
-- What `EnvironmentSpec::validate` of crates/contracts/src/lib.rs accepts.
use Prim.Native.String.{len}
use webtop_manager.Prelude.{◌≡◌, ◌↔◌, ◌≤◌, true, false, [], All, arith}
use webtop_manager.Prelude.Text.{is_blank, has_whitespace}
use webtop_manager.Prelude.Results.{ok}
use webtop_manager.Contracts.Spec.{EnvironmentSpec}
use webtop_manager.Contracts.Paths.{is_absolute}
use webtop_manager.Contracts.Validate.{port_keys, is_reserved_key, get_value, validate}
use webtop_manager.Contracts.Checks.{
  HasShm, HasResolution, PublicationPort, IsUnder, AreMounts, IsPortValue, shm_iff, resolution_iff,
  publication_iff, keys_iff, ports_iff, mounts_iff, devices_iff,
}

-- A spec that the controller may turn into a container.
pub record IsValid (spec : EnvironmentSpec) : Type 0 where
  pub named : is_blank spec.name ≡ false
  pub short : len spec.name ≤ 64
  pub image : is_blank spec.image ≡ false
  pub image_word : has_whitespace spec.image ≡ false
  pub shm : HasShm spec.resources.shm_bytes
  pub resolution : HasResolution spec.display.width spec.display.height
  pub publication :
      PublicationPort spec.publication.enabled spec.publication.remote_port
        spec.publication.automatic_port
  pub keys : All (λ kv. is_reserved_key kv.0 ≡ false) spec.extra_environment
  pub ports : All (λ key. IsPortValue (get_value key spec.extra_environment)) port_keys
  pub mounts : AreMounts [] spec.mounts
  pub unprivileged : spec.security.privileged ≡ false
  pub devices :
      All (λ device. (is_absolute device ≡ true) × IsUnder "/dev" device) spec.security.devices

-- `validate` accepts exactly the specs that are valid.
pub validate-ok_iff : (spec : EnvironmentSpec) → (validate spec ≡ ok tt) ↔ IsValid spec
unfolding validate
validate-ok_iff spec =
    let publication = publication_iff spec.publication in
    let shm = shm_iff spec.resources.shm_bytes in
    let resolution = resolution_iff spec.display.width spec.display.height in
    let keys = keys_iff spec.extra_environment in
    let ports = ports_iff spec.extra_environment port_keys in
    let mounts = mounts_iff [] spec.mounts in
    let devices = devices_iff spec.security.devices in
    (
      (λ h. record {
        named = ground arith;
        short = ground arith;
        image = ground arith;
        image_word = ground arith;
        shm = shm.0 (ground arith);
        resolution = resolution.0 (ground arith);
        publication = publication.0 (ground arith);
        keys = keys.0 (ground arith);
        ports = ports.0 (ground arith);
        mounts = mounts.0 (ground arith);
        unprivileged = ground arith;
        devices = devices.0 (ground arith);
      }),
      (λ v. ground (
        arith,
        v.named,
        v.short,
        v.image,
        v.image_word,
        shm.1 v.shm,
        resolution.1 v.resolution,
        publication.1 v.publication,
        keys.1 v.keys,
        ports.1 v.ports,
        mounts.1 v.mounts,
        v.unprivileged,
        devices.1 v.devices,
      )),
    )
