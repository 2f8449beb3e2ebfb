-- ===== src/Docker/Bindings.antt =====
-- The ports of an environment's container (crates/controller/src/docker.rs).
use webtop_manager.Prelude.{ℕ, String, ◌≡◌, ◌<◌, Option, none, some, arith}
use webtop_manager.Prelude.Text.{codes, parse_unsigned}
use webtop_manager.Contracts.Spec.{EnvironmentSpec, webtop_https_port_default}
use webtop_manager.Contracts.Checks.{IsPortValue}
use webtop_manager.Contracts.Validate.{get_value}
use webtop_manager.Contracts.Validity.{IsValid}

abbrev port_of_value : Option String → ℕ
port_of_value none = webtop_https_port_default
port_of_value (some value) = elim (parse_unsigned 65535 (codes value)) [
  | none ↦ webtop_https_port_default
  | some port ↦ port
]

-- The port inside the container: `CUSTOM_HTTPS_PORT` where it reads as a `u16`, and else 3001.
unfoldable pub webtop_https_port : EnvironmentSpec → ℕ
webtop_https_port spec = port_of_value (get_value "CUSTOM_HTTPS_PORT" spec.extra_environment)

positive : (value : Option String) → IsPortValue value → 0 < port_of_value value
positive none h = omega arith
positive (some value) h = ground arith

-- The container port of a spec that validation accepts is positive, and it is the one that the spec
-- asks for if the spec sets `CUSTOM_HTTPS_PORT`: the fallback is never used in place of a value.
pub webtop_https_port-valid :
    (spec : EnvironmentSpec)
    → IsValid spec
    → (0 < webtop_https_port spec)
      × ((value : String)
          → get_value "CUSTOM_HTTPS_PORT" spec.extra_environment ≡ some value
          → parse_unsigned 65535 (codes value) ≡ some (webtop_https_port spec))
unfolding webtop_https_port
webtop_https_port-valid spec valid =
    let asked = valid.ports.1.0 in
    (
      positive (get_value "CUSTOM_HTTPS_PORT" spec.extra_environment) asked,
      (λ value e. exact value (get_value "CUSTOM_HTTPS_PORT" spec.extra_environment) e asked),
    )
  where
    exact :
        (value : String) (found : Option String)
        → found ≡ some value
        → IsPortValue found
        → parse_unsigned 65535 (codes value) ≡ some (port_of_value found)
    exact value none e h = cc
    exact value (some v) e h = ground arith
