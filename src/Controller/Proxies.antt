-- ===== src/Controller/Proxies.antt =====
-- The proxies that frpc is started with, and the ports that are taken
-- (crates/controller/src/api.rs; `Proxy` is in crates/controller/src/frp.rs).
use webtop_manager.Prelude.{ℕ, Bool, ◌&&◌, none, some, List, [], ◌∷◌, if◌then◌else◌}
use webtop_manager.Prelude.Results.{Result, ok, ◌>>=◌, ok_or}
use webtop_manager.Database.Records.{EnvironmentRecord}

-- `resource_id` is the text of the id, which is kept as the id.
pub record Proxy : Type 0 where
  pub resource_id : ℕ
  pub local_port : ℕ
  pub remote_port : ℕ

abbrev pub is_published : EnvironmentRecord → Bool
is_published r = r.spec.publication.enabled && r.desired_running

unfoldable pub environment_proxy : EnvironmentRecord → Result (Unit {0}) Proxy
environment_proxy r = do
  local_port ← ok_or r.local_port tt
  remote_port ← ok_or r.spec.publication.remote_port tt
  ok (record { resource_id = r.id; local_port = local_port; remote_port = remote_port })

-- `collect` stops at the first error.
unfoldable pub environment_proxies : List EnvironmentRecord → Result (Unit {0}) (List Proxy)
unfolding environment_proxy
environment_proxies [] = ok []
environment_proxies (r ∷ rs) =
    let rest = environment_proxies rs in
    if is_published r
    then (do proxy ← environment_proxy r; proxies ← rest; ok (proxy ∷ proxies))
    else rest

-- `filter_map(|record| record.spec.publication.remote_port)`: the ports that are taken.
unfoldable pub allocated_ports : List EnvironmentRecord → List ℕ
allocated_ports [] = []
allocated_ports (r ∷ rs) =
    let rest = allocated_ports rs in
    elim r.spec.publication.remote_port [ none ↦ rest | some port ↦ port ∷ rest ]
