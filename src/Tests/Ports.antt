-- ===== src/Tests/Ports.antt =====
-- Publish specifications and the variables they give (crates/psroot-portmap/src/lib.rs).
use psroot.Prelude.{◌≡◌, refl, some, [], ◌∷◌}
use psroot.Text.{Text, codes}
use psroot.Text.Decimal.{show}
use psroot.PortMap.{
  PortMapping, PortError, ok, err, mapping, loopback, parse_publish, env_get, env_for_mappings,
  port_variable,
}
use psroot.PortMap.Variables.{shown}

parse_port_single : parse_publish (codes "8080") ≡ ok (mapping loopback 8080 8080)
unfolding parse_publish
parse_port_single = refl

parse_bind_host_container :
    parse_publish (codes "0.0.0.0:8080:3000") ≡ ok (mapping (codes "0.0.0.0") 8080 3000)
unfolding parse_publish
parse_bind_host_container = refl

parse_rejects_zero : parse_publish (codes "0:3000") ≡ err PortError.port_zero
unfolding parse_publish
parse_rejects_zero = refl

abbrev any_address : Text
any_address = codes "0.0.0.0"

abbrev first_port : PortMapping
first_port = record (mapping loopback 8080 3000) { ephemeral_port = some 54321 }

abbrev second_port : PortMapping
second_port = record (mapping loopback 9090 4000) { ephemeral_port = some 54322 }

port_of_first :
    env_get (codes "PORT") (env_for_mappings (first_port ∷ second_port ∷ [])) ≡ shown (some 54321)
unfolding env_for_mappings port_variable show
port_of_first = refl
