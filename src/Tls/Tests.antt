-- ===== src/Tls/Tests.antt =====
-- Runs of src/tls.rs on concrete crates, and the theorems there.
use ws2tcp_router.Prelude.{◌≡◌, ◌⊎◌, ◌↔◌, refl, none, some, List, [], ◌∷◌, ok, err, Any}
use ws2tcp_router.Text.{Str, codes, contains, strip_prefix, rsplit_once}
use ws2tcp_router.Number.{parse_uint}
use ws2tcp_router.Target.{parse_target_addr, parse_host_port}
use ws2tcp_router.ClientAddr.{IpAddr, v4}
use ws2tcp_router.Args.{Args, merge, validate, tls_settings, from_cli}
use ws2tcp_router.Args.Toy.{cli, config}
use ws2tcp_router.Args.Validation.{IsValid, validate-IsValid}
use ws2tcp_router.Tls.{
  insert, localhost_v4, localhost_v6, server_ip_addresses, generate_self_signed_cert, load_certs,
  load_private_key, build_tls_config, no_certificates, not_opened,
}
use ws2tcp_router.Tls.Addresses.{IsAscending, Holds, server_ip_addresses-Holds}
use ws2tcp_router.Tls.Toy.{interfaces, crates}

abbrev args : Args
args = merge cli config

running : Unit {0}
unfolding insert server_ip_addresses generate_self_signed_cert load_certs load_private_key
    build_tls_config validate tls_settings merge from_cli parse_target_addr parse_host_port
    parse_uint contains strip_prefix rsplit_once
running = tt

addresses_run : server_ip_addresses crates ≡ ok (v4 9 ∷ localhost_v4 ∷ localhost_v6 ∷ [])
unfolding running
addresses_run = refl

config_runs :
    (build_tls_config crates args ≡ ok (some (codes "key")))
    × (build_tls_config (record crates { certs = λ file. some [] }) args
        ≡ err (no_certificates (codes "cert")))
    × (build_tls_config (record crates { open_file = λ path. none }) args
        ≡ err (not_opened (codes "cert")))
unfolding running
config_runs = (refl, refl, refl)

args-IsValid : IsValid args
unfolding running
args-IsValid = validate-IsValid args refl

server_ip_addresses-Holds_example :
    (ips : List IpAddr) × (server_ip_addresses crates ≡ ok ips)
    × IsAscending ips
    × ((a : IpAddr)
        → Holds ips a ↔ (
            (a ≡ localhost_v4)
            ⊎ (a ≡ localhost_v6)
            ⊎ Any (λ (i : Str × IpAddr). i.1 ≡ a) interfaces))
server_ip_addresses-Holds_example = server_ip_addresses-Holds crates interfaces refl
