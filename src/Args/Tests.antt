-- ===== src/Args/Tests.antt =====
-- Runs of src/args.rs on command lines, and the theorem there.
use ws2tcp_router.Prelude.{◌≡◌, ◌↔◌, refl, true, none, [], ◌∷◌, ok, err}
use ws2tcp_router.Text.{codes, contains, strip_prefix, rsplit_once}
use ws2tcp_router.Number.{parse_uint}
use ws2tcp_router.Target.{parse_target_addr, parse_host_port}
use ws2tcp_router.Args.{
  ConfigArgs, config_of, validate, tls_settings, merge, from_cli, no_certificate,
  bad_anonymous_target, bad_config,
}
use ws2tcp_router.Args.Toy.{cli, config, read}
use ws2tcp_router.Args.Merging.{IsMerged}
use ws2tcp_router.Args.Validation.{IsValid, from_cli_iff}

running : Unit {0}
unfolding validate tls_settings merge from_cli parse_target_addr parse_host_port parse_uint contains
    strip_prefix rsplit_once
running = tt

cli_run : from_cli read cli ≡ ok (merge cli config)
unfolding running
cli_run = refl

failing_runs :
    (from_cli read (record cli { tls_cert = none; tls_key = none; no_auto_self_signed_cert = true })
      ≡ err no_certificate)
    × (from_cli read (record cli { anonymous_target = codes "dns" ∷ [] })
        ≡ err (bad_anonymous_target (codes "dns")))
    × (from_cli (λ path. err bad_config) cli ≡ err bad_config)
unfolding running
failing_runs = (refl, refl, refl)

from_cli_iff_example : (from_cli read cli ≡ ok (merge cli config)) ↔ (
    (c : ConfigArgs) × (config_of read cli.config ≡ ok c)
    × IsMerged cli c (merge cli config)
    × IsValid (merge cli config))
from_cli_iff_example = from_cli_iff read cli (merge cli config)
