-- ===== src/Target/Tests.antt =====
-- Runs of the target parser on the paths of src/target.rs, and the theorems at concrete targets.
use ws2tcp_router.Prelude.{◌≡◌, refl, ok, err, ◌++◌, arith, inl}
use ws2tcp_router.Text.{Str, codes, strip_prefix, contains, split_once_str, rsplit_once}
use ws2tcp_router.Number.{parse_uint, show_uint}
use ws2tcp_router.Target.{
  Target, tcp, udp, addr, parse_host_port, parse_target, parse_target_addr, unknown_prefix,
  missing_brackets, empty_host, bad_bracket_format, bad_port, bad_format,
}
use ws2tcp_router.Target.Paths.{
  IsTarget, scheme, target_path, parse_target_sound, parse_target-target_path,
}

running : Unit {0}
unfolding addr parse_host_port parse_target parse_target_addr strip_prefix contains split_once_str
    rsplit_once parse_uint show_uint
running = tt

abbrev upstream : Target
upstream = record { protocol = udp; host = codes "[2001:db8::1]"; port = 443 }

abbrev dns : Target
dns = record { protocol = tcp; host = codes "example.com"; port = 53 }

accepted :
    (parse_target (codes "/udp:[2001:db8::1]:443") ≡ ok upstream)
    × (parse_target_addr (codes "example.com:+053") ≡ ok dns)
    × (addr dns ≡ codes "example.com:53")
unfolding running
accepted = (refl, refl, refl)

rejected :
    (parse_target (codes "/http:116.63.8.64:12345") ≡ err unknown_prefix)
    × (parse_target (codes "/tcp:116.63.8.64") ≡ err bad_format)
    × (parse_target (codes "/tcp::12345") ≡ err empty_host)
    × (parse_target (codes "/tcp:2001:db8::1:443") ≡ err missing_brackets)
    × (parse_target (codes "/tcp:[]:443") ≡ err empty_host)
    × (parse_target (codes "/tcp:[2001:db8::1]443") ≡ err bad_bracket_format)
    × (parse_target (codes "/tcp:h:not-a-port") ≡ err (bad_port (codes "not-a-port")))
unfolding running
rejected = (refl, refl, refl, refl, refl, refl, refl)

dns-IsTarget : IsTarget dns
unfolding strip_prefix
dns-IsTarget = record { host = inl (cc, omega arith, refl); port = omega arith }

parse_target-target_path_example : parse_target (target_path dns) ≡ ok dns
parse_target-target_path_example = parse_target-target_path dns dns-IsTarget

parse_target_sound_example :
    IsTarget upstream
    × (rest : Str) × (codes "/udp:[2001:db8::1]:443" ≡ scheme udp ++ rest)
    × (parse_host_port rest ≡ ok (upstream.host, upstream.port))
parse_target_sound_example = parse_target_sound (codes "/udp:[2001:db8::1]:443") upstream accepted.0
