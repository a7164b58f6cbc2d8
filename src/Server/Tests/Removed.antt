-- ===== src/Server/Tests/Removed.antt =====
-- A run of the program in which a user is removed from the credential file.
use ws2tcp_router.Prelude.{
  ◌≡◌, refl, arith, ◌≢◌, false, ok, Option, none, some, List, [], ◌∷◌, ◌++◌, nat_eq, bytes_eq,
}
use ws2tcp_router.Text.{Str, Bytes, codes}
use ws2tcp_router.Encoding.RoundTrip.{IsStr}
use ws2tcp_router.Http.{Request, header_str, authorization}
use ws2tcp_router.Crypto.Toy.{toy, toy-IsCrypto}
use ws2tcp_router.Token.Access.{mint_access}
use ws2tcp_router.Auth.{
  basic_auth_username, authorize_request, load_auth_file, basic_header, is_user,
}
use ws2tcp_router.Auth.Toy.{texts}
use ws2tcp_router.Auth.Polling.{basic_auth, anonymous_target}
use ws2tcp_router.Connection.Toy.{peer, nobody}
use ws2tcp_router.Server.{Event, connects, polls, serve_all}
use ws2tcp_router.Server.Removal.{serve_all_removed}
use ws2tcp_router.Server.Tests.{running, world, streams, serving, logged_in, bearing}

-- The credential file without the user al.
abbrev without_al : Str → Option Str
without_al path = some (codes "bo:pw\n")

abbrev of_bo : Str
of_bo = basic_header toy (codes "bo:pw")

without_al_run : load_auth_file toy (without_al (codes "users")) ≡ ok (of_bo ∷ [])
unfolding running
without_al_run = refl

abbrev events_without_al : List (Event Str Bytes)
events_without_al =
    connects none (codes "/auth/login?\r\n\r\n") peer (world 20)
    ∷ polls anonymous_target texts
    ∷ polls basic_auth without_al
    ∷ []

of_bo-IsStr : IsStr of_bo
unfolding running
of_bo-IsStr = ground arith

of_bo_other : is_user toy (codes "al") (basic_auth_username toy of_bo) ≡ false
unfolding running
of_bo_other = refl

-- The access token of al, for a target that is not on the allowlist, which lets al in before.
abbrev bearing_text : Str
bearing_text = codes "Bearer " ++ mint_access toy serving 1000 5 (codes "al")

abbrev bearing_elsewhere : Request
bearing_elsewhere = record bearing { path = codes "/tcp:h:80" }

bearing_elsewhere_run :
    authorize_request toy 1030 bearing_elsewhere (some logged_in) ≡ ok (codes "al")
unfolding running
bearing_elsewhere_run = refl

bearing_text-IsStr : IsStr bearing_text
unfolding running
bearing_text-IsStr = ground arith

bearing_elsewhere-IsStr :
    (text : Str) → header_str bearing_elsewhere authorization ≡ some text → IsStr text
bearing_elsewhere-IsStr text e =
    let same : bearing_text ≡ text = ground arith in rw (← same) bearing_text-IsStr

serve_all_removed_example :
    authorize_request toy 1030 bearing_elsewhere (
      serve_all toy
        (streams (codes "Bearer ah"))
        nobody
        (some logged_in)
        (polls basic_auth without_al ∷ events_without_al))
    ≢ ok (codes "al")
serve_all_removed_example =
    serve_all_removed toy (codes "al") (codes "users") [] (streams (codes "Bearer ah")) nobody
      logged_in without_al (of_bo ∷ []) events_without_al 1030 bearing_elsewhere toy-IsCrypto refl
      refl without_al_run (λ e. cc) tt ((of_bo-IsStr, of_bo_other), tt)
      (
        tt,
        (
          tt,
          (
            (λ loaded e.
                let same : of_bo ∷ [] ≡ loaded = let run = without_al_run in ground arith in
                rw (← same) ((of_bo-IsStr, of_bo_other), tt)),
            tt,
          ),
        ),
      )
      (λ e. cc) bearing_elsewhere-IsStr
