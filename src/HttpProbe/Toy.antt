-- ===== src/HttpProbe/Toy.antt =====
-- A concrete stream, a list of bytes, and a concrete parser, which the runs compute with.
use ws2tcp_router.Prelude.{
  ℕ, zero, suc, ◌≡◌, ◌≢◌, refl, sym, ap, arith, none, some, [], ◌∷◌, take, drop, take-append-drop,
}
use ws2tcp_router.Text.{Bytes, codes}
use ws2tcp_router.Http.{Request, get, HeaderName}
use ws2tcp_router.HttpProbe.{Read, HeadParser, path_of}
use ws2tcp_router.HttpProbe.Replay.{IsReader, length-take-le}
use ws2tcp_router.HttpProbe.Plain.{IsBuilder}

abbrev pub bytes : Read Bytes
bytes s n = (some (take n s), drop n s)

none_taken : (n : ℕ) (s : Bytes) → take n s ≡ [] → n ≢ 0 → s ≡ []
none_taken zero s e h = absurd (h refl)
none_taken (suc n) [] e h = refl
none_taken (suc n) (b ∷ s) e h = absurd (cc)

pub bytes-IsReader : IsReader bytes (λ s. s)
bytes-IsReader = record {
  conserves = λ s n {out} {s'} e.
      let first : take n s ≡ out = ground arith in
      let rest : drop n s ≡ s' = ground arith in rw (← first, ← rest) (sym (take-append-drop n s));
  fits = λ s n {out} {s'} e.
      let first : take n s ≡ out = ground arith in rw (← first) (length-take-le n s);
  ends = λ s n {s'} e h. none_taken n s (ground arith) h;
}

-- A parser that takes a head to be the target of a GET.
abbrev pub parser : HeadParser
parser = record {
  parse = λ s. some (some (codes "GET"), some s, []);
  method_from = λ name. some get;
  build = λ m target headers.
      some (record { method = m; path = path_of target; header = λ name. none });
}

pub parser-IsBuilder : IsBuilder parser
parser-IsBuilder m target headers r e =
    let same : record { method = m; path = path_of target; header = λ (name : HeaderName). none }
        ≡ r =
      ground arith in
    (ap (λ (x : Request). x.method) (sym same), λ h. ap (λ (x : Request). x.path) (sym same))
