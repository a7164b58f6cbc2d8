-- ===== src/Proxy/Forwarding/Laws.antt =====
-- What the loops of src/proxy.rs have written: the payloads of the events, in their order.
use mathlib.Core.List.{append_assoc, append-nil}
use mathlib.Core.Path.{subst}
use ws2tcp_router.Prelude.{◌≡◌, ◌∙◌, refl, sym, ap, List, [], ◌∷◌, ◌++◌, flat_map, inl, inr}
use ws2tcp_router.Text.{Bytes}
use ws2tcp_router.Proxy.Forwarding.{
  Event, Outcome, Write, running, finished, broken, Written, Step, step_tcp, step_udp, forward,
  payload, reply,
}
use ws2tcp_router.Proxy.Forwarding.Steps.{
  Parting, Cuts, Whole, IsCut, IsLast, StepWrites, tcp-StepWrites, udp-StepWrites,
}

-- The same of the events that are left: only the first of them was cut.
abbrev pub IsPart :
    (Write × Event → List Bytes → Type 0) → List (Write × Event) → Outcome → List Bytes → Type 0
IsPart Cut [] o part = part ≡ []
IsPart Cut (x ∷ left) o part = IsCut Cut x o part

-- What is written to the upstream are the payloads of the first events, `taken`, and at most a part
-- of the next one's; what is sent to the WebSocket is what the first events ask for, with a close
-- message behind it at most. While the loop runs, these are all the events, and nothing is behind
-- it.
pub record IsCopied (Cut : Write × Event → List Bytes → Type 0) (events : List (Write × Event))
    (s : Written) (o : Outcome) (s' : Written) : Type 0 where
  pub taken : List (Write × Event)
  pub left : List (Write × Event)
  pub part : List Bytes
  pub split : events ≡ taken ++ left
  pub upstream : s'.upstream ≡ s.upstream ++ flat_map payload taken ++ part
  pub cut : IsPart Cut left o part
  pub websocket : Parting (s.websocket ++ flat_map reply taken) s'.websocket
  pub all : o ≡ running → (left ≡ []) × (s'.websocket ≡ s.websocket ++ flat_map reply taken)

-- The same where every write to the upstream is whole.
pub record IsForwarded (events : List (Write × Event)) (s : Written) (o : Outcome) (s' : Written)
    : Type 0 where
  pub taken : List (Write × Event)
  pub left : List (Write × Event)
  pub split : events ≡ taken ++ left
  pub upstream : s'.upstream ≡ s.upstream ++ flat_map payload taken
  pub websocket : Parting (s.websocket ++ flat_map reply taken) s'.websocket
  pub all : o ≡ running → (left ≡ []) × (s'.websocket ≡ s.websocket ++ flat_map reply taken)

no_part :
    (left : List (Write × Event)) (o : Outcome) (part : List Bytes)
    → IsPart Whole left o part
    → part ≡ []
no_part [] o part h = h
no_part (x ∷ left) o part (inl h) = h
no_part (x ∷ left) o part (inr (_, h)) = elim h [ ]

Whole-IsForwarded :
    (events : List (Write × Event)) (s : Written) (o : Outcome) (s' : Written)
    → IsCopied Whole events s o s'
    → IsForwarded events s o s'
Whole-IsForwarded events s o s' k = record {
  taken = k.taken;
  left = k.left;
  split = k.split;
  upstream =
      k.upstream
      ∙ ap (λ l. s.upstream ++ flat_map payload k.taken ++ l) (no_part k.left o k.part k.cut)
      ∙ append-nil (s.upstream ++ flat_map payload k.taken);
  websocket = k.websocket;
  all = k.all;
}

module _ (Cut : Write × Event → List Bytes → Type 0) where
  after_step :
      (x : Write × Event) (events : List (Write × Event)) (s s1 : Written) (o : Outcome)
      (s' : Written)
      → s1.upstream ≡ s.upstream ++ payload x
      → s1.websocket ≡ s.websocket ++ reply x
      → IsCopied Cut events s1 o s'
      → IsCopied Cut (x ∷ events) s o s'
  after_step x events s s1 o s' up ws f =
      let replies : s1.websocket ++ flat_map reply f.taken
          ≡ s.websocket ++ flat_map reply (x ∷ f.taken) =
        ap (λ l. l ++ flat_map reply f.taken) ws ∙ append_assoc s.websocket (reply x) _ in
      record {
        taken = x ∷ f.taken;
        left = f.left;
        part = f.part;
        split = ap (λ l. x ∷ l) f.split;
        upstream =
            f.upstream
            ∙ ap (λ l. l ++ flat_map payload f.taken ++ f.part) up
            ∙ ap (λ l. l ++ f.part) (append_assoc s.upstream (payload x) _);
        cut = f.cut;
        websocket = subst (λ l. Parting l s'.websocket) replies f.websocket;
        all = λ h. ((f.all h).0, (f.all h).1 ∙ replies);
      }

  stopped :
      (x : Write × Event) (events : List (Write × Event)) (s : Written) (o : Outcome) (s' : Written)
      → IsLast Cut x o s s'
      → IsCopied Cut (x ∷ events) s o s'
  stopped x events s o s' last = record {
    taken = [];
    left = x ∷ events;
    part = last.part;
    split = refl;
    upstream = last.upstream ∙ ap (λ l. l ++ last.part) (sym (append-nil s.upstream));
    cut = last.cut;
    websocket = subst (λ l. Parting l s'.websocket) (sym (append-nil s.websocket)) last.parting;
    all = λ same. absurd (last.stops same);
  }

  module _ (step : Step)
      (good : (w : Write) (e : Event) (s : Written) → StepWrites Cut step (w, e) s) where
    forward-IsCopied :
        (events : List (Write × Event)) (s : Written)
        → IsCopied Cut events s (forward step events s).0 (forward step events s).1
    unfolding forward
    forward-IsCopied [] s = record {
      taken = [];
      left = [];
      part = [];
      split = refl;
      upstream = sym (append-nil s.upstream) ∙ sym (append-nil (s.upstream ++ []));
      cut = refl;
      websocket = inl (sym (append-nil s.websocket));
      all = λ h. (refl, sym (append-nil s.websocket));
    }
    forward-IsCopied ((w, e) ∷ events) s = elim (good w e s) [
      | inl (goes_on, up, ws) ↦
          rw (forward, goes_on)
            (after_step (w, e) events s (step w e s).1 _ _ up ws
              (forward-IsCopied events (step w e s).1))
      | inr last ↦ halted (step w e s).0 refl last
    ]
      where
        halted :
            (o : Outcome)
            → (step w e s).0 ≡ o
            → IsLast Cut (w, e) (step w e s).0 s (step w e s).1
            → IsCopied Cut
                ((w, e) ∷ events)
                s
                (forward step ((w, e) ∷ events) s).0
                (forward step ((w, e) ∷ events) s).1
        halted running same last = absurd (last.stops same)
        halted finished same last =
            rw (forward, same) (stopped (w, e) events s _ _ (rw same at last))
        halted broken same last = rw (forward, same) (stopped (w, e) events s _ _ (rw same at last))

-- The TCP loop copies in both directions and in order, however it ends: for the first events, and
-- while it runs for all the events so far, the upstream has got exactly the payloads of the binary
-- and text messages, each whole; behind these it has at most the first bytes of the next one's
-- payload, and only if its write has failed, which ends the loop. The WebSocket has been sent
-- exactly a pong for each ping and a message with the bytes of each read of the upstream; behind
-- these there is a close message at most, and only when the loop has ended.
pub forward_tcp :
    (events : List (Write × Event)) (s : Written)
    → IsCopied Cuts events s (forward step_tcp events s).0 (forward step_tcp events s).1
forward_tcp = forward-IsCopied Cuts step_tcp tcp-StepWrites

-- The UDP loop copies in both directions, message by datagram and in order, however it ends: for
-- the first events, and while it runs for all the events so far, the upstream has been sent exactly
-- one datagram for each binary or text message, with its payload, and the WebSocket exactly a pong
-- for each ping and one message for each datagram; behind these there is a close message at most,
-- and only when the loop has ended.
pub forward_udp :
    (events : List (Write × Event)) (s : Written)
    → IsForwarded events s (forward step_udp events s).0 (forward step_udp events s).1
forward_udp events s =
    Whole-IsForwarded events s _ _ (forward-IsCopied Whole step_udp udp-StepWrites events s)
