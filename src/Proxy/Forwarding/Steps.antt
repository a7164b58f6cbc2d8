-- ===== src/Proxy/Forwarding/Steps.antt =====
-- What one turn of the loops of src/proxy.rs writes.
use mathlib.Core.List.{append-nil}
use ws2tcp_router.Prelude.{
  ◌≡◌, ◌≢◌, ◌⊎◌, ◌∙◌, refl, sym, take, none, some, List, [], ◌∷◌, ◌++◌, inl, inr,
}
use ws2tcp_router.Text.{Bytes}
use ws2tcp_router.Encoding.{as_bytes}
use ws2tcp_router.Proxy.Forwarding.{
  Message, binary, text, ping, pong, frame, close, message, failed, ended, Event, from_websocket,
  from_upstream, idle, Outcome, Write, works, fails_after, running, broken, Written, Step, step_tcp,
  step_udp, payload, reply,
}

-- A close message behind what was sent, or nothing more.
abbrev pub Parting : List Message → List Message → Type 0
Parting before after = (after ≡ before) ⊎ (after ≡ before ++ close ∷ [])

-- What a write to the upstream that fails has written: the first bytes of its payload.
abbrev pub Cuts : Write × Event → List Bytes → Type 0
Cuts (works, e) part = ⊥
Cuts (fails_after n, e) part =
    (b : Bytes) × (payload (fails_after n, e) ≡ b ∷ []) × (part ≡ take n b ∷ [])

-- A write to the upstream is whole.
abbrev pub Whole : Write × Event → List Bytes → Type 0
Whole x part = ⊥

abbrev pub IsCut :
    (Write × Event → List Bytes → Type 0) → Write × Event → Outcome → List Bytes → Type 0
IsCut Cut x o part = (part ≡ []) ⊎ ((o ≡ broken) × Cut x part)

-- A step that ends the loop has written at most a cut to the upstream and a close message to the
-- WebSocket.
pub record IsLast (Cut : Write × Event → List Bytes → Type 0) (x : Write × Event) (o : Outcome)
    (s s' : Written) : Type 0 where
  pub stops : o ≢ running
  pub part : List Bytes
  pub upstream : s'.upstream ≡ s.upstream ++ part
  pub cut : IsCut Cut x o part
  pub parting : Parting s.websocket s'.websocket

-- A step goes on and has written what the event asks for, or it is the last one.
abbrev pub StepWrites :
    (Write × Event → List Bytes → Type 0) → Step → Write × Event → Written → Type 0
StepWrites Cut step (w, e) s =
    (((step w e s).0 ≡ running)
      × ((step w e s).1.upstream ≡ s.upstream ++ payload (w, e))
      × ((step w e s).1.websocket ≡ s.websocket ++ reply (w, e)))
    ⊎ IsLast Cut (w, e) (step w e s).0 s (step w e s).1

-- a step that writes nothing to the upstream
ends :
    {Cut : Write × Event → List Bytes → Type 0} {x : Write × Event} {o : Outcome} (s : Written)
    {s' : Written}
    → o ≢ running
    → s'.upstream ≡ s.upstream
    → Parting s.websocket s'.websocket
    → IsLast Cut x o s s'
ends s h up parting = record {
  stops = h;
  part = [];
  upstream = up ∙ sym (append-nil s.upstream);
  cut = inl refl;
  parting = parting;
}

pub tcp-StepWrites : (w : Write) (e : Event) (s : Written) → StepWrites Cuts step_tcp (w, e) s
unfolding step_tcp
tcp-StepWrites works (from_websocket (message (binary b))) s =
    inl (refl, refl, sym (append-nil s.websocket))
tcp-StepWrites (fails_after n) (from_websocket (message (binary b))) s = inr (record {
  stops = λ h. cc;
  part = take n b ∷ [];
  upstream = refl;
  cut = inr (refl, (_, refl, refl));
  parting = inl refl;
})
tcp-StepWrites works (from_websocket (message (text t))) s =
    inl (refl, refl, sym (append-nil s.websocket))
tcp-StepWrites (fails_after n) (from_websocket (message (text t))) s = inr (record {
  stops = λ h. cc;
  part = take n (as_bytes t) ∷ [];
  upstream = refl;
  cut = inr (refl, (_, refl, refl));
  parting = inl refl;
})
tcp-StepWrites works (from_websocket (message (ping b))) s =
    inl (refl, sym (append-nil s.upstream), refl)
tcp-StepWrites (fails_after n) (from_websocket (message (ping b))) s =
    inr (ends s (λ h. cc) refl (inl refl))
tcp-StepWrites w (from_websocket (message (pong b))) s =
    inl (refl, sym (append-nil s.upstream), sym (append-nil s.websocket))
tcp-StepWrites w (from_websocket (message frame)) s =
    inl (refl, sym (append-nil s.upstream), sym (append-nil s.websocket))
tcp-StepWrites works (from_websocket (message close)) s = inr (ends s (λ h. cc) refl (inl refl))
tcp-StepWrites (fails_after n) (from_websocket (message close)) s =
    inr (ends s (λ h. cc) refl (inl refl))
tcp-StepWrites w (from_websocket failed) s = inr (ends s (λ h. cc) refl (inl refl))
tcp-StepWrites works (from_websocket ended) s = inr (ends s (λ h. cc) refl (inl refl))
tcp-StepWrites (fails_after n) (from_websocket ended) s = inr (ends s (λ h. cc) refl (inl refl))
tcp-StepWrites w (from_upstream none) s = inr (ends s (λ h. cc) refl (inl refl))
tcp-StepWrites works (from_upstream (some [])) s = inr (ends s (λ h. cc) refl (inr refl))
tcp-StepWrites (fails_after n) (from_upstream (some [])) s = inr (ends s (λ h. cc) refl (inl refl))
tcp-StepWrites works (from_upstream (some (b ∷ bs))) s =
    inl (refl, sym (append-nil s.upstream), refl)
tcp-StepWrites (fails_after n) (from_upstream (some (b ∷ bs))) s =
    inr (ends s (λ h. cc) refl (inl refl))
tcp-StepWrites w idle s = inl (refl, sym (append-nil s.upstream), sym (append-nil s.websocket))

pub udp-StepWrites : (w : Write) (e : Event) (s : Written) → StepWrites Whole step_udp (w, e) s
unfolding step_udp
udp-StepWrites works (from_websocket (message (binary b))) s =
    inl (refl, refl, sym (append-nil s.websocket))
udp-StepWrites (fails_after n) (from_websocket (message (binary b))) s =
    inr (ends s (λ h. cc) refl (inl refl))
udp-StepWrites works (from_websocket (message (text t))) s =
    inl (refl, refl, sym (append-nil s.websocket))
udp-StepWrites (fails_after n) (from_websocket (message (text t))) s =
    inr (ends s (λ h. cc) refl (inl refl))
udp-StepWrites works (from_websocket (message (ping b))) s =
    inl (refl, sym (append-nil s.upstream), refl)
udp-StepWrites (fails_after n) (from_websocket (message (ping b))) s =
    inr (ends s (λ h. cc) refl (inl refl))
udp-StepWrites w (from_websocket (message (pong b))) s =
    inl (refl, sym (append-nil s.upstream), sym (append-nil s.websocket))
udp-StepWrites w (from_websocket (message frame)) s =
    inl (refl, sym (append-nil s.upstream), sym (append-nil s.websocket))
udp-StepWrites w (from_websocket (message close)) s = inr (ends s (λ h. cc) refl (inl refl))
udp-StepWrites w (from_websocket failed) s = inr (ends s (λ h. cc) refl (inl refl))
udp-StepWrites w (from_websocket ended) s = inr (ends s (λ h. cc) refl (inl refl))
udp-StepWrites w (from_upstream none) s = inr (ends s (λ h. cc) refl (inl refl))
udp-StepWrites works (from_upstream (some b)) s = inl (refl, sym (append-nil s.upstream), refl)
udp-StepWrites (fails_after n) (from_upstream (some b)) s = inr (ends s (λ h. cc) refl (inl refl))
udp-StepWrites works idle s = inr (ends s (λ h. cc) refl (inr refl))
udp-StepWrites (fails_after n) idle s = inr (ends s (λ h. cc) refl (inl refl))
