-- ===== src/HttpProbe/Replay.antt =====
-- What is read for the head is replayed: the handshake sees the bytes of the connection, all of
-- them and in order (`read_request_head` and `ReplayStream` of src/http_probe.rs).
use mathlib.Core.List.{append_assoc, append-nil}
use mathlib.Core.Path.{subst}
use ws2tcp_router.Prelude.{
  ℕ, zero, suc, ◌+◌, ◌-◌, ◌≡◌, ◌≢◌, ◌≤◌, ◌<◌, ◌⊎◌, ◌∙◌, refl, sym, ap, arith, true, false,
  Bool-cases, Option, none, some, [], ◌∷◌, ◌++◌, length, length-append, take, drop, drop-drop,
  take-append-drop, min, ltb, ltb_iff, leb_iff, inl, inr,
}
use ws2tcp_router.Text.{Bytes}
use ws2tcp_router.HttpProbe.{
  Read, max_request_head, chunk_size, is_complete, read_loop, read_request_head, ReplayStream,
  replay, poll_read,
}

-- A stream with the bytes `content`: a read returns some of the first ones, at most as many as it
-- is asked for, and none, if it is asked for any, only at the end.
pub record IsReader {S : Type 0} (read : Read S) (content : S → Bytes) : Type 0 where
  pub conserves :
      (s : S) (n : ℕ) {out : Bytes} {s' : S}
      → read s n ≡ (some out, s')
      → content s ≡ out ++ content s'
  pub fits : (s : S) (n : ℕ) {out : Bytes} {s' : S} → read s n ≡ (some out, s') → length out ≤ n
  pub ends : (s : S) (n : ℕ) {s' : S} → read s n ≡ (some [], s') → n ≢ 0 → content s ≡ []

-- What a replaying stream holds: the rest of its prefix, then the inner stream.
abbrev pub replayed : {S : Type 0} → (S → Bytes) → ReplayStream S → Bytes
replayed content r = drop r.position r.prefix ++ content r.inner

drop_past : (xs : Bytes) (n : ℕ) → length xs ≤ n → drop n xs ≡ []
drop_past [] zero h = refl
drop_past [] (suc n) h = refl
drop_past (x ∷ xs) zero h = elim h [ ]
drop_past (x ∷ xs) (suc n) h = drop_past xs n (omega arith)

pub length-take-le : (n : ℕ) (xs : Bytes) → length (take n xs) ≤ n
length-take-le zero xs = omega arith
length-take-le (suc n) [] = omega arith
length-take-le (suc n) (x ∷ xs) = omega (arith, length-take-le n xs)

take-drop-nonempty : (n k : ℕ) (xs : Bytes) → k < length xs → n ≢ 0 → take n (drop k xs) ≢ []
take-drop-nonempty n k [] h e = absurd (omega arith)
take-drop-nonempty zero zero (x ∷ xs) h e = absurd (e refl)
take-drop-nonempty (suc n) zero (x ∷ xs) h e = λ q. cc
take-drop-nonempty n (suc k) (x ∷ xs) h e = take-drop-nonempty n k xs (omega arith) e

module _ {S : Type 0} (read : Read S) (content : S → Bytes) where
  poll_cases :
      (r : ReplayStream S) (n : ℕ) {out : Option Bytes} {r' : ReplayStream S}
      → poll_read read r n ≡ (out, r')
      → ((r.position < length r.prefix)
          × (out ≡ some (take (min n (length r.prefix - r.position)) (drop r.position r.prefix)))
          × (r' ≡ record r { position = r.position + min n (length r.prefix - r.position) }))
        ⊎ ((length r.prefix ≤ r.position)
            × (s' : S) × (read r.inner n ≡ (out, s'))
            × (r' ≡ record r { inner = s' }))
  unfolding poll_read
  poll_cases r n {out} {r'} e = elim (Bool-cases (ltb r.position (length r.prefix))) [
    | inl before ↦
        let test = ltb_iff r.position (length r.prefix) in
        inl (test.0 before, ground arith, ground arith)
    | inr past ↦
        let test = ltb_iff r.position (length r.prefix) in
        inr (ground (arith, test), (read r.inner n).1, ground arith, ground arith)
  ]

  drop-split : (k m : ℕ) (xs : Bytes) → drop k xs ≡ take m (drop k xs) ++ drop (k + m) xs
  drop-split k m xs =
      sym (take-append-drop m (drop k xs)) ∙ ap (λ l. take m (drop k xs) ++ l) (drop-drop k m xs)

  room : (n k len : ℕ) → k < len → n ≢ 0 → min n (len - k) ≢ 0
  room n k len h e = λ z. e (omega arith)

  -- A replaying stream is a stream: if the inner stream is one with certain bytes, reading the
  -- replaying stream gives the rest of its prefix and then those bytes, some at each read, none
  -- beyond what is asked for, and reports the end only there.
  pub poll_read-IsReader : IsReader read content → IsReader (poll_read read) (replayed content)
  poll_read-IsReader k = record {
    conserves = λ r n {out} {s' = r'} e. elim (poll_cases r n e) [
      | inl (before, got, after) ↦
          let m = min n (length r.prefix - r.position) in
          let same : out ≡ take m (drop r.position r.prefix) = ground arith in
          rw (same, after)
            (ap (λ l. l ++ content r.inner) (drop-split r.position m r.prefix)
              ∙ append_assoc (take m (drop r.position r.prefix)) _ (content r.inner))
      | inr (past, s', inner, after) ↦
          rw (after, drop_past r.prefix r.position past) (k.conserves r.inner n inner)
    ];
    fits = λ r n {out} {s' = r'} e. elim (poll_cases r n e) [
      | inl (before, got, after) ↦
          let m = min n (length r.prefix - r.position) in
          let same : out ≡ take m (drop r.position r.prefix) = ground arith in
          rw same (omega (arith, length-take-le m (drop r.position r.prefix)))
      | inr (past, s', inner, after) ↦ k.fits r.inner n inner
    ];
    ends = λ r n {s' = r'} e some_room. elim (poll_cases r n e) [
      | inl (before, got, after) ↦
          let m = min n (length r.prefix - r.position) in
          let none_left : take m (drop r.position r.prefix) ≡ [] = ground arith in
          absurd (
            take-drop-nonempty m r.position r.prefix before
              (room n r.position (length r.prefix) before some_room) none_left)
      | inr (past, s', inner, after) ↦
          rw (drop_past r.prefix r.position past) (k.ends r.inner n inner some_room)
    ];
  }

  -- What the loop returns: a complete head, or the whole stream.
  pub record IsHead (whole taken : Bytes) (s : S) : Type 0 where
    pub split : whole ≡ taken ++ content s
    pub stopped : (is_complete taken ≡ true) ⊎ (content s ≡ [])
    pub bounded : length taken < max_request_head + chunk_size

  -- Reads of the loop, one after the other, from `start` on: the bytes they got, and the stream
  -- behind them.
  pub data Reads (start : S) : Bytes → S → Type 0 where
    started : Reads start [] start
    got :
        {taken more : Bytes} {s s' : S}
        → Reads start taken s
        → read s chunk_size ≡ (some more, s')
        → Reads start (taken ++ more) s'

  -- The loop's read of the stream fails, behind reads of it that have not got a complete head.
  pub record IsBroken (start s : S) : Type 0 where
    pub taken : Bytes
    pub before : S
    pub reads : Reads start taken before
    pub unfinished : is_complete taken ≡ false
    pub fails : read before chunk_size ≡ (none, s)

  -- An error of the stream, or the head; never out of fuel.
  abbrev pub IsHeadOrError : S → Option (Option Bytes × S) → Type 0
  IsHeadOrError start none = ⊥
  IsHeadOrError start (some (none, s)) = IsBroken start s
  IsHeadOrError start (some (some taken, s)) = Reads start taken s × IsHead (content start) taken s

  more_fuel :
      (fuel : ℕ) (taken : Bytes) (b : ℕ) (more : Bytes)
      → max_request_head ≤ length taken + suc fuel
      → max_request_head ≤ length (taken ++ b ∷ more) + fuel
  more_fuel fuel taken b more h = omega (arith, length-append taken (b ∷ more))

  incomplete-short : (taken : Bytes) → is_complete taken ≡ false → length taken < max_request_head
  incomplete-short taken h =
      let test = leb_iff max_request_head (length taken) in ground (arith, test)

  -- What is known before a round of the loop: the bytes were read since `start`, and those behind
  -- them are left.
  record IsTaken (start : S) (taken : Bytes) (s : S) : Type 0 where
    reads : Reads start taken s
    split : content start ≡ taken ++ content s
    bounded : length taken < max_request_head + chunk_size

  halted :
      {start s : S} {taken : Bytes}
      → IsTaken start taken s
      → (is_complete taken ≡ true) ⊎ (content s ≡ [])
      → Reads start taken s × IsHead (content start) taken s
  halted k stopped = (k.reads, record { split = k.split; stopped = stopped; bounded = k.bounded })

  next-IsTaken :
      {start s s' : S} {taken more : Bytes}
      → IsReader read content
      → IsTaken start taken s
      → is_complete taken ≡ false
      → read s chunk_size ≡ (some more, s')
      → IsTaken start (taken ++ more) s'
  next-IsTaken {s' = s'} {taken} {more} k before unfinished e = record {
    reads = got before.reads e;
    split =
        before.split
        ∙ ap (λ l. taken ++ l) (k.conserves _ chunk_size e)
        ∙ sym (append_assoc taken more (content s'));
    bounded =
        omega (
          arith,
          length-append taken more,
          k.fits _ chunk_size e,
          incomplete-short taken unfinished,
        );
  }

  -- one round of the loop, where `again` is what is known of the next ones
  round :
      (fuel : ℕ) (start : S) (taken : Bytes) (s : S)
      → IsReader read content
      → max_request_head ≤ length taken + suc fuel
      → IsTaken start taken s
      → ((bytes : Bytes) (s' : S)
          → max_request_head ≤ length bytes + fuel
          → IsTaken start bytes s'
          → IsHeadOrError start (read_loop read fuel bytes s'))
      → (o : Option Bytes) (s' : S) → is_complete taken ≡ false
      → read s chunk_size ≡ (o, s')
      → IsHeadOrError start (read_loop read (suc fuel) taken s)
  unfolding read_loop
  round fuel start taken s k enough before again none s' more e =
      rw (read_loop, more, e, e)
        (record { taken = taken; before = s; reads = before.reads; unfinished = more; fails = e })
  round fuel start taken s k enough before again (some []) s' more e =
      let nothing : taken ++ [] ≡ taken = append-nil taken in
      rw (read_loop, more, e, e)
        (halted (subst (λ bytes. IsTaken start bytes s') nothing (next-IsTaken k before more e))
          (inr (sym (k.conserves s chunk_size e) ∙ k.ends s chunk_size e (λ z. omega (arith, z)))))
  round fuel start taken s k enough before again (some (b ∷ rest)) s' more e =
      rw (read_loop, more, e, e)
        (again (taken ++ b ∷ rest) s' (more_fuel fuel taken b rest enough)
          (next-IsTaken k before more e))

  read_loop-IsHeadOrError :
      (fuel : ℕ) (start : S) (taken : Bytes) (s : S)
      → IsReader read content
      → max_request_head ≤ length taken + fuel
      → IsTaken start taken s
      → IsHeadOrError start (read_loop read fuel taken s)
  unfolding read_loop
  read_loop-IsHeadOrError zero start taken s k enough before =
      elim (Bool-cases (is_complete taken)) [
        | inr more ↦ absurd (omega (arith, enough, incomplete-short taken more))
        | inl complete ↦ rw (read_loop, complete) (halted before (inl complete))
      ]
  read_loop-IsHeadOrError (suc fuel) start taken s k enough before =
      elim (Bool-cases (is_complete taken)) [
        | inl complete ↦ rw (read_loop, complete) (halted before (inl complete))
        | inr more ↦
            round fuel start taken s k enough before
              (λ bytes s'. read_loop-IsHeadOrError fuel start bytes s' k) (read s chunk_size).0
              (read s chunk_size).1 more refl
      ]

  -- Reading the request head of a stream ends. Either a read fails, behind successful reads that
  -- have not got a complete head; or the head is what successful reads got, and it and what is left
  -- of the stream are the stream's bytes: the head has the end of a request head in it, or at least
  -- 16 KiB, or is all there is; and it has less than 18 KiB.
  pub read_request_head-IsHeadOrError :
      (s : S) → IsReader read content → IsHeadOrError s (read_request_head read s)
  unfolding read_request_head
  read_request_head-IsHeadOrError s k =
      read_loop-IsHeadOrError max_request_head s [] s k (omega arith)
        (record { reads = started; split = refl; bounded = omega arith })

  -- After a head was read of a connection that is a stream with certain bytes, the handshake reads
  -- a stream with the same bytes: those of the head again, and those behind it.
  pub replay-read_request_head :
      (s : S) (taken : Bytes) (s' : S)
      → IsReader read content
      → read_request_head read s ≡ some (some taken, s')
      → IsReader (poll_read read) (replayed content)
        × (replayed content (replay taken s') ≡ content s)
  replay-read_request_head s taken s' k e =
      let (_, found) : Reads s taken s' × IsHead (content s) taken s' =
        subst (IsHeadOrError s) e (read_request_head-IsHeadOrError s k) in
      (poll_read-IsReader k, sym found.split)
