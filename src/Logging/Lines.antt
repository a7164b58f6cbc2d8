-- ===== src/Logging/Lines.antt =====
-- The lines of src/logging.rs with colours and without.
use mathlib.Core.List.{append_assoc, append-nil}
use ws2tcp_router.Prelude.{
  ◌≡◌, ◌∙◌, refl, sym, ap, arith, Bool, true, false, Option, none, some, [], ◌∷◌, ◌++◌, ◌==◌,
  if◌then◌else◌, unwrap_or,
}
use ws2tcp_router.Text.{Str, codes, strip_prefix}
use ws2tcp_router.Text.Laws.{Lacks, strip_prefix-eq-some}
use ws2tcp_router.Logging.{
  Level, error, warn, info, debug, trace, level_name, color, pad, Event, timed, dim, reset,
  crate_prefix, short_target, format_event,
}

-- What a terminal shows of a text: all but its escape sequences, which end with an `m`.
unfoldable pub shown : Bool → Str → Str
shown escaped [] = []
shown false (c ∷ s) = if c == 0x1b then shown true s else c ∷ shown false s
shown true (c ∷ s) = shown (if c == b'm' then false else true) s

-- A text in front of any other shows as `v`.
pub record Shows (s v : Str) : Type 0 where
  pub in_front : (t : Str) → shown false (s ++ t) ≡ v ++ shown false t

Shows-append : {s s' v v' : Str} → Shows s v → Shows s' v' → Shows (s ++ s') (v ++ v')
Shows-append {s} {s'} {v} {v'} h h' = record {
  in_front = λ t.
      ap (shown false) (append_assoc s s' t)
      ∙ h.in_front (s' ++ t)
      ∙ ap (λ r. v ++ r) (h'.in_front t)
      ∙ sym (append_assoc v v' (shown false t));
}

plain_lem : (s : Str) → Lacks 0x1b s → (t : Str) → shown false (s ++ t) ≡ s ++ shown false t
unfolding shown
plain_lem [] h t = refl
plain_lem (c ∷ s) h t =
    let differs = h.0 in
    let other : (c == 0x1b) ≡ false = ground arith in rw other (ap (λ r. c ∷ r) (plain_lem s h.1 t))

plain-Shows : (s : Str) → Lacks 0x1b s → Shows s s
plain-Shows s h = record { in_front = plain_lem s h }

color-Shows : (l : Level) → Shows (color l) []
unfolding shown
color-Shows error = record { in_front = λ t. refl }
color-Shows warn = record { in_front = λ t. refl }
color-Shows info = record { in_front = λ t. refl }
color-Shows debug = record { in_front = λ t. refl }
color-Shows trace = record { in_front = λ t. refl }

dim-Shows : Shows dim []
unfolding shown
dim-Shows = record { in_front = λ t. refl }

reset-Shows : Shows reset []
unfolding shown
reset-Shows = record { in_front = λ t. refl }

level-Lacks : (l : Level) → Lacks 0x1b (pad (level_name l))
level-Lacks error = ground arith
level-Lacks warn = ground arith
level-Lacks info = ground arith
level-Lacks debug = ground arith
level-Lacks trace = ground arith

right-Lacks : (s t : Str) → Lacks 0x1b (s ++ t) → Lacks 0x1b t
right-Lacks [] t h = h
right-Lacks (c ∷ s) t h = right-Lacks s t h.1

short_target-Lacks : (target : Str) → Lacks 0x1b target → Lacks 0x1b (short_target target)
short_target-Lacks target h = stripped (strip_prefix crate_prefix target) refl
  where
    stripped :
        (o : Option Str) → strip_prefix crate_prefix target ≡ o → Lacks 0x1b (unwrap_or o target)
    stripped none e = h
    stripped (some rest) e =
        let whole = strip_prefix-eq-some crate_prefix target e in
        right-Lacks crate_prefix rest (rw whole at h)

timed-Shows :
    (with_time : Bool) (time : Str)
    → Lacks 0x1b time
    → Shows (timed with_time time) (timed with_time time)
timed-Shows true time h = Shows-append (plain-Shows time h) (plain-Shows (codes " ") (ground arith))
timed-Shows false time h = plain-Shows [] tt

-- A line with colours shows as the line without them: the escape sequences change neither the
-- level, padded to five characters, nor the target, without the name of the crate, as long as the
-- time and the target have no escape character of their own, and the fields that the crate prints
-- with colours show as those that it prints without.
pub shown-format_event :
    (with_time : Bool) (e : Event)
    → Lacks 0x1b e.time
    → Lacks 0x1b e.target
    → Shows (e.fields true) (e.fields false)
    → shown false (format_event with_time true e) ≡ format_event with_time false e
unfolding format_event shown
shown-format_event with_time e time target fields =
    let space = plain-Shows (codes " ") (ground arith) in
    let level = pad (level_name e.level) in
    let name = short_target e.target in
    let colored = color e.level in
    let level_shows : Shows (colored ++ level ++ reset ++ codes " ") (level ++ [] ++ codes " ") =
      Shows-append
        (Shows-append (Shows-append (color-Shows e.level) (plain-Shows level (level-Lacks e.level)))
          reset-Shows)
        space in
    let target_shows : Shows (dim ++ name ++ codes ":" ++ reset ++ codes " ")
        (name ++ codes ":" ++ [] ++ codes " ") =
      Shows-append
        (Shows-append
          (Shows-append
            (Shows-append dim-Shows (plain-Shows name (short_target-Lacks e.target target)))
            (plain-Shows (codes ":") (ground arith)))
          reset-Shows)
        space in
    let all_shows : Shows (format_event with_time true e) (format_event with_time false e) =
      Shows-append
        (Shows-append
          (Shows-append (Shows-append (timed-Shows with_time e.time time) level_shows) target_shows)
          fields)
        (plain-Shows (codes "\n") (ground arith)) in
    ap (shown false) (sym (append-nil (format_event with_time true e)))
    ∙ all_shows.in_front []
    ∙ append-nil (format_event with_time false e)
