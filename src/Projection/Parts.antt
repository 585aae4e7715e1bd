-- ===== src/Projection/Parts.antt =====
-- packages/workbench/src/contrib/sessions/ahp-projection-service.ts: the turns that run, and the ids
-- of the parts of a response.
use Prim.Native.String.{count}
use zaw.Base.{
  ℕ, zero, suc, ◌+◌, String, ◌<>◌, ◌≡◌, ◌≢◌, refl, sym, ap, ◌∙◌, false, List, Option, none, some,
  ◌==◌, if◌then◌else◌, arith, eq_refl,
}
use text.Mathlib.TextLemmas.{append_cancel_left, length-append}
use zaw.Base.Dict.{get, put, delete, get-put}

pub record Turns : Type 0 where
  pub active_turns : List (String × String)
  pub response_segments : List (String × ℕ)

abbrev pub turn_key : String → String → String
turn_key w channel = w <> ("\0" <> channel)

unfoldable pub turn_started : String → String → Turns → Turns
turn_started key turn s = record {
  active_turns = put key turn s.active_turns;
  response_segments = put key 0 s.response_segments;
}

-- `chat/turnComplete` and `chat/turnCancelled`
unfoldable pub turn_ended : String → Turns → Turns
turn_ended key s = record {
  active_turns = delete key s.active_turns;
  response_segments = delete key s.response_segments;
}

abbrev pub or_zero : Option ℕ → ℕ
or_zero none = 0
or_zero (some n) = n

unfoldable pub bump_response_segment : String → Turns → Turns
bump_response_segment key s = record s {
  response_segments = put key (or_zero (get key s.response_segments) + 1) s.response_segments;
}

-- `decimal` writes a number.
unfoldable pub segment_suffix : (ℕ → String) → ℕ → String
segment_suffix decimal zero = ""
segment_suffix decimal (suc n) = ":segment-" <> decimal (suc n)

abbrev pub in_turn : Option String → String → String → String
in_turn none part suffix = part
in_turn (some turn) part suffix = if turn == "" then part else (turn <> (":" <> part)) <> suffix

unfoldable pub scoped_part_id : (ℕ → String) → String → String → Turns → String
unfolding segment_suffix
scoped_part_id decimal key part s =
    in_turn (get key s.active_turns) part
      (segment_suffix decimal (or_zero (get key s.response_segments)))

-- The tool calls that start in a turn, one after the other.
unfoldable pub bumps : ℕ → String → Turns → Turns
bumps zero key s = s
bumps (suc n) key s = bump_response_segment key (bumps n key s)

bumped :
    (n : ℕ) (key turn : String) (s : Turns)
    → (get key (bumps n key (turn_started key turn s)).active_turns ≡ some turn)
      × (get key (bumps n key (turn_started key turn s)).response_segments ≡ some n)
unfolding bumps turn_started bump_response_segment
bumped zero key turn s = (
  get-put key key turn s.active_turns ∙ rw (eq_refl key) refl,
  get-put key key 0 s.response_segments ∙ rw (eq_refl key) refl,
)
bumped (suc n) key turn s = (
  (bumped n key turn s).0,
  get-put key key (or_zero (get key (bumps n key (turn_started key turn s)).response_segments) + 1)
        (bumps n key (turn_started key turn s)).response_segments
      ∙ rw (eq_refl key)
          (ap (λ o. some (or_zero o + 1)) (bumped n key turn s).1 ∙ ap some (omega arith)),
)

segment_suffix-injective :
    (decimal : ℕ → String) (m n : ℕ)
    → ((i j : ℕ) → decimal i ≡ decimal j → i ≡ j)
    → segment_suffix decimal m ≡ segment_suffix decimal n
    → m ≡ n
unfolding segment_suffix
segment_suffix-injective decimal zero zero inj h = refl
segment_suffix-injective decimal zero (suc n) inj h =
    absurd (omega (arith, ap count h, length-append ":segment-" (decimal (suc n))))
segment_suffix-injective decimal (suc m) zero inj h =
    absurd (omega (arith, ap count h, length-append ":segment-" (decimal (suc m))))
segment_suffix-injective decimal (suc m) (suc n) inj h =
    inj (suc m) (suc n) (append_cancel_left ":segment-" (decimal (suc m)) (decimal (suc n)) h)

pub bumped_id :
    (decimal : ℕ → String) (n : ℕ) (key turn part : String) (s : Turns)
    → (turn == "") ≡ false
    → scoped_part_id decimal key part (bumps n key (turn_started key turn s))
      ≡ (turn <> (":" <> part)) <> segment_suffix decimal n
unfolding scoped_part_id
bumped_id decimal n key turn part s h =
    rw ((bumped n key turn s).0, (bumped n key turn s).1, h) refl

-- In a turn whose id is not empty, a part of the response gets different ids after different
-- numbers of started tool calls, provided that different numbers are written differently; so its
-- deltas start a new message after a tool call.
pub scoped_part_id_fresh :
    (decimal : ℕ → String) (m n : ℕ) (key turn part : String) (s : Turns)
    → ((i j : ℕ) → decimal i ≡ decimal j → i ≡ j)
    → (turn == "") ≡ false
    → m ≢ n
    → scoped_part_id decimal key part (bumps m key (turn_started key turn s))
      ≢ scoped_part_id decimal key part (bumps n key (turn_started key turn s))
scoped_part_id_fresh decimal m n key turn part s inj h ne e = ne (
    segment_suffix-injective decimal m n inj (
      append_cancel_left (turn <> (":" <> part)) (segment_suffix decimal m)
        (segment_suffix decimal n)
        (sym (bumped_id decimal m key turn part s h) ∙ e ∙ bumped_id decimal n key turn part s h)))
