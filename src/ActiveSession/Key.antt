-- ===== src/ActiveSession/Key.antt =====
-- packages/workbench/src/services/active-session.ts: `sessionIdentityKey`, `parseSessionIdentityKey`.
-- A text is its UTF-8 bytes, on which `encodeURIComponent` works. `decodeURIComponent` throws on an
-- escape that is none and on bytes that are no UTF-8: the second test is the argument `well_formed`.
pub mod Escapes
use zaw.Base.{
  ℕ, ◌+◌, ◌/◌, ◌%◌, ◌<◌, ◌≡◌, ◌≢◌, refl, sym, ap, ◌∙◌, Bool, true, false, ◌&&◌, ◌||◌, List, [], ◌∷◌,
  ◌++◌, Option, none, some, leb, nat_eq, if◌then◌else◌, All, arith, Bool-cases, inl, inr,
}
use Escapes.{
  is_unreserved, hex_digit, encode, decode, IsByte, decode-encode, split_bar, split_bar-encode,
}

pub record ByteIdentity : Type 0 where
  pub workspace_id : List ℕ
  pub resource : List ℕ

unfoldable pub session_identity_key : ByteIdentity → List ℕ
session_identity_key i = encode i.workspace_id ++ (b'|' ∷ encode i.resource)

abbrev pub checked : (List ℕ → Bool) → Option (List ℕ) → Option (List ℕ)
checked well_formed none = none
checked well_formed (some bs) = if well_formed bs then some bs else none

abbrev pub both : Option (List ℕ) → Option (List ℕ) → Option ByteIdentity
both (some w) (some r) = some (record { workspace_id = w; resource = r })
both _ _ = none

-- The separator is looked for first; there must be something on both of its sides.
abbrev pub parse_parts : (List ℕ → Bool) → Option (List ℕ × List ℕ) → Option ByteIdentity
parse_parts well_formed none = none
parse_parts well_formed (some ([], post)) = none
parse_parts well_formed (some (b ∷ pre, [])) = none
parse_parts well_formed (some (b ∷ pre, c ∷ post)) =
    both (checked well_formed (decode (b ∷ pre))) (checked well_formed (decode (c ∷ post)))

unfoldable pub parse_session_identity_key : (List ℕ → Bool) → List ℕ → Option ByteIdentity
parse_session_identity_key well_formed value = parse_parts well_formed (split_bar value)

abbrev pub IsBytes : ByteIdentity → Type 0
IsBytes i = All IsByte i.workspace_id × All IsByte i.resource

encode-ne : (bs : List ℕ) → bs ≢ [] → (b : ℕ) × (r : List ℕ) × (encode bs ≡ b ∷ r)
unfolding encode
encode-ne [] h = absurd (h refl)
encode-ne (b ∷ bs) h = elim (Bool-cases (is_unreserved b)) [
  | inl plain ↦ (b, encode bs, rw plain)
  | inr other ↦ (b'%', hex_digit (b / 16) ∷ hex_digit (b % 16) ∷ encode bs, rw other)
]

parse_parts_lem :
    (well_formed : List ℕ → Bool) (pre post : List ℕ) {b c : ℕ} {p q : List ℕ}
    → pre ≡ b ∷ p
    → post ≡ c ∷ q
    → parse_parts well_formed (some (pre, post))
      ≡ both (checked well_formed (decode pre)) (checked well_formed (decode post))
parse_parts_lem well_formed pre post e f = rw (e, f)

-- Parsing gives back the identity that a key was made from, if its parts are not empty and are
-- well-formed texts.
pub parse_session_identity_key-session_identity_key :
    (well_formed : List ℕ → Bool) (i : ByteIdentity)
    → IsBytes i
    → i.workspace_id ≢ []
    → i.resource ≢ []
    → well_formed i.workspace_id ≡ true
    → well_formed i.resource ≡ true
    → parse_session_identity_key well_formed (session_identity_key i) ≡ some i
unfolding parse_session_identity_key session_identity_key
parse_session_identity_key-session_identity_key well_formed i h w r f g =
    let (b, p, e) = encode-ne i.workspace_id w in
    let (c, q, k) = encode-ne i.resource r in
    rw (split_bar-encode i.workspace_id (encode i.resource) h.0) (
      parse_parts_lem well_formed (encode i.workspace_id) (encode i.resource) e k
      ∙ (rw (decode-encode i.workspace_id h.0, decode-encode i.resource h.1, f, g)))

-- Two identities with one key are one identity, so the services may compare and file by keys.
pub session_identity_key-injective :
    (i j : ByteIdentity)
    → IsBytes i
    → IsBytes j
    → session_identity_key i ≡ session_identity_key j
    → i ≡ j
unfolding session_identity_key
session_identity_key-injective i j h k e = ground (
  arith,
  ap split_bar e,
  split_bar-encode i.workspace_id (encode i.resource) h.0,
  split_bar-encode j.workspace_id (encode j.resource) k.0,
  decode-encode i.workspace_id h.0,
  decode-encode j.workspace_id k.0,
  decode-encode i.resource h.1,
  decode-encode j.resource k.1,
)
