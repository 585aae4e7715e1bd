-- ===== src/ActiveSession/Key/Escapes.antt =====
-- `encodeURIComponent` and `decodeURIComponent` on bytes.
use zaw.Base.{
  ℕ, ◌+◌, ◌*◌, ◌-◌, ◌/◌, ◌%◌, ◌<◌, ◌≡◌, ◌≢◌, refl, ap, ◌∙◌, Bool, true, ◌&&◌, ◌||◌, List, [], ◌∷◌,
  ◌++◌, Option, none, some, leb, nat_eq, if◌then◌else◌, All, arith, Bool-cases, inl, inr,
}

-- A-Z a-z 0-9 - _ . ! ~ * ' ( )
unfoldable pub is_unreserved : ℕ → Bool
is_unreserved b =
    (leb b'A' b && leb b b'Z')
    || (leb b'a' b && leb b b'z')
    || (leb b'0' b && leb b b'9')
    || nat_eq b b'-'
    || nat_eq b b'_'
    || nat_eq b b'.'
    || nat_eq b b'!'
    || nat_eq b b'~'
    || nat_eq b b'*'
    || nat_eq b 39
    || nat_eq b b'('
    || nat_eq b b')'

unfoldable pub hex_digit : ℕ → ℕ
hex_digit d = if leb d 9 then d + 48 else d + 55

unfoldable pub encode : List ℕ → List ℕ
unfolding is_unreserved hex_digit
encode [] = []
encode (b ∷ bs) =
    if is_unreserved b
    then b ∷ encode bs
    else b'%' ∷ hex_digit (b / 16) ∷ hex_digit (b % 16) ∷ encode bs

unfoldable pub hex_value : ℕ → Option ℕ
hex_value c =
    if leb 48 c && leb c 57
    then some (c - 48)
    else if leb 65 c && leb c 70
    then some (c - 55)
    else if leb 97 c && leb c 102
    then some (c - 87)
    else none

abbrev pub cons_to : ℕ → Option (List ℕ) → Option (List ℕ)
cons_to b none = none
cons_to b (some bs) = some (b ∷ bs)

abbrev pub byte_of : Option ℕ → Option ℕ → Option ℕ
byte_of (some h) (some l) = some (16 * h + l)
byte_of _ _ = none

abbrev pub escaped : Option ℕ → Option (List ℕ) → Option (List ℕ)
escaped none rest = none
escaped (some b) rest = cons_to b rest

unfoldable pub decode : List ℕ → Option (List ℕ)
unfolding hex_value
decode [] = some []
decode (b ∷ []) = if nat_eq b b'%' then none else some (b ∷ [])
decode (b ∷ c ∷ []) =
    let plain = cons_to b (decode (c ∷ [])) in if nat_eq b b'%' then none else plain
decode (b ∷ c ∷ d ∷ bs) =
    let plain = cons_to b (decode (c ∷ d ∷ bs)) in
    let escape = escaped (byte_of (hex_value c) (hex_value d)) (decode bs) in
    if nat_eq b b'%' then escape else plain

abbrev pub IsByte : ℕ → Type 0
IsByte b = b < 256

hex_value-hex_digit : (d : ℕ) → d < 16 → hex_value (hex_digit d) ≡ some d
unfolding hex_value hex_digit
hex_value-hex_digit d h = ground arith

unreserved-ne : (b : ℕ) → is_unreserved b ≡ true → (b ≢ b'%') × (b ≢ b'|')
unfolding is_unreserved
unreserved-ne b h = ground arith

decode_plain : (b : ℕ) (bs : List ℕ) → b ≢ b'%' → decode (b ∷ bs) ≡ cons_to b (decode bs)
unfolding decode
decode_plain b [] h = ground arith
decode_plain b (c ∷ []) h = ground arith
decode_plain b (c ∷ d ∷ bs) h = ground arith

decode_escape :
    (c d h l : ℕ) (bs : List ℕ)
    → hex_value c ≡ some h
    → hex_value d ≡ some l
    → decode (b'%' ∷ c ∷ d ∷ bs) ≡ cons_to (16 * h + l) (decode bs)
unfolding decode
decode_escape c d h l bs p q = rw (p, q) refl

-- Decoding undoes encoding.
pub decode-encode : (bs : List ℕ) → All IsByte bs → decode (encode bs) ≡ some bs
unfolding encode
decode-encode [] h = unfold decode in refl
decode-encode (b ∷ bs) h = elim (Bool-cases (is_unreserved b)) [
  | inl plain ↦
      rw plain (decode_plain b (encode bs) (unreserved-ne b plain).0 ∙ (rw (decode-encode bs h.1)))
  | inr other ↦
      let digits : 16 * (b / 16) + b % 16 ≡ b = omega arith in
      rw other (
        decode_escape _ _ (b / 16) (b % 16) (encode bs) (hex_value-hex_digit (b / 16) (omega arith))
          (hex_value-hex_digit (b % 16) (omega arith))
        ∙ (rw (decode-encode bs h.1, digits)))
]

-- `indexOf("|")`, and the two slices around it.
abbrev pub before : ℕ → Option (List ℕ × List ℕ) → Option (List ℕ × List ℕ)
before b none = none
before b (some (pre, post)) = some (b ∷ pre, post)

unfoldable pub split_bar : List ℕ → Option (List ℕ × List ℕ)
split_bar [] = none
split_bar (b ∷ bs) =
    let rest = before b (split_bar bs) in if nat_eq b b'|' then some ([], bs) else rest

split_plain : (b : ℕ) (bs : List ℕ) → b ≢ b'|' → split_bar (b ∷ bs) ≡ before b (split_bar bs)
unfolding split_bar
split_plain b bs h = ground arith

hex_digit-ne : (d : ℕ) → d < 16 → hex_digit d ≢ b'|'
unfolding hex_digit
hex_digit-ne d h = ground arith

-- The escapes hold no bar, so the first bar is the separator.
pub split_bar-encode :
    (bs rest : List ℕ)
    → All IsByte bs
    → split_bar (encode bs ++ (b'|' ∷ rest)) ≡ some (encode bs, rest)
unfolding encode
split_bar-encode [] rest h = unfold split_bar in refl
split_bar-encode (b ∷ bs) rest h = elim (Bool-cases (is_unreserved b)) [
  | inl plain ↦
      rw plain
        (split_plain b _ (unreserved-ne b plain).1 ∙ ap (before b) (split_bar-encode bs rest h.1))
  | inr other ↦ rw other (
      split_plain b'%' _ (omega arith)
      ∙ ap (before b'%') (
          split_plain _ _ (hex_digit-ne (b / 16) (omega arith))
          ∙ ap (before _) (
              split_plain _ _ (hex_digit-ne (b % 16) (omega arith))
              ∙ ap (before _) (split_bar-encode bs rest h.1))))
]
