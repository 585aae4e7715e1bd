-- ===== src/Base/Text.antt =====
-- Texts as lists of characters, and the language's `trim`.
use Prim.Native.Char.{Char, code}
use Prim.Native.String.{[] as []ˢ, ◌∷◌ as ◌∷ˢ◌}
use zaw.Base.{
  String, ◌≡◌, refl, ap, Bool, true, false, ◌&&◌, ◌||◌, List, [], ◌∷◌, nat_eq, leb, any,
  if◌then◌else◌, length, ◌≤◌, arith, Bool-cases, inl, inr,
}

abbrev pub chars : String → List Char
chars []ˢ = []
chars (c ∷ˢ s) = c ∷ chars s

abbrev pub text_of : List Char → String
text_of [] = []ˢ
text_of (c ∷ cs) = c ∷ˢ text_of cs

-- The characters that `trim` takes away.
abbrev pub is_blank : Char → Bool
is_blank c =
    let n = code c in
    (leb 9 n && leb n 13)
    || (any (nat_eq n) (32 ∷ 160 ∷ 5760 ∷ 8232 ∷ 8233 ∷ 8239 ∷ 8287 ∷ 12288 ∷ 65279 ∷ [])
        || (leb 8192 n && leb n 8202))

unfoldable pub without_leading : List Char → List Char
unfolding any
without_leading [] = []
without_leading (c ∷ cs) = let rest = without_leading cs in if is_blank c then rest else c ∷ cs

abbrev pub cons_unless : Bool → Char → List Char → List Char
cons_unless true c [] = []
cons_unless true c (d ∷ ds) = c ∷ d ∷ ds
cons_unless false c ds = c ∷ ds

unfoldable pub without_trailing : List Char → List Char
unfolding any
without_trailing [] = []
without_trailing (c ∷ cs) = cons_unless (is_blank c) c (without_trailing cs)

unfoldable pub trim : String → String
unfolding without_leading without_trailing
trim s = text_of (without_trailing (without_leading (chars s)))

chars-text_of : (cs : List Char) → chars (text_of cs) ≡ cs
chars-text_of [] = refl
chars-text_of (c ∷ cs) = ap (λ ds. c ∷ ds) (chars-text_of cs)

length-without_leading : (cs : List Char) → length (without_leading cs) ≤ length cs
unfolding without_leading
length-without_leading [] = omega arith
length-without_leading (c ∷ cs) = elim (Bool-cases (is_blank c)) [
  | inl blank ↦ rw blank (omega (arith, length-without_leading cs))
  | inr full ↦ rw full (omega arith)
]

length-cons_unless :
    (b : Bool) (c : Char) (cs : List Char) → length (cons_unless b c cs) ≤ length (c ∷ cs)
length-cons_unless true c [] = omega arith
length-cons_unless true c (d ∷ ds) = omega arith
length-cons_unless false c ds = omega arith

length-without_trailing : (cs : List Char) → length (without_trailing cs) ≤ length cs
unfolding without_trailing
length-without_trailing [] = omega arith
length-without_trailing (c ∷ cs) =
    omega
      (arith, length-without_trailing cs, length-cons_unless (is_blank c) c (without_trailing cs))

pub length-trim : (s : String) → length (chars (trim s)) ≤ length (chars s)
unfolding trim
length-trim s = rw (chars-text_of (without_trailing (without_leading (chars s)))) (
    omega (
      arith,
      length-without_trailing (without_leading (chars s)),
      length-without_leading (chars s),
    ))
