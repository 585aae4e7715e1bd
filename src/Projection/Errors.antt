-- ===== src/Projection/Errors.antt =====
-- packages/workbench/src/contrib/sessions/ahp-projection-service.ts: `errorMessage`, `toolResultContent` and
-- `toolResultDetail`. `parse` is `JSON.parse`, with `none` where it throws; `errorMessage` calls itself on what
-- it gives, which may be a text again, so the calls are counted by fuel.
use zaw.Base.{
  ℕ, zero, suc, String, ◌<>◌, ◌≡◌, refl, sym, ap, ◌∙◌, not, List, [], ◌∷◌, Option, none, some, ◌==◌,
  if◌then◌else◌, map, keep, length, ◌<◌, ◌≤◌, arith, Bool-cases, Option-cases, inl, inr,
}
use zaw.Base.Text.{chars, trim, length-trim}
use zaw.Json.{
  Json, Fields, text, flag, numeral, null, array, object, string_value, record_value, field_of,
  or_text, display_text, array_value,
}
use zaw.Projection.{is_false}

-- The message of an object, or none.
unfoldable pub object_message : Option Fields → String
unfolding string_value record_value field_of or_text
object_message error = or_text (string_value (field_of "message" error)) (
    or_text (string_value (field_of "error" error))
      (string_value (field_of "message" (record_value (field_of "cause" error)))))

abbrev pub or_given : String → Option String → Option String
or_given t none = none
or_given t (some m) = some (if m == "" then t else m)

abbrev pub entry_text : Json → String
unfolding string_value record_value field_of or_text
entry_text (text s) = s
entry_text v =
    let content = record_value (some v) in
    or_text (string_value (field_of "text" content)) (string_value (field_of "content" content))

unfoldable pub join_lines : List String → String
join_lines [] = ""
join_lines (x ∷ []) = x
join_lines (x ∷ y ∷ ys) = let rest = join_lines (y ∷ ys) in x <> ("\n" <> rest)

unfoldable pub tool_result_content : Option Json → String
unfolding join_lines array_value keep
tool_result_content v = join_lines (keep (λ s. not (s == "")) (map entry_text (array_value v)))

module _ (parse : String → Option Json) where
  -- `none` when the fuel is used up.
  unfoldable pub error_message : ℕ → Option Json → Option String
  unfolding trim object_message record_value
  error_message zero v = none
  error_message (suc n) (some (text s)) =
      let t = trim s in
      let inner : Option String = elim (parse t) [
        | none ↦ some t
        | some v ↦ or_given t (error_message n (some v))
      ] in
      if t == "" then some "" else inner
  error_message (suc n) v = some (object_message (record_value v))

  -- The calls that are enough for a value.
  abbrev pub enough : Option Json → ℕ
  enough (some (text s)) = suc (suc (length (chars s)))
  enough _ = 1

  abbrev pub or_blank : Option String → String
  or_blank none = ""
  or_blank (some s) = s

  unfoldable pub message_of : Option Json → String
  unfolding error_message
  message_of v = or_blank (error_message (enough v) v)

  unfoldable pub tool_result_detail : Option Fields → String
  unfolding message_of tool_result_content or_text display_text field_of
  tool_result_detail none = ""
  tool_result_detail (some result) =
      let get = λ (k : String). field_of k (some result) in
      let failure = message_of (get "error") in
      let content = tool_result_content (get "content") in
      let past_tense = display_text (get "pastTenseMessage") in
      if is_false (get "success")
      then or_text failure (or_text content past_tense)
      else or_text past_tense (or_text content failure)

  -- A text that `parse` reads out of a text is shorter: it stood in quotes.
  abbrev pub Shrinks : Type 0
  Shrinks = (t u : String) → parse t ≡ some (text u) → length (chars u) < length (chars t)

  enough_inner :
      (s : String) (w : Json)
      → Shrinks
      → parse (trim s) ≡ some w
      → enough (some w) ≤ suc (length (chars s))
  enough_inner s (text u) h e = omega (arith, h (trim s) u e, length-trim s)
  enough_inner s (flag b) h e = omega arith
  enough_inner s (numeral n) h e = omega arith
  enough_inner s null h e = omega arith
  enough_inner s (array vs) h e = omega arith
  enough_inner s (object fs) h e = omega arith

  -- With fuel enough, one and the same message comes out.
  agrees :
      (n k : ℕ) (v : Option Json)
      → Shrinks
      → enough v ≤ n
      → enough v ≤ k
      → (m : String) × (error_message n v ≡ some m) × (error_message k v ≡ some m)
  unfolding error_message
  agrees zero k none h a b = absurd (omega (arith, a))
  agrees zero k (some (text s)) h a b = absurd (omega (arith, a))
  agrees zero k (some (flag f)) h a b = absurd (omega (arith, a))
  agrees zero k (some (numeral f)) h a b = absurd (omega (arith, a))
  agrees zero k (some null) h a b = absurd (omega (arith, a))
  agrees zero k (some (array f)) h a b = absurd (omega (arith, a))
  agrees zero k (some (object f)) h a b = absurd (omega (arith, a))
  agrees (suc n) zero none h a b = absurd (omega (arith, b))
  agrees (suc n) zero (some (text s)) h a b = absurd (omega (arith, b))
  agrees (suc n) zero (some (flag f)) h a b = absurd (omega (arith, b))
  agrees (suc n) zero (some (numeral f)) h a b = absurd (omega (arith, b))
  agrees (suc n) zero (some null) h a b = absurd (omega (arith, b))
  agrees (suc n) zero (some (array f)) h a b = absurd (omega (arith, b))
  agrees (suc n) zero (some (object f)) h a b = absurd (omega (arith, b))
  agrees (suc n) (suc k) (some (text s)) h a b = elim (Bool-cases (trim s == "")) [
    | inl blank ↦ ("", rw blank refl, rw blank refl)
    | inr full ↦ elim (Option-cases (parse (trim s))) [
      | inl fails ↦ (trim s, rw (full, fails) refl, rw (full, fails) refl)
      | inr (w, read) ↦
          let small = enough_inner s w h read in
          let (m, x, y) =
            agrees n k (some w) h (omega (arith, small, a)) (omega (arith, small, b)) in
          (if m == "" then trim s else m, rw (full, read, x) refl, rw (full, read, y) refl)
    ]
  ]
  agrees (suc n) (suc k) none h a b = (_, refl, refl)
  agrees (suc n) (suc k) (some (flag f)) h a b = (_, refl, refl)
  agrees (suc n) (suc k) (some (numeral f)) h a b = (_, refl, refl)
  agrees (suc n) (suc k) (some null) h a b = (_, refl, refl)
  agrees (suc n) (suc k) (some (array f)) h a b = (_, refl, refl)
  agrees (suc n) (suc k) (some (object f)) h a b = (_, refl, refl)

  returns :
      (n : ℕ) (v : Option Json) → Shrinks → enough v ≤ n → error_message n v ≡ some (message_of v)
  unfolding message_of
  returns n v h e =
      let (m, x, y) = agrees n (enough v) v h e (omega arith) in
      x ∙ sym (ap (λ o. some (or_blank o)) y)

  abbrev pub read_message : String → Option Json → String
  read_message t none = t
  read_message t (some v) = or_text (message_of (some v)) t

  -- Provided that a text that `JSON.parse` reads out of a text is shorter than it: `errorMessage` returns
  -- on every text after at most two calls more than the text has characters. Of a blank text it gives
  -- the empty one; of a text that cannot be parsed the trimmed text; and of any other text the message
  -- of what is parsed out of it, or the trimmed text when that is empty.
  pub error_message_lem :
      (n : ℕ) (s : String)
      → Shrinks
      → suc (length (chars s)) < n
      → error_message n (some (text s))
        ≡ some (if trim s == "" then "" else read_message (trim s) (parse (trim s)))
  unfolding error_message or_text
  error_message_lem zero s h e = absurd (omega (arith, e))
  error_message_lem (suc n) s h e = elim (Bool-cases (trim s == "")) [
    | inl blank ↦ rw blank refl
    | inr full ↦ elim (Option-cases (parse (trim s))) [
      | inl fails ↦ rw (full, fails) refl
      | inr (w, read) ↦
          rw (full, read, returns n (some w) h (omega (arith, enough_inner s w h read, e))) refl
    ]
  ]
