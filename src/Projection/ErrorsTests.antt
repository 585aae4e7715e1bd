-- ===== src/Projection/ErrorsTests.antt =====
-- Results of tool calls, and the theorem on error messages at a concrete text.
use zaw.Base.{
  false, ◌≡◌, refl, sym, ap, ◌∙◌, subst, String, Option, none, some, is_some, ◌==◌, if◌then◌else◌,
  keep, length, ◌<◌, arith, Bool-cases, inl, inr, eq_iff,
}
use zaw.Base.Text.{chars, trim, without_leading, without_trailing}
use zaw.Json.{Json, text, flag, array, object, entry, end, element, finish}
use zaw.Projection.Errors.{
  error_message, error_message_lem, read_message, tool_result_detail, tool_result_content,
  message_of, join_lines, Shrinks,
}

-- `JSON.parse`, of a single text that it reads.
abbrev parse_no : String → Option Json
parse_no t = if t == "\"no\"" then some (text "no") else none

abbrev said : Option Json → String
said (some (text u)) = u
said _ = ""

parse_no-Shrinks : Shrinks parse_no
parse_no-Shrinks t u e = elim (Bool-cases (t == "\"no\"")) [
  | inl same ↦
      let known : said (parse_no t) ≡ "no" = rw same refl in
      subst (λ x. length (chars u) < length (chars x)) (sym ((eq_iff t "\"no\"").0 same))
        (subst (λ x. length (chars x) < 4) (sym known ∙ ap said e) (ground arith))
  | inr apart ↦
      let unread : is_some (parse_no t) ≡ false = rw apart refl in
      absurd (ground (arith, unread, ap is_some e))
]

quoted_test : message_of parse_no (some (text " \"no\" ")) ≡ "no"
unfolding message_of error_message trim without_leading without_trailing
quoted_test = refl

detail_test :
    tool_result_detail parse_no (
      some (
        entry "success" (flag false) (
          entry "content"
            (array (
              element
                (text "a")
                (element (object (entry "text" (text "b") end)) (element (text "") finish))))
            end)))
    ≡ "a\nb"
unfolding tool_result_detail tool_result_content message_of error_message join_lines keep
detail_test = refl

error_message_lem_example :
    error_message parse_no 10 (some (text " \"no\" "))
    ≡ some (
        if trim " \"no\" " == ""
        then ""
        else read_message parse_no (trim " \"no\" ") (parse_no (trim " \"no\" ")))
error_message_lem_example = error_message_lem parse_no 10 " \"no\" " parse_no-Shrinks (ground arith)
