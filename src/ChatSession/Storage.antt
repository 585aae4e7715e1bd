-- ===== src/ChatSession/Storage.antt =====
-- packages/workbench/src/services/chat-session.ts: `restore`, `persist` and `isChatAttachment`.
use zaw.Base.{
  String, ◌≡◌, refl, ap, ◌∙◌, Bool, true, List, [], ◌∷◌, Option, none, some, ◌==◌, if◌then◌else◌,
}
use zaw.Json.{
  Json, text, array, object, Elements, finish, element, end, entry, lookup, elements, string_value,
  record_value, field_of, array_value,
}
use zaw.ChatSession.{
  ChatComposition, ChatAttachment, ApprovalMode, allow, ask, autopilot, Mode, agent_mode, ask_mode,
  plan_mode, DisplayKind, document, image, or_else,
}

abbrev pub approval_text : ApprovalMode → String
approval_text allow = "allow"
approval_text ask = "ask"
approval_text autopilot = "autopilot"

abbrev pub mode_text : Mode → String
mode_text agent_mode = "agent"
mode_text ask_mode = "ask"
mode_text plan_mode = "plan"

abbrev pub display_kind_text : DisplayKind → String
display_kind_text document = "document"
display_kind_text image = "image"

abbrev pub attachment_json : ChatAttachment → Json
attachment_json a = object (
    entry "type" (text "embeddedResource") (
      entry "label" (text a.label) (
        entry "data" (text a.data_text) (
          entry "contentType" (text a.content_type)
            (entry "displayKind" (text (display_kind_text a.display_kind)) end)))))

abbrev pub attachments_json : List ChatAttachment → Elements
attachments_json [] = finish
attachments_json (a ∷ rest) = element (attachment_json a) (attachments_json rest)

unfoldable pub persist : ChatComposition → Json
persist c = object (
    entry "agent" (text c.agent) (
      entry "approvalMode" (text (approval_text c.approval_mode)) (
        entry "attachments" (array (attachments_json c.attachments)) (
          entry "draft" (text c.draft) (
            entry "model" (text c.model)
              (entry "mode" (text (mode_text (or_else c.mode agent_mode))) end))))))

abbrev pub approval_mode_of : String → ApprovalMode
approval_mode_of s = if s == "allow" then allow else if s == "autopilot" then autopilot else ask

abbrev pub mode_of : String → Mode
mode_of s = if s == "ask" then ask_mode else if s == "plan" then plan_mode else agent_mode

abbrev pub display_kind_of : Option Json → Option DisplayKind
display_kind_of (some (text s)) =
    if s == "document" then some document else if s == "image" then some image else none
display_kind_of _ = none

abbrev pub text_of : Option Json → Option String
text_of (some (text s)) = some s
text_of _ = none

abbrev pub attachment_with :
    Bool
    → Option String
    → Option String
    → Option String
    → Option DisplayKind
    → Option ChatAttachment
attachment_with true (some l) (some d) (some c) (some k) =
    some (record { label = l; data_text = d; content_type = c; display_kind = k })
attachment_with _ _ _ _ _ = none

-- `isChatAttachment`, with the attachment it finds.
unfoldable pub is_chat_attachment : Json → Option ChatAttachment
unfolding record_value field_of string_value
is_chat_attachment v =
    let r = record_value (some v) in
    attachment_with (string_value (field_of "type" r) == "embeddedResource")
      (text_of (field_of "label" r)) (text_of (field_of "data" r))
      (text_of (field_of "contentType" r)) (display_kind_of (field_of "displayKind" r))

abbrev pub with_attachment : Option ChatAttachment → List ChatAttachment → List ChatAttachment
with_attachment none rest = rest
with_attachment (some a) rest = a ∷ rest

unfoldable pub chat_attachments : List Json → List ChatAttachment
unfolding is_chat_attachment
chat_attachments [] = []
chat_attachments (v ∷ vs) = with_attachment (is_chat_attachment v) (chat_attachments vs)

-- A stored value that is `null` or no object has none of the fields; `null` throws, with the empty
-- composition as the result too.
unfoldable pub restore : Option Json → ChatComposition
unfolding record_value field_of string_value array_value chat_attachments
restore v =
    let r = record_value v in
    record {
      agent = string_value (field_of "agent" r);
      mode = some (mode_of (string_value (field_of "mode" r)));
      approval_mode = approval_mode_of (string_value (field_of "approvalMode" r));
      attachments = chat_attachments (array_value (field_of "attachments" r));
      draft = string_value (field_of "draft" r);
      model = string_value (field_of "model" r);
      reasoning_effort = string_value (field_of "reasoningEffort" r);
    }

attachment_again : (a : ChatAttachment) → is_chat_attachment (attachment_json a) ≡ some a
unfolding is_chat_attachment lookup
attachment_again a =
    ap (attachment_with true (some a.label) (some a.data_text) (some a.content_type))
      (kind a.display_kind)
  where
    kind : (k : DisplayKind) → display_kind_of (some (text (display_kind_text k))) ≡ some k
    kind document = refl
    kind image = refl

attachments_again :
    (rest : List ChatAttachment) → chat_attachments (elements (attachments_json rest)) ≡ rest
unfolding chat_attachments elements
attachments_again [] = refl
attachments_again (a ∷ rest) = rw (attachment_again a) (ap (◌∷◌ a) (attachments_again rest))

mode_again : (m : Mode) → mode_of (mode_text m) ≡ m
mode_again agent_mode = refl
mode_again ask_mode = refl
mode_again plan_mode = refl

approval_again : (m : ApprovalMode) → approval_mode_of (approval_text m) ≡ m
approval_again allow = refl
approval_again ask = refl
approval_again autopilot = refl

-- A composition that was stored comes back as it was, and a missing mode as `agent`; the reasoning
-- effort alone is lost.
pub restore-persist :
    (c : ChatComposition)
    → restore (some (persist c))
      ≡ record c { mode = some (or_else c.mode agent_mode); reasoning_effort = "" }
unfolding restore persist lookup
restore-persist c =
    ap
      (λ m. record stripped {
        mode = some m;
        approval_mode = approval_mode_of (approval_text c.approval_mode);
        attachments = chat_attachments (elements (attachments_json c.attachments));
      })
      (mode_again (or_else c.mode agent_mode))
    ∙ ap
        (λ m. record stripped {
          approval_mode = m;
          attachments = chat_attachments (elements (attachments_json c.attachments));
        })
        (approval_again c.approval_mode)
    ∙ ap (λ l. record stripped { attachments = l }) (attachments_again c.attachments)
  where
    stripped : ChatComposition
    stripped = record c { mode = some (or_else c.mode agent_mode); reasoning_effort = "" }
