-- ===== src/Projection/DispatchTests.antt =====
-- Actions of a channel that belongs to a session, and the theorems at concrete inputs.
use zaw.Base.{ℕ, ◌<>◌, ◌++◌, ◌≡◌, refl, String, false, [], ◌∷◌, none, some, any}
use zaw.Base.Dict.{get}
use zaw.Json.{Fields, text, object, entry, end, lookup, string_value, record_value, field_of}
use zaw.ActiveSession.{SessionIdentity}
use zaw.ChatSession.{ChatSession, message, tool, Role}
use zaw.ChatSession.Service.{events, active_turn}
use zaw.ChatSession.Others.{SameFor}
use zaw.Projection.{Texts}
use zaw.Projection.Tools.{start}
use zaw.Projection.Dispatch.{
  Projection, ActionType, chat_turn_started, chat_delta, chat_response_part, chat_tool, project,
  project_attached, project_unattached, project_chat, project_tool, project_part, greeted,
  then_tool, replaced,
}
use zaw.Projection.Isolated.{belongs, project-SameFor}
use zaw.Projection.Streaming.{IsPiece, Piece, delta_piece, part_piece, answered, ended, ended_lem}
use zaw.ChatSession.Events.{joined}
use zaw.Workspace.Resources.{initial}

abbrev plain_texts : Texts
plain_texts = record {
  tool_invocation_detail = λ cs. "detail";
  tool_result_detail = λ r. "result";
  tool_call_summary = λ n i. "";
  stringify = λ v. "";
  is_permission = λ s. false;
}

abbrev in_digits : ℕ → String
in_digits n = "1"

abbrev no_sessions : ChatSession
no_sessions = record {
  compositions = [];
  active_turns = [];
  messages = [];
  stored = [];
  current = some (record { workspace_id = "w"; resource = "r" });
  turn_context = false;
  approval_context = false;
}

abbrev started : Fields
started = entry "turnId" (text "t") (entry "message" (object (entry "text" (text "Hello") end)) end)

abbrev answered_fields : Fields
answered_fields = entry "partId" (text "p") (entry "content" (text "Hi") end)

abbrev opened : Fields
opened = entry "toolCallId" (text "c") (entry "displayName" (text "Run") end)

abbrev before : Projection
before = record {
  turns = record { active_turns = []; response_segments = [] };
  terminals = record {
    terminals = [];
    active_terminal = none;
    panel_height = 300;
    reattach_generation = 0;
    active_context = false;
    group = record {
      is_open = false;
      collapsed = false;
      panel_visible = false;
      open_context = false;
    };
  };
  resources = initial;
  chat = no_sessions;
}

on_channel : ActionType → Fields → Projection → Projection
unfolding project
on_channel type a s = project plain_texts in_digits (λ v. "") (some "r") "w" "ch" type a s

abbrev own : SessionIdentity
own = record { workspace_id = "w"; resource = "r" }

abbrev other_session : SessionIdentity
other_session = record { workspace_id = "w"; resource = "q" }

-- A turn starts, answers, calls a tool and answers again.
turn_test :
    events own
      (on_channel chat_delta answered_fields (
        on_channel (chat_tool start) opened (
          on_channel chat_delta answered_fields
            (on_channel chat_turn_started started before)))).chat
    ≡ message (some "t:user") Role.user "Hello"
      ∷ message (some "t:p") Role.agent "Hi"
      ∷ tool
          (record { tool_call_id = "c"; title = "Run"; summary = some ""; detail = "" })
          "streaming"
      ∷ message (some "t:p:segment-1") Role.agent "Hi"
      ∷ []
unfolding on_channel project project_attached project_unattached project_chat project_tool
    project_part greeted then_tool replaced events get
turn_test = refl

other_is_apart : belongs (some "r") "w" other_session ≡ false
unfolding belongs
other_is_apart = refl

project-SameFor_example :
    SameFor other_session before.chat
      (project plain_texts in_digits
        (λ v. "")
        (some "r")
        "w"
        "ch"
        chat_turn_started
        started
        before).chat
project-SameFor_example =
    project-SameFor plain_texts in_digits (λ v. "") (some "r") "w" "ch" chat_turn_started started
      before other_session other_is_apart

opening_is : IsPiece "p" "Hi" chat_delta answered_fields
unfolding lookup
opening_is = delta_piece answered_fields refl refl

abbrev opening_piece : Piece "p"
opening_piece = record {
  content = "Hi";
  type = chat_delta;
  fields = answered_fields;
  is = opening_is;
}

abbrev whole_part : Fields
whole_part =
    entry "kind" (text "markdown") (entry "id" (text "p") (entry "content" (text " there") end))

abbrev part_fields : Fields
part_fields = entry "part" (object whole_part) end

closing_is : IsPiece "p" " there" chat_response_part part_fields
unfolding lookup
closing_is = part_piece part_fields whole_part refl refl refl refl

abbrev closing_piece : Piece "p"
closing_piece = record {
  content = " there";
  type = chat_response_part;
  fields = part_fields;
  is = closing_is;
}

ended_lem_example :
    (events own
        (ended plain_texts in_digits
          (λ v. "")
          "r"
          "w"
          "ch"
          end
          started
          (opening_piece ∷ closing_piece ∷ [])
          before).chat
      ≡ (events own before.chat ++ message (some ("t" <> ":user")) Role.user "Hello" ∷ [])
        ++ message (some ("t" <> (":" <> "p"))) Role.agent (joined "Hi" (" there" ∷ [])) ∷ [])
    × (active_turn own
          (answered plain_texts in_digits
            (λ v. "")
            "r"
            "w"
            "ch"
            started
            (opening_piece ∷ closing_piece ∷ [])
            before).chat
        ≡ some "t")
    × (active_turn own
          (ended plain_texts in_digits
            (λ v. "")
            "r"
            "w"
            "ch"
            end
            started
            (opening_piece ∷ closing_piece ∷ [])
            before).chat
        ≡ none)
unfolding lookup string_value record_value field_of events any
ended_lem_example =
    ended_lem plain_texts in_digits (λ v. "") "r" "w" "ch" started end "t" "p" "Hello" opening_piece
      (closing_piece ∷ []) before refl refl refl refl refl refl refl
