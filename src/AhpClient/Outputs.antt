-- ===== src/AhpClient/Outputs.antt =====
-- packages/workbench/src/providers/ahp/ahp-client.ts: what the messages of the host do to the terminals.
use package.text.Mathlib.TextLemmas.{append-nil as text_append_nil, append_assoc as text_assoc}
use zaw.Base.{
  String, ◌<>◌, ◌≡◌, refl, sym, ap, ◌∙◌, List, [], ◌∷◌, ◌++◌, map, ◌==◌, if◌then◌else◌, eq_iff,
  eq_refl, All, Bool-cases, Option-cases, inl, inr, Bool, true, false, ◌&&◌, Option, none, some,
  append_assoc, append-nil, subst,
}
use zaw.Base.Dict.{get, get-put}
use zaw.Json.{Json, text, flag, numeral, null, array, object, Fields, lookup}
use zaw.AhpClient.{AhpClient, AgentTerminal, emit_action}
use zaw.AhpClient.Values.{property, text_or}
use zaw.AhpClient.Messages.{
  with_output, with_title, change_terminal, terminal_of, apply_terminal_action, receive,
}

-- A message as the host sends it, with what it holds; what else stands in it is left open.
pub record ActionMessage : Type 0 where
  pub payload : Fields
  pub params : Fields
  pub action : Fields

abbrev pub action_type : ActionMessage → String
action_type m = text_or (lookup "type" m.action) ""

-- The message carries the action, and the action neither replaces the agents or the terminals nor renames
-- one.
pub record IsPlain (m : ActionMessage) : Type 0 where
  pub method_is : lookup "method" m.payload ≡ some (text "action")
  pub params_are : lookup "params" m.payload ≡ some (object m.params)
  pub action_is : lookup "action" m.params ≡ some (object m.action)
  pub agents_stay : (action_type m == "root/agentsChanged") ≡ false
  pub terminals_stay : (action_type m == "root/terminalsChanged") ≡ false
  pub title_stays : (action_type m == "terminal/titleChanged") ≡ false

abbrev pub as_text : Option Json → Option String
as_text (some (text s)) = some s
as_text _ = none

-- The output that the message brings for the terminal `q`.
unfoldable pub piece_for : String → ActionMessage → String
unfolding lookup
piece_for q m = elim (as_text (lookup "channel" m.params)) [
  | none ↦ ""
  | some r ↦
      if (r == q) && (action_type m == "terminal/data")
      then text_or (lookup "data" m.action) ""
      else ""
]

unfoldable pub pieces_for : String → List ActionMessage → String
unfolding piece_for
pieces_for q [] = ""
pieces_for q (m ∷ ms) = piece_for q m <> pieces_for q ms

unfoldable pub receive_all : List Json → AhpClient → AhpClient
unfolding receive
receive_all [] c = c
receive_all (v ∷ vs) c = receive_all vs (receive v c).0

abbrev pub grown : String → Option AgentTerminal → Option AgentTerminal
grown piece none = none
grown piece (some t) = some (record t { output = t.output <> piece })

-- What the messages make of the client `c`.
pub record HasGrown (ms : List ActionMessage) (c after : AhpClient) : Type 0 where
  pub outputs : (q : String) → get q after.terminals ≡ grown (pieces_for q ms) (get q c.terminals)
  pub told : after.emitted ≡ c.emitted ++ map (λ m. object m.params) ms

abbrev pub payload_of : ActionMessage → Json
payload_of m = object m.payload

grown_nothing : (o : Option AgentTerminal) → grown "" o ≡ o
grown_nothing none = refl
grown_nothing (some t) = ap (λ u. some (record t { output = u })) (text_append_nil t.output)

grown-grown : (d e : String) (o : Option AgentTerminal) → grown e (grown d o) ≡ grown (d <> e) o
grown-grown d e none = refl
grown-grown d e (some t) = ap (λ u. some (record t { output = u })) (text_assoc t.output d e)

with_title_kept :
    (type : String) (v : Option Json) (t : AgentTerminal)
    → (type == "terminal/titleChanged") ≡ false
    → with_title type v t ≡ t
with_title_kept type (some (text x)) t h = rw h refl
with_title_kept type none t h = refl
with_title_kept type (some null) t h = refl
with_title_kept type (some (flag b)) t h = refl
with_title_kept type (some (numeral n)) t h = refl
with_title_kept type (some (array vs)) t h = refl
with_title_kept type (some (object fs)) t h = refl

nothing_grown : (b : Bool) (t : AgentTerminal) → some t ≡ grown (if b then "" else "") (some t)
nothing_grown true t = sym (grown_nothing (some t))
nothing_grown false t = sym (grown_nothing (some t))

with_output-grown :
    (type : String) (v : Option Json) (t : AgentTerminal)
    → some (with_output type v t)
      ≡ grown (if type == "terminal/data" then text_or v "" else "") (some t)
with_output-grown type (some (text x)) t = elim (Bool-cases (type == "terminal/data")) [
  | inl data_type ↦ rw data_type refl
  | inr apart ↦ rw apart (sym (grown_nothing (some t)))
]
with_output-grown type none t = nothing_grown (type == "terminal/data") t
with_output-grown type (some null) t = nothing_grown (type == "terminal/data") t
with_output-grown type (some (flag b)) t = nothing_grown (type == "terminal/data") t
with_output-grown type (some (numeral n)) t = nothing_grown (type == "terminal/data") t
with_output-grown type (some (array vs)) t = nothing_grown (type == "terminal/data") t
with_output-grown type (some (object fs)) t = nothing_grown (type == "terminal/data") t

changed_grown :
    (r q type : String) (action : Option Json) (c : AhpClient)
    → (type == "terminal/titleChanged") ≡ false
    → get q (change_terminal r (get r c.terminals) type action c).terminals
      ≡ grown
          (if (r == q) && (type == "terminal/data")
            then text_or (property "data" action) ""
            else "")
          (get q c.terminals)
unfolding change_terminal property
changed_grown r q type action c h = elim (Bool-cases (r == q)) [
  | inl same ↦
      subst
        (λ x.
          get x (change_terminal r (get r c.terminals) type action c).terminals
          ≡ grown
              (if (r == q) && (type == "terminal/data")
                then text_or (property "data" action) ""
                else "")
              (get x c.terminals))
        ((eq_iff r q).0 same)
        (elim (Option-cases (get r c.terminals)) [
          | inl unknown ↦ rw unknown unknown
          | inr (t, known) ↦
              rw
                (
                  known,
                  same,
                  get-put r r,
                  eq_refl r,
                  with_title_kept type (property "title" action)
                      (with_output type (property "data" action) t) h,
                )
                (with_output-grown type (property "data" action) t)
        ])
  | inr apart ↦ elim (Option-cases (get r c.terminals)) [
    | inl unknown ↦ rw (unknown, apart) (sym (grown_nothing (get q c.terminals)))
    | inr (t, known) ↦
        rw (known, apart)
          (get-put r q _ c.terminals ∙ rw apart (sym (grown_nothing (get q c.terminals))))
  ]
]

change_terminal-emitted :
    (r type : String) (o : Option AgentTerminal) (action : Option Json) (c : AhpClient)
    → (change_terminal r o type action c).emitted ≡ c.emitted
unfolding change_terminal
change_terminal-emitted r type none action c = refl
change_terminal-emitted r type (some t) action c = refl

applied_grown :
    (m : ActionMessage) (q : String) (c : AhpClient) (v : Option Json)
    → (action_type m == "terminal/titleChanged") ≡ false
    → get q
        (change_terminal
          (text_or v "")
          (terminal_of v c.terminals)
          (action_type m)
          (some (object m.action))
          c).terminals
      ≡ grown
          (elim (as_text v) [
            | none ↦ ""
            | some r ↦
                if (r == q) && (action_type m == "terminal/data")
                then text_or (lookup "data" m.action) ""
                else ""
          ])
          (get q c.terminals)
unfolding property change_terminal terminal_of
applied_grown m q c (some (text r)) h =
    changed_grown r q (action_type m) (some (object m.action)) c h
applied_grown m q c none h = sym (grown_nothing _)
applied_grown m q c (some null) h = sym (grown_nothing _)
applied_grown m q c (some (flag b)) h = sym (grown_nothing _)
applied_grown m q c (some (numeral n)) h = sym (grown_nothing _)
applied_grown m q c (some (array vs)) h = sym (grown_nothing _)
applied_grown m q c (some (object fs)) h = sym (grown_nothing _)

receive_plain :
    (m : ActionMessage) (c : AhpClient)
    → IsPlain m
    → (receive (payload_of m) c).0
      ≡ emit_action (object m.params) (
          change_terminal
            (text_or (lookup "channel" m.params) "")
            (terminal_of (lookup "channel" m.params) c.terminals)
            (action_type m)
            (some (object m.action))
            c)
unfolding receive property apply_terminal_action
receive_plain m c h =
    rw (h.method_is, h.params_are, h.action_is, h.agents_stay, h.terminals_stay) refl

receive_grown :
    (m : ActionMessage) (c : AhpClient)
    → IsPlain m
    → HasGrown (m ∷ []) c (receive (payload_of m) c).0
unfolding pieces_for piece_for emit_action
receive_grown m c h = subst (HasGrown (m ∷ []) c) (sym (receive_plain m c h)) (record {
  outputs = λ q.
      applied_grown m q c (lookup "channel" m.params) h.title_stays
      ∙ ap (λ p. grown p (get q c.terminals)) (sym (text_append_nil _));
  told = ap (λ es. es ++ object m.params ∷ []) (change_terminal-emitted _ (action_type m) _ _ c);
})

-- Messages that carry actions, in their order, whatever else stands in them and whichever terminals they are
-- for: each terminal that the client knows has got the output of the messages for it, one piece after the
-- other, no terminal is added, and the listeners get the parameters of every message as they came and in
-- order. Left out are the messages that replace the agents or the terminals or rename a terminal.
pub receive_all_lem :
    (ms : List ActionMessage) (c : AhpClient)
    → All IsPlain ms
    → HasGrown ms c (receive_all (map payload_of ms) c)
unfolding receive_all pieces_for
receive_all_lem [] c h = record {
  outputs = λ q. sym (grown_nothing (get q c.terminals));
  told = sym (append-nil c.emitted);
}
receive_all_lem (m ∷ ms) c h =
    let next = (receive (payload_of m) c).0 in
    let first = receive_grown m c h.0 in
    let rest = receive_all_lem ms next h.1 in
    record {
      outputs = λ q.
          rest.outputs q
          ∙ ap (grown (pieces_for q ms)) (first.outputs q)
          ∙ grown-grown _ (pieces_for q ms) (get q c.terminals)
          ∙ ap (λ p. grown (p <> pieces_for q ms) (get q c.terminals))
              (text_append_nil (piece_for q m));
      told =
          rest.told
          ∙ ap (λ es. es ++ map (λ x. object x.params) ms) first.told
          ∙ append_assoc c.emitted (object m.params ∷ []) _;
    }
