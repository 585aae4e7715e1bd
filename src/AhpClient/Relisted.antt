-- ===== src/AhpClient/Relisted.antt =====
-- packages/workbench/src/providers/ahp/ahp-client.ts: the terminals that the host lists anew.
use zaw.Base.{String, ◌≡◌, refl, List, [], ◌∷◌, arith, All, Option, none, some}
use zaw.Base.Dict.{get, put}
use zaw.Json.{Json, Elements, text, flag, numeral, null, array, object, Fields, lookup, elements}
use zaw.AhpClient.{AhpClient, AgentTerminal}
use zaw.AhpClient.Values.{object_value}
use zaw.AhpClient.Messages.{output_of, put_listed, listed_terminals, replace_terminals}

-- A listed terminal stands under its own name and has kept its output.
abbrev pub KeepsOutput : List (String × AgentTerminal) → String × AgentTerminal → Type 0
KeepsOutput old e = (e.1.resource ≡ e.0) × (e.1.output ≡ output_of (get e.0 old))

All-put :
    (old : List (String × AgentTerminal)) (k : String) (t : AgentTerminal)
    (next : List (String × AgentTerminal))
    → KeepsOutput old (k, t)
    → All (KeepsOutput old) next
    → All (KeepsOutput old) (put k t next)
unfolding put
All-put old k t [] h a = (h, tt)
All-put old k t ((j, u) ∷ next) h a = ground (arith, All-put old k t next h a.1)

put_listed-KeepsOutput :
    (old : List (String × AgentTerminal)) (item : Fields) (r : Option Json)
    (next : List (String × AgentTerminal))
    → All (KeepsOutput old) next
    → All (KeepsOutput old) (put_listed old item r next)
unfolding put_listed
put_listed-KeepsOutput old item (some (text r)) next h = All-put old r _ next (refl, refl) h
put_listed-KeepsOutput old item none next h = h
put_listed-KeepsOutput old item (some null) next h = h
put_listed-KeepsOutput old item (some (flag b)) next h = h
put_listed-KeepsOutput old item (some (numeral n)) next h = h
put_listed-KeepsOutput old item (some (array vs)) next h = h
put_listed-KeepsOutput old item (some (object fs)) next h = h

listed-KeepsOutput :
    (old : List (String × AgentTerminal)) (vs : List Json) (next : List (String × AgentTerminal))
    → All (KeepsOutput old) next
    → All (KeepsOutput old) (listed_terminals old vs next)
unfolding listed_terminals
listed-KeepsOutput old [] next h = h
listed-KeepsOutput old (v ∷ vs) next h = listed-KeepsOutput old vs _ (
    put_listed-KeepsOutput old (object_value (some v)) (lookup "resource" (object_value (some v)))
      next h)

-- When the host lists its terminals anew, each of them stands under its own name with the output that the
-- client had for it, which is nothing for a new one.
pub replace_terminals-KeepsOutput :
    (vs : Elements) (c : AhpClient)
    → All (KeepsOutput c.terminals) (replace_terminals (some (array vs)) c).terminals
unfolding replace_terminals
replace_terminals-KeepsOutput vs c = listed-KeepsOutput c.terminals (elements vs) [] tt
