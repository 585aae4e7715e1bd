-- ===== src/Terminal/Output.antt =====
-- packages/workbench/src/contrib/terminal/terminal-service.ts: the output of the terminals, and what
-- is sent to the host.
use zaw.Base.{
  String, ◌<>◌, ◌≡◌, refl, sym, ap, ◌∙◌, Bool, true, false, List, [], ◌∷◌, map, ◌==◌, if◌then◌else◌,
  arith, eq_iff, Bool-cases, inl, inr,
}
use text.Mathlib.TextLemmas.{append-nil as text_append_nil, append_assoc as text_assoc}
use zaw.Terminal.{TerminalState, TerminalService, append_output, appended, is_terminal}

-- What the terminals of that resource have put out.
pub outputs_of : String → List TerminalState → List String
outputs_of q [] = []
outputs_of q (t ∷ ts) = if is_terminal q t then t.output ∷ outputs_of q ts else outputs_of q ts

pub joined : List String → String
joined [] = ""
joined (d ∷ ds) = d <> joined ds

pub stream : String → List String → TerminalService → TerminalService
stream r [] s = s
stream r (d ∷ ds) s = stream r ds (append_output r d s)

abbrev pub after : String → List String → List String
after d os = map (λ o. o <> d) os

outputs_of-appended :
    (q r d : String) (ts : List TerminalState)
    → outputs_of q (map (appended r d) ts)
      ≡ (if r == q then after d (outputs_of q ts) else outputs_of q ts)
unfolding outputs_of
outputs_of-appended q r d [] = ground arith
outputs_of-appended q r d (t ∷ ts) =
    ground
      (arith, outputs_of-appended q r d ts, eq_iff t.resource r, eq_iff t.resource q, eq_iff r q)

after_nothing : (os : List String) → after "" os ≡ os
after_nothing [] = refl
after_nothing (o ∷ os) =
    ap (λ p. p ∷ after "" os) (text_append_nil o) ∙ ap (◌∷◌ o) (after_nothing os)

after_both : (d e : String) (os : List String) → after e (after d os) ≡ after (d <> e) os
after_both d e [] = refl
after_both d e (o ∷ os) =
    ap (λ p. p ∷ after e (after d os)) (text_assoc o d e)
    ∙ ap (◌∷◌ (o <> (d <> e))) (after_both d e os)

blank_after :
    (b : Bool) (d : String) (os : List String) → d ≡ "" → os ≡ (if b then after d os else os)
blank_after true d os h = sym (ap (λ e. after e os) h ∙ after_nothing os)
blank_after false d os h = refl

if-true : (b : Bool) (x y : List String) → b ≡ true → (if b then x else y) ≡ x
if-true b x y h = rw h refl

if-false : (b : Bool) (x y : List String) → b ≡ false → (if b then x else y) ≡ y
if-false b x y h = rw h refl

outputs_of-append_output :
    (q r d : String) (s : TerminalService)
    → outputs_of q (append_output r d s).terminals
      ≡ (if r == q then after d (outputs_of q s.terminals) else outputs_of q s.terminals)
unfolding append_output
outputs_of-append_output q r d s = elim (Bool-cases (d == "")) [
  | inl blank ↦ rw blank (blank_after (r == q) d (outputs_of q s.terminals) ((eq_iff d "").0 blank))
  | inr given ↦ rw given (outputs_of-appended q r d s.terminals)
]

-- Output that comes in any pieces, empty ones among them, is put after what the terminal had, in its
-- order; what the other terminals have put out stays as it is.
pub outputs_of-stream :
    (q r : String) (ds : List String) (s : TerminalService)
    → outputs_of q (stream r ds s).terminals
      ≡ (if r == q then after (joined ds) (outputs_of q s.terminals) else outputs_of q s.terminals)
unfolding stream joined
outputs_of-stream q r [] s = elim (Bool-cases (r == q)) [
  | inl same ↦ rw same (sym (after_nothing (outputs_of q s.terminals)))
  | inr other ↦ rw other refl
]
outputs_of-stream q r (d ∷ ds) s =
    outputs_of-stream q r ds (append_output r d s) ∙ (elim (Bool-cases (r == q)) [
      | inl same ↦ rw same (
          ap (after (joined ds)) (outputs_of-append_output q r d s ∙ if-true (r == q) _ _ same)
          ∙ after_both d (joined ds) (outputs_of q s.terminals))
      | inr other ↦ rw other (outputs_of-append_output q r d s ∙ if-false (r == q) _ _ other)
    ])
