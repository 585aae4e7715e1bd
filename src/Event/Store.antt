-- ===== src/Event/Store.antt =====
-- packages/ui/src/widgets/event.ts: `DisposableStore`. A disposable is its number; the log lists the
-- calls of `dispose` that the store has made, oldest first.
use zaw.Base.{
  ℕ, ◌≡◌, refl, Bool, true, false, ap, List, [], ◌∷◌, ◌++◌, if◌then◌else◌, append_assoc, append-nil,
  sym, ◌∙◌,
}

pub record Store : Type 0 where
  pub disposables : List ℕ
  pub is_disposed : Bool
  pub log : List ℕ

abbrev pub empty : Store
empty = record { disposables = []; is_disposed = false; log = [] }

-- `disposables` is kept with its last element first, as `push` and `pop` see it.
unfoldable pub add : ℕ → Store → Store
add d s =
    if s.is_disposed
    then record s { log = s.log ++ d ∷ [] }
    else record s { disposables = d ∷ s.disposables }

-- The loop: while something is left, pop it and dispose it.
unfoldable pub drain : List ℕ → List ℕ → List ℕ
drain [] log = log
drain (d ∷ ds) log = drain ds (log ++ d ∷ [])

unfoldable pub dispose_all : Store → Store
dispose_all s =
    if s.is_disposed
    then s
    else record { disposables = []; is_disposed = true; log = drain s.disposables s.log }

pub data Op : Type 0 where
  adds : ℕ → Op
  disposes : Op

unfoldable pub run : List Op → Store → Store
run [] s = s
run (adds d ∷ ops) s = run ops (add d s)
run (disposes ∷ ops) s = run ops (dispose_all s)

-- What a history asks for: nothing is disposed before the first `dispose`, which disposes what was
-- added before it in reverse order; later additions are disposed at once.
abbrev pub late : List Op → List ℕ
late [] = []
late (adds d ∷ ops) = d ∷ late ops
late (disposes ∷ ops) = late ops

abbrev pub expected : List ℕ → List Op → List ℕ
expected held [] = []
expected held (adds d ∷ ops) = expected (d ∷ held) ops
expected held (disposes ∷ ops) = held ++ late ops

drain_lem : (ds log : List ℕ) → drain ds log ≡ log ++ ds
unfolding drain
drain_lem [] log = sym (append-nil log)
drain_lem (d ∷ ds) log = drain_lem ds (log ++ d ∷ []) ∙ append_assoc log (d ∷ []) ds

add_disposed :
    (d : ℕ) (s : Store) → s.is_disposed ≡ true → add d s ≡ record s { log = s.log ++ d ∷ [] }
unfolding add
add_disposed d s h = rw h

add_open :
    (d : ℕ) (s : Store)
    → s.is_disposed ≡ false
    → add d s ≡ record s { disposables = d ∷ s.disposables }
unfolding add
add_open d s h = rw h

dispose_all_disposed : (s : Store) → s.is_disposed ≡ true → dispose_all s ≡ s
unfolding dispose_all
dispose_all_disposed s h = rw h

dispose_all_open :
    (s : Store)
    → s.is_disposed ≡ false
    → dispose_all s ≡ record { disposables = []; is_disposed = true; log = s.log ++ s.disposables }
unfolding dispose_all
dispose_all_open s h = rw (h, drain_lem s.disposables s.log)

run_disposed :
    (ops : List Op) (s : Store) → s.is_disposed ≡ true → (run ops s).log ≡ s.log ++ late ops
unfolding run
run_disposed [] s h = sym (append-nil s.log)
run_disposed (adds d ∷ ops) s h =
    ap (λ t. (run ops t).log) (add_disposed d s h)
    ∙ run_disposed ops (record s { log = s.log ++ d ∷ [] }) h
    ∙ append_assoc s.log (d ∷ []) (late ops)
run_disposed (disposes ∷ ops) s h =
    ap (λ t. (run ops t).log) (dispose_all_disposed s h) ∙ run_disposed ops s h

-- Whatever the history, nothing is disposed before the first `dispose`; that one disposes all that
-- the store holds, last added first; and what is added later is disposed at once. So each addition
-- is disposed at most once, and exactly once if the store is ever disposed.
pub run_log :
    (ops : List Op) (s : Store)
    → s.is_disposed ≡ false
    → (run ops s).log ≡ s.log ++ expected s.disposables ops
unfolding run
run_log [] s h = sym (append-nil s.log)
run_log (adds d ∷ ops) s h =
    ap (λ t. (run ops t).log) (add_open d s h)
    ∙ run_log ops (record s { disposables = d ∷ s.disposables }) h
run_log (disposes ∷ ops) s h =
    ap (λ t. (run ops t).log) (dispose_all_open s h)
    ∙ run_disposed ops _ refl
    ∙ append_assoc s.log s.disposables (late ops)
