-- ===== src/Context/Watching.antt =====
-- packages/workbench/src/platform/context-key/context-key-service.ts: `onDidChangeExpression` and the change event. The
-- watchers are the listeners of one scope, in their order; a parent's event is passed on to it.
use zaw.Base.{
  ℕ, zero, suc, ◌≡◌, ◌↔◌, sym, ◌∙◌, subst, refl, ap, Bool, true, false, not, List, [], ◌∷◌, ◌++◌,
  map, All, keep, if◌then◌else◌, arith, eq_refl,
}
use zaw.Context.{Value, ContextKeyService, Scope, bool_eq, ContextKeyExpression, evaluate, has}
use zaw.Context.Service.{ContextKey, set_key, dispose_key}
use zaw.Context.Handles.{IsLive, dispose_key_lem}

pub record Watch : Type 0 where
  pub listener : ℕ
  pub expr : ContextKeyExpression
  pub last_value : Bool

-- The scope and its watchers.
pub record Watched : Type 0 where
  pub scope : Scope
  pub watches : List Watch

unfoldable pub on_did_change_expression : ℕ → ContextKeyExpression → Watched → Watched
on_did_change_expression l e w = record w {
  watches = w.watches ++ record { listener = l; expr = e; last_value = evaluate w.scope e } ∷ [];
}

-- One watcher at a change event.
abbrev pub refresh : Scope → Watch → Watch
refresh s w = record w { last_value = evaluate s w.expr }

abbrev pub is_changed : Scope → Watch → Bool
is_changed s w = not (bool_eq (evaluate s w.expr) w.last_value)

-- The watchers afterwards, and the callbacks made, with their values.
unfoldable pub notify : Scope → List Watch → List Watch × List (ℕ × Bool)
notify s [] = ([], [])
notify s (w ∷ ws) =
    let (ws', calls) = notify s ws in
    if is_changed s w
    then (refresh s w ∷ ws', (w.listener, evaluate s w.expr) ∷ calls)
    else (w ∷ ws', calls)

-- `set` on a key of the n-th service of the chain; the flag says that its change event fires.
unfoldable pub set_at : ℕ → ContextKey → Value → Scope → Scope × Bool
set_at n h v [] = ([], false)
set_at zero h v (s ∷ parents) = let (s', fired) = set_key h v s in (s' ∷ parents, fired)
set_at (suc n) h v (s ∷ parents) =
    let (parents', fired) = set_at n h v parents in (s ∷ parents', fired)

abbrev pub notified : Scope → List Watch × List (ℕ × Bool) → Watched × List (ℕ × Bool)
notified s (ws, calls) = (record { scope = s; watches = ws }, calls)

abbrev pub settle : Bool → Scope → Watched → Watched × List (ℕ × Bool)
settle fired s w = if fired then notified s (notify s w.watches) else (record w { scope = s }, [])

unfoldable pub set_in : ℕ → ContextKey → Value → Watched → Watched × List (ℕ × Bool)
set_in n h v w = let (s, fired) = set_at n h v w.scope in settle fired s w

-- `dispose` of a key's handle fires nothing.
abbrev pub dispose_in : ContextKey → Scope → Scope
dispose_in h [] = []
dispose_in h (s ∷ parents) = dispose_key h s ∷ parents

abbrev pub InSync : Scope → List Watch → Type 0
InSync s ws = All (λ w. w.last_value ≡ evaluate s w.expr) ws

bool_eq_iff : (a b : Bool) → (bool_eq a b ≡ true) ↔ (a ≡ b)
bool_eq_iff true b = ground arith
bool_eq_iff false b = ground arith

notify-InSync : (s : Scope) (ws : List Watch) → InSync s (notify s ws).0
unfolding notify
notify-InSync s [] = tt
notify-InSync s (w ∷ ws) =
    ground (arith, notify-InSync s ws, bool_eq_iff (evaluate s w.expr) w.last_value)

notify_calls :
    (s : Scope) (ws : List Watch)
    → (notify s ws).1 ≡ map (λ w. (w.listener, evaluate s w.expr)) (keep (is_changed s) ws)
unfolding notify keep
notify_calls s [] = refl
notify_calls s (w ∷ ws) = ground (arith, notify_calls s ws)

keep_changed :
    (s t : Scope) (ws : List Watch)
    → InSync s ws
    → keep (is_changed t) ws ≡ keep (λ w. not (bool_eq (evaluate t w.expr) (evaluate s w.expr))) ws
unfolding keep
keep_changed s t [] h = refl
keep_changed s t (w ∷ ws) h = rw (h.0, keep_changed s t ws h.1) refl

set_at_silent :
    (n : ℕ) (h : ContextKey) (v : Value) (s : Scope)
    → (set_at n h v s).1 ≡ false
    → (set_at n h v s).0 ≡ s
unfolding set_at set_key
set_at_silent n h v [] e = ground arith
set_at_silent zero h v (s ∷ parents) e = ground arith
set_at_silent (suc n) h v (s ∷ parents) e = ground (arith, set_at_silent n h v parents)

keep_none :
    (s : Scope) (ws : List Watch)
    → keep (λ w. not (bool_eq (evaluate s w.expr) (evaluate s w.expr))) ws ≡ []
unfolding keep
keep_none s [] = refl
keep_none s (w ∷ ws) =
    ground (arith, keep_none s ws, bool_eq_iff (evaluate s w.expr) (evaluate s w.expr))

abbrev pub Settled : Scope → Watched → Watched × List (ℕ × Bool) → Type 0
Settled new old r =
    InSync new r.0.watches
    × (r.0.scope ≡ new)
    × (r.1
        ≡ map (λ u. (u.listener, evaluate new u.expr))
            (keep (λ u. not (bool_eq (evaluate new u.expr) (evaluate old.scope u.expr)))
              old.watches))

settle_lem :
    (fired : Bool) (new : Scope) (w : Watched)
    → (fired ≡ false → new ≡ w.scope)
    → InSync w.scope w.watches
    → Settled new w (settle fired new w)
settle_lem true new w same sync = (
  notify-InSync new w.watches,
  refl,
  notify_calls new w.watches ∙ ap (map _) (keep_changed w.scope new w.watches sync),
)
settle_lem false new w same sync =
    subst (λ s. Settled s w (settle false s w)) (sym (same refl))
      (sync, refl, sym (ap (map _) (keep_none w.scope w.watches)))

-- After `set` on a key of the scope or of any parent every watcher's last value is its
-- expression's value, if it was so before; and the callbacks made are, in the watchers' order,
-- those whose expression has changed its value, each with the new value.
pub set_in_watchers :
    (n : ℕ) (h : ContextKey) (v : Value) (w : Watched)
    → InSync w.scope w.watches
    → Settled (set_at n h v w.scope).0 w (set_in n h v w)
unfolding set_in
set_in_watchers n h v w sync =
    settle_lem (set_at n h v w.scope).1 (set_at n h v w.scope).0 w (set_at_silent n h v w.scope)
      sync

-- `dispose` makes no callback: if the key is what makes `has` true, a watcher that was in step
-- before is out of step afterwards.
pub dispose_unnoticed :
    (h : ContextKey) (s : ContextKeyService) (parents : Scope) (w : Watch)
    → IsLive h s
    → w.expr ≡ has h.key
    → evaluate (s ∷ parents) (has h.key) ≡ true
    → evaluate parents (has h.key) ≡ false
    → InSync (s ∷ parents) (w ∷ [])
    → ¬ InSync (dispose_in h (s ∷ parents)) (w ∷ [])
unfolding evaluate
dispose_unnoticed h s parents w live e shown hidden sync now =
    ground (arith, (dispose_key_lem h h.key s parents).0 live, eq_refl h.key)
