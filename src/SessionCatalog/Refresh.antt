-- ===== src/SessionCatalog/Refresh.antt =====
-- packages/workbench/src/contrib/sessions/session-catalog-service.ts: which answers are used, when
-- requests overlap.
use zaw.Base.{
  ℕ, zero, suc, ◌+◌, ◌-◌, ◌≤◌, ◌<◌, String, ◌≡◌, refl, ◌∙◌, Bool, true, false, not, List, [], ◌∷◌,
  none, some, ltb, ◌==◌, if◌then◌else◌, any, All, All-imp, arith, length, take, get_elem?, eq_iff,
  Bool-cases, inl, inr,
}
use zaw.Base.Dict.{put, values, get-put}
use zaw.SessionCatalog.{
  SessionCatalogItem, SessionCatalogService, Catalog, Scope, refresh, refresh_provider, accepts,
  answer, apply_scope, apply_provider, apply, add,
}
use zaw.ActiveSession.{SessionIdentity}

pub data Event : Type 0 where
  asks : Scope → Event
  answers : Scope → ℕ → List SessionCatalogItem → Event
  adds : SessionIdentity → String → Event

abbrev pub ask : Scope → SessionCatalogService → SessionCatalogService
ask none s = refresh s
ask (some p) s = refresh_provider p s

-- The requests of a history, its last one first: the serial of a request is how many there are
-- from it on.
abbrev pub asked : Event → List Scope → List Scope
asked (asks scope) xs = scope ∷ xs
asked (answers scope n items) xs = xs
asked (adds i t) xs = xs

unfoldable pub step :
    (Catalog → Catalog → Bool) → Event → SessionCatalogService → SessionCatalogService
step same (asks scope) s = ask scope s
step same (answers scope n items) s = (answer same scope n items s).0
step same (adds i t) s = add i t s

pub data Reach (same : Catalog → Catalog → Bool) : List Scope → SessionCatalogService → Type 0 where
  start :
      (s : SessionCatalogService)
      → s.refresh_serial ≡ 0
      → s.latest_all_refresh ≡ 0
      → s.latest_provider_refresh ≡ []
      → Reach same [] s
  next :
      {xs : List Scope} {s : SessionCatalogService} (e : Event)
      → Reach same xs s
      → Reach same (asked e xs) (step same e s)

-- Two requests overlap unless they ask two different providers.
abbrev pub overlaps : Scope → Scope → Bool
overlaps (some p) (some q) = p == q
overlaps _ _ = true

-- The serial of the request that `d` requests have followed.
abbrev pub serial_of : ℕ → List Scope → ℕ
serial_of d xs = length xs - d

record Counts (xs : List Scope) (s : SessionCatalogService) : Type 0 where
  serial : s.refresh_serial ≡ length xs
  all_below : s.latest_all_refresh ≤ length xs
  providers_below : All (λ k. k ≤ length xs) (values s.latest_provider_refresh)
  accepted :
      (d : ℕ) (scope : Scope)
      → get_elem? xs d ≡ some scope
      → accepts scope (serial_of d xs) s ≡ not (any (overlaps scope) (take d xs))

All-put :
    (p : String) (v b : ℕ) (m : List (String × ℕ))
    → All (λ k. k ≤ b) (values m)
    → v ≤ b
    → All (λ k. k ≤ b) (values (put p v m))
unfolding put
All-put p v b [] h k = (k, tt)
All-put p v b ((q, w) ∷ m) h k = elim (Bool-cases (q == p)) [
  | inl same ↦ rw same (k, h.1)
  | inr other ↦ rw other (h.0, All-put p v b m h.1 k)
]

any-put :
    (p : String) (v n : ℕ) (m : List (String × ℕ))
    → n < v
    → any (λ k. ltb n k) (values (put p v m)) ≡ true
unfolding put any
any-put p v n [] h = ground arith
any-put p v n ((q, w) ∷ m) h = ground (arith, any-put p v n m h)

any-none_above : (n : ℕ) (ks : List ℕ) → All (λ k. k ≤ n) ks → any (λ k. ltb n k) ks ≡ false
unfolding any
any-none_above n [] h = refl
any-none_above n (k ∷ ks) h = ground (arith, h.0, any-none_above n ks h.1)

place_below :
    (xs : List Scope) (d : ℕ) (scope : Scope) → get_elem? xs d ≡ some scope → d < length xs
place_below [] d scope h = cc
place_below (x ∷ xs) zero scope h = omega arith
place_below (x ∷ xs) (suc d) scope h = omega (arith, place_below xs d scope h)

serial_of-suc : (d : ℕ) (y : Scope) (xs : List Scope) → serial_of (suc d) (y ∷ xs) ≡ serial_of d xs
serial_of-suc d y xs = omega arith

refresh-Counts :
    (xs : List Scope) (s : SessionCatalogService) → Counts xs s → Counts (none ∷ xs) (refresh s)
unfolding refresh accepts any
refresh-Counts xs s c = record {
  serial = omega (arith, c.serial);
  all_below = omega (arith, c.serial);
  providers_below = All-imp _ _ _ (λ k h. omega (arith, h)) c.providers_below;
  accepted = go;
}
  where
    go :
        (d : ℕ) (scope : Scope)
        → get_elem? (none ∷ xs) d ≡ some scope
        → accepts scope (serial_of d (none ∷ xs)) (refresh s)
          ≡ not (any (overlaps scope) (take d (none ∷ xs)))
    go zero none h = ground (
      arith,
      c.serial,
      any-none_above (suc (length xs)) (values s.latest_provider_refresh)
          (All-imp _ _ _ (λ k h. omega (arith, h)) c.providers_below),
    )
    go zero (some p) h = cc
    go (suc d) none h = ground (arith, c.serial, place_below xs d none h)
    go (suc d) (some p) h = ground (arith, c.serial, place_below xs d (some p) h)

refresh_provider-Counts :
    (q : String) (xs : List Scope) (s : SessionCatalogService)
    → Counts xs s
    → Counts (some q ∷ xs) (refresh_provider q s)
unfolding refresh_provider accepts any
refresh_provider-Counts q xs s c = record {
  serial = omega (arith, c.serial);
  all_below = omega (arith, c.all_below);
  providers_below =
      All-put q (s.refresh_serial + 1) (suc (length xs)) s.latest_provider_refresh
        (All-imp _ _ _ (λ k h. omega (arith, h)) c.providers_below) (omega (arith, c.serial));
  accepted = go;
}
  where
    go :
        (d : ℕ) (scope : Scope)
        → get_elem? (some q ∷ xs) d ≡ some scope
        → accepts scope (serial_of d (some q ∷ xs)) (refresh_provider q s)
          ≡ not (any (overlaps scope) (take d (some q ∷ xs)))
    go zero none h = cc
    go zero (some p) h = ground (
      arith,
      c.serial,
      c.all_below,
      eq_iff q p,
      eq_iff q q,
      get-put q p (s.refresh_serial + 1) s.latest_provider_refresh,
    )
    go (suc d) none h = ground (
      arith,
      c.serial,
      any-put q (s.refresh_serial + 1) (serial_of d xs) s.latest_provider_refresh,
      place_below xs d none h,
    )
    go (suc d) (some p) h = ground (
      arith,
      c.serial,
      c.accepted d (some p) h,
      place_below xs d (some p) h,
      eq_iff q p,
      eq_iff p q,
      get-put q p (s.refresh_serial + 1) s.latest_provider_refresh,
    )

accepts_catalog :
    (scope : Scope) (n : ℕ) (s : SessionCatalogService) (k : Catalog)
    → accepts scope n (record s { catalog = k }) ≡ accepts scope n s
unfolding accepts
accepts_catalog none n s k = refl
accepts_catalog (some p) n s k = refl

catalog-Counts :
    (xs : List Scope) (s : SessionCatalogService) (k : Catalog)
    → Counts xs s
    → Counts xs (record s { catalog = k })
unfolding accepts
catalog-Counts xs s k c = record {
  serial = c.serial;
  all_below = c.all_below;
  providers_below = c.providers_below;
  accepted = λ d scope h. accepts_catalog scope (serial_of d xs) s k ∙ c.accepted d scope h;
}

answer-Counts :
    (same : Catalog → Catalog → Bool) (scope : Scope) (n : ℕ) (items : List SessionCatalogItem)
    (xs : List Scope) (s : SessionCatalogService)
    → Counts xs s
    → Counts xs (answer same scope n items s).0
unfolding answer apply_provider apply
answer-Counts same none n items xs s c = elim (Bool-cases (accepts none n s)) [
  | inl good ↦ rw good (catalog-Counts xs s _ c)
  | inr bad ↦ rw bad c
]
answer-Counts same (some p) n items xs s c = elim (Bool-cases (accepts (some p) n s)) [
  | inl good ↦ rw good (catalog-Counts xs s _ c)
  | inr bad ↦ rw bad c
]

Reach-Counts :
    (same : Catalog → Catalog → Bool) (xs : List Scope) (s : SessionCatalogService)
    → Reach same xs s
    → Counts xs s
unfolding step add
Reach-Counts same _ _ (start s h k l) = record {
  serial = h;
  all_below = omega (arith, k);
  providers_below = rw l tt;
  accepted = λ d scope e. cc;
}
Reach-Counts same _ _ (next {xs} {s} e r) = go e (Reach-Counts same xs s r)
  where
    go : (e : Event) → Counts xs s → Counts (asked e xs) (step same e s)
    go (asks none) c = refresh-Counts xs s c
    go (asks (some p)) c = refresh_provider-Counts p xs s c
    go (answers scope n items) c = answer-Counts same scope n items xs s c
    go (adds i t) c = catalog-Counts xs s _ c

-- In every history of requests, answers and additions that starts with no request made, in whatever
-- order the answers come: an answer is dropped if a request that overlaps its own (one of the two
-- for all providers, or both for the same provider) has been made after it, and is applied
-- otherwise; so the newest request is always applied, and an older answer never overwrites a newer
-- one.
pub Reach-answer :
    {same : Catalog → Catalog → Bool} {xs : List Scope} {s : SessionCatalogService} (d : ℕ)
    (scope : Scope) (items : List SessionCatalogItem)
    → Reach same xs s
    → get_elem? xs d ≡ some scope
    → answer same scope (serial_of d xs) items s
      ≡ (if any (overlaps scope) (take d xs) then (s, false) else apply_scope same scope items s)
unfolding answer
Reach-answer {same} {xs} {s} d scope items r h =
    elim (Bool-cases (any (overlaps scope) (take d xs))) [
      | inl later ↦ rw (Counts.accepted (Reach-Counts same xs s r) d scope h, later) refl
      | inr newest ↦ rw (Counts.accepted (Reach-Counts same xs s r) d scope h, newest) refl
    ]
