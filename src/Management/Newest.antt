-- ===== src/Management/Newest.antt =====
-- packages/workbench/src/contrib/management/management-service.ts: answers to reloads, and the way back.
use zaw.Base.{
  ℕ, ◌+◌, String, ◌≡◌, refl, ap, ◌∙◌, Bool, true, false, List, [], ◌∷◌, ◌++◌, nat_eq, if◌then◌else◌,
  ◌==◌,
}
use zaw.Management.{
  ManagementService, Lists, ModelsState, loading, ready, failed, select_management_view, go_back,
  split_last, back_to,
}
use zaw.Management.Reloads.{Answer, loaded, refused, accept, begin_reload, end_reload}

-- Answers to reloads, each with the generation that it answers, as they come.
unfoldable pub end_all : List (ℕ × Answer) → ManagementService → ManagementService
unfolding end_reload
end_all [] s = s
end_all ((g, a) ∷ rest) s = end_all rest (end_reload g a s)

abbrev pub listed_by : Answer → Lists → Lists
listed_by (loaded lists) old = lists
listed_by (refused message) old = old

abbrev pub state_by : Answer → ModelsState
state_by (loaded lists) = ready
state_by (refused message) = failed

-- The same from the answers to one generation alone.
abbrev pub newest : ℕ → List (ℕ × Answer) → Lists × ModelsState → Lists × ModelsState
newest n [] old = old
newest n ((g, a) ∷ rest) old =
    newest n rest (if nat_eq g n then (listed_by a old.0, state_by a) else old)

abbrev seen : ManagementService → Lists × ModelsState
seen s = (s.lists, s.models_state)

seen_if :
    (b : Bool) (a : Answer) (s : ManagementService)
    → seen (if b then accept a s else s)
      ≡ (if b then (listed_by a s.lists, state_by a) else (s.lists, s.models_state))
seen_if true (loaded lists) s = refl
seen_if true (refused e) s = refl
seen_if false a s = refl

generation_if :
    (b : Bool) (a : Answer) (s : ManagementService)
    → (if b then accept a s else s).reload_generation ≡ s.reload_generation
generation_if true (loaded lists) s = refl
generation_if true (refused e) s = refl
generation_if false a s = refl

end_all-newest :
    (answers : List (ℕ × Answer)) (s : ManagementService)
    → seen (end_all answers s) ≡ newest s.reload_generation answers (seen s)
unfolding end_all end_reload
end_all-newest [] s = refl
end_all-newest ((g, a) ∷ rest) s =
    let here = nat_eq g s.reload_generation in
    let next = if here then accept a s else s in
    end_all-newest rest next
    ∙ (ap (λ n. newest n rest (seen next)) (generation_if here a s)
        ∙ ap (newest s.reload_generation rest) (seen_if here a s))

-- Once a reload has begun, the lists and the state of the models are those that the answers to this very
-- reload give: answers to earlier ones that come late, errors among them, change neither.
pub begin_reload-end_all :
    (answers : List (ℕ × Answer)) (s : ManagementService)
    → let after = end_all answers (begin_reload s) in
      (after.lists, after.models_state)
      ≡ newest (s.reload_generation + 1) answers (s.lists, loading)
unfolding begin_reload
begin_reload-end_all answers s = end_all-newest answers (begin_reload s)

split_last-append :
    (x : String) (xs : List String) (y : String) → split_last x (xs ++ y ∷ []) ≡ (x ∷ xs, y)
split_last-append x [] y = refl
split_last-append x (z ∷ zs) y = ap (λ r. (x ∷ r.0, r.1)) (split_last-append z zs y)

back_to-append :
    (xs : List String) (y : String) (s : ManagementService)
    → ((back_to (xs ++ y ∷ []) s).management_view_id ≡ y)
      × ((back_to (xs ++ y ∷ []) s).management_history ≡ xs)
back_to-append [] y s = (refl, refl)
back_to-append (x ∷ xs) y s =
    (ap (λ r. r.1) (split_last-append x xs y), ap (λ r. r.0) (split_last-append x xs y))

-- Going back from a view that was selected from another one shows that other view again and leaves the
-- history as it was.
pub go_back-select_management_view :
    (id : String) (s : ManagementService)
    → (s.management_view_id == id) ≡ false
    → ((go_back (select_management_view id s)).management_view_id ≡ s.management_view_id)
      × ((go_back (select_management_view id s)).management_history ≡ s.management_history)
unfolding go_back select_management_view
go_back-select_management_view id s h =
    rw h (back_to-append s.management_history s.management_view_id _)
