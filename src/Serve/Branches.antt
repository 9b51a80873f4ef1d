-- ===== src/Serve/Branches.antt =====
-- The branches of the event loop for ended, cancelled and lost requests keep its tracker consistent.
use d_inference.Prelude.{
  ◌≡◌, refl, sym, ap, subst, inl, inr, Bool, true, false, Option, none, some, List, [], ◌∷◌, arith,
  if◌then◌else◌, Bool-cases, Option-cases, is_empty, All, All-map, Text, ℕ,
}
use d_inference.Json.{JsonApi}
use d_inference.Serve.Slots.{crashed}
use d_inference.Coordinator.Session.{
  CoordinatorEvent, connected, disconnected, request, cancel_request, challenged, runtime_outdated,
}
use d_inference.Serve.Prepared.{CacheLoaded}
use d_inference.Serve.Tracker.{
  Inflight, Loop, Action, cancel_token, start_self_heal, Around, forget, forget_found, find_task,
}
use d_inference.Serve.Events.{
  on_disconnected, on_cancel, on_outdated, on_done, on_coordinator, cancel_and_abort,
}
use d_inference.Serve.Spawned.{on_request-Follows}
use d_inference.Serve.Tracked.{
  tracks, IsBelow, tasks, IsHeld, IsTracked, forget-IsTracked, Follows, quiet-Follows,
}

module _ (json : JsonApi) where
  open json use {Value}

  -- Nothing is tracked any more.
  pub emptied-IsTracked :
      (l l' : Loop) (spawned : List (ℕ × ℕ))
      → IsTracked l spawned
      → l'.inflight ≡ []
      → l'.next_task ≡ l.next_task
      → CacheLoaded l'.engines
      → IsTracked l' spawned
  emptied-IsTracked l l' spawned h none' next cached = record {
    serving = λ e. absurd (ground (arith, e, ap is_empty none'));
    fresh = subst (All (IsBelow l'.next_task)) (sym none') tt;
    held =
        All-map (IsHeld l) (IsHeld l')
          (λ (t, e) (lt, on). (
            omega (arith, lt, next),
            λ m. absurd (untracked t (subst (λ (xs : Inflight). tracks t xs ≡ true) none' m)),
          ))
          spawned h.held;
    cached = cached;
  }
    where
      untracked : (t : ℕ) → tracks t [] ≡ true → ⊥
      untracked t e = ground (arith, e)

  cancel_and_abort-tasks : (xs : Inflight) → tasks (cancel_and_abort json xs) ≡ []
  cancel_and_abort-tasks [] = refl
  cancel_and_abort-tasks ((id, task) ∷ xs) = cancel_and_abort-tasks xs

  on_disconnected-Follows :
      (l : Loop) (spawned : List (ℕ × ℕ))
      → IsTracked l spawned
      → Follows spawned (on_disconnected json l)
  unfolding on_disconnected
  on_disconnected-Follows l spawned h = elim (Bool-cases (is_empty l.inflight)) [
    | inl y ↦ rw (y, on_disconnected) (quiet-Follows {V = Value} spawned l [] refl h)
    | inr n ↦
        rw (n, on_disconnected)
          (quiet-Follows {V = Value} spawned (record l { inflight = []; inference_active = false })
            (cancel_and_abort json l.inflight) (cancel_and_abort-tasks l.inflight)
            (emptied-IsTracked l _ spawned h refl refl h.cached))
  ]

  on_cancel-Follows :
      (id : Text) (l : Loop) (spawned : List (ℕ × ℕ))
      → IsTracked l spawned
      → Follows spawned (on_cancel json id l)
  unfolding on_cancel
  on_cancel-Follows id l spawned h = elim (Option-cases (find_task id l.inflight)) [
    | inl e ↦ rw (e, on_cancel) (quiet-Follows {V = Value} spawned l [] refl h)
    | inr (task, e) ↦
        rw (e, on_cancel)
          (quiet-Follows {V = Value} spawned (forget id l) (cancel_token task ∷ []) refl
            (forget-IsTracked id l spawned h))
  ]

  pub either-Follows :
      (b : Bool) (spawned : List (ℕ × ℕ)) (x y : Loop × List (Action Value))
      → Follows spawned x
      → Follows spawned y
      → Follows spawned (if b then x else y)
  either-Follows true spawned x y hx hy = hx
  either-Follows false spawned x y hx hy = hy

  on_outdated-Follows :
      (l : Loop) (spawned : List (ℕ × ℕ))
      → IsTracked l spawned
      → Follows spawned (on_outdated json l)
  unfolding on_outdated
  on_outdated-Follows l spawned h =
      either-Follows l.self_heal_running spawned (l, [])
        (record l { self_heal_running = true }, start_self_heal ∷ [])
        (quiet-Follows {V = Value} spawned l [] refl h)
        (quiet-Follows {V = Value} spawned (record l { self_heal_running = true })
          (start_self_heal ∷ []) refl
          (record { serving = h.serving; fresh = h.fresh; held = h.held; cached = h.cached }))

  pub on_coordinator-Follows :
      (b : Bool) (event : CoordinatorEvent Value) (around : Around) (l : Loop)
      (spawned : List (ℕ × ℕ))
      → IsTracked l spawned
      → Follows spawned (on_coordinator json b event around l)
  unfolding on_coordinator
  on_coordinator-Follows b connected around l spawned h =
      quiet-Follows {V = Value} spawned l [] refl h
  on_coordinator-Follows b disconnected around l spawned h = on_disconnected-Follows l spawned h
  on_coordinator-Follows b (request id body key) around l spawned h =
      on_request-Follows json b id body key around l spawned h
  on_coordinator-Follows b (cancel_request id) around l spawned h = on_cancel-Follows id l spawned h
  on_coordinator-Follows b (challenged nonce timestamp) around l spawned h =
      quiet-Follows {V = Value} spawned l [] refl h
  on_coordinator-Follows b (runtime_outdated mismatches) around l spawned h =
      on_outdated-Follows l spawned h

  forget_found-IsTracked :
      (o : Option ℕ) (id : Text) (l : Loop) (spawned : List (ℕ × ℕ))
      → IsTracked l spawned
      → IsTracked (forget_found o id l) spawned
  forget_found-IsTracked none id l spawned h = h
  forget_found-IsTracked (some task) id l spawned h = forget-IsTracked id l spawned h

  crashed-IsTracked :
      (b : Bool) (l : Loop) (spawned : List (ℕ × ℕ))
      → IsTracked l spawned
      → IsTracked (if b then record l { backend_state = crashed } else l) spawned
  crashed-IsTracked true l spawned h = record {
    serving = h.serving;
    fresh = h.fresh;
    held = h.held;
    cached = h.cached;
  }
  crashed-IsTracked false l spawned h = h

  pub on_done-Follows :
      (id : Text) (dead : Bool) (l : Loop) (spawned : List (ℕ × ℕ))
      → IsTracked l spawned
      → Follows spawned (on_done json id dead l)
  unfolding on_done
  on_done-Follows id dead l spawned h = quiet-Follows {V = Value} spawned _ [] refl (
      crashed-IsTracked _ _ spawned
        (forget_found-IsTracked (find_task id l.inflight) id l spawned h))
