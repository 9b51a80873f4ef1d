-- ===== src/Serve/Spawned.antt =====
-- The tracker of the event loop through a request.
use d_inference.Prelude.{
  ◌≡◌, refl, sym, ap, ◌∙◌, subst, inl, inr, Bool, true, ◌||◌, Option, none, some, List, [], ◌∷◌,
  ◌++◌, arith, ◌==◌, ==_iff, Bool-cases, All, All-append, All-map, Text, ℕ, suc, ◌<◌,
}
use d_inference.Json.{JsonApi}
use d_inference.Protocol.{
  inference_accepted, inference_error, inference_response_chunk, inference_complete,
}
use d_inference.Serve.Replies.{Ends, IsReplied, on_request-IsReplied}
use d_inference.Serve.Prepared.{IsOn, Stays}
use d_inference.Serve.Tracker.{
  Inflight, Loop, Action, send_message, spawn_request, kill, cancel_token, abort, start_self_heal,
  shutdown_backends, Around, track, untrack,
}
use d_inference.Serve.Requests.{on_request}
use d_inference.Serve.Tracked.{
  tracks, IsBelow, tracks-untrack, All-untrack, tasks, IsHeld, IsTracked, unspawned-IsTracked,
  Follows, tasks-kills-append, quiet-Follows,
}

-- A task's number is new to the tracker.
spawned-IsTracked :
    (l l' : Loop) (spawned : List (ℕ × ℕ)) (id : Text) (engine : ℕ)
    → IsTracked l spawned
    → IsOn l'.engines engine
    → l'.inflight ≡ track id l.next_task l.inflight
    → l'.next_task ≡ suc l.next_task
    → l'.inference_active ≡ true
    → Stays l l'
    → IsTracked l' (spawned ++ (l.next_task, engine) ∷ [])
spawned-IsTracked l l' spawned id engine h on inflight next active (cached, keeps) = record {
  serving = λ e. active;
  fresh =
      subst (λ (xs : Inflight). All (IsBelow l'.next_task) xs) (sym inflight)
        (subst (λ (n : ℕ). All (IsBelow n) (track id l.next_task l.inflight)) (sym next)
          (
            omega arith,
            All-untrack (IsBelow (suc l.next_task)) id l.inflight (
                All-map (IsBelow l.next_task) (IsBelow (suc l.next_task))
                  (λ x lt. omega (arith, lt)) l.inflight h.fresh),
          ));
  held =
      All-append (IsHeld l') spawned _ (All-map (IsHeld l) (IsHeld l') old spawned h.held)
        ((omega (arith, next), λ m. on), tt);
  cached = cached;
}
  where
    same_tracked :
        (t : ℕ)
        → t < l.next_task
        → tracks t (track id l.next_task l.inflight) ≡ true
        → tracks t l.inflight ≡ true
    same_tracked t lt m = elim (Bool-cases (l.next_task == t)) [
      | inl y ↦ absurd (omega (arith, lt, (==_iff l.next_task t).0 y))
      | inr n ↦
          tracks-untrack t id l.inflight
            (subst (λ (b : Bool). b || tracks t (untrack id l.inflight) ≡ true) n m)
    ]

    old : (x : ℕ × ℕ) → IsHeld l x → IsHeld l' x
    old (t, e) (lt, is_on) = (
      omega (arith, lt, next),
      λ m.
          keeps e
            (is_on (same_tracked t lt (subst (λ (xs : Inflight). tracks t xs ≡ true) inflight m))),
    )

module _ (json : JsonApi) where
  open json use {Value}

  routed-Follows :
      (id : Text) (body : Value) (key : Text) (l l' : Loop) (spawned : List (ℕ × ℕ))
      (end : Action Value)
      → IsTracked l spawned
      → Ends json id body key l l' end
      → Stays l l'
      → l.inference_active ≡ true
      → l'.inference_active ≡ l.inference_active
      → IsTracked l' (spawned ++ tasks (end ∷ []))
  routed-Follows id body key l l' spawned (send_message (inference_error i e c)) h
        (same_id, same, next) stays on active =
      quiet-Follows {V = Value} spawned l' (send_message (inference_error i e c) ∷ []) refl (
        unspawned-IsTracked l l' spawned h next
          (λ t m. subst (λ (xs : Inflight). tracks t xs ≡ true) same m)
          (subst (All (IsBelow l.next_task)) (sym same) h.fresh) (λ e'. active ∙ on) stays)
  routed-Follows id body key l l' spawned (send_message (inference_accepted i)) h no' stays on
        active =
      elim no' [ ]
  routed-Follows id body key l l' spawned (send_message (inference_response_chunk i d p)) h no'
        stays on active =
      elim no' [ ]
  routed-Follows id body key l l' spawned (send_message (inference_complete i u g s)) h no' stays on
        active =
      elim no' [ ]
  routed-Follows id body key l l' spawned (spawn_request t i b k engine) h
        (is_next, names, is_on, (tracked, next)) stays on active =
      subst (λ (n : ℕ). IsTracked l' (spawned ++ (n, engine) ∷ [])) (sym is_next)
        (spawned-IsTracked l l' spawned id engine h is_on
          (tracked ∙ ap (λ (n : ℕ). track id n l.inflight) is_next) (next ∙ ap suc is_next)
          (active ∙ on) stays)
  routed-Follows id body key l l' spawned (cancel_token t) h no' stays on active = elim no' [ ]
  routed-Follows id body key l l' spawned (abort t) h no' stays on active = elim no' [ ]
  routed-Follows id body key l l' spawned (kill pid) h no' stays on active = elim no' [ ]
  routed-Follows id body key l l' spawned start_self_heal h no' stays on active = elim no' [ ]
  routed-Follows id body key l l' spawned shutdown_backends h no' stays on active = elim no' [ ]

  pub on_request-Follows :
      (b : Bool) (id : Text) (body : Value) (key : Option Text) (around : Around) (l : Loop)
      (spawned : List (ℕ × ℕ))
      → IsTracked l spawned
      → Follows spawned (on_request json b id body key around l)
  on_request-Follows b id body key around l spawned h =
      go key (on_request json b id body key around l)
        (on_request-IsReplied json b id body key around l h.cached)
    where
      go :
          (k : Option Text) (r : Loop × List (Action Value))
          → IsReplied json id body k around.now l r
          → Follows spawned r
      go none (l', actions) (e, is, same) =
          quiet-Follows {V = Value} spawned l' actions (ap tasks is)
            (subst (λ (k : Loop). IsTracked k spawned) (sym same) h)
      go (some k) (l', actions) (rest, is, (pids, end, ends_so, ends, stays, active)) =
          subst (λ (rs : List (ℕ × ℕ)). IsTracked l' (spawned ++ rs))
            (sym (ap tasks is ∙ ap tasks ends_so ∙ tasks-kills-append pids (end ∷ [])))
            (routed-Follows id body k
              (record l { last_request_time = around.now; inference_active = true }) l' spawned end
              (record { serving = λ e. refl; fresh = h.fresh; held = h.held; cached = h.cached })
              ends stays refl active)
