-- ===== src/Serve/Replies.antt =====
-- What the event loop does for one inference request.
use d_inference.Prelude.{
  ◌≡◌, refl, ap, Bool, true, false, Option, none, some, List, [], ◌∷◌, ◌++◌, Text, codes, ℕ, suc,
}
use d_inference.Json.{JsonApi}
use d_inference.Protocol.{
  inference_accepted, inference_error, inference_response_chunk, inference_complete,
}
use d_inference.Serve.Slots.{find_slot}
use d_inference.Serve.Tracker.{
  Loop, Action, send_message, spawn_request, kill, cancel_token, abort, start_self_heal,
  shutdown_backends, Around, track,
}
use d_inference.Serve.Requests.{
  Prepared, refused, prepared, refuse, route, request_model, prepare, on_request,
}
use d_inference.Serve.Prepared.{CacheLoaded, IsOn, Stays, kills, IsPrepared, prepare-IsPrepared}

module _ (json : JsonApi) where
  open json use {Value}

  -- The request was refused, or its task was spawned, on an engine that is loaded, and tracked.
  abbrev pub Ends : Text → Value → Text → Loop → Loop → Action Value → Type 0
  Ends id body key l l' (send_message (inference_error i e c)) =
      (i ≡ id) × (l'.inflight ≡ l.inflight) × (l'.next_task ≡ l.next_task)
  Ends id body key l l' (send_message (inference_accepted i)) = ⊥
  Ends id body key l l' (send_message (inference_response_chunk i d p)) = ⊥
  Ends id body key l l' (send_message (inference_complete i u g h)) = ⊥
  Ends id body key l l' (spawn_request t i b k engine) =
      (t ≡ l.next_task)
      × ((i ≡ id) × (b ≡ body) × (k ≡ key))
      × IsOn l'.engines engine
      × ((l'.inflight ≡ track id t l.inflight) × (l'.next_task ≡ suc t))
  Ends id body key l l' (cancel_token t) = ⊥
  Ends id body key l l' (abort t) = ⊥
  Ends id body key l l' (kill pid) = ⊥
  Ends id body key l l' start_self_heal = ⊥
  Ends id body key l l' shutdown_backends = ⊥

  -- Processes are killed, and then the request has its end.
  abbrev pub IsRouted : Text → Value → Text → Loop → Loop × List (Action Value) → Type 0
  IsRouted id body key l (l', actions) =
      (pids : List ℕ) × (end : Action Value) × (actions ≡ kills json pids ++ end ∷ [])
      × Ends id body key l l' end
      × Stays l l'
      × (l'.inference_active ≡ l.inference_active)

  route-IsRouted :
      (b : Bool) (id : Text) (body : Value) (key : Text) (l : Loop) (p : Prepared json)
      → IsPrepared json id l p
      → IsRouted id body key l (route json b id body key p)
  unfolding route
  route-IsRouted b id body key l (refused l' actions) (pids, e, c, is, same, stays, active) =
      (pids, send_message (inference_error id e c), is, (refl, same.0, same.1), stays, active)
  route-IsRouted false id body key l (prepared l' actions engine)
        (pids, is, on, same, stays, active) =
      let end =
        refuse json id
          (codes
            "private text requests require the embedded in-process engine; refusing to proxy through a local backend")
          503 in
      (
        pids,
        end,
        ap (λ (xs : List (Action Value)). xs ++ end ∷ []) is,
        (refl, same.0, same.1),
        stays,
        active,
      )
  route-IsRouted true id body key l (prepared l' actions none) (pids, is, on, same, stays, active) =
      let end =
        refuse json id
          (codes
            "private text requests require the embedded in-process engine; no engine instance was available")
          503 in
      (
        pids,
        end,
        ap (λ (xs : List (Action Value)). xs ++ end ∷ []) is,
        (refl, same.0, same.1),
        stays,
        active,
      )
  route-IsRouted true id body key l (prepared l' actions (some e))
        (pids, is, on, same, stays, active) =
      (
        pids,
        spawn_request l'.next_task id body key e,
        ap (λ (xs : List (Action Value)). xs ++ spawn_request l'.next_task id body key e ∷ []) is,
        (same.1, (refl, refl, refl), on e refl, (ap (track id l'.next_task) same.0, refl)),
        stays,
        active,
      )

  -- The reply to a request: the state of the loop behind it, and what it has done.
  abbrev pub IsReplied : Text → Value → Option Text → ℕ → Loop → Loop × List (Action Value) → Type 0
  IsReplied id body none now l (l', actions) =
      (e : Text) × (actions ≡ send_message (inference_error id e 400) ∷ []) × (l' ≡ l)
  IsReplied id body (some key) now l (l', actions) =
      (rest : List (Action Value)) × (actions ≡ send_message (inference_accepted id) ∷ rest)
      × IsRouted id body key (record l { last_request_time = now; inference_active = true })
          (l', rest)

  -- A request without a key is refused with the status 400, and changes nothing. Any other is
  -- accepted; then processes may be killed; and then it has one end: an error of it, with nothing
  -- else tracked, or the start of its task, with its body and its key on an engine that is loaded,
  -- which is tracked under the request's name and has a new number. Either way the loop says that it
  -- is serving, and no engine that was loaded is unloaded. The engines of the cache are loaded before.
  pub on_request-IsReplied :
      (b : Bool) (id : Text) (body : Value) (key : Option Text) (around : Around) (l : Loop)
      → CacheLoaded l.engines
      → IsReplied id body key around.now l (on_request json b id body key around l)
  unfolding on_request
  on_request-IsReplied b id body none around l all = (_, refl, refl)
  on_request-IsReplied b id body (some key) around l all =
      let l1 : Loop = record l { last_request_time = around.now; inference_active = true } in
      let p =
        prepare json b id (request_model json body) around
          (find_slot (request_model json body) l.slots) l1 in
      let h = route-IsRouted b id body key l1 p (
        prepare-IsPrepared json b id _ around (find_slot (request_model json body) l.slots) l1
          all) in
      ((route json b id body key p).1, refl, h)
