-- ===== src/Serve/Aborted.antt =====
-- What the event loop does to the requests in flight when the coordinator is lost.
use d_inference.Prelude.{
  ◌≡◌, refl, ap, subst, ◌⊎◌, inl, inr, false, List, [], ◌∷◌, Memᴰ, arith, if◌then◌else◌, is_empty,
  All, All-map, Text, ℕ,
}
use d_inference.Json.{JsonApi}
use d_inference.Serve.Tracker.{Inflight, Loop, Action, cancel_token, abort}
use d_inference.Serve.Events.{on_disconnected, cancel_and_abort}

module _ (json : JsonApi) where
  open json use {Value}

  -- The action cancels or aborts the task of some entry.
  abbrev pub Stops : Inflight → Action Value → Type 0
  Stops xs a =
      (id : Text) × (task : ℕ) × Memᴰ (id, task) xs × ((a ≡ cancel_token task) ⊎ (a ≡ abort task))

  cancel_and_abort_all :
      (xs : Inflight) (id : Text) (task : ℕ)
      → Memᴰ (id, task) xs
      → Memᴰ (cancel_token task) (cancel_and_abort json xs)
        × Memᴰ (abort task) (cancel_and_abort json xs)
  cancel_and_abort_all [] id task m = elim m [ ]
  cancel_and_abort_all ((i, t) ∷ xs) id task (Memᴰ.head e) = (
    Memᴰ.head (ap (λ (x : Text × ℕ). cancel_token x.1) e),
    Memᴰ.tail (Memᴰ.head (ap (λ (x : Text × ℕ). abort x.1) e)),
  )
  cancel_and_abort_all ((i, t) ∷ xs) id task (Memᴰ.tail m) =
      let (c, a) = cancel_and_abort_all xs id task m in
      (Memᴰ.tail (Memᴰ.tail c), Memᴰ.tail (Memᴰ.tail a))

  cancel_and_abort-Stops : (xs : Inflight) → All (Stops xs) (cancel_and_abort json xs)
  cancel_and_abort-Stops [] = tt
  cancel_and_abort-Stops ((i, t) ∷ xs) = (
    (i, t, Memᴰ.head refl, inl refl),
    (
      (i, t, Memᴰ.head refl, inr refl),
      All-map (Stops xs) (Stops ((i, t) ∷ xs)) (λ a (j, u, m, e). (j, u, Memᴰ.tail m, e))
          (cancel_and_abort json xs) (cancel_and_abort-Stops xs),
    ),
  )

  -- The state of the loop behind the loss of the coordinator, and what it has done.
  abbrev pub IsStopped : Loop → Loop × List (Action Value) → Type 0
  IsStopped l (l', actions) =
      ((id : Text) (task : ℕ)
        → Memᴰ (id, task) l.inflight
        → Memᴰ (cancel_token task) actions × Memᴰ (abort task) actions)
      × All (Stops l.inflight) actions
      × ((l'.inflight ≡ []) × (is_empty l.inflight ≡ false → l'.inference_active ≡ false))

  -- When the coordinator is lost, every request in flight has its token cancelled and its task
  -- aborted, nothing else is done, and the tracker is empty. If one was in flight, the loop no
  -- longer says that it is serving.
  pub on_disconnected-IsStopped : (l : Loop) → IsStopped l (on_disconnected json l)
  unfolding on_disconnected
  on_disconnected-IsStopped l = go l.inflight refl
    where
      go :
          (xs : Inflight)
          → l.inflight ≡ xs
          → IsStopped l (
              if is_empty xs then (l, []) else (
                record l { inflight = []; inference_active = false },
                cancel_and_abort json l.inflight,
              ))
      go [] e = (
        λ id task m. elim (subst (λ (ys : Inflight). Memᴰ (id, task) ys) e m) [ ],
        tt,
        (e, λ no'. absurd (ground (arith, no', ap is_empty e))),
      )
      go (x ∷ xs) e =
          (cancel_and_abort_all l.inflight, cancel_and_abort-Stops l.inflight, (refl, λ e'. refl))
