-- ===== src/Serve/Tracked.antt =====
-- The tracker of the event loop over its whole run, and the engines that the tracked tasks use.
use d_inference.Prelude.{
  ◌≡◌, refl, sym, ap, subst, Bool, true, false, ◌||◌, List, [], ◌∷◌, ◌++◌, map, append-nil, arith,
  ◌==◌, if◌then◌else◌, is_empty, any, All, All-map, Text, text_eq, ℕ, ◌<◌,
}
use d_inference.Serve.Prepared.{CacheLoaded, IsOn, Stays}
use d_inference.Serve.Tracker.{
  Inflight, Loop, Action, send_message, spawn_request, kill, cancel_token, abort, start_self_heal,
  shutdown_backends, untrack, forget,
}

-- The task is one of those in flight.
abbrev pub tracks : ℕ → Inflight → Bool
tracks t = any (λ e. e.1 == t)

abbrev pub IsBelow : ℕ → Text × ℕ → Type 0
IsBelow n e = e.1 < n

pub or_first : (b c : Bool) → c ≡ true → b || c ≡ true
or_first true c e = refl
or_first false c e = e

pub or_second : (b c d : Bool) → (c ≡ true → d ≡ true) → b || c ≡ true → b || d ≡ true
or_second true c d h e = refl
or_second false c d h e = h e

tracks-if :
    (t : ℕ) (b : Bool) (entry : Text × ℕ) (kept xs : Inflight)
    → (tracks t kept ≡ true → tracks t xs ≡ true)
    → tracks t (if b then kept else entry ∷ kept) ≡ true
    → tracks t (entry ∷ xs) ≡ true
tracks-if t true entry kept xs h e = or_first (entry.1 == t) (tracks t xs) (h e)
tracks-if t false entry kept xs h e = or_second (entry.1 == t) (tracks t kept) (tracks t xs) h e

pub tracks-untrack :
    (t : ℕ) (id : Text) (xs : Inflight) → tracks t (untrack id xs) ≡ true → tracks t xs ≡ true
unfolding untrack
tracks-untrack t id [] m = m
tracks-untrack t id ((j, task) ∷ xs) m =
    tracks-if t (text_eq id j) (j, task) (untrack id xs) xs (tracks-untrack t id xs) m

All-if :
    (P : Text × ℕ → Type 0) (b : Bool) (entry : Text × ℕ) (kept : Inflight)
    → P entry
    → All P kept
    → All P (if b then kept else entry ∷ kept)
All-if P true entry kept p h = h
All-if P false entry kept p h = (p, h)

pub All-untrack :
    (P : Text × ℕ → Type 0) (id : Text) (xs : Inflight) → All P xs → All P (untrack id xs)
unfolding untrack
All-untrack P id [] h = h
All-untrack P id ((j, task) ∷ xs) (p, h) =
    All-if P (text_eq id j) (j, task) (untrack id xs) p (All-untrack P id xs h)

module _ {V : Type 0} where
  -- The tasks that the actions spawn, with their engines.
  abbrev pub tasks : List (Action V) → List (ℕ × ℕ)
  tasks [] = []
  tasks (send_message m ∷ xs) = tasks xs
  tasks (spawn_request t id body key engine ∷ xs) = (t, engine) ∷ tasks xs
  tasks (cancel_token t ∷ xs) = tasks xs
  tasks (abort t ∷ xs) = tasks xs
  tasks (kill pid ∷ xs) = tasks xs
  tasks (start_self_heal ∷ xs) = tasks xs
  tasks (shutdown_backends ∷ xs) = tasks xs

  pub tasks-append : (xs ys : List (Action V)) → tasks (xs ++ ys) ≡ tasks xs ++ tasks ys
  tasks-append [] ys = refl
  tasks-append (send_message m ∷ xs) ys = tasks-append xs ys
  tasks-append (spawn_request t id body key engine ∷ xs) ys =
      ap (λ (rs : List (ℕ × ℕ)). (t, engine) ∷ rs) (tasks-append xs ys)
  tasks-append (cancel_token t ∷ xs) ys = tasks-append xs ys
  tasks-append (abort t ∷ xs) ys = tasks-append xs ys
  tasks-append (kill pid ∷ xs) ys = tasks-append xs ys
  tasks-append (start_self_heal ∷ xs) ys = tasks-append xs ys
  tasks-append (shutdown_backends ∷ xs) ys = tasks-append xs ys

-- The task has been given its number; and while it is tracked, its engine is loaded.
abbrev pub IsHeld : Loop → ℕ × ℕ → Type 0
IsHeld l (t, engine) = (t < l.next_task) × (tracks t l.inflight ≡ true → IsOn l.engines engine)

-- While a request is in flight the loop says that it is serving; every engine of the cache is
-- loaded, and so is that of every spawned task that is still tracked.
pub record IsTracked (l : Loop) (spawned : List (ℕ × ℕ)) : Type 0 where
  pub serving : is_empty l.inflight ≡ false → l.inference_active ≡ true
  pub fresh : All (λ e. e.1 < l.next_task) l.inflight
  pub held : All (IsHeld l) spawned
  pub cached : CacheLoaded l.engines

-- A step that spawns nothing, and tracks no more.
pub unspawned-IsTracked :
    (l l' : Loop) (spawned : List (ℕ × ℕ))
    → IsTracked l spawned
    → l'.next_task ≡ l.next_task
    → ((t : ℕ) → tracks t l'.inflight ≡ true → tracks t l.inflight ≡ true)
    → All (IsBelow l.next_task) l'.inflight
    → (is_empty l'.inflight ≡ false → l'.inference_active ≡ true)
    → Stays l l'
    → IsTracked l' spawned
unspawned-IsTracked l l' spawned h same fewer below serving (cached, keeps) = record {
  serving = serving;
  fresh = subst (λ (n : ℕ). All (IsBelow n) l'.inflight) (sym same) below;
  held =
      All-map (IsHeld l) (IsHeld l')
        (λ (t, engine) (lt, on).
          (subst (λ (n : ℕ). t < n) (sym same) lt, λ m. keeps engine (on (fewer t m))))
        spawned h.held;
  cached = cached;
}

untracked-nonempty :
    (id : Text) (xs : Inflight) → is_empty (untrack id xs) ≡ false → is_empty xs ≡ false
unfolding untrack
untracked-nonempty id [] e = e
untracked-nonempty id (x ∷ xs) e = refl

pub forget-IsTracked :
    (id : Text) (l : Loop) (spawned : List (ℕ × ℕ))
    → IsTracked l spawned
    → IsTracked (forget id l) spawned
forget-IsTracked id l spawned h =
    unspawned-IsTracked l (forget id l) spawned h refl (λ t m. tracks-untrack t id l.inflight m)
      (All-untrack (IsBelow l.next_task) id l.inflight h.fresh)
      (serving_after (is_empty (untrack id l.inflight)) (untracked-nonempty id l.inflight))
      (h.cached, λ n on. on)
  where
    serving_after :
        (b : Bool)
        → (b ≡ false → is_empty l.inflight ≡ false)
        → b ≡ false
        → (if b then false else l.inference_active) ≡ true
    serving_after true g e = absurd (ground (arith, e))
    serving_after false g e = h.serving (g e)

-- What a step spawns, and the state that it leaves.
abbrev pub Follows : {V : Type 0} → List (ℕ × ℕ) → Loop × List (Action V) → Type 0
Follows spawned (l, actions) = IsTracked l (spawned ++ tasks actions)

module _ {V : Type 0} where
  pub tasks-kills-append :
      (pids : List ℕ) (ys : List (Action V)) → tasks (map kill pids ++ ys) ≡ tasks ys
  tasks-kills-append [] ys = refl
  tasks-kills-append (pid ∷ pids) ys = tasks-kills-append pids ys

  pub quiet-Follows :
      (spawned : List (ℕ × ℕ)) (l : Loop) (actions : List (Action V))
      → tasks actions ≡ []
      → IsTracked l spawned
      → Follows spawned (l, actions)
  quiet-Follows spawned l actions e h =
      subst (λ (rs : List (ℕ × ℕ)). IsTracked l (spawned ++ rs)) (sym e)
        (subst (IsTracked l) (sym (append-nil spawned)) h)
