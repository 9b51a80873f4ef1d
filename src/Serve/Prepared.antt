-- ===== src/Serve/Prepared.antt =====
-- A request of the event loop before it is routed.
use d_inference.Serve.Reload.{Reloaded, ready, not_ready}
use d_inference.Prelude.{
  ◌≡◌, refl, sym, ap, subst, inl, inr, Bool, true, false, not, ◌&&◌, ◌||◌, Option, none, some, List,
  [], ◌∷◌, ◌++◌, map, arith, ltb, Bool-cases, Text, codes, ℕ,
}
use d_inference.Json.{JsonApi}
use d_inference.Protocol.{inference_error}
use d_inference.Serve.Slots.{Slot, change_port, set_restarting}
use d_inference.Serve.Engines.{Engines, get_or_load_inprocess_engine}
use d_inference.Serve.Loaded.{AllLoaded, KeepsLoaded, IsGiven, get_or_load_inprocess_engine-Loads}
use d_inference.Serve.Tracker.{Loop, Action, send_message, kill, Around}
use d_inference.Serve.Requests.{
  Prepared, refused, prepared, engine_loaded, prepare_inprocess, prepare_subprocess, kill_zombie,
  backend_reloaded, refuse, prepare, with_engines,
}

-- The cache of a loop, if it has one, holds loaded engines only.
abbrev pub CacheLoaded : Option Engines → Type 0
CacheLoaded none = Unit
CacheLoaded (some e) = AllLoaded e

abbrev pub IsOn : Option Engines → ℕ → Type 0
IsOn none n = ⊥
IsOn (some e) n = e.is_loaded n ≡ true

-- Nothing that was loaded stops being so, and the cache holds loaded engines only.
abbrev pub Stays : Loop → Loop → Type 0
Stays l l' = CacheLoaded l'.engines × ((n : ℕ) → IsOn l.engines n → IsOn l'.engines n)

module _ (json : JsonApi) where
  open json use {Value}

  abbrev pub kills : List ℕ → List (Action Value)
  kills = map kill

  -- A request before it is routed: it was refused, or may go on with an engine.
  abbrev pub IsPrepared : Text → Loop → Prepared json → Type 0
  IsPrepared id l (refused l' actions) =
      (pids : List ℕ) × (e : Text) × (c : ℕ) × (actions
        ≡ kills pids ++ send_message (inference_error id e c) ∷ [])
      × ((l'.inflight ≡ l.inflight) × (l'.next_task ≡ l.next_task))
      × Stays l l'
      × (l'.inference_active ≡ l.inference_active)
  IsPrepared id l (prepared l' actions engine) =
      (pids : List ℕ) × (actions ≡ kills pids)
      × ((n : ℕ) → engine ≡ some n → IsOn l'.engines n)
      × ((l'.inflight ≡ l.inflight) × (l'.next_task ≡ l.next_task))
      × Stays l l'
      × (l'.inference_active ≡ l.inference_active)

  module _ (id : Text) (around : Around) (slot : Slot) where
    engine_loaded-IsPrepared :
        (l l1 : Loop) (e : Engines) (r : Engines × Option (ℕ × Bool))
        → l.engines ≡ some e
        → (l1.inflight ≡ l.inflight) × (l1.next_task ≡ l.next_task)
        → l1.inference_active ≡ l.inference_active
        → AllLoaded r.0 × KeepsLoaded e r.0 × IsGiven around.loads slot.model_id e r
        → IsPrepared id l (engine_loaded json id around slot l1 r)
    engine_loaded-IsPrepared l l1 e (e', none) has same active (all, keeps, given) = (
      [],
      codes "in-process model load failed",
      503,
      refl,
      same,
      (all, λ n on. keeps n (subst (λ (o : Option Engines). IsOn o n) has on)),
      active,
    )
    engine_loaded-IsPrepared l l1 e (e', some (n, fresh)) has same active (all, keeps, given) = (
      [],
      refl,
      λ m is. subst (λ (k : ℕ). e'.is_loaded k ≡ true) (ground (arith, is)) given.0,
      same,
      (all, λ n on. keeps n (subst (λ (o : Option Engines). IsOn o n) has on)),
      active,
    )

    refuse-IsPrepared :
        (l : Loop) (message : Text) (code : ℕ)
        → CacheLoaded l.engines
        → IsPrepared id l (refused l (refuse json id message code ∷ []))
    refuse-IsPrepared l message code all =
        ([], message, code, refl, (refl, refl), (all, λ n on. on), refl)

    prepare_inprocess-IsPrepared :
        (l : Loop)
        → CacheLoaded l.engines
        → IsPrepared id l (prepare_inprocess json id around slot l)
    unfolding prepare_inprocess
    prepare_inprocess-IsPrepared l all = go l.engines refl
      where
        go :
            (o : Option Engines)
            → l.engines ≡ o
            → IsPrepared id l (with_engines json id around slot l o)
        go none e =
            refuse-IsPrepared l (codes "in-process engine support unavailable in this build") 503
              all
        go (some engines) e =
            engine_loaded-IsPrepared l
              (record l { slots = change_port slot.port (set_restarting true) l.slots }) engines
              (get_or_load_inprocess_engine around.loads slot.model_id engines) e (refl, refl) refl
              (get_or_load_inprocess_engine-Loads around.loads slot.model_id engines
                (subst CacheLoaded e all))

    killed : (pid : Option ℕ) → (pids : List ℕ) × (kill_zombie json pid ≡ kills pids)
    killed none = ([], refl)
    killed (some pid) = elim (Bool-cases (ltb 0 pid)) [
      | inl y ↦ (pid ∷ [], rw y refl)
      | inr n ↦ ([], rw n refl)
    ]

    backend_reloaded-IsPrepared :
        (l l1 : Loop) (r : Reloaded)
        → (l1.inflight ≡ l.inflight) × (l1.next_task ≡ l.next_task)
        → l1.inference_active ≡ l.inference_active
        → l1.engines ≡ l.engines
        → CacheLoaded l.engines
        → IsPrepared id l (backend_reloaded json id around slot l1 r)
    backend_reloaded-IsPrepared l l1 (ready new_pid) same active on all =
        let (pids, is) = killed slot.pid in
        (
          pids,
          is,
          λ n no'. absurd (ground (arith, no')),
          same,
          (
            subst CacheLoaded (sym on) all,
            λ n h. subst (λ (o : Option Engines). IsOn o n) (sym on) h,
          ),
          active,
        )
    backend_reloaded-IsPrepared l l1 (not_ready err) same active on all =
        let (pids, is) = killed slot.pid in
        (
          pids,
          codes "backend reload failed",
          503,
          ap
              (λ (xs : List (Action Value)).
                xs ++ refuse json id (codes "backend reload failed") 503 ∷ [])
              is,
          same,
          (
            subst CacheLoaded (sym on) all,
            λ n h. subst (λ (o : Option Engines). IsOn o n) (sym on) h,
          ),
          active,
        )

    prepare_subprocess-IsPrepared :
        (l : Loop)
        → CacheLoaded l.engines
        → IsPrepared id l (prepare_subprocess json id around slot l)
    unfolding prepare_subprocess
    prepare_subprocess-IsPrepared l all =
        elim (Bool-cases ((not slot.healthy || not around.healthy) && not slot.restarting)) [
          | inl y ↦
              rw (y, prepare_subprocess)
                (backend_reloaded-IsPrepared l _ _ (refl, refl) refl refl all)
          | inr n ↦
              rw (n, prepare_subprocess)
                (
                  [],
                  refl,
                  λ k no'. absurd (ground (arith, no')),
                  (refl, refl),
                  (all, λ k h. h),
                  refl,
                )
        ]

  pub prepare-IsPrepared :
      (b : Bool) (id model : Text) (around : Around) (slot : Option Slot) (l : Loop)
      → CacheLoaded l.engines
      → IsPrepared id l (prepare json b id model around slot l)
  prepare-IsPrepared b id model around none l all = (
    [],
    codes "no backend slot for model " ++ model,
    404,
    refl,
    (refl, refl),
    (all, λ n on. on),
    refl,
  )
  prepare-IsPrepared true id model around (some slot) l all =
      prepare_inprocess-IsPrepared id around slot l all
  prepare-IsPrepared false id model around (some slot) l all =
      prepare_subprocess-IsPrepared id around slot l all
