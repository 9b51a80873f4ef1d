-- ===== src/Serve/Reloading.antt =====
-- When `reload_backend` gives a backend that is ready, and how long it takes.
use d_inference.Prelude.{
  ◌≡◌, refl, sym, subst, ◌↔◌, Bool, true, false, ◌||◌, Option, none, some, arith, ◌==◌,
  if◌then◌else◌, ℕ, ◌<◌, ◌≤◌, ◌*◌, ◌+◌, suc, zero,
}
use d_inference.Serve.Reload.{
  Startup, ReloadError, Reloaded, ready, round, poll, then_wait, reload_backend, wait_for,
  warmup_failed, model_not_loaded, server_not_up,
}
use d_inference.Serve.Tracked.{or_first}

-- The test succeeds in one of the rounds from `i` on.
abbrev pub Succeeds : ℕ → ℕ → (ℕ → Bool) → Type 0
Succeeds rounds i test = (j : ℕ) × (j < rounds) × (test (i + j) ≡ true)

slept-round :
    (b : Bool) (r : Bool × ℕ) (n before pause : ℕ)
    → r.1 ≤ n
    → (round b before pause r).1 ≤ before + pause + n
slept-round true r n before pause h = omega arith
slept-round false r n before pause h = omega (arith, h)

-- All rounds but the last sleep the pause behind a failed test.
poll-slept :
    (rounds i before behind last : ℕ) (test : ℕ → Bool)
    → (poll (suc rounds) i before behind last test).1 ≤ suc rounds * before + rounds * behind + last
unfolding poll
poll-slept zero i before behind last test =
    subst (λ (n : ℕ). (poll 1 i before behind last test).1 ≤ n) (omega arith)
      (slept-round (test i) (false, 0) 0 before last (omega arith))
poll-slept (suc rounds) i before behind last test = omega (
  arith,
  pause,
  slept-round (test i) (poll (suc rounds) (i + 1) before behind last test)
      (suc rounds * before + rounds * behind + last) before
      (if suc rounds == 0 then last else behind)
      (poll-slept rounds (i + 1) before behind last test),
)
  where
    pause : (if suc rounds == 0 then last else behind) ≡ behind
    pause = ground arith

round-found : (b : Bool) (before pause : ℕ) (r : Bool × ℕ) → (round b before pause r).0 ≡ b || r.0
round-found true before pause r = refl
round-found false before pause r = refl

found-Succeeds :
    (rounds i : ℕ) (test : ℕ → Bool) (rest : Bool)
    → ((rest ≡ true) ↔ Succeeds rounds (i + 1) test)
    → ((test i || rest ≡ true) ↔ Succeeds (suc rounds) i test)
found-Succeeds rounds i test rest (to, from) = (forth (test i) refl, back)
  where
    forth : (b : Bool) → test i ≡ b → b || rest ≡ true → Succeeds (suc rounds) i test
    forth true e h = (0, omega arith, subst (λ (k : ℕ). test k ≡ true) (omega arith) e)
    forth false e h =
        let (j, lt, ok) = to h in
        (suc j, omega (arith, lt), subst (λ (k : ℕ). test k ≡ true) (omega arith) ok)

    true_first : (b c : Bool) → b ≡ true → b || c ≡ true
    true_first b c e = rw e refl

    back : Succeeds (suc rounds) i test → test i || rest ≡ true
    back (zero, lt, ok) =
        true_first (test i) rest (subst (λ (k : ℕ). test k ≡ true) (omega arith) ok)
    back (suc j, lt, ok) =
        or_first (test i) rest
          (from (j, omega (arith, lt), subst (λ (k : ℕ). test k ≡ true) (omega arith) ok))

poll-found :
    (rounds i before behind last : ℕ) (test : ℕ → Bool)
    → ((poll rounds i before behind last test).0 ≡ true) ↔ Succeeds rounds i test
unfolding poll
poll-found zero i before behind last test =
    (λ e. absurd (ground (arith, e)), λ (j, lt, e). absurd (omega (arith, lt)))
poll-found (suc rounds) i before behind last test =
    subst (λ (b : Bool). (b ≡ true) ↔ Succeeds (suc rounds) i test)
      (sym (round-found (test i) before _ (poll rounds (i + 1) before behind last test)))
      (found-Succeeds rounds i test _ (poll-found rounds (i + 1) before behind last test))

then_wait-slept :
    (p : Bool × ℕ) (e : ReloadError) (r : Reloaded × ℕ) (m n : ℕ)
    → p.1 ≤ m
    → r.1 ≤ n
    → (then_wait p e r).1 ≤ m + n
then_wait-slept (true, slept) e r m n hm hn = omega (arith, hm, hn)
then_wait-slept (false, slept) e r m n hm hn = omega (arith, hm)

then_wait-ready :
    (p : Bool × ℕ) (e : ReloadError) (r : Reloaded × ℕ) (pid : ℕ)
    → ((then_wait p e r).0 ≡ ready pid) ↔ ((p.0 ≡ true) × (r.0 ≡ ready pid))
then_wait-ready (true, slept) e r pid = (λ h. (refl, h), λ h. h.1)
then_wait-ready (false, slept) e r pid =
    (λ h. absurd (ground (arith, h)), λ h. absurd (ground (arith, h.0)))

-- The process is spawned, and each phase succeeds in time.
abbrev pub StartsUp : Startup → Option ℕ → ℕ → Type 0
StartsUp s spawned pid =
    (spawned ≡ some pid)
    × Succeeds 150 0 s.healthy
    × Succeeds 150 0 s.model_loaded
    × Succeeds 5 0 s.warms_up

wait_for-ready :
    (s : Startup) (spawned : Option ℕ) (pid : ℕ)
    → ((wait_for s spawned).1 ≤ 620)
      × (((wait_for s spawned).0 ≡ ready pid) ↔ StartsUp s spawned pid)
wait_for-ready s none pid =
    (omega arith, (λ e. absurd (ground (arith, e)), λ h. absurd (ground (arith, h.0))))
wait_for-ready s (some new_pid) pid = (
  then_wait-slept health server_not_up _ 300 320 (poll-slept 149 0 2 0 0 s.healthy) (
      then_wait-slept loaded model_not_loaded _ 300 20 (poll-slept 149 0 0 2 2 s.model_loaded) (
        then_wait-slept warm warmup_failed (ready new_pid, 0) 20 0 (poll-slept 4 0 0 5 0 s.warms_up)
          (omega arith))),
  (to, from),
)
  where
    health : Bool × ℕ
    health = poll 150 0 2 0 0 s.healthy

    loaded : Bool × ℕ
    loaded = poll 150 0 0 2 2 s.model_loaded

    warm : Bool × ℕ
    warm = poll 5 0 0 5 0 s.warms_up

    last_phase : Reloaded × ℕ
    last_phase = then_wait warm warmup_failed (ready new_pid, 0)

    phases : Reloaded × ℕ
    phases = then_wait loaded model_not_loaded last_phase

    to : (then_wait health server_not_up phases).0 ≡ ready pid → StartsUp s (some new_pid) pid
    to e =
        let (h, e1) = (then_wait-ready health server_not_up phases pid).0 e in
        let (m, e2) = (then_wait-ready loaded model_not_loaded last_phase pid).0 e1 in
        let (w, e3) = (then_wait-ready warm warmup_failed (ready new_pid, 0) pid).0 e2 in
        (
          ground (arith, e3),
          (poll-found 150 0 2 0 0 s.healthy).0 h,
          (poll-found 150 0 0 2 2 s.model_loaded).0 m,
          (poll-found 5 0 0 5 0 s.warms_up).0 w,
        )

    from : StartsUp s (some new_pid) pid → (then_wait health server_not_up phases).0 ≡ ready pid
    from (e, h, m, w) = (then_wait-ready health server_not_up phases pid).1 (
      (poll-found 150 0 2 0 0 s.healthy).1 h,
      (then_wait-ready loaded model_not_loaded last_phase pid).1 (
        (poll-found 150 0 0 2 2 s.model_loaded).1 m,
        (then_wait-ready warm warmup_failed (ready new_pid, 0) pid).1
            ((poll-found 5 0 0 5 0 s.warms_up).1 w, ground (arith, e)),
      ),
    )

-- The reload of a backend sleeps at most 620 seconds, whatever the process answers, and gives a
-- process exactly if that was spawned, answered a health check within 150 rounds, had its model
-- loaded within 150 more, and was warm within five.
pub reload_backend-ready :
    (s : Startup) (pid : ℕ)
    → ((reload_backend s).1 ≤ 620) × (((reload_backend s).0 ≡ ready pid) ↔ StartsUp s s.spawned pid)
unfolding reload_backend
reload_backend-ready s pid = wait_for-ready s s.spawned pid
