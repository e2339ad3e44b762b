-- ===== src/Api/Concurrent/Finish.antt =====
-- A handler at work with others comes to its end in three turns of its own.
use taskchampion_sync_server.Prelude.{
  ℕ, ◌+◌, ◌-◌, ◌≤◌, ◌≡◌, refl, ◌==◌, eq_of_test, arith, Bool, true, false, Bool-cases, inl, inr, [],
  ◌∷◌, Option, none, some, is_some, if◌then◌else◌, subst,
}
use taskchampion_sync_server.Core.Types.{Uuid, ServerConfig}
use taskchampion_sync_server.Core.Server.{Env}
use taskchampion_sync_server.Core.History.Calls.{History, World, set_history, accepts}
use taskchampion_sync_server.Api.Http.{HttpError}
use taskchampion_sync_server.Api.Concurrent.{
  Job, Stage, calling, creating, answered, failed, crashed, Schedule, set_stage,
}
use taskchampion_sync_server.Api.Concurrent.Spec.{add_in, create_in, spec_advance, spec_run}

abbrev pub is_finished : Stage → Bool
is_finished calling = false
is_finished creating = false
is_finished (answered result snap_urgency) = true
is_finished (failed e) = true
is_finished crashed = true

-- how often it is the handler's turn
abbrev pub turns_of : ℕ → Schedule → ℕ
turns_of i [] = 0
turns_of i ((j, env) ∷ rest) = (if j == i then 1 else 0) + turns_of i rest

-- The turns that a handler has still to come, by whether its client is there.
abbrev left_with : Stage → Option History → ℕ
left_with calling none = 3
left_with calling (some h) = 1
left_with creating o = 2
left_with (answered r u) o = 0
left_with (failed e) o = 0
left_with crashed o = 0

finished_of_none_left :
    (stage : Stage) (o : Option History) → left_with stage o ≤ 0 → is_finished stage ≡ true
finished_of_none_left calling none h = absurd (omega (arith, h))
finished_of_none_left calling (some x) h = absurd (omega (arith, h))
finished_of_none_left creating o h = absurd (omega (arith, h))
finished_of_none_left (answered r u) o h = refl
finished_of_none_left (failed e) o h = refl
finished_of_none_left crashed o h = refl

at_most_three : (stage : Stage) (o : Option History) → left_with stage o ≤ 3
at_most_three calling none = omega arith
at_most_three calling (some h) = omega arith
at_most_three creating o = omega arith
at_most_three (answered r u) o = omega arith
at_most_three (failed e) o = omega arith
at_most_three crashed o = omega arith

-- A client that is there stays.
abbrev Stays : World → World → Type 0
Stays w w' = (c : Uuid) → is_some (w c) ≡ true → is_some (w' c) ≡ true

left-Stays :
    (stage : Stage) (o o' : Option History)
    → (is_some o ≡ true → is_some o' ≡ true)
    → left_with stage o' ≤ left_with stage o
left-Stays calling none none stays = omega arith
left-Stays calling none (some x) stays = omega arith
left-Stays calling (some x) none stays = absurd (cc (stays refl))
left-Stays calling (some x) (some y) stays = omega arith
left-Stays creating o o' stays = omega arith
left-Stays (answered r u) o o' stays = omega arith
left-Stays (failed e) o o' stays = omega arith
left-Stays crashed o o' stays = omega arith

set_history-Stays : (w : World) (c : Uuid) (h : History) → Stays w (set_history w c h)
set_history-Stays w c h d there = ground arith

self_test : (n : ℕ) → (n == n) ≡ true
self_test n = ground arith

other_test : (a b : ℕ) → (a == b) ≡ false → (b == a) ≡ false
other_test a b e = ground arith

module _ (config : ServerConfig) (taken : Uuid → HttpError) (env : Env) (job : Job)
    (w : World) where
  call-left :
      (o : Option History)
      → w job.client_id ≡ o
      → let (stage, w') = add_in config env job w o in
        (left_with stage (w' job.client_id) ≤ left_with calling o - 1) × Stays w w'
  call-left none e = (omega arith, λ c there. there)
  call-left (some h) e = elim (Bool-cases (accepts h.versions job.parent_version_id)) [
    | inl accepted ↦ rw accepted (omega arith, set_history-Stays w job.client_id _)
    | inr refused ↦ rw refused (omega arith, λ c there. there)
  ]

  create-left :
      (o : Option History)
      → w job.client_id ≡ o
      → let (stage, w') = create_in taken job.client_id w o in
        (left_with stage (w' job.client_id) ≤ 1) × Stays w w'
  create-left none e = (ground arith, set_history-Stays w job.client_id _)
  create-left (some h) e = (omega arith, λ c there. there)

  -- A turn of a handler takes one from what it has to come.
  advance-left :
      (stage : Stage)
      → let (stage', w') = spec_advance config taken env job stage w in
        (left_with stage' (w' job.client_id) ≤ left_with stage (w job.client_id) - 1) × Stays w w'
  unfolding spec_advance
  advance-left calling = call-left (w job.client_id) refl
  advance-left creating = create-left (w job.client_id) refl
  advance-left (answered r u) = (omega arith, λ c there. there)
  advance-left (failed e) = (omega arith, λ c there. there)
  advance-left crashed = (omega arith, λ c there. there)

module _ (config : ServerConfig) (taken : Uuid → HttpError) (jobs : ℕ → Job) (i : ℕ) where
  turn-left :
      (j : ℕ) (env : Env) (stages : ℕ → Stage) (w : World)
      → let (stage, w') = spec_advance config taken env (jobs j) (stages j) w in
        left_with (set_stage stages j stage i) (w' (jobs i).client_id)
        ≤ left_with (stages i) (w (jobs i).client_id) - (if j == i then 1 else 0)
  turn-left j env stages w =
      let one = advance-left config taken env (jobs j) w (stages j) in
      elim (Bool-cases (j == i)) [
        | inl mine ↦ rw mine (
            subst
              (λ n.
                left_with
                  (set_stage stages j (spec_advance config taken env (jobs j) (stages j) w).0 n)
                  ((spec_advance config taken env (jobs j) (stages j) w).1 (jobs n).client_id)
                ≤ left_with (stages n) (w (jobs n).client_id) - 1)
              (eq_of_test j i mine) (rw (self_test j) one.0))
        | inr other ↦
            rw (other, other_test j i other)
              (omega
                (arith, left-Stays (stages i) (w (jobs i).client_id) _ (one.1 (jobs i).client_id)))
      ]

  run-left :
      (turns : Schedule) (stages : ℕ → Stage) (w : World)
      → let (stages', w') = spec_run config taken jobs turns (stages, w) in
        left_with (stages' i) (w' (jobs i).client_id)
        ≤ left_with (stages i) (w (jobs i).client_id) - turns_of i turns
  unfolding spec_run
  run-left [] stages w = omega arith
  run-left ((j, env) ∷ rest) stages w =
      let (stage, w') = spec_advance config taken env (jobs j) (stages j) w in
      omega (arith, run-left rest (set_stage stages j stage) w', turn-left j env stages w)

  pub spec_run_finishes :
      (turns : Schedule) (stages : ℕ → Stage) (w : World)
      → 3 ≤ turns_of i turns
      → is_finished ((spec_run config taken jobs turns (stages, w)).0 i) ≡ true
  spec_run_finishes turns stages w enough =
      let (stages', w') = spec_run config taken jobs turns (stages, w) in
      finished_of_none_left (stages' i) (w' (jobs i).client_id) (
        omega
          (arith, run-left turns stages w, at_most_three (stages i) (w (jobs i).client_id), enough))
