-- ===== src/Daemon/Loops/Slots.antt =====
-- What gives slots of builds back: crates/paavod/src/dispatch.rs, `run_one_build`.
use paavo.Prelude.{
  ℕ, zero, suc, ◌+◌, ◌≤◌, ◌≡◌, refl, String, Option, none, some, List, [], ◌∷◌, length-append,
  arith, find_where,
}
use paavo.Proto.Job.{JobId}
use paavo.Db.Store.{Database}
use paavo.Core.BuildCache.{Disk}
use paavo.Core.Cancel.{cancel_if_pending}
use paavo.Daemon.State.{
  Config, Daemon, BuildTask, RunTask, BuildPhase, starting, cached, working, ended, released,
}
use paavo.Daemon.Handlers.{cancel_job, quarantine_board, unquarantine_board, delete_board}
use paavo.Daemon.Dispatch.{BuildOutcome}
use paavo.Daemon.Steps.{
  Event, submits, build_looks_up, build_uses_cache, build_returns, build_panics, build_releases,
  build_finishes, run_returns, cancels, adds_board, quarantines_board, unquarantines_board,
  deletes_board, purges, drains, handle, set_phase, is_build_of, is_run_of, on_lookup, on_cached,
  on_built, on_panic, on_release, on_finish,
}
use paavo.Daemon.Loops.Requests.{
  slots, cancelled-slots, after_board-slots, post_job-slots, add_board-slots, purge-slots,
}
use paavo.Daemon.Loops.{Others, handle_all}

-- The slot that a build gives back.
abbrev pub returned : Event → ℕ
returned (build_releases id) = 1
returned _ = 0

abbrev pub returned_by : List Event → ℕ
returned_by [] = 0
returned_by (e ∷ es) = returned e + returned_by es

-- All that come back in the rounds below `n`.
abbrev pub returned_below : ℕ → Others → ℕ
returned_below zero others = 0
returned_below (suc n) others =
    returned_by (others.before_claim n)
    + returned_by (others.after_claim n)
    + returned_below n others

set_phase-slots :
    (id : JobId) (r : Database × BuildPhase) (d : Daemon) → slots (set_phase id r d) ≡ slots d
unfolding set_phase
set_phase-slots id (store, phase) d = refl

module _ (cfg : Config) (d : Daemon) where
  on_lookup-slots :
      (disk : Disk) (now_ms : ℕ) (t : BuildTask) (p : BuildPhase)
      → slots (on_lookup disk now_ms t p d) ≡ slots d
  on_lookup-slots disk now_ms t starting = set_phase-slots t.job.id _ d
  on_lookup-slots disk now_ms t (cached e) = refl
  on_lookup-slots disk now_ms t working = refl
  on_lookup-slots disk now_ms t (ended o) = refl
  on_lookup-slots disk now_ms t (released o) = refl

  on_cached-slots : (t : BuildTask) (p : BuildPhase) → slots (on_cached cfg t p d) ≡ slots d
  on_cached-slots t starting = refl
  on_cached-slots t (cached e) = set_phase-slots t.job.id _ d
  on_cached-slots t working = refl
  on_cached-slots t (ended o) = refl
  on_cached-slots t (released o) = refl

  on_built-slots :
      (disk : Disk) (copied : Option String) (now_ms : ℕ) (o : BuildOutcome) (t : BuildTask)
      (p : BuildPhase)
      → slots (on_built cfg disk copied now_ms o t p d) ≡ slots d
  on_built-slots disk copied now_ms o t starting = refl
  on_built-slots disk copied now_ms o t (cached e) = refl
  on_built-slots disk copied now_ms o t working = set_phase-slots t.job.id _ d
  on_built-slots disk copied now_ms o t (ended e) = refl
  on_built-slots disk copied now_ms o t (released e) = refl

  on_panic-slots :
      (message : String) (t : BuildTask) (p : BuildPhase) → slots (on_panic message t p d) ≡ slots d
  on_panic-slots message t starting = set_phase-slots t.job.id _ d
  on_panic-slots message t (cached e) = set_phase-slots t.job.id _ d
  on_panic-slots message t working = set_phase-slots t.job.id _ d
  on_panic-slots message t (ended o) = refl
  on_panic-slots message t (released o) = refl

  on_finish-slots :
      (now_ms : ℕ) (t : BuildTask) (p : BuildPhase) → slots (on_finish now_ms t p d) ≡ slots d
  on_finish-slots now_ms t starting = refl
  on_finish-slots now_ms t (cached e) = refl
  on_finish-slots now_ms t working = refl
  on_finish-slots now_ms t (ended o) = refl
  on_finish-slots now_ms t (released o) = refl

  on_release-slots : (t : BuildTask) (p : BuildPhase) → slots (on_release t p d) ≤ 1 + slots d
  on_release-slots t starting = omega arith
  on_release-slots t (cached e) = omega arith
  on_release-slots t working = omega arith
  on_release-slots t (ended o) = omega (arith, length-append d.free_slots (t.slot ∷ []))
  on_release-slots t (released o) = omega arith

  on_build-slots :
      (f : BuildTask → Daemon) (n : ℕ) (o : Option BuildTask)
      → slots d ≤ n
      → ((t : BuildTask) → slots (f t) ≤ n)
      → slots (elim o as (λ _. Daemon) [ none ↦ d | some t ↦ f t ]) ≤ n
  on_build-slots f n none h keep = h
  on_build-slots f n (some t) h keep = keep t

  on_run-slots :
      (f : RunTask → Daemon) (n : ℕ) (o : Option RunTask)
      → slots d ≤ n
      → ((t : RunTask) → slots (f t) ≤ n)
      → slots (elim o as (λ _. Daemon) [ none ↦ d | some t ↦ f t ]) ≤ n
  on_run-slots f n none h keep = h
  on_run-slots f n (some t) h keep = keep t

same-le : (m n : ℕ) → m ≡ n → m ≤ 0 + n
same-le m n e = omega (arith, e)

handle-slots :
    (cfg : Config) (e : Event) (d : Daemon) → slots (handle cfg e d) ≤ returned e + slots d
unfolding handle cancel_job quarantine_board unquarantine_board delete_board
handle-slots cfg (submits req now_ms) d = same-le _ (slots d) (post_job-slots req now_ms d)
handle-slots cfg (build_looks_up id disk now_ms) d =
    on_build-slots cfg d _ (0 + slots d) (find_where (is_build_of id) d.builds) (omega arith)
      λ t. same-le _ (slots d) (on_lookup-slots cfg d disk now_ms t t.phase)
handle-slots cfg (build_uses_cache id) d =
    on_build-slots cfg d _ (0 + slots d) (find_where (is_build_of id) d.builds) (omega arith)
      λ t. same-le _ (slots d) (on_cached-slots cfg d t t.phase)
handle-slots cfg (build_returns id disk copied now_ms o) d =
    on_build-slots cfg d _ (0 + slots d) (find_where (is_build_of id) d.builds) (omega arith)
      λ t. same-le _ (slots d) (on_built-slots cfg d disk copied now_ms o t t.phase)
handle-slots cfg (build_panics id message) d =
    on_build-slots cfg d _ (0 + slots d) (find_where (is_build_of id) d.builds) (omega arith)
      λ t. same-le _ (slots d) (on_panic-slots cfg d message t t.phase)
handle-slots cfg (build_releases id) d =
    on_build-slots cfg d _ (1 + slots d) (find_where (is_build_of id) d.builds) (omega arith)
      λ t. on_release-slots cfg d t t.phase
handle-slots cfg (build_finishes id now_ms) d =
    on_build-slots cfg d _ (0 + slots d) (find_where (is_build_of id) d.builds) (omega arith)
      λ t. same-le _ (slots d) (on_finish-slots cfg d now_ms t t.phase)
handle-slots cfg (run_returns id o clean now_ms) d =
    on_run-slots cfg d _ (0 + slots d) (find_where (is_run_of id) d.runs) (omega arith)
      λ t. same-le _ (slots d) refl
handle-slots cfg (cancels id now_ms) d =
    same-le _ (slots d) (cancelled-slots id d (cancel_if_pending id now_ms d.db))
handle-slots cfg (adds_board spec now_ms) d = same-le _ (slots d) (add_board-slots spec now_ms d)
handle-slots cfg (quarantines_board id reason) d = same-le _ (slots d) (after_board-slots _ d _)
handle-slots cfg (unquarantines_board id) d = same-le _ (slots d) (after_board-slots _ d _)
handle-slots cfg (deletes_board id) d = same-le _ (slots d) (after_board-slots _ d _)
handle-slots cfg (purges boards) d = same-le _ (slots d) (purge-slots boards d)
handle-slots cfg drains d = same-le _ (slots d) refl

pub handle_all-slots :
    (cfg : Config) (es : List Event) (d : Daemon)
    → slots (handle_all cfg es d) ≤ returned_by es + slots d
unfolding handle_all
handle_all-slots cfg [] d = omega arith
handle_all-slots cfg (e ∷ es) d =
    omega (arith, handle-slots cfg e d, handle_all-slots cfg es (handle cfg e d))
