-- ===== src/Cli/CoreCmd/Lifecycle.antt =====
-- What the commands on the core leave behind (src/cli/core_cmd.rs).
use auxlry.Prelude.{
  ℕ, zero, suc, ◌≡◌, ◌≢◌, refl, Bool, true, false, none, some, List, [], ◌∷◌, not, ◌||◌, inl, inr,
  Bool-cases, Option, arith,
}
use auxlry.Prelude.Bytes.{Bytes}
use auxlry.Node.Protocol.{Result, ok}
use auxlry.Cli.CoreCmd.{
  Host, Report, spawned, not_running, remove_pid, read_pid, launch, start, wait_for, with_process,
  stop_running, stop, status, restart,
}

-- One of so many looks finds the process gone.
abbrev pub any_gone : ℕ → ℕ → List (ℕ → Bool) → Bool
any_gone zero pid looks = false
any_gone (suc left) pid [] = false
any_gone (suc left) pid (now ∷ looks) = not (now pid) || any_gone left pid looks

-- What `restart` leaves of a core that ran: a new one, and the old one unless a look found it gone.
pub record Restarted (pid child : ℕ) (looks : List (ℕ → Bool)) (r : Result Report × Host)
    : Type 0 where
  pub reported : r.0 ≡ ok (spawned child)
  pub no_file : r.1.core_pid ≡ none
  pub child_runs : r.1.alive child ≡ true
  pub old_runs : r.1.alive pid ≡ not (any_gone 30 pid looks)

module _ (trim : Bytes → Bytes) where
  wait_for-any_gone :
      (n pid : ℕ) (alive : ℕ → Bool) (looks : List (ℕ → Bool))
      → alive pid ≡ true
      → wait_for trim n pid alive looks pid ≡ not (any_gone n pid looks)
  unfolding wait_for
  wait_for-any_gone zero pid alive looks h = h
  wait_for-any_gone (suc n) pid alive [] h = h
  wait_for-any_gone (suc n) pid alive (now ∷ looks) h = elim (Bool-cases (now pid)) [
    | inl there ↦ rw there (wait_for-any_gone n pid now looks there)
    | inr gone ↦ rw gone gone
  ]

  status-no_file : (host : Host) → host.core_pid ≡ none → (status trim host).0 ≡ ok not_running
  unfolding status read_pid
  status-no_file host e = rw (status, read_pid, e) refl

  -- After `stop` the core is reported as not running, whatever `stop` returned, unless the PID file
  -- holds no number.
  pub stop-status :
      (looks : List (ℕ → Bool)) (host : Host) {found : Option ℕ}
      → read_pid trim host ≡ ok found
      → (status trim (stop trim looks host).1).0 ≡ ok not_running
  unfolding stop stop_running remove_pid status
  stop-status looks host {found = none} e = rw (stop, e, status, e) refl
  stop-status looks host {found = some pid} e = elim (Bool-cases (host.alive pid)) [
    | inl runs ↦ rw (stop, e, runs) (status-no_file (stop_running trim pid looks host).1 refl)
    | inr gone ↦ rw (stop, e, gone) (status-no_file (remove_pid host) refl)
  ]

  start-no_file :
      (daemon : Host → Result Report × Host) (child : ℕ) (alive : ℕ → Bool)
      → start trim daemon (ok child) false (record { core_pid = none; alive = alive })
        ≡ (ok (spawned child), record { core_pid = none; alive = with_process child alive })
  unfolding start read_pid launch
  start-no_file daemon child alive = refl

  restart-running :
      (daemon : Host → Result Report × Host) (child pid : ℕ) (looks : List (ℕ → Bool)) (host : Host)
      → read_pid trim host ≡ ok (some pid)
      → host.alive pid ≡ true
      → restart trim daemon (ok child) looks false host ≡ (
        ok (spawned child),
        record {
          core_pid = none;
          alive = with_process child (wait_for trim 30 pid host.alive looks);
        },
      )
  unfolding restart stop stop_running remove_pid launch
  restart-running daemon child pid looks host e runs =
      rw (restart, e, runs, stop, e, runs)
        (start-no_file daemon child (wait_for trim 30 pid host.alive looks))

  -- `restart`, of a core that the PID file names, starts a new one in any case; the old one runs beside
  -- it unless one of the first thirty looks found it gone. This asks that the child is another process.
  pub restart-Restarted :
      (daemon : Host → Result Report × Host) (child pid : ℕ) (looks : List (ℕ → Bool)) (host : Host)
      → read_pid trim host ≡ ok (some pid)
      → host.alive pid ≡ true
      → pid ≢ child
      → Restarted pid child looks (restart trim daemon (ok child) looks false host)
  restart-Restarted daemon child pid looks host e runs differ =
      rw (restart-running daemon child pid looks host e runs) (record {
        reported = refl;
        no_file = refl;
        child_runs = ground arith;
        old_runs = ground (arith, wait_for-any_gone 30 pid host.alive looks runs);
      })
