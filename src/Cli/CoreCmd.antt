-- ===== src/Cli/CoreCmd.antt =====
-- The commands on the core (src/cli/core_cmd.rs), over the PID file that the daemon writes
-- (src/core/daemon.rs) and the processes that run. `trim` is that of the standard library.
pub mod Pid
pub mod Lifecycle
pub mod Invitation
use auxlry.Prelude.{
  ℕ, zero, suc, ◌+◌, ◌-◌, ◌*◌, String, Bool, true, false, Option, none, some, List, [], ◌∷◌, ◌++◌,
  ◌==◌, ◌&&◌, leb, ltb, if◌then◌else◌,
}
use auxlry.Prelude.Bytes.{Bytes, codes, em_dash}
use auxlry.Prelude.Decimal.{digits, parse_unsigned}
use auxlry.Prelude.Membership.{elem}
use auxlry.Node.Auth.{LinkTables}
use auxlry.Node.Linking.{generate_link_code}
use auxlry.Node.Protocol.{Result, ok, failed}

-- The PID file, where there is one, and which processes run.
pub record Host : Type 0 where
  pub core_pid : Option Bytes
  pub alive : ℕ → Bool

-- What a command reports.
pub data Report : Type 0 where
  daemon_ended : Report
  spawned : ℕ → Report
  stopped : Report
  is_running : ℕ → Report
  was_stale : Report
  not_running : Report

-- `str::parse::<u32>`
unfoldable pub parse_u32 : Bytes → Option ℕ
unfolding parse_unsigned
parse_u32 text = parse_unsigned 4294967296 text

-- `std::fs::write(&paths.core_pid, pid.to_string())` of the daemon.
unfoldable pub write_pid : ℕ → Host → Host
write_pid pid host = record host { core_pid = some (digits 10 pid) }

unfoldable pub remove_pid : Host → Host
remove_pid host = record host { core_pid = none }

-- The process table after a process was started.
abbrev pub with_process : ℕ → (ℕ → Bool) → ℕ → Bool
with_process child alive pid = if pid == child then true else alive pid

module _ (trim : Bytes → Bytes) where
  abbrev pub parsed : Option ℕ → Result (Option ℕ)
  parsed none = failed (codes "invalid PID file")
  parsed (some pid) = ok (some pid)

  unfoldable pub read_pid : Host → Result (Option ℕ)
  read_pid host = elim host.core_pid [
    | none ↦ ok none
    | some content ↦ parsed (parse_u32 (trim content))
  ]

  -- In the foreground the daemon runs here: `daemon` gives what it leaves. Else a child is spawned,
  -- which runs this command in the foreground: `child` is its number, or why there is none.
  unfoldable pub launch :
      (Host → Result Report × Host) → Result ℕ → Bool → Host → Result Report × Host
  launch daemon child true host = daemon host
  launch daemon (failed e) false host = (failed e, host)
  launch daemon (ok pid) false host =
      (ok (spawned pid), record host { alive = with_process pid host.alive })

  unfoldable pub start :
      (Host → Result Report × Host) → Result ℕ → Bool → Host → Result Report × Host
  start daemon child foreground host = elim (read_pid host) [
    | failed e ↦ (failed e, host)
    | ok none ↦ launch daemon child foreground host
    | ok (some pid) ↦
        if host.alive pid
        then (failed (codes "core is already running (PID " ++ (digits 10 pid ++ codes ")")), host)
        else launch daemon child foreground (remove_pid host)
  ]

  -- The waiting of `stop`: at each of so many looks, the processes that run then. It ends as soon as
  -- the core is gone.
  unfoldable pub wait_for : ℕ → ℕ → (ℕ → Bool) → List (ℕ → Bool) → ℕ → Bool
  wait_for zero pid alive looks = alive
  wait_for (suc left) pid alive [] = alive
  wait_for (suc left) pid alive (now ∷ looks) =
      let rest = wait_for left pid now looks in if now pid then rest else now

  unfoldable pub stop_running : ℕ → List (ℕ → Bool) → Host → Result Report × Host
  stop_running pid looks host =
      (ok stopped, remove_pid (record host { alive = wait_for 30 pid host.alive looks }))

  unfoldable pub stop : List (ℕ → Bool) → Host → Result Report × Host
  stop looks host = elim (read_pid host) [
    | failed e ↦ (failed e, host)
    | ok none ↦ (failed (codes "core is not running (no PID file)"), host)
    | ok (some pid) ↦
        if host.alive pid
        then stop_running pid looks host
        else (failed (codes "core is not running (stale PID file removed)"), remove_pid host)
  ]

  unfoldable pub status : Host → Result Report × Host
  status host = elim (read_pid host) [
    | failed e ↦ (failed e, host)
    | ok none ↦ (ok not_running, host)
    | ok (some pid) ↦
        if host.alive pid then (ok (is_running pid), host) else (ok was_stale, remove_pid host)
  ]

  abbrev pub and_start :
      (Host → Result Report × Host) → Result ℕ → Bool → Result Report × Host → Result Report × Host
  and_start daemon child foreground (failed e, host) = (failed e, host)
  and_start daemon child foreground (ok r, host) = start daemon child foreground host

  unfoldable pub restart :
      (Host → Result Report × Host)
      → Result ℕ
      → List (ℕ → Bool)
      → Bool
      → Host
      → Result Report × Host
  restart daemon child looks foreground host = elim (read_pid host) [
    | failed e ↦ (failed e, host)
    | ok none ↦ start daemon child foreground host
    | ok (some pid) ↦
        if host.alive pid
        then and_start daemon child foreground (stop looks host)
        else start daemon child foreground host
  ]

  -- A code that is pending already is refused by the primary key.
  unfoldable pub store_pending_code : String → LinkTables → Result Unit × LinkTables
  store_pending_code code db =
      if elem code db.pending
      then (failed (codes "failed to store pending link code"), db)
      else (ok tt, record db { pending = code ∷ db.pending })

  -- The code, and the port that the configuration gives.
  abbrev pub printed :
      String → Result ℕ → Result Unit × LinkTables → Result (String × ℕ) × LinkTables
  printed code port (failed e, db) = (failed e, db)
  printed code (failed e) (ok u, db) = (failed e, db)
  printed code (ok port) (ok u, db) = (ok (code, port), db)

  abbrev on_host :
      Host → Result (String × ℕ) × LinkTables → Result (String × ℕ) × (Host × LinkTables)
  on_host host (r, db) = (r, (host, db))

  unfoldable pub link : ℕ → Result ℕ → Host → LinkTables → Result (String × ℕ) × (Host × LinkTables)
  link drawn port host db = elim (read_pid host) [
    | failed e ↦ (failed e, (host, db))
    | ok none ↦
        (failed (codes "core is not running " ++ (em_dash ++ codes " start it first")), (host, db))
    | ok (some pid) ↦
        if host.alive pid
        then on_host host (
            printed (generate_link_code drawn) port
              (store_pending_code (generate_link_code drawn) db))
        else (failed (codes "core is not running (stale PID file removed)"), (remove_pid host, db))
  ]
