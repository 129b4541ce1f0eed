-- ===== src/Cli/CoreCmd/Pid.antt =====
-- The PID that the daemon writes is read again (src/core/daemon.rs and src/cli/core_cmd.rs).
use auxlry.Prelude.{ℕ, ◌≡◌, refl, ◌<◌, some, arith}
use auxlry.Prelude.Bytes.{Bytes}
use auxlry.Prelude.Decimal.{digits, parse_unsigned-digits}
use auxlry.Node.Protocol.{ok}
use auxlry.Cli.CoreCmd.{Host, parse_u32, write_pid, read_pid}

-- The PID that the daemon writes into its file is the one that the commands read there. This asks
-- that `trim` leaves its digits as they are.
pub read_pid-write_pid :
    (trim : Bytes → Bytes) (pid : ℕ) (host : Host)
    → pid < 4294967296
    → trim (digits 10 pid) ≡ digits 10 pid
    → read_pid trim (write_pid pid host) ≡ ok (some pid)
unfolding read_pid write_pid parse_u32
read_pid-write_pid trim pid host h e =
    rw (e, parse_unsigned-digits 4294967296 9 pid (omega arith) h) refl
