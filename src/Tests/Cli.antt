-- ===== src/Tests/Cli.antt =====
-- Runs of src/cli and src/node/linking.rs.
use auxlry.Prelude.{
  ℕ, ◌≡◌, refl, true, false, Option, none, some, if◌then◌else◌, ◌++◌, List, [], ◌∷◌, ◌==◌, arith,
}
use auxlry.Prelude.Bytes.{Bytes, codes, em_dash}
use auxlry.Prelude.Texts.{text_eq}
use auxlry.Prelude.Decimal.{parse_digits}
use auxlry.Prelude.Membership.{elem}
use auxlry.Node.Auth.{LinkTables}
use auxlry.Node.Linking.{last_digits, generate_link_code}
use auxlry.Node.Linking.Digits.{decimal, AreDigits, generate_link_code-decimal}
use auxlry.Node.Protocol.{Result, ok, failed, token_auth_response, read_file}
use auxlry.Node.Registry.{received, unreadable}
use auxlry.Prelude.{length, ◌%◌}
use auxlry.Cli.CoreCmd.{Host, Report, stopped, parse_u32, read_pid, restart, link}
use auxlry.Cli.CoreCmd.Invitation.{core_link-Joins}
use auxlry.Cli.CoreCmd.Lifecycle.{Restarted, restart-Restarted}
use auxlry.Cli.NodeCmd
use auxlry.Node.Linking.{writes}
use auxlry.Cli.NodeCmd.{
  application_closed, other_error, Round, no_connect, connected, start_rounds, backoff_initial,
  response, next_backoff, authenticate, closed_by_core, run_protocol_loop,
}
use auxlry.Cli.NodeCmd.Backoff.{delays, verdict, start_rounds-delays}
use auxlry.Cli.NodeCmd.Joining.{Joins}
use auxlry.Tests.Node.{debug, machine}

-- Nothing is trimmed of the texts here.
abbrev trim : Bytes → Bytes
trim text = text

a_code : generate_link_code 4_294_042 ≡ "294042"
unfolding generate_link_code last_digits
a_code = refl

generate_link_code-decimal_example :
    (decimal 0 (codes (generate_link_code 4_294_042)) ≡ 4_294_042 % 1000000)
    × (length (codes (generate_link_code 4_294_042)) ≡ 6)
    × AreDigits (codes (generate_link_code 4_294_042))
generate_link_code-decimal_example = generate_link_code-decimal 4_294_042

-- Two failures, a connection that is lost, a failure, and a connection that the core closes.
abbrev rounds : List Round
rounds =
    no_connect (codes "refused")
    ∷ no_connect (codes "refused")
    ∷ connected (ok (token_auth_response true)) [] (other_error (codes "timed out"))
    ∷ no_connect (codes "refused")
    ∷ connected (ok (token_auth_response true)) (received (read_file (codes "a")) ∷ unreadable ∷ [])
        application_closed
    ∷ []

waited_for :
    start_rounds debug machine 1 rounds 4
    ≡ record { waits = 1 ∷ 2 ∷ 1 ∷ 2 ∷ []; ended = closed_by_core; machine = 5 }
unfolding start_rounds next_backoff authenticate run_protocol_loop response
waited_for = refl

start_rounds-delays_example :
    let run = start_rounds debug machine backoff_initial rounds 4 in
    (run.waits ≡ delays 0 rounds) × (run.ended ≡ verdict rounds)
start_rounds-delays_example = start_rounds-delays debug machine rounds 4

-- The core runs as process 77.
abbrev running_host : Host
running_host = record { core_pid = some (codes "77"); alive = λ pid. pid == 77 }

is_77 : read_pid trim running_host ≡ ok (some 77)
unfolding read_pid parse_u32 parse_digits
is_77 = refl

abbrev leaves_file : Host → Result Report × Host
leaves_file host = (ok stopped, host)

restart-Restarted_example :
    Restarted 77 78
      ((λ pid. pid == 77) ∷ [])
      (restart trim leaves_file (ok 78) ((λ pid. pid == 77) ∷ []) false running_host)
restart-Restarted_example =
    restart-Restarted trim leaves_file 78 77 ((λ pid. pid == 77) ∷ []) running_host is_77 refl
      (omega arith)

abbrev link_tables : LinkTables
link_tables = record { pending = "000000" ∷ []; tokens = [] }

is_fresh : elem (generate_link_code 294042) link_tables.pending ≡ false
unfolding generate_link_code last_digits
is_fresh = refl

-- Only this text is read as an address.
abbrev parse : Bytes → Option ℕ
parse text = if text_eq text (codes "10.0.0.7:8401") then some 8401 else none

is_address : parse (codes "10.0.0.7:8401") ≡ some 8401
unfolding text_eq
is_address = refl

-- A name in place of an address is refused, and nothing is written.
no_address :
    NodeCmd.link parse
      (ok tt)
      writes
      writes
      (codes "core:8401")
      (λ at. failed [])
      (record { token_file = none; core_addr_file = none })
    ≡ (
      failed (codes "invalid core address " ++ (em_dash ++ codes " expected host:port")),
      record { token_file = none; core_addr_file = none },
    )
unfolding NodeCmd.link text_eq
no_address = refl

core_link-Joins_example :
    let (result, after) = link trim 294042 (ok 8401) running_host link_tables in
    (result ≡ ok (generate_link_code 294042, 8401))
    × Joins parse trim
        (generate_link_code 294042)
        "box"
        "t1"
        (codes "10.0.0.7:8401")
        after.1
        (record { token_file = none; core_addr_file = none })
core_link-Joins_example =
    core_link-Joins parse trim 294042 8401 77 running_host link_tables is_77 refl is_fresh "box"
      "t1" (codes "10.0.0.7:8401") (record { token_file = none; core_addr_file = none }) 8401 b't'
      b'1' (codes "1") (codes "0.0.0.7:8401") is_address refl refl refl refl
