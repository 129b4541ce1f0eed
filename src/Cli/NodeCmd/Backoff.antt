-- ===== src/Cli/NodeCmd/Backoff.antt =====
-- How long `start` waits, and when it ends (src/cli/node_cmd.rs).
use Prim.Native.Nat.{min}
use native.Mathlib.Nat.{pow-suc}
use auxlry.Prelude.{ℕ, suc, ◌^◌, ◌≡◌, refl, ap, ◌∙◌, List, [], ◌∷◌, arith}
use auxlry.Node.Protocol.{ProtocolMessage, NodeExecutor}
use auxlry.Node.Registry.{Incoming}
use auxlry.Prelude.Bytes.{Bytes}
use auxlry.Cli.NodeCmd.{
  backoff_initial, next_backoff, waited, after_auth, Started, run_protocol_loop, AuthResult,
  accepted, invalid_token, network, authenticate, ConnectionError, application_closed, other_error,
  Round, no_endpoint, no_address, no_connect, no_handshake, connected, Ended, running,
  closed_by_core, given_up, start_rounds,
}

-- Two to so many failures, but thirty seconds at most.
abbrev pub capped : ℕ → ℕ
capped failures = min (2 ^ failures) 30

next_backoff-capped : (n : ℕ) → next_backoff (capped n) ≡ capped (suc n)
unfolding next_backoff
next_backoff-capped n = omega (arith, pow-suc 2 n)

-- What a round leads to.
pub data Fate : Type 0 where
  fails_again : Fate
  reconnects : Fate
  ends_as : Ended → Fate

abbrev auth_fate : AuthResult → ConnectionError → Fate
auth_fate accepted application_closed = ends_as closed_by_core
auth_fate accepted (other_error e) = reconnects
auth_fate (invalid_token msg) err = ends_as (given_up msg)
auth_fate (network e) err = fails_again

abbrev pub fate : Round → Fate
fate (no_endpoint e) = ends_as (given_up e)
fate (no_address e) = ends_as (given_up e)
fate (no_connect e) = fails_again
fate (no_handshake e) = fails_again
fate (connected answer streams err) = auth_fate (authenticate answer) err

abbrev delay_of : Fate → ℕ → (ℕ → List ℕ) → List ℕ
delay_of fails_again n later = capped n ∷ later (suc n)
delay_of reconnects n later = capped 0 ∷ later 1
delay_of (ends_as e) n later = []

abbrev end_of : Fate → Ended → Ended
end_of fails_again later = later
end_of reconnects later = later
end_of (ends_as e) later = e

-- The waits after so many failures since the last connection, and the end.
abbrev pub delays : ℕ → List Round → List ℕ
delays n [] = []
delays n (round ∷ rounds) = delay_of (fate round) n (λ m. delays m rounds)

abbrev pub verdict : List Round → Ended
verdict [] = running
verdict (round ∷ rounds) = end_of (fate round) (verdict rounds)

module _ {S : Type 0} (debug : ProtocolMessage → Bytes) (node : NodeExecutor S) where
  abbrev Follows : List ℕ → Ended → Started S → Type 0
  Follows ws e run = (run.waits ≡ ws) × (run.ended ≡ e)

  Follows-waited :
      (w w' : ℕ) (ws : List ℕ) (e : Ended) (run : Started S)
      → w ≡ w'
      → Follows ws e run
      → Follows (w' ∷ ws) e (waited w run)
  Follows-waited w w' ws e run same f = (cc (same, f.0), f.1)

  after_auth-Follows :
      (r : AuthResult) (err : ConnectionError) (n b : ℕ) (streams : List Incoming)
      (later : ℕ → List ℕ) (last : Ended) (again : ℕ → S → Started S) (s : S)
      → b ≡ capped n
      → ((m c : ℕ) (t : S) → c ≡ capped m → Follows (later m) last (again c t))
      → Follows
          (delay_of (auth_fate r err) n later)
          (end_of (auth_fate r err) last)
          (after_auth debug node r b streams err again s)
  after_auth-Follows accepted application_closed n b streams later last again s same go =
      (refl, refl)
  after_auth-Follows accepted (other_error e) n b streams later last again s same go =
      let t = (run_protocol_loop debug node streams s).1 in
      Follows-waited 1 1 (later 1) last (again (next_backoff 1) t) refl
        (go 1 (next_backoff 1) t (next_backoff-capped 0))
  after_auth-Follows (invalid_token msg) err n b streams later last again s same go = (refl, refl)
  after_auth-Follows (network e) err n b streams later last again s same go =
      Follows-waited b (capped n) (later (suc n)) last (again (next_backoff b) s) same
        (go (suc n) (next_backoff b) s (ap next_backoff same ∙ next_backoff-capped n))

  start_rounds-Follows :
      (n b : ℕ) (rounds : List Round) (s : S)
      → b ≡ capped n
      → Follows (delays n rounds) (verdict rounds) (start_rounds debug node b rounds s)
  unfolding start_rounds
  start_rounds-Follows n b [] s same = (refl, refl)
  start_rounds-Follows n b (no_endpoint e ∷ rounds) s same = (refl, refl)
  start_rounds-Follows n b (no_address e ∷ rounds) s same = (refl, refl)
  start_rounds-Follows n b (no_connect e ∷ rounds) s same =
      Follows-waited b (capped n) (delays (suc n) rounds) (verdict rounds)
        (start_rounds debug node (next_backoff b) rounds s) same
        (start_rounds-Follows (suc n) (next_backoff b) rounds s
          (ap next_backoff same ∙ next_backoff-capped n))
  start_rounds-Follows n b (no_handshake e ∷ rounds) s same =
      Follows-waited b (capped n) (delays (suc n) rounds) (verdict rounds)
        (start_rounds debug node (next_backoff b) rounds s) same
        (start_rounds-Follows (suc n) (next_backoff b) rounds s
          (ap next_backoff same ∙ next_backoff-capped n))
  start_rounds-Follows n b (connected answer streams err ∷ rounds) s same =
      after_auth-Follows (authenticate answer) err n b streams (λ m. delays m rounds)
        (verdict rounds) (λ c. start_rounds debug node c rounds) s same
        (λ m c t e. start_rounds-Follows m c rounds t e)

  -- `start` waits, after each failure, two to the number of failures since its last connection in
  -- seconds, but thirty at most, and one second after a connection that is lost. It ends with the
  -- first round that has no endpoint or address, whose token is refused, or which the core closes;
  -- where there is none it is still running.
  pub start_rounds-delays :
      (rounds : List Round) (s : S)
      → let run = start_rounds debug node backoff_initial rounds s in
        (run.waits ≡ delays 0 rounds) × (run.ended ≡ verdict rounds)
  start_rounds-delays rounds s = start_rounds-Follows 0 backoff_initial rounds s refl
