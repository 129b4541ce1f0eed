-- ===== src/Cli/CoreCmd/Invitation.antt =====
-- From the code that `core link` prints to a node that is let in (src/cli/core_cmd.rs,
-- src/cli/node_cmd.rs and src/node/handler.rs).
use auxlry.Prelude.{ℕ, ◌≡◌, refl, inl, String, true, false, Option, some, ◌∷◌}
use auxlry.Prelude.Bytes.{Bytes, codes}
use auxlry.Prelude.Membership.{elem}
use auxlry.Node.Auth.{LinkTables}
use auxlry.Node.Linking.{NodeFiles, generate_link_code}
use auxlry.Node.Protocol.{ok}
use auxlry.Cli.CoreCmd.{Host, read_pid, store_pending_code, link}
use auxlry.Cli.NodeCmd.Joining.{Joins, link-Joins}

module _ {Addr : Type 0} (parse : Bytes → Option Addr) (trim : Bytes → Bytes) (drawn port pid : ℕ)
    (host : Host) (db : LinkTables) where
  abbrev pub code : String
  code = generate_link_code drawn

  link-code :
      read_pid trim host ≡ ok (some pid)
      → host.alive pid ≡ true
      → elem code db.pending ≡ false
      → link trim drawn (ok port) host db
        ≡ (ok (code, port), (host, record db { pending = code ∷ db.pending }))
  unfolding link store_pending_code
  link-code e runs fresh = rw (e, link, runs, store_pending_code, fresh) refl

  -- Where the core runs and the code that is drawn is not pending, `core link` prints the code, and a
  -- node that links with it, whatever its name, then starts with the token and the address that it
  -- was given, is let in by the core under its name by that token, and takes the answer for an
  -- acceptance. This asks that the address is one that the node can read as a socket address, that
  -- the token and the address are texts that `trim` leaves as they are and that are not empty, that
  -- the node can write its files, and that the statements of the core and the streams work.
  pub core_link-Joins :
      read_pid trim host ≡ ok (some pid)
      → host.alive pid ≡ true
      → elem code db.pending ≡ false
      → (name token : String) (addr : Bytes) (files : NodeFiles) (at : Addr) (c a : ℕ)
        (token_rest addr_rest : Bytes)
      → parse addr ≡ some at
      → codes token ≡ c ∷ token_rest
      → addr ≡ a ∷ addr_rest
      → trim (codes token) ≡ codes token
      → trim addr ≡ addr
      → let (result, after) = link trim drawn (ok port) host db in
        (result ≡ ok (code, port)) × Joins parse trim code name token addr after.1 files
  core_link-Joins e runs fresh name token addr files at c a token_rest addr_rest parsed st sa tt'
        ta =
      rw (link-code e runs fresh) (
        refl,
        link-Joins parse trim code name token addr (record db { pending = code ∷ db.pending }) files
            (inl refl) at parsed c a token_rest addr_rest st sa tt' ta,
      )
