-- ===== src/Node/Refinement.antt =====
-- A remote node (src/node/remote.rs) does what the node at the other end would do.
use auxlry.Prelude.{◌≡◌, refl, ap, ◌++◌, Option}
use auxlry.Prelude.Bytes.{Bytes, codes}
use auxlry.Node.Protocol.{
  ProtocolMessage, run_command_result, read_file_result, list_dir_result, search_files_result,
  error_message, reply, write_reply, Result, ok, failed, NodeExecutor, handle_message,
}
use auxlry.Node.Remote.{
  intact, no_request, no_reply, as_command, as_content, as_written, as_entries, as_paths, request,
  remote_node, answer, carried, remote_error,
}

-- A result with a prefix to its error.
abbrev pub wrap : {S A : Type 0} → Bytes → Result A × S → Result A × S
wrap prefix (ok a, s) = (ok a, s)
wrap prefix (failed e, s) = (failed (prefix ++ e), s)

-- Each operation of one executor is that of the other, with a prefix to its errors.
pub record Mirrors {S : Type 0} (far near : NodeExecutor S) : Type 0 where
  pub command :
      (c : Bytes) (cwd : Option Bytes) (s : S)
      → far.exec_command c cwd s ≡ wrap (codes "remote error: ") (near.exec_command c cwd s)
  pub read :
      (p : Bytes) (s : S) → far.exec_read p s ≡ wrap (codes "remote error: ") (near.exec_read p s)
  pub write :
      (p t : Bytes) (s : S)
      → far.exec_write p t s ≡ wrap (codes "remote write error: ") (near.exec_write p t s)
  pub entries :
      (p : Bytes) (s : S) → far.exec_list p s ≡ wrap (codes "remote error: ") (near.exec_list p s)
  pub search :
      (p : Bytes) (root : Option Bytes) (s : S)
      → far.exec_search p root s ≡ wrap (codes "remote error: ") (near.exec_search p root s)

-- Each operation fails with the error, and leaves the machine as `left` says from its state before
-- and from the state that the operation of the other executor leaves.
pub record Lost {S : Type 0} (e : Bytes) (left : S → S → S) (far near : NodeExecutor S)
    : Type 0 where
  pub command :
      (c : Bytes) (cwd : Option Bytes) (s : S)
      → far.exec_command c cwd s ≡ (failed e, left s (near.exec_command c cwd s).1)
  pub read : (p : Bytes) (s : S) → far.exec_read p s ≡ (failed e, left s (near.exec_read p s).1)
  pub write :
      (p t : Bytes) (s : S) → far.exec_write p t s ≡ (failed e, left s (near.exec_write p t s).1)
  pub entries : (p : Bytes) (s : S) → far.exec_list p s ≡ (failed e, left s (near.exec_list p s).1)
  pub search :
      (p : Bytes) (root : Option Bytes) (s : S)
      → far.exec_search p root s ≡ (failed e, left s (near.exec_search p root s).1)

-- The round trip of one result through the message that carries it.
module _ {S : Type 0} (s : S) where
  by_message :
      {A : Type 0} (found : A → ProtocolMessage) (read : ProtocolMessage → Result A)
      → ((a : A) → read (found a) ≡ ok a)
      → ((e : Bytes) → read (error_message e) ≡ remote_error e)
      → (r : Result A × S)
      → answer read (carried intact s (reply found r)) ≡ wrap (codes "remote error: ") r
  by_message found read f g (ok a, t) = ap (λ x. (x, t)) (f a)
  by_message found read f g (failed e, t) = ap (λ x. (x, t)) (g e)

  by_write :
      (r : Result Unit × S)
      → answer as_written (carried intact s (write_reply r)) ≡ wrap (codes "remote write error: ") r
  unfolding as_written
  by_write (ok u, t) = refl
  by_write (failed e, t) = refl

  unread :
      {A B : Type 0} (found : A → ProtocolMessage) (read : ProtocolMessage → Result B) (e : Bytes)
      (r : Result A × S)
      → answer read (carried (no_reply e) s (reply found r)) ≡ (failed e, r.1)
  unread found read e (ok a, t) = refl
  unread found read e (failed f, t) = refl

  unread_write :
      (e : Bytes) (r : Result Unit × S)
      → answer as_written (carried (no_reply e) s (write_reply r)) ≡ (failed e, r.1)
  unread_write e (ok u, t) = refl
  unread_write e (failed f, t) = refl

module _ {S : Type 0} (debug : ProtocolMessage → Bytes) (node : NodeExecutor S) where
  -- Over a stream that carries both messages every operation of the remote node gives what the node
  -- at the other end gives and leaves its machine in the same state; an error has a prefix.
  pub remote_node-Mirrors : Mirrors (remote_node debug node intact) node
  unfolding remote_node request handle_message as_command as_content as_entries as_paths
  remote_node-Mirrors = record {
    command = λ c cwd s.
        by_message s run_command_result as_command (λ a. refl) (λ e. refl)
          (node.exec_command c cwd s);
    read = λ p s.
        by_message s read_file_result as_content (λ a. refl) (λ e. refl) (node.exec_read p s);
    write = λ p t s. by_write s (node.exec_write p t s);
    entries =
        λ p s. by_message s list_dir_result as_entries (λ a. refl) (λ e. refl) (node.exec_list p s);
    search = λ p root s.
        by_message s search_files_result as_paths (λ a. refl) (λ e. refl)
          (node.exec_search p root s);
  }

  -- If the stream fails before the request arrives, every operation of the remote node fails with
  -- that error and leaves the machine as it was; if it fails before the answer does, the operation
  -- fails with that error although it was carried out on the machine.
  pub remote_node-Lost :
      (e : Bytes)
      → Lost e (λ before after. before) (remote_node debug node (no_request e)) node
        × Lost e (λ before after. after) (remote_node debug node (no_reply e)) node
  unfolding remote_node request handle_message
  remote_node-Lost e = (
    record {
      command = λ c cwd s. refl;
      read = λ p s. refl;
      write = λ p t s. refl;
      entries = λ p s. refl;
      search = λ p root s. refl;
    },
    record {
      command = λ c cwd s. unread s run_command_result as_command e (node.exec_command c cwd s);
      read = λ p s. unread s read_file_result as_content e (node.exec_read p s);
      write = λ p t s. unread_write s e (node.exec_write p t s);
      entries = λ p s. unread s list_dir_result as_entries e (node.exec_list p s);
      search = λ p root s. unread s search_files_result as_paths e (node.exec_search p root s);
    },
  )
