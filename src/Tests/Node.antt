-- ===== src/Tests/Node.antt =====
-- Runs of src/node.
use auxlry.Prelude.{ℕ, suc, ◌≡◌, refl, true, false, [], ◌∷◌}
use auxlry.Prelude.Bytes.{Bytes, codes}
use auxlry.Node.Protocol.{ProtocolMessage, ok, failed, NodeExecutor, handle_message}
use auxlry.Node.Remote.{intact, as_content, request, remote_node}
use auxlry.Node.Refinement.{Mirrors, remote_node-Mirrors}
use auxlry.Node.Auth.{
  LinkTables, Working, auth_request, without, consume_pending_code, drop_name, store_node_token,
  answer_with, store_and_answer, admit_code, authenticate,
}
use auxlry.Node.Auth.Codes.{Judged, all_work, authenticate-Judged}

abbrev pub debug : ProtocolMessage → Bytes
debug msg = codes "message"

-- A machine that counts its operations: files are read and written, all else fails.
abbrev pub machine : NodeExecutor ℕ
machine = record {
  exec_command = λ command cwd n. (failed (codes "no shell"), suc n);
  exec_read = λ path n. (ok (record { path = path; content = codes "text" }), suc n);
  exec_write = λ path content n. (ok tt, suc n);
  exec_list = λ path n. (failed (codes "no list"), suc n);
  exec_search = λ pattern root n. (failed (codes "no search"), suc n);
}

reads :
    (remote_node debug machine intact).exec_read (codes "a.txt") 4
    ≡ (ok (record { path = codes "a.txt"; content = codes "text" }), 5)
unfolding remote_node request handle_message as_content
reads = refl

remote_node-Mirrors_example : Mirrors (remote_node debug machine intact) machine
remote_node-Mirrors_example = remote_node-Mirrors debug machine

abbrev tables : LinkTables
tables = record { pending = "123456" ∷ []; tokens = [] }

-- Here the reply to the node is lost.
abbrev reply_lost : Working
reply_lost = record { reads = true; stores = true; sends = false }

lost :
    (authenticate reply_lost "t1" (auth_request "123456" "box") tables).tables
    ≡ record { pending = []; tokens = record { node_name = "box"; token = "t1" } ∷ [] }
unfolding authenticate admit_code store_and_answer answer_with consume_pending_code without
    store_node_token drop_name
lost = refl

authenticate-Judged_example :
    Judged all_work "123456" "box" "t1" tables
      (authenticate all_work "t1" (auth_request "123456" "box") tables)
authenticate-Judged_example = authenticate-Judged "123456" "box" "t1" tables all_work
