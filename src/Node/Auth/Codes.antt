-- ===== src/Node/Auth/Codes.antt =====
-- A link code lets one node in, once (`authenticate` of src/node/handler.rs).
use auxlry.Prelude.{
  ◌≡◌, refl, sym, ap, String, Bool, true, false, Option, none, some, List, [], ◌∷◌, ◌⊎◌, str_eq,
  str_eq_iff, Bool-cases, inl, inr,
}
use auxlry.Prelude.Membership.{Elem, elem, elem→Elem, elem-false, elem_self}
use auxlry.Node.Auth.{
  TokenRow, LinkTables, without, consume_pending_code, store_node_token, find_node_by_token,
  get_node_token, verify_token, auth_request, auth_response, AuthReply, Working, Authenticated,
  answer_with, store_and_answer, admit_code, authenticate,
}

elem-without : (code : String) (pending : List String) → elem code (without code pending) ≡ false
unfolding without
elem-without code [] = refl
elem-without code (c ∷ rest) = elim (Bool-cases (str_eq c code)) [
  | inl same ↦ rw (same, elem-without code rest)
  | inr other ↦ elim (Bool-cases (str_eq code c)) [
    | inl is ↦ absurd (cc (other, (str_eq_iff c code).1 (sym ((str_eq_iff code c).0 is))))
    | inr is_not ↦ rw (other, is_not, elem-without code rest)
  ]
]

find_node_by_token-store :
    (name token : String) (db : LinkTables)
    → find_node_by_token token (store_node_token name token db) ≡ some name
unfolding find_node_by_token store_node_token
find_node_by_token-store name token db = rw (elem_self token)

verify_token-store :
    (name token : String) (db : LinkTables)
    → verify_token name token (store_node_token name token db) ≡ true
unfolding verify_token get_node_token store_node_token
verify_token-store name token db = rw (elem_self name, verify_token, elem_self token)

-- No request with the code is let in, whichever steps succeed.
abbrev pub Spent : String → LinkTables → Type 0
Spent code db =
    (works : Working) (other_token other_name : String)
    → (authenticate works other_token (auth_request code other_name) db).node ≡ none

-- The tables and the answer_with after a node presents a code. It is let in: the code is pending, every
-- step succeeds, its token is stored and finds it, and the code is spent.
pub record LetIn (works : Working) (code name token : String) (db : LinkTables) (a : Authenticated)
    : Type 0 where
  pub was_pending : Elem code db.pending
  pub read : works.reads ≡ true
  pub stored : works.stores ≡ true
  pub sent : works.sends ≡ true
  pub named : a.node ≡ some name
  pub found : find_node_by_token token a.tables ≡ some name
  pub verified : verify_token name token a.tables ≡ true
  pub spent : Spent code a.tables

-- The code is not pending, or the database did not look: no token changes.
pub record Refused (works : Working) (code : String) (db : LinkTables) (a : Authenticated)
    : Type 0 where
  pub not_found : (¬ Elem code db.pending) ⊎ (works.reads ≡ false)
  pub nameless : a.node ≡ none
  pub tokens_kept : a.tables.tokens ≡ db.tokens

-- The code is pending but a later step fails: the node is not let in, and yet the code is spent.
pub record Lost (works : Working) (code : String) (db : LinkTables) (a : Authenticated)
    : Type 0 where
  pub was_pending : Elem code db.pending
  pub read : works.reads ≡ true
  pub failing : (works.stores ≡ false) ⊎ (works.sends ≡ false)
  pub nameless : a.node ≡ none
  pub spent : Spent code a.tables

abbrev pub Judged : Working → String → String → String → LinkTables → Authenticated → Type 0
Judged works code name token db a =
    LetIn works code name token db a ⊎ Refused works code db a ⊎ Lost works code db a

answer_with-none :
    (sends : Bool) (reply : AuthReply) (db : LinkTables)
    → (answer_with sends reply db none).node ≡ none
unfolding answer_with
answer_with-none true reply db = refl
answer_with-none false reply db = refl

answer_with-tables :
    (sends : Bool) (reply : AuthReply) (db : LinkTables) (result : Option String)
    → (answer_with sends reply db result).tables ≡ db
unfolding answer_with
answer_with-tables true reply db result = refl
answer_with-tables false reply db result = refl

unknown-none :
    (works : Working) (code name token : String) (db : LinkTables)
    → elem code db.pending ≡ false
    → (authenticate works token (auth_request code name) db).node ≡ none
unfolding authenticate admit_code consume_pending_code
unknown-none works code name token db gone = elim (Bool-cases works.reads) [
  | inl reads ↦ rw (reads, gone) (answer_with-none works.sends (auth_response false none) _)
  | inr fails ↦ rw fails (answer_with-none works.sends (auth_response false none) db)
]

-- The tables without the code, whatever their tokens.
Spent-without :
    (code : String) (db : LinkTables) (tokens : List TokenRow)
    → Spent code (record { pending = without code db.pending; tokens = tokens })
Spent-without code db tokens works other_token other_name =
    unknown-none works code other_name other_token
      (record { pending = without code db.pending; tokens = tokens }) (elem-without code db.pending)

module _ (code name token : String) (db : LinkTables) where
  abbrev after : Working → Authenticated
  after works = authenticate works token (auth_request code name) db

  Refused-unread :
      (stores sends : Bool)
      → Refused
          (record { reads = false; stores = stores; sends = sends })
          code
          db
          (after (record { reads = false; stores = stores; sends = sends }))
  unfolding authenticate admit_code
  Refused-unread stores sends = record {
    not_found = inr refl;
    nameless = answer_with-none sends (auth_response false none) db;
    tokens_kept = ap (λ t. t.tokens) (answer_with-tables sends (auth_response false none) db none);
  }

  Refused-unknown :
      (stores sends : Bool)
      → elem code db.pending ≡ false
      → Refused
          (record { reads = true; stores = stores; sends = sends })
          code
          db
          (after (record { reads = true; stores = stores; sends = sends }))
  unfolding authenticate admit_code consume_pending_code
  Refused-unknown stores sends gone = rw gone (record {
    not_found = inl (elem-false code db.pending gone);
    nameless = answer_with-none sends (auth_response false none) _;
    tokens_kept = ap (λ t. t.tokens) (answer_with-tables sends (auth_response false none) _ none);
  })

  pending-Judged :
      (stores sends : Bool)
      → elem code db.pending ≡ true
      → let works : Working = record { reads = true; stores = stores; sends = sends } in
        LetIn works code name token db (after works) ⊎ Lost works code db (after works)
  unfolding authenticate admit_code store_and_answer answer_with consume_pending_code
      store_node_token
  pending-Judged true true here = rw here (
      inl (record {
        was_pending = elem→Elem code db.pending here;
        read = refl;
        stored = refl;
        sent = refl;
        named = refl;
        found = find_node_by_token-store name token (consume_pending_code code db).1;
        verified = verify_token-store name token (consume_pending_code code db).1;
        spent = Spent-without code db _;
      }))
  pending-Judged true false here = rw here (
      inr (record {
        was_pending = elem→Elem code db.pending here;
        read = refl;
        failing = inr refl;
        nameless = refl;
        spent = Spent-without code db _;
      }))
  pending-Judged false sends here = rw here (
      inr (record {
        was_pending = elem→Elem code db.pending here;
        read = refl;
        failing = inl refl;
        nameless = refl;
        spent = Spent-without code db _;
      }))

  judged :
      (reads stores sends : Bool)
      → let works : Working = record { reads = reads; stores = stores; sends = sends } in
        Judged works code name token db (after works)
  judged false stores sends = inr (inl (Refused-unread stores sends))
  judged true stores sends = elim (Bool-cases (elem code db.pending)) [
    | inr gone ↦ inr (inl (Refused-unknown stores sends gone))
    | inl here ↦ elim (pending-Judged stores sends here) [
      | inl let_in ↦ inl let_in
      | inr lost ↦ inr (inr lost)
    ]
  ]

  -- A node that presents a link code is let in exactly if the code is pending and every later step
  -- succeeds: its new token then finds it and verifies. If the code is not pending, or the statement
  -- on it fails, no token changes. If it is pending and storing the token or sending the reply
  -- fails, the node is not let in. On the tables that the first and the last case leave, no request
  -- with the code is let in.
  pub authenticate-Judged :
      (works : Working)
      → Judged works code name token db (authenticate works token (auth_request code name) db)
  authenticate-Judged works = judged works.reads works.stores works.sends

abbrev pub all_work : Working
all_work = record { reads = true; stores = true; sends = true }

pub authenticate-found :
    (code name token : String) (db : LinkTables)
    → elem code db.pending ≡ true
    → find_node_by_token token (authenticate all_work token (auth_request code name) db).tables
      ≡ some name
authenticate-found code name token db here =
    elim (pending-Judged code name token db true true here) [
      | inl let_in ↦ let_in.found
      | inr lost ↦ elim lost.failing [ inl e ↦ absurd (cc e) | inr e ↦ absurd (cc e) ]
    ]
