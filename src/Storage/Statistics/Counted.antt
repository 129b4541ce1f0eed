-- ===== src/Storage/Statistics/Counted.antt =====
-- What the counts of the dashboard count (src/storage/database.rs).
use auxlry.Prelude.{
  ℕ, ◌≤◌, ◌≡◌, refl, ◌∙◌, ◌↔◌, String, Bool, true, false, List, [], ◌∷◌, ◌++◌, ◌&&◌, inl, inr,
  Bool-cases, str_eq_iff, arith, count, map,
}
use auxlry.Prelude.Bytes.{Bytes}
use auxlry.Prelude.Texts.{text_eq, text_eq_iff}
use auxlry.Prelude.Membership.{elem}
use auxlry.Storage.Events.{EventRow}
use auxlry.Memory.Graph.{rows_where}
use auxlry.Storage.Statistics.{group_counts, key_eq, text_leb, wanted, events_by}
use auxlry.Storage.Statistics.Groups.{
  total_at, groups_of, total_at-group_counts, groups_of-group_counts,
}

-- An order of the groups keeps what they count.
pub record KeepsGroups {K : Type 0} (eq : K → K → Bool) (order : List (K × ℕ) → List (K × ℕ))
    : Type 0 where
  pub same_total :
      (x : K) (groups : List (K × ℕ)) → total_at eq x (order groups) ≡ total_at eq x groups
  pub same_groups :
      (x : K) (groups : List (K × ℕ)) → groups_of eq x (order groups) ≡ groups_of eq x groups

key_eq→≡ : (a b : Bytes × String) → key_eq a b ≡ true → a ≡ b
key_eq→≡ (t, k) (u, l) h = elim (Bool-cases (text_eq t u)) [
  | inl same ↦ cc ((text_eq_iff t u).0 same, (str_eq_iff k l).0 (rw same at h))
  | inr other ↦ absurd (cc (rw other at h))
]

≡→key_eq : (a b : Bytes × String) → a ≡ b → key_eq a b ≡ true
≡→key_eq (t, k) b e = rw (← e) (rw ((text_eq_iff t t).1 refl) ((str_eq_iff k k).1 refl))

key_eq_iff : (a b : Bytes × String) → (key_eq a b ≡ true) ↔ (a ≡ b)
key_eq_iff a b = (key_eq→≡ a b, ≡→key_eq a b)

count-rows_where :
    {A K : Type 0} (q : K → Bool) (f : A → K) (p : A → Bool) (rows : List A)
    → count q (map f (rows_where p rows)) ≡ count (λ row. q (f row) && p row) rows
unfolding rows_where
count-rows_where q f p [] = refl
count-rows_where q f p (row ∷ rows) = ground (arith, count-rows_where q f p rows)

count_nothing : {A : Type 0} (q : A → Bool) (rows : List A) → 0 ≡ count (λ row. q row && false) rows
count_nothing q [] = refl
count_nothing q (row ∷ rows) = ground (arith, count_nothing q rows)

module _ (order : List ((Bytes × String) × ℕ) → List ((Bytes × String) × ℕ))
    (period : EventRow → Bytes) (shown : ℕ → Bytes) (table : List EventRow) (at : Bytes)
    (kind : String) (keeps : KeepsGroups key_eq order) where
  abbrev pub in_group : EventRow → Bool
  in_group row = key_eq (period row, row.kind_text) (at, kind)

  -- The count of a group is that of the rows in it which the query wants.
  events_by-Counted :
      (limit : Bytes) (kinds : List String)
      → total_at key_eq (at, kind) (events_by order period shown limit kinds table)
        ≡ count (λ row. in_group row && wanted kinds shown limit row) table
  unfolding events_by
  events_by-Counted limit [] = count_nothing in_group table
  events_by-Counted limit (k ∷ kinds) =
      let key : EventRow → Bytes × String = λ row. (period row, row.kind_text) in
      let keys = map key (rows_where (wanted (k ∷ kinds) shown limit) table) in
      keeps.same_total (at, kind) (group_counts key_eq keys [])
      ∙ total_at-group_counts key_eq key_eq_iff (at, kind) keys []
      ∙ omega arith
      ∙ count-rows_where (λ j. key_eq j (at, kind)) key (wanted (k ∷ kinds) shown limit) table

  -- It is given at most once.
  events_by-once :
      (limit : Bytes) (kinds : List String)
      → groups_of key_eq (at, kind) (events_by order period shown limit kinds table) ≤ 1
  unfolding events_by
  events_by-once limit [] = omega arith
  events_by-once limit (k ∷ kinds) =
      let key : EventRow → Bytes × String = λ row. (period row, row.kind_text) in
      let keys = map key (rows_where (wanted (k ∷ kinds) shown limit) table) in
      rw (keeps.same_groups (at, kind) (group_counts key_eq keys []))
        (groups_of-group_counts key_eq key_eq_iff (at, kind) keys [] (omega arith))

-- Every row is from the day: its time is kept as the day, a T and more.
abbrev pub OfDay : (ℕ → Bytes) → Bytes → List EventRow → Type 0
OfDay shown day [] = Unit
OfDay shown day (row ∷ rows) =
    ((clock : Bytes) × (shown row.created_at ≡ day ++ b'T' ∷ clock)) × OfDay shown day rows

text_leb-same_day :
    (day time clock : Bytes) → text_leb (day ++ b' ' ∷ time) (day ++ b'T' ∷ clock) ≡ true
unfolding text_leb
text_leb-same_day [] time clock = refl
text_leb-same_day (c ∷ day) time clock = ground (arith, text_leb-same_day day time clock)

count-OfDay :
    (q : EventRow → Bool) (kinds : List String) (shown : ℕ → Bytes) (day time : Bytes)
    (rows : List EventRow)
    → OfDay shown day rows
    → count (λ row. q row && wanted kinds shown (day ++ b' ' ∷ time) row) rows
      ≡ count (λ row. q row && elem row.kind_text kinds) rows
count-OfDay q kinds shown day time [] h = refl
count-OfDay q kinds shown day time (row ∷ rows) h =
    let (clock, e) = h.0 in
    let kept : text_leb (day ++ b' ' ∷ time) (shown row.created_at) ≡ true =
      rw e (text_leb-same_day day time clock) in
    ground (arith, kept, count-OfDay q kinds shown day time rows h.1)

-- The times of events are kept with a T between the date and the clock, and the limit has a space
-- there. So where all events are from the day of the limit, each is counted in the group of its period
-- and kind, if the kind is asked for, however much earlier than the limit its clock is; a group is given at
-- most once.
pub events_by-same_day :
    (order : List ((Bytes × String) × ℕ) → List ((Bytes × String) × ℕ)) (period : EventRow → Bytes)
    (shown : ℕ → Bytes) (day time : Bytes) (kinds : List String) (table : List EventRow)
    (at : Bytes) (kind : String)
    → KeepsGroups key_eq order
    → OfDay shown day table
    → let counts = events_by order period shown (day ++ b' ' ∷ time) kinds table in
      (total_at key_eq (at, kind) counts
        ≡ count
            (λ row. key_eq (period row, row.kind_text) (at, kind) && elem row.kind_text kinds)
            table)
      × (groups_of key_eq (at, kind) counts ≤ 1)
events_by-same_day order period shown day time kinds table at kind keeps days =
    let in_time = day ++ b' ' ∷ time in
    (
      events_by-Counted order period shown table at kind keeps in_time kinds
          ∙ count-OfDay (λ row. key_eq (period row, row.kind_text) (at, kind)) kinds shown day time
              table days,
      events_by-once order period shown table at kind keeps in_time kinds,
    )
