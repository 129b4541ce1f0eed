-- ===== src/Memory/Types/Keywords.antt =====
-- What `classify_heuristic` of src/memory/types.rs decides, in terms of the patterns that occur.
use auxlry.Prelude.{
  ◌≡◌, String, true, false, none, some, List, [], ◌∷◌, ◌⊎◌, inl, inr, Bool-cases, ◌↔◌,
}
use auxlry.Prelude.Names.{named}
use auxlry.Prelude.Bytes.{Bytes, codes}
use auxlry.Prelude.Texts.{contains, Occurs, contains_lem, contains-append}
use auxlry.Memory.Types.{
  MemoryType, fact, decision, inference, preference, observation, event, as_str, from_str, mentions,
  decision_patterns, preference_patterns, inference_patterns, event_patterns, fact_patterns,
  classify_heuristic,
}

-- One of the patterns occurs in the text.
abbrev pub Mentions : Bytes → List String → Type 0
Mentions s [] = ⊥
Mentions s (p ∷ ps) = Occurs (codes p) s ⊎ Mentions s ps

mentions_lem : (s : Bytes) (ps : List String) → mentions s ps ≡ true → Mentions s ps
unfolding mentions
mentions_lem s [] h = absurd (cc h)
mentions_lem s (p ∷ ps) h = elim (Bool-cases (contains s (codes p))) [
  | inl here ↦ inl (contains_lem s (codes p) here)
  | inr later ↦ inr (mentions_lem s ps (rw later at h))
]

Mentions→mentions : (s : Bytes) (ps : List String) → Mentions s ps → mentions s ps ≡ true
unfolding mentions
Mentions→mentions s [] h = elim h [ ]
Mentions→mentions s (p ∷ ps) (inl (before, after, e)) =
    rw (e, contains-append before (codes p) after)
Mentions→mentions s (p ∷ ps) (inr h) = elim (Bool-cases (contains s (codes p))) [
  | inl here ↦ rw here
  | inr later ↦ rw (later, Mentions→mentions s ps h)
]

mentions-false : (s : Bytes) (ps : List String) → mentions s ps ≡ false → ¬ Mentions s ps
mentions-false s ps h k = absurd (cc (h, Mentions→mentions s ps k))

-- A type is right for a text if one of its patterns occurs and none of a type that goes before.
abbrev pub IsRight : Bytes → MemoryType → Type 0
IsRight s decision = Mentions s decision_patterns
IsRight s preference = (¬ Mentions s decision_patterns) × Mentions s preference_patterns
IsRight s inference =
    (¬ Mentions s decision_patterns)
    × (¬ Mentions s preference_patterns)
    × Mentions s inference_patterns
IsRight s event =
    (¬ Mentions s decision_patterns)
    × (¬ Mentions s preference_patterns)
    × (¬ Mentions s inference_patterns)
    × Mentions s event_patterns
IsRight s fact =
    (¬ Mentions s decision_patterns)
    × (¬ Mentions s preference_patterns)
    × (¬ Mentions s inference_patterns)
    × (¬ Mentions s event_patterns)
    × Mentions s fact_patterns
IsRight s observation =
    (¬ Mentions s decision_patterns)
    × (¬ Mentions s preference_patterns)
    × (¬ Mentions s inference_patterns)
    × (¬ Mentions s event_patterns)
    × (¬ Mentions s fact_patterns)

-- The type that a text is given is the first, in the order decision, preference, inference, event,
-- fact, of which a pattern occurs in the lowercase text, and observation if no pattern occurs.
pub classify_heuristic-IsRight :
    (to_lowercase : Bytes → Bytes) (content : Bytes)
    → IsRight (to_lowercase content) (classify_heuristic to_lowercase content)
unfolding classify_heuristic
classify_heuristic-IsRight to_lowercase content =
    let s = to_lowercase content in
    elim (Bool-cases (mentions s decision_patterns)) [
      | inl d ↦ rw d (mentions_lem s _ d)
      | inr d ↦ elim (Bool-cases (mentions s preference_patterns)) [
        | inl p ↦ rw (d, p) (mentions-false s _ d, mentions_lem s _ p)
        | inr p ↦ elim (Bool-cases (mentions s inference_patterns)) [
          | inl i ↦ rw (d, p, i) (mentions-false s _ d, mentions-false s _ p, mentions_lem s _ i)
          | inr i ↦ elim (Bool-cases (mentions s event_patterns)) [
            | inl v ↦
                rw (d, p, i, v)
                  (
                    mentions-false s _ d,
                    mentions-false s _ p,
                    mentions-false s _ i,
                    mentions_lem s _ v,
                  )
            | inr v ↦ elim (Bool-cases (mentions s fact_patterns)) [
              | inl f ↦
                  rw (d, p, i, v, f)
                    (
                      mentions-false s _ d,
                      mentions-false s _ p,
                      mentions-false s _ i,
                      mentions-false s _ v,
                      mentions_lem s _ f,
                    )
              | inr f ↦
                  rw (d, p, i, v, f)
                    (
                      mentions-false s _ d,
                      mentions-false s _ p,
                      mentions-false s _ i,
                      mentions-false s _ v,
                      mentions-false s _ f,
                    )
            ]
          ]
        ]
      ]
    ]

-- Parsing the name of a memory type gives the type back, and a text that parses is that type's
-- name.
pub from_str_iff : (s : String) (t : MemoryType) → (from_str s ≡ some t) ↔ (s ≡ as_str t)
unfolding from_str as_str
from_str_iff s t = (parsed t, printed t)
  where
    printed : (t : MemoryType) → s ≡ as_str t → from_str s ≡ some t
    printed fact e = rw e
    printed decision e = rw e
    printed inference e = rw e
    printed preference e = rw e
    printed observation e = rw e
    printed event e = rw e

    parsed : (t : MemoryType) → from_str s ≡ some t → s ≡ as_str t
    parsed t h = elim (named s "fact" fact t _ h) [
      | inl (e, k) ↦ rw (← k) e
      | inr h ↦ elim (named s "decision" decision t _ h) [
        | inl (e, k) ↦ rw (← k) e
        | inr h ↦ elim (named s "inference" inference t _ h) [
          | inl (e, k) ↦ rw (← k) e
          | inr h ↦ elim (named s "preference" preference t _ h) [
            | inl (e, k) ↦ rw (← k) e
            | inr h ↦ elim (named s "observation" observation t _ h) [
              | inl (e, k) ↦ rw (← k) e
              | inr h ↦ elim (named s "event" event t none h) [
                | inl (e, k) ↦ rw (← k) e
                | inr h ↦ absurd (cc h)
              ]
            ]
          ]
        ]
      ]
    ]
