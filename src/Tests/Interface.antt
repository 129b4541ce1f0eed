-- ===== src/Tests/Interface.antt =====
-- Runs of src/interface/session.rs.
use auxlry.Prelude.{◌≡◌, refl, List, [], ◌∷◌}
use auxlry.Prelude.Bytes.{codes}
use auxlry.Prelude.Texts.{text_eq}
use auxlry.Interface.Session.{
  Action, comes, wakes, act_all, act, add_message, push_message, find_session, wake, remove_session,
  remove_at, new,
}
use auxlry.Interface.Session.Conserved.{all_of, came_for}
use auxlry.Interface.Session.Batches.{all_of-came_for}
use auxlry.Interface.Session.Timers.{Watched, Watched-act_all}

-- Two messages in one window, a timer that wakes too early and then on time, and a third message.
abbrev actions : List Action
actions =
    comes 0 (codes "d") (codes "1") (codes "ann") (codes "hi")
    ∷ comes 900 (codes "d") (codes "1") (codes "bob") (codes "yo")
    ∷ wakes 1000 0
    ∷ wakes 2000 0
    ∷ comes 2100 (codes "d") (codes "1") (codes "ann") (codes "again")
    ∷ []

one_batch :
    (act_all 1000 actions new).sent
    ≡ record {
      interface = codes "d";
      channel = codes "1";
      messages =
          record { author = codes "ann"; content = codes "hi"; received_at = 0 }
          ∷ record { author = codes "bob"; content = codes "yo"; received_at = 900 }
          ∷ [];
    }
      ∷ []
unfolding act_all act add_message push_message find_session wake remove_session remove_at text_eq
one_batch = refl

all_of-came_for_example :
    all_of (codes "d:1") (act_all 1000 actions new) ≡ came_for (codes "d:1") actions
all_of-came_for_example = all_of-came_for (codes "d:1") 1000 actions

Watched-act_all_example : Watched (act_all 1000 actions new)
Watched-act_all_example = Watched-act_all 1000 actions
