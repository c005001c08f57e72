-- ===== src/Scenarios/Publishing.antt =====
-- The publication of a position, with a client that has forgotten the stored track.
use mesthastic_caltopo_bridg.Prelude.{
  ℕ, ◌+◌, ◌==◌, ◌≡◌, refl, false, Option, none, some, [], ◌∷◌, if◌then◌else◌,
}
use mesthastic_caltopo_bridg.Prelude.Int.{ℤ, pos, negsuc}
use mesthastic_caltopo_bridg.Go.Text.{text, text_eq}
use mesthastic_caltopo_bridg.Go.Time.{unix, format_time}
use mesthastic_caltopo_bridg.Store.Tables.{ok}
use mesthastic_caltopo_bridg.Caltopo.Adapter.{
  Client, track_not_found, PublishError, Adapter, publish,
}
use mesthastic_caltopo_bridg.Caltopo.Adapter.Published.{IsPublished, publish-IsPublished}
use mesthastic_caltopo_bridg.Scenarios.{position_at, stored}

-- Its state counts the calls; it knows one track, T2.
abbrev forgetful : Client ℕ ℤ
forgetful = record {
  map_id = λ c. if c == 0 then [] else text "MAP1";
  open_map = λ m c. (c + 1, none);
  live_tracks = λ c. (c + 1, ok []);
  add_live_track = λ title device c. (c + 1, ok (text "T2"));
  update_live_track =
      λ track x y z c. (c + 1, (if text_eq track (text "T2") then none else some track_not_found));
}

-- Node 7 has the track T1.
abbrev adapter : Adapter ℕ ℕ ℤ
adapter = record {
  client = 0;
  db = record stored {
    tracks =
        record {
          source_id = text "!00000007";
          device_id = text "TEAM-00000007";
          track_id = text "T1";
          created_at = format_time (unix 10);
        }
        ∷ [];
  };
}

publish-IsPublished_example :
    IsPublished forgetful
      (λ _. false)
      (unix 50)
      (text "TEAM")
      (position_at 7 104 (pos 40) (negsuc 104) (unix 40))
      (publish forgetful
        (λ _. false)
        (unix 50)
        (text "TEAM")
        (text "MAP1")
        (position_at 7 104 (pos 40) (negsuc 104) (unix 40))
        adapter)
publish-IsPublished_example =
    publish-IsPublished forgetful (λ _. false) (unix 50) (text "TEAM") (text "MAP1")
      (position_at 7 104 (pos 40) (negsuc 104) (unix 40)) adapter

-- The map is opened, T1 is not found, and T2 is made, stored and updated, in five calls.
published : Option PublishError
published =
    (publish forgetful (λ _. false) (unix 50) (text "TEAM") (text "MAP1")
      (position_at 7 104 (pos 40) (negsuc 104) (unix 40)) adapter).1

published_succeeds : published ≡ none
unfolding published publish text_eq
published_succeeds = refl
