-- ===== src/Catalog.antt =====
-- apps/gateway/src/catalog.js and `capabilityAllows` of server.js. The fields that are only shown
-- (title, artist and album names, duration, accent, content version) are left out.
use creator_first_platform.Base.{String, Bool, true, false, Option, List, [], ◌∷◌, str_eq}
use creator_first_platform.Base.Table.{select}

pub data Capability : Type 0 where
  base_plan supporter early_supporter : Capability

-- `none` is the source's text 'NONE'
pub data Tier : Type 0 where
  no_tier supporter_tier early_supporter_tier : Tier

pub record Track : Type 0 where
  pub track_id : String
  pub artist_id : String
  pub required_capability : Capability
  pub rights_version : String
  pub file_ref : String
  pub navidrome_id_env : String

abbrev pub catalog : List Track
catalog =
    record {
      track_id = "track-mock-001";
      artist_id = "artist-ao";
      required_capability = base_plan;
      rights_version = "mock-rights-v1";
      file_ref = "local-test-tone.wav";
      navidrome_id_env = "NAVIDROME_MEDIA_ID_TRACK_MOCK_001";
    }
    ∷ record {
      track_id = "track-mock-002";
      artist_id = "artist-ao";
      required_capability = supporter;
      rights_version = "mock-rights-v1";
      file_ref = "local-test-tone.wav";
      navidrome_id_env = "NAVIDROME_MEDIA_ID_TRACK_MOCK_002";
    }
    ∷ record {
      track_id = "track-mock-003";
      artist_id = "artist-lumen";
      required_capability = early_supporter;
      rights_version = "mock-rights-v1";
      file_ref = "local-test-tone.wav";
      navidrome_id_env = "NAVIDROME_MEDIA_ID_TRACK_MOCK_003";
    }
    ∷ []

unfoldable pub find_track : String → Option Track
unfolding select
find_track id = select (λ t. str_eq t.track_id id) catalog

-- `catalog.find((track) => track.artistId === artistId)`
unfoldable pub find_artist : String → Option Track
unfolding select
find_artist id = select (λ t. str_eq t.artist_id id) catalog

unfoldable pub capability_allows : Capability → Tier → Bool
capability_allows base_plan _ = true
capability_allows supporter no_tier = false
capability_allows supporter _ = true
capability_allows early_supporter early_supporter_tier = true
capability_allows early_supporter _ = false
