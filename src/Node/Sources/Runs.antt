-- ===== src/Node/Sources/Runs.antt =====
-- Two URLs, one unbound connection and one source address with two.
use Prim.Native.String.{String}
use arbitrum_reth.Prelude.{ℕ, true, Option, none, some, List, [], ◌∷◌}
use arbitrum_reth.Prelude.Assoc
use arbitrum_reth.Node.Sources.{FeedSourceSpec, FeedSource, ParsedUrl}

abbrev parse_url : String → Option ParsedUrl
parse_url url =
    some (record { is_websocket = true; has_host = true; display_endpoint = "wss://feed" })

abbrev specs : List FeedSourceSpec
specs = record { local_ip = 7; connections = 2 } ∷ []

abbrev source : ℕ → ℕ → ℕ → String → Option ℕ → FeedSource
source ordinal endpoint connection url local_ip = record {
  ordinal = ordinal;
  endpoint = endpoint;
  connection = connection;
  url = url;
  display_endpoint = "wss://feed";
  local_ip = local_ip;
}

abbrev sources : List FeedSource
sources =
    source 0 0 0 "wss://a" none
    ∷ source 1 0 1 "wss://a" (some 7)
    ∷ source 2 0 2 "wss://a" (some 7)
    ∷ source 3 1 0 "wss://b" none
    ∷ source 4 1 1 "wss://b" (some 7)
    ∷ source 5 1 2 "wss://b" (some 7)
    ∷ []
