-- ===== src/Node/Sources.antt =====
-- crates/arb-reth-node/src/feed.rs: the feed's sources and the delays of their connections. The URL
-- parser is another crate's code and stands as a parameter; an IP address is a number, and a
-- duration its number of nanoseconds.
use arbitrum_reth.Prelude.Assoc.{contains_key}
pub mod Count
mod Runs
use Prim.Native.String.{String}
use arbitrum_reth.Prelude.{
  ℕ, zero, suc, ◌+◌, ◌-◌, ◌*◌, ◌%◌, ◌^◌, min, Bool, true, false, not, ◌&&◌, Option, none, some,
  List, [], ◌∷◌, ◌++◌, ltb, leb, ◌==◌, if◌then◌else◌, length, Result, ◌>>=◌, ok_or, ok, err,
}
use arbitrum_reth.Prelude.Assoc
use arbitrum_reth.Sync.Backoff.{duration_max, base_delay}

abbrev pub max_feed_sources : ℕ
max_feed_sources = 64

abbrev pub usize_max : ℕ
usize_max = 2 ^ 64 - 1

pub record FeedSourceSpec : Type 0 where
  pub local_ip : ℕ
  pub connections : ℕ

pub record FeedSource : Type 0 where
  pub ordinal : ℕ
  pub endpoint : ℕ
  pub connection : ℕ
  pub url : String
  pub display_endpoint : String
  pub local_ip : Option ℕ

-- What the code asks of a parsed URL: a `ws` or `wss` scheme, a host, and the text without path.
pub record ParsedUrl : Type 0 where
  pub is_websocket : Bool
  pub has_host : Bool
  pub display_endpoint : String

pub data SourceError : Type 0 where
  no_url : SourceError
  declared_twice : ℕ → SourceError
  count_overflow : SourceError
  no_connection : SourceError
  too_many : ℕ → SourceError
  invalid_url : ℕ → SourceError
  not_websocket : ℕ → SourceError

-- `checked_add` and `checked_mul`.
abbrev pub checked : ℕ → Result SourceError ℕ
checked n = if leb n usize_max then ok n else err count_overflow

-- The loop over the declared sources: no address twice, and the sum of the counts.
unfoldable pub bound_connections : List FeedSourceSpec → List (ℕ × ℕ) → ℕ → Result SourceError ℕ
bound_connections [] declared count = ok count
bound_connections (spec ∷ specs) declared count =
    let rest = λ (n : ℕ). bound_connections specs (Assoc.insert spec.local_ip 0 declared) n in
    if Assoc.contains_key spec.local_ip declared
    then err (declared_twice spec.local_ip)
    else checked (count + spec.connections) >>= rest

-- `for _ in 0..n { sources.push(..) }` of one endpoint and address.
unfoldable pub push_sources :
    ℕ → ℕ → String → String → Option ℕ → List FeedSource × ℕ → List FeedSource × ℕ
push_sources zero endpoint url display local_ip (sources, connection) = (sources, connection)
push_sources (suc n) endpoint url display local_ip (sources, connection) =
    push_sources n endpoint url display local_ip (
      sources
          ++ (record {
            ordinal = length sources;
            endpoint = endpoint;
            connection = connection;
            url = url;
            display_endpoint = display;
            local_ip = local_ip;
          }
              ∷ []),
      min (connection + 1) usize_max,
    )

-- `for spec in source_specs` of one endpoint.
unfoldable pub push_specs :
    List FeedSourceSpec → ℕ → String → String → List FeedSource × ℕ → List FeedSource × ℕ
unfolding push_sources
push_specs [] endpoint url display state = state
push_specs (spec ∷ specs) endpoint url display state =
    push_specs specs endpoint url display
      (push_sources spec.connections endpoint url display (some spec.local_ip) state)

-- `for (endpoint, raw_url) in urls.iter().enumerate()`.
unfoldable pub push_endpoints :
    (String → Option ParsedUrl)
    → List String
    → ℕ
    → ℕ
    → List FeedSourceSpec
    → List FeedSource
    → Result SourceError (List FeedSource)
unfolding push_specs
push_endpoints parse [] endpoint unbound specs sources = ok sources
push_endpoints parse (raw_url ∷ urls) endpoint unbound specs sources = do
  parsed ← ok_or (parse raw_url) (invalid_url endpoint)
  let pushed =
      push_specs specs endpoint raw_url parsed.display_endpoint
        (push_sources unbound endpoint raw_url parsed.display_endpoint none (sources, 0))
  let rest = push_endpoints parse urls (endpoint + 1) unbound specs pushed.0
  (if not (parsed.is_websocket && parsed.has_host) then err (not_websocket endpoint) else rest)

-- `unwrap_or(usize::from(source_specs.is_empty()))`.
abbrev pub unbound_connections : Option ℕ → List FeedSourceSpec → ℕ
unbound_connections (some n) specs = n
unbound_connections none [] = 1
unbound_connections none (spec ∷ specs) = 0

abbrev pub nothing_declared : Option ℕ → List FeedSourceSpec → Bool
nothing_declared none [] = true
nothing_declared none (spec ∷ specs) = false
nothing_declared (some n) specs = false

unfoldable pub expand_feed_sources :
    (String → Option ParsedUrl)
    → List String
    → Option ℕ
    → List FeedSourceSpec
    → Result SourceError (List FeedSource)
unfolding bound_connections push_endpoints
expand_feed_sources parse [] unbound_per_endpoint specs =
    if nothing_declared unbound_per_endpoint specs then ok [] else err no_url
expand_feed_sources parse (url ∷ urls) unbound_per_endpoint specs = do
  let unbound = unbound_connections unbound_per_endpoint specs
  bound ← bound_connections specs [] 0
  per_endpoint ← checked (unbound + bound)
  (if per_endpoint == 0 then err no_connection else (do
    total ← checked (length (url ∷ urls) * per_endpoint)
    (if ltb max_feed_sources total
        then err (too_many total)
        else push_endpoints parse (url ∷ urls) 0 unbound specs [])))

unfoldable pub initial_connect_delay : ℕ → ℕ
initial_connect_delay ordinal = min (ordinal % 2 ^ 64) 10 * 1_000_000_000

-- The delays of the two kinds of failure: a rate limit, and any other.
abbrev pub delay_bounds : Bool → ℕ × ℕ
delay_bounds true = (30_000_000_000, 300_000_000_000)
delay_bounds false = (250_000_000, 8_000_000_000)

unfoldable pub reconnect_delay : ℕ → ℕ → Bool → ℕ
unfolding base_delay
reconnect_delay failures ordinal rate_limited =
    let (initial, maximum) = delay_bounds rate_limited in
    let base = base_delay initial maximum (2 ^ min (failures - 1) 5) in
    min (base + ordinal * 73 % 1_000 * 1_000_000) maximum
