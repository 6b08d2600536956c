-- ===== src/Node/Sources/Count.antt =====
-- How many connections the configured sources expand to.
use Prim.Native.String.{String}
use arbitrum_reth.Prelude.{ℕ, ◌+◌, List, [], ◌∷◌}
use arbitrum_reth.Prelude.Assoc
use arbitrum_reth.Node.Sources.{FeedSourceSpec}

-- The declared connections of one endpoint.
unfoldable pub declared_connections : List FeedSourceSpec → ℕ
declared_connections [] = 0
declared_connections (spec ∷ specs) = spec.connections + declared_connections specs
