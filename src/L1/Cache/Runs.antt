-- ===== src/L1/Cache/Runs.antt =====
-- A scan that finds nothing.
use arbitrum_reth.Prelude.{◌≢◌, [], ok, stuck}
use arbitrum_reth.L1.Cache.{fetch_delayed_map_covering}
use arbitrum_reth.L1.Cache.Total.{fetch_delayed_map_covering-ne-stuck}

fetch_delayed_map_covering-ne-stuck_example :
    fetch_delayed_map_covering (λ lo hi. ok []) 25_000 3 5 10_000 ≢ stuck
fetch_delayed_map_covering-ne-stuck_example =
    fetch_delayed_map_covering-ne-stuck (λ lo hi. ok []) (λ lo hi p. cc) 25_000 3 5 10_000
