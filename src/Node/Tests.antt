-- ===== src/Node/Tests.antt =====
-- The node at concrete arguments, and its mocked clock.
use moonbeam.Base.{ℕ, ◌≡◌, refl, true, false, some, List, [], ◌∷◌, All, ltb, add_u64}
use moonbeam.Base.Map
use moonbeam.Base.Map.{Map}
use moonbeam.Node.ChainSpec.{get_chain_spec}
use moonbeam.Node.Maintenance.{Mutex, Header, Frontier, maintain_filters, for_each}
use moonbeam.Node.Maintenance.Lifetime.{filter_option, outlives, lookup-maintain_filters}
use moonbeam.Node.Sealing.{interval, from_str}
use moonbeam.Node.Sealing.Decimal.{notation, from_str-notation}
use moonbeam.Node.Service.{start_node}
use moonbeam.Node.Service.Outcomes.{NodeStarts}
use moonbeam.Node.Service.Starts.{start_node-NodeStarts}
use moonbeam.Node.Command.{run}
use moonbeam.Node.Command.Authors.{AllAuthors}
use moonbeam.Node.Command.Runs.{run-AllAuthors}
use moonbeam.Node.Command.ParachainId.{RunsFor, run-RunsFor}
use moonbeam.Node.Example.{crates, tools, tools-Extends, collating, register_provider-Registers}

-- Two items of the blocks 3 and 120, and the headers of the blocks 7 and 110
abbrev pool : Mutex (Map ℕ)
pool = record { value = (1, 3) ∷ (2, 120) ∷ []; poisoned = false }

abbrev headers : List (Header (List ℕ))
headers = record { number = 7; logs = [] } ∷ record { number = 110; logs = (2 ∷ []) ∷ [] } ∷ []

lookup-maintain_filters_example :
    Map.lookup 1 (for_each (maintain_filters (λ (at : ℕ). at)) headers pool).value
    ≡ filter_option
        (λ at. outlives (λ h. ltb h.number (add_u64 at 100)) headers)
        (Map.lookup 1 pool.value)
unfolding Map.lookup
lookup-maintain_filters_example =
    lookup-maintain_filters (λ (at : ℕ). at) headers pool 1 refl (refl, (refl, tt))

-- A log that is the list of the hashes
abbrev frontier : Frontier (List ℕ)
frontier = record { ConsensusLog = List ℕ; try_to = λ log. some log; end_block = λ log. some log }

from_str-notation_example : from_str (notation (interval 1500)) ≡ some (interval 1500)
from_str-notation_example = from_str-notation (interval 1500)

start_node-NodeStarts_example :
    NodeStarts crates tools.config
      (some 7)
      5
      2000
      true
      (start_node crates tools.config (some 7) 5 2000 true []).0
      (start_node crates tools.config (some 7) 5 2000 true []).1
start_node-NodeStarts_example =
    start_node-NodeStarts crates register_provider-Registers tools.config (some 7) 5 2000 true

run-AllAuthors_example : AllAuthors crates 7 (run tools crates collating []).1
run-AllAuthors_example = run-AllAuthors tools crates register_provider-Registers collating

run-RunsFor_example :
    All (RunsFor (get_chain_spec 2000).genesis.parachain_id) (run tools crates collating []).1
run-RunsFor_example =
    run-RunsFor tools crates register_provider-Registers collating refl refl tools-Extends
