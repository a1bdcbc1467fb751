-- ===== src/DataIo/Provider.antt =====
-- `DataIO` and `refresh_best_chain` of finality-aleph/src/data_io.rs: what the consensus proposes and
-- where its ordered batches go. The channel to the aggregator is the list of what is in it.
use aleph_node.Common.{
  ℕ, Bool, true, false, Option, none, some, List, [], ◌∷◌, ◌++◌, if◌then◌else◌, ◌>>=◌,
}
use aleph_node.Client.{Header}
use aleph_node.DataIo.{AlephData}
use aleph_node.Metrics
use aleph_node.Metrics.{Metrics, report_block}

-- `best_chain` is shared with the task that refreshes it.
pub record DataIo : Type 0 where
  pub best_chain : AlephData
  pub ordered_batches : List (List AlephData)
  pub aggregator_open : Bool
  pub metrics : Option Metrics

-- `AlephData::new` of a header.
unfoldable pub data_of : Header → AlephData
data_of header = record { hash = header.hash; number = header.number }

-- A round of `refresh_best_chain` after its delay, with the chain that is selected; `none` is a panic.
unfoldable pub refresh : Option Header → DataIo → Option DataIo
unfolding data_of
refresh best io = do
  new_best_header ← best
  some (record io { best_chain = data_of new_best_header })

abbrev reported : ℕ → ℕ → Option Metrics → Option (Option Metrics)
reported hash now none = some none
reported hash now (some m) = do m' ← report_block hash now Metrics.get_data m; some (some m')

-- At an instant; `none` is a panic of the metrics.
unfoldable pub get_data : ℕ → DataIo → Option (AlephData × DataIo)
get_data now io = do
  metrics ← reported io.best_chain.hash now io.metrics
  some (io.best_chain, record io { metrics = metrics })

-- The Boolean is `is_ok`.
unfoldable pub send_ordered_batch : List AlephData → DataIo → Bool × DataIo
send_ordered_batch batch io =
    if io.aggregator_open
    then (true, record io { ordered_batches = io.ordered_batches ++ batch ∷ [] })
    else (false, io)
