-- ===== src/Service/Consensus.antt =====
-- `run_aleph_consensus` of finality-aleph/src/lib.rs, which is the task of the consensus.
use aleph_node.Common.{ℕ}
use aleph_node.Party.Launch.{Launched, run_consensus_party}
use aleph_node.Service.{Parts, AlephConfig}

-- At the instant at which the justification handler is made.
unfoldable pub run_aleph_consensus :
    {P : Parts} {Sgn D : Type 0} → ℕ → AlephConfig P → Launched Sgn D
unfolding run_consensus_party
run_aleph_consensus now config = run_consensus_party now (record {
  session_period = config.session_period;
  millisecs_per_block = config.millisecs_per_block;
})
