-- ===== src/Party/Launch.antt =====
-- The start of the node's consensus: `run_consensus_party` of finality-aleph/src/party.rs, with the
-- configuration that bin/node/src/service.rs makes of the runtime's answers.
use aleph_node.Common.{ℕ, List, [], Option}
use aleph_node.Justification
use aleph_node.Justification.{Handler, SessionMap}
use aleph_node.Network
use aleph_node.Network.{Network}
use aleph_node.Party
use aleph_node.Party.{RuntimeApi, Observed, Ran, cadence}
use aleph_node.Runtime.{NodeConfig}

-- What runs side by side: the justification handler, the network, and the party, which shares the
-- map of session authorities with the handler.
pub record Launched (Sgn D : Type 0) : Type 0 where
  pub handler : Handler
  pub network : Network Sgn D
  pub session_authorities : SessionMap
  pub session_period : ℕ

-- Up to the party's `run`, at the instant at which the handler is made.
unfoldable pub run_consensus_party : {Sgn D : Type 0} → ℕ → NodeConfig → Launched Sgn D
unfolding Justification.new Network.new cadence
run_consensus_party now config = record {
  handler = Justification.new now (record {
    session_period = config.session_period;
    justifications_cadence = cadence config.millisecs_per_block config.session_period;
  });
  network = Network.new;
  session_authorities = [];
  session_period = config.session_period;
}

-- The party's `run` after that.
unfoldable pub run_launched :
    {Sgn D : Type 0}
    → RuntimeApi
    → List ℕ
    → ℕ
    → List Observed
    → Launched Sgn D
    → Option (List Ran × SessionMap)
unfolding Party.run
run_launched api keys last_finalized_number observed launched =
    Party.run api keys launched.session_period last_finalized_number observed
      launched.session_authorities
