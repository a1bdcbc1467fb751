-- ===== src/Service/Starts.antt =====
-- What `new_full` of bin/node/src/service.rs starts, and when.
use aleph_node.Common.{
  ℕ, ◌≡◌, refl, Bool, true, false, Option, some, List, [], ◌∷◌, ◌++◌, if◌then◌else◌, append_assoc,
  nat_eq,
}
use aleph_node.Client.{ok}
use aleph_node.Service.{
  Parts, Configuration, AlephConfig, aura, aleph, Spawned, Node, pure, spawn, start_network, ◌>>=◌,
  ◌>>◌, PartialComponents, peers_set_config,
}
use aleph_node.Service.Partial.{new_partial, new_metrics}
use aleph_node.Service.Full.{
  BuildNetworkParams, SpawnTasksParams, StartAuraParams, FullCalls, new_full, start_authority,
}
use aleph_node.Service.Leads.{
  IsIdle, AreOther, by_handle-AreOther, by_manager-AreOther, call_bind, Leads, bind-Leads, try_bind,
  unwrap_bind, IsMade, new_partial-IsMade, Answers, Tells, IsPartialReliable,
}

module _ {P : Parts} where
  abbrev pub aura_task : P.Aura → Spawned P
  aura_task future = record { name = "aura"; essential = true; blocking = true; task = aura future }

  abbrev pub aleph_task : AlephConfig P → Spawned P
  aleph_task config = record {
    name = "aleph";
    essential = true;
    blocking = true;
    task = aleph config;
  }

  -- The configuration of the consensus: the runtime's answers at block 0, the metrics, and an empty
  -- channel of justifications.
  pub record IsConfigured (calls : FullCalls P) (registry : Option P.Registry) (c : AlephConfig P)
      : Type 0 where
    pub period : calls.session_period c.client 0 ≡ ok c.session_period
    pub millisecs : calls.millisecs_per_block c.client 0 ≡ ok c.millisecs_per_block
    pub metrics : c.metrics ≡ new_metrics calls.partial registry
    pub channel : c.justification_rx ≡ []

  -- After the tasks `before`, an authority runs the making of blocks and then the consensus, as
  -- essential tasks; another node runs neither.
  abbrev pub Runs :
      FullCalls P → Option P.Registry → Bool → List (Spawned P) → List (Spawned P) → Type 0
  Runs calls registry true before tasks =
      (future : P.Aura) × (c : AlephConfig P) × (tasks
        ≡ before ++ aura_task future ∷ aleph_task c ∷ [])
      × IsConfigured calls registry c
  Runs calls registry false before tasks = tasks ≡ before

  -- The network is started, and the tasks are those of the telemetry, of the crates, and then of the role.
  abbrev pub IsStarted : FullCalls P → Configuration P → Node P → Type 0
  IsStarted calls config node =
      (before : List (Spawned P)) × (starter : P.Starter) × AreOther before
      × Runs calls config.prometheus_registry config.is_authority before node.tasks
      × (node.network_started ≡ some starter)

  -- The same before the network is started.
  abbrev HasTasks : FullCalls P → Configuration P → Node P → Type 0
  HasTasks calls config node =
      (before : List (Spawned P)) × AreOther before
      × Runs calls config.prometheus_registry config.is_authority before node.tasks

  -- None of the calls fails.
  pub record IsReliable (calls : FullCalls P) : Type 0 where
    pub partial : IsPartialReliable calls.partial
    pub build_network : (params : BuildNetworkParams P) → Answers (calls.build_network params).0
    pub session_period :
        (client : P.Client) (number : ℕ) → Tells (calls.session_period client number)
    pub millisecs_per_block :
        (client : P.Client) (number : ℕ) → Tells (calls.millisecs_per_block client number)
    pub spawn_tasks : (params : SpawnTasksParams P) → Answers (calls.spawn_tasks params).0
    pub start_aura : (params : StartAuraParams P) → Answers (calls.start_aura params)

  -- The configuration with the set of peers.
  abbrev extended : Configuration P → Configuration P
  extended given = record given { extra_sets = given.extra_sets ++ peers_set_config ∷ [] }

module _ {P : Parts} (R : Type 0) where
  spawn_both :
      (good : Unit {0} → Node P → Type 0) (a b : Spawned P) (node : Node P)
      → good tt (record node { tasks = (node.tasks ++ a ∷ []) ++ b ∷ [] })
      → Leads R good ((spawn a >> spawn b) node)
  unfolding spawn ◌>>=◌
  spawn_both good a b node g = g

  start_authority-Leads :
      (calls : FullCalls P) (config : Configuration P) (parts : PartialComponents P)
      (network : P.NetworkService) (session_period millisecs_per_block : ℕ) (node : Node P)
      → IsIdle node
      → IsMade calls.partial config.prometheus_registry parts node
      → calls.session_period parts.client 0 ≡ ok session_period
      → calls.millisecs_per_block parts.client 0 ≡ ok millisecs_per_block
      → config.is_authority ≡ true
      → (R → IsReliable calls)
      → Leads R
          (λ _. HasTasks calls config)
          (start_authority calls config parts network session_period millisecs_per_block node)
  unfolding start_authority
  start_authority-Leads calls config parts network session_period millisecs node i m p q a rel =
      try_bind R (λ _. HasTasks calls config) (calls.partial.slot_duration parts.client) _ node i
        (λ h. (rel h).partial.slot_duration parts.client)
        (λ slot e1.
          try_bind R (λ _. HasTasks calls config) _ _ node i (λ h. (rel h).start_aura _)
            (λ future e2.
              spawn_both (λ _. HasTasks calls config) (aura_task future) _ node
                (
                  node.tasks,
                  i.0,
                  rw a (
                    future,
                    _,
                    append_assoc node.tasks (aura_task future ∷ []) (aleph_task _ ∷ []),
                    record { period = p; millisecs = q; metrics = m.metrics; channel = m.channel },
                  ),
                )))

  role-Leads :
      (calls : FullCalls P) (config : Configuration P) (parts : PartialComponents P)
      (network : P.NetworkService) (session_period millisecs_per_block : ℕ) (node : Node P)
      (is_authority : Bool)
      → IsMade calls.partial config.prometheus_registry parts node
      → calls.session_period parts.client 0 ≡ ok session_period
      → calls.millisecs_per_block parts.client 0 ≡ ok millisecs_per_block
      → config.is_authority ≡ is_authority
      → (R → IsReliable calls)
      → Leads R
          (λ _. HasTasks calls config)
          ((if is_authority
              then start_authority calls config parts network session_period millisecs_per_block
              else pure tt)
            node)
  role-Leads calls config parts network period millisecs node true m p q a rel =
      start_authority-Leads calls config parts network period millisecs node m.idle m p q a rel
  role-Leads calls config parts network period millisecs node false m p q a rel =
      (node.tasks, m.idle.0, rw a refl)

  start_network-Leads :
      (calls : FullCalls P) (config : Configuration P) (starter : P.Starter) (node : Node P)
      → HasTasks calls config node
      → Leads R (λ _. IsStarted calls config) (start_network starter node)
  unfolding start_network
  start_network-Leads calls config starter node (before, t, r) = (before, starter, t, r, refl)

  pub new_full-Leads :
      (calls : FullCalls P) (given : Configuration P) (node : Node P)
      → IsIdle node
      → (R → IsReliable calls)
      → Leads R (λ _. IsStarted calls given) (new_full calls given node)
  unfolding new_full
  new_full-Leads calls given node i rel =
      bind-Leads R (IsMade calls.partial given.prometheus_registry) (λ _. IsStarted calls given)
        (new_partial calls.partial given) _ node
        (new_partial-IsMade R calls.partial given node i (λ h. (rel h).partial))
        (λ parts node1 m.
          call_bind R (λ _. IsStarted calls given) _ _ _ node1 m.idle (by_handle-AreOther false _)
            (λ h. (rel h).build_network _)
            (λ net node2 e1 i2.
              unwrap_bind R (λ _. IsStarted calls given) (calls.session_period parts.client 0) _
                node2 i2 (λ h. (rel h).session_period parts.client 0)
                (λ period e2.
                  unwrap_bind R (λ _. IsStarted calls given)
                    (calls.millisecs_per_block parts.client 0) _ node2 i2
                    (λ h. (rel h).millisecs_per_block parts.client 0)
                    (λ millisecs e3.
                      call_bind R (λ _. IsStarted calls given) _ _ _ node2 i2
                        (by_manager-AreOther _) (λ h. (rel h).spawn_tasks _)
                        (λ u node3 e4 i3.
                          bind-Leads R (λ _. HasTasks calls given) (λ _. IsStarted calls given) _ _
                            node3
                            (role-Leads calls (extended given) parts net.0 period millisecs node3
                              given.is_authority
                              (record { idle = i3; metrics = m.metrics; channel = m.channel }) e2 e3
                              refl rel)
                            (λ v node4 h. start_network-Leads calls given net.2 node4 h))))))
