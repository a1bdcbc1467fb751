-- ===== src/Service/Leads.antt =====
-- What the calls with `?` and `new_partial` of bin/node/src/service.rs lead to.
use aleph_node.Common.{
  ℕ, ◌≡◌, refl, Bool, true, Option, none, some, List, [], ◌∷◌, All, All-append, arith, nat_eq,
}
use aleph_node.Client.{BackendResult, ok, backend_error}
use aleph_node.Import
use aleph_node.Service.{
  Parts, Configuration, Task, telemetry, aura, aleph, crate_task, CrateTask, Spawned, call,
  by_handle, by_manager, Node, Result, done, err, panicked, Action, try, unwrap, spawn, ◌>>=◌,
  PartialComponents,
}
use aleph_node.Service.Partial.{
  PartialCalls, new_partial, ImportQueueParams, new_telemetry, spawn_telemetry, non_empty,
  new_metrics,
}

abbrev pub Tells : {A : Type 0} → BackendResult A → Type 0
Tells {A} r = (a : A) × (r ≡ ok a)

module _ {P : Parts} where
  -- A task that neither makes blocks nor is the consensus: the telemetry's or one of the crates.
  abbrev pub IsOther : Task P → Type 0
  IsOther (telemetry worker) = Unit {0}
  IsOther (crate_task future) = Unit {0}
  IsOther (aura future) = ⊥
  IsOther (aleph config) = ⊥

  -- Neither the making of blocks nor the consensus runs, and the network is not started.
  abbrev pub IsIdle : Node P → Type 0
  IsIdle node = All (λ t. IsOther t.task) node.tasks × (node.network_started ≡ none)

  abbrev pub AreOther : List (Spawned P) → Type 0
  AreOther = All (λ t. IsOther t.task)

  pub by_handle-AreOther :
      (essential : Bool) (tasks : List (CrateTask P)) → AreOther (by_handle essential tasks)
  by_handle-AreOther essential [] = tt
  by_handle-AreOther essential (t ∷ ts) = (tt, by_handle-AreOther essential ts)

  pub by_manager-AreOther : (tasks : List (Bool × CrateTask P)) → AreOther (by_manager tasks)
  by_manager-AreOther [] = tt
  by_manager-AreOther (t ∷ ts) = (tt, by_manager-AreOther ts)

  abbrev pub Answers : {A : Type 0} → Result P A → Type 0
  Answers {A} r = (a : A) × (r ≡ done a)

  -- None of the calls fails.
  pub record IsPartialReliable (calls : PartialCalls P) : Type 0 where
    pub telemetry_worker : (size : ℕ) → Answers (calls.telemetry_worker size)
    pub new_full_parts :
        (config : Configuration P) (handle : Option P.Handle)
        → Answers (calls.new_full_parts config handle).0
    pub slot_duration : (client : P.Client) → Answers (calls.slot_duration client)
    pub import_queue : (params : ImportQueueParams P) → Answers (calls.import_queue params).0

  -- The components for a configuration, made on an idle node.
  pub record IsMade (calls : PartialCalls P) (registry : Option P.Registry)
      (parts : PartialComponents P) (node : Node P) : Type 0 where
    pub idle : IsIdle node
    pub metrics : parts.metrics ≡ new_metrics calls registry
    pub channel : parts.justification_rx ≡ []

-- Actions whose calls do not fail if `R` holds.
module _ {P : Parts} (R : Type 0) where
  -- What an action has led to: `good` if it has succeeded; and if not, an idle node, and `R` does not
  -- hold.
  abbrev pub Leads : {A : Type 0} → (A → Node P → Type 0) → Result P A × Node P → Type 0
  Leads good (done a, node) = good a node
  Leads good (err e, node) = IsIdle node × (R → ⊥)
  Leads good (panicked, node) = IsIdle node × (R → ⊥)

  outcome-Leads :
      {A B : Type 0} (good : A → Node P → Type 0) (better : B → Node P → Type 0)
      (f : A → Action P B) (o : Result P A × Node P)
      → Leads good o
      → ((a : A) (node : Node P) → good a node → Leads better (f a node))
      → Leads better
          (elim o.0 [ done a ↦ f a o.1 | err e ↦ (err e, o.1) | panicked ↦ (panicked, o.1) ])
  outcome-Leads good better f (done a, node) l next = next a node l
  outcome-Leads good better f (err e, node) l next = l
  outcome-Leads good better f (panicked, node) l next = l

  pub bind-Leads :
      {A B : Type 0} (good : A → Node P → Type 0) (better : B → Node P → Type 0) (m : Action P A)
      (f : A → Action P B) (node : Node P)
      → Leads good (m node)
      → ((a : A) (node' : Node P) → good a node' → Leads better (f a node'))
      → Leads better ((m >>= f) node)
  unfolding ◌>>=◌
  bind-Leads good better m f node l next = outcome-Leads good better f (m node) l next

  -- A call with `?`, and what follows it.
  pub try_bind :
      {A B : Type 0} (better : B → Node P → Type 0) (r : Result P A) (f : A → Action P B)
      (node : Node P)
      → IsIdle node
      → (R → Answers r)
      → ((a : A) → r ≡ done a → Leads better (f a node))
      → Leads better ((try r >>= f) node)
  unfolding ◌>>=◌
  try_bind better (done a) f node i rel g = g a refl
  try_bind better (err e) f node i rel g = (i, λ h. let (a, q) = rel h in absurd (ground arith))
  try_bind better panicked f node i rel g = (i, λ h. let (a, q) = rel h in absurd (ground arith))

  -- A call that spawns tasks of the crates, with `?`, and what follows it.
  pub call_bind :
      {A B : Type 0} (better : B → Node P → Type 0) (r : Result P A) (tasks : List (Spawned P))
      (f : A → Action P B) (node : Node P)
      → IsIdle node
      → AreOther tasks
      → (R → Answers r)
      → ((a : A) (node' : Node P) → r ≡ done a → IsIdle node' → Leads better (f a node'))
      → Leads better ((call r tasks >>= f) node)
  unfolding ◌>>=◌ call
  call_bind better (done a) tasks f node i o rel g =
      g a _ refl (All-append _ node.tasks tasks i.0 o, i.1)
  call_bind better (err e) tasks f node i o rel g =
      ((All-append _ node.tasks tasks i.0 o, i.1), λ h. let (a, q) = rel h in absurd (ground arith))
  call_bind better panicked tasks f node i o rel g =
      ((All-append _ node.tasks tasks i.0 o, i.1), λ h. let (a, q) = rel h in absurd (ground arith))

  pub unwrap_bind :
      {A B : Type 0} (better : B → Node P → Type 0) (r : BackendResult A) (f : A → Action P B)
      (node : Node P)
      → IsIdle node
      → (R → Tells r)
      → ((a : A) → r ≡ ok a → Leads better (f a node))
      → Leads better ((unwrap r >>= f) node)
  unfolding ◌>>=◌
  unwrap_bind better (ok a) f node i rel g = g a refl
  unwrap_bind better backend_error f node i rel g =
      (i, λ h. let (a, q) = rel h in absurd (ground arith))

  spawn_telemetry-IsIdle :
      (calls : PartialCalls P) (worker : Option (P.Worker × P.Telemetry)) (node : Node P)
      → IsIdle node
      → Leads (λ _. IsIdle) (spawn_telemetry calls worker node)
  unfolding spawn
  spawn_telemetry-IsIdle calls none node i = i
  spawn_telemetry-IsIdle calls (some w) node i = (All-append _ node.tasks _ i.0 (tt, tt), i.1)

  new_telemetry-IsIdle :
      (calls : PartialCalls P) (endpoints : Option (List P.Endpoint)) (node : Node P)
      → IsIdle node
      → (R → IsPartialReliable calls)
      → Leads (λ _. IsIdle) (new_telemetry calls endpoints node)
  new_telemetry-IsIdle calls none node i rel = i
  new_telemetry-IsIdle calls (some endpoints) node i rel =
      try_bind (λ _. IsIdle) (calls.telemetry_worker 16) _ node i (λ h. (rel h).telemetry_worker 16)
        (λ worker e. i)

  pub new_partial-IsMade :
      (calls : PartialCalls P) (config : Configuration P) (node : Node P)
      → IsIdle node
      → (R → IsPartialReliable calls)
      → Leads (IsMade calls config.prometheus_registry) (new_partial calls config node)
  unfolding new_partial Import.new
  new_partial-IsMade calls config node i rel =
      bind-Leads (λ _. IsIdle) (IsMade calls config.prometheus_registry)
        (new_telemetry calls (non_empty calls config.telemetry_endpoints)) _ node
        (new_telemetry-IsIdle calls (non_empty calls config.telemetry_endpoints) node i rel)
        (λ worker node1 i1.
          call_bind (IsMade calls config.prometheus_registry) _ _ _ node1 i1 (by_manager-AreOther _)
            (λ h. (rel h).new_full_parts config _)
            (λ parts node2 e1 i2.
              bind-Leads (λ _. IsIdle) (IsMade calls config.prometheus_registry)
                (spawn_telemetry calls worker) _ node2
                (spawn_telemetry-IsIdle calls worker node2 i2)
                (λ u node3 i3.
                  call_bind (IsMade calls config.prometheus_registry) _ _ _ node3 i3
                    (by_handle-AreOther true _) (λ h. (_, refl))
                    (λ pool node4 e2 i4.
                      try_bind (IsMade calls config.prometheus_registry)
                        (calls.slot_duration parts.0) _ node4 i4
                        (λ h. (rel h).slot_duration parts.0)
                        (λ slot e3.
                          call_bind (IsMade calls config.prometheus_registry) _ _ _ node4 i4
                            (by_handle-AreOther true _) (λ h. (rel h).import_queue _)
                            (λ queue node5 e4 i5. record {
                              idle = i5;
                              metrics = refl;
                              channel = refl;
                            }))))))
