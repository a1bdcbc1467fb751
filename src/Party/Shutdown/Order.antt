-- ===== src/Party/Shutdown/Order.antt =====
-- The order in which the tasks of a session end (`run_session_as_authority` of
-- finality-aleph/src/party.rs).
use aleph_node.Common.{
  ℕ, zero, suc, ◌≡◌, refl, Bool, true, false, List, [], ◌∷◌, All, All-mono, Bool-cases, inl, inr,
  arith, subst, nat_beq, nat_beq_iff, ap, sym, ◌∙◌,
}
use aleph_node.Party.Shutdown.{
  index, Task, member, data_store, aggregator, forwarder, refresher, mark, Action, send, await,
  State, shutdown, start, Stops, on_signal, member_alone, forwarder_alone, Step, asked, ended_now,
  sent, awaited, Steps, done, then,
}

-- The tasks that are to end before a task is told to, and what the future does after its end.
abbrev pub earlier : Task → List Task
earlier member = []
earlier aggregator = member ∷ []
earlier forwarder = member ∷ aggregator ∷ []
earlier refresher = member ∷ aggregator ∷ forwarder ∷ []
earlier data_store = member ∷ aggregator ∷ forwarder ∷ refresher ∷ []

abbrev pub all_tasks : List Task
all_tasks = member ∷ aggregator ∷ forwarder ∷ refresher ∷ data_store ∷ []

abbrev later : Task → List Action
later data_store = []
later refresher = send data_store ∷ await data_store ∷ []
later forwarder = send refresher ∷ await refresher ∷ send data_store ∷ await data_store ∷ []
later aggregator =
    send forwarder
    ∷ await forwarder
    ∷ send refresher
    ∷ await refresher
    ∷ send data_store
    ∷ await data_store
    ∷ []
later member =
    send aggregator
    ∷ await aggregator
    ∷ send forwarder
    ∷ await forwarder
    ∷ send refresher
    ∷ await refresher
    ∷ send data_store
    ∷ await data_store
    ∷ []

abbrev pub AllEnded : (Task → Bool) → List Task → Type 0
AllEnded ended = All (λ t. ended t ≡ true)

-- The future has stopped the tasks up to where it stands.
abbrev Phase : (Task → Bool) → (Task → Bool) → List Action → Type 0
Phase signalled ended [] = AllEnded ended all_tasks
Phase signalled ended (send t ∷ rest) = AllEnded ended (earlier t) × (rest ≡ await t ∷ later t)
Phase signalled ended (await t ∷ rest) =
    AllEnded ended (earlier t) × (signalled t ≡ true) × (rest ≡ later t)

-- The tasks that end only on their signals.
abbrev pub obeys : Task → Bool
obeys member = false
obeys data_store = true
obeys aggregator = true
obeys forwarder = false
obeys refresher = true

Stops-told : (t : Task) (b : Bool) → Stops t b → obeys t ≡ true → b ≡ true
Stops-told t b (on_signal _) o = refl
Stops-told member b (member_alone _) o = absurd (ground arith)
Stops-told forwarder b (forwarder_alone _) o = absurd (ground arith)

record IsStaged (st : State) : Type 0 where
  phase : Phase st.signalled st.ended st.todo
  in_order : (t : Task) → st.signalled t ≡ true → AllEnded st.ended (earlier t)
  on_exit : (t : Task) → st.signalled t ≡ true → st.exit ≡ true
  told : (t : Task) → st.ended t ≡ true → obeys t ≡ true → st.signalled t ≡ true

start-IsStaged : IsStaged start
unfolding start shutdown
start-IsStaged = record {
  phase = (tt, refl);
  in_order = λ t h. absurd (ground arith);
  on_exit = λ t h. absurd (ground arith);
  told = λ t h. absurd (ground arith);
}

mark-old : (t : Task) (f : Task → Bool) (u : Task) → f u ≡ true → mark t f u ≡ true
mark-old t f u h = ground arith

mark-AllEnded :
    (t : Task) (f : Task → Bool) (us : List Task) → AllEnded f us → AllEnded (mark t f) us
mark-AllEnded t f us h = All-mono (λ u e. mark-old t f u e) us h

Phase-mark :
    (t : Task) (s f : Task → Bool) (todo : List Action) → Phase s f todo → Phase s (mark t f) todo
Phase-mark t s f [] h = mark-AllEnded t f all_tasks h
Phase-mark t s f (send u ∷ rest) h = (mark-AllEnded t f (earlier u) h.0, h.1)
Phase-mark t s f (await u ∷ rest) h = (mark-AllEnded t f (earlier u) h.0, h.1, h.2)

-- Once a task is awaited, the future is at the next one.
Phase-later :
    (t : Task) (s f : Task → Bool) → AllEnded f (earlier t) → f t ≡ true → Phase s f (later t)
Phase-later member s f h e = ((e, tt), refl)
Phase-later aggregator s f h e = ((h.0, (e, tt)), refl)
Phase-later forwarder s f h e = ((h.0, (h.1.0, (e, tt))), refl)
Phase-later refresher s f h e = ((h.0, (h.1.0, (h.1.1.0, (e, tt)))), refl)
Phase-later data_store s f h e = (h.0, (h.1.0, (h.1.1.0, (h.1.1.1.0, (e, tt)))))

mark_self : (t : Task) (f : Task → Bool) → mark t f t ≡ true
mark_self t f = ground (arith, nat_beq_iff (index t) (index t))

task_at : ℕ → Task
task_at zero = member
task_at (suc zero) = data_store
task_at (suc (suc zero)) = aggregator
task_at (suc (suc (suc zero))) = forwarder
task_at _ = refresher

task_at-index : (t : Task) → task_at (index t) ≡ t
unfolding task_at
task_at-index member = refl
task_at-index data_store = refl
task_at-index aggregator = refl
task_at-index forwarder = refl
task_at-index refresher = refl

-- What holds of a task and of those in a set holds of the set with the task.
mark-all :
    (P : Task → Type 0) (t : Task) (s : Task → Bool)
    → P t
    → ((u : Task) → s u ≡ true → P u)
    → (u : Task) → mark t s u ≡ true
    → P u
mark-all P t s now old u h = elim (Bool-cases (nat_beq (index t) (index u))) [
  | inl e ↦
      let same : index t ≡ index u = (nat_beq_iff (index t) (index u)).0 e in
      subst P (sym (task_at-index t) ∙ (ap task_at same ∙ task_at-index u)) now
  | inr n ↦ old u (ground arith)
]

sent-IsStaged :
    (st : State) (t : Task) (rest : List Action)
    → st.exit ≡ true
    → st.todo ≡ send t ∷ rest
    → IsStaged st
    → IsStaged (record st { todo = rest; signalled = mark t st.signalled })
sent-IsStaged st t rest x q v =
    let now : Phase st.signalled st.ended (send t ∷ rest) =
      subst (Phase st.signalled st.ended) q v.phase in
    record {
      phase =
          subst (Phase (mark t st.signalled) st.ended) (sym now.1)
            (now.0, mark_self t st.signalled, refl);
      in_order = mark-all (λ u. AllEnded st.ended (earlier u)) t st.signalled now.0 v.in_order;
      on_exit = λ u h. x;
      told = λ u e o. mark-old t st.signalled u (v.told u e o);
    }

awaited-IsStaged :
    (st : State) (t : Task) (rest : List Action)
    → st.todo ≡ await t ∷ rest
    → st.ended t ≡ true
    → IsStaged st
    → IsStaged (record st { todo = rest })
awaited-IsStaged st t rest q e v =
    let now : Phase st.signalled st.ended (await t ∷ rest) =
      subst (Phase st.signalled st.ended) q v.phase in
    record {
      phase =
          subst (Phase st.signalled st.ended) (sym now.2)
            (Phase-later t st.signalled st.ended now.0 e);
      in_order = v.in_order;
      on_exit = v.on_exit;
      told = v.told;
    }

Step-IsStaged : (st st' : State) → Step st st' → IsStaged st → IsStaged st'
Step-IsStaged st _ (asked _) v = record {
  phase = v.phase;
  in_order = v.in_order;
  on_exit = λ t h. refl;
  told = v.told;
}
Step-IsStaged st _ (ended_now _ t stops) v = record {
  phase = Phase-mark t st.signalled st.ended st.todo v.phase;
  in_order = λ u h. mark-AllEnded t st.ended (earlier u) (v.in_order u h);
  on_exit = v.on_exit;
  told =
      mark-all (λ u. obeys u ≡ true → st.signalled u ≡ true) t st.ended
        (Stops-told t (st.signalled t) stops) v.told;
}
Step-IsStaged st _ (sent _ t rest x q) v = sent-IsStaged st t rest x q v
Step-IsStaged st _ (awaited _ t rest x q e) v = awaited-IsStaged st t rest q e v

Steps-IsStaged : (st st' : State) → Steps st st' → IsStaged st → IsStaged st'
Steps-IsStaged st _ (done _) v = v
Steps-IsStaged st st'' (then {st' = st'} s ss) v =
    Steps-IsStaged st' st'' ss (Step-IsStaged st st' s v)

-- The order in which a session ends: no task gets its exit signal before the session was asked to
-- exit and the tasks that come before it have ended; the aggregator, the refresher and the data store
-- do not end before all that come before them have ended either; and at the end of the future all
-- have ended.
pub record IsOrderly (st : State) : Type 0 where
  pub signals_on_exit : (t : Task) → st.signalled t ≡ true → st.exit ≡ true
  pub signals_in_order : (t : Task) → st.signalled t ≡ true → AllEnded st.ended (earlier t)
  pub ends_in_order :
      (t : Task) → obeys t ≡ true → st.ended t ≡ true → AllEnded st.ended (earlier t)
  pub end : st.todo ≡ [] → AllEnded st.ended all_tasks

-- However the session's tasks and the future that stops them go on, no task gets its exit signal
-- before the session was asked to exit and the tasks that come before it in the order of the future
-- have ended; the aggregator, the refresher and the data store do not end before those either; and at
-- the end of the future all five have ended.
pub Steps-IsOrderly : (st : State) → Steps start st → IsOrderly st
Steps-IsOrderly st steps =
    let v = Steps-IsStaged start st steps start-IsStaged in
    record {
      signals_on_exit = v.on_exit;
      signals_in_order = v.in_order;
      ends_in_order = λ t o e. v.in_order t (v.told t e o);
      end = λ q. subst (Phase st.signalled st.ended) q v.phase;
    }

-- The future has something to do, and it can do it.
next-Steps :
    (todo : List Action) (st : State)
    → st.todo ≡ todo
    → st.exit ≡ true
    → IsStaged st
    → (st' : State) × (Steps st st' × (st'.todo ≡ []))
next-Steps [] st q x v = (st, (done st, q))
next-Steps (send t ∷ rest) st q x v =
    let st' : State = record st { todo = rest; signalled = mark t st.signalled } in
    let last = next-Steps rest st' refl x (sent-IsStaged st t rest x q v) in
    (last.0, (then (sent st t rest x q) last.1.0, last.1.1))
next-Steps (await t ∷ rest) st q x v =
    let now : Phase st.signalled st.ended (await t ∷ rest) =
      subst (Phase st.signalled st.ended) q v.phase in
    let stops : Stops t (st.signalled t) = subst (Stops t) (sym now.1) (on_signal t) in
    let ended : State = record st { ended = mark t st.ended } in
    let e : ended.ended t ≡ true = mark_self t st.ended in
    let v' : IsStaged ended = Step-IsStaged st ended (ended_now st t stops) v in
    let last =
      next-Steps rest (record ended { todo = rest }) refl x
        (awaited-IsStaged ended t rest q e v') in
    (last.0, (then (ended_now st t stops) (then (awaited ended t rest x q e) last.1.0), last.1.1))

-- The end of a session cannot get stuck: from whatever state the session has reached, once it is asked
-- to exit, there are steps of the future and of the tasks, each of which ends on its signal, that lead
-- to the end of the future, where all five tasks have ended.
pub Steps-ends :
    (st : State)
    → Steps start st
    → st.exit ≡ true
    → (st' : State) × (Steps st st' × ((st'.todo ≡ []) × AllEnded st'.ended all_tasks))
Steps-ends st steps x =
    let v = Steps-IsStaged start st steps start-IsStaged in
    let last = next-Steps st.todo st refl x v in
    let v' = Steps-IsStaged st last.0 last.1.0 v in
    (last.0, (last.1.0, (last.1.1, subst (Phase last.0.signalled last.0.ended) last.1.1 v'.phase)))
