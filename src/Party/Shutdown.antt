-- ===== src/Party/Shutdown.antt =====
-- The end of a session in `run_session_as_authority` of finality-aleph/src/party.rs: the five tasks
-- of the session, their exit signals, and the future that stops them one after the other.
pub mod Order
use aleph_node.Common.{ℕ, ◌≡◌, Bool, true, false, ◌||◌, List, [], ◌∷◌, nat_beq}

pub data Task : Type 0 where
  member : Task
  data_store : Task
  aggregator : Task
  forwarder : Task
  refresher : Task

abbrev pub index : Task → ℕ
index member = 0
index data_store = 1
index aggregator = 2
index forwarder = 3
index refresher = 4

-- A set of tasks, as its test, with one more.
abbrev pub mark : Task → (Task → Bool) → Task → Bool
mark t tasks u = nat_beq (index t) (index u) || tasks u

-- A statement of the future: it sends the exit signal of a task, or awaits the task's handle.
pub data Action : Type 0 where
  send : Task → Action
  await : Task → Action

-- The future, from where it stands: whether `exit_rx` is resolved, what is left to do, to which tasks
-- the exit signal was sent, and which have ended.
pub record State : Type 0 where
  pub exit : Bool
  pub todo : List Action
  pub signalled : Task → Bool
  pub ended : Task → Bool

-- The statements of the future, after the one that awaits `exit_rx`.
unfoldable pub shutdown : List Action
shutdown =
    send member
    ∷ await member
    ∷ send aggregator
    ∷ await aggregator
    ∷ send forwarder
    ∷ await forwarder
    ∷ send refresher
    ∷ await refresher
    ∷ send data_store
    ∷ await data_store
    ∷ []

unfoldable pub start : State
unfolding shutdown
start = record { exit = false; todo = shutdown; signalled = λ t. false; ended = λ t. false }

-- When a task ends. Each ends on its signal. The member may end by itself, and the forwarder does
-- when its channels are closed. The aggregator's loop is followed by a wait for the signal, and the
-- loops of the refresher and of the data store have no other end.
pub data Stops : Task → Bool → Type 0 where
  on_signal : (t : Task) → Stops t true
  member_alone : (b : Bool) → Stops member b
  forwarder_alone : (b : Bool) → Stops forwarder b

-- A step: the session is asked to exit, a task ends, or the future goes on by one statement.
pub data Step : State → State → Type 0 where
  asked : (st : State) → Step st (record st { exit = true })
  ended_now :
      (st : State) (t : Task)
      → Stops t (st.signalled t)
      → Step st (record st { ended = mark t st.ended })
  sent :
      (st : State) (t : Task) (rest : List Action)
      → st.exit ≡ true
      → st.todo ≡ send t ∷ rest
      → Step st (record st { todo = rest; signalled = mark t st.signalled })
  awaited :
      (st : State) (t : Task) (rest : List Action)
      → st.exit ≡ true
      → st.todo ≡ await t ∷ rest
      → st.ended t ≡ true
      → Step st (record st { todo = rest })

-- Any number of steps.
pub data Steps : State → State → Type 0 where
  done : (st : State) → Steps st st
  then : {st st' st'' : State} → Step st st' → Steps st' st'' → Steps st st''
