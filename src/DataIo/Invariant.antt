-- ===== src/DataIo/Invariant.antt =====
-- The invariant of the data store of finality-aleph/src/data_io.rs. `IsAvailable` is any property
-- that all blocks have which the client reported, such as "the client has imported the block".
use aleph_node.Common.{
  ℕ, ◌+◌, ◌≤◌, ◌<◌, ◌≡◌, ◌⊎◌, true, none, some, List, nat_eq, contains, All, Distinct,
}
use aleph_node.Common.Count.{count, dedup, flag}
use aleph_node.Common.Map.{get}
use aleph_node.DataIo.{AlephData, data_eq, Lru, DataStore}
use aleph_node.DataIo.Waits.{Table, waits, IsProper}

-- For how many of its blocks the message `id` waits.
abbrev pub outstanding : Table → ℕ → List AlephData → ℕ
outstanding t id blocks = count (λ b. waits t b id) (dedup blocks)

module _ {Message : Type 0} (lru : Lru AlephData) (included_blocks : Message → List AlephData)
    (IsAvailable : AlephData → Type 0) where
  -- All blocks of the message are available.
  abbrev pub Ready : Message → Type 0
  Ready m = (b : AlephData) → contains (included_blocks m) b ≡ true → IsAvailable b

  -- The requirement of a pending message: positive, no lower than the number of blocks that it
  -- waits for, and equal to it if the message speaks of each block once. In the loop of
  -- `push_messages`, `todo` are the ids whose requirement is still to be lowered by one.
  pub record Counted (s : DataStore lru.Cache Message) (todo : List ℕ) (id : ℕ) (m : Message)
      : Type 0 where
    pub requirement : ℕ
    pub stored : get s.message_requirements id ≡ some requirement
    pub positive : 0 < requirement
    pub bounded :
        outstanding s.dependent_messages id (included_blocks m) + flag (contains todo id)
        ≤ requirement
    pub exact :
        Distinct (included_blocks m)
        → outstanding s.dependent_messages id (included_blocks m) + flag (contains todo id)
          ≡ requirement

  pub record Inv (s : DataStore lru.Cache Message) (todo : List ℕ) : Type 0 where
    pub proper : IsProper s.dependent_messages
    pub known :
        (b : AlephData) (id : ℕ)
        → waits s.dependent_messages b id ≡ true
        → (m : Message) × (get s.pending_messages id ≡ some m)
          × (contains (included_blocks m) b ≡ true)
    pub todo_known :
        (id : ℕ) → contains todo id ≡ true → (m : Message) × (get s.pending_messages id ≡ some m)
    pub counted : (id : ℕ) (m : Message) → get s.pending_messages id ≡ some m → Counted s todo id m
    pub matched : (id : ℕ) → get s.pending_messages id ≡ none → get s.message_requirements id ≡ none
    pub fresh : (id : ℕ) (m : Message) → get s.pending_messages id ≡ some m → id < s.next_message_id
    pub covered :
        (id : ℕ) (m : Message) (b : AlephData)
        → get s.pending_messages id ≡ some m
        → contains (included_blocks m) b ≡ true
        → IsAvailable b ⊎ (waits s.dependent_messages b id ≡ true)
    pub cached : (b : AlephData) → lru.contains s.available_blocks b ≡ true → IsAvailable b
    pub sent : All Ready s.ready_messages
