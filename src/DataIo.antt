-- ===== src/DataIo.antt =====
-- The data store of finality-aleph/src/data_io.rs: messages wait until the client has all the
-- blocks that they speak of. The tasks' `expect`s are the cases that return `none`. A send on the
-- unbounded channel `ready_messages_tx` is an entry at the end of `ready_messages`.
pub mod Only
pub mod Waits
pub mod Invariant
pub mod Lower
pub mod Push
pub mod Forget
pub mod Enroll
pub mod Sift
pub mod Run
pub mod Release
pub mod Stuck
pub mod Provider
use aleph_node.Common.{
  ℕ, ◌+◌, ◌-◌, ◌%◌, ◌^◌, ◌≡◌, ◌⊎◌, ◌↔◌, Bool, true, false, ◌&&◌, ◌||◌, Option, none, some, List, [],
  ◌∷◌, ◌++◌, arith, leb, nat_beq, if◌then◌else◌, Eq, ◌==◌, nat_eq, ◌>>=◌, length, set_insert,
  set_remove,
}
use aleph_node.Common.Map.{Map, get, insert, remove, keys, iter}
use aleph_node.Client.{BackendResult, Client}

pub record AlephData : Type 0 where
  pub hash : ℕ
  pub number : ℕ

abbrev data_beq : AlephData → AlephData → Bool
data_beq a b = nat_beq a.hash b.hash && nat_beq a.number b.number

pub data_beq_iff : (a b : AlephData) → (data_beq a b ≡ true) ↔ (a ≡ b)
data_beq_iff a b = ground arith

instance abbrev pub data_eq : Eq AlephData
data_eq = record { beq = data_beq; beq_iff = data_beq_iff }

-- The crate `lru`, as far as it is used: a block that the cache contains was put there, and a put
-- may push others out.
pub record Lru (K : Type 0) : Type 1 where
  pub Cache : Type 0
  pub new : ℕ → Cache
  pub contains : Cache → K → Bool
  pub put : K → Cache → Cache
  pub contains-new : (n : ℕ) (k : K) → contains (new n) k ≡ false
  pub contains-put :
      (c : Cache) (k j : K) → contains (put k c) j ≡ true → (k ≡ j) ⊎ (contains c j ≡ true)

abbrev pub available_blocks_cache_size : ℕ
available_blocks_cache_size = 1000

abbrev pub message_id_boundary : ℕ
message_id_boundary = 100_000

pub record DataStore (Cache Message : Type 0) : Type 0 where
  pub next_message_id : ℕ
  pub ready_messages : List Message
  pub dependent_messages : Map AlephData (List ℕ)
  pub available_blocks : Cache
  pub message_requirements : Map ℕ ℕ
  pub pending_messages : Map ℕ Message

-- `if let Ok(Some(_)) = answer`
abbrev pub is_found {ℓ} : {A : Type ℓ} → BackendResult (Option A) → Bool
is_found (BackendResult.ok (some _)) = true
is_found (BackendResult.ok none) = false
is_found BackendResult.backend_error = false

-- The client has the block, or has finalized beyond it.
unfoldable pub is_available : Client → AlephData → Bool
is_available client block_data =
    is_found (client.header block_data.hash) || leb block_data.number client.finalized_number

-- One round of the loop of `add_pending_message`.
unfoldable pub add_dependent : ℕ → AlephData → Map AlephData (List ℕ) → Map AlephData (List ℕ)
add_dependent id block dependent = elim (get dependent block) [
  | none ↦ insert block (set_insert id []) dependent
  | some ids ↦ insert block (set_insert id ids) dependent
]

unfoldable pub add_dependents : ℕ → List AlephData → Map AlephData (List ℕ) → Map AlephData (List ℕ)
add_dependents id [] dependent = dependent
add_dependents id (b ∷ bs) dependent = add_dependents id bs (add_dependent id b dependent)

abbrev set_or_drop : AlephData → List ℕ → Map AlephData (List ℕ) → Map AlephData (List ℕ)
set_or_drop block [] dependent = remove block dependent
set_or_drop block (i ∷ ids) dependent = insert block (i ∷ ids) dependent

-- One round of the loop of `forget_message`.
unfoldable pub forget_dependent : ℕ → AlephData → Map AlephData (List ℕ) → Map AlephData (List ℕ)
forget_dependent id block dependent = elim (get dependent block) [
  | none ↦ dependent
  | some ids ↦ set_or_drop block (set_remove id ids) dependent
]

unfoldable pub forget_dependents :
    ℕ → List AlephData → Map AlephData (List ℕ) → Map AlephData (List ℕ)
forget_dependents id [] dependent = dependent
forget_dependents id (b ∷ bs) dependent = forget_dependents id bs (forget_dependent id b dependent)

-- `-= 1` on a `usize`, which wraps at 0.
abbrev pub decrement : ℕ → ℕ
decrement r = if nat_beq r 0 then 2 ^ 64 - 1 else r - 1

module _ {Cache Message : Type 0} where
  -- The end of the loop of `push_messages`, with the requirement already lowered to `r`.
  unfoldable pub send_if_ready : ℕ → ℕ → DataStore Cache Message → Option (DataStore Cache Message)
  send_if_ready id r s =
      if nat_beq r 0
      then (do
        message ← get s.pending_messages id
        some (record s {
          pending_messages = remove id s.pending_messages;
          ready_messages = s.ready_messages ++ message ∷ [];
          message_requirements = remove id s.message_requirements;
        }))
      else some s

  -- One round of the loop of `push_messages`.
  unfoldable pub push_message : ℕ → DataStore Cache Message → Option (DataStore Cache Message)
  push_message id s = do
    r ← get s.message_requirements id
    send_if_ready id (decrement r)
        (record s { message_requirements = insert id (decrement r) s.message_requirements })

  unfoldable pub push_ids : List ℕ → DataStore Cache Message → Option (DataStore Cache Message)
  push_ids [] s = some s
  push_ids (id ∷ ids) s = do s' ← push_message id s; push_ids ids s'

  unfoldable pub push_messages :
      AlephData → DataStore Cache Message → Option (DataStore Cache Message)
  push_messages block s = elim (get s.dependent_messages block) [
    | none ↦ some s
    | some ids ↦ push_ids ids (record s { dependent_messages = remove block s.dependent_messages })
  ]

abbrev pub keep_if : Bool → AlephData → List AlephData → List AlephData
keep_if needed block rest = if needed then block ∷ rest else rest

-- The crate's cache, and `AlephNetworkMessage::included_blocks`.
module _ (lru : Lru AlephData) {Message : Type 0} (included_blocks : Message → List AlephData) where
  abbrev pub Store : Type 0
  Store = DataStore lru.Cache Message

  unfoldable pub new : Store
  new = record {
    next_message_id = 0;
    ready_messages = [];
    dependent_messages = [];
    available_blocks = lru.new available_blocks_cache_size;
    message_requirements = [];
    pending_messages = [];
  }

  unfoldable pub forget_message : ℕ → Store → Store
  forget_message id s = elim (get s.pending_messages id) [
    | none ↦ record s { message_requirements = remove id s.message_requirements }
    | some message ↦ record s {
      message_requirements = remove id s.message_requirements;
      pending_messages = remove id s.pending_messages;
      dependent_messages = forget_dependents id (included_blocks message) s.dependent_messages;
    }
  ]

  -- `add_pending_message` up to the test of the boundary.
  unfoldable pub enroll : Message → List AlephData → Store → Store
  enroll message requirements s = record s {
    next_message_id = (s.next_message_id + 1) % 2 ^ 64;
    dependent_messages = add_dependents s.next_message_id requirements s.dependent_messages;
    message_requirements = insert s.next_message_id (length requirements) s.message_requirements;
    pending_messages = insert s.next_message_id message s.pending_messages;
  }

  unfoldable pub add_pending_message : Message → List AlephData → Store → Store
  add_pending_message message requirements s =
      if leb message_id_boundary s.next_message_id
      then forget_message (s.next_message_id - message_id_boundary) (enroll message requirements s)
      else enroll message requirements s

  unfoldable pub add_block : AlephData → Store → Option Store
  add_block block s =
      push_messages block (record s { available_blocks = lru.put block s.available_blocks })

  -- The closure of the filter in `add_message`: is the block a requirement?
  unfoldable pub requires : Client → AlephData → Store → Option (Bool × Store)
  requires client block s =
      if lru.contains s.available_blocks block
      then some (false, s)
      else if is_available client block
      then (do s' ← add_block block s; some (false, s'))
      else some (true, s)

  unfoldable pub requirements_of : Client → List AlephData → Store → Option (List AlephData × Store)
  requirements_of client [] s = some ([], s)
  requirements_of client (b ∷ bs) s = do
    (needed, s') ← requires client b s
    (rest, s'') ← requirements_of client bs s'
    some (keep_if needed b rest, s'')

  abbrev pub send_or_wait : Message → List AlephData → Store → Store
  send_or_wait message [] s = record s { ready_messages = s.ready_messages ++ message ∷ [] }
  send_or_wait message (r ∷ rs) s = add_pending_message message (r ∷ rs) s

  unfoldable pub add_message : Client → Message → Store → Option Store
  add_message client message s = do
    (requirements, s') ← requirements_of client (included_blocks message) s
    some (send_or_wait message requirements s')

  unfoldable pub add_available : Client → List AlephData → Store → Option Store
  add_available client [] s = some s
  add_available client (b ∷ bs) s = do
    s' ← (if is_available client b then add_block b s else some s)
    add_available client bs s'

  -- The arm of the maintenance timer.
  unfoldable pub maintain : Client → Store → Option Store
  maintain client s = add_available client (keys (iter s.dependent_messages)) s

  -- What `run` polls, without the exit signal. Each event comes with the client as it then is.
  pub data Event : Type 0 where
    message_received : Message → Event
    block_imported : AlephData → Event
    maintenance_timeout : Event

  unfoldable pub step : Client → Event → Store → Option Store
  step client (message_received message) s = add_message client message s
  step client (block_imported block) s = add_block block s
  step client maintenance_timeout s = maintain client s

  unfoldable pub run : List (Client × Event) → Store → Option Store
  run [] s = some s
  run ((client, event) ∷ events) s = do s' ← step client event s; run events s'
