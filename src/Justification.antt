-- ===== src/Justification.antt =====
-- finality-aleph/src/justification.rs. The clock's `now` is an argument of each call, in the unit of
-- the cadence; a difference of instants is 0 where it would be negative. The client with its
-- finalization is the parameter `chain`, and the check of a multisignature, `is_complete` of the
-- crate `aleph_bft`, is a parameter as well.
pub mod Safety
pub mod Cadence
pub mod Trace
use aleph_node.Common.{
  ℕ, ◌+◌, ◌-◌, ◌*◌, Bool, true, false, ◌&&◌, Option, none, some, List, [], ◌∷◌, ◌++◌, ltb, leb,
  nat_eq, if◌then◌else◌, ◌>>=◌,
}
use aleph_node.Common.Map.{Map, get}
use aleph_node.Client.{BackendResult, ok, backend_error, Header, Client}
use aleph_node.Keys.{KeyBox}
use aleph_node.Keys
use aleph_node.Session.{last_block_of_session, session_id_from_block_num}

-- What the node does to the chain, over the chain's states `W`.
pub record Chain (W Justification : Type 0) : Type 0 where
  pub client : W → Client
  pub apply_finality : ℕ → Option Justification → W → Bool × W

-- `finalize_block` of finalization.rs: whatever the numbers, it applies the finality. The engine id
-- that the source pairs with a justification is left to what encodes the justification.
unfoldable pub finalize_block :
    {W Justification : Type 0} → Chain W Justification → ℕ → ℕ → Option Justification → W → Bool × W
finalize_block chain hash block_number justification w = chain.apply_finality hash justification w

pub record JustificationNotification (Multisignature : Type 0) : Type 0 where
  pub justification : Multisignature
  pub hash : ℕ
  pub number : ℕ

pub record ChainCadence : Type 0 where
  pub session_period : ℕ
  pub justifications_cadence : ℕ

-- `JustificationHandler`: the instants that it keeps. The map of session authorities is shared with
-- the party that fills it, so it is an argument.
pub record Handler : Type 0 where
  pub chain_cadence : ChainCadence
  pub last_request_time : ℕ
  pub last_finalization_time : ℕ

unfoldable pub new : ℕ → ChainCadence → Handler
new now chain_cadence = record {
  chain_cadence = chain_cadence;
  last_request_time = now;
  last_finalization_time = now;
}

-- A call of the network's `request_justification`.
pub record Request : Type 0 where
  pub hash : ℕ
  pub number : ℕ

abbrev pub SessionMap : Type 0
SessionMap = Map ℕ (List ℕ)

-- The key box of a session, if its authorities are known; `KeyBox::new` panics if there are none.
unfoldable pub session_keybox : SessionMap → ℕ → Option (Option KeyBox)
session_keybox session_authorities session_id = elim (get session_authorities session_id) [
  | none ↦ some none
  | some authorities ↦ (do keybox ← Keys.new 0 authorities; some (some keybox))
]

abbrev pub requested : Option Header → ℕ → Handler → Handler × Option Request
requested none now h = (h, none)
requested (some header) now h = (
  record h { last_request_time = now },
  some (record { hash = header.hash; number = header.number }),
)

abbrev pub found : BackendResult (Option Header) → Option Header
found (ok x) = x
found backend_error = none

unfoldable pub request_justification : ℕ → Client → ℕ → Handler → Handler × Option Request
request_justification now client num h =
    if ltb h.chain_cadence.justifications_cadence (now - h.last_finalization_time)
      && ltb (2 * h.chain_cadence.justifications_cadence) (now - h.last_request_time)
    then requested (found (client.header_at num)) now h
    else (h, none)

module _ {W Multisignature Justification : Type 0} (chain : Chain W Justification)
    (is_complete : KeyBox → ℕ → Multisignature → Bool)
    (encode : Multisignature → Justification) where
  -- `AlephJustification::verify`
  unfoldable pub verify : Multisignature → ℕ → KeyBox → Bool
  verify justification block_hash keybox =
      if is_complete keybox block_hash justification then true else false

  abbrev pub after_finalization : ℕ → Handler → Bool × W → Handler × W
  after_finalization now h (true, w) = (record h { last_finalization_time = now }, w)
  after_finalization now h (false, w) = (h, w)

  unfoldable pub handle_justification_notification :
      ℕ → JustificationNotification Multisignature → KeyBox → ℕ → ℕ → Handler × W → Handler × W
  unfolding finalize_block verify
  handle_justification_notification now notification keybox last_finalized stop_h (h, w) =
      if verify notification.justification notification.hash keybox
      then (if ltb last_finalized notification.number && leb notification.number stop_h
          then after_finalization now h (
              finalize_block chain notification.hash notification.number
                (some (encode notification.justification)) w)
          else (h, w))
      else (h, w)

  -- What waiting for the next notification for one second gives.
  pub data Polled : Type 0 where
    notified : JustificationNotification Multisignature → Polled
    ended : Polled
    timed_out : Polled

  -- One round of the loop of `run`: the authorities known, what the poll gives, and the instants of
  -- the notification and of the request.
  pub record Input : Type 0 where
    pub session_authorities : SessionMap
    pub polled : Polled
    pub handled_at : ℕ
    pub requested_at : ℕ

  pub record State : Type 0 where
    pub handler : Handler
    pub world : W
    pub requests : List (ℕ × Request)
    pub finished : Bool

  abbrev pub noted : ℕ → Option Request → List (ℕ × Request)
  noted now none = []
  noted now (some r) = (now, r) ∷ []

  abbrev pub ask : ℕ → ℕ → List (ℕ × Request) → Handler × W → State
  ask now stop_h requests (h, w) =
      let (h', r) = request_justification now (chain.client w) stop_h h in
      record { handler = h'; world = w; requests = requests ++ noted now r; finished = false }

  unfoldable pub serve : Input → KeyBox → ℕ → ℕ → Polled → State → State
  unfolding handle_justification_notification request_justification
  serve i keybox last_finalized stop_h (notified notification) s =
      ask i.requested_at stop_h s.requests (
        handle_justification_notification i.handled_at notification keybox last_finalized stop_h
          (s.handler, s.world))
  serve i keybox last_finalized stop_h ended s = record s { finished = true }
  serve i keybox last_finalized stop_h timed_out s =
      ask i.requested_at stop_h s.requests (s.handler, s.world)

  abbrev pub serve_if : Input → Option KeyBox → ℕ → ℕ → State → State
  serve_if i none last_finalized stop_h s = s
  serve_if i (some keybox) last_finalized stop_h s = serve i keybox last_finalized stop_h i.polled s

  unfoldable pub round : Input → State → Option State
  round i s = do
    let last_finalized = (chain.client s.world).finalized_number
    let period = s.handler.chain_cadence.session_period
    current_session ← session_id_from_block_num (last_finalized + 1) period
    let stop_h = last_block_of_session current_session period
    keybox ← session_keybox i.session_authorities current_session
    some (serve_if i keybox last_finalized stop_h s)

  -- Once the stream of notifications has ended, `run` returns.
  unfoldable pub run : List Input → State → Option State
  run [] s = some s
  run (i ∷ is) s = do s' ← (if s.finished then some s else round i s); run is s'
