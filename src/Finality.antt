-- ===== src/Finality.antt =====
-- How finality passes from the aggregator's task of finality-aleph/src/party.rs to the justification
-- handler of finality-aleph/src/justification.rs, which a channel of notifications joins.
pub mod Rounds
pub mod Delivery
pub mod Signed
pub mod Imported
use aleph_node.Common.{◌≡◌, ℕ, suc, Bool, false, some, List, [], ◌∷◌, map, nat_eq}
use aleph_node.Common.Map.{get}
use aleph_node.Keys.{KeyBox}
use aleph_node.Keys
use aleph_node.Party.Links
use aleph_node.Justification.{
  Chain, JustificationNotification, SessionMap, Input, State, run, Polled, notified, ended,
  timed_out,
}

-- The handler finds the authorities of the session, and none of the sessions that it finds is
-- without authorities.
abbrev pub IsKnown : ℕ → List ℕ → SessionMap → Type 0
IsKnown session authorities known =
    (get known session ≡ some authorities)
    × ((other : ℕ) (others : List ℕ)
        → get known other ≡ some others
        → (keybox : KeyBox) × (Keys.new 0 others ≡ some keybox))

module _ {W Multisignature Justification : Type 0} (chain : Chain W Justification)
    (is_complete : KeyBox → ℕ → Multisignature → Bool)
    (encode : Multisignature → Justification) where
  -- The client takes the finality of a child of its last finalized block.
  abbrev pub IsExtensible : (ℕ → ℕ) → (ℕ → ℕ) → Type 0
  IsExtensible parent_of number_of =
      (w : W) (hash : ℕ) (justification : Justification)
      → parent_of hash ≡ (chain.client w).finalized_hash
      → number_of hash ≡ suc (chain.client w).finalized_number
      → let client = chain.client (chain.apply_finality hash (some justification) w).1 in
        (client.finalized_hash ≡ hash) × (client.finalized_number ≡ number_of hash)

  -- The world after the finality of the notified blocks was applied one after the other.
  abbrev pub finalize_all : List (JustificationNotification Multisignature) → W → W
  finalize_all [] w = w
  finalize_all (n ∷ ns) w =
      finalize_all ns (chain.apply_finality n.hash (some (encode n.justification)) w).1

  -- A poll that finalizes nothing: in time no notification came, or one with a justification that is
  -- complete under no keys.
  abbrev pub IsIdle : Polled chain is_complete encode → Type 0
  IsIdle (notified n) = (keybox : KeyBox) → is_complete keybox n.hash n.justification ≡ false
  IsIdle ended = ⊥
  IsIdle timed_out = Unit {0}

  -- The rounds in which the handler polls the notifications in order, with idle ones between them.
  pub data Delivers (session : ℕ) (authorities : List ℕ)
      : List (JustificationNotification Multisignature)
        → List (Input chain is_complete encode)
        → Type 0 where
    done : Delivers session authorities [] []
    idle :
        (i : Input chain is_complete encode) {ns : List (JustificationNotification Multisignature)}
        {is : List (Input chain is_complete encode)}
        → IsKnown session authorities i.session_authorities
        → IsIdle i.polled
        → Delivers session authorities ns is
        → Delivers session authorities ns (i ∷ is)
    told :
        (i : Input chain is_complete encode) (n : JustificationNotification Multisignature)
        {ns : List (JustificationNotification Multisignature)}
        {is : List (Input chain is_complete encode)}
        → IsKnown session authorities i.session_authorities
        → i.polled ≡ notified n
        → Delivers session authorities ns is
        → Delivers session authorities (n ∷ ns) (i ∷ is)

  -- The handler at work, the client's last finalized block being `base`.
  pub record IsAt (number_of : ℕ → ℕ) (period base : ℕ) (s : State chain is_complete encode)
      : Type 0 where
    pub hash : (chain.client s.world).finalized_hash ≡ base
    pub number : (chain.client s.world).finalized_number ≡ number_of base
    pub cadence : s.handler.chain_cadence.session_period ≡ period
    pub goes : s.finished ≡ false

  -- After the handler's rounds `is`, it is at work at the last of the blocks `ns`, and the world is
  -- that in which exactly they have been finalized in order.
  abbrev pub Finalized :
      (ℕ → ℕ)
      → (ℕ → ℕ)
      → ℕ
      → ℕ
      → List (JustificationNotification Multisignature)
      → List (Input chain is_complete encode)
      → State chain is_complete encode
      → Type 0
  Finalized parent_of number_of period base ns is s =
      (s' : State chain is_complete encode) × (last : ℕ) × (run chain is_complete encode is s
        ≡ some s')
      × (s'.world ≡ finalize_all ns s.world)
      × Links.Chain parent_of base (map (λ n. n.hash) ns) last
      × IsAt number_of period last s'
