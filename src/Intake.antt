-- ===== src/Intake.antt =====
-- The way of a consensus message from the network of finality-aleph/src/network.rs through the split
-- network to the data store of finality-aleph/src/data_io.rs, and so to the session's member.
use aleph_node.Common.{
  ℕ, ◌^◌, ◌<◌, ◌≡◌, some, List, [], ◌∷◌, ◌++◌, nat_eq, length, All, All-left, Option, Bool,
}
use aleph_node.Common.Map.{get}
use aleph_node.Client.{Client}
use aleph_node.Keys.{KeyBox}
use aleph_node.DataIo
use aleph_node.DataIo.{
  AlephData, Lru, DataStore, Event, message_received, block_imported, maintenance_timeout,
}
use aleph_node.DataIo.Invariant.{Ready}
use aleph_node.DataIo.Run.{IsSoundEvent, run-new-Inv}
use aleph_node.DataIo.Only.{Brings, run-new-Only}
use aleph_node.Network.{AuthData, InternalMessage, SessionData, Network, Act, run, new}
use aleph_node.Network.Authentic.{IsHonest, run-new-IsAuthentic}
use aleph_node.Network.Split
use aleph_node.Network.Split.{NetworkData, aleph, rmc, split_network}
use aleph_node.Network.Split.Kinds.{alephs}
use aleph_node.Network.Split.Order.{KeepsOpen, note_all, unused, run-split_network}

All-alephs :
    {A R : Type 0} (P : NetworkData A R → Type 0) (ds : List (NetworkData A R))
    → All P ds
    → All (λ m. P (aleph m)) (alephs ds)
All-alephs P [] h = tt
All-alephs P (aleph m ∷ ds) h = (h.0, All-alephs P ds h.1)
All-alephs P (rmc m ∷ ds) h = All-alephs P ds h.1

All-both :
    {A : Type 0} (P Q : A → Type 0) (xs : List A) → All P xs → All Q xs → All (λ x. P x × Q x) xs
All-both P Q [] p q = tt
All-both P Q (x ∷ xs) p q = ((p.0, q.0), All-both P Q xs p.1 q.1)

module _ {Message : Type 0} (lru : Lru AlephData) (included_blocks : Message → List AlephData) where
  -- The messages that the events of the data store bring.
  abbrev pub messages_of : List (Client × Event lru included_blocks) → List Message
  messages_of [] = []
  messages_of ((client, message_received m) ∷ es) = m ∷ messages_of es
  messages_of ((client, block_imported b) ∷ es) = messages_of es
  messages_of ((client, maintenance_timeout) ∷ es) = messages_of es

  All-Brings :
      (P : Message → Type 0) (es : List (Client × Event lru included_blocks))
      → All P (messages_of es)
      → All (Brings lru included_blocks P) es
  All-Brings P [] h = tt
  All-Brings P ((client, message_received m) ∷ es) h = (h.0, All-Brings P es h.1)
  All-Brings P ((client, block_imported b) ∷ es) h = (tt, All-Brings P es h)
  All-Brings P ((client, maintenance_timeout) ∷ es) h = (tt, All-Brings P es h)

module _ {Raw Bytes Sgn A R : Type 0} (encode : AuthData → Bytes) (check : ℕ → Bytes → Sgn → Bool)
    (decode : Raw → Option (InternalMessage Sgn (NetworkData A R)))
    (IsKeychain : ℕ → KeyBox → Type 0) (Vouched : ℕ → ℕ → ℕ → Type 0)
    (IsGenuine : ℕ → NetworkData A R → Type 0) (lru : Lru AlephData)
    (included_blocks : A → List AlephData) (IsAvailable : AlephData → Type 0) where
  -- Whatever a node receives in whatever order: the messages that the data store of a session gives
  -- to the member are genuine, in the reading of `IsGenuine` for that session, and all their blocks
  -- are available. The session's user is the split network, which has received the first data of the
  -- user's channel while no receiver goes, and the data store has taken the first messages which that
  -- forwards to it; its clients must be sound and its events fewer than 2 ^ 64, and it does not panic.
  pub run-new-Delivers :
      (own_peer own_protocol : ℕ) (acts : List (Act encode check decode))
      (net : Network Sgn (NetworkData A R)) (s : ℕ) (d : SessionData Sgn (NetworkData A R))
      (es : List (Split.Event A R)) (waiting : List (NetworkData A R))
      (events : List (Client × Event lru included_blocks)) (queue : List A)
      → All (IsHonest encode check decode IsKeychain Vouched IsGenuine) acts
      → run encode check decode own_peer own_protocol acts new ≡ some net
      → get net.sessions s ≡ some d
      → All KeepsOpen es
      → (note_all {Sgn = Sgn} s es (split_network s) unused).arrived ++ waiting ≡ d.data_for_user
      → messages_of lru included_blocks events ++ queue
        ≡ (Split.run es (split_network {Sgn = Sgn} s)).data_store_tx
      → All (IsSoundEvent lru included_blocks IsAvailable) events
      → length events < 2 ^ 64
      → (store : DataStore lru.Cache A) × (DataIo.run lru included_blocks events
            (DataIo.new lru included_blocks)
          ≡ some store)
        × All
            (λ m. IsGenuine s (aleph m) × Ready lru included_blocks IsAvailable m)
            store.ready_messages
  run-new-Delivers own_peer own acts net s d es waiting events queue h e q ks w m sound small =
      let (store, ran, v) = run-new-Inv lru included_blocks IsAvailable events sound small in
      let only =
        run-new-Only lru included_blocks (λ m. IsGenuine s (aleph m)) events store
          (All-Brings lru included_blocks (λ m. IsGenuine s (aleph m)) events genuine) ran in
      (
        store,
        ran,
        All-both (λ m. IsGenuine s (aleph m)) (Ready lru included_blocks IsAvailable)
            store.ready_messages only.ready v.sent,
      )
    where
      arrived : List (NetworkData A R)
      arrived = (note_all {Sgn = Sgn} s es (split_network s) unused).arrived

      authentic :
          All
            (IsGenuine s)
            ((note_all {Sgn = Sgn} s es (split_network s) unused).arrived ++ waiting)
      authentic = rw w (
          (run-new-IsAuthentic encode check decode IsKeychain Vouched IsGenuine own_peer own acts
              net h e).received
            s d q)

      after : Split.Split Sgn A R
      after = Split.run es (split_network s)

      forwarded :
          All
            (λ m. IsGenuine s (aleph m))
            (Split.run es (split_network {Sgn = Sgn} s)).data_store_tx
      forwarded =
          All-left (λ m. IsGenuine s (aleph m)) after.data_store_tx
            (alephs after.outer.data_from_consensus_network)
            (rw (run-split_network {Sgn = Sgn} s es ks).stored
              (All-alephs (IsGenuine s) arrived (All-left (IsGenuine s) arrived waiting authentic)))

      genuine : All (λ m. IsGenuine s (aleph m)) (messages_of lru included_blocks events)
      genuine = All-left (λ m. IsGenuine s (aleph m)) _ queue (rw m forwarded)
