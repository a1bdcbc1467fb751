-- ===== src/Network/Split/Order.antt =====
-- The split network of finality-aleph/src/network.rs behaves as two networks of their own.
use aleph_node.Common.{
  ℕ, ◌+◌, ◌≡◌, refl, true, List, [], ◌∷◌, ◌++◌, append-nil, append_assoc, arith, length,
  length-append, All, All-append,
}
use aleph_node.Network.{Recipient, SessionCommand, map_command}
use aleph_node.Network.Split.Kinds.{
  alephs, rmcs, alephs-append, rmcs-append, aleph_commands, rmc_commands, aleph_commands-append,
  rmc_commands-append,
}
use aleph_node.Network.Split.{
  dropped, NetworkData, aleph, rmc, recipient_from, new, Split, Event, received, aleph_sent,
  rmc_sent, rmc_taken, forward_data, forward_aleph_cmd, forward_rmc_cmd, split_network, forward,
  forward_first, forward_first_aleph, forward_first_rmc, step, run,
}

-- The use of the split network as that of two networks: what each kind's users were to get and what
-- they have sent, and what the multicast's user has taken.
pub record Log (Sgn A R : Type 0) : Type 0 where
  pub arrived : List (NetworkData A R)
  pub from_aleph : List (SessionCommand Sgn A)
  pub from_rmc : List (SessionCommand Sgn R)
  pub taken : List R

-- An event by which no receiver goes.
abbrev pub KeepsOpen : {A R : Type 0} → Event A R → Type 0
KeepsOpen (dropped receiver) = ⊥
KeepsOpen _ = Unit {0}

-- A command with data.
abbrev pub IsPayload : {Sgn D : Type 0} → SessionCommand Sgn D → Type 0
IsPayload (SessionCommand.payload s d r) = Unit {0}
IsPayload (SessionCommand.meta m r) = ⊥

send-payloads :
    {Sgn D : Type 0} (cs : List (SessionCommand Sgn D)) (t : ℕ) (d : D) (r : Recipient ℕ)
    → All IsPayload cs
    → All IsPayload (cs ++ SessionCommand.payload t d r ∷ [])
send-payloads cs t d r p = All-append IsPayload cs (SessionCommand.payload t d r ∷ []) p (tt, tt)

abbrev first {ℓ} : {D : Type ℓ} → List D → List D
first [] = []
first (d ∷ ds) = d ∷ []

module _ {Sgn A R : Type 0} (s : ℕ) where
  -- What an event adds to the use.
  abbrev pub note : Event A R → Split Sgn A R → Log Sgn A R → Log Sgn A R
  note (received d) st l = record l { arrived = l.arrived ++ d ∷ [] }
  note (aleph_sent d r) st l = record l {
    from_aleph = l.from_aleph ++ SessionCommand.payload s d (recipient_from r) ∷ [];
  }
  note (rmc_sent d r) st l = record l { from_rmc = l.from_rmc ++ SessionCommand.payload s d r ∷ [] }
  note (dropped receiver) st l = l
  note rmc_taken st l = record l {
    taken = l.taken ++ first st.rmc_network.data_from_consensus_network;
  }
  note _ st l = l

  abbrev pub note_all : List (Event A R) → Split Sgn A R → Log Sgn A R → Log Sgn A R
  note_all [] st l = l
  note_all (e ∷ es) st l = note_all es (step e st) (note e st l)

  -- The data store gets the consensus messages and the multicast's user the others, each kind in the
  -- order of arrival with none lost, doubled or swapped: what was delivered, then what is still on the
  -- way, is what arrived. In the same way the consensus network gets the commands of each kind in the
  -- order in which they were sent, and nothing but these.
  pub record IsFaithful (l : Log Sgn A R) (st : Split Sgn A R) : Type 0 where
    pub stored : st.data_store_tx ++ alephs st.outer.data_from_consensus_network ≡ alephs l.arrived
    pub given :
        l.taken
          ++ (st.rmc_network.data_from_consensus_network
              ++ rmcs st.outer.data_from_consensus_network)
        ≡ rmcs l.arrived
    pub aleph_sends :
        aleph_commands st.outer.commands_for_consensus_network
          ++ st.aleph_network.commands_for_consensus_network
        ≡ l.from_aleph
    pub rmc_sends :
        rmc_commands st.outer.commands_for_consensus_network
          ++ st.rmc_network.commands_for_consensus_network
        ≡ l.from_rmc
    pub no_others :
        length st.outer.commands_for_consensus_network
        ≡ length (aleph_commands st.outer.commands_for_consensus_network)
          + length (rmc_commands st.outer.commands_for_consensus_network)

  -- The receivers still exist, and the networks are of the session and send data only.
  pub record IsOpen (st : Split Sgn A R) : Type 0 where
    pub store : st.data_store_open ≡ true
    pub rmc_data : st.rmc_data_open ≡ true
    pub consensus : st.outer.commands_open ≡ true
    pub aleph_cmds : st.aleph_network.commands_open ≡ true
    pub rmc_cmds : st.rmc_network.commands_open ≡ true
    pub aleph_payloads : All IsPayload st.aleph_network.commands_for_consensus_network
    pub rmc_payloads : All IsPayload st.rmc_network.commands_for_consensus_network
    pub aleph_session : st.aleph_network.session_id ≡ s
    pub rmc_session : st.rmc_network.session_id ≡ s

  step-IsOpen : (e : Event A R) (st : Split Sgn A R) → KeepsOpen e → IsOpen st → IsOpen (step e st)
  unfolding step forward
  step-IsOpen (aleph_sent d r) st k o =
      let sent = st.aleph_network.commands_for_consensus_network in
      ground (
        arith,
        send-payloads sent st.aleph_network.session_id d (recipient_from r) o.aleph_payloads,
      )
  step-IsOpen (rmc_sent d r) st k o =
      let sent = st.rmc_network.commands_for_consensus_network in
      ground (arith, send-payloads sent st.rmc_network.session_id d r o.rmc_payloads)
  step-IsOpen (dropped receiver) st k o = absurd k
  step-IsOpen _ st k o = ground arith

  forward_first-IsFaithful :
      (ds : List (NetworkData A R)) (l : Log Sgn A R) (st : Split Sgn A R)
      → st.outer.data_from_consensus_network ≡ ds
      → IsOpen st
      → IsFaithful l st
      → IsFaithful l (forward_first ds st)
  unfolding forward_first forward
  forward_first-IsFaithful [] l st q o v = v
  forward_first-IsFaithful (aleph d ∷ ds) l st q o v =
      ground (arith, append_assoc st.data_store_tx (d ∷ []) (alephs ds))
  forward_first-IsFaithful (rmc d ∷ ds) l st q o v =
      ground (arith, append_assoc st.rmc_network.data_from_consensus_network (d ∷ []) (rmcs ds))

  forward_first_aleph-IsFaithful :
      (cs : List (SessionCommand Sgn A)) (l : Log Sgn A R) (st : Split Sgn A R)
      → st.aleph_network.commands_for_consensus_network ≡ cs
      → All IsPayload cs
      → IsOpen st
      → IsFaithful l st
      → IsFaithful l (forward_first_aleph cs st)
  unfolding forward_first_aleph map_command
  forward_first_aleph-IsFaithful [] l st q p o v = v
  forward_first_aleph-IsFaithful (SessionCommand.meta m r ∷ cs) l st q p o v = absurd p.0
  forward_first_aleph-IsFaithful (SessionCommand.payload t d r ∷ cs) l st q p o v =
      let sent = st.outer.commands_for_consensus_network in
      let c : SessionCommand Sgn (NetworkData A R) = SessionCommand.payload t (aleph d) r in
      ground (
        arith,
        aleph_commands-append sent (c ∷ []),
        rmc_commands-append sent (c ∷ []),
        append_assoc (aleph_commands sent) (SessionCommand.payload t d r ∷ []) cs,
        append-nil (rmc_commands sent),
        length-append sent (c ∷ []),
        length-append (aleph_commands sent) (SessionCommand.payload t d r ∷ []),
      )

  forward_first_rmc-IsFaithful :
      (cs : List (SessionCommand Sgn R)) (l : Log Sgn A R) (st : Split Sgn A R)
      → st.rmc_network.commands_for_consensus_network ≡ cs
      → All IsPayload cs
      → IsOpen st
      → IsFaithful l st
      → IsFaithful l (forward_first_rmc cs st)
  unfolding forward_first_rmc map_command
  forward_first_rmc-IsFaithful [] l st q p o v = v
  forward_first_rmc-IsFaithful (SessionCommand.meta m r ∷ cs) l st q p o v = absurd p.0
  forward_first_rmc-IsFaithful (SessionCommand.payload t d r ∷ cs) l st q p o v =
      let sent = st.outer.commands_for_consensus_network in
      let c : SessionCommand Sgn (NetworkData A R) = SessionCommand.payload t (rmc d) r in
      ground (
        arith,
        aleph_commands-append sent (c ∷ []),
        rmc_commands-append sent (c ∷ []),
        append_assoc (rmc_commands sent) (SessionCommand.payload t d r ∷ []) cs,
        append-nil (aleph_commands sent),
        length-append sent (c ∷ []),
        length-append (rmc_commands sent) (SessionCommand.payload t d r ∷ []),
      )

  step-IsFaithful :
      (e : Event A R) (l : Log Sgn A R) (st : Split Sgn A R)
      → KeepsOpen e
      → IsOpen st
      → IsFaithful l st
      → IsFaithful (note e st l) (step e st)
  unfolding step
  step-IsFaithful (dropped receiver) l st k o v = absurd k
  step-IsFaithful (received d) l st k o v = ground (
    arith,
    alephs-append l.arrived (d ∷ []),
    rmcs-append l.arrived (d ∷ []),
    alephs-append st.outer.data_from_consensus_network (d ∷ []),
    rmcs-append st.outer.data_from_consensus_network (d ∷ []),
    append_assoc st.data_store_tx (alephs st.outer.data_from_consensus_network) (alephs (d ∷ [])),
    append_assoc st.rmc_network.data_from_consensus_network
        (rmcs st.outer.data_from_consensus_network) (rmcs (d ∷ [])),
    append_assoc l.taken
        (st.rmc_network.data_from_consensus_network ++ rmcs st.outer.data_from_consensus_network)
        (rmcs (d ∷ [])),
  )
  step-IsFaithful (aleph_sent d r) l st k o v = ground (
    arith,
    append_assoc (aleph_commands st.outer.commands_for_consensus_network)
        st.aleph_network.commands_for_consensus_network
        (SessionCommand.payload s d (recipient_from r) ∷ []),
  )
  step-IsFaithful (rmc_sent d r) l st k o v = ground (
    arith,
    append_assoc (rmc_commands st.outer.commands_for_consensus_network)
        st.rmc_network.commands_for_consensus_network (SessionCommand.payload s d r ∷ []),
  )
  step-IsFaithful rmc_taken l st k o v = go st.rmc_network.data_from_consensus_network refl
    where
      go :
          (ds : List R)
          → st.rmc_network.data_from_consensus_network ≡ ds
          → IsFaithful (note rmc_taken st l) (step rmc_taken st)
      go [] q = ground (arith, append-nil l.taken)
      go (d ∷ ds) q =
          ground
            (arith, append_assoc l.taken (d ∷ []) (ds ++ rmcs st.outer.data_from_consensus_network))
  step-IsFaithful forward_data l st k o v =
      forward_first-IsFaithful st.outer.data_from_consensus_network l st refl o v
  step-IsFaithful forward_aleph_cmd l st k o v =
      forward_first_aleph-IsFaithful st.aleph_network.commands_for_consensus_network l st refl
        o.aleph_payloads o v
  step-IsFaithful forward_rmc_cmd l st k o v =
      forward_first_rmc-IsFaithful st.rmc_network.commands_for_consensus_network l st refl
        o.rmc_payloads o v

  run-IsFaithful :
      (es : List (Event A R)) (l : Log Sgn A R) (st : Split Sgn A R)
      → All KeepsOpen es
      → IsOpen st
      → IsFaithful l st
      → IsFaithful (note_all es st l) (run es st)
  unfolding run
  run-IsFaithful [] l st ks o v = v
  run-IsFaithful (e ∷ es) l st ks o v =
      run-IsFaithful es (note e st l) (step e st) ks.1 (step-IsOpen e st ks.0 o)
        (step-IsFaithful e l st ks.0 o v)

module _ {Sgn A R : Type 0} where
  abbrev pub unused : Log Sgn A R
  unused = record { arrived = []; from_aleph = []; from_rmc = []; taken = [] }

  -- Whatever arrives, is sent and is taken, and however the three forwarding tasks are interleaved with
  -- it, the split network behaves as two networks: what the data store has got, followed by what is on
  -- its way, is the consensus messages that arrived, in order, what the multicast's user has taken,
  -- followed by what is on its way, is the multicast messages that arrived, and the commands of each
  -- kind are those that its user sent, in order, and there are no others. As long as no receiver of
  -- the channels goes.
  pub run-split_network :
      (s : ℕ) (es : List (Event A R))
      → All KeepsOpen es
      → IsFaithful s (note_all s es (split_network s) unused) (run es (split_network {Sgn = Sgn} s))
  unfolding split_network new
  run-split_network s es ks =
      run-IsFaithful s es unused (split_network s) ks
        (record {
          store = refl;
          rmc_data = refl;
          consensus = refl;
          aleph_cmds = refl;
          rmc_cmds = refl;
          aleph_payloads = tt;
          rmc_payloads = tt;
          aleph_session = refl;
          rmc_session = refl;
        })
        (record {
          stored = refl;
          given = refl;
          aleph_sends = refl;
          rmc_sends = refl;
          no_others = refl;
        })
