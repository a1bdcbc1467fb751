-- ===== src/Tests/Blocks.antt =====
-- Tests of the data store, the finalization step and the sessions.
use aleph_node.Common.{
  ℕ, ◌*◌, ◌≤◌, ◌<◌, ◌≡◌, ◌↔◌, ◌⊎◌, refl, true, none, some, List, [], ◌∷◌, arith, nat_eq, contains,
  sym, subst, some_inj, ◌∙◌, set_insert, All, Distinct,
}
use aleph_node.Common.Map.{get, insert, remove}
use aleph_node.Client.{ok, Header, Client}
use aleph_node.DataIo.{
  AlephData, data_eq, Store, Event, message_received, block_imported, maintenance_timeout,
  is_available, new, requirements_of, requires, add_pending_message, enroll, add_dependents,
  add_dependent, push_messages, push_ids, push_message, send_if_ready, run, step, add_block,
  add_message,
}
use aleph_node.DataIo.Waits.{waits}
use aleph_node.DataIo.Invariant.{Inv}
use aleph_node.DataIo.Run.{run-new-Inv, step-Serves, Serves, new-Inv}
use aleph_node.DataIo.Release.{add_block-sends}
use aleph_node.DataIo.Stuck.{duplicate-stuck, Missing, add_blocks}
use aleph_node.Finalization.{chain_extension_step, is_correct, ancestors}
use aleph_node.Finalization.Path.{
  chain_extension_step-total, chain_extension_step_sound, chain_extension_step_complete, Descends,
}
use mathlib.Core.List.{reverse, Mem}
use aleph_node.Session.{last_block_of_session, session_id_from_block_num}
use aleph_node.Session.Blocks.{session_id-eq_iff}
use aleph_node.Tests.Data.{block, client, client-IsCoherent, block_data, list_cache}

-- A message is the list of its blocks.
abbrev blocks_of : List AlephData → List AlephData
blocks_of m = m

abbrev Known : AlephData → Type 0
Known b = is_available client b ≡ true

abbrev events : List (Client × Event list_cache blocks_of)
events =
    (client, message_received (block_data 5 ∷ block_data 20 ∷ []))
    ∷ (client, block_imported (block_data 7))
    ∷ (client, maintenance_timeout)
    ∷ []

available : (n : ℕ) → n ≤ 9 → is_available client (block_data n) ≡ true
unfolding is_available
available n h = ground arith

run-new-Inv_example :
    (s : Store list_cache blocks_of) × (run list_cache blocks_of events (new list_cache blocks_of)
      ≡ some s)
    × Inv list_cache blocks_of Known s []
run-new-Inv_example =
    run-new-Inv list_cache blocks_of Known events
      ((λ b h. h, tt), ((λ b h. h, available 7 (omega arith)), ((λ b h. h, tt), tt))) (omega arith)

step-Serves_example : Serves list_cache blocks_of Known (new list_cache blocks_of) (
    step list_cache blocks_of client
      (message_received (block_data 20 ∷ []))
      (new list_cache blocks_of))
step-Serves_example =
    step-Serves list_cache blocks_of Known client (message_received (block_data 20 ∷ []))
      (new list_cache blocks_of) (λ b h. h, tt) (new-Inv list_cache blocks_of Known)
      (unfold new in omega arith)

-- A message that waits for block 8.
abbrev waiting : Store list_cache blocks_of
waiting = record {
  next_message_id = 1;
  ready_messages = [];
  dependent_messages = (block_data 20, 0 ∷ []) ∷ [];
  available_blocks = [];
  message_requirements = (0, 1) ∷ [];
  pending_messages = (0, block_data 20 ∷ []) ∷ [];
}

first-waiting :
    run list_cache blocks_of
      ((client, message_received (block_data 20 ∷ [])) ∷ [])
      (new list_cache blocks_of)
    ≡ some waiting
unfolding run step add_message requirements_of requires is_available add_pending_message enroll
    add_dependents add_dependent new contains set_insert get insert remove
first-waiting = refl

waiting-Inv : Inv list_cache blocks_of Known waiting []
waiting-Inv =
    let (s, e, v) =
      run-new-Inv list_cache blocks_of Known ((client, message_received (block_data 20 ∷ [])) ∷ [])
        ((λ b h. h, tt), tt) (omega arith) in
    subst (λ x. Inv list_cache blocks_of Known x []) (some_inj (sym e ∙ first-waiting)) v

abbrev sent : Store list_cache blocks_of
sent = record {
  next_message_id = 1;
  ready_messages = (block_data 20 ∷ []) ∷ [];
  dependent_messages = [];
  available_blocks = block_data 20 ∷ [];
  message_requirements = [];
  pending_messages = [];
}

waiting-sent : add_block list_cache blocks_of (block_data 20) waiting ≡ some sent
unfolding add_block push_messages push_ids push_message send_if_ready contains set_insert get insert
    remove
waiting-sent = refl

waits-waiting : (c : AlephData) → waits (waiting.dependent_messages) c 0 ≡ true → c ≡ block_data 20
unfolding waits get contains
waits-waiting c h = ground (arith, data_eq.beq_iff (block_data 20) c)

add_block-sends_example :
    (get (sent.pending_messages) 0 ≡ none) × Mem (block_data 20 ∷ []) (sent.ready_messages)
add_block-sends_example =
    add_block-sends list_cache blocks_of Known waiting sent 0 (block_data 20 ∷ []) (block_data 20)
      waiting-Inv (unfold get in refl) (unfold contains in (refl, tt))
      (unfold waits get contains in refl) waits-waiting waiting-sent

new-Inv_unit : Inv list_cache blocks_of (λ _. Unit {0}) (new list_cache blocks_of) []
new-Inv_unit = new-Inv list_cache blocks_of (λ _. Unit {0})

abbrev twice : List AlephData
twice = block_data 20 ∷ block_data 20 ∷ []

twice-Distinct : ¬ Distinct twice
unfolding contains
twice-Distinct d = ground (arith, d.0)

twice-Missing : All (Missing list_cache blocks_of client (new list_cache blocks_of)) twice
unfolding new is_available contains
twice-Missing = ((refl, refl), ((refl, refl), tt))

duplicate-stuck_example :
    (t : Store list_cache blocks_of) × (s' : Store list_cache blocks_of) × (add_message list_cache
        blocks_of client twice
        (new list_cache blocks_of)
      ≡ some t)
    × (add_blocks list_cache blocks_of (block_data 20 ∷ []) t ≡ some s')
    × (get s'.pending_messages (new list_cache blocks_of).next_message_id ≡ some twice)
duplicate-stuck_example =
    duplicate-stuck list_cache blocks_of client twice (new list_cache blocks_of)
      (block_data 20 ∷ []) new-Inv_unit twice-Distinct twice-Missing (unfold new in omega arith)

chain_extension_step-total_example :
    (hs : List Header) × (chain_extension_step 3 (block_data 6) client ≡ some hs)
chain_extension_step-total_example =
    chain_extension_step-total client 3 (block_data 6) client-IsCoherent

extension : chain_extension_step 3 (block_data 5) client ≡ some (block 4 ∷ block 5 ∷ [])
unfolding chain_extension_step is_correct ancestors
extension = refl

chain_extension_step_sound_example :
    (block 4 ∷ block 5 ∷ [] ≡ [])
    ⊎ ((rs : List Header) × (n : ℕ) × (block 4 ∷ block 5 ∷ [] ≡ reverse rs)
        × Descends client 3 rs 5
        × (client.number 3 ≡ ok (some n))
        × All (λ x. n < x.number) rs)
chain_extension_step_sound_example =
    chain_extension_step_sound client 3 (block_data 5) (block 4 ∷ block 5 ∷ []) extension

chain_extension_step_complete_example :
    chain_extension_step 3 (block_data 5) client ≡ some (reverse (block 5 ∷ block 4 ∷ []))
chain_extension_step_complete_example =
    chain_extension_step_complete client 3 3 (block_data 5) (block 5) (block 4 ∷ [])
      client-IsCoherent refl (refl, (refl, refl)) refl

session_id-eq_iff_example :
    (session_id_from_block_num 3700 900 ≡ some 4)
    ↔ ((4 * 900 ≤ 3700) × (3700 ≤ last_block_of_session 4 900))
session_id-eq_iff_example = session_id-eq_iff 4 900 3700 (omega arith) (omega arith) (omega arith)
