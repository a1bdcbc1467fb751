-- ===== src/Session.antt =====
-- Sessions (finality-aleph/src/lib.rs). Session ids and periods are `u32`, whose wrap-around is
-- written out; a division by zero is a panic, `none`.
pub mod Blocks
use aleph_node.Common.{
  ℕ, ◌+◌, ◌-◌, ◌*◌, ◌/◌, ◌%◌, ◌^◌, min, Option, none, some, nat_beq, if◌then◌else◌,
}

abbrev pub u32_max : ℕ
u32_max = 2 ^ 32 - 1

-- `((session_id.0 + 1) * period.0 - 1).into()`
unfoldable pub last_block_of_session : ℕ → ℕ → ℕ
last_block_of_session session_id period =
    ((session_id + 1) % 2 ^ 32 * period % 2 ^ 32 + 2 ^ 32 - 1) % 2 ^ 32

-- `SessionId(num.saturated_into::<u32>() / period.0)`
unfoldable pub session_id_from_block_num : ℕ → ℕ → Option ℕ
session_id_from_block_num num period =
    if nat_beq period 0 then none else some (min num u32_max / period)
