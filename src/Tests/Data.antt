-- ===== src/Tests/Data.antt =====
-- The data of the tests: a chain of ten blocks, with the numbers of the blocks as hashes.
use aleph_node.Common.{
  ℕ, ◌-◌, ◌≡◌, refl, inl, inr, true, false, Option, none, some, List, [], arith, leb, nat_beq,
  if◌then◌else◌, ◌==◌, ◌⊎◌, contains, set_insert, contains-set_insert, Bool-cases,
}
use aleph_node.Client.{BackendResult, ok, Header, Client}
use aleph_node.DataIo.{AlephData, data_eq, Lru}
use aleph_node.Finalization.Path.{IsCoherent}

abbrev pub block : ℕ → Header
block h = record { hash = h; number = h; parent_hash = (if nat_beq h 0 then 100 else h - 1) }

abbrev pub header_of : ℕ → BackendResult (Option Header)
header_of h = if leb h 9 then ok (some (block h)) else ok none

abbrev pub number_at : ℕ → BackendResult (Option ℕ)
number_at h = if leb h 9 then ok (some h) else ok none

-- Blocks 0 to 9, the third finalized.
abbrev pub client : Client
client = record {
  header = header_of;
  header_at = header_of;
  number = number_at;
  finalized_hash = 3;
  finalized_number = 3;
  best_number = 9;
}

pub client-IsCoherent : IsCoherent client
client-IsCoherent = record {
  stored = λ h x e. ground arith;
  parent = λ h x y e e'. ground arith;
  numbered = λ h n e. (block h, ground arith, ground arith);
}

abbrev pub block_data : ℕ → AlephData
block_data n = record { hash = n; number = n }

pub contains-nil : (k : AlephData) → contains [] k ≡ false
unfolding contains
contains-nil k = refl

pub put_lem :
    (c : List AlephData) (k j : AlephData)
    → contains (set_insert k c) j ≡ true
    → (k ≡ j) ⊎ (contains c j ≡ true)
put_lem c k j h = elim (Bool-cases (k == j)) [
  | inl t ↦ inl ((data_eq.beq_iff k j).0 t)
  | inr f ↦ inr (ground (arith, contains-set_insert k j c))
]

-- A cache that throws nothing out.
abbrev pub list_cache : Lru AlephData
list_cache = record {
  Cache = List AlephData;
  new = λ n. [];
  contains = contains;
  put = set_insert;
  contains-new = λ n k. contains-nil k;
  contains-put = λ c k j h. put_lem c k j h;
}
