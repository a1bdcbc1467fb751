-- ===== src/DataIo/Waits.antt =====
-- The table `dependent_messages` seen as a relation: which message waits for which block.
use aleph_node.Common.{
  ℕ, ◌≡◌, refl, subst, inl, inr, Bool, false, ◌&&◌, ◌||◌, Option, none, some, List, [], ◌∷◌, arith,
  if◌then◌else◌, ◌==◌, nat_eq, Bool-cases, Option-cases, contains, contains-set_insert,
  contains-set_remove, set_insert, set_remove, Distinct, set_insert-Distinct, set_remove-Distinct,
}
use aleph_node.Common.Map.{Map, get, get-insert, get-remove, insert, remove}
use aleph_node.DataIo.{
  AlephData, data_beq_iff, data_eq, set_or_drop, add_dependent, add_dependents, forget_dependent,
  forget_dependents,
}

abbrev pub Table : Type 0
Table = Map AlephData (List ℕ)

abbrev pub listed : Option (List ℕ) → ℕ → Bool
listed none id = false
listed (some ids) id = contains ids id

unfoldable pub waits : Table → AlephData → ℕ → Bool
waits t b id = listed (get t b) id

-- Each set of the table is one.
abbrev pub IsProper : Table → Type 0
IsProper t = (b : AlephData) (ids : List ℕ) → get t b ≡ some ids → Distinct ids

pub waits-remove :
    (t : Table) (b c : AlephData) (id : ℕ)
    → waits (remove b t) c id ≡ (if b == c then false else waits t c id)
unfolding waits
waits-remove t b c id = ground (arith, get-remove t b c)

waits-insert :
    (t : Table) (b c : AlephData) (ids : List ℕ) (j : ℕ)
    → waits (insert b ids t) c j ≡ (if b == c then contains ids j else waits t c j)
unfolding waits
waits-insert t b c ids j = rw (get-insert t b c ids) (ground arith)

waits-set_or_drop :
    (t : Table) (b c : AlephData) (ids : List ℕ) (j : ℕ)
    → waits (set_or_drop b ids t) c j ≡ (if b == c then contains ids j else waits t c j)
unfolding contains
waits-set_or_drop t b c [] j = waits-remove t b c j
waits-set_or_drop t b c (i ∷ ids) j = waits-insert t b c (i ∷ ids) j

pub waits-get :
    (t : Table) (b : AlephData) {o : Option (List ℕ)} (j : ℕ)
    → get t b ≡ o
    → waits t b j ≡ listed o j
unfolding waits
waits-get t b j e = rw e

pub waits-add_dependent :
    (id : ℕ) (b : AlephData) (t : Table) (c : AlephData) (j : ℕ)
    → waits (add_dependent id b t) c j ≡ ((b == c && id == j) || waits t c j)
unfolding add_dependent contains
waits-add_dependent id b t c j = elim (Option-cases (get t b)) [
  | inl e ↦
      rw (e, add_dependent)
        (ground (
          arith,
          waits-insert t b c (set_insert id []) j,
          data_beq_iff b c,
          waits-get t b j e,
          contains-set_insert id j [],
        ))
  | inr (ids, e) ↦
      rw (e, add_dependent)
        (ground (
          arith,
          waits-insert t b c (set_insert id ids) j,
          data_beq_iff b c,
          waits-get t b j e,
          contains-set_insert id j ids,
        ))
]

pub waits-forget_dependent :
    (id : ℕ) (b : AlephData) (t : Table) (c : AlephData) (j : ℕ)
    → waits (forget_dependent id b t) c j ≡ (if b == c && id == j then false else waits t c j)
unfolding forget_dependent
waits-forget_dependent id b t c j = elim (Option-cases (get t b)) [
  | inl e ↦ rw (e, forget_dependent) (ground (arith, data_beq_iff b c, waits-get t b j e))
  | inr (ids, e) ↦
      rw (e, forget_dependent)
        (ground (
          arith,
          waits-set_or_drop t b c (set_remove id ids) j,
          data_beq_iff b c,
          waits-get t b j e,
          contains-set_remove id j ids,
        ))
]

pub waits-add_dependents :
    (id : ℕ) (bs : List AlephData) (t : Table) (c : AlephData) (j : ℕ)
    → waits (add_dependents id bs t) c j ≡ ((contains bs c && id == j) || waits t c j)
unfolding add_dependents contains
waits-add_dependents id [] t c j = refl
waits-add_dependents id (b ∷ bs) t c j =
    ground
      (arith, waits-add_dependents id bs (add_dependent id b t) c j, waits-add_dependent id b t c j)

pub waits-forget_dependents :
    (id : ℕ) (bs : List AlephData) (t : Table) (c : AlephData) (j : ℕ)
    → waits (forget_dependents id bs t) c j
      ≡ (if contains bs c && id == j then false else waits t c j)
unfolding forget_dependents contains
waits-forget_dependents id [] t c j = refl
waits-forget_dependents id (b ∷ bs) t c j = ground (
  arith,
  waits-forget_dependents id bs (forget_dependent id b t) c j,
  waits-forget_dependent id b t c j,
)

pub remove-IsProper : (t : Table) (b : AlephData) → IsProper t → IsProper (remove b t)
remove-IsProper t b p c ids e = ground (arith, get-remove t b c, p c ids)

insert-IsProper :
    (t : Table) (b : AlephData) (ids : List ℕ)
    → IsProper t
    → Distinct ids
    → IsProper (insert b ids t)
insert-IsProper t b ids p d c js e = elim (Bool-cases (b == c)) [
  | inl t' ↦ subst Distinct (ground (arith, get-insert t b c ids)) d
  | inr f ↦ p c js (ground (arith, get-insert t b c ids))
]

add_dependent-IsProper :
    (id : ℕ) (b : AlephData) (t : Table) → IsProper t → IsProper (add_dependent id b t)
unfolding add_dependent
add_dependent-IsProper id b t p = elim (Option-cases (get t b)) [
  | inl e ↦ rw (e, add_dependent) (insert-IsProper t b _ p (set_insert-Distinct id [] tt))
  | inr (ids, e) ↦
      rw (e, add_dependent) (insert-IsProper t b _ p (set_insert-Distinct id ids (p b ids e)))
]

set_or_drop-IsProper :
    (t : Table) (b : AlephData) (ids : List ℕ)
    → IsProper t
    → Distinct ids
    → IsProper (set_or_drop b ids t)
set_or_drop-IsProper t b [] p d = remove-IsProper t b p
set_or_drop-IsProper t b (i ∷ ids) p d = insert-IsProper t b (i ∷ ids) p d

forget_dependent-IsProper :
    (id : ℕ) (b : AlephData) (t : Table) → IsProper t → IsProper (forget_dependent id b t)
unfolding forget_dependent
forget_dependent-IsProper id b t p = elim (Option-cases (get t b)) [
  | inl e ↦ rw (e, forget_dependent) p
  | inr (ids, e) ↦
      rw (e, forget_dependent)
        (set_or_drop-IsProper t b _ p (set_remove-Distinct id ids (p b ids e)))
]

pub add_dependents-IsProper :
    (id : ℕ) (bs : List AlephData) (t : Table) → IsProper t → IsProper (add_dependents id bs t)
unfolding add_dependents
add_dependents-IsProper id [] t p = p
add_dependents-IsProper id (b ∷ bs) t p =
    add_dependents-IsProper id bs (add_dependent id b t) (add_dependent-IsProper id b t p)

pub forget_dependents-IsProper :
    (id : ℕ) (bs : List AlephData) (t : Table) → IsProper t → IsProper (forget_dependents id bs t)
unfolding forget_dependents
forget_dependents-IsProper id [] t p = p
forget_dependents-IsProper id (b ∷ bs) t p =
    forget_dependents-IsProper id bs (forget_dependent id b t) (forget_dependent-IsProper id b t p)
