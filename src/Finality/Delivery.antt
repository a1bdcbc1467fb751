-- ===== src/Finality/Delivery.antt =====
-- The handler of finality-aleph/src/justification.rs, which is delivered signed blocks in order,
-- finalizes them.
use aleph_node.Common.{
  ℕ, suc, ◌+◌, ◌*◌, ◌^◌, ◌≤◌, ◌<◌, ◌≡◌, refl, sym, ◌∙◌, ap, subst, Bool, true, false, some, List,
  ◌∷◌, map, arith, nat_eq, All,
}
use aleph_node.Keys.{KeyBox}
use aleph_node.Keys
use aleph_node.Session.{last_block_of_session, session_id_from_block_num}
use aleph_node.Session.Blocks.{session_id-eq_iff, last_block-value}
use aleph_node.Justification.{Chain, JustificationNotification, Input, State, round, run}
use aleph_node.Party.Links.{Counts}
use aleph_node.Party.Links
use aleph_node.Finality.{IsExtensible, finalize_all, Delivers, done, idle, told, IsAt, Finalized}
use aleph_node.Finality.Rounds.{GoesOn, round-told, round-idle}

module _ {W Sig Justification : Type 0} (chain : Chain W Justification)
    (is_complete : KeyBox → ℕ → Sig → Bool) (encode : Sig → Justification)
    (parent_of number_of : ℕ → ℕ) (session period : ℕ) (authorities : List ℕ)
    (keybox : KeyBox) where
  abbrev S : Type 0
  S = State chain is_complete encode

  -- The notified blocks can be finalized one after the other, from `base` on.
  pub record IsReady (base : ℕ) (ns : List (JustificationNotification Sig)) : Type 0 where
    pub linked : (end : ℕ) × Links.Chain parent_of base (map (λ n. n.hash) ns) end
    pub low : All (λ h. number_of h ≤ last_block_of_session session period) (map (λ n. n.hash) ns)
    pub counted : All (λ h. number_of h ≡ suc (number_of (parent_of h))) (map (λ n. n.hash) ns)
    pub signed :
        All
          (λ n. (is_complete keybox n.hash n.justification ≡ true) × (n.number ≡ number_of n.hash))
          ns

  IsAt-moved :
      (base : ℕ) (s s' : S)
      → GoesOn chain is_complete encode s s.world s'
      → IsAt chain is_complete encode number_of period base s
      → IsAt chain is_complete encode number_of period base s'
  IsAt-moved base s s' g a = record {
    hash = rw g.world a.hash;
    number = rw g.world a.number;
    cadence = rw g.cadence a.cadence;
    goes = g.goes;
  }

  IsAt-finalized :
      (base : ℕ) (n : JustificationNotification Sig) (s s' : S)
      → IsExtensible chain is_complete encode parent_of number_of
      → parent_of n.hash ≡ base
      → number_of n.hash ≡ suc (number_of base)
      → GoesOn chain is_complete encode s
          (chain.apply_finality n.hash (some (encode n.justification)) s.world).1
          s'
      → IsAt chain is_complete encode number_of period base s
      → IsAt chain is_complete encode number_of period n.hash s'
  IsAt-finalized base n s s' x p c g a =
      let (hash, number) =
        x s.world n.hash (encode n.justification) (p ∙ sym a.hash) (c ∙ ap suc (sym a.number)) in
      record {
        hash = rw g.world hash;
        number = rw g.world number;
        cadence = rw g.cadence a.cadence;
        goes = g.goes;
      }

  run-round :
      (i : Input chain is_complete encode) (is : List (Input chain is_complete encode)) (s s' t : S)
      → s.finished ≡ false
      → round chain is_complete encode i s ≡ some s'
      → run chain is_complete encode is s' ≡ some t
      → run chain is_complete encode (i ∷ is) s ≡ some t
  unfolding run
  run-round i is s s' t f r e = rw (r, f) e

  module _ (box : Keys.new 0 authorities ≡ some keybox) (positive : 0 < period)
      (small : (session + 1) * period < 2 ^ 32) where
    pub delivers-Finalized :
        {ns : List (JustificationNotification Sig)} {is : List (Input chain is_complete encode)}
        (base : ℕ) (s : S)
        → IsExtensible chain is_complete encode parent_of number_of
        → Delivers chain is_complete encode session authorities ns is
        → IsReady base ns
        → session * period ≤ number_of base + 1
        → IsAt chain is_complete encode number_of period base s
        → Finalized chain is_complete encode parent_of number_of period base ns is s
    unfolding run
    delivers-Finalized base s x done v low a = (s, base, refl, refl, refl, a)
    delivers-Finalized {ns} {is = _ ∷ is} base s x (idle i known q d) v low a =
        let (s1, r, g) =
          round-idle chain is_complete encode session authorities keybox box i s known q
            (rw a.cadence positive) a.goes in
        let (s', last, e, w, c, b) =
          delivers-Finalized base s1 x d v low (IsAt-moved base s s1 g a) in
        (
          s',
          last,
          run-round i is s s1 s' a.goes r e,
          w ∙ ap (finalize_all chain is_complete encode ns) g.world,
          c,
          b,
        )
    delivers-Finalized {ns = _ ∷ ns} {is = _ ∷ is} base s x (told i n known q d) v low a =
        let (s1, r, g) =
          round-told chain is_complete encode session authorities keybox box i n s known q
            v.signed.0.0 current (omega (arith, number, a.number)) (rw a.cadence below) in
        let (s', last, e, w, c, b) =
          delivers-Finalized n.hash s1 x d rest (omega (arith, counted, low))
            (IsAt-finalized base n s s1 x v.linked.1.0 counted g a) in
        (
          s',
          last,
          run-round i is s s1 s' a.goes r e,
          w ∙ ap (finalize_all chain is_complete encode ns) g.world,
          (v.linked.1.0, c),
          b,
        )
      where
        counted : number_of n.hash ≡ suc (number_of base)
        counted = v.counted.0 ∙ ap (λ h. suc (number_of h)) v.linked.1.0

        number : n.number ≡ suc (number_of base)
        number = v.signed.0.1 ∙ counted

        below : n.number ≤ last_block_of_session session period
        below = subst (λ m. m ≤ last_block_of_session session period) (sym v.signed.0.1) v.low.0

        current :
            session_id_from_block_num
              ((chain.client s.world).finalized_number + 1)
              s.handler.chain_cadence.session_period
            ≡ some session
        current =
            rw (a.cadence, a.number)
              ((session_id-eq_iff session period (number_of base + 1) positive small
                  (omega (arith, number, below, last_block-value session period positive small))).1
                (low, omega (arith, number, below)))

        rest : IsReady n.hash ns
        rest = record {
          linked = (v.linked.0, v.linked.1.1);
          low = v.low.1;
          counted = v.counted.1;
          signed = v.signed.1;
        }
