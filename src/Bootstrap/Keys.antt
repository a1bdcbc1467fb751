-- ===== src/Bootstrap/Keys.antt =====
-- The keys of `BootstrapChainCmd` (bin/node/src/commands.rs): running the command again.
use Prim.Native.String.{String}
use text.Mathlib.Text.{◌==◌}
use text.Mathlib.TextEquality.{eq_iff}
use aleph_node.Common.{
  ◌≡◌, refl, ap, ◌∙◌, subst, false, Option, none, some, List, [], ◌∷◌, Bool-cases, Option-cases,
  some_inj, bind_some, arith, inl, inr,
}
use aleph_node.Genesis.{account_ids, AuthorityKeys, ChainParams, Crypto, ChainSpec, SpecResult}
use aleph_node.Bootstrap.Laws.{IsKeystores}
use aleph_node.Bootstrap.{
  chain_spec, Keystores, last, aura_key, aleph_key, open_keystore, authority_keys,
  genesis_authorities, run,
}

last-none : {T : Type 0} (xs : List T) → last xs ≡ none → xs ≡ []
last-none [] h = refl
last-none (x ∷ []) h = absurd (ground arith)
last-none (x ∷ (y ∷ ys)) h = absurd (ground (arith, last-none (y ∷ ys) h))

module _ {F U K : Type 0} (stores : Keystores F U K) (laws : IsKeystores stores) where
  -- What was opened stays open, and the key that a keystore gives first remains.
  record Grows (f g : F) : Type 0 where
    stays_open : (p : String) → stores.open_at p f ≡ some f → stores.open_at p g ≡ some g
    stays_aura :
        (p : String) (u : U)
        → last (stores.aura_public_keys p f) ≡ some u
        → last (stores.aura_public_keys p g) ≡ some u
    stays_aleph :
        (p : String) (k : K)
        → last (stores.aleph_public_keys p f) ≡ some k
        → last (stores.aleph_public_keys p g) ≡ some k

  Grows-refl : (f : F) → Grows f f
  Grows-refl f = record { stays_open = λ p h. h; stays_aura = λ p u h. h; stays_aleph = λ p k h. h }

  Grows-trans : (f g h : F) → Grows f g → Grows g h → Grows f h
  Grows-trans f g h a b = record {
    stays_open = λ p o. b.stays_open p (a.stays_open p o);
    stays_aura = λ p u o. b.stays_aura p u (a.stays_aura p u o);
    stays_aleph = λ p k o. b.stays_aleph p k (a.stays_aleph p k o);
  }

  open_at-Grows : (q : String) (f g : F) → stores.open_at q f ≡ some g → Grows f g
  open_at-Grows q f g h = record {
    stays_open = λ p o. laws.open_open p q f g o h;
    stays_aura = λ p u o. ap last (laws.open_aura p q f g h) ∙ o;
    stays_aleph = λ p k o. ap last (laws.open_aleph p q f g h) ∙ o;
  }

  -- A keystore without a key of a type is none that has one.
  other :
      {T : Type 0} (keys : String → List T) (p q : String) (t : T)
      → last (keys p) ≡ some t
      → last (keys q) ≡ none
      → (p == q) ≡ false
  other keys p q t h n = elim (Bool-cases (p == q)) [
    | inl e ↦ absurd (ground (arith, ap (λ r. last (keys r)) ((eq_iff p q).0 e)))
    | inr e ↦ e
  ]

  -- What `aura_key` gives is the first key afterwards.
  aura_key-Grows :
      (q : String) (u : U) (f g : F)
      → aura_key stores q f ≡ some (u, g)
      → Grows f g × (last (stores.aura_public_keys q g) ≡ some u)
  unfolding aura_key
  aura_key-Grows q u f g h = elim (Option-cases (last (stores.aura_public_keys q f))) [
    | inl n ↦
        let made : stores.aura_generate_new q f ≡ some (u, g) = ground arith in
        (
          record {
            stays_open = λ p o. laws.aura_open p q u f g o made;
            stays_aura = λ p v o.
                ap last (
                  laws.aura_aura p q u f g (other (λ r. stores.aura_public_keys r f) p q v o n)
                    made)
                ∙ o;
            stays_aleph = λ p k o. ap last (laws.aura_aleph p q u f g made) ∙ o;
          },
          ap last (laws.aura_new q u f g made (last-none _ n)),
        )
    | inr (v, e) ↦
        let old : U × F = (v, f) in
        let given : U × F = (u, g) in
        let same : old ≡ given = some_inj (ground arith) in
        subst (λ x. Grows f x.1 × (last (stores.aura_public_keys q x.1) ≡ some x.0)) same
          (Grows-refl f, e)
  ]

  aleph_key-Grows :
      (q : String) (k : K) (f g : F)
      → aleph_key stores q f ≡ some (k, g)
      → Grows f g × (last (stores.aleph_public_keys q g) ≡ some k)
  unfolding aleph_key
  aleph_key-Grows q k f g h = elim (Option-cases (last (stores.aleph_public_keys q f))) [
    | inl n ↦
        let made : stores.aleph_generate_new q f ≡ some (k, g) = ground arith in
        (
          record {
            stays_open = λ p o. laws.aleph_open p q k f g o made;
            stays_aura = λ p u o. ap last (laws.aleph_aura p q k f g made) ∙ o;
            stays_aleph = λ p v o.
                ap last (
                  laws.aleph_aleph p q k f g (other (λ r. stores.aleph_public_keys r f) p q v o n)
                    made)
                ∙ o;
          },
          ap last (laws.aleph_new q k f g made (last-none _ n)),
        )
    | inr (v, e) ↦
        let old : K × F = (v, f) in
        let given : K × F = (k, g) in
        let same : old ≡ given = some_inj (ground arith) in
        subst (λ x. Grows f x.1 × (last (stores.aleph_public_keys q x.1) ≡ some x.0)) same
          (Grows-refl f, e)
  ]

  module _ {A : Type 0} (account_to_string : A → String) where
    -- What a step gave, it gives again in every later state, which it leaves as it is.
    abbrev IsSettled : {T : Type 0} → (F → Option (T × F)) → T → F → Type 0
    IsSettled {T = T} step t g = (h : F) → Grows g h → step h ≡ some (t, h)

    open_keystore-IsSettled :
        (params : ChainParams) (a c p : String) (f g : F)
        → open_keystore stores params a c f ≡ some (p, g)
        → Grows f g × IsSettled (open_keystore stores params a c) p g
    unfolding open_keystore
    open_keystore-IsSettled params a c p f g e =
        let base = bind_some params.base_path _ _ e in
        let place = bind_some (stores.place base.0 a c) _ _ base.1.1 in
        let opened = bind_some (stores.open_at place.0 f) _ _ place.1.1 in
        let found : String × F = (place.0, opened.0) in
        let given : String × F = (p, g) in
        let same : found ≡ given = some_inj opened.1.1 in
        let is_place : stores.place base.0 a c ≡ some p = place.1.0 ∙ ap (λ x. some x.0) same in
        let is_open : stores.open_at p f ≡ some g =
          subst (λ x. stores.open_at x.0 f ≡ some x.1) same opened.1.0 in
        (
          open_at-Grows p f g is_open,
          λ h later.
              let again : stores.open_at p h ≡ some h =
                later.stays_open p (laws.open_again p f g is_open) in
              rw (base.1.0, is_place, again) refl,
        )

    authority_keys-IsSettled :
        (params : ChainParams) (a : A) (one : AuthorityKeys A U K) (f g : F)
        → authority_keys stores account_to_string params a f ≡ some (one, g)
        → Grows f g × IsSettled (authority_keys stores account_to_string params a) one g
    unfolding authority_keys aura_key aleph_key
    authority_keys-IsSettled params a one f g e =
        let opened =
          bind_some (open_keystore stores params (account_to_string a) params.chain_id f) _ _ e in
        let aura = bind_some (aura_key stores opened.0.0 opened.0.1) _ _ opened.1.1 in
        let aleph = bind_some (aleph_key stores opened.0.0 aura.0.1) _ _ aura.1.1 in
        let made : AuthorityKeys A U K × F =
          (record { account_id = a; aura_key = aura.0.0; aleph_key = aleph.0.0 }, aleph.0.1) in
        let given : AuthorityKeys A U K × F = (one, g) in
        let same : made ≡ given = some_inj aleph.1.1 in
        let a1 =
          open_keystore-IsSettled params (account_to_string a) params.chain_id opened.0.0 f
            opened.0.1 opened.1.0 in
        let a2 = aura_key-Grows opened.0.0 aura.0.0 opened.0.1 aura.0.1 aura.1.0 in
        let a3 = aleph_key-Grows opened.0.0 aleph.0.0 aura.0.1 aleph.0.1 aleph.1.0 in
        let all : Grows f aleph.0.1 = Grows-trans _ _ _ a1.0 (Grows-trans _ _ _ a2.0 a3.0) in
        subst
          (λ x. Grows f x.1 × IsSettled (authority_keys stores account_to_string params a) x.0 x.1)
          same
          (
            all,
            λ h later.
                let o = a1.1 h (Grows-trans _ _ _ a2.0 (Grows-trans _ _ _ a3.0 later)) in
                let u =
                  later.stays_aura opened.0.0 aura.0.0 (a3.0.stays_aura opened.0.0 aura.0.0 a2.1) in
                let k = later.stays_aleph opened.0.0 aleph.0.0 a3.1 in rw (o, u, k) refl,
          )

    genesis_authorities-IsSettled :
        (params : ChainParams) (ids : List A) (auths : List (AuthorityKeys A U K)) (f g : F)
        → genesis_authorities stores account_to_string params ids f ≡ some (auths, g)
        → Grows f g × IsSettled (genesis_authorities stores account_to_string params ids) auths g
    unfolding genesis_authorities
    genesis_authorities-IsSettled params [] auths f g e =
        let made : List (AuthorityKeys A U K) × F = ([], f) in
        let given : List (AuthorityKeys A U K) × F = (auths, g) in
        let same : made ≡ given = some_inj e in
        subst
          (λ x.
            Grows f x.1
            × IsSettled (genesis_authorities stores account_to_string params []) x.0 x.1)
          same (Grows-refl f, λ h later. refl)
    genesis_authorities-IsSettled params (a ∷ ids) auths f g e =
        let one = bind_some (authority_keys stores account_to_string params a f) _ _ e in
        let rest =
          bind_some (genesis_authorities stores account_to_string params ids one.0.1) _ _ one.1.1 in
        let made : List (AuthorityKeys A U K) × F = (one.0.0 ∷ rest.0.0, rest.0.1) in
        let given : List (AuthorityKeys A U K) × F = (auths, g) in
        let same : made ≡ given = some_inj rest.1.1 in
        let a1 = authority_keys-IsSettled params a one.0.0 f one.0.1 one.1.0 in
        let a2 = genesis_authorities-IsSettled params ids rest.0.0 one.0.1 rest.0.1 rest.1.0 in
        subst
          (λ x.
            Grows f x.1
            × IsSettled (genesis_authorities stores account_to_string params (a ∷ ids)) x.0 x.1)
          same
          (
            Grows-trans _ _ _ a1.0 a2.0,
            λ h later. rw (a1.1 h (Grows-trans _ _ _ a2.0 later), a2.1 h later) refl,
          )

    -- The command may be run again: if it has given a specification once, then in the keystores that
    -- it left it gives the same specification, so with the same keys for every authority, and it
    -- leaves the keystores as they are. For keystores that keep their keys.
    pub run-run :
        {Public : Type 0} (crypto : Crypto Public A) (wasm : Option String) (params : ChainParams)
        (spec : SpecResult (ChainSpec A U K)) (f g : F)
        → run stores account_to_string crypto wasm params f ≡ some (spec, g)
        → run stores account_to_string crypto wasm params g ≡ some (spec, g)
    unfolding run
    run-run crypto wasm params spec f g e =
        let ids = bind_some (account_ids crypto params) _ _ e in
        let made =
          bind_some (genesis_authorities stores account_to_string params ids.0 f) _ _ ids.1.1 in
        let built = bind_some (chain_spec crypto wasm params made.0.0) _ _ made.1.1 in
        let done : SpecResult (ChainSpec A U K) × F = (built.0, made.0.1) in
        let given : SpecResult (ChainSpec A U K) × F = (spec, g) in
        let same : done ≡ given = some_inj built.1.1 in
        let settled = genesis_authorities-IsSettled params ids.0 made.0.0 f made.0.1 made.1.0 in
        subst (λ x. run stores account_to_string crypto wasm params x.1 ≡ some x) same
          (rw (ids.1.0, settled.1 made.0.1 (Grows-refl made.0.1), built.1.0) refl)
