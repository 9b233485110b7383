-- ===== src/BrokerStart/Pairs.antt =====
-- That the public keys which cmd/broker/main.go registers belong to the private key that it keeps.
use kidp.Prelude.{
  String, ◌==◌, ◌≡◌, refl, sym, ◌∙◌, ap, subst, ◌⊎◌, inl, inr, is_empty, Bool-cases, Option-cases,
  false,
}
use kidp.Prelude.{none, [], ◌∷◌, In, length, arith}
use kidp.Result.{ok, Result-cases}
use kidp.Api.Broker.{Broker}
use kidp.Callbacks.{Bytes, Codec}
use kidp.BrokerStart.{
  Stat, present, absent, unknown, wrote, registered, Trail, Site, Start, fatal, serving,
}
use kidp.BrokerStart.{ClusterAccess, Clients, key_path, own_key, with_public_key, store_public_key}
use kidp.BrokerStart.{
  register_generated, register_present, generate, load, obtain_key, conclude, start,
}
use kidp.BrokerStart.Keys.{start_prepares, prepare_concludes, obtain_present, obtain_absent}

-- What crypto/ed25519 documents of a key pair: the private key has 64 bytes and holds the public
-- one.
abbrev pub PairLaws : Site → Codec → Type 0
PairLaws site codec =
    (public key : Bytes)
    → site.generate_key ≡ ok (public, key)
    → (public ≡ codec.public_key key) × (length key ≡ 64)

module _ (site : Site) (codec : Codec) where
  -- Whatever has been registered is the public part of the key.
  abbrev pub Agrees : Bytes → Trail → Type 0
  Agrees key trail =
      (b : Broker)
      → In (registered b) trail
      → b.status.callback_public_key ≡ codec.encode64 (codec.public_key key)

  -- One registration more, or none.
  abbrev Step : Bytes → Trail → Trail → Type 0
  Step key before trail =
      (trail ≡ before)
      ⊎ ((b : Broker) × (trail
            ≡ registered (with_public_key site codec (codec.encode64 (codec.public_key key)) b)
              ∷ before))

  with_registered :
      (key : Bytes) (before : Trail) (b : Broker)
      → Agrees key before
      → Agrees key (
          registered (with_public_key site codec (codec.encode64 (codec.public_key key)) b)
          ∷ before)
  with_registered key before b h c (inr i) = h c i
  with_registered key before b h c (inl q) = ap (λ x. x.status.callback_public_key) (same q)
    where
      same :
          registered c
            ≡ registered (with_public_key site codec (codec.encode64 (codec.public_key key)) b)
          → c ≡ with_public_key site codec (codec.encode64 (codec.public_key key)) b
      same e = cc

  Step-Agrees :
      (key : Bytes) (before trail : Trail)
      → Step key before trail
      → Agrees key before
      → Agrees key trail
  Step-Agrees key before trail (inl q) h = subst (Agrees key) (sym q) h
  Step-Agrees key before trail (inr (b, q)) h =
      subst (Agrees key) (sym q) (with_registered key before b h)

  store_public_key-Step :
      (key : Bytes) (b : Broker) (trail : Trail)
      → Step key trail (store_public_key site codec (codec.encode64 (codec.public_key key)) b trail)
  unfolding store_public_key
  store_public_key-Step key b trail =
      elim (Option-cases (
        site.update_broker_status trail
          (with_public_key site codec (codec.encode64 (codec.public_key key)) b))) [
            | inl q ↦ inr (b, ground arith)
            | inr (e, q) ↦ inl (ground arith)
          ]

  register_generated-Step :
      (key : Bytes) (trail : Trail)
      → Step key trail (register_generated site codec (codec.public_key key) trail)
  unfolding register_generated
  register_generated-Step key trail = elim (Bool-cases (is_empty site.broker_name)) [
    | inl q ↦ inl (ground arith)
    | inr q ↦ elim (Result-cases (site.get_broker trail (own_key site codec))) [
      | inr (e, f) ↦ inl (ground arith)
      | inl (b, f) ↦ subst (Step key trail) (found b q f) (store_public_key-Step key b trail)
    ]
  ]
    where
      found :
          (b : Broker)
          → is_empty site.broker_name ≡ false
          → site.get_broker trail (own_key site codec) ≡ ok b
          → store_public_key site codec (codec.encode64 (codec.public_key key)) b trail
            ≡ register_generated site codec (codec.public_key key) trail
      found b q f = ground arith

  register_present-Step :
      (key : Bytes) (trail : Trail) → Step key trail (register_present site codec key trail)
  unfolding register_present
  register_present-Step key trail = elim (Bool-cases (is_empty site.broker_name)) [
    | inl q ↦ inl (ground arith)
    | inr q ↦ elim (Result-cases (site.get_broker trail (own_key site codec))) [
      | inr (e, f) ↦ inl (ground arith)
      | inl (b, f) ↦
          elim (Bool-cases
            (b.status.callback_public_key == codec.encode64 (codec.public_key key))) [
              | inl same ↦ inl (ground arith)
              | inr differs ↦
                  subst (Step key trail) (found b q f differs) (store_public_key-Step key b trail)
            ]
    ]
  ]
    where
      found :
          (b : Broker)
          → is_empty site.broker_name ≡ false
          → site.get_broker trail (own_key site codec) ≡ ok b
          → (b.status.callback_public_key == codec.encode64 (codec.public_key key)) ≡ false
          → store_public_key site codec (codec.encode64 (codec.public_key key)) b trail
            ≡ register_present site codec key trail
      found b q f d = ground arith

  -- What the loading or the making of a key gives.
  abbrev pub Sound : Bytes → Trail → Type 0
  Sound key trail = (length key ≡ 64) × Agrees key trail

  load-Sound :
      (key : Bytes) (trail : Trail)
      → Agrees key trail
      → (load site codec trail).0 ≡ serving key
      → Sound key (load site codec trail).1
  unfolding load
  load-Sound key trail a h = elim (Result-cases (site.read_file (key_path site codec))) [
    | inl (found, q) ↦ (ground arith, subst (Agrees key) (kept found q) a)
    | inr (e, q) ↦ ground arith
  ]
    where
      kept :
          (found : Bytes)
          → site.read_file (key_path site codec) ≡ ok found
          → trail ≡ (load site codec trail).1
      kept found q = ground arith

  module _ (laws : PairLaws site codec) where
    wrote-Agrees :
        (key made : Bytes) (path : String) (trail : Trail)
        → Agrees key trail
        → Agrees key (wrote path made ∷ trail)
    wrote-Agrees key made path trail a b (inr i) = a b i
    wrote-Agrees key made path trail a b (inl q) = cc

    generates :
        (public key : Bytes) (trail : Trail)
        → site.generate_key ≡ ok (public, key)
        → site.write_file (key_path site codec) key ≡ none
        → generate site codec trail ≡ (
          serving key,
          register_generated site codec public (wrote (key_path site codec) key ∷ trail),
        )
    unfolding generate
    generates public key trail g w = rw (g, w)

    generated-Sound :
        (key made public : Bytes) (trail : Trail)
        → site.generate_key ≡ ok (public, made)
        → serving made ≡ serving key
        → Agrees key trail
        → Sound key
            (register_generated site codec public (wrote (key_path site codec) made ∷ trail))
    generated-Sound key made public trail q h a =
        let (pair, size) = laws public made q in
        let same = served made key h in
        (
          ap length (sym same) ∙ size,
          subst
              (λ x.
                Agrees key
                  (register_generated site codec x (wrote (key_path site codec) made ∷ trail)))
              (sym (pair ∙ ap codec.public_key same))
              (Step-Agrees key (wrote (key_path site codec) made ∷ trail)
                (register_generated site codec (codec.public_key key)
                  (wrote (key_path site codec) made ∷ trail))
                (register_generated-Step key (wrote (key_path site codec) made ∷ trail))
                (wrote-Agrees key made (key_path site codec) trail a)),
        )
      where
        served : (x y : Bytes) → serving x ≡ serving y → x ≡ y
        served x y e = cc

    generate-Sound :
        (key : Bytes) (trail : Trail)
        → Agrees key trail
        → (generate site codec trail).0 ≡ serving key
        → Sound key (generate site codec trail).1
    unfolding generate
    generate-Sound key trail a h = elim (Result-cases site.generate_key) [
      | inl ((public, made), q) ↦ elim (Option-cases (site.write_file (key_path site codec) made)) [
        | inl w ↦
            subst (λ (r : Start × Trail). Sound key r.1) (sym (generates public made trail q w))
              (generated-Sound key made public trail q
                (ap (λ (r : Start × Trail). r.0) (sym (generates public made trail q w)) ∙ h) a)
        | inr (e, w) ↦ ground arith
      ]
      | inr (e, q) ↦ ground arith
    ]

    obtain_key-Sound :
        (key : Bytes) (trail : Trail)
        → Agrees key trail
        → (obtain_key site codec trail).0 ≡ serving key
        → Sound key (obtain_key site codec trail).1
    unfolding obtain_key
    obtain_key-Sound key trail a h = go (site.stat (key_path site codec)) refl
      where
        go :
            (found : Stat)
            → site.stat (key_path site codec) ≡ found
            → Sound key (obtain_key site codec trail).1
        go present q =
            let same = obtain_present site codec trail q in
            subst (λ (r : Start × Trail). Sound key r.1) (sym same)
              (load-Sound key trail a (ap (λ (r : Start × Trail). r.0) (sym same) ∙ h))
        go absent q =
            let same = obtain_absent site codec trail q in
            subst (λ (r : Start × Trail). Sound key r.1) (sym same)
              (generate-Sound key trail a (ap (λ (r : Start × Trail). r.0) (sym same) ∙ h))
        go (unknown e) q = ground arith

    conclude-Sound :
        (key : Bytes) (r : Start) (trail : Trail)
        → (r ≡ serving key → Sound key trail)
        → (conclude site codec (r, trail)).0 ≡ serving key
        → Sound key (conclude site codec (r, trail)).1
    unfolding conclude
    conclude-Sound key (fatal e) trail k h = ground arith
    conclude-Sound key (serving made) trail k h =
        let (size, a) = k h in
        (
          size,
          subst (λ x. Agrees key (register_present site codec x trail)) (sym (served h))
              (Step-Agrees key trail (register_present site codec key trail)
                (register_present-Step key trail) a),
        )
      where
        served : serving made ≡ serving key → made ≡ key
        served e = cc

    nothing : {key : Bytes} → Agrees key []
    nothing b i = elim i [ ]

    pub start-Sound :
        {Config Clientset : Type 0} (access : ClusterAccess Config Clientset) (clients : Clients)
        (key : Bytes)
        → (start access site codec clients []).0 ≡ serving key
        → Sound key (start access site codec clients []).1
    start-Sound access clients key h =
        let prepared = start_prepares access site codec clients [] key h in
        let first = ap (λ (r : Start × Trail). r.0) (sym prepared) ∙ h in
        let same = prepared ∙ prepare_concludes site codec key [] first in
        subst (λ (r : Start × Trail). Sound key r.1) (sym same)
          (conclude-Sound key (obtain_key site codec []).0 (obtain_key site codec []).1
            (obtain_key-Sound key [] nothing) (ap (λ (r : Start × Trail). r.0) (sym same) ∙ h))
