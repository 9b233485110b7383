-- ===== src/BrokerStart/Keys.antt =====
-- The key that cmd/broker/main.go keeps and registers, and the one that pkg/broker/callback.go
-- signs with.
use kidp.Prelude.{
  String, ◌==◌, ◌≡◌, refl, sym, ◌∙◌, ap, subst, ◌⊎◌, inl, inr, is_empty, Bool-cases, Option-cases,
}
use kidp.Prelude.{some, ◌∷◌, In, length, arith}
use kidp.Result.{ok, err, Error, Result-cases}
use kidp.Api.Broker.{Broker}
use kidp.Callbacks.{Bytes, Codec}
use kidp.BrokerStart.{
  Stat, present, absent, unknown, Effect, wrote, registered, Trail, Site, Start, fatal, serving,
}
use kidp.BrokerStart.{ClusterAccess, Clients, key_path, own_key, with_public_key, store_public_key}
use kidp.BrokerStart.{
  register_generated, register_present, generate, load, obtain_key, conclude, prepare_key, start,
}

module _ (site : Site) (codec : Codec) where
  -- The file holds the key: it was there with 64 bytes, or the run has made the key and written it.
  abbrev pub Kept : Bytes → Trail → Type 0
  Kept key trail =
      ((site.stat (key_path site codec) ≡ present)
        × (site.read_file (key_path site codec) ≡ ok key)
        × (length key ≡ 64))
      ⊎ ((site.stat (key_path site codec) ≡ absent)
          × ((public : Bytes) × (site.generate_key ≡ ok (public, key)))
          × In (wrote (key_path site codec) key) trail)

  -- `b`, as it is found after `before`, ends with the text for a key, unless the update fails.
  abbrev pub Holds : String → Broker → Trail → Trail → Type 0
  Holds text b before trail =
      ((b.status.callback_public_key ≡ text) × (trail ≡ before))
      ⊎ (((e : Error) × (site.update_broker_status before (with_public_key site codec text b)
              ≡ some e)
            × (trail ≡ before))
          ⊎ (trail ≡ registered (with_public_key site codec text b) ∷ before))

  -- Where the process has a name and finds its Broker, that one holds the key's public part.
  abbrev pub Registered : Bytes → Trail → Type 0
  Registered key trail =
      (site.broker_name ≡ "")
      ⊎ ((before : Trail) × (((e : Error) × (site.get_broker before (own_key site codec) ≡ err e))
            ⊎ ((b : Broker) × (site.get_broker before (own_key site codec) ≡ ok b)
                × Holds (codec.encode64 (codec.public_key key)) b before trail)))

  store_public_key-Holds :
      (text : String) (b : Broker) (trail : Trail)
      → Holds text b trail (store_public_key site codec text b trail)
  unfolding store_public_key
  store_public_key-Holds text b trail =
      elim (Option-cases (site.update_broker_status trail (with_public_key site codec text b))) [
        | inl q ↦ inr (inr (ground arith))
        | inr (e, q) ↦ inr (inl (e, q, ground arith))
      ]

  register_present-Registered :
      (key : Bytes) (trail : Trail) → Registered key (register_present site codec key trail)
  unfolding register_present
  register_present-Registered key trail = elim (Bool-cases (is_empty site.broker_name)) [
    | inl q ↦ inl (ground arith)
    | inr q ↦ elim (Result-cases (site.get_broker trail (own_key site codec))) [
      | inr (e, f) ↦ inr (trail, inl (e, f))
      | inl (b, f) ↦
          elim (Bool-cases
            (b.status.callback_public_key == codec.encode64 (codec.public_key key))) [
              | inl same ↦ inr (trail, inr (b, f, inl (ground arith, ground arith)))
              | inr differs ↦ inr (
                trail,
                inr (
                  b,
                  f,
                  subst (Holds (codec.encode64 (codec.public_key key)) b trail) (ground arith)
                      (store_public_key-Holds (codec.encode64 (codec.public_key key)) b trail),
                ),
              )
            ]
    ]
  ]

  store_keeps :
      (text : String) (b : Broker) (trail : Trail) (e : Effect)
      → In e trail
      → In e (store_public_key site codec text b trail)
  unfolding store_public_key
  store_keeps text b trail e i = ground arith

  present_keeps :
      (key : Bytes) (trail : Trail) (e : Effect)
      → In e trail
      → In e (register_present site codec key trail)
  unfolding register_present
  present_keeps key trail e i = grind (arith, store_keeps)

  generated_keeps :
      (public : Bytes) (trail : Trail) (e : Effect)
      → In e trail
      → In e (register_generated site codec public trail)
  unfolding register_generated
  generated_keeps public trail e i = grind (arith, store_keeps)

  load-Kept :
      (key : Bytes) (trail : Trail)
      → site.stat (key_path site codec) ≡ present
      → (load site codec trail).0 ≡ serving key
      → Kept key (load site codec trail).1
  unfolding load
  load-Kept key trail s h = elim (Result-cases (site.read_file (key_path site codec))) [
    | inl (found, q) ↦ inl (s, ground arith, ground arith)
    | inr (e, q) ↦ ground arith
  ]

  generate-Kept :
      (key : Bytes) (trail : Trail)
      → site.stat (key_path site codec) ≡ absent
      → (generate site codec trail).0 ≡ serving key
      → Kept key (generate site codec trail).1
  unfolding generate
  generate-Kept key trail s h = elim (Result-cases site.generate_key) [
    | inl ((public, made), q) ↦ elim (Option-cases (site.write_file (key_path site codec) made)) [
      | inl w ↦ inr (
        s,
        (public, ground arith),
        ground (
          arith,
          generated_keeps public (wrote (key_path site codec) made ∷ trail)
              (wrote (key_path site codec) made),
        ),
      )
      | inr (e, w) ↦ ground arith
    ]
    | inr (e, q) ↦ ground arith
  ]

  pub obtain_present :
      (trail : Trail)
      → site.stat (key_path site codec) ≡ present
      → obtain_key site codec trail ≡ load site codec trail
  unfolding obtain_key
  obtain_present trail q = rw (q, obtain_key)

  pub obtain_absent :
      (trail : Trail)
      → site.stat (key_path site codec) ≡ absent
      → obtain_key site codec trail ≡ generate site codec trail
  unfolding obtain_key
  obtain_absent trail q = rw (q, obtain_key)

  obtain_key-Kept :
      (key : Bytes) (trail : Trail)
      → (obtain_key site codec trail).0 ≡ serving key
      → Kept key (obtain_key site codec trail).1
  unfolding obtain_key
  obtain_key-Kept key trail h = go (site.stat (key_path site codec)) refl
    where
      go :
          (found : Stat)
          → site.stat (key_path site codec) ≡ found
          → Kept key (obtain_key site codec trail).1
      go present q =
          let same = obtain_present trail q in
          subst (λ (r : Start × Trail). Kept key r.1) (sym same)
            (load-Kept key trail q (ap (λ (r : Start × Trail). r.0) (sym same) ∙ h))
      go absent q =
          let same = obtain_absent trail q in
          subst (λ (r : Start × Trail). Kept key r.1) (sym same)
            (generate-Kept key trail q (ap (λ (r : Start × Trail). r.0) (sym same) ∙ h))
      go (unknown e) q = ground arith

  present_later :
      (key : Bytes) (trail : Trail)
      → Kept key trail
      → Kept key (register_present site codec key trail)
  present_later key trail (inl k) = inl k
  present_later key trail (inr (a, g, i)) =
      inr (a, g, present_keeps key trail (wrote (key_path site codec) key) i)

  conclude-Kept :
      (key : Bytes) (r : Start) (trail : Trail)
      → (r ≡ serving key → Kept key trail)
      → (conclude site codec (r, trail)).0 ≡ serving key
      → Kept key (conclude site codec (r, trail)).1
        × Registered key (conclude site codec (r, trail)).1
  unfolding conclude
  conclude-Kept key (fatal e) trail k h = ground arith
  conclude-Kept key (serving made) trail k h =
      subst
        (λ x.
          Kept key (register_present site codec x trail)
          × Registered key (register_present site codec x trail))
        (sym (same h)) (present_later key trail (k h), register_present-Registered key trail)
    where
      same : serving made ≡ serving key → made ≡ key
      same q = cc

  pub prepare_concludes :
      (key : Bytes) (trail : Trail)
      → (prepare_key site codec trail).0 ≡ serving key
      → prepare_key site codec trail ≡ conclude site codec (obtain_key site codec trail)
  unfolding prepare_key
  prepare_concludes key trail h = ground arith

  prepare_key-Kept :
      (key : Bytes) (trail : Trail)
      → (prepare_key site codec trail).0 ≡ serving key
      → Kept key (prepare_key site codec trail).1 × Registered key (prepare_key site codec trail).1
  prepare_key-Kept key trail h =
      let same = prepare_concludes key trail h in
      subst (λ (r : Start × Trail). Kept key r.1 × Registered key r.1) (sym same)
        (conclude-Kept key (obtain_key site codec trail).0 (obtain_key site codec trail).1
          (obtain_key-Kept key trail) (ap (λ (r : Start × Trail). r.0) (sym same) ∙ h))

pub start_prepares :
    {Config Clientset : Type 0} (access : ClusterAccess Config Clientset) (site : Site)
    (codec : Codec) (clients : Clients) (trail : Trail) (key : Bytes)
    → (start access site codec clients trail).0 ≡ serving key
    → start access site codec clients trail ≡ prepare_key site codec trail
unfolding start
start_prepares access site codec clients trail key h = ground arith

-- A broker that starts to serve has its private key in the key's file, of 64 bytes if it was there
-- before, and has tried to give the public part of that key to its Broker: where it has a name and
-- finds the Broker, the Broker has this public key already, gets it, or refuses the update.
pub start-Registered :
    {Config Clientset : Type 0} (access : ClusterAccess Config Clientset) (site : Site)
    (codec : Codec) (clients : Clients) (trail : Trail) (key : Bytes)
    → (start access site codec clients trail).0 ≡ serving key
    → Kept site codec key (start access site codec clients trail).1
      × Registered site codec key (start access site codec clients trail).1
start-Registered access site codec clients trail key h =
    let same = start_prepares access site codec clients trail key h in
    subst (λ (r : Start × Trail). Kept site codec key r.1 × Registered site codec key r.1)
      (sym same)
      (prepare_key-Kept site codec key trail (ap (λ (r : Start × Trail). r.0) (sym same) ∙ h))
