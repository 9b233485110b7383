-- ===== src/Registry/Matching.antt =====
-- `matchesCriteria` of pkg/brokerregistry/registry.go against what a fitting broker is.
use kidp.Prelude.{String, pos, ◌<ℤ◌, ◌≤ℤ◌, ◌==◌, ◌≡◌, refl, ◌↔◌, ◌⊎◌, inl, inr}
use kidp.Prelude.{true, List, [], ◌∷◌, In, any, Bool, Bool-cases, arith}
use kidp.Api.Broker.{Broker, BrokerCapability}
use kidp.Registry.{SelectionCriteria, supports, matches_criteria}

-- A capability for the requested type, and for the provider where one is requested.
abbrev pub Covers : SelectionCriteria → BrokerCapability → Type 0
Covers c cap =
    (cap.resource_type ≡ c.resource_type) × ((c.provider ≡ "") ⊎ In c.provider cap.providers)

-- What the criteria ask of a broker; an empty criterion asks nothing.
pub record Suits (b : Broker) (c : SelectionCriteria) : Type 0 where
  pub ready : b.status.phase ≡ "Ready"
  pub in_cloud : (c.cloud_provider ≡ "") ⊎ (b.spec.cloud_provider ≡ c.cloud_provider)
  pub in_region : (c.region ≡ "") ⊎ ((b.spec.region ≡ "") ⊎ (b.spec.region ≡ c.region))
  pub capable :
      (c.resource_type ≡ "")
      ⊎ ((cap : BrokerCapability) × In cap b.spec.capabilities × Covers c cap)
  pub has_room :
      (b.spec.max_concurrent_deployments ≤ℤ pos 0)
      ⊎ (b.status.active_deployments <ℤ b.spec.max_concurrent_deployments)

any→In :
    {A : Type 0} (p : A → Bool) (xs : List A) → any p xs ≡ true → (x : A) × In x xs × (p x ≡ true)
any→In p [] h = cc
any→In p (x ∷ xs) h = elim (Bool-cases (p x)) [
  | inl e ↦ (x, inl refl, e)
  | inr e ↦ let (y, i, q) = any→In p xs (ground arith) in (y, inr i, q)
]

In→any : {A : Type 0} (p : A → Bool) (xs : List A) (x : A) → In x xs → p x ≡ true → any p xs ≡ true
In→any p [] x i h = elim i [ ]
In→any p (y ∷ ys) x i h = ground (arith, In→any p ys x)

provider_covered : (p : String) (ps : List String) → (any (λ q. q == p) ps ≡ true) ↔ In p ps
provider_covered p [] = ground arith
provider_covered p (q ∷ ps) = ground (arith, provider_covered p ps)

supports_iff :
    (c : SelectionCriteria) (cap : BrokerCapability) → (supports c cap ≡ true) ↔ Covers c cap
unfolding supports
supports_iff c cap = ground (arith, provider_covered c.provider cap.providers)

capable_iff :
    (c : SelectionCriteria) (caps : List BrokerCapability)
    → (any (supports c) caps ≡ true) ↔ ((cap : BrokerCapability) × In cap caps × Covers c cap)
capable_iff c caps = (
  λ h. let (cap, i, s) = any→In (supports c) caps h in (cap, i, (supports_iff c cap).0 s),
  λ (cap, i, s). In→any (supports c) caps cap i ((supports_iff c cap).1 s),
)

-- A broker passes exactly if it is Ready, in the requested cloud and region, has a capability for
-- the requested type and provider, and is below its limit of deployments, where it has a limit.
pub matches_criteria_iff :
    (b : Broker) (c : SelectionCriteria) → (matches_criteria b c ≡ true) ↔ Suits b c
unfolding matches_criteria
matches_criteria_iff b c = (
  λ h. record {
    ready = ground arith;
    in_cloud = ground arith;
    in_region = ground arith;
    capable = ground (arith, capable_iff c b.spec.capabilities);
    has_room = ground arith;
  },
  λ s. ground (arith, capable_iff c b.spec.capabilities),
)
