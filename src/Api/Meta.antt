-- ===== src/Api/Meta.antt =====
-- The shapes of Kubernetes' own types that api/v1 embeds, with the fields that the program reads
-- or writes, and the scalar types of the structs.
use kidp.Prelude.{ℕ, ℤ, String, Option, none, some, List, [], Dict, lookup, insert, lookup-insert}
use kidp.Prelude.{◌≡◌, arith}

-- An `int32` or `int64` by its value.
abbrev pub Int32 : Type 0
Int32 = ℤ

abbrev pub Int64 : Type 0
Int64 = ℤ

-- A `float64` by its 64 bits. Nothing here computes with it.
abbrev pub Float64 : Type 0
Float64 = ℕ

-- `time.Time`: nanoseconds after Go's zero time. `time.Duration`: nanoseconds.
abbrev pub Time : Type 0
Time = ℤ

abbrev pub Duration : Type 0
Duration = ℤ

-- `metav1.ObjectMeta`; the fields that the program never touches are left out.
pub record ObjectMeta : Type 0 where
  pub name : String
  pub namespace : String
  pub labels : Option (Dict String)
  pub finalizers : List String
  pub deletion_timestamp : Option Time
  pub generation : Int64

-- `metav1.Condition`
pub record Condition : Type 0 where
  pub kind : String
  pub status : String
  pub observed_generation : Int64
  pub last_transition_time : Option Time
  pub reason : String
  pub message : String

-- `client.ObjectKey`
pub record ObjectKey : Type 0 where
  pub namespace : String
  pub name : String

-- `corev1.Namespace`
pub record Namespace : Type 0 where
  pub meta : ObjectMeta

-- `m[k]` on a `map[string]string`: the empty text for a missing key and for a nil map.
abbrev pub read : Option (Dict String) → String → String
read none k = ""
read (some m) k = elim (lookup k m) [ none ↦ "" | some v ↦ v ]

-- `if m == nil { m = map[string]string{} }`
abbrev pub or_make : Option (Dict String) → Dict String
or_make none = []
or_make (some m) = m

abbrev pub set_label : ObjectMeta → String → String → ObjectMeta
set_label m k v = record m { labels = some (insert k v (or_make m.labels)) }

-- The key of the label that names the tenant of an object or a namespace.
abbrev pub tenant_label : String
tenant_label = "platform.company.com/tenant"

-- The label that was set is read back.
pub read-set_label : (m : ObjectMeta) (k v : String) → read (set_label m k v).labels k ≡ v
read-set_label m k v = ground (arith, lookup-insert k k v (or_make m.labels))
