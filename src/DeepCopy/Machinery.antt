-- ===== src/DeepCopy/Machinery.antt =====
-- What the copies of api/v1 call of the package k8s.io/apimachinery/pkg/apis/meta/v1: a parameter.
use kidp.DeepCopy.{Ref, Alloc}
use kidp.DeepCopy.Sharing.{Kind, pointer, IsDeepCopy}

-- The types that api/v1 embeds with their `DeepCopyInto`, and the `DeepCopy` of `metav1.Time`. Each
-- is documented to copy its value deeply. `TypeMeta` is a struct of two texts.
pub record Machinery : Type 1 where
  pub TypeMeta : Type 0
  pub ObjectMeta : Type 0
  pub ListMeta : Type 0
  pub Condition : Type 0
  pub Time : Type 0
  pub object_meta : Kind ObjectMeta
  pub list_meta : Kind ListMeta
  pub condition : Kind Condition
  pub time : Kind Time
  pub copy_object_meta_into : ObjectMeta → Alloc ObjectMeta
  pub copy_list_meta_into : ListMeta → Alloc ListMeta
  pub copy_condition_into : Condition → Alloc Condition
  pub copy_time_into : Time → Alloc Time
  pub copy_time : Ref Time → Alloc (Ref Time)
  pub copy_object_meta_into-IsDeepCopy : IsDeepCopy object_meta copy_object_meta_into
  pub copy_list_meta_into-IsDeepCopy : IsDeepCopy list_meta copy_list_meta_into
  pub copy_condition_into-IsDeepCopy : IsDeepCopy condition copy_condition_into
  pub copy_time_into-IsDeepCopy : IsDeepCopy time copy_time_into
  pub copy_time-IsDeepCopy : IsDeepCopy (pointer time) copy_time
