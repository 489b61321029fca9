-- ===== src/Js/Fields/Laws.antt =====
-- The laws of property access.
use privacy_layer_confidenti.Base.{
  String, true, false, ◌≡◌, ◌≢◌, refl, ◌==◌, eq_iff, arith, if◌then◌else◌,
}
use privacy_layer_confidenti.Js.Value.{Value, undefined, Fields, end, field}
use privacy_layer_confidenti.Js.Fields.{
  place, has_own, overwrite, get_field, put_field, delete_field,
}

get-place :
    (k j : String) (v : Value) (fs : Fields)
    → has_own k fs ≡ false
    → get_field j (place k v fs) ≡ (if k == j then v else get_field j fs)
unfolding get_field place has_own
get-place k j v end h = refl
get-place k j v (field i w fs) h =
    ground (arith, eq_iff k j, eq_iff i k, eq_iff i j, get-place k j v fs)

get-overwrite :
    (k j : String) (v : Value) (fs : Fields)
    → has_own k fs ≡ true
    → get_field j (overwrite k v fs) ≡ (if k == j then v else get_field j fs)
unfolding get_field overwrite has_own
get-overwrite k j v end h = cc
get-overwrite k j v (field i w fs) h =
    ground (arith, eq_iff k j, eq_iff i k, eq_iff i j, get-overwrite k j v fs)

-- A property that is set is read back, and the others are as before.
pub get-put :
    (k j : String) (v : Value) (fs : Fields)
    → get_field j (put_field k v fs) ≡ (if k == j then v else get_field j fs)
unfolding put_field
get-put k j v fs = ground (arith, get-place k j v fs, get-overwrite k j v fs)

pub get-delete :
    (k j : String) (fs : Fields)
    → get_field j (delete_field k fs) ≡ (if k == j then undefined else get_field j fs)
unfolding get_field delete_field
get-delete k j end = ground arith
get-delete k j (field i w fs) =
    ground (arith, eq_iff k j, eq_iff i k, eq_iff i j, get-delete k j fs)

overwrite_same :
    (k : String) (fs : Fields) → has_own k fs ≡ true → overwrite k (get_field k fs) fs ≡ fs
unfolding get_field overwrite has_own
overwrite_same k end h = cc
overwrite_same k (field i w fs) h = ground (arith, overwrite_same k fs)

has_own_of_get : (k : String) (fs : Fields) → get_field k fs ≢ undefined → has_own k fs ≡ true
unfolding get_field has_own
has_own_of_get k end h = absurd (h refl)
has_own_of_get k (field i w fs) h = ground (arith, has_own_of_get k fs)

-- Setting a property to the value that it has changes nothing.
pub put_same :
    (k : String) (v : Value) (fs : Fields)
    → get_field k fs ≡ v
    → v ≢ undefined
    → put_field k v fs ≡ fs
unfolding put_field
put_same k v fs e d = ground (arith, overwrite_same k fs, has_own_of_get k fs)
