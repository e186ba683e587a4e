-- ===== src/Errors/Laws.antt =====
-- Copying fields over fields: what a lookup finds.
use architecture_playground.Base.{String, ◌==◌, eq_iff, ◌≡◌, refl, some, arith, if◌then◌else◌}
use architecture_playground.Errors.{Value, Fields, nil, field, set_field, get_field}

pub get_field-set_field :
    (k j : String) (v : Value) (m : Fields)
    → get_field j (set_field k v m) ≡ (if k == j then some v else get_field j m)
unfolding set_field get_field
get_field-set_field k j v nil = refl
get_field-set_field k j v (field i w m) =
    ground (arith, eq_iff k j, eq_iff i k, eq_iff i j, get_field-set_field k j v m)
