-- ===== src/Memory/Saved.antt =====
-- packages/core/src/adapters/memory: a guarded write that has returned.
use mafuta.Base.{String, Bool, true, false, ◌≡◌, refl, ◌==◌, eq_iff, eq_refl, some, arith}
use mafuta.Base.Dict.{Dict, get, set, get-set}
use mafuta.Errors.{Error}
use mafuta.Effect.{ok, pure, modify, ensure, ◌>>=◌, ◌>>◌}
use mafuta.Tenancy.Guard.{assert_owned_by_tenant}
use mafuta.Memory.{World}

checked-ok :
    {A : Type 0} (b : Bool) (z : Error) (f : World → World) (x y : A) (w v : World)
    → (ensure b z >> (modify f >> pure x)) w ≡ (ok y, v)
    → (b ≡ true) × (y ≡ x) × (v ≡ f w)
unfolding ◌>>=◌
checked-ok true z f x y w v e = (refl, cc, cc)
checked-ok false z f x y w v e = cc

pub owned-ok :
    {A : Type 0} (owner t op : String) (f : World → World) (x y : A) (w v : World)
    → (assert_owned_by_tenant t owner op >> (modify f >> pure x)) w ≡ (ok y, v)
    → (owner ≡ t) × (y ≡ x) × (v ≡ f w)
unfolding assert_owned_by_tenant
owned-ok owner t op f x y w v e =
    let (mine, value, state) = checked-ok (owner == t) _ f x y w v e in
    ((eq_iff owner t).0 mine, value, state)

pub get-set_itself : {V : Type 0} (k : String) (v : V) (m : Dict V) → get k (set k v m) ≡ some v
get-set_itself k v m = ground (arith, get-set k k v m, eq_refl k)
