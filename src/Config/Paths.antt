-- ===== src/Config/Paths.antt =====
-- What a write shows at the keys that are read afterwards.
use nonsense.Base.{String, ◌≡◌, true, false, some, arith, str_eq, eq_iff, eq_refl}
use nonsense.Json.{JsonLib}
use nonsense.Config.Validate.{get}

module _ (json : JsonLib) where
  open json use {
    Value, null, is_object, is_null, find, insert, find-insert, is_object-insert, null_of_is_null,
    is_object-null, find-other, is_null-null,
  }

  pub get_of_find : (v : Value) (k : String) (x : Value) → find v k ≡ some x → get json v k ≡ x
  get_of_find v k x h = rw (h, get)

  pub find_of_get :
      (v : Value) (k : String) (x : Value)
      → get json v k ≡ x
      → is_null x ≡ false
      → find v k ≡ some x
  find_of_get v k x h n = ground (arith, is_null-null)

  pub find-insert_self :
      (v : Value) (k : String) (x : Value) → is_object v ≡ true → find (insert v k x) k ≡ some x
  find-insert_self v k x h = ground (arith, find-insert v k x k, eq_refl k)

  pub find-insert_ne :
      (v : Value) (k : String) (x : Value) (j : String)
      → is_object v ≡ true
      → str_eq k j ≡ false
      → find (insert v k x) j ≡ find v j
  find-insert_ne v k x j h ne = ground (arith, find-insert v k x j)

  pub get-insert_self :
      (v : Value) (k : String) (x : Value) → is_object v ≡ true → get json (insert v k x) k ≡ x
  get-insert_self v k x h = rw (find-insert_self v k x h, get)

  pub get-insert_ne :
      (v : Value) (k : String) (x : Value) (j : String)
      → is_object v ≡ true
      → str_eq k j ≡ false
      → get json (insert v k x) j ≡ get json v j
  get-insert_ne v k x j h ne = rw (find-insert_ne v k x j h ne, get)

  pub str_eq_sym : (j k : String) → str_eq j k ≡ false → str_eq k j ≡ false
  str_eq_sym j k h = ground (arith, eq_iff j k, eq_iff k j)

  pub not_null : (v : Value) → is_object v ≡ true → is_null v ≡ false
  not_null v o = ground (arith, is_object-null, null_of_is_null v)
