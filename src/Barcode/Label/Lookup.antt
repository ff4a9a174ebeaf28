-- ===== src/Barcode/Label/Lookup.antt =====
-- What the map of fields holds after fields were added in order: the last value of each key.
use firebin_api.Base.{◌≡◌, [], ◌∷◌, if◌then◌else◌, Option, some, arith}
use firebin_api.Base.Bytes.{Bytes, same, same_iff}
use firebin_api.Barcode.Label.{Fields, put, get}

-- The last value that a list of fields gives a key, `old` if there is none.
abbrev pub last_value : Bytes → Fields → Option Bytes → Option Bytes
last_value k [] old = old
last_value k (f ∷ fs) old = last_value k fs (if same (f.0) k then some (f.1) else old)

pub get-put :
    (k j v : Bytes) (fs : Fields) → get k (put j v fs) ≡ (if same j k then some v else get k fs)
unfolding get put
get-put k j v [] = ground (arith, same_iff j k, same_iff k j)
get-put k j v (f ∷ fs) =
    ground
      (arith, same_iff j (f.0), same_iff k (f.0), same_iff j k, same_iff (f.0) k, get-put k j v fs)
