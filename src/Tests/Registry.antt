-- ===== src/Tests/Registry.antt =====
-- An object that outlives the removal of another.
use blueboat.Prelude.{ℕ, codes, List, [], ◌∷◌, ◌==◌, if◌then◌else◌, All, ◌≡◌, refl}
use blueboat.Prelude.Result.{ok, err}
use blueboat.Registry.{
  AnyObject, new, put_new, get, RegistryEvent, puts, removes, run, Spares, get-put_new,
}

abbrev font : AnyObject ℕ
font = record { tag = 1; object = 42 }

abbrev later : List (RegistryEvent ℕ)
later = puts (record { tag = 2; object = 5 }) ∷ removes 1 ∷ []

later-Spares : All (Spares (put_new font new).0) later
unfolding put_new new
later-Spares = (tt, (refl, tt))

get-put_new_example :
    get 1 (put_new font new).0 (run later (put_new font new).1)
    ≡ (if font.tag == 1 then ok font.object else err (codes "symbol type mismatch"))
get-put_new_example = get-put_new 1 font later new later-Spares
