-- ===== src/Observer.antt =====
-- `Subject` of common/include/common/Observer.hpp. An observer is named by a number, which stands
-- for the pointer to it. No observer calls back into the subject.
pub mod Laws
mod Tests
use common_lib.Common.{ℕ, Bool, List, [], ◌∷◌, ◌++◌, map, if◌then◌else◌, ◌==◌}

-- `emplace_back`.
unfoldable pub regist : ℕ → List ℕ → List ℕ
regist observer observers = observers ++ observer ∷ []

-- `erase` of what `remove_if` leaves over.
unfoldable pub unregist : ℕ → List ℕ → List ℕ
unregist observer [] = []
unregist observer (o ∷ os) =
    if o == observer then unregist observer os else o ∷ unregist observer os

-- The calls of `onEvent`, in order.
unfoldable pub notify {ℓ} : {A : Type ℓ} → A → List ℕ → List (ℕ × A)
notify args observers = map (λ o. (o, args)) observers

-- The calls of a client between two notifications.
pub data Use : Type 0 where
  registers unregisters : ℕ → Use

unfoldable pub run : List Use → List ℕ → List ℕ
run [] observers = observers
run (registers o ∷ us) observers = run us (regist o observers)
run (unregisters o ∷ us) observers = run us (unregist o observers)
