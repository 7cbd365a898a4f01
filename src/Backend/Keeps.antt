-- ===== src/Backend/Keeps.antt =====
-- Invariants of the backend's actions, with a rule for each way to build one.
use hm_cuda.Prelude.{Bool, true, false, if◌then◌else◌}
use hm_cuda.Backend.{Backend, M, pure, ◌>>=◌, ◌>>◌}

-- From every state with `P` the action leads to one.
pub record Keeps {A : Type 0} (P : Backend → Type 0) (m : M A) : Type 0 where
  pub at : (s : Backend) → P s → P (m s).1

module _ {A : Type 0} {P : Backend → Type 0} where
  pub Keeps-pure : (a : A) → Keeps P (pure a)
  unfolding pure
  Keeps-pure a = record { at = λ s h. h }

  pub Keeps-if : (b : Bool) (m n : M A) → Keeps P m → Keeps P n → Keeps P (if b then m else n)
  Keeps-if true m n km kn = km
  Keeps-if false m n km kn = kn

module _ {A B : Type 0} {P : Backend → Type 0} where
  pub Keeps-bind :
      (m : M A) (f : A → M B) → Keeps P m → ((a : A) → Keeps P (f a)) → Keeps P (m >>= f)
  unfolding ◌>>=◌
  Keeps-bind m f km kf = record { at = λ s h. (kf (m s).0).at (m s).1 (km.at s h) }

  pub Keeps-then : (m : M A) (n : M B) → Keeps P m → Keeps P n → Keeps P (m >> n)
  unfolding ◌>>◌
  Keeps-then m n km kn = record { at = λ s h. kn.at (m s).1 (km.at s h) }

pub ruleset keeps_rules = (Keeps-pure, Keeps-if, Keeps-then, Keeps-bind)
