-- ===== src/Wire/Readers.antt =====
-- Reading a request: the command number, the members of its struct and what follows the struct.
use hm_cuda.Prelude.{
  ℕ, ◌≡◌, ap, ◌∙◌, List, [], ◌∷◌, ◌++◌, drop, ◌==◌, if◌then◌else◌, Option, none, some,
}
use hm_cuda.Wire.{Struct, sizeof}
use hm_cuda.Wire.Layout.{Fits, write_struct, read_struct, read-write_struct, drop-write_struct}

-- The struct that a handler casts the payload to, and what it takes from the members and from the
-- bytes behind it.
pub record Reader (A : Type 0) : Type 0 where
  pub struct : Struct
  pub build : List ℕ → List ℕ → A

module _ {A : Type 0} where
  abbrev pub find_case : ℕ → List (ℕ × Reader A) → Option (Reader A)
  find_case cmd [] = none
  find_case cmd ((n, rd) ∷ rds) = if cmd == n then some rd else find_case cmd rds

  unfoldable pub read_case : Reader A → List ℕ → A
  unfolding read_struct
  read_case rd bytes = rd.build (read_struct rd.struct bytes) (drop (sizeof rd.struct) bytes)

  unfoldable pub run_case : Option (Reader A) → List ℕ → Option A
  unfolding read_case
  run_case none bytes = none
  run_case (some rd) bytes = some (read_case rd bytes)

  -- The case of a command gives back what it was made from.
  pub run_case-write_struct :
      (cases : List (ℕ × Reader A)) (cmd filler : ℕ) (ts : Struct) (vs rest : List ℕ) (a : A)
      (rd : Reader A)
      → find_case cmd cases ≡ some rd
      → rd.struct ≡ ts
      → Fits ts vs
      → rd.build vs rest ≡ a
      → run_case (find_case cmd cases) (write_struct filler ts vs ++ rest) ≡ some a
  unfolding run_case read_case
  run_case-write_struct cases cmd filler ts vs rest a rd found e h built =
      ap (λ o. run_case o (write_struct filler ts vs ++ rest)) found
      ∙ ap some (
          rw (e, read-write_struct filler ts vs rest h, drop-write_struct filler ts vs rest h)
            built)
