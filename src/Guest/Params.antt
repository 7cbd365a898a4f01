-- ===== src/Guest/Params.antt =====
-- count_params_from_mangled of guest/intercept/hmcuda_runtime.cpp: how many parameters a kernel has, by
-- its demangled name. A text is the list of its characters.
pub mod Names
use hm_cuda.Prelude.{
  ℕ, Bool, false, ◌&&◌, List, [], ◌∷◌, suc, Option, none, some, ◌==◌, ◌||◌, if◌then◌else◌,
}

-- Where the count of the parameters stands: the commas seen, and the brackets opened and closed.
pub record Scan : Type 0 where
  pub commas : ℕ
  pub opened : ℕ
  pub closed : ℕ

abbrev is_open : ℕ → Bool
is_open c = (c == 60) || (c == 40)

abbrev is_close : ℕ → Bool
is_close c = (c == 62) || (c == 41)

-- `depth` of the source is opened - closed, which may be negative.
unfoldable pub step : Scan → ℕ → Scan
step s c =
    if is_open c
    then record s { opened = suc s.opened }
    else if is_close c
    then record s { closed = suc s.closed }
    else if (c == 44) && (s.opened == s.closed)
    then record s { commas = suc s.commas }
    else s

unfoldable pub scan : Scan → List ℕ → Scan
unfolding step
scan s [] = s
scan s (c ∷ cs) = scan (step s c) cs

abbrev pub start : Scan
start = record { commas = 0; opened = 0; closed = 0 }

-- strchr: what stands behind the first "(".
unfoldable pub after_paren : List ℕ → Option (List ℕ)
after_paren [] = none
after_paren (c ∷ cs) = let rest = after_paren cs in if c == 40 then some cs else rest

-- strrchr: what stands before the last ")".
unfoldable pub before_paren : List ℕ → Option (List ℕ)
before_paren [] = none
before_paren (c ∷ cs) = elim (before_paren cs) [
  | some xs ↦ some (c ∷ xs)
  | none ↦ if c == 41 then some [] else none
]

unfoldable pub skip_spaces : List ℕ → List ℕ
skip_spaces [] = []
skip_spaces (c ∷ cs) = let rest = skip_spaces cs in if c == 32 then rest else c ∷ cs

-- The text begins with "void".
unfoldable pub starts_void : List ℕ → Bool
starts_void (a ∷ b ∷ c ∷ d ∷ cs) = (a == 118) && ((b == 111) && ((c == 105) && (d == 100)))
starts_void _ = false

-- The parameters between the parentheses; a single one is looked at for "void", in the text from the
-- first "(" on.
unfoldable pub count_list : List ℕ → List ℕ → ℕ
unfolding scan skip_spaces starts_void
count_list behind inner =
    let count = suc (scan start inner).commas in
    if (count == 1) && starts_void (skip_spaces behind) then 0 else count

-- Nothing where the last ")" is the first character behind the "(".
unfoldable pub count_inner : List ℕ → List ℕ → ℕ
unfolding count_list
count_inner behind [] = 0
count_inner behind (c ∷ cs) = count_list behind (c ∷ cs)

-- What stands behind the first "(", and before the last ")" in that.
unfoldable pub count_between : List ℕ → Option (List ℕ) → ℕ
unfolding count_inner
count_between behind none = 0
count_between behind (some inner) = count_inner behind inner

unfoldable pub count_behind : Option (List ℕ) → ℕ
unfolding count_between before_paren
count_behind none = 0
count_behind (some behind) = count_between behind (before_paren behind)

unfoldable pub count_params : List ℕ → ℕ
unfolding after_paren count_behind
count_params name = count_behind (after_paren name)

-- `demangle` is abi::__cxa_demangle, `none` where it fails.
unfoldable pub count_params_from_mangled : (List ℕ → Option (List ℕ)) → List ℕ → ℕ
unfolding count_params
count_params_from_mangled demangle mangled = elim (demangle mangled) [
  | none ↦ 0
  | some name ↦ count_params name
]
