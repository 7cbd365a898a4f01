-- ===== src/Guest/Params/Names.antt =====
-- Counting the parameters of a demangled name, held against the list of parameters that the name was
-- made from.
use hm_cuda.Prelude.{
  ℕ, suc, ◌+◌, ◌≡◌, ◌≢◌, refl, ap, sym, subst, ◌∙◌, false, List, [], ◌∷◌, ◌++◌, some, ==_ne, All,
  length, arith, map,
}
use hm_cuda.Guest.Params.{
  Scan, step, scan, start, after_paren, before_paren, starts_void, skip_spaces, count_list,
  count_inner, count_between, count_behind, count_params,
}

-- The text of a type: characters, and what stands in brackets of either kind.
pub data TypeText : Type 0 where
  ended : TypeText
  char : ℕ → TypeText → TypeText
  angled rounded : TypeText → TypeText → TypeText

abbrev pub print : TypeText → List ℕ
print ended = []
print (char c rest) = c ∷ print rest
print (angled inner rest) = 60 ∷ (print inner ++ (62 ∷ print rest))
print (rounded inner rest) = 40 ∷ (print inner ++ (41 ∷ print rest))

-- The characters are no brackets.
abbrev pub IsText : TypeText → Type 0
IsText ended = Unit
IsText (char c rest) = (c ≢ 60) × (c ≢ 62) × (c ≢ 40) × (c ≢ 41) × IsText rest
IsText (angled inner rest) = IsText inner × IsText rest
IsText (rounded inner rest) = IsText inner × IsText rest

-- No comma outside of the brackets.
abbrev pub IsOne : TypeText → Type 0
IsOne ended = Unit
IsOne (char c rest) = (c ≢ 44) × IsOne rest
IsOne (angled inner rest) = IsOne rest
IsOne (rounded inner rest) = IsOne rest

-- The parameters with a comma and a space between them.
abbrev pub join : List (List ℕ) → List ℕ
join [] = []
join (w ∷ []) = w
join (w ∷ v ∷ ws) = w ++ (44 ∷ 32 ∷ join (v ∷ ws))

-- "name(a, b, c)".
abbrev pub demangled : List ℕ → List TypeText → List ℕ
demangled name ts = name ++ (40 ∷ (join (map print ts) ++ (41 ∷ [])))

-- A parameter is a type that is not empty.
abbrev pub IsParam : TypeText → Type 0
IsParam ended = ⊥
IsParam (char c rest) = IsText (char c rest) × IsOne (char c rest)
IsParam (angled inner rest) = IsText (angled inner rest) × IsOne (angled inner rest)
IsParam (rounded inner rest) = IsText (rounded inner rest) × IsOne (rounded inner rest)

-- There is a parameter, and a single one does not begin with "void".
abbrev pub IsParamList : List TypeText → Type 0
IsParamList [] = ⊥
IsParamList (t ∷ []) = IsParam t × (starts_void (skip_spaces (print t ++ (41 ∷ []))) ≡ false)
IsParamList (t ∷ u ∷ ts) = All IsParam (t ∷ u ∷ ts)

-- A text that the count of commas and the depth come out of as they went in.
abbrev Passed : Scan → Scan → Type 0
Passed s t = (t.commas ≡ s.commas) × (t.opened + s.closed ≡ t.closed + s.opened)

-- A text in which, at the top, no comma counts.
abbrev IsPlain : List ℕ → Type 0
IsPlain w = ((scan start w).commas ≡ 0) × ((scan start w).opened ≡ (scan start w).closed)

-- Two scans that differ by commas seen and by matched brackets.
abbrev Ahead : ℕ → ℕ → Scan → Scan → Type 0
Ahead k d s t = (t.commas ≡ s.commas + k) × (t.opened ≡ s.opened + d) × (t.closed ≡ s.closed + d)

step-Ahead : (k d c : ℕ) (s t : Scan) → Ahead k d s t → Ahead k d (step s c) (step t c)
unfolding step
step-Ahead k d c s t h =
    (ground (arith, h.0, h.1, h.2), ground (arith, h.0, h.1, h.2), ground (arith, h.0, h.1, h.2))

scan-Ahead : (k d : ℕ) (w : List ℕ) (s t : Scan) → Ahead k d s t → Ahead k d (scan s w) (scan t w)
unfolding scan
scan-Ahead k d [] s t h = h
scan-Ahead k d (c ∷ cs) s t h = scan-Ahead k d cs (step s c) (step t c) (step-Ahead k d c s t h)

scan-append : (s : Scan) (v w : List ℕ) → scan s (v ++ w) ≡ scan (scan s v) w
unfolding scan
scan-append s [] w = refl
scan-append s (c ∷ cs) w = scan-append (step s c) cs w

-- Brackets around a text that is passed one level deeper.
in_brackets :
    (d before behind_it : ℕ) (inner rest : List ℕ) (s : Scan)
    → s.opened ≡ s.closed + d
    → ((u : Scan) → step u before ≡ record u { opened = suc u.opened })
    → ((u : Scan) → step u behind_it ≡ record u { closed = suc u.closed })
    → ((u : Scan) → u.opened ≡ u.closed + suc d → Passed u (scan u inner))
    → ((u : Scan) → u.opened ≡ u.closed + d → Passed u (scan u rest))
    → Passed s (scan s (before ∷ (inner ++ (behind_it ∷ rest))))
unfolding scan
in_brackets d before behind_it inner rest s deep opens closes within behind =
    let u : Scan = record s { opened = suc s.opened } in
    let v = scan u inner in
    let w : Scan = record v { closed = suc v.closed } in
    let in_it = within u (omega (arith, deep)) in
    let after_it = behind w (omega (arith, deep, in_it.1)) in
    let whole : scan s (before ∷ (inner ++ (behind_it ∷ rest))) ≡ scan w rest =
      ap (λ t. scan t (inner ++ (behind_it ∷ rest))) (opens s)
      ∙ scan-append u inner (behind_it ∷ rest)
      ∙ ap (λ t. scan t rest) (closes v) in
    subst (Passed s) (sym whole) (after_it.0 ∙ in_it.0, omega (arith, after_it.1, in_it.1))

scan-print :
    (d : ℕ) (t : TypeText) (s : Scan)
    → s.opened ≡ s.closed + d
    → IsText t
    → (d ≡ 0 → IsOne t)
    → Passed s (scan s (print t))
unfolding scan step
scan-print d ended s deep h one = (refl, omega arith)
scan-print d (char c rest) s deep h one =
    let stays : Passed s (step s c) = ground (arith, h.0, h.1, h.2, h.3, deep, one) in
    let on = scan-print d rest (step s c) (omega (arith, stays.1, deep)) h.4 (λ z. (one z).1) in
    (on.0 ∙ stays.0, omega (arith, on.1, stays.1))
scan-print d (angled inner rest) s deep h one =
    in_brackets d 60 62 (print inner) (print rest) s deep (λ u. refl) (λ u. refl)
      (λ u e. scan-print (suc d) inner u e h.0 (λ z. absurd (omega (arith, z))))
      (λ u e. scan-print d rest u e h.1 one)
scan-print d (rounded inner rest) s deep h one =
    in_brackets d 40 41 (print inner) (print rest) s deep (λ u. refl) (λ u. refl)
      (λ u e. scan-print (suc d) inner u e h.0 (λ z. absurd (omega (arith, z))))
      (λ u e. scan-print d rest u e h.1 one)

param-Plain : (t : TypeText) → IsText t → IsOne t → IsPlain (print t)
param-Plain t h one =
    let on = scan-print 0 t start (omega arith) h (λ z. one) in (on.0, omega (arith, on.1))

-- A comma and a space behind a parameter.
separator-Ahead :
    (u : Scan) → u.commas ≡ 0 → u.opened ≡ u.closed → Ahead 1 u.opened start (scan u (44 ∷ 32 ∷ []))
unfolding scan step
separator-Ahead u none_yet matched =
    (ground (arith, none_yet, matched), ground (arith, matched), ground (arith, matched))

-- The commas at the top, and one more, are as many as the parameters.
commas-join :
    (w : List ℕ) (ws : List (List ℕ))
    → All IsPlain (w ∷ ws)
    → suc (scan start (join (w ∷ ws))).commas ≡ length (w ∷ ws)
unfolding scan
commas-join w [] h = omega (arith, h.0.0)
commas-join w (v ∷ ws) h =
    let u = scan start w in
    let rest = join (v ∷ ws) in
    let ahead =
      scan-Ahead 1 u.opened rest start (scan u (44 ∷ 32 ∷ [])) (separator-Ahead u h.0.0 h.0.1) in
    ap (λ t. suc t.commas) (scan-append start w (44 ∷ 32 ∷ rest))
    ∙ omega (arith, ahead.0, commas-join v ws h.1)

All-Plain : (ts : List TypeText) → All IsParam ts → All IsPlain (map print ts)
All-Plain [] h = tt
All-Plain (ended ∷ ts) h = absurd h.0
All-Plain (char c r ∷ ts) h = (param-Plain (char c r) h.0.0 h.0.1, All-Plain ts h.1)
All-Plain (angled i r ∷ ts) h = (param-Plain (angled i r) h.0.0 h.0.1, All-Plain ts h.1)
All-Plain (rounded i r ∷ ts) h = (param-Plain (rounded i r) h.0.0 h.0.1, All-Plain ts h.1)

after_paren-name :
    (name rest : List ℕ) → All (λ c. c ≢ 40) name → after_paren (name ++ (40 ∷ rest)) ≡ some rest
unfolding after_paren
after_paren-name [] rest h = refl
after_paren-name (c ∷ cs) rest h = rw (==_ne c 40 h.0) (after_paren-name cs rest h.1)

before_paren-last : (xs : List ℕ) → before_paren (xs ++ (41 ∷ [])) ≡ some xs
unfolding before_paren
before_paren-last [] = refl
before_paren-last (c ∷ cs) = rw (before_paren-last cs) refl

length-texts : (ts : List TypeText) → length (map print ts) ≡ length ts
length-texts [] = refl
length-texts (t ∷ ts) = ap suc (length-texts ts)

-- One parameter that is not void, or several.
count_list-join :
    (ts : List TypeText)
    → IsParamList ts
    → count_list (join (map print ts) ++ (41 ∷ [])) (join (map print ts)) ≡ length ts
unfolding count_list
count_list-join [] h = absurd h
count_list-join (t ∷ []) h = rw (commas-join (print t) [] (All-Plain (t ∷ []) (h.0, tt)), h.1) refl
count_list-join (t ∷ u ∷ ts) h =
    let n = length-texts ts in
    rw
      (
        commas-join (print t) (map print (u ∷ ts)) (All-Plain (t ∷ u ∷ ts) h),
        n,
        ==_ne (suc (suc (length ts))) 1 (λ e. omega (arith, e)),
      )
      refl

-- The text between the parentheses begins with the first parameter.
count_inner-join :
    (ts : List TypeText)
    → IsParamList ts
    → count_inner (join (map print ts) ++ (41 ∷ [])) (join (map print ts)) ≡ length ts
unfolding count_inner
count_inner-join [] h = absurd h
count_inner-join (ended ∷ []) h = absurd h.0
count_inner-join (ended ∷ u ∷ ts) h = absurd h.0
count_inner-join (char c r ∷ []) h = count_list-join (char c r ∷ []) h
count_inner-join (char c r ∷ u ∷ ts) h = count_list-join (char c r ∷ u ∷ ts) h
count_inner-join (angled i r ∷ []) h = count_list-join (angled i r ∷ []) h
count_inner-join (angled i r ∷ u ∷ ts) h = count_list-join (angled i r ∷ u ∷ ts) h
count_inner-join (rounded i r ∷ []) h = count_list-join (rounded i r ∷ []) h
count_inner-join (rounded i r ∷ u ∷ ts) h = count_list-join (rounded i r ∷ u ∷ ts) h

-- For a function whose name has no "(" and which has at least one parameter, each the text of a type
-- with matched brackets and commas in these only, the count from its demangled name is the number of
-- its parameters, if a single parameter does not begin with "void".
pub count_params-demangled :
    (name : List ℕ) (ts : List TypeText)
    → All (λ c. c ≢ 40) name
    → IsParamList ts
    → count_params (demangled name ts) ≡ length ts
unfolding count_params count_behind count_between
count_params-demangled name ts plain h =
    let inner = join (map print ts) in
    let behind = inner ++ (41 ∷ []) in
    ap count_behind (after_paren-name name behind plain)
    ∙ ap (count_between behind) (before_paren-last inner)
    ∙ count_inner-join ts h
