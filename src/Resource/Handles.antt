-- ===== src/Resource/Handles.antt =====
-- Handles of one table: what removal leaves, and the counter that host/vhost/resource.c draws fresh
-- handles from.
use hm_cuda.Prelude.{
  ℕ, ◌+◌, ◌^◌, ◌≤◌, ◌<◌, ◌≡◌, ◌≢◌, ◌∙◌, refl, Bool, true, false, ◌&&◌, List, [], ◌∷◌, some, ltb,
  ◌==◌, ==_refl, subst, sym, if◌then◌else◌, add64, arith, Bool-cases, inl, inr, ◌⊎◌, All,
}
use hm_cuda.Backend.{ResourceType, res_mem, res_host_mem, Resource, Context, Backend}
use hm_cuda.Resource.{
  same_type, type_index, by_range, hmcuda_ctx_get, search_list, remove_first, has_handle,
  hmcuda_res_add_with_handle, hmcuda_res_add, hmcuda_res_get, hmcuda_res_remove, search_ptr,
  hmcuda_res_get_handle, resources_of,
}
use hm_cuda.Resource.Lookup.{
  view, covers, search-cons, resources-add, resources-remove, resources-get, same_type-eq,
}

-- How many values an entry of a table of this type stands for, from its handle on.
abbrev pub extent : ResourceType → Resource → ℕ
extent type r = if by_range type && ltb 0 r.size then r.size else 1

abbrev pub Apart : ResourceType → Resource → Resource → Type 0
Apart type a b = (a.handle + extent type a ≤ b.handle) ⊎ (b.handle + extent type b ≤ a.handle)

-- No entry wraps, and no two entries share a value.
abbrev pub IsTable : ResourceType → List Resource → Type 0
IsTable type [] = Unit {0}
IsTable type (r ∷ l) = (r.handle + extent type r < 2 ^ 64) × All (Apart type r) l × IsTable type l

-- Whether the entry with handle `h` stands for `v`.
unfoldable pub entry_covers : ResourceType → ℕ → ℕ → List Resource → Bool
entry_covers type h v [] = false
entry_covers type h v (r ∷ l) = if r.handle == h then covers type v r else entry_covers type h v l

search-Apart :
    (type : ResourceType) (v : ℕ) (r : Resource) (l : List Resource)
    → r.handle + extent type r < 2 ^ 64
    → All (Apart type r) l
    → IsTable type l
    → covers type v r ≡ true
    → search_list type v l ≡ 0
unfolding search_list
search-Apart type v r [] fits apart t c = refl
search-Apart type v r (q ∷ l) fits apart t c =
    ground (arith, search-Apart type v r l fits apart.1 t.2, apart.0, t.0)

covered_once :
    (type : ResourceType) (h v : ℕ) (r : Resource) (l : List Resource)
    → r.handle + extent type r < 2 ^ 64
    → All (Apart type r) l
    → IsTable type l
    → covers type v r ≡ true
    → entry_covers type h v l ≡ false
unfolding entry_covers
covered_once type h v r [] fits apart t c = refl
covered_once type h v r (q ∷ l) fits apart t c =
    ground (arith, covered_once type h v r l fits apart.1 t.2, apart.0, t.0)

pub search-remove :
    (type : ResourceType) (h v : ℕ) (l : List Resource)
    → IsTable type l
    → search_list type v (remove_first h l)
      ≡ (if entry_covers type h v l then 0 else search_list type v l)
unfolding remove_first entry_covers
search-remove type h v [] t = ground arith
search-remove type h v (r ∷ l) t = elim (Bool-cases (r.handle == h)) [
  | inl here ↦
      rw (here, search-cons type v r l) (ground (arith, search-Apart type v r l t.0 t.1 t.2))
  | inr later ↦
      rw (later, search-cons type v r l, search-cons type v r (remove_first h l))
        (ground (arith, search-remove type h v l t.2, covered_once type h v r l t.0 t.1 t.2))
]

remove_absent : (h : ℕ) (l : List Resource) → has_handle h l ≡ false → remove_first h l ≡ l
unfolding remove_first has_handle
remove_absent h [] e = refl
remove_absent h (r ∷ l) e = ground (arith, remove_absent h l)

module _ (sid vid : ℕ) (type : ResourceType) (s : Backend) (ctx : Context)
    (exists : hmcuda_ctx_get sid vid s.contexts ≡ some ctx) where
  -- In a session whose table holds no overlapping entries, after a removal the values of the removed
  -- entry resolve to NULL, and all other values of that table, and all other tables, as before.
  pub view-remove :
      (other : ResourceType) (h v : ℕ)
      → IsTable type (ctx.resources type)
      → view sid vid (hmcuda_res_remove sid vid type h s).1 other v ≡ (
          if same_type type other && entry_covers type h v (ctx.resources type)
          then 0
          else view sid vid s other v)
  unfolding view hmcuda_res_get
  view-remove other h v t =
      rw
        (
          resources-remove sid vid type other h s ctx exists,
          resources-get sid vid other s ctx exists,
        )
        (elim (Bool-cases (same_type type other)) [
          | inl same ↦
              subst
                (λ o.
                  search_list o v (
                    if same_type type o
                    then remove_first h (ctx.resources type)
                    else ctx.resources o)
                  ≡ (if same_type type o && entry_covers type h v (ctx.resources type)
                      then 0
                      else search_list o v (ctx.resources o)))
                (same_type-eq type other same)
                (rw (==_refl (type_index type)) (search-remove type h v (ctx.resources type) t))
          | inr differ ↦ rw differ
        ])

  -- In a session that exists, removing a value that is the handle of no entry of the table, such as
  -- one inside an allocation, reports 0 and leaves every value of every table as it was.
  pub view-remove_absent :
      (other : ResourceType) (h v : ℕ)
      → has_handle h (ctx.resources type) ≡ false
      → ((hmcuda_res_remove sid vid type h s).0 ≡ 0)
        × (view sid vid (hmcuda_res_remove sid vid type h s).1 other v ≡ view sid vid s other v)
  unfolding view hmcuda_res_get
  view-remove_absent other h v absent = (
    unfold hmcuda_res_remove in rw (resources-get sid vid type s ctx exists, absent),
    rw
        (
          resources-remove sid vid type other h s ctx exists,
          resources-get sid vid other s ctx exists,
          remove_absent h (ctx.resources type) absent,
        )
        (elim (Bool-cases (same_type type other)) [
          | inl same ↦ rw (same_type-eq type other same, ==_refl (type_index other))
          | inr differ ↦ rw differ
        ]),
  )

-- Every entry ends at or before the counter.
abbrev pub IsBelow : ResourceType → ℕ → List Resource → Type 0
IsBelow type next l = All (λ r. r.handle + extent type r ≤ next + 1) l

IsBelow-Apart :
    (type : ResourceType) (next : ℕ) (r : Resource) (l : List Resource)
    → r.handle ≡ next + 1
    → IsBelow type next l
    → All (Apart type r) l
IsBelow-Apart type next r [] e b = tt
IsBelow-Apart type next r (q ∷ l) e b = (ground arith, IsBelow-Apart type next r l e b.1)

IsBelow-mono :
    (type : ResourceType) (m n : ℕ) (l : List Resource)
    → m ≤ n
    → IsBelow type m l
    → IsBelow type n l
IsBelow-mono type m n [] h b = tt
IsBelow-mono type m n (q ∷ l) h b = (ground arith, IsBelow-mono type m n l h b.1)

-- The tables that the counter fills: every type but pinned host memory, which guests key themselves.
module _ (sid vid : ℕ) (type : ResourceType) (p n : ℕ) (s : Backend) (ctx : Context)
    (exists : hmcuda_ctx_get sid vid s.contexts ≡ some ctx)
    (counted : same_type type res_host_mem ≡ false) (room : s.next_handle + n + 2 < 2 ^ 64)
    (table : IsTable type (ctx.resources type))
    (below : IsBelow type s.next_handle (ctx.resources type)) where
  fresh : Resource
  fresh = record { handle = s.next_handle + 1; real_ptr = p; size = n }

  no_wrap : add64 s.next_handle 1 ≡ s.next_handle + 1
  no_wrap = omega arith

  resources-res_add :
      resources_of sid vid type (hmcuda_res_add sid vid type p n s).1 ≡ fresh ∷ ctx.resources type
  unfolding hmcuda_res_add fresh
  resources-res_add =
      resources-add sid vid type type p n (add64 s.next_handle 1) _ ctx exists
      ∙ rw (no_wrap, ==_refl (type_index type))

  next_handle-res_add :
      (hmcuda_res_add sid vid type p n s).1.next_handle
      ≡ s.next_handle + (if same_type type res_mem then n else 0) + 1
  unfolding hmcuda_res_add hmcuda_res_add_with_handle
  next_handle-res_add = ground arith

  extended :
      IsTable type (fresh ∷ ctx.resources type)
      × IsBelow type
          (s.next_handle + (if same_type type res_mem then n else 0) + 1)
          (fresh ∷ ctx.resources type)
      × (s.next_handle < s.next_handle + (if same_type type res_mem then n else 0) + 1)
  unfolding fresh
  extended = (
    (ground arith, IsBelow-Apart type s.next_handle fresh (ctx.resources type) refl below, table),
    (ground arith, IsBelow-mono type s.next_handle _ (ctx.resources type) (omega arith) below),
    omega arith,
  )

  -- In a session that exists, while the counter is far enough from 2^64, adding a resource of any
  -- type but pinned host memory under the next handle of the counter keeps its table free of
  -- overlaps and below the counter, and the counter rises.
  pub res_add-IsTable :
      let t = (hmcuda_res_add sid vid type p n s).1 in
      IsTable type (resources_of sid vid type t)
      × IsBelow type t.next_handle (resources_of sid vid type t)
      × (s.next_handle < t.next_handle)
  res_add-IsTable =
      subst
        (λ l.
          IsTable type l
          × IsBelow type (hmcuda_res_add sid vid type p n s).1.next_handle l
          × (s.next_handle < (hmcuda_res_add sid vid type p n s).1.next_handle))
        (sym resources-res_add)
        (subst
          (λ k.
            IsTable type (fresh ∷ ctx.resources type)
            × IsBelow type k (fresh ∷ ctx.resources type)
            × (s.next_handle < k))
          (sym next_handle-res_add) extended)

-- Under a pointer that some entry holds, search_ptr gives the handle of an entry.
search_ptr-covers :
    (type : ResourceType) (p h : ℕ) (l : List Resource)
    → by_range type ≡ false
    → search_ptr p l ≡ h
    → h ≢ 0
    → entry_covers type h h l ≡ true
unfolding search_ptr entry_covers
search_ptr-covers type p h [] exact e ne = absurd (ne (sym e))
search_ptr-covers type p h (r ∷ l) exact e ne = ground (arith, search_ptr-covers type p h l exact)

-- In a table of exact handles, the handle that a pointer is found under resolves back to it.
search_list-search_ptr :
    (type : ResourceType) (p h : ℕ) (l : List Resource)
    → by_range type ≡ false
    → IsTable type l
    → search_ptr p l ≡ h
    → h ≢ 0
    → search_list type h l ≡ p
unfolding search_ptr search_list
search_list-search_ptr type p h [] exact t e ne = absurd (ne (sym e))
search_list-search_ptr type p h (r ∷ l) exact t e ne = ground (
  arith,
  search_list-search_ptr type p h l exact t.2,
  search_ptr-covers type p h l exact,
  covered_once type h h r l t.0 t.1 t.2,
)

-- In a session whose table of an exact-handle type is free of duplicates, the handle that
-- hmcuda_res_get_handle gives for a pointer, unless it is 0, resolves to that pointer.
pub view-res_get_handle :
    (sid vid : ℕ) (type : ResourceType) (p : ℕ) (s : Backend)
    → by_range type ≡ false
    → IsTable type (resources_of sid vid type s)
    → (hmcuda_res_get_handle sid vid type p s).0 ≢ 0
    → view sid vid s type (hmcuda_res_get_handle sid vid type p s).0 ≡ p
unfolding view hmcuda_res_get hmcuda_res_get_handle
view-res_get_handle sid vid type p s exact t found = elim (Bool-cases (p == 0)) [
  | inl null ↦ absurd (found (rw null))
  | inr ptr ↦
      rw ptr (
        search_list-search_ptr type p _ (resources_of sid vid type s) exact t refl
          (rw ptr at found))
]
