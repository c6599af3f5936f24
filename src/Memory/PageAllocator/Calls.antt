-- ===== src/Memory/PageAllocator/Calls.antt =====
-- Sequences of calls of kernel/src/memory_management/physical_page_allocator.rs by callers that only
-- free pages that they were given and have not freed since, as `free` asks of them.
use emerald.Prelude.{
  ℕ, ◌≡◌, ◌≢◌, sym, ap, ◌∙◌, true, List, [], ◌∷◌, ◌++◌, append_assoc, arith, Outcome, ok,
}
use mathlib.Core.Path.{subst}
use emerald.Memory.Layout.{is_aligned}
use emerald.Memory.PageAllocator.{filled, write, Allocator, alloc, alloc_zeroed, free}
use emerald.Memory.PageAllocator.FreeList.{
  Chain-write, Fresh, Distinct, IsPage, IsValid, free-IsValid, alloc-IsValid, alloc_empty,
}

Fresh-middle : (x p : ℕ) (xs zs : List ℕ) → Fresh x (xs ++ (p ∷ zs)) → (p ≢ x) × Fresh x (xs ++ zs)
Fresh-middle x p [] zs f = f
Fresh-middle x p (y ∷ xs) zs f = let (n, g) = Fresh-middle x p xs zs f.1 in (n, (f.0, g))

middle-Fresh : (x p : ℕ) (xs zs : List ℕ) → p ≢ x → Fresh x (xs ++ zs) → Fresh x (xs ++ (p ∷ zs))
middle-Fresh x p [] zs n f = (n, f)
middle-Fresh x p (y ∷ xs) zs n f = (f.0, middle-Fresh x p xs zs n f.1)

Distinct-out :
    (p : ℕ) (xs zs : List ℕ) → Distinct (xs ++ (p ∷ zs)) → Fresh p (xs ++ zs) × Distinct (xs ++ zs)
Distinct-out p [] zs d = d
Distinct-out p (x ∷ xs) zs d =
    let (n, f) = Fresh-middle x p xs zs d.0 in
    let (g, e) = Distinct-out p xs zs d.1 in ((λ q. n (sym q), g), (f, e))

Distinct-in :
    (p : ℕ) (xs zs : List ℕ) → Fresh p (xs ++ zs) → Distinct (xs ++ zs) → Distinct (xs ++ (p ∷ zs))
Distinct-in p [] zs f d = (f, d)
Distinct-in p (x ∷ xs) zs f d =
    (middle-Fresh x p xs zs (λ q. f.0 (sym q)) d.0, Distinct-in p xs zs f.1 d.1)

Fresh-suffix : (p : ℕ) (xs zs : List ℕ) → Fresh p (xs ++ zs) → Fresh p zs
Fresh-suffix p [] zs f = f
Fresh-suffix p (x ∷ xs) zs f = Fresh-suffix p xs zs f.1

-- The allocator, and the pages that its callers hold.
pub record System : Type 0 where
  pub allocator : Allocator
  pub held : List ℕ

pub data Step (s : System) : System → Type 0 where
  allocated :
      {page : ℕ} {a : Allocator}
      → alloc s.allocator ≡ ok (page, a)
      → Step s (record { allocator = a; held = page ∷ s.held })
  zeroed :
      {page : ℕ} {a : Allocator}
      → alloc_zeroed s.allocator ≡ ok (page, a)
      → Step s (record { allocator = a; held = page ∷ s.held })
  freed :
      (before after : List ℕ) (page : ℕ) {a : Allocator}
      → s.held ≡ before ++ (page ∷ after)
      → free s.allocator page ≡ ok (true, a)
      → Step s (record { allocator = a; held = before ++ after })

-- No page is held twice, or held and free at once.
pub record IsSafe (s : System) : Type 0 where
  pub free_pages : List ℕ
  pub valid : IsValid s.allocator free_pages
  pub apart : Distinct (s.held ++ free_pages)

alloc-chain :
    (s : Allocator) (pages : List ℕ) {page : ℕ} {a : Allocator}
    → IsValid s pages
    → alloc s ≡ ok (page, a)
    → (rest : List ℕ) × (pages ≡ page ∷ rest) × IsValid a rest × Fresh page rest
alloc-chain s [] v e = cc (alloc_empty s v)
alloc-chain s (p ∷ ps) {page} {a} v e =
    let (s', e', v', _, f, _) = alloc-IsValid s p ps v in
    let same : s' ≡ a = cc e' in
    let page_same : p ≡ page = cc e' in
    (
      ps,
      ap (λ q. q ∷ ps) page_same,
      subst (λ b. IsValid b ps) same v',
      subst (λ q. Fresh q ps) page_same f,
    )

alloc_zeroed-chain :
    (s : Allocator) (pages : List ℕ) {page : ℕ} {a : Allocator}
    → IsValid s pages
    → alloc_zeroed s ≡ ok (page, a)
    → (rest : List ℕ) × (pages ≡ page ∷ rest) × IsValid a rest × Fresh page rest
unfolding alloc_zeroed
alloc_zeroed-chain s [] v e = cc (rw (alloc_empty s v) at e)
alloc_zeroed-chain s (p ∷ ps) {page} {a} v e =
    let (s', e', v', _, f, _) = alloc-IsValid s p ps v in
    let result : ◌≡◌ {A = Outcome (ℕ × Allocator)}
        (ok (p, record s' { mem = write s'.mem p (filled 0) })) (ok (page, a)) =
      rw e' at e in
    let same : record s' { mem = write s'.mem p (filled 0) } ≡ a = cc in
    let page_same : p ≡ page = cc in
    (
      ps,
      ap (λ q. q ∷ ps) page_same,
      subst (λ b. IsValid b ps) same
          (record {
            chain = Chain-write s'.mem p (filled 0) s'.head ps f v'.chain;
            distinct = v'.distinct;
            in_range = v'.in_range;
            counted = v'.counted;
          }),
      subst (λ q. Fresh q ps) page_same f,
    )

-- `free` accepts only pages in range.
free_true : (s : Allocator) (page : ℕ) {a : Allocator} → free s page ≡ ok (true, a) → IsPage s page
unfolding free is_aligned
free_true s page e = ground (arith, e)

given :
    (s : System) (page : ℕ) (a : Allocator) (safe : IsSafe s)
    → ((rest : List ℕ) × (safe.free_pages ≡ page ∷ rest) × IsValid a rest × Fresh page rest)
    → IsSafe (record { allocator = a; held = page ∷ s.held })
given s page a safe (rest, e, v, f) = record {
  free_pages = rest;
  valid = v;
  apart = Distinct-out page s.held rest (subst (λ l. Distinct (s.held ++ l)) e safe.apart);
}

returned :
    (s : System) (before after : List ℕ) (page : ℕ) {a : Allocator}
    → s.held ≡ before ++ (page ∷ after)
    → free s.allocator page ≡ ok (true, a)
    → IsSafe s
    → IsSafe (record { allocator = a; held = before ++ after })
returned s before after page {a} e f safe =
    let free_pages = safe.free_pages in
    let all_apart : Distinct (before ++ (page ∷ (after ++ free_pages))) =
      subst Distinct (ap (λ l. l ++ free_pages) e ∙ append_assoc before (page ∷ after) free_pages)
        safe.apart in
    let (fresh, apart) = Distinct-out page before (after ++ free_pages) all_apart in
    let regroup : before ++ (after ++ free_pages) ≡ (before ++ after) ++ free_pages =
      sym (append_assoc before after free_pages) in
    let fresh' : Fresh page ((before ++ after) ++ free_pages) = subst (Fresh page) regroup fresh in
    let (b, e', v) =
      free-IsValid s.allocator free_pages page safe.valid (free_true s.allocator page f)
        (Fresh-suffix page (before ++ after) free_pages fresh') in
    let same : b ≡ a = cc e' in
    record {
      free_pages = page ∷ free_pages;
      valid = subst (λ x. IsValid x (page ∷ free_pages)) same v;
      apart = Distinct-in page (before ++ after) free_pages fresh' (subst Distinct regroup apart);
    }

-- Every call keeps every page with one owner: no page is held twice, and none is held and free.
pub Step-IsSafe : {s t : System} → Step s t → IsSafe s → IsSafe t
Step-IsSafe {s} (allocated {page = page} {a = a} e) safe =
    given s page a safe (alloc-chain s.allocator safe.free_pages safe.valid e)
Step-IsSafe {s} (zeroed {page = page} {a = a} e) safe =
    given s page a safe (alloc_zeroed-chain s.allocator safe.free_pages safe.valid e)
Step-IsSafe {s} (freed before after page e f) safe = returned s before after page e f safe

pub data Reach (s : System) : System → Type 0 where
  here : Reach s s
  next : {t u : System} → Reach s t → Step t u → Reach s u

-- From a state in which the free pages and the held ones are distinct and the free list is valid, every
-- sequence of calls of `alloc`, `alloc_zeroed` and `free`, in which callers free only pages that they
-- hold, leads to one: no page that a caller holds is handed out again.
pub Reach-IsSafe : {s t : System} → Reach s t → IsSafe s → IsSafe t
Reach-IsSafe here safe = safe
Reach-IsSafe (next r st) safe = Step-IsSafe st (Reach-IsSafe r safe)
