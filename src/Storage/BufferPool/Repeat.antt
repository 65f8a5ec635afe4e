-- ===== src/Storage/BufferPool/Repeat.antt =====
-- Getting one page twice (komfydb/storage/buffer_pool.cc).
use mathlib.Core.Path.{subst}
use komfy_db.Base.{◌≡◌, refl, sym, ◌∙◌, ap, List, ◌∷◌, Option, none, some}
use komfy_db.Base.Maps.{lookup, lookup-insert}
use komfy_db.Base.State.{State, ◌>>=◌, after}
use komfy_db.Base.Status.{StatusOr, ok, err, fault, no_fuel}
use komfy_db.Storage.BufferPool.{
  BufferPool, get_page, erase_node, admit, touched, get_found, miss, make_room, database_file,
  on_file,
}
use komfy_db.Storage.HeapPage.{HeapPage}
use komfy_db.Storage.HeapFile.{HeapFile, read_page}
use komfy_db.Storage.Ids.{PageId, page_eq, page_eq_iff}

-- the page is in the pool and in front of `lru`
record IsFront (pid : PageId) (page : HeapPage) (p : BufferPool) : Type 0 where
  found : lookup page_eq pid p.page_pool ≡ some page
  rest : List PageId
  front : p.lru ≡ pid ∷ rest

-- the same of a call that may have failed
abbrev Fronts : PageId → BufferPool → StatusOr HeapPage → Type 0
Fronts pid p (ok page) = IsFront pid page p
Fronts pid p other = Unit

after-Fronts :
    {A : Type 0} (pid : PageId) (f : A → State BufferPool HeapPage) (s : BufferPool)
    (r : StatusOr A)
    → ((a : A) (s' : BufferPool) → Fronts pid (f a s').0 (f a s').1)
    → Fronts pid (after f s r).0 (after f s r).1
after-Fronts pid f s (ok a) h = h a s
after-Fronts pid f s (err c) h = tt
after-Fronts pid f s fault h = tt
after-Fronts pid f s no_fuel h = tt

admit-Fronts :
    (pid : PageId) (page : HeapPage) (p : BufferPool)
    → Fronts pid (admit pid page p).0 (admit pid page p).1
admit-Fronts pid page p = record {
  found =
      lookup-insert page_eq page_eq_iff pid pid page p.page_pool
      ∙ rw ((page_eq_iff pid pid).1 refl) refl;
  rest = p.lru;
  front = refl;
}

miss-Fronts : (pid : PageId) (p : BufferPool) → Fronts pid (miss pid p).0 (miss pid p).1
miss-Fronts pid p =
    after-Fronts pid (λ _. database_file pid.table_id >>= of_file) (make_room p).0 (make_room p).1
      (λ _ s1.
        after-Fronts pid of_file (database_file pid.table_id s1).0 (database_file pid.table_id s1).1
          (λ file s2.
            after-Fronts pid (admit pid) (on_file file (λ f. read_page f pid) s2).0
              (on_file file (λ f. read_page f pid) s2).1 (admit-Fronts pid)))
  where
    of_file : HeapFile → State BufferPool HeapPage
    of_file file = on_file file (λ f. read_page f pid) >>= admit pid

touch-Fronts :
    (pid : PageId) (page : HeapPage) (p : BufferPool) (node : Option (List PageId))
    → lookup page_eq pid p.page_pool ≡ some page
    → Fronts pid (touched pid page p node).0 (touched pid page p node).1
touch-Fronts pid page p none found = tt
touch-Fronts pid page p (some rest) found = record { found = found; rest = rest; front = refl }

get-Fronts :
    (pid : PageId) (p : BufferPool) (found : Option HeapPage)
    → lookup page_eq pid p.page_pool ≡ found
    → Fronts pid (get_found pid p found).0 (get_found pid p found).1
get-Fronts pid p none e = miss-Fronts pid p
get-Fronts pid p (some page) e = touch-Fronts pid page p (erase_node pid p.lru) e

get_page-Fronts : (pid : PageId) (p : BufferPool) → Fronts pid (get_page pid p).0 (get_page pid p).1
unfolding get_page
get_page-Fronts pid p = get-Fronts pid p (lookup page_eq pid p.page_pool) refl

erase_node-front : (pid : PageId) (rest : List PageId) → erase_node pid (pid ∷ rest) ≡ some rest
unfolding erase_node
erase_node-front pid rest = rw ((page_eq_iff pid pid).1 refl) refl

get_page-front :
    (pid : PageId) (page : HeapPage) (p : BufferPool)
    → IsFront pid page p
    → get_page pid p ≡ (p, ok page)
unfolding get_page
get_page-front pid page p f =
    ap (get_found pid p) f.found
    ∙ ap (touched pid page p) (ap (erase_node pid) f.front ∙ erase_node-front pid f.rest)
    ∙ ap (λ l. (record p { lru = l }, ok page)) (sym f.front)

-- Where getting a page succeeds, getting it again gives the same page and leaves the pool, its
-- files included, as it is.
pub get_page_again :
    (pid : PageId) (p p' : BufferPool) (page : HeapPage)
    → get_page pid p ≡ (p', ok page)
    → get_page pid p' ≡ (p', ok page)
get_page_again pid p p' page h =
    get_page-front pid page p' (subst (λ r. Fronts pid r.0 r.1) h (get_page-Fronts pid p))
