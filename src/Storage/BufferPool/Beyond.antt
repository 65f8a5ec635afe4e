-- ===== src/Storage/BufferPool/Beyond.antt =====
-- `GetPage` behind the last page of a table (komfydb/storage/buffer_pool.cc, heap_file.cc).
use komfy_db.Base.{ℕ, ◌≤◌, ◌<◌, ◌≡◌, ap, sym, ◌∙◌, inl, inr, some, arith, Option-cases}
use komfy_db.Base.Maps.{lookup}
use komfy_db.Base.State.{after, ◌>>=◌}
use komfy_db.Base.Status.{StatusOr, err, or_err, invalid_argument, out_of_range}
use komfy_db.Storage.Catalog.{get_database_file}
use komfy_db.Storage.HeapFile.{HeapFile, page_pos, read_page, read_checked, check_page}
use komfy_db.Storage.HeapPage.{HeapPage}
use komfy_db.Storage.Ids.{PageId, page_eq}
use komfy_db.Storage.BufferPool.{
  BufferPool, with_file, on_file, database_file, admit, read_in, get_found, get_page,
}
use komfy_db.Storage.BufferPool.Sound.{IsSound}
use komfy_db.Storage.BufferPool.Coherent.{file_of, IsCoherent}
use komfy_db.Storage.BufferPool.Room.{same_file, make_room-Keeps}

check_page_beyond :
    (f : HeapFile) (pid : PageId)
    → pid.table_id ≡ f.table_id
    → f.file_length ≤ page_pos pid
    → check_page f pid ≡ err out_of_range
unfolding check_page
check_page_beyond f pid same h = ground arith

-- A page behind the last one is out of range.
pub get_page_beyond :
    (max : ℕ) (p : BufferPool) (pid : PageId) (f : HeapFile)
    → max ≤ 128
    → IsSound p
    → IsCoherent max p
    → 0 < p.pages_cnt
    → file_of p pid.table_id ≡ some f
    → f.file_length ≤ page_pos pid
    → (p' : BufferPool) × (get_page pid p ≡ (p', err out_of_range))
unfolding get_page get_database_file on_file read_page
get_page_beyond max p pid f small s c h ff beyond =
    elim (Option-cases (lookup page_eq pid p.page_pool)) [
      | inr (page, found) ↦
          let (g, fg, held) = c.held pid page found in
          absurd (
            omega (
              arith,
              held.inside,
              ap (λ (u : HeapFile). u.file_length) (same_file p pid.table_id f g ff fg),
            ))
      | inl absent ↦
          let (q, made, k, r) = make_room-Keeps max p small s c h in
          let (f', ff', len) = k.same_files pid.table_id f ff in
          let own = (k.coherent.files pid.table_id f' ff').own in
          (
            with_file q f',
            ap (get_found pid p) absent
                ∙ ap
                    (λ (m : BufferPool × StatusOr (Unit {0})).
                      after (λ _. database_file pid.table_id >>= read_in pid) m.0 m.1)
                    made
                ∙ ap (λ o. after (read_in pid) q (or_err o invalid_argument)) ff'
                ∙ ap (λ (m : HeapFile × StatusOr HeapPage). after (admit pid) (with_file q m.0) m.1)
                    (ap (read_checked f' pid)
                      (check_page_beyond f' pid (sym own) (omega (arith, beyond, len)))),
          )
    ]
