-- ===== src/Binalloc/PageList.antt =====
-- `page_cache_bin` of benchmarks/binalloc/page_cache.cpp: a doubly linked list of page metas between
-- the sentinels `head` and `tail`.
pub mod Laws
pub mod Detach
use prototype_bundle.Prelude.{ℕ, ◌==◌, if◌then◌else◌}
use prototype_bundle.Binalloc.Stack.{nullptr}
use prototype_bundle.Binalloc.Memory.{Memory, store, link_next, page_prev}

-- The addresses of the two sentinels
pub record PageCacheBin : Type 0 where
  pub head : ℕ
  pub tail : ℕ

unfoldable pub detach : Memory → ℕ → Memory
detach m pmeta =
    let m1 = store m link_next (m page_prev pmeta) (m link_next pmeta) in
    store m1 page_prev (m1 link_next pmeta) (m1 page_prev pmeta)

unfoldable pub push_page : PageCacheBin → Memory → ℕ → Memory
push_page bin m pmeta =
    let m1 = store m link_next pmeta (m link_next bin.head) in
    let m2 = store m1 page_prev pmeta bin.head in
    let m3 = store m2 page_prev (m2 link_next pmeta) pmeta in
    store m3 link_next (m3 page_prev pmeta) pmeta

unfoldable pub pop_page : PageCacheBin → Memory → ℕ × Memory
pop_page bin m =
    let pmeta = m link_next bin.head in
    let m1 = store m link_next bin.head (m link_next pmeta) in
    let m2 = store m1 page_prev (m1 link_next pmeta) bin.head in
    if pmeta == bin.tail then (nullptr, m) else (pmeta, m2)
