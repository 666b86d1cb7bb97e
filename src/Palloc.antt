-- ===== src/Palloc.antt =====
-- The page allocator: pintos/src/threads/palloc.c. An address is a number below 2 ^ 32. A pool is
-- its bitmap and its base; a call is one step: allocation holds the pool's lock across the
-- bitmap operation, and release changes the bits without a lock.
-- `none` is a failed ASSERT or a PANIC; the null pointer is 0. What a page holds is not modelled,
-- so PAL_ZERO has no effect on the state.
pub mod OnePool
pub mod Laws
use sogang_pint_os.Common.{
  ℕ, ◌+◌, ◌-◌, ◌*◌, ◌/◌, ◌%◌, ◌^◌, ◌<◌, ◌≤◌, Bool, true, false, not, ◌&&◌, ◌||◌, Option, none, some,
  List, ltb, leb, ◌==◌, if◌then◌else◌,
}
use sogang_pint_os.Common.Panic.{◌>>=◌, ◌>>◌, assert}
use sogang_pint_os.Bitmap
use sogang_pint_os.Bitmap.{
  Bitmap, bitmap_error, bitmap_scan_and_flip, bitmap_set_multiple, bitmap_all, bitmap_buf_size,
  bitmap_create_in_buf,
}

-- PGSIZE
abbrev pub pg_size : ℕ
pg_size = 2 ^ 12

abbrev pub pg_ofs : ℕ → ℕ
pg_ofs va = va % pg_size

abbrev pub pg_no : ℕ → ℕ
pg_no va = va / pg_size

-- `struct pool`
pub record Pool : Type 0 where
  pub used_map : Bitmap
  pub base : ℕ

-- The two pools.
pub record Pools : Type 0 where
  pub kernel_pool : Pool
  pub user_pool : Pool

-- `enum palloc_flags`: PAL_ASSERT, PAL_ZERO, PAL_USER
pub record Flags : Type 0 where
  pub pal_assert : Bool
  pub pal_zero : Bool
  pub pal_user : Bool

-- `init_pool`: `words` is what the memory of the bitmap holds. Null if the pool is too small is a
-- PANIC in the code.
unfoldable init_pool : ℕ → ℕ → List ℕ → Option Pool
init_pool base page_cnt words = do
  let bm_pages = (bitmap_buf_size page_cnt + (pg_size - 1)) % 2 ^ 32 / pg_size
  assert (leb bm_pages page_cnt)
  used_map ← bitmap_create_in_buf (page_cnt - bm_pages) words (bm_pages * pg_size)
  some (record { used_map = used_map; base = base + bm_pages * pg_size })

-- How `palloc_init` divides the free pages: those of the kernel, those of the user.
pub split_pages : ℕ → ℕ → ℕ × ℕ
split_pages free_pages user_page_limit =
    let user_pages =
      if ltb user_page_limit (free_pages / 2) then user_page_limit else free_pages / 2 in
    (free_pages - user_pages, user_pages)

-- `palloc_init`, with the addresses of the free memory, which the loader gives.
unfoldable palloc_init : ℕ → ℕ → ℕ → List ℕ → List ℕ → Option Pools
unfolding split_pages
palloc_init free_start free_end user_page_limit kernel_words user_words = do
  let pages = split_pages ((free_end - free_start) / pg_size) user_page_limit
  kernel_pool ← init_pool free_start pages.0 kernel_words
  user_pool ← init_pool (free_start + pages.0 * pg_size) pages.1 user_words
  some (record { kernel_pool = kernel_pool; user_pool = user_pool })

-- `page_from_pool`
pub page_from_pool : Pool → ℕ → Bool
page_from_pool pool page =
    leb (pg_no pool.base) (pg_no page) && ltb (pg_no page) (pg_no pool.base + pool.used_map.bit_cnt)

-- The part of `palloc_get_multiple` that works on the chosen pool.
pub get_from_pool : Pool → ℕ → Option (ℕ × Pool)
get_from_pool pool page_cnt = do
  (page_idx, used_map) ← bitmap_scan_and_flip pool.used_map 0 page_cnt false
  some (
    if page_idx == bitmap_error then 0 else pool.base + pg_size * page_idx,
    record pool { used_map = used_map },
  )

abbrev pub pool_of : Pools → Bool → Pool
pool_of s user = if user then s.user_pool else s.kernel_pool

abbrev pub put_pool : Pools → Bool → Pool → Pools
put_pool s true pool = record s { user_pool = pool }
put_pool s false pool = record s { kernel_pool = pool }

pub palloc_get_multiple : Flags → ℕ → Pools → Option (ℕ × Pools)
unfolding get_from_pool
palloc_get_multiple flags page_cnt s = if page_cnt == 0 then some (0, s) else (do
  (pages, pool) ← get_from_pool (pool_of s flags.pal_user) page_cnt
  assert (not (pages == 0 && flags.pal_assert))
  some (pages, put_pool s flags.pal_user pool))

unfoldable pub palloc_get_page : Flags → Pools → Option (ℕ × Pools)
palloc_get_page flags s = palloc_get_multiple flags 1 s

-- The part of `palloc_free_multiple` that works on the pool of the pages.
pub free_in_pool : Pool → ℕ → ℕ → Option Pool
free_in_pool pool pages page_cnt = do
  let page_idx = pg_no pages - pg_no pool.base
  used ← bitmap_all pool.used_map page_idx page_cnt
  assert used
  used_map ← bitmap_set_multiple pool.used_map page_idx page_cnt false
  some (record pool { used_map = used_map })

pub palloc_free_multiple : ℕ → ℕ → Pools → Option Pools
unfolding free_in_pool
palloc_free_multiple pages page_cnt s = do
  assert (pg_ofs pages == 0)
  if pages == 0 || page_cnt == 0
      then some s
      else if page_from_pool s.kernel_pool pages
      then (do pool ← free_in_pool s.kernel_pool pages page_cnt; some (put_pool s false pool))
      else if page_from_pool s.user_pool pages
      then (do pool ← free_in_pool s.user_pool pages page_cnt; some (put_pool s true pool))
      else none

unfoldable pub palloc_free_page : ℕ → Pools → Option Pools
palloc_free_page page s = palloc_free_multiple page 1 s
