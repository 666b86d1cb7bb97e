-- ===== src/FileSys/FreeMap.antt =====
-- The map of free sectors: pintos/src/filesys/free-map.c. The file that keeps the map on the disk is
-- outside of the model: `written` is what `bitmap_write` to it returns, and `none` says that the file is
-- not open yet. The outer `none` of a result is a failed ASSERT or a PANIC.
pub mod Laws
use sogang_pint_os.Common.{ℕ, Bool, true, false, not, Option, none, some, List, ◌==◌, if◌then◌else◌}
use sogang_pint_os.Common.Panic.{◌>>=◌, ◌>>◌, assert}
use sogang_pint_os.Bitmap.{
  Bitmap, bitmap_create, bitmap_mark, bitmap_error, bitmap_scan_and_flip, bitmap_set_multiple,
  bitmap_all,
}

-- FREE_MAP_SECTOR and ROOT_DIR_SECTOR
abbrev pub free_map_sector : ℕ
free_map_sector = 0

abbrev pub root_dir_sector : ℕ
root_dir_sector = 1

-- `free_map_init`, for a device of `size` sectors and what the allocator gives.
unfoldable free_map_init : ℕ → Bool → Option (List ℕ) → Option Bitmap
free_map_init size no_struct words = do
  created ← bitmap_create size no_struct words
  free_map ← created
  some (bitmap_mark (bitmap_mark free_map free_map_sector) root_dir_sector)

-- `written` of a file that may not be open.
abbrev pub write_failed : Option Bool → Bool
write_failed none = false
write_failed (some written) = not written

-- `free_map_allocate`: the first of `cnt` sectors, or `none` for false.
pub free_map_allocate : Option Bool → ℕ → Bitmap → Option (Option ℕ × Bitmap)
free_map_allocate written cnt free_map = do
  (sector, taken) ← bitmap_scan_and_flip free_map 0 cnt false
  if sector == bitmap_error
      then some (none, taken)
      else if write_failed written
      then (do restored ← bitmap_set_multiple taken sector cnt false; some (none, restored))
      else some (some sector, taken)

-- `free_map_release`
pub free_map_release : ℕ → ℕ → Bitmap → Option Bitmap
free_map_release sector cnt free_map = do
  used ← bitmap_all free_map sector cnt
  assert used
  bitmap_set_multiple free_map sector cnt false
