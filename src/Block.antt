-- ===== src/Block.antt =====
-- Block devices: `check_sector`, `block_read` and `block_write` of pintos/src/devices/block.c. A
-- driver, behind `struct block_operations`, is taken to store what is written to a sector and to read
-- it back; `none` is a PANIC or a failed ASSERT.
use sogang_pint_os.Common.{
  ℕ, ◌+◌, ◌<◌, ◌≡◌, Bool, false, not, Option, some, List, ltb, ◌==◌, if◌then◌else◌, lt→ltb,
}
use sogang_pint_os.Common.Panic.{◌>>◌, assert}

-- BLOCK_SECTOR_SIZE
abbrev pub block_sector_size : ℕ
block_sector_size = 512

-- The bytes of a sector.
abbrev pub Sector : Type 0
Sector = List ℕ

-- `struct block`, with the contents of its sectors.
pub record Block : Type 0 where
  pub size : ℕ
  pub foreign : Bool
  pub sectors : ℕ → Sector
  pub read_cnt : ℕ
  pub write_cnt : ℕ

pub check_sector : Block → ℕ → Option (Unit {0})
check_sector block sector = assert (ltb sector block.size)

pub block_read : Block → ℕ → Option (Sector × Block)
unfolding check_sector
block_read block sector = do
  check_sector block sector
  some (block.sectors sector, record block { read_cnt = block.read_cnt + 1 })

pub block_write : Block → ℕ → Sector → Option Block
unfolding check_sector
block_write block sector buffer = do
  check_sector block sector
  assert (not block.foreign)
  some (record block {
    sectors = λ s. if sector == s then buffer else block.sectors s;
    write_cnt = block.write_cnt + 1;
  })

pub block_read_lem :
    (block : Block) (sector : ℕ)
    → sector < block.size
    → block_read block sector
      ≡ some (block.sectors sector, record block { read_cnt = block.read_cnt + 1 })
unfolding block_read
block_read_lem block sector h = rw (lt→ltb sector block.size h)

pub block_write_lem :
    (block : Block) (sector : ℕ) (buffer : Sector)
    → sector < block.size
    → block.foreign ≡ false
    → block_write block sector buffer
      ≡ some (record block {
        sectors = λ s. if sector == s then buffer else block.sectors s;
        write_cnt = block.write_cnt + 1;
      })
unfolding block_write
block_write_lem block sector buffer h own = rw (lt→ltb sector block.size h, own)
