-- ===== src/Dos/Disk.antt =====
-- host-gcc/bios/bios-disk.c: how a track and a sector share a register.
use libi.Base.{ℕ, ◌+◌, ◌*◌, ◌/◌, ◌%◌, ◌^◌, ◌<◌, ◌≡◌, ◌&&◌, ◌||◌, arith}
use libi.Base.{◌==◌, if◌then◌else◌}

-- `struct diskinfo_t`, with the buffer as a segment and an offset.
pub record DiskInfo : Type 0 where
  pub drive : ℕ
  pub head : ℕ
  pub track : ℕ
  pub sector : ℕ
  pub nsectors : ℕ
  pub buffer_seg : ℕ
  pub buffer_off : ℕ

pub record Regs : Type 0 where
  pub ax : ℕ
  pub bx : ℕ
  pub ch : ℕ
  pub cl : ℕ
  pub dh : ℕ
  pub dl : ℕ
  pub es : ℕ
  pub di : ℕ

-- `a | b` of two bits.
unfoldable pub or_bit : ℕ → ℕ → ℕ
or_bit a b = if a == 0 && b == 0 then 0 else 1

-- `sector | ((uint8_t) (track >> 2) & 0xc0)`; the lower six bits are those of the sector.
unfoldable pub pack_cl : ℕ → ℕ → ℕ
unfolding or_bit
pack_cl track sector =
    or_bit (sector / 128 % 2) (track / 512 % 2) * 128
    + (or_bit (sector / 64 % 2) (track / 256 % 2) * 64 + sector % 64)

-- The registers for a service on sectors; for a verification ES and BX may be anything.
unfoldable pub sector_regs : ℕ → DiskInfo → Regs
unfolding pack_cl
sector_regs service info = record {
  ax = service * 256 % 2 ^ 16 + info.nsectors % 256;
  bx = info.buffer_off;
  ch = info.track % 256;
  cl = pack_cl info.track info.sector;
  dh = info.head % 256;
  dl = info.drive % 256;
  es = info.buffer_seg;
  di = 0;
}

-- The registers for a service on the drive; for a reset ES and DI may be anything.
unfoldable pub drive_regs : ℕ → DiskInfo → Regs
drive_regs service info = record {
  ax = service * 256 % 2 ^ 16;
  bx = 0;
  ch = 0;
  cl = 0;
  dh = 0;
  dl = info.drive % 256;
  es = 0;
  di = 0;
}

-- What `_DISK_DRIVEPARAMS` reads out.
unfoldable pub drive_params : Regs → DiskInfo → DiskInfo
drive_params r info = record info {
  buffer_seg = r.es;
  buffer_off = r.di;
  head = r.dh;
  track = r.ch + r.cl / 64 % 4 * 256;
  sector = r.cl % 64;
  drive = r.dl;
}

-- `_bios_disk` with interrupt 13h, which puts 0 in AH unless it fails: AX, and `*diskinfo`.
unfoldable pub bios_disk : (Regs → Regs) → ℕ → DiskInfo → ℕ × DiskInfo
unfolding sector_regs drive_regs drive_params
bios_disk int_13 service info =
    let params = int_13 (drive_regs service info) in
    if service == 0 || service == 1
    then (params.ax, info)
    else if service == 8
    then (params.ax, drive_params params info)
    else ((int_13 (sector_regs service info)).ax, info)

-- A track below 1024 and a sector below 64, as `_bios_disk` puts them into registers for sectors,
-- are those that it reads from such registers for the parameters of a drive, with the head and the
-- drive.
drive_params-sector_regs :
    (service : ℕ) (info other : DiskInfo)
    → info.track < 1024
    → info.sector < 64
    → info.head < 256
    → info.drive < 256
    → let read = drive_params (sector_regs service info) other in
      (read.track ≡ info.track)
      × ((read.sector ≡ info.sector) × ((read.head ≡ info.head) × (read.drive ≡ info.drive)))
unfolding drive_params sector_regs
drive_params-sector_regs service info other ht hs hh hd =
    (ground (arith, ht, hs), (ground (arith, hs), (omega (arith, hh), omega (arith, hd))))
