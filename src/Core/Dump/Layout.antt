-- ===== src/Core/Dump/Layout.antt =====
-- `struct dump_header` of core/dump.c and its bytes in memory, as the x86-64 ABI lays it out:
-- little-endian fields at their aligned offsets, 24 bytes for each of the 64 areas, and the
-- whole padded to 2048 bytes, which is four sectors.
pub mod RoundTrip
use switch_os.Base.{ℕ, ◌+◌, ◌-◌, ◌*◌, ◌/◌, ◌%◌, ltb, if◌then◌else◌}
use switch_os.Base.Bytes.{Bytes, load32, load64, byte_of, in_range}

-- `struct disk_mem_area`, whose `area` is flattened.
pub record DiskMemArea : Type 0 where
  pub start : ℕ
  pub size : ℕ
  pub sector : ℕ

pub record DumpHeader : Type 0 where
  pub magic : ℕ
  pub waking_vector : ℕ
  pub areas_size : ℕ
  pub areas : ℕ → DiskMemArea

-- `sizeof(struct dump_header)`
abbrev pub header_size : ℕ
header_size = 2048

-- Byte `o` of an area; padding keeps what was there.
unfoldable pub area_byte : DiskMemArea → ℕ → ℕ → ℕ
area_byte a o old =
    if ltb o 8
    then byte_of a.start o
    else if ltb o 16
    then byte_of a.size (o - 8)
    else if ltb o 20
    then byte_of a.sector (o - 16)
    else old

unfoldable pub header_byte : DumpHeader → ℕ → ℕ → ℕ
header_byte h o old =
    if ltb o 4
    then byte_of h.magic o
    else if ltb o 8
    then byte_of h.waking_vector (o - 4)
    else if ltb o 12
    then byte_of h.areas_size (o - 8)
    else if ltb o 16
    then old
    else if ltb o 1552
    then area_byte (h.areas ((o - 16) / 24)) ((o - 16) % 24) old
    else old

-- The struct stored at an address, and read back from one.
unfoldable pub put_header : DumpHeader → ℕ → Bytes → Bytes
put_header h at m x = if in_range at header_size x then header_byte h (x - at) (m x) else m x

unfoldable pub get_area : ℕ → Bytes → ℕ → DiskMemArea
get_area at m i = record {
  start = load64 m (at + 16 + 24 * i);
  size = load64 m (at + 24 + 24 * i);
  sector = load32 m (at + 32 + 24 * i);
}

unfoldable pub get_header : ℕ → Bytes → DumpHeader
get_header at m = record {
  magic = load32 m at;
  waking_vector = load32 m (at + 4);
  areas_size = load32 m (at + 8);
  areas = get_area at m;
}
