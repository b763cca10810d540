-- ===== src/Core/Dump/Layout/RoundTrip.antt =====
-- A dump header that is stored in memory is read back unchanged.
use switch_os.Base.{ℕ, ◌+◌, ◌-◌, ◌*◌, ◌/◌, ◌%◌, ◌^◌, ◌<◌, ◌≡◌, arith, ap, sym, ◌∙◌}
use native.Mathlib.Nat.{add_assoc}
use switch_os.Base.Bytes.{Bytes, load32, load64, byte_of, Outside, IsBytes, byte_of-lt}
use switch_os.Core.Header.{max_ram_areas}
use switch_os.Core.Dump.Layout.{
  DiskMemArea, DumpHeader, header_size, area_byte, header_byte, put_header, get_area, get_header,
}

word32 :
    (v : ℕ)
    → v < 2 ^ 32
    → byte_of v 0 + 2 ^ 8 * byte_of v 1 + 2 ^ 16 * byte_of v 2 + 2 ^ 24 * byte_of v 3 ≡ v
unfolding byte_of
word32 v h = omega arith

word64 :
    (v : ℕ)
    → v < 2 ^ 64
    → byte_of v 0
        + 2 ^ 8 * byte_of v 1
        + 2 ^ 16 * byte_of v 2
        + 2 ^ 24 * byte_of v 3
        + 2 ^ 32 * (byte_of v 4 + 2 ^ 8 * byte_of v 5 + 2 ^ 16 * byte_of v 6 + 2 ^ 24 * byte_of v 7)
      ≡ v
unfolding byte_of
word64 v h = omega arith

module _ (h : DumpHeader) (at : ℕ) (m : Bytes) where
  pub put_header-IsBytes : IsBytes m → IsBytes (put_header h at m)
  unfolding put_header header_byte area_byte
  put_header-IsBytes small x =
      let o = x - at in
      let a = h.areas ((o - 16) / 24) in
      let r = (o - 16) % 24 in
      ground (
        arith,
        small x,
        byte_of-lt h.magic o,
        byte_of-lt h.waking_vector (o - 4),
        byte_of-lt h.areas_size (o - 8),
        byte_of-lt a.start r,
        byte_of-lt a.size (r - 8),
        byte_of-lt a.sector (r - 16),
      )

  put_header-byte :
      (o : ℕ) → o < header_size → put_header h at m (at + o) ≡ header_byte h o (m (at + o))
  unfolding put_header
  put_header-byte o p = ground arith

  pub put_header-Outside : (x : ℕ) → Outside at header_size x → put_header h at m x ≡ m x
  unfolding put_header
  put_header-Outside x o = ground arith

-- Words whose bytes are known.
add_zero : (a : ℕ) → a + 0 ≡ a
add_zero a = omega arith

module _ (m : Bytes) (a v : ℕ) where
  load32_bytes : v < 2 ^ 32 → ((o : ℕ) → o < 4 → m (a + o) ≡ byte_of v o) → load32 m a ≡ v
  load32_bytes small at = omega (
    arith,
    word32 v small,
    at 0 (omega arith),
    at 1 (omega arith),
    at 2 (omega arith),
    at 3 (omega arith),
    ap m (add_zero a),
  )

  load64_bytes : v < 2 ^ 64 → ((o : ℕ) → o < 8 → m (a + o) ≡ byte_of v o) → load64 m a ≡ v
  load64_bytes small at = omega (
    arith,
    word64 v small,
    at 0 (omega arith),
    at 1 (omega arith),
    at 2 (omega arith),
    at 3 (omega arith),
    at 4 (omega arith),
    at 5 (omega arith),
    at 6 (omega arith),
    at 7 (omega arith),
    ap m (add_zero a),
    ap m (add_assoc a 4 1),
    ap m (add_assoc a 4 2),
    ap m (add_assoc a 4 3),
  )

-- The fields of every header that fit their words.
pub record Fits (h : DumpHeader) : Type 0 where
  pub magic : h.magic < 2 ^ 32
  pub waking_vector : h.waking_vector < 2 ^ 32
  pub areas_size : h.areas_size < 2 ^ 32
  pub area :
      (i : ℕ)
      → i < h.areas_size
      → ((h.areas i).start < 2 ^ 64) × ((h.areas i).size < 2 ^ 64) × ((h.areas i).sector < 2 ^ 32)

-- Two headers with the same scalar fields, and the same areas as far as they are used.
pub record Same (h k : DumpHeader) : Type 0 where
  pub magic : h.magic ≡ k.magic
  pub waking_vector : h.waking_vector ≡ k.waking_vector
  pub areas_size : h.areas_size ≡ k.areas_size
  pub area : (i : ℕ) → i < k.areas_size → h.areas i ≡ k.areas i

pub DiskMemArea_eq :
    {a b : DiskMemArea} → a.start ≡ b.start → a.size ≡ b.size → a.sector ≡ b.sector → a ≡ b
DiskMemArea_eq p q r = λ i. record { start = p i; size = q i; sector = r i }

module _ (h : DumpHeader) (at : ℕ) (m : Bytes) where
  word_at :
      (b v : ℕ)
      → v < 2 ^ 32
      → ((o : ℕ)
          → o < 4
          → (b + o < header_size) × (header_byte h (b + o) (m (at + (b + o))) ≡ byte_of v o))
      → load32 (put_header h at m) (at + b) ≡ v
  word_at b v small e = load32_bytes (put_header h at m) (at + b) v small (λ o p.
      ap (put_header h at m) (add_assoc at b o)
      ∙ put_header-byte h at m (b + o) (e o p).0
      ∙ (e o p).1)

  header_byte-area :
      (i r : ℕ) (old : ℕ)
      → i < max_ram_areas
      → r < 24
      → header_byte h (16 + 24 * i + r) old ≡ area_byte (h.areas i) r old
  unfolding header_byte
  header_byte-area i r old p q =
      let e : (16 + 24 * i + r - 16) / 24 ≡ i = omega arith in
      let f : (16 + 24 * i + r - 16) % 24 ≡ r = omega arith in ground (arith, e, f)

  put_header-area :
      (i r : ℕ)
      → i < max_ram_areas
      → r < 24
      → put_header h at m (at + (16 + 24 * i + r))
        ≡ area_byte (h.areas i) r (m (at + (16 + 24 * i + r)))
  put_header-area i r p q =
      put_header-byte h at m (16 + 24 * i + r) (omega arith) ∙ header_byte-area i r _ p q

  get-put_area :
      (i : ℕ)
      → i < max_ram_areas
      → (h.areas i).start < 2 ^ 64
      → (h.areas i).size < 2 ^ 64
      → (h.areas i).sector < 2 ^ 32
      → get_area at (put_header h at m) i ≡ h.areas i
  unfolding get_area area_byte
  get-put_area i p a b c =
      DiskMemArea_eq
        (load64_bytes m' (at + 16 + 24 * i) (h.areas i).start a
          (λ o q. byte 0 16 o (omega arith) (omega arith) ∙ ground arith))
        (load64_bytes m' (at + 24 + 24 * i) (h.areas i).size b
          (λ o q. byte 8 24 o (omega arith) (omega arith) ∙ ground arith))
        (load32_bytes m' (at + 32 + 24 * i) (h.areas i).sector c
          (λ o q. byte 16 32 o (omega arith) (omega arith) ∙ ground arith))
    where
      m' : Bytes
      m' = put_header h at m

      byte :
          (r b o : ℕ)
          → b ≡ 16 + r
          → r + o < 24
          → m' (at + b + 24 * i + o)
            ≡ area_byte (h.areas i) (r + o) (m (at + (16 + 24 * i + (r + o))))
      byte r b o e q = ap m' (omega arith) ∙ put_header-area i (r + o) p q

  -- A header whose words fit their fields, of at most 64 areas, that is put anywhere in memory is
  -- read back there with the same magic, vector, count and areas.
  pub get-put_header : Fits h → h.areas_size < 65 → Same (get_header at (put_header h at m)) h
  unfolding get_header header_byte
  get-put_header fits few = record {
    magic =
        ap (load32 (put_header h at m)) (sym (add_zero at))
        ∙ word_at 0 h.magic fits.magic (λ o p. (omega arith, ground arith));
    waking_vector =
        word_at 4 h.waking_vector fits.waking_vector (λ o p. (omega arith, ground arith));
    areas_size = word_at 8 h.areas_size fits.areas_size (λ o p. (omega arith, ground arith));
    area =
        λ i p. get-put_area i (omega arith) (fits.area i p).0 (fits.area i p).1 (fits.area i p).2;
  }
