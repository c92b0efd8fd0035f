-- ===== src/Nvm.antt =====
-- The EEPROM driver (src/ASF/xmega/drivers/nvm) as the firmware calls it: `nvm_eeprom_read_byte`,
-- `nvm_eeprom_write_byte`, `nvm_eeprom_read_buffer`, and `nvm_eeprom_load_page_to_buffer` followed
-- by `nvm_eeprom_atomic_write_page`, with what the driver documents of them. A page has 32 bytes.
use midi_fighter_twister_ope.Base.{
  ℕ, zero, suc, ◌+◌, ◌/◌, ◌%◌, ◌<◌, ◌≡◌, refl, List, [], ◌∷◌, length, get_or, u8, ◌==◌,
  if◌then◌else◌, arith,
}

pub record Nvm : Type 1 where
  pub Store : Type 0
  pub read_byte : Store → ℕ → ℕ
  pub write_byte : Store → ℕ → ℕ → Store
  pub read_buffer : Store → ℕ → ℕ → List ℕ
  pub write_page : Store → List ℕ → ℕ → Store
  pub read_byte-lt : (s : Store) (a : ℕ) → read_byte s a < 256
  pub read_byte-write_byte :
      (s : Store) (a v b : ℕ)
      → read_byte (write_byte s a v) b ≡ (if a == b then u8 v else read_byte s b)
  pub length-read_buffer : (s : Store) (a n : ℕ) → length (read_buffer s a n) ≡ n
  pub get_or-read_buffer :
      (s : Store) (a n i : ℕ) → i < n → get_or (read_buffer s a n) i 0 ≡ read_byte s (a + i)
  pub read_byte-write_page :
      (s : Store) (page : List ℕ) (k b : ℕ)
      → length page ≡ 32
      → read_byte (write_page s page k) b
        ≡ (if b / 32 == k then u8 (get_or page (b % 32) 0) else read_byte s b)

-- An array of bytes meets what is documented.
abbrev cells : ℕ → (ℕ → ℕ) → ℕ → List ℕ
cells zero m a = []
cells (suc n) m a = u8 (m a) ∷ cells n m (suc a)

pub length-cells : (n : ℕ) (m : ℕ → ℕ) (a : ℕ) → length (cells n m a) ≡ n
length-cells zero m a = refl
length-cells (suc n) m a = omega (arith, length-cells n m (suc a))

pub get_or-cells : (n : ℕ) (m : ℕ → ℕ) (a i : ℕ) → i < n → get_or (cells n m a) i 0 ≡ u8 (m (a + i))
get_or-cells zero m a i h = absurd (omega arith)
get_or-cells (suc n) m a zero h = let e : a + zero ≡ a = omega arith in rw e
get_or-cells (suc n) m a (suc i) h =
    let e : a + suc i ≡ suc a + i = omega arith in rw e (get_or-cells n m (suc a) i (omega arith))

abbrev write_cell : (ℕ → ℕ) → ℕ → ℕ → ℕ → ℕ
write_cell m a v b = if a == b then v else m b

abbrev write_cells : (ℕ → ℕ) → List ℕ → ℕ → ℕ → ℕ
write_cells m page k b = if b / 32 == k then get_or page (b % 32) 0 else m b

pub cell-lt : (m : ℕ → ℕ) (a : ℕ) → u8 (m a) < 256
cell-lt m a = omega arith

pub cell-write_cell :
    (m : ℕ → ℕ) (a v b : ℕ) → u8 (write_cell m a v b) ≡ (if a == b then u8 v else u8 (m b))
cell-write_cell m a v b = ground arith

pub cell-write_cells :
    (m : ℕ → ℕ) (page : List ℕ) (k b : ℕ)
    → length page ≡ 32
    → u8 (write_cells m page k b) ≡ (if b / 32 == k then u8 (get_or page (b % 32) 0) else u8 (m b))
cell-write_cells m page k b h = ground arith

abbrev pub array_nvm : Nvm
array_nvm = record {
  Store = ℕ → ℕ;
  read_byte = λ m a. u8 (m a);
  write_byte = write_cell;
  read_buffer = λ m a n. cells n m a;
  write_page = write_cells;
  read_byte-lt = cell-lt;
  read_byte-write_byte = cell-write_cell;
  length-read_buffer = λ m a n. length-cells n m a;
  get_or-read_buffer = λ m a n. get_or-cells n m a;
  read_byte-write_page = cell-write_cells;
}
