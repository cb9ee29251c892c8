-- ===== src/Tools/Chip.antt =====
-- What the flash tools rely on in the chip behind the transport: an image that erasing, writing and reading
-- go to.
use libairspy_rs.Base.{
  ℕ, zero, suc, ◌+◌, ◌-◌, ◌*◌, ◌/◌, ◌^◌, ◌≤◌, ◌<◌, ◌≡◌, ◌==◌, inl, inr, refl, ap, ap₂, ◌∙◌, List,
  [], ◌∷◌, ◌++◌, length, take, drop, get_or, ltb, if◌then◌else◌, Bool-cases, arith, true, false,
  length-take,
}
use libairspy_rs.Commands.{Command}
use libairspy_rs.Error.{ok}
use libairspy_rs.Transport.{UsbTransport, Bus, control_out, control_in}

-- The byte at every address.
abbrev pub Image : Type 0
Image = ℕ → ℕ

abbrev pub cells : Image → ℕ → ℕ → List ℕ
cells image a zero = []
cells image a (suc n) = image a ∷ cells image (a + 1) n

-- The bytes from `address` on, over an image.
abbrev pub overlay : ℕ → List ℕ → Image → Image
overlay address bytes image a =
    if ltb a address then image a else get_or bytes (a - address) (image a)

-- A cell is programmed only where it is erased; the erased byte is 0xFF. Sectors have 64 KB.
pub record Chip (t : UsbTransport) : Type 0 where
  pub image : Bus → Image
  pub erases :
      (bus : Bus) (n a : ℕ)
      → t.write_control bus (control_out Command.spiflash_erase 0 0 []) ≡ ok n
      → image (control_out Command.spiflash_erase 0 0 [] ∷ bus) a ≡ 255
  pub erases_sector :
      (bus : Bus) (n sector a : ℕ)
      → t.write_control bus (control_out Command.spiflash_erase_sector sector 0 []) ≡ ok n
      → image (control_out Command.spiflash_erase_sector sector 0 [] ∷ bus) a
        ≡ (if a / 65536 == sector then 255 else image bus a)
  pub writes :
      (bus : Bus) (high low : ℕ) (bytes : List ℕ) (a : ℕ)
      → t.write_control bus (control_out Command.spiflash_write high low bytes) ≡ ok (length bytes)
      → ((i : ℕ) → i < length bytes → image bus (high * 2 ^ 16 + low + i) ≡ 255)
      → image (control_out Command.spiflash_write high low bytes ∷ bus) a
        ≡ overlay (high * 2 ^ 16 + low) bytes (image bus) a
  pub reads :
      (bus : Bus) (high low n : ℕ) (bytes : List ℕ)
      → t.read_control bus (control_in Command.spiflash_read high low n) ≡ ok bytes
      → (length bytes ≤ n) × (bytes ≡ cells (image bus) (high * 2 ^ 16 + low) (length bytes))
  pub read_keeps :
      (bus : Bus) (high low n a : ℕ)
      → image (control_in Command.spiflash_read high low n ∷ bus) a ≡ image bus a

-- A device that takes every request in full and answers every read in full.
pub record Obeys (t : UsbTransport) : Type 0 where
  pub takes :
      (bus : Bus) (c : Command) (v i : ℕ) (payload : List ℕ)
      → t.write_control bus (control_out c v i payload) ≡ ok (length payload)
  pub gives :
      (bus : Bus) (c : Command) (v i n : ℕ)
      → (bytes : List ℕ) × (t.read_control bus (control_in c v i n) ≡ ok bytes) × (length bytes ≡ n)

get_or-drop : (n : ℕ) (xs : List ℕ) (j d : ℕ) → n ≤ j → get_or (drop n xs) (j - n) d ≡ get_or xs j d
get_or-drop zero xs j d h = ap (λ k. get_or xs k d) (omega arith)
get_or-drop (suc n) [] j d h = refl
get_or-drop (suc n) (x ∷ xs) zero d h = absurd (omega arith)
get_or-drop (suc n) (x ∷ xs) (suc j) d h =
    ap (λ k. get_or (drop n xs) k d) (omega arith) ∙ get_or-drop n xs j d (omega arith)

get_or-take : (n : ℕ) (xs : List ℕ) (i d : ℕ) → i < n → get_or (take n xs) i d ≡ get_or xs i d
get_or-take zero xs i d h = absurd (omega arith)
get_or-take (suc n) [] i d h = refl
get_or-take (suc n) (x ∷ xs) zero d h = refl
get_or-take (suc n) (x ∷ xs) (suc i) d h = get_or-take n xs i d (omega arith)

pub get_or_beyond : (xs : List ℕ) (i d : ℕ) → length xs ≤ i → get_or xs i d ≡ d
get_or_beyond [] i d h = refl
get_or_beyond (x ∷ xs) zero d h = absurd (omega arith)
get_or_beyond (x ∷ xs) (suc i) d h = get_or_beyond xs i d (omega arith)

pub cells-ext : (f g : Image) (a n : ℕ) → ((b : ℕ) → a ≤ b → f b ≡ g b) → cells f a n ≡ cells g a n
cells-ext f g a zero h = refl
cells-ext f g a (suc n) h =
    ap₂ (λ x xs. x ∷ xs) (h a (omega arith)) (cells-ext f g (a + 1) n (λ b l. h b (omega arith)))

pub length-cells : (f : Image) (a n : ℕ) → length (cells f a n) ≡ n
length-cells f a zero = refl
length-cells f a (suc n) = ap suc (length-cells f (a + 1) n)

-- A transfer's bytes and the rest behind them are the whole.
pub overlay-split :
    (address n : ℕ) (bytes : List ℕ) (image : Image) (a : ℕ)
    → n ≤ length bytes
    → overlay (address + n) (drop n bytes) (overlay address (take n bytes) image) a
      ≡ overlay address bytes image a
overlay-split address n bytes image a h = elim (Bool-cases (ltb a address)) [
  | inl below ↦ rw (below, (let e : ltb a (address + n) ≡ true = ground (arith, below) in e)) refl
  | inr above ↦ elim (Bool-cases (ltb a (address + n))) [
    | inl first ↦
        rw (above, first)
          (get_or-take n bytes (a - address) (image a) (ground (arith, above, first)))
    | inr second ↦
        rw (above, second)
          (ap (λ k. get_or (drop n bytes) k (get_or (take n bytes) (a - address) (image a)))
              (let e : a - (address + n) ≡ a - address - n = omega arith in e)
            ∙ (get_or-drop n bytes (a - address) _ (ground (arith, above, second))
                ∙ ap (get_or bytes (a - address)) (
                    get_or_beyond (take n bytes) (a - address) (image a)
                      (ground (arith, length-take n bytes, above, second)))))
  ]
]

overlay-tail :
    (address x : ℕ) (xs : List ℕ) (image : Image) (b : ℕ)
    → address + 1 ≤ b
    → overlay address (x ∷ xs) image b ≡ overlay (address + 1) xs image b
overlay-tail address x xs image b h =
    rw
      (
        (let e : ltb b address ≡ false = ground arith in e),
        (let e : ltb b (address + 1) ≡ false = ground arith in e),
        (let e : b - address ≡ suc (b - (address + 1)) = omega arith in e),
      )
      refl

-- The cells of an overlay are its bytes.
pub cells-overlay :
    (address : ℕ) (bytes : List ℕ) (image : Image)
    → cells (overlay address bytes image) address (length bytes) ≡ bytes
cells-overlay address [] image = refl
cells-overlay address (x ∷ xs) image =
    ap₂ (λ y ys. y ∷ ys) (ground arith)
      (cells-ext _ _ (address + 1) (length xs) (overlay-tail address x xs image)
        ∙ cells-overlay (address + 1) xs image)

pub cells-append : (f : Image) (a m n : ℕ) → cells f a (m + n) ≡ cells f a m ++ cells f (a + m) n
cells-append f a zero n = ap₂ (cells f) (omega arith) (omega arith)
cells-append f a (suc m) n =
    (let e : suc m + n ≡ suc (m + n) = omega arith in ap (cells f a) e)
    ∙ ap (◌∷◌ (f a))
        (cells-append f (a + 1) m n ∙ ap (λ b. cells f (a + 1) m ++ cells f b n) (omega arith))
