-- ===== src/Device/Board/Decoding.antt =====
-- What `PartIdSerial::from_le_bytes` and `parse_version` (crates/libairspy/src/board.rs) recover.
use libairspy_rs.Base.{
  ℕ, suc, ◌^◌, ◌<◌, ◌==◌, ◌≡◌, ◌≢◌, refl, ap, ap₂, ◌∙◌, subst, List, [], ◌∷◌, ◌++◌, All, length,
  take, drop, leb, arith, length-append, take-append_length, drop-append_length, Bool-cases, inl,
  inr, true,
}
use libairspy_rs.Base.Bytes.{from_le, to_le, from_le-to_le, length-to_le}
use libairspy_rs.Device.Board.{peel_words, from_le_bytes, before_nul}

abbrev pub words_as_bytes : List ℕ → List ℕ
words_as_bytes [] = []
words_as_bytes (w ∷ ws) = to_le 4 w ++ words_as_bytes ws

peel-word :
    (n w : ℕ) (rest : List ℕ)
    → w < 2 ^ 32
    → peel_words (suc n) (to_le 4 w ++ rest) ≡ w ∷ peel_words n rest
unfolding peel_words
peel-word n w rest h = rw (enough) (
    ap₂ (λ a b. a ∷ b) (ap from_le (take_four rest) ∙ (from_le-to_le 4 w ∙ omega (arith, h)))
      (ap (peel_words n) (drop_four rest)))
  where
    take_four : (r : List ℕ) → take 4 (to_le 4 w ++ r) ≡ to_le 4 w
    take_four r =
        subst (λ k. take k (to_le 4 w ++ r) ≡ to_le 4 w) (length-to_le 4 w)
          (take-append_length (to_le 4 w) r)

    drop_four : (r : List ℕ) → drop 4 (to_le 4 w ++ r) ≡ r
    drop_four r =
        subst (λ k. drop k (to_le 4 w ++ r) ≡ r) (length-to_le 4 w)
          (drop-append_length (to_le 4 w) r)

    enough : leb 4 (length (to_le 4 w ++ rest)) ≡ true
    enough = ground (arith, length-append (to_le 4 w) rest, length-to_le 4 w)

peel_words-words_as_bytes :
    (ws : List ℕ) → All (λ w. w < 2 ^ 32) ws → peel_words (length ws) (words_as_bytes ws) ≡ ws
unfolding peel_words
peel_words-words_as_bytes [] h = refl
peel_words-words_as_bytes (w ∷ ws) h =
    peel-word (length ws) w (words_as_bytes ws) h.0 ∙ ap (◌∷◌ w) (peel_words-words_as_bytes ws h.1)

-- The 24 bytes of two identifier words and four serial words decode to those words.
pub from_le_bytes-words :
    (part_id serial_no : List ℕ)
    → length part_id ≡ 2
    → length serial_no ≡ 4
    → All (λ w. w < 2 ^ 32) (part_id ++ serial_no)
    → from_le_bytes (words_as_bytes (part_id ++ serial_no))
      ≡ record { part_id = part_id; serial_no = serial_no }
unfolding from_le_bytes
from_le_bytes-words part_id serial_no two four h =
    ap (λ ws. record { part_id = take 2 ws; serial_no = drop 2 ws }) all_words
    ∙ ap₂ (λ a b. record { part_id = a; serial_no = b }) first second
  where
    all_words : peel_words 6 (words_as_bytes (part_id ++ serial_no)) ≡ part_id ++ serial_no
    all_words =
        subst (λ k. peel_words k (words_as_bytes (part_id ++ serial_no)) ≡ part_id ++ serial_no)
          {x = length (part_id ++ serial_no)}
          (omega (arith, length-append part_id serial_no, two, four))
          (peel_words-words_as_bytes (part_id ++ serial_no) h)

    first : take 2 (part_id ++ serial_no) ≡ part_id
    first =
        subst (λ k. take k (part_id ++ serial_no) ≡ part_id) two
          (take-append_length part_id serial_no)

    second : drop 2 (part_id ++ serial_no) ≡ serial_no
    second =
        subst (λ k. drop k (part_id ++ serial_no) ≡ serial_no) two
          (drop-append_length part_id serial_no)

-- The version string is the text before the first NUL, whatever the firmware leaves behind it.
pub before_nul-text :
    (text behind : List ℕ) → All (λ b. b ≢ 0) text → before_nul (text ++ 0 ∷ behind) ≡ text
unfolding before_nul
before_nul-text [] behind h = refl
before_nul-text (b ∷ bs) behind h = elim (Bool-cases (b == 0)) [
  | inl e ↦ absurd (ground (arith, e, h.0))
  | inr e ↦ rw (e) (ap (◌∷◌ b) (before_nul-text bs behind h.1))
]
