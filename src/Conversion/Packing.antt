-- ===== src/Conversion/Packing.antt =====
-- `unpack_samples` inverts the firmware's packing, which the tests of crates/libairspy/src/conversion.rs
-- write out as `pack_group`.
use libairspy_rs.Base.{
  ℕ, suc, ◌+◌, ◌*◌, ◌/◌, ◌%◌, ◌^◌, ◌<◌, ◌≡◌, refl, ap, ap₂, ◌∙◌, List, [], ◌∷◌, ◌++◌, All, length,
  drop, arith, length-drop,
}
use libairspy_rs.Base.Bytes.{to_le, from_le-to_le}
use libairspy_rs.Conversion.Unpack.{
  word, group_samples, unpack_groups, unpack_tail, unpack_samples, group_count, Written,
}
use libairspy_rs.Conversion.Layout.{group_samples-digits}

pub record Group : Type 0 where
  pub s0 : ℕ
  pub s1 : ℕ
  pub s2 : ℕ
  pub s3 : ℕ
  pub s4 : ℕ
  pub s5 : ℕ
  pub s6 : ℕ
  pub s7 : ℕ

abbrev pub samples_of : Group → List ℕ
samples_of g = g.s0 ∷ g.s1 ∷ g.s2 ∷ g.s3 ∷ g.s4 ∷ g.s5 ∷ g.s6 ∷ g.s7 ∷ []

-- The three words of a group.
abbrev word_a : Group → ℕ
word_a g = g.s0 * 2 ^ 20 + g.s1 * 2 ^ 8 + g.s2 / 16

abbrev word_b : Group → ℕ
word_b g = g.s2 % 16 * 2 ^ 28 + g.s3 * 2 ^ 16 + g.s4 * 16 + g.s5 / 256

abbrev word_c : Group → ℕ
word_c g = g.s5 % 256 * 2 ^ 24 + g.s6 * 4096 + g.s7

unfoldable pub pack_group : Group → List ℕ
pack_group g = to_le 4 (word_a g) ++ (to_le 4 (word_b g) ++ to_le 4 (word_c g))

abbrev pub pack : List Group → List ℕ
pack [] = []
pack (g ∷ gs) = pack_group g ++ pack gs

abbrev pub flatten : List Group → List ℕ
flatten [] = []
flatten (g ∷ gs) = samples_of g ++ flatten gs

abbrev pub Fits : Group → Type 0
Fits g = All (λ s. s < 4096) (samples_of g)

group_samples-words :
    (g : Group) → Fits g → group_samples (word_a g) (word_b g) (word_c g) ≡ samples_of g
group_samples-words g h =
    group_samples-digits (word_a g) (word_b g) (word_c g) (omega arith) (omega arith) (omega arith)
    ∙ ap₂ ◌∷◌ (omega arith) (
        ap₂ ◌∷◌ (omega arith) (
          ap₂ ◌∷◌ (omega arith) (
            ap₂ ◌∷◌ (omega arith) (
              ap₂ ◌∷◌ (omega arith)
                (ap₂ ◌∷◌ (omega arith) (ap₂ ◌∷◌ (omega arith) (ap₂ ◌∷◌ (omega arith) refl)))))))

-- The words that the unpacker reads from a packed group.
packed_words :
    (g : Group)
    → Fits g
    → (word (pack_group g) 0 ≡ word_a g)
      × (word (pack_group g) 1 ≡ word_b g)
      × (word (pack_group g) 2 ≡ word_c g)
unfolding word pack_group to_le
packed_words g h = (
  from_le-to_le 4 (word_a g) ∙ omega arith,
  from_le-to_le 4 (word_b g) ∙ omega arith,
  from_le-to_le 4 (word_c g) ∙ omega arith,
)

-- One round of the group loop on a packed group.
unpack-group :
    (g : Group) (n : ℕ) (rest output : List ℕ)
    → Fits g
    → unpack_groups (suc n) (pack_group g ++ rest) output
      ≡ samples_of g ++ unpack_groups n rest (drop 8 output)
unfolding unpack_groups pack_group to_le
unpack-group g n rest output h =
    ap (λ l. l ++ unpack_groups n rest (drop 8 output))
      (ap₂ (λ a (bc : ℕ × ℕ). group_samples a bc.0 bc.1) (packed_words g h).0
          (ap₂ (λ b c. (b, c)) (packed_words g h).1 (packed_words g h).2)
        ∙ group_samples-words g h)

unpack_groups-pack :
    (gs : List Group) (output : List ℕ)
    → All Fits gs
    → length output ≡ length gs * 8
    → unpack_groups (length gs) (pack gs) output ≡ flatten gs
unfolding unpack_groups
unpack_groups-pack [] [] h sized = refl
unpack_groups-pack [] (x ∷ output) h sized = absurd (omega arith)
unpack_groups-pack (g ∷ gs) output h sized =
    unpack-group g (length gs) (pack gs) output h.0
    ∙ ap (λ l. samples_of g ++ l)
        (unpack_groups-pack gs (drop 8 output) h.1 (omega (arith, length-drop 8 output, sized)))

length-pack : (gs : List Group) → length (pack gs) ≡ length gs * 12
unfolding pack_group to_le
length-pack [] = refl
length-pack (g ∷ gs) = omega (arith, length-pack gs)

no_tail : (input : List ℕ) (w : Written) → length input ≡ 0 → unpack_tail input w ≡ w
unfolding unpack_tail
no_tail [] w h = refl
no_tail (x ∷ input) w h = absurd (omega arith)

-- Any number of groups of 12-bit samples, packed as the firmware does, is unpacked to those samples in
-- their order, whatever an output of their number held before, and all of them are counted.
pub unpack_samples-pack :
    (gs : List Group) (output : List ℕ)
    → All Fits gs
    → length output ≡ length gs * 8
    → unpack_samples (pack gs) output ≡ record { output = flatten gs; written = length gs * 8 }
unfolding unpack_samples
unpack_samples-pack gs output h sized =
    no_tail (drop (group_count (pack gs) output * 12) (pack gs)) _ (
      omega
        (arith, length-drop (group_count (pack gs) output * 12) (pack gs), counted, length-pack gs))
    ∙ ap₂ (λ o n. record { output = o; written = n * 8 })
        (ap (λ n. unpack_groups n (pack gs) output) counted ∙ unpack_groups-pack gs output h sized)
        counted
  where
    counted : group_count (pack gs) output ≡ length gs
    counted = omega (arith, length-pack gs, sized)
