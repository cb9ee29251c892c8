-- ===== src/Conversion/Unpack.antt =====
-- crates/libairspy/src/conversion.rs, `unpack_samples`, over the byte list of a transfer. A slice that
-- the function writes is a list that it returns.
use Prim.Native.Nat.{bit_and, bit_or}
use libairspy_rs.Base.{
  ℕ, zero, suc, ◌+◌, ◌*◌, ◌/◌, min, List, [], ◌∷◌, ◌++◌, ltb, leb, length, set, take, drop,
  if◌then◌else◌,
}
use libairspy_rs.Base.Bits.{shr, shl}
use libairspy_rs.Base.Bytes.{from_le}

-- `chunk.get(i * 4..i * 4 + 4)` as a little-endian word, 0 out of range.
unfoldable pub word : List ℕ → ℕ → ℕ
word chunk i = if leb (i * 4 + 4) (length chunk) then from_le (take 4 (drop (i * 4) chunk)) else 0

-- The eight bit expressions of the group loop.
unfoldable pub sample0 : ℕ → ℕ
sample0 w0 = bit_and (shr w0 20) 0xfff

unfoldable pub sample1 : ℕ → ℕ
sample1 w0 = bit_and (shr w0 8) 0xfff

unfoldable pub sample2 : ℕ → ℕ → ℕ
sample2 w0 w1 = bit_or (shl (bit_and w0 0xff) 4) (bit_and (shr w1 28) 0xf)

unfoldable pub sample3 : ℕ → ℕ
sample3 w1 = shr (bit_and w1 0x0fff_0000) 16

unfoldable pub sample4 : ℕ → ℕ
sample4 w1 = shr (bit_and w1 0xfff0) 4

unfoldable pub sample5 : ℕ → ℕ → ℕ
sample5 w1 w2 = bit_or (shl (bit_and w1 0xf) 8) (shr (bit_and w2 0xff00_0000) 24)

unfoldable pub sample6 : ℕ → ℕ
sample6 w2 = bit_and (shr w2 12) 0xfff

unfoldable pub sample7 : ℕ → ℕ
sample7 w2 = bit_and w2 0xfff

abbrev pub group_samples : ℕ → ℕ → ℕ → List ℕ
group_samples w0 w1 w2 =
    sample0 w0
    ∷ sample1 w0
    ∷ sample2 w0 w1
    ∷ sample3 w1
    ∷ sample4 w1
    ∷ sample5 w1 w2
    ∷ sample6 w2
    ∷ sample7 w2
    ∷ []

-- The group loop: 12 bytes of input over 8 slots of output.
unfoldable pub unpack_groups : ℕ → List ℕ → List ℕ → List ℕ
unpack_groups zero input output = output
unpack_groups (suc g) input output =
    let bytes = take 12 input in
    group_samples (word bytes 0) (word bytes 1) (word bytes 2)
    ++ unpack_groups g (drop 12 input) (drop 8 output)

-- The output with the number of samples written so far.
pub record Written : Type 0 where
  pub output : List ℕ
  pub written : ℕ

unfoldable pub push : Written → ℕ → Written
push w v =
    if ltb w.written (length w.output)
    then record { output = set w.output w.written v; written = w.written + 1 }
    else w

-- The samples of the words that the tail holds whole.
unfoldable pub unpack_tail : List ℕ → Written → Written
unpack_tail tail w =
    if leb 4 (length tail)
    then (let w0 = word tail 0 in
        let a = push (push w (sample0 w0)) (sample1 w0) in
        if leb 8 (length tail)
        then (let w1 = word tail 1 in
            let b = push (push (push a (sample2 w0 w1)) (sample3 w1)) (sample4 w1) in
            if leb 12 (length tail)
            then (let w2 = word tail 2 in
                push (push (push b (sample5 w1 w2)) (sample6 w2)) (sample7 w2))
            else b)
        else a)
    else w

abbrev pub group_count : List ℕ → List ℕ → ℕ
group_count input output = min (length input / 12) (length output / 8)

unfoldable pub unpack_samples : List ℕ → List ℕ → Written
unpack_samples input output =
    let groups = group_count input output in
    unpack_tail (drop (groups * 12) input)
      (record { output = unpack_groups groups input output; written = groups * 8 })

unfoldable pub unpacked_sample_count : ℕ → ℕ
unpacked_sample_count len = len * 2 / 3
