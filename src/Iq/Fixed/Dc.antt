-- ===== src/Iq/Fixed/Dc.antt =====
-- The DC blocker of `IqConverterInt16` never wraps its error feedback: what `remove_dc` keeps in
-- `old_e` is the exact remainder of the division by 2^15.
use libairspy_rs.Base.{
  ◌+◌, ◌*◌, ◌≤◌, ◌<◌, ◌≡◌, refl, sym, ap, ap₂, subst, ◌∙◌, List, [], ◌∷◌, arith, All,
}
use libairspy_rs.Base.Int.{
  ℤ, pos, negsuc, pos_part, neg_part, ◌+ℤ◌, ◌-ℤ◌, ◌*ℤ◌, ◌≤ℤ◌, shr_ℤ, wrap16, wrap32, IsI16, IsI32,
  +ℤ_parts, -ℤ_parts, wrap16-IsI16, wrap16_id, wrap32_id,
}
use libairspy_rs.Iq.Fixed.{Blocker, block_dc, block_all, w_of, u_of, sh_of}

-- The state between two samples: both samples are `i16` and the error is a remainder.
pub record IsBlocker (b : Blocker) : Type 0 where
  pub x_range : IsI16 b.old_x
  pub y_range : IsI16 b.old_y
  pub e_low : pos 0 ≤ℤ b.old_e
  pub e_high : b.old_e ≤ℤ pos 32767

pole_product :
    (y : ℤ)
    → pos_part (y *ℤ pos 32100) + 32100 * neg_part y
      ≡ neg_part (y *ℤ pos 32100) + 32100 * pos_part y
unfolding ◌*ℤ◌
pole_product y = ground arith

shift_product :
    (y : ℤ)
    → pos_part (y *ℤ pos 32768) + 32768 * neg_part y
      ≡ neg_part (y *ℤ pos 32768) + 32768 * pos_part y
unfolding ◌*ℤ◌
shift_product y = ground arith

-- `z >> 15` is the quotient rounded down.
shift_down :
    (z : ℤ)
    → (pos_part z + 32768 * neg_part (shr_ℤ z 15)
        < neg_part z + 32768 * pos_part (shr_ℤ z 15) + 32768)
      × (neg_part z + 32768 * pos_part (shr_ℤ z 15) ≤ pos_part z + 32768 * neg_part (shr_ℤ z 15))
unfolding shr_ℤ
shift_down (pos n) = ground arith
shift_down (negsuc n) = ground arith

module _ (b : Blocker) (h : IsBlocker b) where
  product_IsI32 : IsI32 (b.old_y *ℤ pos 32100)
  product_IsI32 = ground (arith, pole_product b.old_y, h.y_range)

  sum_IsI32 : IsI32 (b.old_e +ℤ b.old_y *ℤ pos 32100)
  sum_IsI32 = ground (
    arith,
    +ℤ_parts b.old_e (b.old_y *ℤ pos 32100),
    pole_product b.old_y,
    h.y_range,
    h.e_low,
    h.e_high,
  )

  u_exact : u_of b ≡ b.old_e +ℤ b.old_y *ℤ pos 32100
  u_exact =
      ap (λ p. wrap32 (b.old_e +ℤ p)) (wrap32_id (b.old_y *ℤ pos 32100) product_IsI32)
      ∙ wrap32_id (b.old_e +ℤ b.old_y *ℤ pos 32100) sum_IsI32

  u_range :
      (neg_part (u_of b) ≤ pos_part (u_of b) + 1051852800)
      × (pos_part (u_of b) ≤ neg_part (u_of b) + 1051853467)
  u_range =
      subst (λ u. (neg_part u ≤ pos_part u + 1051852800) × (pos_part u ≤ neg_part u + 1051853467))
        (sym u_exact)
        (ground (
          arith,
          +ℤ_parts b.old_e (b.old_y *ℤ pos 32100),
          pole_product b.old_y,
          h.y_range,
          h.e_low,
          h.e_high,
        ))

  quotient_IsI16 : IsI16 (shr_ℤ (u_of b) 15)
  quotient_IsI16 = ground (arith, shift_down (u_of b), u_range)

  sh_exact : sh_of b ≡ shr_ℤ (u_of b) 15
  sh_exact = wrap16_id (shr_ℤ (u_of b) 15) quotient_IsI16

  shifted_IsI32 : IsI32 (sh_of b *ℤ pos 32768)
  shifted_IsI32 = ground (arith, shift_product (sh_of b), wrap16-IsI16 (shr_ℤ (u_of b) 15))

  remainder :
      (pos 0 ≤ℤ u_of b -ℤ sh_of b *ℤ pos 32768) × (u_of b -ℤ sh_of b *ℤ pos 32768 ≤ℤ pos 32767)
  remainder = ground (
    arith,
    -ℤ_parts (u_of b) (sh_of b *ℤ pos 32768),
    shift_product (sh_of b),
    sh_exact,
    shift_down (u_of b),
  )

  e_exact : (x : ℤ) → (block_dc b x).old_e ≡ u_of b -ℤ sh_of b *ℤ pos 32768
  unfolding block_dc
  e_exact x =
      ap (λ p. wrap32 (u_of b -ℤ p)) (wrap32_id (sh_of b *ℤ pos 32768) shifted_IsI32)
      ∙ wrap32_id (u_of b -ℤ sh_of b *ℤ pos 32768) (ground (arith, remainder))

-- One round with the products, the sum and the quotient on unbounded integers: only the difference of
-- the inputs and the new output are cut to 16 bits.
unfoldable pub ideal_dc : Blocker → ℤ → Blocker
ideal_dc b x =
    let u = b.old_e +ℤ b.old_y *ℤ pos 32100 in
    let q = shr_ℤ u 15 in
    record { old_x = x; old_y = wrap16 (wrap16 (x -ℤ b.old_x) +ℤ q); old_e = u -ℤ q *ℤ pos 32768 }

unfoldable pub ideal_all : Blocker → List ℤ → List ℤ × Blocker
ideal_all b [] = ([], b)
ideal_all b (x ∷ rest) =
    let after = ideal_all (ideal_dc b x) rest in ((ideal_dc b x).old_y ∷ after.0, after.1)

block_dc-ideal : (b : Blocker) (x : ℤ) → IsBlocker b → block_dc b x ≡ ideal_dc b x
unfolding ideal_dc block_dc
block_dc-ideal b x h =
    ap₂ (λ y e. record { old_x = x; old_y = y; old_e = e })
      (ap (λ q. wrap16 (wrap16 (x -ℤ b.old_x) +ℤ q)) quotient)
      (e_exact b h x ∙ ap₂ (λ u q. u -ℤ q *ℤ pos 32768) (u_exact b h) quotient)
  where
    quotient : sh_of b ≡ shr_ℤ (b.old_e +ℤ b.old_y *ℤ pos 32100) 15
    quotient = sh_exact b h ∙ ap (λ u. shr_ℤ u 15) (u_exact b h)

block_dc-IsBlocker : (b : Blocker) (x : ℤ) → IsBlocker b → IsI16 x → IsBlocker (block_dc b x)
unfolding block_dc
block_dc-IsBlocker b x h hx = record {
  x_range = hx;
  y_range = wrap16-IsI16 (w_of b x +ℤ sh_of b);
  e_low = subst (λ e. pos 0 ≤ℤ e) (sym (e_exact b h x)) (remainder b h).0;
  e_high = subst (λ e. e ≤ℤ pos 32767) (sym (e_exact b h x)) (remainder b h).1;
}

pub record IsExact (b : Blocker) (samples : List ℤ) : Type 0 where
  pub no_wrap : block_all b samples ≡ ideal_all b samples
  pub keeps : IsBlocker (block_all b samples).1

-- From a state with an error of 0 to 2^15 - 1, as a fresh converter has it, and on 16-bit samples, no 32-bit
-- product, sum or difference of the blocker wraps and the cast of `u >> 15` loses nothing: it computes the
-- recurrence whose error feedback is on unbounded integers and in which only the difference of two inputs and
-- the output are cut to 16 bits. The state it leaves is again one.
pub remove_dc-IsExact :
    (samples : List ℤ) (b : Blocker) → IsBlocker b → All IsI16 samples → IsExact b samples
unfolding block_all ideal_all
remove_dc-IsExact [] b h hs = record { no_wrap = refl; keeps = h }
remove_dc-IsExact (x ∷ rest) b h hs =
    let after = remove_dc-IsExact rest (block_dc b x) (block_dc-IsBlocker b x h hs.0) hs.1 in
    record {
      no_wrap =
          ap (λ (r : List ℤ × Blocker). ((block_dc b x).old_y ∷ r.0, r.1)) after.no_wrap
          ∙ ap (λ b'. (b'.old_y ∷ (ideal_all b' rest).0, (ideal_all b' rest).1))
              (block_dc-ideal b x h);
      keeps = after.keeps;
    }
