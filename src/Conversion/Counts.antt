-- ===== src/Conversion/Counts.antt =====
-- What `unpack_samples` writes: how many samples, and that a packed stream is unpacked whole.
use libairspy_rs.Base.{
  ℕ, zero, suc, ◌+◌, ◌*◌, ◌/◌, ◌%◌, ◌≤◌, ◌<◌, ◌≡◌, refl, sym, ap, subst, List, arith, length, drop,
  length-set, length-drop, leb, if◌then◌else◌, Bool-cases, inl, inr, true, false,
}
use libairspy_rs.Conversion.Unpack.{
  unpack_groups, unpack_tail, push, Written, unpack_samples, group_count, unpacked_sample_count,
}

length-unpack_groups :
    (g : ℕ) (input output : List ℕ)
    → g * 8 ≤ length output
    → length (unpack_groups g input output) ≡ length output
unfolding unpack_groups
length-unpack_groups zero input output h = refl
length-unpack_groups (suc g) input output h = omega (
  arith,
  length-unpack_groups g (drop 12 input) (drop 8 output) (omega (arith, length-drop 8 output)),
  length-drop 8 output,
)

length-push : (w : Written) (v : ℕ) → length (push w v).output ≡ length w.output
unfolding push
length-push w v = ground (arith, length-set w.output w.written v)

written-push :
    (w : Written) (v : ℕ) → w.written < length w.output → (push w v).written ≡ w.written + 1
unfolding push
written-push w v h = ground arith

-- A push writes a slot if there is room.
pub record Pushed (w w' : Written) (k : ℕ) : Type 0 where
  pub same_room : length w'.output ≡ length w.output
  pub count : w'.written ≡ w.written + k

push-Pushed :
    (w w' : Written) (v k : ℕ)
    → w.written + k < length w.output
    → Pushed w w' k
    → Pushed w (push w' v) (k + 1)
push-Pushed w w' v k h p = record {
  same_room = omega (arith, length-push w' v, p.same_room);
  count = omega (arith, written-push w' v (omega (arith, p.same_room, p.count)), p.count);
}

start-Pushed : (w : Written) → Pushed w w 0
start-Pushed w = record { same_room = refl; count = omega arith }

-- The number of samples in a tail of t bytes, of which only whole words count.
abbrev pub tail_samples : ℕ → ℕ
tail_samples t = if leb 4 t then (if leb 8 t then 5 else 2) else 0

tail-Pushed :
    (tail : List ℕ) (w : Written)
    → length tail < 12
    → w.written + tail_samples (length tail) ≤ length w.output
    → Pushed w (unpack_tail tail w) (tail_samples (length tail))
unfolding unpack_tail
tail-Pushed tail w short room = elim (Bool-cases (leb 4 (length tail))) [
  | inl e4 ↦ elim (Bool-cases (leb 8 (length tail))) [ inl e8 ↦ more e4 e8 | inr n8 ↦ two e4 n8 ]
  | inr n4 ↦ none_written n4
]
  where
    none_written :
        leb 4 (length tail) ≡ false → Pushed w (unpack_tail tail w) (tail_samples (length tail))
    none_written n4 = rw (n4) (start-Pushed w)

    two :
        leb 4 (length tail) ≡ true
        → leb 8 (length tail) ≡ false
        → Pushed w (unpack_tail tail w) (tail_samples (length tail))
    two e4 n8 =
        rw (e4, n8)
          (push-Pushed w _ _ 1 (ground (arith, room, e4, n8))
            (push-Pushed w _ _ 0 (ground (arith, room, e4, n8)) (start-Pushed w)))

    more :
        leb 4 (length tail) ≡ true
        → leb 8 (length tail) ≡ true
        → Pushed w (unpack_tail tail w) (tail_samples (length tail))
    more e4 e8 =
        rw (e4, e8, n12)
          (push-Pushed w _ _ 4 (enough 4 (omega arith)) (
            push-Pushed w _ _ 3 (enough 3 (omega arith)) (
              push-Pushed w _ _ 2 (enough 2 (omega arith)) (
                push-Pushed w _ _ 1 (enough 1 (omega arith))
                  (push-Pushed w _ _ 0 (enough 0 (omega arith)) (start-Pushed w))))))
      where
        enough : (k : ℕ) → k < 5 → w.written + k < length w.output
        enough k h = ground (arith, room, e4, e8)

        n12 : leb 12 (length tail) ≡ false
        n12 = ground arith

-- For an output of the size that `unpacked_sample_count` names, unpacking keeps the output's length and
-- fills as many slots as the input has whole samples: eight for every 12 bytes, then two for a tail of
-- 4 to 7 bytes and five for one of 8 to 11; a stray tail of 1 to 3 bytes fills none.
pub unpack_samples-written :
    (input output : List ℕ)
    → length output ≡ unpacked_sample_count (length input)
    → Pushed
        (record { output = output; written = 0 })
        (unpack_samples input output)
        (length input / 12 * 8 + tail_samples (length input % 12))
unfolding unpack_samples unpacked_sample_count
unpack_samples-written input output sized = record {
  same_room = omega (arith, unpacked.same_room, kept);
  count = omega (arith, unpacked.count, groups_all, ap tail_samples rest_length);
}
  where
    n : ℕ
    n = length input

    groups_all : group_count input output ≡ n / 12
    groups_all = omega (arith, sized)

    rest : List ℕ
    rest = drop (group_count input output * 12) input

    rest_length : length rest ≡ n % 12
    rest_length = omega (arith, length-drop (group_count input output * 12) input, groups_all)

    w : Written
    w = record {
      output = unpack_groups (group_count input output) input output;
      written = group_count input output * 8;
    }

    kept : length w.output ≡ length output
    kept = length-unpack_groups (group_count input output) input output (omega arith)

    unpacked : Pushed w (unpack_tail rest w) (tail_samples (length rest))
    unpacked = tail-Pushed rest w (omega (arith, rest_length)) (
        subst (λ t. w.written + tail_samples t ≤ length w.output) (sym rest_length)
          (ground (arith, kept, sized, groups_all)))
