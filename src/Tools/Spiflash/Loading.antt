-- ===== src/Tools/Spiflash/Loading.antt =====
-- The checks of bin/airspy_spiflash.rs before a write: what a file that loads is.
use libairspy_rs.Base.{
  ℕ, ◌<◌, ◌==◌, ◌&&◌, ◌≡◌, refl, sym, ap, subst, ◌∙◌, Bool, true, false, Option, none, some, List,
  length, take, leb, Bool-cases, inl, inr, arith,
}
use libairspy_rs.Tools.Flash.{
  validate_range, max_length, RangeCheck, valid, zero_length, exceeds_flash,
}
use libairspy_rs.Tools.Spiflash.{FileView, bounded_read, is_valid, load_write_file}

-- A file whose bytes a run may write: as many as its metadata says, in a valid range.
pub record Loads (source : Option FileView) (address : ℕ) (bytes : List ℕ) : Type 0 where
  pub file : FileView
  pub opened : source ≡ some file
  pub size : length bytes ≡ file.file_len
  pub range : validate_range address (length bytes) ≡ valid
  pub all_bytes : List ℕ
  pub contents : file.contents ≡ some all_bytes
  pub front : take file.file_len all_bytes ≡ bytes

pub is_valid-inv : (r : RangeCheck) → is_valid r ≡ true → r ≡ valid
is_valid-inv valid h = refl
is_valid-inv zero_length h = cc
is_valid-inv exceeds_flash h = cc

valid-positive : (address n : ℕ) → validate_range address n ≡ valid → 0 < n
unfolding validate_range
valid-positive address n h = ground (arith, h)

bounded_read-inv :
    (n : ℕ) (contents : Option (List ℕ)) {bytes : List ℕ}
    → 0 < n
    → bounded_read n contents ≡ some bytes
    → (all : List ℕ) × (contents ≡ some all) × (take n all ≡ bytes) × (length bytes ≡ n)
bounded_read-inv n none {bytes} p h =
    absurd
      (let e : none ≡ some bytes = rw ((let z : 0 == n ≡ false = ground arith in z)) at h in cc)
bounded_read-inv n (some all) {bytes} p h = elim (Bool-cases (length (take n all) == n)) [
  | inl e ↦
      let same : take n all ≡ bytes =
        (let s : some (take n all) ≡ some bytes = rw (e) at h in cc) in
      (all, refl, same, ap length (sym same) ∙ ground (arith, e))
  | inr e ↦ absurd (let s : none ≡ some bytes = rw (e) at h in cc)
]

&&-right : (a b : Bool) → (a && b) ≡ true → b ≡ true
&&-right true b h = h
&&-right false b h = cc

pub load_write_file-Loads :
    (source : Option FileView) (address : ℕ) {bytes : List ℕ}
    → load_write_file source address ≡ some bytes
    → Loads source address bytes
unfolding load_write_file
load_write_file-Loads none address {bytes} h = absurd (let e : none ≡ some bytes = h in cc)
load_write_file-Loads (some f) address {bytes} h =
    elim (Bool-cases (leb f.file_len max_length && is_valid (validate_range address f.file_len))) [
      | inl e ↦
          let range = is_valid-inv (validate_range address f.file_len) (&&-right _ _ e) in
          let r =
            bounded_read-inv f.file_len f.contents (valid-positive address f.file_len range)
              (rw (e) at h) in
          record {
            file = f;
            opened = refl;
            size = r.3;
            range = subst (λ n. validate_range address n ≡ valid) (sym r.3) range;
            all_bytes = r.0;
            contents = r.1;
            front = r.2;
          }
      | inr e ↦ absurd (let s : none ≡ some bytes = rw (e) at h in cc)
    ]
