-- ===== src/Tools/Receive/Config/Verdict.antt =====
-- `build_config` (crates/airspy-tools/src/rx_cli.rs) accepts exactly the arguments in range, and what it
-- returns is fit to run with.
use libairspy_rs.Base.{
  ℕ, ◌≤◌, ◌≡◌, refl, sym, ◌∙◌, ap, ap₂, subst, ◌↔◌, Option, none, some, List, ltb, leb, arith,
}
use libairspy_rs.Commands.{SampleType, int16_iq}
use libairspy_rs.Tools.Receive.Config.{
  Args, Config, accept, or_else, selected_type, resolve_capture_path, resolve_freq, build_config,
  required_type,
}
use libairspy_rs.Tools.Receive.Config.Ranges.{
  AtMost, Ranges, ranges_of, reject-inv, >>=-inv, validate_ranges-inv, validate_ranges-accept,
  at_most,
}
use libairspy_rs.Tools.Receive.Config.Arguments.{
  Acceptable, Safe, config_of, few, type-value, path_given, freq_given, freq-band, wav-playable,
}

-- The intermediate results of an accepted run.
record Accepted (parse : List ℕ → ℕ) (a : Args) (date_time : List ℕ) (c : Config) : Type 0 where
  hz : ℕ
  freq : resolve_freq parse a.freq_mhz ≡ accept hz
  path : List ℕ
  output : resolve_capture_path a (selected_type a.sample_type) hz date_time ≡ accept path
  type : SampleType
  selected : selected_type a.sample_type ≡ some type
  samples : AtMost 0x7fffffffffffffff a.num_samples
  packing : AtMost 1 a.packing
  ranges : Ranges a
  result : config_of a hz path type type (ranges_of a) ≡ c

required : (o : Option SampleType) {t : SampleType} → required_type o ≡ accept t → o ≡ some t
required none h = cc
required (some t) h = cc

accept-injective : {A : Type 0} (a b : A) → accept a ≡ accept b → a ≡ b
accept-injective a b h = cc

build-inv :
    (parse : List ℕ → ℕ) (a : Args) (date_time : List ℕ) {c : Config}
    → build_config parse a date_time ≡ accept c
    → Accepted parse a date_time c
unfolding build_config
build-inv parse a date_time {c} h =
    let s = reject-inv (leb 0x8000000000000000 (or_else a.num_samples 0)) _ _ h in
    let f = >>=-inv (resolve_freq parse a.freq_mhz) _ s.1 in
    let p = >>=-inv (resolve_capture_path a (selected_type a.sample_type) f.0 date_time) _ f.2 in
    let k = reject-inv (ltb 1 (or_else a.packing 0)) _ _ p.2 in
    let t = >>=-inv (required_type (selected_type a.sample_type)) _ k.1 in
    let r = >>=-inv _ _ t.2 in
    let v = validate_ranges-inv a r.1 in
    let e = required (selected_type a.sample_type) t.1 in
    record {
      hz = f.0;
      freq = f.1;
      path = p.0;
      output = p.1;
      type = t.0;
      selected = e;
      samples = (few a.num_samples).0 s.0;
      packing = (at_most 1 0 a.packing (omega arith)).0 k.0;
      ranges = v.0;
      result =
          ap₂ (λ (o : Option SampleType) q. config_of a f.0 p.0 (or_else o int16_iq) t.0 q) (sym e)
            (accept-injective (ranges_of a) r.0 v.1)
          ∙ accept-injective _ c r.2;
    }

config-Safe :
    (parse : List ℕ → ℕ) (a : Args) (date_time : List ℕ) {c : Config}
    → Accepted parse a date_time c
    → Safe c
config-Safe parse a date_time r = subst Safe r.result (record {
  band = freq-band parse a.freq_mhz r.hz r.freq;
  gains = (
    within 5 (omega arith) a.vga_gain r.ranges.1,
    within 5 (omega arith) a.mixer_gain r.ranges.2,
    within 1 (omega arith) a.lna_gain r.ranges.3,
  );
  simple_gains = (r.ranges.4, r.ranges.5);
  one_gain = r.ranges.6;
  format = refl;
  playable = wav-playable parse a r.hz date_time r.path r.type r.selected r.output;
  limit = refl;
})
  where
    within : {n : ℕ} (d : ℕ) → d ≤ n → (o : Option ℕ) → AtMost n o → or_else o d ≤ n
    within d h none k = h
    within d h (some v) k = k

Accepted-Acceptable :
    (parse : List ℕ → ℕ) (a : Args) (date_time : List ℕ) {c : Config}
    → Accepted parse a date_time c
    → Acceptable parse a
Accepted-Acceptable parse a date_time r = record {
  few_samples = r.samples;
  frequency = (freq_given parse a.freq_mhz).1 (r.hz, r.freq);
  output = (path_given a r.hz date_time).1 (r.path, r.output);
  packing = r.packing;
  sample_type = type_of a.sample_type r.selected;
  biast = r.ranges.0;
  vga = r.ranges.1;
  mixer = r.ranges.2;
  lna = r.ranges.3;
  linearity = r.ranges.4;
  sensitivity = r.ranges.5;
  one_gain = r.ranges.6;
}
  where
    type_of : (o : Option ℕ) {t : SampleType} → selected_type o ≡ some t → AtMost 5 o
    type_of none h = tt
    type_of (some v) {t} h = (type-value v).1 (t, h)

selection : (o : Option ℕ) → AtMost 5 o → (t : SampleType) × (selected_type o ≡ some t)
selection none h = (int16_iq, refl)
selection (some v) h = (type-value v).0 h

Acceptable-accept :
    (parse : List ℕ → ℕ) (a : Args) (date_time : List ℕ)
    → Acceptable parse a
    → (c : Config) × (build_config parse a date_time ≡ accept c)
unfolding build_config
Acceptable-accept parse a date_time h =
    let f = (freq_given parse a.freq_mhz).0 h.frequency in
    let p = (path_given a f.0 date_time).0 h.output in
    let t = selection a.sample_type h.sample_type in
    let e = t.1 in
    (
      config_of a f.0 p.0 (or_else (selected_type a.sample_type) int16_iq) t.0 (ranges_of a),
      rw
          (
            (few a.num_samples).1 h.few_samples,
            f.1,
            p.1,
            (at_most 1 0 a.packing (omega arith)).1 h.packing,
            ap required_type e,
            validate_ranges-accept a
                (h.biast, h.vga, h.mixer, h.lna, h.linearity, h.sensitivity, h.one_gain),
          )
          refl,
    )

-- Arguments are accepted exactly when each of them is in its range, the frequency lies from 24 MHz to below
-- 1900 MHz, a WAV capture is not of RAW samples, another one names a file, and not both simplified gains are
-- given. Every accepted configuration has its frequency and gains in range, at most one simplified gain,
-- and the format and the byte limit of the sample type that is really captured.
pub build_config-verdict :
    (parse : List ℕ → ℕ) (a : Args) (date_time : List ℕ)
    → Acceptable parse a ↔ ((c : Config) × (build_config parse a date_time ≡ accept c) × Safe c)
build_config-verdict parse a date_time = (
  λ h.
      let c = Acceptable-accept parse a date_time h in
      (c.0, c.1, config-Safe parse a date_time (build-inv parse a date_time c.1)),
  λ h. Accepted-Acceptable parse a date_time (build-inv parse a date_time h.1),
)
