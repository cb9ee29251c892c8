-- ===== src/Device/Requests.antt =====
-- What the request helpers of device.rs and control.rs leave on the wire, and how a sequence of
-- requests ends at the first one that fails.
use libairspy_rs.Base.{
  ℕ, ◌==◌, ◌≡◌, refl, sym, ap, true, Bool-cases, inl, inr, List, [], ◌∷◌, length, ltb, ◌⊎◌, subst,
  if◌then◌else◌, arith, ◌∙◌,
}
use libairspy_rs.Commands.{Command}
use libairspy_rs.Error.{Error, Result, ok, err}
use libairspy_rs.Transport.{
  UsbTransport, Bus, Call, control_out, control_in, Wire, ◌>>=◌, ◌>>◌, pure, fail,
}
use libairspy_rs.Device.{vendor_out, vendor_in, out_setter, in_setter}

-- What a request comes to by the transport's answer: a read must bring the bytes asked for, a write must be
-- taken in full, and the answers of the other calls are dropped.
abbrev pub read_answer : ℕ → Result (List ℕ) → Result (Unit {0})
read_answer n (ok bytes) =
    if ltb (length bytes) n then err (Error.transfer_length_mismatch n (length bytes)) else ok tt
read_answer n (err e) = err e

abbrev pub write_answer : List ℕ → Result ℕ → Result (Unit {0})
write_answer payload (ok n) =
    if n == length payload then ok tt else err (Error.transfer_length_mismatch (length payload) n)
write_answer payload (err e) = err e

abbrev pub answer : UsbTransport → Bus → Call → Result (Unit {0})
answer t bus (control_in c v i n) = read_answer n (t.read_control bus (control_in c v i n))
answer t bus (control_out c v i payload) =
    write_answer payload (t.write_control bus (control_out c v i payload))
answer t bus _ = ok tt

-- `Tried t calls before result after`: the calls were performed in order, up to the first that fails, whose
-- error is the result; without one they were all performed and the result is `Ok`.
pub data Tried (t : UsbTransport) : List Call → Bus → Result (Unit {0}) → Bus → Type 0 where
  all_sent : {b : Bus} → Tried t [] b (ok tt) b
  refused :
      {c : Call} {cs : List Call} {b : Bus} {e : Error}
      → answer t b c ≡ err e
      → Tried t (c ∷ cs) b (err e) (c ∷ b)
  sent :
      {c : Call} {cs : List Call} {b b' : Bus} {r : Result (Unit {0})}
      → answer t b c ≡ ok tt
      → Tried t cs (c ∷ b) r b'
      → Tried t (c ∷ cs) b r b'

-- A computation that tries the calls, wherever it starts.
abbrev pub Tries : UsbTransport → List Call → Wire (Unit {0}) → Type 0
Tries t cs m = (bus : Bus) → Tried t cs bus (m bus).0 (m bus).1

-- A computation whose result is what the call comes to.
abbrev pub Answers : UsbTransport → Call → Wire (Unit {0}) → Type 0
Answers t c m = (bus : Bus) → (m bus).0 ≡ answer t bus c

-- One call, whatever the answer.
abbrev pub Makes {ℓ} : {A : Type ℓ} → Call → Wire A → Type 0
Makes c m = (bus : Bus) → (m bus).1 ≡ c ∷ bus

pub Result-cases {ℓ} :
    {A : Type ℓ} (r : Result A) → ((a : A) × (r ≡ ok a)) ⊎ ((e : Error) × (r ≡ err e))
Result-cases (ok a) = inl (a, refl)
Result-cases (err e) = inr (e, refl)

module _ {ℓ} {A B : Type ℓ} (m : Wire A) (f : A → Wire B) (bus : Bus) where
  pub bind-ok : (a : A) → (m bus).0 ≡ ok a → (m >>= f) bus ≡ f a (m bus).1
  bind-ok a e = ap (λ r. elim r [ ok x ↦ f x (m bus).1 | err x ↦ (err x, (m bus).1) ]) e

  pub bind-err : (x : Error) → (m bus).0 ≡ err x → (m >>= f) bus ≡ (err x, (m bus).1)
  bind-err x e = ap (λ r. elim r [ ok x ↦ f x (m bus).1 | err x ↦ (err x, (m bus).1) ]) e

-- How a chain that succeeds ran.
pub bind-inv {ℓ} :
    {A B : Type ℓ} (m : Wire A) (f : A → Wire B) (bus : Bus) {b : B}
    → ((m >>= f) bus).0 ≡ ok b
    → (a : A) × ((m bus).0 ≡ ok a) × ((m >>= f) bus ≡ f a (m bus).1) × ((f a (m bus).1).0 ≡ ok b)
bind-inv m f bus {b} h = elim (Result-cases (m bus).0) [
  | inl p ↦ (p.0, p.1, bind-ok m f bus p.0 p.1, subst (λ r. r.0 ≡ ok b) (bind-ok m f bus p.0 p.1) h)
  | inr p ↦
      absurd (let e : err p.0 ≡ ok b = subst (λ r. r.0 ≡ ok b) (bind-err m f bus p.0 p.1) h in cc)
]

-- The check of `out_setter` on the count accepted.
taken_whole : List ℕ → ℕ → Wire (Unit {0})
taken_whole payload n =
    if n == length payload
    then pure tt
    else fail (Error.transfer_length_mismatch (length payload) n)

taken_whole-inv :
    (payload : List ℕ) (n : ℕ) (bus : Bus) {u : Unit {0}}
    → (taken_whole payload n bus).0 ≡ ok u
    → n ≡ length payload
unfolding taken_whole
taken_whole-inv payload n bus {u} h = elim (Bool-cases (n == length payload)) [
  | inl e ↦ ground (arith, e)
  | inr e ↦ absurd (
      let refused : err (Error.transfer_length_mismatch (length payload) n) ≡ ok u = rw (e) at h in
      cc)
]

-- A request that succeeds has been taken in full.
pub out_setter-inv :
    (t : UsbTransport) (c : Command) (v i : ℕ) (payload : List ℕ) (bus : Bus) {u : Unit {0}}
    → (out_setter t c v i payload bus).0 ≡ ok u
    → t.write_control bus (control_out c v i payload) ≡ ok (length payload)
unfolding out_setter vendor_out taken_whole
out_setter-inv t c v i payload bus {u} h =
    let s = bind-inv (vendor_out t c v i payload) (taken_whole payload) bus h in
    s.1 ∙ ap ok (taken_whole-inv payload s.0 _ s.3)

-- A request that is taken in full succeeds.
pub out_setter-ok :
    (t : UsbTransport) (c : Command) (v i : ℕ) (payload : List ℕ) (bus : Bus)
    → t.write_control bus (control_out c v i payload) ≡ ok (length payload)
    → (out_setter t c v i payload bus).0 ≡ ok tt
unfolding out_setter vendor_out
out_setter-ok t c v i payload bus h =
    rw (h, (let e : length payload == length payload ≡ true = ground arith in e)) refl

pub then-Tries :
    (t : UsbTransport) (c : Call) (cs : List Call) (m k : Wire (Unit {0}))
    → Makes c m
    → Answers t c m
    → Tries t cs k
    → Tries t (c ∷ cs) (m >> k)
then-Tries t c cs m k hm ha hk bus = elim (Result-cases (m bus).0) [
  | inl p ↦
      subst (λ (r : Result (Unit {0}) × Bus). Tried t (c ∷ cs) bus r.0 r.1)
        (sym (bind-ok m (λ _. k) bus p.0 p.1))
        (rw (hm bus) (sent (sym (ha bus) ∙ p.1) (hk (c ∷ bus))))
  | inr p ↦
      subst (λ (r : Result (Unit {0}) × Bus). Tried t (c ∷ cs) bus r.0 r.1)
        (sym (bind-err m (λ _. k) bus p.0 p.1)) (rw (hm bus) (refused (sym (ha bus) ∙ p.1)))
]

pub last-Tries :
    (t : UsbTransport) (c : Call) (m : Wire (Unit {0}))
    → Makes c m
    → Answers t c m
    → Tries t (c ∷ []) m
last-Tries t c m hm ha bus = elim (Result-cases (m bus).0) [
  | inl p ↦ rw (p.1, hm bus) (sent (sym (ha bus) ∙ p.1) all_sent)
  | inr p ↦ rw (p.1, hm bus) (refused (sym (ha bus) ∙ p.1))
]

pub in_setter-Answers :
    (t : UsbTransport) (c : Command) (i : ℕ) → Answers t (control_in c 0 i 1) (in_setter t c i)
unfolding in_setter vendor_in
in_setter-Answers t c i bus = elim (Result-cases (t.read_control bus (control_in c 0 i 1))) [
  | inl p ↦
      rw (p.1)
        (elim (Bool-cases (ltb (length p.0) 1)) [ inl h ↦ rw (h) refl | inr h ↦ rw (h) refl ])
  | inr p ↦ rw (p.1) refl
]

pub in_setter-Makes :
    (t : UsbTransport) (c : Command) (i : ℕ) → Makes (control_in c 0 i 1) (in_setter t c i)
unfolding in_setter vendor_in
in_setter-Makes t c i bus = elim (Result-cases (t.read_control bus (control_in c 0 i 1))) [
  | inl p ↦
      rw (p.1)
        (elim (Bool-cases (ltb (length p.0) 1)) [ inl h ↦ rw (h) refl | inr h ↦ rw (h) refl ])
  | inr p ↦ rw (p.1) refl
]

pub out_setter-Makes :
    (t : UsbTransport) (c : Command) (v i : ℕ) (payload : List ℕ)
    → Makes (control_out c v i payload) (out_setter t c v i payload)
unfolding out_setter vendor_out
out_setter-Makes t c v i payload bus =
    elim (Result-cases (t.write_control bus (control_out c v i payload))) [
      | inl p ↦
          rw (p.1) (elim (Bool-cases (p.0 == length payload)) [
            | inl h ↦ rw (h) refl
            | inr h ↦ rw (h) refl
          ])
      | inr p ↦ rw (p.1) refl
    ]
