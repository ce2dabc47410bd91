-- ===== src/OldSuffix/Decimal.antt =====
-- `strconv.Itoa` and the value of a text of digits, which undo each other.
use home_drive.Base.{
  ℕ, zero, suc, ◌+◌, ◌-◌, ◌*◌, ◌/◌, ◌%◌, ◌<◌, ◌≡◌, refl, sym, ap, ◌∙◌, Bool, true,
}
use home_drive.Base.{
  [], ◌∷◌, ◌++◌, append_assoc, append-nil, arith, ltb, leb, ◌&&◌, ◌≢◌, if◌then◌else◌, All,
  All-append,
}
use native.Mathlib.Decide.{dec_lt}
use home_drive.Base.Text.{Bytes}

unfoldable pub is_digit : ℕ → Bool
is_digit c = leb b'0' c && leb c b'9'

-- The digits of `n`, with fuel; more than `n` is enough.
unfoldable pub digits : ℕ → ℕ → Bytes
digits zero n = []
digits (suc f) n =
    let more = digits f (n / 10) ++ (b'0' + n % 10) ∷ [] in
    if ltb n 10 then (b'0' + n) ∷ [] else more

unfoldable pub itoa : ℕ → Bytes
unfolding digits
itoa n = digits (suc n) n

unfoldable pub value : ℕ → Bytes → ℕ
value acc [] = acc
value acc (c ∷ s) = value (acc * 10 + (c - b'0')) s

value-append :
    (acc : ℕ) (s : Bytes) (c : ℕ) → value acc (s ++ c ∷ []) ≡ value acc s * 10 + (c - b'0')
unfolding value
value-append acc [] c = refl
value-append acc (d ∷ s) c = value-append (acc * 10 + (d - b'0')) s c

value-digits : (f n : ℕ) → n < f → value 0 (digits f n) ≡ n
unfolding digits value
value-digits zero n h = elim h [ ]
value-digits (suc f) n h =
    ground (arith, value-append 0 (digits f (n / 10)) (b'0' + n % 10), value-digits f (n / 10))

pub value-itoa : (n : ℕ) → value 0 (itoa n) ≡ n
unfolding itoa
value-itoa n = value-digits (suc n) n (omega arith)

abbrev pub Digit : ℕ → Type 0
Digit c = is_digit c ≡ true

Digit-of_lt : (n : ℕ) → n < 10 → Digit (b'0' + n)
unfolding is_digit
Digit-of_lt n h = ground arith

digits-Digit : (f n : ℕ) → All Digit (digits f n)
unfolding digits
digits-Digit zero n = tt
digits-Digit (suc f) n = elim (dec_lt n 10) [
  | yes h ↦ rw (one h) (Digit-of_lt n h, tt)
  | no h ↦ rw (more h) (
      All-append Digit (digits f (n / 10)) ((b'0' + n % 10) ∷ []) (digits-Digit f (n / 10))
        (Digit-of_lt (n % 10) (omega arith), tt))
]
  where
    one : n < 10 → digits (suc f) n ≡ (b'0' + n) ∷ []
    one h = ground arith

    more : ¬ (n < 10) → digits (suc f) n ≡ digits f (n / 10) ++ (b'0' + n % 10) ∷ []
    more h = ground arith

-- A positive number is written with a first digit that is not zero.
digits-head : (f n : ℕ) → n < f → 0 < n → (c : ℕ) × (s : Bytes) × (digits f n ≡ c ∷ s) × (b'0' < c)
unfolding digits
digits-head zero n h p = elim h [ ]
digits-head (suc f) n h p = elim (dec_lt n 10) [
  | yes k ↦ (b'0' + n, [], ground arith, omega arith)
  | no k ↦
      let (c, s, e, q) = digits-head f (n / 10) (omega arith) (omega arith) in
      (c, s ++ (b'0' + n % 10) ∷ [], ground (arith, e), q)
]

-- The fuel does not show.
digits-fuel : (f g n : ℕ) → n < f → n < g → digits f n ≡ digits g n
unfolding digits
digits-fuel zero g n h k = elim h [ ]
digits-fuel (suc f) zero n h k = elim k [ ]
digits-fuel (suc f) (suc g) n h k = ground (arith, digits-fuel f g (n / 10))

digits-step :
    (f a d : ℕ) → 0 < a → d < 10 → digits (suc f) (a * 10 + d) ≡ digits f a ++ (b'0' + d) ∷ []
unfolding digits
digits-step f a d h k =
    let high : (a * 10 + d) / 10 ≡ a = omega arith in
    let low : (a * 10 + d) % 10 ≡ d = omega arith in rw (high, low) (ground arith)

itoa-step : (a d : ℕ) → 0 < a → d < 10 → itoa (a * 10 + d) ≡ itoa a ++ (b'0' + d) ∷ []
unfolding itoa
itoa-step a d h k =
    digits-step (a * 10 + d) a d h k
    ∙ ap (λ t. t ++ (b'0' + d) ∷ [])
        (digits-fuel (a * 10 + d) (suc a) a (omega arith) (omega arith))

itoa-value_from : (acc : ℕ) (s : Bytes) → 0 < acc → All Digit s → itoa (value acc s) ≡ itoa acc ++ s
unfolding value
itoa-value_from acc [] h ds = sym (append-nil (itoa acc))
itoa-value_from acc (c ∷ s) h (dc, ds) =
    let low : c - b'0' < 10 = unfold is_digit in ground arith in
    let back : b'0' + (c - b'0') ≡ c = unfold is_digit in ground arith in
    itoa-value_from (acc * 10 + (c - b'0')) s (omega arith) ds
    ∙ rw (itoa-step acc (c - b'0') h low) (rw (back, append_assoc))

-- A text of digits that does not begin with zero is how its value is written.
pub itoa-value :
    (c : ℕ) (s : Bytes) → Digit c → c ≢ b'0' → All Digit s → itoa (value 0 (c ∷ s)) ≡ c ∷ s
unfolding value
itoa-value c s dc nz ds =
    let from_zero : 0 * 10 + (c - b'0') ≡ c - b'0' = omega arith in
    let one : itoa (c - b'0') ≡ c ∷ [] = unfold itoa digits is_digit in ground arith in
    itoa-value_from (0 * 10 + (c - b'0')) s (unfold is_digit in ground arith) ds
    ∙ rw (from_zero, one)

pub itoa-Digit : (n : ℕ) → All Digit (itoa n)
unfolding itoa
itoa-Digit n = digits-Digit (suc n) n

pub itoa-head : (n : ℕ) → 0 < n → (c : ℕ) × (s : Bytes) × (itoa n ≡ c ∷ s) × (b'0' < c)
unfolding itoa
itoa-head n p = digits-head (suc n) n (omega arith) p
