-- ===== src/Varint/RoundTrip.antt =====
-- Read undoes Write, and ByteSize is the number of bytes that Write makes.
use native.Mathlib.Nat.{
  div-add-mod, div-div-eq-div-mul, mul-le-mul_right, div-lt_iff_lt-mul, mod-eq_of_lt,
}
use native.Mathlib.Numerals.{towards_suc}
use ringfile.Prelude.{
  ℕ, zero, suc, ◌+◌, ◌*◌, ◌/◌, ◌%◌, ◌^◌, ◌≤◌, ◌<◌, ◌≡◌, refl, sym, ap, ◌∙◌, true, false, ◌==◌, some,
  List, ◌∷◌, ◌++◌, arith, length, Bool-cases, inl, inr,
}
use ringfile.Varint.{
  max_size, less_exp2, byte_size_from, byte_size, group, write_from, write, read_from, read,
}

less_exp2-lt : (value k : ℕ) → less_exp2 value k ≡ true → value < 2 ^ k
unfolding less_exp2
less_exp2-lt value k h = ground arith

-- The last round always ends the loop.
less_exp2_last : (value : ℕ) → value < 2 ^ 64 → less_exp2 value 70 ≡ true
unfolding less_exp2
less_exp2_last value h = ground arith

power_step : (shift : ℕ) → 2 ^ ((shift + 1) * 7) ≡ 128 * 2 ^ (shift * 7)
power_step shift =
    let e : (shift + 1) * 7 ≡ shift * 7 + 7 = omega arith in
    ap (λ k. 2 ^ k) e ∙ simp towards_suc (omega arith)

-- what is left of the value after `shift` bytes
abbrev left : ℕ → ℕ → ℕ
left value shift = value / 2 ^ (shift * 7)

left-suc : (value shift : ℕ) → left value (shift + 1) ≡ left value shift / 128
left-suc value shift =
    let e : 2 ^ ((shift + 1) * 7) ≡ 2 ^ (shift * 7) * 128 = omega (arith, power_step shift) in
    ap (λ d. value / d) e ∙ sym (div-div-eq-div-mul value (2 ^ (shift * 7)) 128)

-- the part of the value in the bytes read so far makes it up with what is left
keep_step :
    (value acc shift : ℕ)
    → acc + left value shift * 2 ^ (shift * 7) ≡ value
    → acc + group value shift * 2 ^ (shift * 7) + left value (shift + 1) * 2 ^ ((shift + 1) * 7)
      ≡ value
keep_step value acc shift h = omega (
  arith,
  ap (λ t. t * 2 ^ (shift * 7)) (div-add-mod (left value shift) 128),
  ap (λ t. left value shift / 128 * t) (power_step shift),
  ap (λ t. t * 2 ^ ((shift + 1) * 7)) (left-suc value shift),
)

group_fits :
    (value acc shift : ℕ)
    → value < 2 ^ 64
    → acc + left value shift * 2 ^ (shift * 7) ≡ value
    → group value shift * 2 ^ (shift * 7) % 2 ^ 64 ≡ group value shift * 2 ^ (shift * 7)
group_fits value acc shift h e =
    let small : group value shift ≤ left value shift = omega arith in
    mod-eq_of_lt (omega (arith, mul-le-mul_right (2 ^ (shift * 7)) small))

power_pos : (k : ℕ) → 0 < 2 ^ k
power_pos zero = omega arith
power_pos (suc k) = omega (arith, power_pos k)

left_last : (value shift : ℕ) → less_exp2 value ((shift + 1) * 7) ≡ true → left value shift < 128
left_last value shift h =
    (div-lt_iff_lt-mul (power_pos (shift * 7))).1
      (omega (arith, less_exp2-lt value ((shift + 1) * 7) h, power_step shift))

last_byte :
    (rounds shift value acc : ℕ) (rest : List ℕ)
    → value < 2 ^ 64
    → acc + left value shift * 2 ^ (shift * 7) ≡ value
    → less_exp2 value ((shift + 1) * 7) ≡ true
    → read_from (suc rounds) shift acc (write_from (suc rounds) shift value ++ rest)
      ≡ some (shift + length (write_from (suc rounds) shift value), value)
unfolding read_from write_from
last_byte rounds shift value acc rest h e last =
    rw last (ground (arith, left_last value shift last, group_fits value acc shift h e))

inner_byte :
    (rounds shift acc g : ℕ) (bytes : List ℕ)
    → g < 128
    → g * 2 ^ (shift * 7) % 2 ^ 64 ≡ g * 2 ^ (shift * 7)
    → read_from (suc rounds) shift acc ((g + 128) ∷ bytes)
      ≡ read_from rounds (shift + 1) (acc + g * 2 ^ (shift * 7)) bytes
unfolding read_from
inner_byte rounds shift acc g bytes h e =
    let low : (g + 128) % 128 ≡ g = omega arith in
    let top : ((g + 128) / 128 % 2 == 0) ≡ false = ground arith in rw (top, low, e) refl

write_from_more :
    (rounds shift value : ℕ)
    → less_exp2 value ((shift + 1) * 7) ≡ false
    → write_from (suc rounds) shift value
      ≡ (group value shift + 128) ∷ write_from rounds (shift + 1) value
unfolding write_from
write_from_more rounds shift value h = rw h refl

-- Reading from a byte on, with what the bytes before it gave.
read_from-write_from :
    (rounds shift value acc : ℕ) (rest : List ℕ)
    → rounds + shift ≡ 9
    → value < 2 ^ 64
    → acc + left value shift * 2 ^ (shift * 7) ≡ value
    → read_from (suc rounds) shift acc (write_from (suc rounds) shift value ++ rest)
      ≡ some (shift + length (write_from (suc rounds) shift value), value)
read_from-write_from zero shift value acc rest r h e =
    let seventy : (shift + 1) * 7 ≡ 70 = omega arith in
    last_byte zero shift value acc rest h e (ap (less_exp2 value) seventy ∙ less_exp2_last value h)
read_from-write_from (suc rounds) shift value acc rest r h e =
    elim (Bool-cases (less_exp2 value ((shift + 1) * 7))) [
      | inl last ↦ last_byte (suc rounds) shift value acc rest h e last
      | inr more ↦
          let ih =
            read_from-write_from rounds (shift + 1) value
              (acc + group value shift * 2 ^ (shift * 7)) rest (omega arith) h
              (keep_step value acc shift e) in
          let bytes = write_from (suc rounds) (shift + 1) value in
          let w = write_from_more (suc rounds) shift value more in
          let step =
            inner_byte (suc rounds) shift acc (group value shift) (bytes ++ rest) (omega arith)
              (group_fits value acc shift h e) in
          ap (λ b. read_from (suc (suc rounds)) shift acc (b ++ rest)) w
          ∙ (step
              ∙ (ih ∙ ap (λ n. some (n, value)) (omega (arith, ap (λ (b : List ℕ). length b) w))))
    ]

-- Read of what Write makes of a 64-bit value, with any bytes behind it, gives the value and the
-- number of bytes that were written.
pub read-write :
    (value : ℕ) (rest : List ℕ)
    → value < 2 ^ 64
    → read (write value ++ rest) ≡ some (length (write value), value)
unfolding read write
read-write value rest h =
    read_from-write_from 9 0 value 0 rest refl h (omega arith)
    ∙ ap (λ n. some (n, value)) (omega arith)

byte_size_from-write_from :
    (rounds shift value : ℕ)
    → rounds + shift ≡ 9
    → value < 2 ^ 64
    → byte_size_from (suc rounds) shift value
      ≡ some (shift + length (write_from (suc rounds) shift value))
unfolding byte_size_from write_from
byte_size_from-write_from zero shift value r h =
    let seventy : (shift + 1) * 7 ≡ 70 = omega arith in
    rw (ap (less_exp2 value) seventy ∙ less_exp2_last value h) refl
byte_size_from-write_from (suc rounds) shift value r h =
    elim (Bool-cases (less_exp2 value ((shift + 1) * 7))) [
      | inl last ↦ rw last refl
      | inr more ↦
          rw (more, byte_size_from-write_from rounds (shift + 1) value (omega arith) h)
            (ap some (omega arith))
    ]

length-write_from :
    (rounds shift value : ℕ)
    → (0 < length (write_from (suc rounds) shift value))
      × (length (write_from rounds shift value) ≤ rounds)
unfolding write_from
length-write_from zero shift value = ground arith
length-write_from (suc rounds) shift value =
    ground (arith, length-write_from rounds (shift + 1) value)

-- ByteSize is the number of bytes that Write makes, which is at least 1 and at most kMaxSize.
pub byte_size-write :
    (value : ℕ)
    → value < 2 ^ 64
    → (byte_size value ≡ some (length (write value)))
      × (0 < length (write value))
      × (length (write value) ≤ max_size)
unfolding byte_size write
byte_size-write value h = (
  byte_size_from-write_from 9 0 value refl h ∙ ap some (omega arith),
  (length-write_from 9 0 value).0,
  (length-write_from 10 0 value).1,
)
