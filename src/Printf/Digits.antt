-- ===== src/Printf/Digits.antt =====
-- The digits that number collects: they spell the number, and never run past the end of `tmp`.
use native.Mathlib.Nat.{
  mod-lt, div-lt_iff_lt-mul, mul-le-mul_left, mul_comm, div-add-mod, mod-eq_of_lt, pow-suc,
}
use rvcomp.Base.{
  ℕ, zero, suc, ◌+◌, ◌-◌, ◌*◌, ◌/◌, ◌%◌, ◌^◌, ◌≤◌, ◌<◌, ◌≡◌, refl, ap, ◌∙◌, ◌≢◌, ◌⊎◌, Bool, true,
  false, ◌&&◌, ◌||◌, some, List, [], ◌∷◌, arith, ltb, leb, ◌==◌, if◌then◌else◌, length, get_or,
}
use rvcomp.Printf.{is_digit, digits, upper_digits, digit_loop, digit_list}

-- The value of a digit of either table.
abbrev pub digit_val : ℕ → ℕ
digit_val c = if ltb c 58 then c - 48 else (if ltb c 91 then c - 55 else c - 87)

-- The number that digits, first one first, spell behind `acc`.
abbrev pub value : ℕ → ℕ → List ℕ → ℕ
value base acc [] = acc
value base acc (c ∷ s) = value base (acc * base + digit_val c) s

abbrev pub AllDigits : List ℕ → Type 0
AllDigits [] = Unit {0}
AllDigits (c ∷ s) = (is_digit c ≡ true) × AllDigits s

-- Characters that are digits of a base up to 16, in lower case.
abbrev pub AllHex : ℕ → List ℕ → Type 0
AllHex base [] = Unit {0}
AllHex base (c ∷ s) =
    (((b'0' ≤ c) × (c ≤ b'9')) ⊎ ((b'a' ≤ c) × (c ≤ b'f'))) × (digit_val c < base) × AllHex base s

-- Each character of a table has its place, counted from `i`, as its value.
abbrev table : ℕ → List ℕ → Bool
table i [] = true
table i (c ∷ s) = digit_val c == i && (is_digit c || leb 10 i) && table (i + 1) s

table_lem :
    (s : List ℕ) (i n : ℕ)
    → table i s ≡ true
    → n < length s
    → (digit_val (get_or s n 0) ≡ i + n) × (i + n < 10 → is_digit (get_or s n 0) ≡ true)
table_lem [] i n ok lt = absurd (omega arith)
table_lem (c ∷ s) i zero ok lt = (ground arith, λ small. ground arith)
table_lem (c ∷ s) i (suc n) ok lt =
    let (val, dec) = table_lem s (i + 1) n (ground arith) (omega arith) in
    (val ∙ omega arith, λ small. dec (omega arith))

-- A table of the 36 digits.
pub record IsTable (dig : List ℕ) : Type 0 where
  pub digit : (n : ℕ) → n < 36 → digit_val (get_or dig n 0) ≡ n
  pub decimal : (n : ℕ) → n < 10 → is_digit (get_or dig n 0) ≡ true

table-IsTable : (dig : List ℕ) → table 0 dig ≡ true → length dig ≡ 36 → IsTable dig
table-IsTable dig ok len = record {
  digit = λ n lt. (table_lem dig 0 n ok (omega arith)).0 ∙ omega arith;
  decimal = λ n lt. (table_lem dig 0 n ok (omega arith)).1 (omega arith);
}

pub digits-IsTable : (upper : Bool) → IsTable (if upper then upper_digits else digits)
digits-IsTable true = table-IsTable upper_digits refl refl
digits-IsTable false = table-IsTable digits refl refl

-- What the loop leaves in `tmp` for `num`, over what stood there.
pub record Collected (base num bits : ℕ) (tmp ds : List ℕ) : Type 0 where
  pub spells : value base 0 ds ≡ value base num tmp
  pub fits : length ds ≤ bits + length tmp
  pub grows : length tmp ≤ length ds
  pub first : 0 < num → (0 < length ds) × (digit_val (get_or ds 0 0) ≢ 0)
  pub stays : num ≡ 0 → ds ≡ tmp
  pub decimal : base ≤ 10 → AllDigits tmp → AllDigits ds

pub half_bits : (n base k : ℕ) → n < 2 ^ suc k → 2 ≤ base → n / base < 2 ^ k
half_bits n base k lt le =
    let more : 2 ^ k * 2 ≤ 2 ^ k * base = mul-le-mul_left (2 ^ k) le in
    (div-lt_iff_lt-mul {k = base} {x = n} {y = 2 ^ k} (omega arith)).1 (omega (arith, pow-suc 2 k))

module _ {dig : List ℕ} (is_table : IsTable dig) (base : ℕ) (two : 2 ≤ base)
    (small : base ≤ 36) where
  first_digit :
      (q n : ℕ) {bits : ℕ} {tmp ds : List ℕ}
      → suc n / base ≡ q
      → Collected base q bits (get_or dig (suc n % base) 0 ∷ tmp) ds
      → (0 < length ds) × (digit_val (get_or ds 0 0) ≢ 0)
  first_digit zero n {tmp = tmp} e c =
      let few : suc n < base =
        omega (
          arith,
          (div-lt_iff_lt-mul {k = base} {x = suc n} {y = 1} (omega arith)).0 (omega arith),
        ) in
      let whole : suc n % base ≡ suc n = mod-eq_of_lt few in
      let worth = is_table.digit (suc n % base) (omega arith) in
      rw (c.stays refl) (omega arith, λ z. absurd (omega arith))
  first_digit (suc q) n e c = c.first (omega arith)

  digit_loop_lem :
      (bits room num : ℕ) (tmp : List ℕ)
      → num < 2 ^ bits
      → bits ≤ room
      → (ds : List ℕ) × (digit_loop room dig base num tmp ≡ some ds)
        × Collected base num bits tmp ds
  unfolding digit_loop
  digit_loop_lem bits room zero tmp lt le = (
    tmp,
    refl,
    record {
      spells = refl;
      fits = omega arith;
      grows = omega arith;
      first = λ h. absurd (omega arith);
      stays = λ _. refl;
      decimal = λ _ h. h;
    },
  )
  digit_loop_lem zero room (suc n) tmp lt le = absurd (omega arith)
  digit_loop_lem (suc bits) zero (suc n) tmp lt le = absurd (omega arith)
  digit_loop_lem (suc bits) (suc room) (suc n) tmp lt le =
      let d : ℕ = get_or dig (suc n % base) 0 in
      let digit : suc n % base < base = mod-lt (suc n) (omega arith) in
      let back : suc n / base * base + digit_val d ≡ suc n = omega (
        arith,
        is_table.digit (suc n % base) (omega arith),
        div-add-mod (suc n) base,
        mul_comm base (suc n / base),
      ) in
      let (ds, e, c) =
        digit_loop_lem bits room (suc n / base) (d ∷ tmp) (half_bits (suc n) base bits lt two)
          (omega arith) in
      (
        ds,
        e,
        record {
          spells = c.spells ∙ ap (λ (n : ℕ). value base n tmp) back;
          fits = omega (arith, c.fits);
          grows = omega (arith, c.grows);
          first = λ _. first_digit (suc n / base) n refl c;
          stays = λ z. absurd (omega arith);
          decimal = λ few all. c.decimal few (is_table.decimal (suc n % base) (omega arith), all);
        },
      )

-- The digits of a number in a base: they spell it, there are at most 32, and a zero comes first
-- for zero alone.
pub record Numeral (base num : ℕ) (ds : List ℕ) : Type 0 where
  pub spells : value base 0 ds ≡ num
  pub some_digit : 0 < length ds
  pub fits : length ds ≤ 32
  pub first : 0 < num → digit_val (get_or ds 0 0) ≢ 0
  pub decimal : base ≤ 10 → AllDigits ds

pub digit_list-Numeral :
    (upper : Bool) (base num : ℕ)
    → 2 ≤ base
    → base ≤ 36
    → num < 2 ^ 32
    → (ds : List ℕ) × (digit_list (if upper then upper_digits else digits) base num ≡ some ds)
      × Numeral base num ds
unfolding digit_list
digit_list-Numeral upper base zero two small lt = (
  b'0' ∷ [],
  refl,
  record {
    spells = omega arith;
    some_digit = omega arith;
    fits = omega arith;
    first = λ h. absurd (omega arith);
    decimal = λ _. (refl, tt);
  },
)
digit_list-Numeral upper base (suc n) two small lt =
    let (ds, e, c) =
      digit_loop_lem (digits-IsTable upper) base two small 32 66 (suc n) [] lt (omega arith) in
    (
      ds,
      e,
      record {
        spells = c.spells;
        some_digit = (c.first (omega arith)).0;
        fits = omega (arith, c.fits);
        first = λ h. (c.first h).1;
        decimal = λ few. c.decimal few tt;
      },
    )
