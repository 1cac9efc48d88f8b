-- ===== src/Common/Text/Numbers.antt =====
-- Decimal numbers as texts, and texts in parts.
use native.Mathlib.Nat.{pow-suc}
use rustium.Common.{
  ℕ, zero, suc, ◌+◌, ◌-◌, ◌*◌, ◌/◌, ◌%◌, ◌^◌, ◌<◌, ◌≡◌, refl, ap, ◌∙◌, inl, inr, Bool, true, false,
  not, ◌&&◌, Option, none, some, [], ◌∷◌, ◌++◌, Str, arith, Bool-cases, ltb, ◌==◌, is_empty,
}
use rustium.Common.Text.{is_digit, digits, decimal, parse_digits, parse_u64, split}

abbrev pub and_then : Option ℕ → (ℕ → Option ℕ) → Option ℕ
and_then none f = none
and_then (some n) f = f n

abbrev pub all_digits : Str → Bool
all_digits [] = true
all_digits (c ∷ s) = is_digit c && all_digits s

parse_digits-append :
    (n : ℕ) (s t : Str)
    → parse_digits n (s ++ t) ≡ and_then (parse_digits n s) (λ m. parse_digits m t)
unfolding parse_digits
parse_digits-append n [] t = refl
parse_digits-append n (c ∷ s) t =
    elim (Bool-cases (is_digit c && ltb (n * 10 + (c - 48)) (2 ^ 64))) [
      | inl e ↦ rw e (parse_digits-append (n * 10 + (c - 48)) s t)
      | inr e ↦ rw e refl
    ]

parse_digit :
    (m d : ℕ) → d < 10 → m * 10 + d < 2 ^ 64 → parse_digits m ((48 + d) ∷ []) ≡ some (m * 10 + d)
unfolding parse_digits
parse_digit m d h k =
    let next : m * 10 + (48 + d - 48) ≡ m * 10 + d = omega arith in
    let digit : (is_digit (48 + d) && ltb (m * 10 + d) (2 ^ 64)) ≡ true = ground arith in
    rw (next, digit) refl

digits-small : (fuel n : ℕ) → ltb n 10 ≡ true → digits (suc fuel) n ≡ (48 + n) ∷ []
unfolding digits
digits-small fuel n h = rw h refl

digits-large :
    (fuel n : ℕ)
    → ltb n 10 ≡ false
    → digits (suc fuel) n ≡ digits fuel (n / 10) ++ (48 + n % 10) ∷ []
unfolding digits
digits-large fuel n h = rw h refl

parse_digits-digits :
    (fuel n : ℕ) → n < 10 ^ suc fuel → n < 2 ^ 64 → parse_digits 0 (digits (suc fuel) n) ≡ some n
parse_digits-digits zero n h k =
    let small : ltb n 10 ≡ true = ground arith in
    rw (digits-small 0 n small)
      (parse_digit 0 n (omega (arith, h)) (omega (arith, k)) ∙ ap some (omega arith))
parse_digits-digits (suc fuel) n h k = elim (Bool-cases (ltb n 10)) [
  | inl small ↦
      rw (digits-small (suc fuel) n small)
        (parse_digit 0 n (ground arith) (omega (arith, k)) ∙ ap some (omega arith))
  | inr large ↦
      let bound : n < 10 ^ suc fuel * 10 = rw (← pow-suc 10 (suc fuel)) h in
      let rest = parse_digits-digits fuel (n / 10) (omega (arith, bound)) (omega (arith, k)) in
      rw
        (
          digits-large (suc fuel) n large,
          parse_digits-append 0 (digits (suc fuel) (n / 10)) _,
          rest,
        )
        (parse_digit (n / 10) (n % 10) (omega arith) (omega (arith, k)) ∙ ap some (omega arith))
]

all_digits-append :
    (s t : Str) → all_digits s ≡ true → all_digits t ≡ true → all_digits (s ++ t) ≡ true
all_digits-append [] t h k = k
all_digits-append (c ∷ s) t h k = ground (arith, all_digits-append s t)

all_digits-digits : (fuel n : ℕ) → all_digits (digits fuel n) ≡ true
unfolding digits
all_digits-digits zero n = refl
all_digits-digits (suc fuel) n = elim (Bool-cases (ltb n 10)) [
  | inl small ↦ rw (digits-small fuel n small) (ground arith)
  | inr large ↦
      rw (digits-large fuel n large)
        (all_digits-append (digits fuel (n / 10)) _ (all_digits-digits fuel (n / 10)) (last n))
]
  where
    last : (n : ℕ) → all_digits ((48 + n % 10) ∷ []) ≡ true
    last n = ground arith

pub all_digits-decimal : (n : ℕ) → all_digits (decimal n) ≡ true
unfolding decimal
all_digits-decimal n = all_digits-digits 20 n

is_empty-append : (s : Str) (c : ℕ) → is_empty (s ++ c ∷ []) ≡ false
is_empty-append [] c = refl
is_empty-append (x ∷ s) c = refl

pub is_empty-decimal : (n : ℕ) → is_empty (decimal n) ≡ false
unfolding decimal
is_empty-decimal n = elim (Bool-cases (ltb n 10)) [
  | inl small ↦ rw (digits-small 19 n small) refl
  | inr large ↦ rw (digits-large 19 n large) (is_empty-append (digits 19 (n / 10)) _)
]

parse_u64-digits :
    (s : Str) → all_digits s ≡ true → is_empty s ≡ false → parse_u64 s ≡ parse_digits 0 s
unfolding parse_u64
parse_u64-digits [] h k = ground arith
parse_u64-digits (c ∷ s) h k = let no_sign : (c == b'+') ≡ false = ground arith in rw no_sign refl

-- A number below 2^64 is read as it is printed.
pub parse_u64-decimal : (n : ℕ) → n < 2 ^ 64 → parse_u64 (decimal n) ≡ some n
unfolding decimal
parse_u64-decimal n h =
    parse_u64-digits (decimal n) (all_digits-decimal n) (is_empty-decimal n)
    ∙ parse_digits-digits 19 n (omega (arith, h)) h

-- A text without a separator.
abbrev pub lacks : ℕ → Str → Bool
lacks sep [] = true
lacks sep (c ∷ s) = not (c == sep) && lacks sep s

pub lacks-append :
    (sep : ℕ) (s t : Str) → lacks sep s ≡ true → lacks sep t ≡ true → lacks sep (s ++ t) ≡ true
lacks-append sep [] t h k = k
lacks-append sep (c ∷ s) t h k = ground (arith, lacks-append sep s t)

pub lacks-digits :
    (sep : ℕ) (s : Str) → is_digit sep ≡ false → all_digits s ≡ true → lacks sep s ≡ true
lacks-digits sep [] h k = refl
lacks-digits sep (c ∷ s) h k = ground (arith, lacks-digits sep s)

pub split-lacks : (sep : ℕ) (s : Str) → lacks sep s ≡ true → split sep s ≡ s ∷ []
unfolding split
split-lacks sep [] h = refl
split-lacks sep (c ∷ s) h =
    let other : (c == sep) ≡ false = ground arith in
    let rest = split-lacks sep s (ground arith) in rw (other, rest) refl

pub split-append :
    (sep : ℕ) (s t : Str) → lacks sep s ≡ true → split sep (s ++ sep ∷ t) ≡ s ∷ split sep t
unfolding split
split-append sep [] t h = let here : (sep == sep) ≡ true = ground arith in rw here refl
split-append sep (c ∷ s) t h =
    let other : (c == sep) ≡ false = ground arith in
    let rest = split-append sep s t (ground arith) in rw (other, rest) refl
