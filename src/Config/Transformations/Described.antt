-- ===== src/Config/Transformations/Described.antt =====
-- crates/rustium-config/src/debezium.rs: the rule that the text of a property describes.
use rustium.Common.{
  ℕ, subst, ◌⊎◌, ◌≡◌, refl, ap, sym, ◌∙◌, Bool, true, false, not, ◌&&◌, ◌||◌, Option, none, some,
  [], ◌∷◌, ◌++◌, Str, codes, ltb, ◌^◌, str_eq, str_eq_iff, is_empty, if◌then◌else◌, inl, inr,
}
use rustium.Common.Text.{parse_u64}
use rustium.Common.Text.Numbers.{all_digits}
use rustium.Core.Error.{Error, Result, ok, err}
use rustium.Config.Transformations.{
  strip_prefix, strip_suffix, put, put_left, split_once_at, contains_dot, stripped_suffix,
  parsed_length, length_in, dynamic_length, algorithm_and_salt, hash_in, dynamic_hash,
}
use rustium.Config.Transformations.Names.{strip_prefix-eq}

some_inj : {A : Type 0} {a b : A} → some a ≡ some b → a ≡ b
some_inj h = cc

ok_inj : {A : Type 0} {a b : A} → ok a ≡ ok b → a ≡ b
ok_inj h = cc

-- The name is the prefix, the digits of the length, and `.chars`.
pub record NamesLength (prefix name : Str) (n : ℕ) : Type 0 where
  pub digits : Str
  pub spelled : name ≡ prefix ++ (digits ++ codes ".chars")
  pub are_digits : all_digits digits ≡ true
  pub some_digits : is_empty digits ≡ false
  pub parsed : parse_u64 digits ≡ some n
  pub is_u32 : ltb n (2 ^ 32) ≡ true

-- The name is the prefix, the name of an algorithm without a dot, `.with.salt.`, and the salt.
pub record NamesHash (prefix name algorithm salt : Str) : Type 0 where
  pub spelled : name ≡ prefix ++ (algorithm ++ (codes ".with.salt." ++ salt))
  pub some_algorithm : is_empty algorithm ≡ false
  pub undotted : contains_dot algorithm ≡ false
  pub some_salt : is_empty salt ≡ false

strip_suffix_cases :
    (b : Bool) (c : ℕ) (rest : Option Str) (d : Str)
    → (if b then some [] else put c rest) ≡ some d
    → ((b ≡ true) × ([] ≡ d)) ⊎ ((e : Str) × ((rest ≡ some e) × ((c ∷ e) ≡ d)))
strip_suffix_cases true c rest d h = inl (refl, some_inj h)
strip_suffix_cases false c none d h = cc
strip_suffix_cases false c (some e) d h = inr (e, (refl, some_inj h))

strip_suffix-eq :
    (x : ℕ) (suffix s d : Str) → strip_suffix (x ∷ suffix) s ≡ some d → s ≡ d ++ (x ∷ suffix)
unfolding strip_suffix
strip_suffix-eq x suffix [] d h = cc
strip_suffix-eq x suffix (c ∷ s) d h =
    elim (strip_suffix_cases (str_eq (c ∷ s) (x ∷ suffix)) c (strip_suffix (x ∷ suffix) s) d h) [
      | inl (same, e) ↦ (str_eq_iff (c ∷ s) (x ∷ suffix)).0 same ∙ ap (λ t. t ++ (x ∷ suffix)) e
      | inr (e, (found, made)) ↦
          ap (c ∷◌) (strip_suffix-eq x suffix s e found) ∙ ap (λ t. t ++ (x ∷ suffix)) made
    ]

abbrev split_result : ℕ → Option Str → Option (Str × Str) → Option (Str × Str)
split_result c none later = put_left c later
split_result c (some r) later = some ([], r)

split_cases :
    (c : ℕ) (found : Option Str) (later : Option (Str × Str)) (l r : Str)
    → split_result c found later ≡ some (l, r)
    → ((found ≡ some r) × ([] ≡ l)) ⊎ ((m : Str) × ((later ≡ some (m, r)) × ((c ∷ m) ≡ l)))
split_cases c none none l r h = cc
split_cases c none (some (m, q)) l r h =
    let e = some_inj h in inr (m, (ap (λ t. some (m, t)) (ap (λ p. p.1) e), ap (λ p. p.0) e))
split_cases c (some q) later l r h =
    let e = some_inj h in inl (ap (λ p. some p.1) e, ap (λ p. p.0) e)

split_once_at-step :
    (separator : Str) (c : ℕ) (s : Str)
    → split_once_at separator (c ∷ s)
      ≡ split_result c (strip_prefix separator (c ∷ s)) (split_once_at separator s)
unfolding split_once_at
split_once_at-step separator c s = by_found (strip_prefix separator (c ∷ s))
  where
    by_found :
        (found : Option Str)
        → (elim found as (λ _. Option (Str × Str)) [
          | none ↦ put_left c (split_once_at separator s)
          | some r ↦ some ([], r)
        ])
          ≡ split_result c found (split_once_at separator s)
    by_found none = refl
    by_found (some r) = refl

no_split :
    (x : ℕ) (separator l r : Str)
    → split_once_at (x ∷ separator) [] ≡ some (l, r)
    → [] ≡ l ++ ((x ∷ separator) ++ r)
unfolding split_once_at strip_prefix
no_split x separator l r h = cc

split_once_at-eq :
    (x : ℕ) (separator s l r : Str)
    → split_once_at (x ∷ separator) s ≡ some (l, r)
    → s ≡ l ++ ((x ∷ separator) ++ r)
split_once_at-eq x separator [] l r h = no_split x separator l r h
split_once_at-eq x separator (c ∷ s) l r h =
    elim (split_cases c (strip_prefix (x ∷ separator) (c ∷ s)) (split_once_at (x ∷ separator) s) l r
      (sym (split_once_at-step (x ∷ separator) c s) ∙ h)) [
        | inl (found, e) ↦
            strip_prefix-eq (x ∷ separator) (c ∷ s) r found
            ∙ ap (λ t. t ++ ((x ∷ separator) ++ r)) e
        | inr (m, (found, e)) ↦
            ap (c ∷◌) (split_once_at-eq x separator s m r found)
            ∙ ap (λ t. t ++ ((x ∷ separator) ++ r)) e
      ]

unless_refused :
    (e : Error) (b : Bool) (m n : ℕ)
    → (if b then ok (some m) else err e) ≡ ok (some n)
    → (b ≡ true) × (m ≡ n)
unless_refused e true m n h = (refl, some_inj (ok_inj h))
unless_refused e false m n h = cc

parsed_length-eq :
    (o : Option ℕ) (n : ℕ) → parsed_length o ≡ ok (some n) → (o ≡ some n) × (ltb n (2 ^ 32) ≡ true)
parsed_length-eq none n h = cc
parsed_length-eq (some m) n h =
    let (small, same) = unless_refused _ (ltb m (2 ^ 32)) m n h in
    (ap some same, ap (λ k. ltb k (2 ^ 32)) (sym same) ∙ small)

unless_skipped :
    (b : Bool) (r : Result (Option ℕ)) (n : ℕ)
    → (if b then ok none else r) ≡ ok (some n)
    → (b ≡ false) × (r ≡ ok (some n))
unless_skipped true r n h = cc
unless_skipped false r n h = (refl, h)

neither : (a b : Bool) → (a || not b) ≡ false → (a ≡ false) × (b ≡ true)
neither true b h = cc
neither false true h = (refl, refl)
neither false false h = cc

length_in-some :
    (o : Option Str) (n : ℕ)
    → length_in o ≡ ok (some n)
    → (d : Str) × ((o ≡ some d)
        × (((is_empty d ≡ false) × (all_digits d ≡ true))
            × ((parse_u64 d ≡ some n) × (ltb n (2 ^ 32) ≡ true))))
unfolding length_in
length_in-some none n h = cc
length_in-some (some d) n h =
    let (digits, parsed) =
      unless_skipped (is_empty d || not (all_digits d)) (parsed_length (parse_u64 d)) n h in
    (
      d,
      (refl, (neither (is_empty d) (all_digits d) digits, parsed_length-eq (parse_u64 d) n parsed)),
    )

stripped_suffix-some :
    (suffix : Str) (o : Option Str) (d : Str)
    → stripped_suffix suffix o ≡ some d
    → (v : Str) × ((o ≡ some v) × (strip_suffix suffix v ≡ some d))
unfolding stripped_suffix
stripped_suffix-some suffix none d h = cc
stripped_suffix-some suffix (some v) d h = (v, (refl, h))

-- A length that is found in a name is the one that the name has.
pub dynamic_length-NamesLength :
    (name prefix : Str) (n : ℕ)
    → dynamic_length name prefix (codes ".chars") ≡ ok (some n)
    → NamesLength prefix name n
unfolding dynamic_length
dynamic_length-NamesLength name prefix n h =
    let (d, (ended, ((some_digits, are_digits), (parsed, is_u32)))) = length_in-some _ n h in
    let (v, (begun, cut)) = stripped_suffix-some (codes ".chars") _ d ended in
    record {
      digits = d;
      spelled =
          strip_prefix-eq prefix name v begun
          ∙ ap (prefix ++◌) (strip_suffix-eq b'.' (codes "chars") v d cut);
      are_digits = are_digits;
      some_digits = some_digits;
      parsed = parsed;
      is_u32 = is_u32;
    }

unless_rejected :
    (b : Bool) (p q : Str × Str) → (if b then some p else none) ≡ some q → (b ≡ true) × (p ≡ q)
unless_rejected true p q h = (refl, some_inj h)
unless_rejected false p q h = cc

all_hold :
    (a b c : Bool) → (not a && (not b && not c)) ≡ true → (a ≡ false) × ((b ≡ false) × (c ≡ false))
all_hold true b c h = cc
all_hold false true c h = cc
all_hold false false true h = cc
all_hold false false false h = (refl, (refl, refl))

-- What is read of the two parts of a name.
abbrev AreParts : Str × Str → Type 0
AreParts (algorithm, salt) =
    (is_empty algorithm ≡ false) × ((contains_dot algorithm ≡ false) × (is_empty salt ≡ false))

algorithm_and_salt-some :
    (o : Option (Str × Str)) (q : Str × Str)
    → algorithm_and_salt o ≡ some q
    → (o ≡ some q) × AreParts q
unfolding algorithm_and_salt
algorithm_and_salt-some none q h = cc
algorithm_and_salt-some (some (a, s)) q h =
    let (tests, same) =
      unless_rejected (not (is_empty a) && (not (contains_dot a) && not (is_empty s))) (a, s) q h in
    (ap some same, subst AreParts same (all_hold (is_empty a) (contains_dot a) (is_empty s) tests))

hash_in-some :
    (o : Option Str) (q : Str × Str)
    → hash_in o ≡ some q
    → (v : Str) × ((o ≡ some v) × ((split_once_at (codes ".with.salt.") v ≡ some q) × AreParts q))
unfolding hash_in
hash_in-some none q h = cc
hash_in-some (some v) q h =
    (v, (refl, algorithm_and_salt-some (split_once_at (codes ".with.salt.") v) q h))

-- An algorithm and a salt that are found in a name are those that the name has.
pub dynamic_hash-NamesHash :
    (name prefix algorithm salt : Str)
    → dynamic_hash name prefix ≡ some (algorithm, salt)
    → NamesHash prefix name algorithm salt
unfolding dynamic_hash
dynamic_hash-NamesHash name prefix algorithm salt h =
    let (v, (begun, (cut, (some_algorithm, (undotted, some_salt))))) =
      hash_in-some _ (algorithm, salt) h in
    record {
      spelled =
          strip_prefix-eq prefix name v begun
          ∙ ap (prefix ++◌) (split_once_at-eq b'.' (codes "with.salt.") v algorithm salt cut);
      some_algorithm = some_algorithm;
      undotted = undotted;
      some_salt = some_salt;
    }
