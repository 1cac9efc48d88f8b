-- ===== src/Config/Properties/RoundTrip/Lines.antt =====
-- crates/rustium-config/src/debezium.rs: `parse_properties` on the lines that rustium-debezium
-- writes.
use rustium.Common.{
  ℕ, ◌≡◌, refl, ap, ◌∙◌, Bool, true, false, ◌||◌, some, List, [], ◌∷◌, ◌++◌, Str, arith, ◌==◌,
  ==_iff, Bool-cases, inl, inr, is_empty, str_eq,
}
use rustium.Common.Text.{is_whitespace, is_blank, split}
use rustium.Common.Text.Numbers.{lacks, lacks-append, split-append}
use rustium.Common.Assoc.{insert}
use rustium.Core.Error.{ok}
use rustium.Config.Properties.{
  PropertyMap, trim_end, trim_start_matches, trim, without_return, lines_of, lines, logical_lines,
  is_separator, split_separator, is_comment, insert_entry, insert_line, insert_lines,
  parse_properties,
}
use rustium.Config.Properties.Written.{join_lines}
use rustium.Config.Properties.RoundTrip.{
  value_char, written_value, written_key, has_no_separator, unescape-written_value,
  unescape-written_key, odd_slashes-written_value, odd_slashes-separator,
}

abbrev pub starts_with_separator : Str → Bool
starts_with_separator [] = false
starts_with_separator (c ∷ s) = is_separator c

abbrev pub ends_with_space : Str → Bool
ends_with_space [] = false
ends_with_space (c ∷ []) = is_whitespace c
ends_with_space (c ∷ d ∷ s) = ends_with_space (d ∷ s)

-- An entry that a line can hold: the key is no comment and has neither `=`, `:` nor white space,
-- and the value neither starts with one of these nor ends with white space.
pub record IsEntry (key value : Str) : Type 0 where
  pub key_apart : has_no_separator key ≡ true
  pub key_shown : is_comment key ≡ false
  pub value_starts : starts_with_separator value ≡ false
  pub value_ends : ends_with_space value ≡ false

abbrev pub AreEntries : PropertyMap → Type 0
AreEntries [] = Unit
AreEntries ((key, value) ∷ rest) = IsEntry key value × AreEntries rest

abbrev pub line_of : Str → Str → Str
line_of key value = written_key key ++ (b'=' ∷ written_value value)

abbrev pub lines_of_entries : PropertyMap → List Str
lines_of_entries [] = []
lines_of_entries ((key, value) ∷ rest) = line_of key value ∷ lines_of_entries rest

-- The map of the entries, the later ones over the earlier.
abbrev pub insert_all : PropertyMap → PropertyMap → PropertyMap
insert_all [] m = m
insert_all ((key, value) ∷ rest) m = insert_all rest (insert str_eq key value m)

is_blank-ends : (c : ℕ) (s : Str) → ends_with_space (c ∷ s) ≡ false → is_blank (c ∷ s) ≡ false
unfolding is_blank
is_blank-ends c [] h = ground arith
is_blank-ends c (d ∷ s) h = ground (arith, is_blank-ends d s)

trim_end-ends : (s : Str) → ends_with_space s ≡ false → trim_end s ≡ s
unfolding trim_end
trim_end-ends [] h = refl
trim_end-ends (c ∷ []) h = rw (is_blank-ends c [] h) refl
trim_end-ends (c ∷ d ∷ s) h = rw (is_blank-ends c (d ∷ s) h) (ap (c ∷◌) (trim_end-ends (d ∷ s) h))

ends_with_space-append :
    (s : Str) (c : ℕ) (t : Str) → ends_with_space (s ++ (c ∷ t)) ≡ ends_with_space (c ∷ t)
ends_with_space-append [] c t = refl
ends_with_space-append (x ∷ []) c t = refl
ends_with_space-append (x ∷ y ∷ s) c t = ends_with_space-append (y ∷ s) c t

ends_with_space-char :
    (c : ℕ) (t : Str)
    → ends_with_space t ≡ false
    → (is_empty t ≡ true → is_whitespace c ≡ false)
    → ends_with_space (value_char c ++ t) ≡ false
unfolding is_whitespace
ends_with_space-char c [] h k = ground (arith, k refl)
ends_with_space-char c (d ∷ t) h k = ground arith

is_empty-written_value : (c : ℕ) (s : Str) → is_empty (written_value (c ∷ s)) ≡ false
is_empty-written_value c s = ground arith

ends_with_space-written_value :
    (s : Str) → ends_with_space s ≡ false → ends_with_space (written_value s) ≡ false
ends_with_space-written_value [] h = refl
ends_with_space-written_value (c ∷ []) h = ends_with_space-char c [] refl (λ _. h)
ends_with_space-written_value (c ∷ d ∷ s) h =
    ends_with_space-char c (written_value (d ∷ s)) (ends_with_space-written_value (d ∷ s) h)
      (λ e. ground (arith, is_empty-written_value d s))

separator_ends : (t : Str) → ends_with_space t ≡ false → ends_with_space (b'=' ∷ t) ≡ false
unfolding is_whitespace
separator_ends [] h = refl
separator_ends (c ∷ t) h = h

has_no_separator-written_key :
    (k : Str) → has_no_separator k ≡ true → has_no_separator (written_key k) ≡ true
unfolding is_separator is_whitespace
has_no_separator-written_key [] h = refl
has_no_separator-written_key (c ∷ k) h = ground (arith, has_no_separator-written_key k)

split_separator-apart :
    (k t : Str) → has_no_separator k ≡ true → split_separator (k ++ (b'=' ∷ t)) ≡ some (k, b'=' ∷ t)
unfolding split_separator is_separator is_whitespace
split_separator-apart [] t h = refl
split_separator-apart (c ∷ k) t h = ground (arith, split_separator-apart k t)

trim_start_matches-starts :
    (s : Str)
    → starts_with_separator s ≡ false
    → trim_start_matches is_separator (b'=' ∷ written_value s) ≡ written_value s
unfolding trim_start_matches is_separator is_whitespace
trim_start_matches-starts [] h = refl
trim_start_matches-starts (c ∷ s) h = ground arith

ends_with_space-line :
    {key value : Str} → IsEntry key value → ends_with_space (line_of key value) ≡ false
ends_with_space-line {key} {value} e =
    ends_with_space-append (written_key key) b'=' (written_value value)
    ∙ separator_ends (written_value value) (ends_with_space-written_value value e.value_ends)

trim_end-line :
    {key value : Str} → IsEntry key value → trim_end (line_of key value) ≡ line_of key value
trim_end-line e = trim_end-ends _ (ends_with_space-line e)

trim-line : {key value : Str} → IsEntry key value → trim (line_of key value) ≡ line_of key value
unfolding trim trim_start_matches is_separator is_whitespace
trim-line {key} {value} e =
    ap (trim_start_matches is_whitespace) (trim_end-line e) ∙ starts_shown key e
  where
    starts_shown :
        (k : Str)
        → IsEntry k value
        → trim_start_matches is_whitespace (line_of k value) ≡ line_of k value
    starts_shown [] e = refl
    starts_shown (c ∷ k) e = ground arith

is_comment-line : {key value : Str} → IsEntry key value → is_comment (line_of key value) ≡ false
is_comment-line {key} {value} e = shown key e
  where
    shown : (k : Str) → IsEntry k value → is_comment (line_of k value) ≡ false
    shown [] e = refl
    shown (c ∷ k) e = ground arith

-- A written line is read as its entry.
insert_line-line :
    {key value : Str} (m : PropertyMap)
    → IsEntry key value
    → insert_line (line_of key value) m ≡ ok (insert str_eq key value m)
unfolding insert_line insert_entry
insert_line-line {key} {value} m e =
    let shown = is_comment-line e in
    let parts =
      split_separator-apart (written_key key) (written_value value)
        (has_no_separator-written_key key e.key_apart) in
    rw
      (
        trim-line e,
        shown,
        parts,
        unescape-written_key key,
        trim_start_matches-starts value e.value_starts,
        unescape-written_value value,
      )
      refl

insert_lines-entries :
    (entries m : PropertyMap)
    → AreEntries entries
    → insert_lines (lines_of_entries entries) m ≡ ok (insert_all entries m)
unfolding insert_lines
insert_lines-entries [] m h = refl
insert_lines-entries ((key, value) ∷ rest) m (e, h) =
    rw (insert_line-line m e) (insert_lines-entries rest (insert str_eq key value m) h)

logical_lines-entries :
    (entries : PropertyMap)
    → AreEntries entries
    → logical_lines [] (lines_of_entries entries) ≡ lines_of_entries entries
unfolding logical_lines
logical_lines-entries [] h = refl
logical_lines-entries ((key, value) ∷ rest) (e, h) =
    let even =
      odd_slashes-separator false (written_key key) (written_value value)
      ∙ odd_slashes-written_value value in
    rw (trim_end-line e, even) (ap (line_of key value ∷◌) (logical_lines-entries rest h))

without_return-lacks : (s : Str) → lacks 13 s ≡ true → without_return s ≡ s
unfolding without_return
without_return-lacks [] h = refl
without_return-lacks (c ∷ []) h = ground arith
without_return-lacks (c ∷ d ∷ s) h = ap (c ∷◌) (without_return-lacks (d ∷ s) (ground arith))

abbrev is_break : ℕ → Bool
is_break c = c == 10 || c == 13

lacks-written_value : (sep : ℕ) (s : Str) → is_break sep ≡ true → lacks sep (written_value s) ≡ true
lacks-written_value sep [] h = refl
lacks-written_value sep (c ∷ s) h = ground (arith, lacks-written_value sep s)

separator_apart : (c d : ℕ) → is_separator c ≡ false → is_separator d ≡ true → (c == d) ≡ false
separator_apart c d h k = elim (Bool-cases (c == d)) [
  | inl e ↦ let same = (==_iff c d).0 e in cc
  | inr e ↦ e
]

lacks-apart :
    (sep : ℕ) (s : Str) → is_separator sep ≡ true → has_no_separator s ≡ true → lacks sep s ≡ true
lacks-apart sep [] h a = refl
lacks-apart sep (c ∷ s) h a = ground (arith, separator_apart c sep, lacks-apart sep s)

break_separates : (c : ℕ) → is_break c ≡ true → is_separator c ≡ true
unfolding is_separator is_whitespace
break_separates c h = ground arith

lacks-line :
    (sep : ℕ) {key value : Str}
    → is_break sep ≡ true
    → IsEntry key value
    → lacks sep (line_of key value) ≡ true
lacks-line sep {key} {value} h e =
    lacks-append sep (written_key key) (b'=' ∷ written_value value)
      (lacks-apart sep (written_key key) (break_separates sep h)
        (has_no_separator-written_key key e.key_apart))
      (ground (arith, lacks-written_value sep value h))

split-entries :
    (entries : PropertyMap)
    → AreEntries entries
    → split 10 (join_lines (lines_of_entries entries)) ≡ lines_of_entries entries ++ ([] ∷ [])
unfolding join_lines split
split-entries [] h = refl
split-entries ((key, value) ∷ rest) (e, h) =
    split-append 10 (line_of key value) (join_lines (lines_of_entries rest)) (lacks-line 10 refl e)
    ∙ ap (line_of key value ∷◌) (split-entries rest h)

lines_of-entries :
    (entries : PropertyMap)
    → AreEntries entries
    → lines_of (lines_of_entries entries ++ ([] ∷ [])) ≡ lines_of_entries entries
unfolding lines_of
lines_of-entries [] h = refl
lines_of-entries ((key, value) ∷ []) (e, h) =
    ap (◌∷ []) (without_return-lacks _ (lacks-line 13 refl e))
lines_of-entries ((key, value) ∷ (k, v) ∷ rest) (e, h) =
    rw (without_return-lacks (line_of key value) (lacks-line 13 refl e))
      (ap (line_of key value ∷◌) (lines_of-entries ((k, v) ∷ rest) h))

pub parse_properties-entries :
    (entries : PropertyMap)
    → AreEntries entries
    → parse_properties (join_lines (lines_of_entries entries)) ≡ ok (insert_all entries [])
unfolding parse_properties lines
parse_properties-entries entries h =
    rw (split-entries entries h, lines_of-entries entries h, logical_lines-entries entries h)
      (insert_lines-entries entries [] h)
