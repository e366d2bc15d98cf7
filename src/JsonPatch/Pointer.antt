-- ===== src/JsonPatch/Pointer.antt =====
-- The escapes of JSON pointers in src/workflows/json-patch.ts.
use text.Mathlib.TextLemmas.{cons≢nil}
use text.Mathlib.TextEquality.{codes_equal}
use pi_workflows.JsonPatch.{
  unescape_segments, parse_json_pointer, max_pointer_bytes, join_text, encode_json_pointer,
  byte_length, tilde, slash, unescape_segment, replace_escape, has_good_escapes, escape_segment,
  escape_char,
}
use pi_workflows.Prelude.{
  ◌==◌, ltb, eq_iff, [], ◌≤◌, ◌∷◌, split, push_first, List, ◌∙◌, sym, refl, inr, arith, ap, ◌⊎◌,
  true, ok, inl, false, ◌≡◌, same_char, String, Char, Bool-cases,
}
use mathlib.Core.Path.{subst}

same_char-eq : (c d : Char) → same_char c d ≡ true → c ≡ d
same_char-eq c d h = codes_equal c d (ground arith)

char_cases :
    (c : Char)
    → (c ≡ tilde) ⊎ ((c ≡ slash) ⊎ ((same_char c tilde ≡ false) × (same_char c slash ≡ false)))
char_cases c = elim (Bool-cases (same_char c tilde)) [
  | inl is ↦ inl (same_char-eq c tilde is)
  | inr not_tilde ↦ elim (Bool-cases (same_char c slash)) [
    | inl is ↦ inr (inl (same_char-eq c slash is))
    | inr not_slash ↦ inr (inr (not_tilde, not_slash))
  ]
]

escape_other :
    (e c d : Char) (s : String)
    → same_char e c ≡ false
    → escape_char c d (String.◌∷◌ e s) ≡ String.◌∷◌ e (escape_char c d s)
unfolding escape_char
escape_other e c d s h = rw h

replace_other :
    (e d r : Char) (s : String)
    → same_char e tilde ≡ false
    → replace_escape d r (String.◌∷◌ e s) ≡ String.◌∷◌ e (replace_escape d r s)
unfolding replace_escape
replace_other e d r String.[] h = refl
replace_other e d r (String.◌∷◌ c s) h = rw h

escape_both_other :
    (c : Char) (s : String)
    → same_char c tilde ≡ false
    → same_char c slash ≡ false
    → escape_segment (String.◌∷◌ c s) ≡ String.◌∷◌ c (escape_segment s)
unfolding escape_segment
escape_both_other c s t l =
    ap (escape_char slash "1") (escape_other c tilde "0" s t)
    ∙ escape_other c slash "1" (escape_char tilde "0" s) l

good_other :
    (c : Char) (s : String)
    → same_char c tilde ≡ false
    → has_good_escapes s ≡ true
    → has_good_escapes (String.◌∷◌ c s) ≡ true
unfolding has_good_escapes
good_other c s t h = rw (t, h)

escape_segment-good : (s : String) → has_good_escapes (escape_segment s) ≡ true
unfolding has_good_escapes escape_segment escape_char
escape_segment-good String.[] = refl
escape_segment-good (String.◌∷◌ c s) = elim (char_cases c) [
  | inl is ↦
      subst (λ e. has_good_escapes (escape_segment (String.◌∷◌ e s)) ≡ true) (sym is)
        (escape_segment-good s)
  | inr (inl is) ↦
      subst (λ e. has_good_escapes (escape_segment (String.◌∷◌ e s)) ≡ true) (sym is)
        (escape_segment-good s)
  | inr (inr (t, l)) ↦
      ap has_good_escapes (escape_both_other c s t l)
      ∙ good_other c (escape_segment s) t (escape_segment-good s)
]

replace_slash : (s : String) → replace_escape "1" slash (escape_segment s) ≡ escape_char tilde "0" s
unfolding replace_escape escape_segment escape_char
replace_slash String.[] = refl
replace_slash (String.◌∷◌ c s) = elim (char_cases c) [
  | inl is ↦
      subst
        (λ e.
          replace_escape "1" slash (escape_segment (String.◌∷◌ e s))
          ≡ escape_char tilde "0" (String.◌∷◌ e s))
        (sym is)
        (ap (String.◌∷◌ tilde) (
          replace_other "0" "1" slash (escape_segment s) refl
          ∙ ap (String.◌∷◌ "0") (replace_slash s)))
  | inr (inl is) ↦
      subst
        (λ e.
          replace_escape "1" slash (escape_segment (String.◌∷◌ e s))
          ≡ escape_char tilde "0" (String.◌∷◌ e s))
        (sym is) (ap (String.◌∷◌ slash) (replace_slash s))
  | inr (inr (t, l)) ↦
      ap (replace_escape "1" slash) (escape_both_other c s t l)
      ∙ replace_other c "1" slash (escape_segment s) t
      ∙ ap (String.◌∷◌ c) (replace_slash s)
      ∙ sym (escape_other c tilde "0" s t)
]

replace_tilde : (s : String) → replace_escape "0" tilde (escape_char tilde "0" s) ≡ s
unfolding replace_escape escape_char
replace_tilde String.[] = refl
replace_tilde (String.◌∷◌ c s) = elim (Bool-cases (same_char c tilde)) [
  | inl is ↦
      subst
        (λ e. replace_escape "0" tilde (escape_char tilde "0" (String.◌∷◌ e s)) ≡ String.◌∷◌ e s)
        (sym (same_char-eq c tilde is)) (ap (String.◌∷◌ tilde) (replace_tilde s))
  | inr t ↦
      ap (replace_escape "0" tilde) (escape_other c tilde "0" s t)
      ∙ replace_other c "0" tilde (escape_char tilde "0" s) t
      ∙ ap (String.◌∷◌ c) (replace_tilde s)
]

unescape_segment-escape_segment : (s : String) → unescape_segment (escape_segment s) ≡ ok s
unfolding unescape_segment
unescape_segment-escape_segment s =
    rw (escape_segment-good s)
      (ap ok (ap (replace_escape "0" tilde) (replace_slash s) ∙ replace_tilde s))

abbrev push_text : String → List String → List String
push_text String.[] parts = parts
push_text (String.◌∷◌ c s) parts = push_first c (push_text s parts)

push_text-empty : (s : String) (parts : List String) → push_text s (String.[] ∷ parts) ≡ s ∷ parts
push_text-empty String.[] parts = refl
push_text-empty (String.◌∷◌ c s) parts = ap (push_first c) (push_text-empty s parts)

split_other :
    (c : Char) (s : String)
    → same_char c slash ≡ false
    → split slash (String.◌∷◌ c s) ≡ push_first c (split slash s)
unfolding split
split_other c s l = rw l

split-join_text :
    (s u : String)
    → split slash (join_text (escape_segment s) u) ≡ push_text (escape_segment s) (split slash u)
unfolding split escape_segment escape_char
split-join_text String.[] u = refl
split-join_text (String.◌∷◌ c s) u = elim (char_cases c) [
  | inl is ↦
      subst
        (λ e.
          split slash (join_text (escape_segment (String.◌∷◌ e s)) u)
          ≡ push_text (escape_segment (String.◌∷◌ e s)) (split slash u))
        (sym is) (ap (λ parts. push_first tilde (push_first "0" parts)) (split-join_text s u))
  | inr (inl is) ↦
      subst
        (λ e.
          split slash (join_text (escape_segment (String.◌∷◌ e s)) u)
          ≡ push_text (escape_segment (String.◌∷◌ e s)) (split slash u))
        (sym is) (ap (λ parts. push_first tilde (push_first "1" parts)) (split-join_text s u))
  | inr (inr (t, l)) ↦
      subst (λ e. split slash (join_text e u) ≡ push_text e (split slash u))
        (sym (escape_both_other c s t l))
        (split_other c (join_text (escape_segment s) u) l ∙ ap (push_first c) (split-join_text s u))
]

unescape_next :
    (s : String) (parts ss : List String)
    → unescape_segments parts ≡ ok ss
    → unescape_segments (escape_segment s ∷ parts) ≡ ok (s ∷ ss)
unfolding unescape_segments
unescape_next s parts ss h = rw (unescape_segment-escape_segment s, h)

unescape_segments-split :
    (s : String) (ss : List String)
    → unescape_segments (split slash (join_text (escape_segment s) (encode_json_pointer ss)))
      ≡ ok (s ∷ ss)
unfolding encode_json_pointer split unescape_segments
unescape_segments-split s [] =
    ap unescape_segments (split-join_text s String.[] ∙ push_text-empty (escape_segment s) [])
    ∙ unescape_next s [] [] refl
unescape_segments-split s (t ∷ ss) =
    ap unescape_segments (
      split-join_text s (encode_json_pointer (t ∷ ss))
      ∙ push_text-empty (escape_segment s)
          (split slash (join_text (escape_segment t) (encode_json_pointer ss))))
    ∙ unescape_next s (split slash (join_text (escape_segment t) (encode_json_pointer ss))) (t ∷ ss)
        (unescape_segments-split t ss)

not_empty : (c : Char) (s : String) → (String.◌∷◌ c s == "") ≡ false
not_empty c s = elim (Bool-cases (String.◌∷◌ c s == "")) [
  | inl is ↦ absurd (cons≢nil ((eq_iff (String.◌∷◌ c s) "").0 is))
  | inr differs ↦ differs
]

parse_after :
    (text : String) (segments : List String)
    → byte_length (String.◌∷◌ slash text) ≤ max_pointer_bytes
    → unescape_segments (split slash text) ≡ ok segments
    → parse_json_pointer (String.◌∷◌ slash text) ≡ ok segments
unfolding parse_json_pointer
parse_after text segments short back =
    let fits : ltb max_pointer_bytes (byte_length (String.◌∷◌ slash text)) ≡ false = ground arith in
    rw (fits, not_empty slash text, back)

-- A pointer that encodes segments is parsed back into them, whatever characters they have, if it
-- has at most 1024 bytes.
pub parse_json_pointer-encode_json_pointer :
    (segments : List String)
    → byte_length (encode_json_pointer segments) ≤ max_pointer_bytes
    → parse_json_pointer (encode_json_pointer segments) ≡ ok segments
unfolding parse_json_pointer encode_json_pointer
parse_json_pointer-encode_json_pointer [] short = refl
parse_json_pointer-encode_json_pointer (s ∷ ss) short =
    parse_after (join_text (escape_segment s) (encode_json_pointer ss)) (s ∷ ss) short
      (unescape_segments-split s ss)
