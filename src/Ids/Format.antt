-- ===== src/Ids/Format.antt =====
-- id_generator.go: an identifier determines its sequence number.
use go_cachex.Base.{
  ℕ, zero, suc, ◌+◌, ◌-◌, ◌*◌, ◌/◌, ◌%◌, ◌<◌, ◌≡◌, refl, sym, ap, ◌∙◌, [], ◌∷◌, ◌++◌, ltb, length,
  take, drop, length-append, take-append, drop-append, arith, inl, inr, Bool-cases,
}
use go_cachex.Cache.{Str}
use go_cachex.Ids.Defs.{IdGenerator, digits_on, digits, zeros, zero_padded, format_id}

-- The number that decimal digits stand for.
unfoldable pub parse : ℕ → Str → ℕ
parse acc [] = acc
parse acc (c ∷ s) = parse (acc * 10 + (c - 48)) s

parse-append_digit : (acc c : ℕ) (s : Str) → parse acc (s ++ c ∷ []) ≡ parse acc s * 10 + (c - 48)
unfolding parse
parse-append_digit acc c [] = refl
parse-append_digit acc c (d ∷ s) = parse-append_digit (acc * 10 + (d - 48)) c s

parse-digits_on : (fuel n : ℕ) → n < fuel → parse 0 (digits_on fuel n) ≡ n
unfolding digits_on
parse-digits_on zero n h = absurd (omega arith)
parse-digits_on (suc fuel) n h = elim (Bool-cases (ltb n 10)) [
  | inl small ↦ rw small (unfold parse in omega arith)
  | inr large ↦ rw large (
      parse-append_digit 0 (48 + n % 10) (digits_on fuel (n / 10))
      ∙ ground (arith, parse-digits_on fuel (n / 10)))
]

parse-zeros : (k : ℕ) (s : Str) → parse 0 (zeros k ++ s) ≡ parse 0 s
unfolding parse
parse-zeros zero s = refl
parse-zeros (suc k) s = parse-zeros k s

parse-zero_padded : (width n : ℕ) → parse 0 (zero_padded width n) ≡ n
unfolding zero_padded digits
parse-zero_padded width n =
    parse-zeros (width - length (digits n)) (digits n) ∙ parse-digits_on (suc n) n (omega arith)

unfoldable pub strip_front : Str → Str → Str
strip_front p s = drop (length p) s

unfoldable pub strip_back : Str → Str → Str
strip_back p s = take (length s - length p) s

-- The inverse of `formatID`, for the same generator and time.
unfoldable pub sequence_of : IdGenerator → Str → Str → ℕ
unfolding parse strip_front strip_back
sequence_of g time_prefix id = parse 0 (
    strip_front g.separator
      (strip_front time_prefix (strip_front g.id_prefix (strip_back g.id_suffix id))))

strip_back-append : (s p : Str) → strip_back p (s ++ p) ≡ s
unfolding strip_back
strip_back-append s p =
    let e : length (s ++ p) - length p ≡ length s = omega (arith, length-append s p) in
    rw e (take-append s p)

strip_front-append : (p s : Str) → strip_front p (p ++ s) ≡ s
unfolding strip_front
strip_front-append p s = drop-append p s

-- The sequence number comes back from the identifier, whatever the length of the number, the
-- padding, the time, the separator, the prefix and the suffix.
pub sequence_of-format_id :
    (g : IdGenerator) (time_prefix : Str) (n : ℕ)
    → sequence_of g time_prefix (format_id g time_prefix n) ≡ n
unfolding sequence_of format_id
sequence_of-format_id g time_prefix n =
    rw (strip_back-append, strip_front-append, strip_front-append, strip_front-append)
      (parse-zero_padded g.seq_length n)

pub format_id_inj :
    (g : IdGenerator) (time_prefix : Str) (m n : ℕ)
    → format_id g time_prefix m ≡ format_id g time_prefix n
    → m ≡ n
format_id_inj g time_prefix m n h =
    sym (sequence_of-format_id g time_prefix m)
    ∙ ap (sequence_of g time_prefix) h
    ∙ sequence_of-format_id g time_prefix n
