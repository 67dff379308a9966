-- ===== src/Primitives/Amount/Parse.antt =====
-- The two loops of `from_str`, on digits and on separators.
use tronz.Prelude.{
  ℕ, ◌+◌, ◌-◌, ◌*◌, ◌≤◌, ◌≡◌, refl, sym, ◌∙◌, true, false, none, some, [], ◌∷◌, ◌++◌, append_assoc,
  append-nil, Bytes, All, arith, leb, ◌==◌, if◌then◌else◌, Option-cases, Bool-cases, inl, inr,
}
use tronz.Primitives.Amount.{
  Scan, scan, scan_byte, digits_value, accumulate, u64_max, starts_with_minus, any_non_ascii,
}
use tronz.Primitives.Amount.Decimal.{IsDigit, value, le-value}

-- Digits before the point go to `whole`, and digits behind it to `fraction`.
pub scan_whole :
    (ds rest w f : Bytes)
    → All IsDigit ds
    → scan (ds ++ rest) (record { whole = w; fraction = f; in_fraction = false })
      ≡ scan rest (record { whole = w ++ ds; fraction = f; in_fraction = false })
unfolding scan scan_byte
scan_whole [] rest w f h = rw (append-nil w)
scan_whole (d ∷ ds) rest w f h =
    ground (arith, scan_whole ds rest (w ++ d ∷ []) f h.1, append_assoc w (d ∷ []) ds)

pub scan_fraction :
    (ds rest w f : Bytes)
    → All IsDigit ds
    → scan (ds ++ rest) (record { whole = w; fraction = f; in_fraction = true })
      ≡ scan rest (record { whole = w; fraction = f ++ ds; in_fraction = true })
unfolding scan scan_byte
scan_fraction [] rest w f h = rw (append-nil f)
scan_fraction (d ∷ ds) rest w f h =
    ground (arith, scan_fraction ds rest w (f ++ d ∷ []) h.1, append_assoc f (d ∷ []) ds)

-- The accumulation is exact where the value fits a `u64`, and stops where it does not.
pub digits_value-value :
    (ds : Bytes) (n : ℕ)
    → n ≤ u64_max
    → All IsDigit ds
    → digits_value ds n ≡ (if leb (value n ds) u64_max then some (value n ds) else none)
unfolding digits_value accumulate
digits_value-value [] n h hs = ground arith
digits_value-value (d ∷ ds) n h hs =
    ground (arith, digits_value-value ds (n * 10 + (d - b'0')), le-value (n * 10 + (d - b'0')) ds)

pub digits_start : (ds : Bytes) → All IsDigit ds → starts_with_minus ds ≡ false
digits_start [] h = refl
digits_start (d ∷ ds) h = ground arith

pub digits_ascii :
    (ds rest : Bytes) → All IsDigit ds → any_non_ascii (ds ++ rest) ≡ any_non_ascii rest
digits_ascii [] rest h = refl
digits_ascii (d ∷ ds) rest h = ground (arith, digits_ascii ds rest h.1)

-- The text without its `_` separators.
abbrev pub strip : Bytes → Bytes
strip [] = []
strip (b ∷ bs) = if b == b'_' then strip bs else b ∷ strip bs

scan_separator : (b : ℕ) (bs : Bytes) (s : Scan) → (b == b'_') ≡ true → scan (b ∷ bs) s ≡ scan bs s
unfolding scan scan_byte
scan_separator b bs s e = ground arith

pub scan-strip : (bs : Bytes) (s : Scan) → scan (strip bs) s ≡ scan bs s
unfolding scan
scan-strip [] s = refl
scan-strip (b ∷ bs) s = elim (Bool-cases (b == b'_')) [
  | inl e ↦ rw e (scan-strip bs s ∙ sym (scan_separator b bs s e))
  | inr e ↦ rw e (elim (Option-cases (scan_byte s b)) [
    | inl n ↦ rw (n, scan)
    | inr (s', k) ↦ rw (k, scan) (scan-strip bs s')
  ])
]

pub any_non_ascii-strip : (bs : Bytes) → any_non_ascii (strip bs) ≡ any_non_ascii bs
any_non_ascii-strip [] = refl
any_non_ascii-strip (b ∷ bs) = ground (arith, any_non_ascii-strip bs)

-- A minus sign is refused wherever it stands.
pub scan_minus : (bs : Bytes) (s : Scan) → starts_with_minus (strip bs) ≡ true → scan bs s ≡ none
unfolding scan scan_byte
scan_minus [] s h = cc
scan_minus (b ∷ bs) s h = ground (arith, scan_minus bs s)
