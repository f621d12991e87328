-- ===== src/SourceGuard/Spellings.antt =====
-- Lemmas on the numeric spellings of IPv4 addresses in source_guard.rs.
use image_resizer.Prelude.{[], ap, arith, some, ℕ, ◌*◌, ◌++◌, ◌+◌, ◌<◌, ◌^◌, ◌∙◌, ◌∷◌, ◌≡◌}
use image_resizer.SourceGuard.{octets}
use image_resizer.Text.{Str}
use image_resizer.Text.Split.{Lacks, split_on, split_on_of_Lacks, split_on_piece}
use image_resizer.SourceGuard.Numerals.{Spells, Spells-Lacks, parse_flexible_u64-Spells}
use image_resizer.SourceGuard.Literals.{parse_flexible_u64, parse_ipv4_literal}

abbrev pub IsByte : ℕ → Type 0
IsByte n = n < 256

-- The pieces as the guard reads them.
abbrev Reads : ℕ → Str → Type 0
Reads n part = Lacks b'.' part × (parse_flexible_u64 part ≡ some n)

Spells-Reads : (n : ℕ) (s : Str) → n < 2 ^ 64 → Spells n s → Reads n s
Spells-Reads n s small h = (Spells-Lacks n s h, parse_flexible_u64-Spells n s small h)

four_parts :
    (a b c d : ℕ) (p q r s : Str)
    → Reads a p
    → Reads b q
    → Reads c r
    → Reads d s
    → IsByte a
    → IsByte b
    → IsByte c
    → IsByte d
    → parse_ipv4_literal (p ++ (b'.' ∷ (q ++ (b'.' ∷ (r ++ (b'.' ∷ s)))))) ≡ some (octets a b c d)
unfolding parse_ipv4_literal
four_parts a b c d p q r s (hp, ep) (hq, eq) (hr, er) (hs, es) ha hb hc hd =
    let pieces : split_on b'.' (p ++ (b'.' ∷ (q ++ (b'.' ∷ (r ++ (b'.' ∷ s))))))
        ≡ p ∷ q ∷ r ∷ s ∷ [] =
      split_on_piece b'.' p _ hp
      ∙ ap (◌∷◌ p) (
          split_on_piece b'.' q _ hq
          ∙ ap (◌∷◌ q) (split_on_piece b'.' r s hr ∙ ap (◌∷◌ r) (split_on_of_Lacks b'.' s hs))) in
    ground arith

one_part : (n : ℕ) (p : Str) → Reads n p → n < 2 ^ 32 → parse_ipv4_literal p ≡ some n
unfolding parse_ipv4_literal
one_part n p (h, e) small = let pieces = split_on_of_Lacks b'.' p h in ground arith

two_parts :
    (a n : ℕ) (p q : Str)
    → Reads a p
    → Reads n q
    → IsByte a
    → n < 2 ^ 24
    → parse_ipv4_literal (p ++ (b'.' ∷ q)) ≡ some (a * 2 ^ 24 + n)
unfolding parse_ipv4_literal
two_parts a n p q (hp, ep) (hq, eq) ha small =
    let pieces : split_on b'.' (p ++ (b'.' ∷ q)) ≡ p ∷ q ∷ [] =
      split_on_piece b'.' p q hp ∙ ap (◌∷◌ p) (split_on_of_Lacks b'.' q hq) in
    ground arith

three_parts :
    (a b n : ℕ) (p q r : Str)
    → Reads a p
    → Reads b q
    → Reads n r
    → IsByte a
    → IsByte b
    → n < 2 ^ 16
    → parse_ipv4_literal (p ++ (b'.' ∷ (q ++ (b'.' ∷ r)))) ≡ some (a * 2 ^ 24 + b * 2 ^ 16 + n)
unfolding parse_ipv4_literal
three_parts a b n p q r (hp, ep) (hq, eq) (hr, er) ha hb small =
    let pieces : split_on b'.' (p ++ (b'.' ∷ (q ++ (b'.' ∷ r)))) ≡ p ∷ q ∷ r ∷ [] =
      split_on_piece b'.' p _ hp
      ∙ ap (◌∷◌ p) (split_on_piece b'.' q r hq ∙ ap (◌∷◌ q) (split_on_of_Lacks b'.' r hr)) in
    ground arith

-- However each of the four bytes is written, in decimal without a leading zero, in octal behind a `0`,
-- or in hexadecimal of either case behind `0x` or `0X`, the dotted form is read as the address with
-- these bytes.
pub parse_ipv4_literal-dotted :
    (a b c d : ℕ) (p q r s : Str)
    → Spells a p
    → Spells b q
    → Spells c r
    → Spells d s
    → IsByte a
    → IsByte b
    → IsByte c
    → IsByte d
    → parse_ipv4_literal (p ++ (b'.' ∷ (q ++ (b'.' ∷ (r ++ (b'.' ∷ s)))))) ≡ some (octets a b c d)
parse_ipv4_literal-dotted a b c d p q r s hp hq hr hs ha hb hc hd =
    four_parts a b c d p q r s (Spells-Reads a p (omega arith) hp)
      (Spells-Reads b q (omega arith) hq) (Spells-Reads c r (omega arith) hr)
      (Spells-Reads d s (omega arith) hs) ha hb hc hd

-- A single number is read as the address with this number, and the forms of two and of three parts as the
-- address whose last bytes the last part holds.
pub parse_ipv4_literal-short :
    (a b c d : ℕ) (p q one two three : Str)
    → Spells a p
    → Spells b q
    → Spells (octets a b c d) one
    → Spells (octets 0 b c d) two
    → Spells (octets 0 0 c d) three
    → IsByte a
    → IsByte b
    → IsByte c
    → IsByte d
    → (parse_ipv4_literal one ≡ some (octets a b c d))
      × (parse_ipv4_literal (p ++ (b'.' ∷ two)) ≡ some (octets a b c d))
      × (parse_ipv4_literal (p ++ (b'.' ∷ (q ++ (b'.' ∷ three)))) ≡ some (octets a b c d))
parse_ipv4_literal-short a b c d p q one two three sp sq s₁ s₂ s₃ ha hb hc hd = (
  one_part (octets a b c d) one (Spells-Reads (octets a b c d) one (omega arith) s₁) (omega arith),
  two_parts a (octets 0 b c d) p two (Spells-Reads a p (omega arith) sp)
        (Spells-Reads (octets 0 b c d) two (omega arith) s₂) ha (omega arith)
      ∙ ap some (omega arith),
  three_parts a b (octets 0 0 c d) p q three (Spells-Reads a p (omega arith) sp)
        (Spells-Reads b q (omega arith) sq) (Spells-Reads (octets 0 0 c d) three (omega arith) s₃)
        ha hb (omega arith)
      ∙ ap some (omega arith),
)
