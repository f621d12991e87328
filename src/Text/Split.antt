-- ===== src/Text/Split.antt =====
-- `str::split`, `split_once`, `rsplit_once`, `contains` and `join` for a one-byte separator.
use image_resizer.Prelude.{
  All, Bool, List, Option, Option-cases, [], ap, arith, false, if◌then◌else◌, inl, inr, none, refl,
  some, ℕ, ◌++◌, ◌==◌, ◌||◌, ◌∙◌, ◌∷◌, ◌≡◌, ◌≢◌,
}
use image_resizer.Text.{Str}

-- `str::contains(char)`.
unfoldable pub contains : ℕ → Str → Bool
contains b [] = false
contains b (c ∷ s) = c == b || contains b s

-- The byte does not occur.
abbrev pub Lacks : ℕ → Str → Type 0
Lacks b s = contains b s ≡ false

-- A byte goes in front of the first piece.
abbrev cons_first : ℕ → List Str → List Str
cons_first c [] = (c ∷ []) ∷ []
cons_first c (p ∷ ps) = (c ∷ p) ∷ ps

-- `str::split(char)`: always at least one piece.
unfoldable pub split_on : ℕ → Str → List Str
split_on b [] = [] ∷ []
split_on b (c ∷ s) = if c == b then [] ∷ split_on b s else cons_first c (split_on b s)

-- `[&str]::join`.
unfoldable pub join : ℕ → List Str → Str
join b [] = []
join b (p ∷ []) = p
join b (p ∷ q ∷ ps) = p ++ (b ∷ join b (q ∷ ps))

abbrev cons_before : ℕ → Option (Str × Str) → Option (Str × Str)
cons_before c none = none
cons_before c (some (p, q)) = some (c ∷ p, q)

-- `str::split_once(char)`: at the first occurrence.
unfoldable pub split_once : ℕ → Str → Option (Str × Str)
split_once b [] = none
split_once b (c ∷ s) = if c == b then some ([], s) else cons_before c (split_once b s)

-- The last occurrence, if there is one after this byte, else this byte.
abbrev last_split : ℕ → ℕ → Str → Option (Str × Str) → Option (Str × Str)
last_split b c s none = if c == b then some ([], s) else none
last_split b c s (some (p, q)) = some (c ∷ p, q)

-- `str::rsplit_once(char)`: at the last occurrence.
unfoldable pub rsplit_once : ℕ → Str → Option (Str × Str)
rsplit_once b [] = none
rsplit_once b (c ∷ s) = last_split b c s (rsplit_once b s)

pub contains-append : (b : ℕ) (s t : Str) → contains b (s ++ t) ≡ (contains b s || contains b t)
unfolding contains
contains-append b [] t = refl
contains-append b (c ∷ s) t = ground (arith, contains-append b s t)

pub split_on-ne-nil : (b : ℕ) (s : Str) → split_on b s ≢ []
unfolding split_on
split_on-ne-nil b [] = λ h. cc
split_on-ne-nil b (c ∷ s) = ground (arith, split_on-ne-nil b s)

join-cons : (b c : ℕ) (ps : List Str) → ps ≢ [] → join b (cons_first c ps) ≡ c ∷ join b ps
unfolding join
join-cons b c [] h = absurd (h refl)
join-cons b c (p ∷ []) h = refl
join-cons b c (p ∷ q ∷ ps) h = refl

join_cons_nil : (b : ℕ) (ps : List Str) → ps ≢ [] → join b ([] ∷ ps) ≡ b ∷ join b ps
unfolding join
join_cons_nil b [] h = absurd (h refl)
join_cons_nil b (p ∷ ps) h = refl

-- Joining the pieces gives the text back.
pub join-split_on : (b : ℕ) (s : Str) → join b (split_on b s) ≡ s
unfolding split_on
join-split_on b [] = unfold join in refl
join-split_on b (c ∷ s) = ground (
  arith,
  join-split_on b s,
  join-cons b c (split_on b s) (split_on-ne-nil b s),
  join_cons_nil b (split_on b s) (split_on-ne-nil b s),
)

-- No piece holds the separator.
pub split_on-Lacks : (b : ℕ) (s : Str) → All (Lacks b) (split_on b s)
unfolding split_on contains
split_on-Lacks b [] = (refl, tt)
split_on-Lacks b (c ∷ s) = ground (arith, split_on-Lacks b s)

pub split_on_of_Lacks : (b : ℕ) (s : Str) → Lacks b s → split_on b s ≡ s ∷ []
unfolding split_on contains
split_on_of_Lacks b [] h = refl
split_on_of_Lacks b (c ∷ s) h = ground (arith, split_on_of_Lacks b s)

pub split_on_piece : (b : ℕ) (s t : Str) → Lacks b s → split_on b (s ++ (b ∷ t)) ≡ s ∷ split_on b t
unfolding split_on contains
split_on_piece b [] t h = ground arith
split_on_piece b (c ∷ s) t h = ground (arith, split_on_piece b s t)

-- Splitting what was joined from pieces without the separator.
pub split_on-join :
    (b : ℕ) (p : Str) (ps : List Str)
    → All (Lacks b) (p ∷ ps)
    → split_on b (join b (p ∷ ps)) ≡ p ∷ ps
unfolding join
split_on-join b p [] h = split_on_of_Lacks b p h.0
split_on-join b p (q ∷ ps) h =
    split_on_piece b p (join b (q ∷ ps)) h.0 ∙ ap (◌∷◌ p) (split_on-join b q ps h.1)

pub split_once_lem : (b : ℕ) (s t : Str) → Lacks b s → split_once b (s ++ (b ∷ t)) ≡ some (s, t)
unfolding split_once contains
split_once_lem b [] t h = ground arith
split_once_lem b (c ∷ s) t h = ground (arith, split_once_lem b s t)

pub split_once-none : (b : ℕ) (s : Str) → split_once b s ≡ none → Lacks b s
unfolding split_once contains
split_once-none b [] h = refl
split_once-none b (c ∷ s) h = ground (arith, split_once-none b s)

pub split_once-some :
    (b : ℕ) (s p q : Str) → split_once b s ≡ some (p, q) → (s ≡ p ++ (b ∷ q)) × Lacks b p
unfolding split_once contains
split_once-some b [] p q h = cc
split_once-some b (c ∷ s) p q h = elim (Option-cases (split_once b s)) [
  | inl e ↦ ground arith
  | inr ((p', q'), e) ↦ ground (arith, split_once-some b s p' q' e)
]

pub rsplit_once-none : (b : ℕ) (s : Str) → Lacks b s → rsplit_once b s ≡ none
unfolding rsplit_once contains
rsplit_once-none b [] h = refl
rsplit_once-none b (c ∷ s) h = ground (arith, rsplit_once-none b s)

pub rsplit_once_lem : (b : ℕ) (s t : Str) → Lacks b t → rsplit_once b (s ++ (b ∷ t)) ≡ some (s, t)
unfolding rsplit_once
rsplit_once_lem b [] t h = ground (arith, rsplit_once-none b t h)
rsplit_once_lem b (c ∷ s) t h = ground (arith, rsplit_once_lem b s t h)

pub rsplit_once-none→Lacks : (b : ℕ) (s : Str) → rsplit_once b s ≡ none → Lacks b s
unfolding rsplit_once contains
rsplit_once-none→Lacks b [] h = refl
rsplit_once-none→Lacks b (c ∷ s) h = ground (arith, rsplit_once-none→Lacks b s)

pub rsplit_once-some :
    (b : ℕ) (s p q : Str) → rsplit_once b s ≡ some (p, q) → (s ≡ p ++ (b ∷ q)) × Lacks b q
unfolding rsplit_once
rsplit_once-some b [] p q h = cc
rsplit_once-some b (c ∷ s) p q h = elim (Option-cases (rsplit_once b s)) [
  | inl e ↦ ground (arith, rsplit_once-none→Lacks b s e)
  | inr ((p', q'), e) ↦ ground (arith, rsplit_once-some b s p' q' e)
]
