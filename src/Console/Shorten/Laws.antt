-- ===== src/Console/Shorten/Laws.antt =====
-- What is left of a text that is too long.
use pyodide.Base.{
  ℕ, zero, suc, ◌+◌, ◌-◌, ◌/◌, ◌≤◌, ◌<◌, ◌≡◌, refl, ap, sym, ◌∙◌, Text, [], ◌∷◌, ◌++◌, Option, none,
  some, length, length-append, ok, arith,
}
use native.Mathlib.Decide.{dec_lt}
use pyodide.Base.Strings.Methods.{slice_from, slice_to}
use pyodide.Console.Shorten.{slice_last, min, split_or, shorten}

length-slice_to : (n : ℕ) (s : Text) → n ≤ length s → length (slice_to n s) ≡ n
unfolding slice_to
length-slice_to zero s h = refl
length-slice_to (suc n) [] h = absurd (omega (arith, h))
length-slice_to (suc n) (a ∷ s) h = omega (arith, length-slice_to n s (omega (arith, h)))

length-slice_from : (n : ℕ) (s : Text) → n ≤ length s → length (slice_from n s) + n ≡ length s
unfolding slice_from
length-slice_from zero s h = omega arith
length-slice_from (suc n) [] h = absurd (omega (arith, h))
length-slice_from (suc n) (a ∷ s) h = omega (arith, length-slice_from n s (omega (arith, h)))

pub slices-append : (n : ℕ) (s : Text) → slice_to n s ++ slice_from n s ≡ s
unfolding slice_to slice_from
slices-append zero s = refl
slices-append (suc n) [] = refl
slices-append (suc n) (a ∷ s) = ap (λ t. a ∷ t) (slices-append n s)

slice_from-nil : (n : ℕ) → slice_from n [] ≡ []
unfolding slice_from
slice_from-nil zero = refl
slice_from-nil (suc n) = refl

slice_from-slice_from :
    (n m k : ℕ) (s : Text) → n + m ≡ k → slice_from m (slice_from n s) ≡ slice_from k s
unfolding slice_from
slice_from-slice_from zero m k s e =
    let same : m ≡ k = omega (arith, e) in ap (λ j. slice_from j s) same
slice_from-slice_from (suc n) m zero s e = absurd (omega (arith, e))
slice_from-slice_from (suc n) m (suc k) [] e = slice_from-nil m
slice_from-slice_from (suc n) m (suc k) (a ∷ s) e = slice_from-slice_from n m k s (omega (arith, e))

-- A text in three parts, of which the first and the last are `n` long.
in_three :
    (n : ℕ) (s : Text)
    → n + n ≤ length s
    → s
      ≡ slice_to n s
        ++ (slice_to (length s - n - n) (slice_from n s) ++ slice_from (length s - n) s)
in_three n s h =
    let m = length s - n - n in
    sym (slices-append n s)
    ∙ ap (λ t. slice_to n s ++ t)
        (sym (slices-append m (slice_from n s))
          ∙ ap (λ t. slice_to m (slice_from n s) ++ t)
              (slice_from-slice_from n m (length s - n) s (omega (arith, h))))

-- The number of characters kept at either end.
abbrev pub kept : Text → ℕ → Option ℕ → ℕ
kept text limit split = min (split_or split limit) (length text / 2)

-- A text within the limit is returned as it is. Of a longer one, if at least one character is kept at
-- either end, the first and the last characters are left, as many, with the separator between them, and
-- the rest of the text stood between those. The limit is at least 2.
pub shorten_lem :
    (text separator : Text) (limit : ℕ) (split : Option ℕ)
    → 2 ≤ limit
    → (length text ≤ limit → shorten text limit split separator ≡ ok text)
      × (limit < length text
          → 0 < kept text limit split
          → (first middle last : Text) × (shorten text limit split separator
              ≡ ok (first ++ (separator ++ last)))
            × (text ≡ first ++ (middle ++ last))
            × (length first ≡ kept text limit split)
            × (length last ≡ kept text limit split))
unfolding shorten
shorten_lem text separator limit split h = (
  λ k. ground arith,
  λ k pos.
      let n = kept text limit split in
      let half : n + n ≤ length text = ground arith in
      (
        slice_to n text,
        slice_to (length text - n - n) (slice_from n text),
        slice_from (length text - n) text,
        unfold slice_last in ground arith,
        in_three n text half,
        length-slice_to n text (omega (arith, half)),
        omega (arith, half, length-slice_from (length text - n) text (omega arith)),
      ),
)

-- With the default split, a text is at most as long as the limit and the separator together.
pub shorten_bound :
    (text separator r : Text) (limit : ℕ)
    → shorten text limit none separator ≡ ok r
    → length r ≤ limit + length separator
shorten_bound text separator r limit h = elim (dec_lt limit 2) [
  | yes small ↦ unfold shorten in ground arith
  | no big ↦ elim (dec_lt limit (length text)) [
    | yes long ↦
        let (first, middle, last, e, parts, m, n) =
          (shorten_lem text separator limit none (omega arith)).1 long (ground arith) in
        let same : r ≡ first ++ (separator ++ last) = cc (e, h) in
        ground (
          arith,
          ap length same,
          length-append first (separator ++ last),
          length-append separator last,
          m,
          n,
        )
    | no short ↦
        let e = (shorten_lem text separator limit none (omega arith)).0 (omega arith) in
        let same : r ≡ text = cc (e, h) in ground (arith, ap length same)
  ]
]

-- If no character is to be kept at the ends, a text that is too long comes back whole, after the
-- separator: `text[-0:]` is the whole text. The limit is at least 2.
pub shorten_none_kept :
    (text separator : Text) (limit : ℕ)
    → 2 ≤ limit
    → limit < length text
    → shorten text limit (some 0) separator ≡ ok (separator ++ text)
unfolding shorten slice_to slice_last
shorten_none_kept text separator limit h k = ground arith
