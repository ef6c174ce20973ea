-- ===== src/Template/Escape/Replace/Kept.antt =====
-- template/escape: a text of which nothing is replaced.
use sadbox.Prelude.{
  ℕ, zero, suc, ◌-◌, ◌≤◌, ◌<◌, ◌≡◌, refl, ap, ◌∙◌, Bool, true, Option, none, some, List, [], ◌∷◌,
  ◌++◌, Text, arith, length, take, drop, length-drop, length-take_le, take-drop, append_assoc,
  append-nil,
}
use sadbox.Gettext.Bytes.{decode_rune}
use sadbox.Template.Escape.Replace.{rune_len, range_runes, bytes_of, replace_runes, replace_text}
use sadbox.Template.Escape.Replace.Decoding.{range_runes-Decoded}
use sadbox.Template.Escape.Replace.Safe.{all, Decoded, ascii, several, broken, Each, at_end, onward}

all-part :
    (p : ℕ → Bool) (n : ℕ) (s : Text)
    → all p s ≡ true
    → (all p (take n s) ≡ true) × (all p (drop n s) ≡ true)
all-part p zero s h = (refl, h)
all-part p (suc n) [] h = (refl, refl)
all-part p (suc n) (x ∷ s) h =
    let r : (all p s ≡ true → (all p (take n s) ≡ true) × (all p (drop n s) ≡ true)) =
      all-part p n s in
    ground arith

pub all-weaken :
    (p q : ℕ → Bool)
    → ((r : ℕ) → p r ≡ true → q r ≡ true)
    → (s : Text) → all p s ≡ true
    → all q s ≡ true
all-weaken p q f [] h = refl
all-weaken p q f (x ∷ s) h =
    let r : (all p s ≡ true → all q s ≡ true) = all-weaken p q f s in
    let k : (p x ≡ true → q x ≡ true) = f x in ground arith

Decoded-positive : (x : ℕ × Text) → Decoded x → 0 < length x.1
unfolding rune_len
Decoded-positive x (ascii h) = omega arith
Decoded-positive x (several {r} {bs} h k l) = rw l (ground arith)
Decoded-positive x (broken h) = omega arith

take-positive :
    (r n : ℕ) (s : Text) (l : List (ℕ × Text)) → Each Decoded ((r, take n s) ∷ l) → 0 < n
take-positive r n s l (onward p q) =
    let h : 0 < length (take n s) = Decoded-positive (r, take n s) p in
    omega (arith, (length-take_le n s).0)

first_positive : (b : ℕ) (s : Text) → 0 < (decode_rune (b ∷ s)).1
unfolding range_runes
first_positive b s = take-positive _ _ (b ∷ s) _ (range_runes-Decoded 1 (b ∷ s))

bytes_of-range_runes : (k : ℕ) (s : Text) → length s ≤ k → bytes_of (range_runes k s) ≡ s
unfolding bytes_of range_runes
bytes_of-range_runes zero [] h = refl
bytes_of-range_runes zero (b ∷ s) h = absurd (omega arith)
bytes_of-range_runes (suc k) [] h = refl
bytes_of-range_runes (suc k) (b ∷ s) h =
    let n = (decode_rune (b ∷ s)).1 in
    rw
      (bytes_of-range_runes k (drop n (b ∷ s))
        (omega (arith, length-drop n (b ∷ s), first_positive b s)))
      (take-drop n (b ∷ s))

module _ (repl : ℕ → Text → Option Text) where
  replace_runes-kept :
      (l : List (ℕ × Text)) (p : Text)
      → Each (λ x. (s : Text) → repl x.0 s ≡ none) l
      → replace_runes repl l (record { out = []; pending = p; over = 0 }) ≡ some (p ++ bytes_of l)
  unfolding replace_runes bytes_of
  replace_runes-kept [] p at_end = rw append-nil refl
  replace_runes-kept ((r, bs) ∷ l) p (onward h rest) =
      let z : 0 - length bs ≡ 0 = omega arith in
      rw (replace_runes, h (bytes_of l), z, replace_runes-kept l (p ++ bs) rest)
        (ap some (append_assoc p bs (bytes_of l)))

  module _ (ok : ℕ → Bool) (low : (r : ℕ) (s : Text) → ok r ≡ true → repl r s ≡ none)
      (high : (r : ℕ) (s : Text) → 0x80 ≤ r → repl r s ≡ none) where
    Decoded-kept : (x : ℕ × Text) → Decoded x → all ok x.1 ≡ true → (s : Text) → repl x.0 s ≡ none
    Decoded-kept x (ascii {r} p) h s = low r s (ground arith)
    Decoded-kept x (several {r} p q l) h s = high r s p
    Decoded-kept x (broken p) h s = high 0xfffd s (omega arith)

    range_runes-kept :
        (k : ℕ) (s : Text)
        → all ok s ≡ true
        → Each Decoded (range_runes k s)
        → Each (λ x. (t : Text) → repl x.0 t ≡ none) (range_runes k s)
    unfolding range_runes
    range_runes-kept zero s h d = at_end
    range_runes-kept (suc k) [] h d = at_end
    range_runes-kept (suc k) (b ∷ s) h (onward p d) =
        let n = (decode_rune (b ∷ s)).1 in
        let parts = all-part ok n (b ∷ s) h in
        onward (Decoded-kept _ p parts.0) (range_runes-kept k (drop n (b ∷ s)) parts.1 d)

    -- A text of bytes that have no replacement comes back.
    pub replace_text-kept : (s : Text) → all ok s ≡ true → replace_text repl s ≡ some s
    unfolding replace_text
    replace_text-kept s h =
        replace_runes-kept (range_runes (length s) s) []
          (range_runes-kept (length s) s h (range_runes-Decoded (length s) s))
        ∙ ap some (bytes_of-range_runes (length s) s (omega arith))
