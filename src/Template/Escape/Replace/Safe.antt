-- ===== src/Template/Escape/Replace/Safe.antt =====
-- template/escape: a text whose special bytes are all replaced.
use sadbox.Prelude.{
  ◌⊎◌, inl, inr, ℕ, ◌≤◌, ◌<◌, ◌≡◌, refl, Bool, true, ◌&&◌, Option, none, some, List, [], ◌∷◌, ◌++◌,
  Text, arith, leb, length,
}
use sadbox.Template.Escape.Replace.{
  rune_len, range_runes, bytes_of, Buffer, skip, visit, replace_runes, replace_text,
}

abbrev pub all : (ℕ → Bool) → Text → Bool
all p [] = true
all p (x ∷ xs) = p x && all p xs

pub all-append :
    (p : ℕ → Bool) (s t : Text) → all p s ≡ true → all p t ≡ true → all p (s ++ t) ≡ true
all-append p [] t h k = k
all-append p (x ∷ s) t h k =
    let r : (all p s ≡ true → all p (s ++ t) ≡ true) = λ q. all-append p s t q k in ground arith

-- A replacement is made of such bytes; a rune that stays is made of such bytes.
pub record Covers (ok : ℕ → Bool) (repl : ℕ → Text → Option Text) : Type 0 where
  pub replaced : (r : ℕ) (s t : Text) → repl r s ≡ some t → all ok t ≡ true
  pub kept : (r : ℕ) (s : Text) → repl r s ≡ none → r < 0x80 → ok r ≡ true
  pub high : (r : ℕ) → 0x80 ≤ r → ok r ≡ true

-- A rune with its bytes: of ASCII, of more than one byte, or a byte that is no valid UTF-8.
pub data Decoded : ℕ × Text → Type 0 where
  ascii : {r : ℕ} → r < 0x80 → Decoded (r, r ∷ [])
  several :
      {r : ℕ} {bs : Text}
      → 0x80 ≤ r
      → all (leb 0x80) bs ≡ true
      → length bs ≡ rune_len r
      → Decoded (r, bs)
  broken : {b : ℕ} → 0x80 ≤ b → Decoded (0xfffd, b ∷ [])

pub data Each (P : ℕ × Text → Type 0) : List (ℕ × Text) → Type 0 where
  at_end : Each P []
  onward : {x : ℕ × Text} {l : List (ℕ × Text)} → P x → Each P l → Each P (x ∷ l)

pub Each-map :
    {P Q : ℕ × Text → Type 0}
    → ((x : ℕ × Text) → P x → Q x)
    → (l : List (ℕ × Text)) → Each P l
    → Each Q l
Each-map f [] at_end = at_end
Each-map f (x ∷ l) (onward p q) = onward (f x p) (Each-map f l q)

-- The text is there, and made of such bytes.
abbrev pub Returned : (ℕ → Bool) → Option Text → Type 0
Returned ok o = (t : Text) × (o ≡ some t) × (all ok t ≡ true)

module _ (ok : ℕ → Bool) (repl : ℕ → Text → Option Text) (c : Covers ok repl) where
  high_all : (bs : Text) → all (leb 0x80) bs ≡ true → all ok bs ≡ true
  high_all [] h = refl
  high_all (x ∷ bs) h =
      let q : (all (leb 0x80) bs ≡ true → all ok bs ≡ true) = high_all bs in
      let k : (0x80 ≤ x → ok x ≡ true) = c.high x in ground arith

  kept_bytes : (x : ℕ × Text) (s : Text) → Decoded x → repl x.0 s ≡ none → all ok x.1 ≡ true
  kept_bytes x s (ascii {r} h) e = let k = c.kept r s e h in ground arith
  kept_bytes x s (several h k l) e = high_all _ k
  kept_bytes x s (broken {b} h) e = let k = c.high b h in ground arith

  -- A rune that is as long as its bytes, or is not replaced.
  abbrev pub Fits : ℕ × Text → Type 0
  Fits x = (length x.1 ≡ rune_len x.0) ⊎ ((s : Text) → repl x.0 s ≡ none)

  record Clean (b : Buffer) : Type 0 where
    clean_out : all ok b.out ≡ true
    clean_pending : all ok b.pending ≡ true
    clean_over : b.over ≡ 0

  skip-Clean : (bs : Text) (b : Buffer) → all ok bs ≡ true → Clean b → Clean (skip bs b)
  skip-Clean bs b h k = record {
    clean_out = k.clean_out;
    clean_pending = rw k.clean_over (all-append ok b.pending bs k.clean_pending h);
    clean_over = omega (arith, k.clean_over);
  }

  fitting :
      (r : ℕ) (bs s t : Text)
      → (length bs ≡ rune_len r) ⊎ ((s : Text) → repl r s ≡ none)
      → repl r s ≡ some t
      → length bs ≡ rune_len r
  fitting r bs s t (inl h) e = h
  fitting r bs s t (inr h) e = let q = h s in cc

  visited :
      (f : Buffer → Option Text) (r : ℕ) (bs s : Text) (b : Buffer) (o : Option Text)
      → repl r s ≡ o
      → Decoded (r, bs)
      → Fits (r, bs)
      → Clean b
      → ((b' : Buffer) → Clean b' → Returned ok (f b'))
      → Returned ok (elim (visit o r bs b) [ none ↦ none | some b' ↦ f b' ])
  visited f r bs s b none e p q k g = g (skip bs b) (skip-Clean bs b (kept_bytes (r, bs) s p e) k)
  visited f r bs s b (some t) e p q k g = rw k.clean_over (
      g _ (record {
        clean_out =
            all-append ok b.out (b.pending ++ t) k.clean_out
              (all-append ok b.pending t k.clean_pending (c.replaced r s t e));
        clean_pending = refl;
        clean_over = omega (arith, fitting r bs s t q e);
      }))

  replace_runes-Returned :
      (l : List (ℕ × Text)) (b : Buffer)
      → Each Decoded l
      → Each Fits l
      → Clean b
      → Returned ok (replace_runes repl l b)
  unfolding replace_runes
  replace_runes-Returned [] b d f k =
      rw k.clean_over
        (b.out ++ b.pending, refl, all-append ok b.out b.pending k.clean_out k.clean_pending)
  replace_runes-Returned ((r, bs) ∷ l) b (onward p d) (onward q f) k =
      visited (replace_runes repl l) r bs (bytes_of l) b _ refl p q k
        (λ b' k'. replace_runes-Returned l b' d f k')

  pub replace_text-Returned :
      (s : Text)
      → Each Decoded (range_runes (length s) s)
      → Each Fits (range_runes (length s) s)
      → Returned ok (replace_text repl s)
  unfolding replace_text
  replace_text-Returned s d f =
      replace_runes-Returned _ _ d f
        (record { clean_out = refl; clean_pending = refl; clean_over = refl })
