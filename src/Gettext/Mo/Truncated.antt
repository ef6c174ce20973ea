-- ===== src/Gettext/Mo/Truncated.antt =====
-- gettext/mo.go: files that are too short for the words in front of the tables.
use sadbox.Prelude.{
  ℕ, zero, suc, ◌+◌, ◌*◌, ◌≤◌, ◌<◌, ◌≡◌, ◌⊎◌, inl, inr, refl, ◌∙◌, some, List, [], ◌∷◌, Text, arith,
  length, drop, length-drop, length-take_le,
}
use sadbox.Gettext.Bytes.Words.{ByteOrder, little_endian}
use sadbox.Gettext.Catalog.{Catalog}
use sadbox.Gettext.Mo.{ReadError, Read, ok, err, ◌>>=◌}
use sadbox.Gettext.Mo.Reader.{
  read_full, read_word, read_words, read_order, order_of, read_tables, check_revision, read_mo,
}

-- What is read in full lies in the file.
read_full-ok :
    (file : Text) (at n : ℕ) {s : Text} {p : ℕ}
    → read_full file at (suc n) ≡ ok (s, p)
    → (p ≡ at + suc n) × (p ≤ length file)
unfolding read_full
read_full-ok file at n h =
    ground (arith, length-take_le (suc n) (drop at file), length-drop at file)

-- Inversion of a successful bind.
bind-ok {ℓ κ} :
    {A : Type ℓ} {B : Type κ} (m : Read A) (f : A → Read B) {b : B}
    → (m >>= f) ≡ ok b
    → (a : A) × (m ≡ ok a) × (f a ≡ ok b)
bind-ok (ok a) f h = (a, refl, h)
bind-ok (err e) f h = cc

read_word-ok :
    (order : ByteOrder) (file : Text) (at n : ℕ) {w p : ℕ}
    → read_word order file at (suc n) ≡ ok (w, p)
    → (p ≡ at + suc n) × (p ≤ length file)
unfolding read_word
read_word-ok order file at n {w} {p} h =
    let ((s, q), in_full, e) = bind-ok (read_full file at (suc n)) _ h in
    let same : q ≡ p = cc in omega (arith, read_full-ok file at n in_full)

-- Of one word at least.
read_words-ok :
    (order : ByteOrder) (file : Text) (at n k : ℕ) {ws : List ℕ} {p : ℕ}
    → read_words order file at (suc n) (suc k) ≡ ok (ws, p)
    → (at + suc n * suc k ≤ p) × (p ≤ length file)
unfolding read_words
read_words-ok order file at n zero {ws} {p} h =
    let ((w, q), one, e) = bind-ok (read_word order file at (suc n)) _ h in
    let same : q ≡ p = cc in grind (arith, read_word-ok order file at n one)
read_words-ok order file at n (suc k) {ws} {p} h =
    let ((w, q), one, e) = bind-ok (read_word order file at (suc n)) _ h in
    let ((vs, r), rest, e') = bind-ok (read_words order file q (suc n) (suc k)) _ e in
    let same : r ≡ p = cc in
    grind (arith, read_word-ok order file at n one, read_words-ok order file q n k rest)

order_of-ok : (magic at : ℕ) {o : ByteOrder × ℕ} → order_of magic at ≡ ok o → o.1 ≡ at
order_of-ok magic at h = ground arith

read_order-ok : (file : Text) {o : ByteOrder × ℕ} → read_order file ≡ ok o → o.1 ≡ 4
unfolding read_order
read_order-ok file h =
    let ((magic, q), one, e) = bind-ok (read_word little_endian file 0 4) _ h in
    order_of-ok magic q e ∙ omega (arith, read_word-ok little_endian file 0 3 one)

check_revision-ok : (rev : List ℕ) (at : ℕ) {p : ℕ} → check_revision rev at ≡ ok p → p ≡ at
check_revision-ok (major ∷ minor ∷ l) at h = ground arith
check_revision-ok [] at h = cc
check_revision-ok (major ∷ []) at h = cc

read_tables-ok : (file : Text) {t : ByteOrder × List ℕ} → read_tables file ≡ ok t → 28 ≤ length file
unfolding read_tables
read_tables-ok file h =
    let ((order, a), first, e) = bind-ok (read_order file) _ h in
    let ((rev, b), revision, e') = bind-ok (read_words order file a 2 2) _ e in
    let (d, checked, e'') = bind-ok (check_revision rev b) _ e' in
    let ((idx, f), five, _) = bind-ok (read_words order file d 4 5) _ e'' in
    omega (
      arith,
      read_order-ok file first,
      read_words-ok order file a 1 1 revision,
      check_revision-ok rev b checked,
      read_words-ok order file d 3 4 five,
    )

pub Read-cases {ℓ} :
    {A : Type ℓ} (m : Read A) → ((a : A) × (m ≡ ok a)) ⊎ ((e : ReadError) × (m ≡ err e))
Read-cases (ok a) = inl (a, refl)
Read-cases (err e) = inr (e, refl)

-- A file of less than 28 bytes is refused with an error, and leaves the catalog as it is.
pub read_short :
    (lower : Text → Text) (c : Catalog) (file : Text)
    → length file < 28
    → (e : ReadError) × (read_mo lower c file ≡ (c, some e))
unfolding read_mo
read_short lower c file short = elim (Read-cases (read_tables file)) [
  | inl (t, fine) ↦ absurd (omega (arith, read_tables-ok file fine))
  | inr (e, fails) ↦ (e, rw (read_mo, fails) refl)
]
