-- ===== src/Template/Parse/Lex/Lines.antt =====
-- template/parse/lex.go: the client's end of the channel, and the line numbers that it is told. The items
-- that are not read yet are a list, and the channel is closed behind the last one.
use sadbox.Prelude.{
  ℕ, zero, suc, ◌+◌, ◌≤◌, ◌≡◌, Bool, some, List, [], ◌∷◌, arith, Text, if◌then◌else◌, ◌==◌, length,
  take,
}
use sadbox.Template.Parse.Lex.{Item, item, item_error, item_eof, TemplateLexer, Delims}
use sadbox.Template.Parse.Lex.Actions.{run_lexer}
use sadbox.Template.Parse.Lex.Slices.{Lies}
use sadbox.Template.Parse.Lex.Items.{run_lexer-Lies}

pub record ItemReader : Type 0 where
  pub unread : List Item
  pub last_pos : ℕ
  -- `l.pos` of the lexer that has stopped.
  pub pos : ℕ

unfoldable pub reader : TemplateLexer → ItemReader
reader l = record { unread = l.items; last_pos = 0; pos = l.start + length l.pending }

abbrev pub item_position : Item → ℕ
item_position (item t p val) = p
item_position (item_error p e) = p

abbrev pub next_of : List Item → ItemReader → Item × ItemReader
next_of [] r = (item item_eof r.pos [], r)
next_of (x ∷ xs) r = (x, record r { unread = xs; last_pos = item_position x })

unfoldable pub next_item : ItemReader → Item × ItemReader
next_item r = next_of r.unread r

abbrev pub count_rune : ℕ → Text → ℕ
count_rune c [] = 0
count_rune c (r ∷ rs) = let n = count_rune c rs in if r == c then suc n else n

unfoldable pub line_number : Text → ItemReader → ℕ
line_number input r = 1 + count_rune 10 (take r.last_pos input)

-- The reader after some calls of `nextItem`.
unfoldable pub read_items : ℕ → ItemReader → ItemReader
read_items zero r = r
read_items (suc n) r = (next_item (read_items n r)).1

count_rune-take : (c m n : ℕ) (s : Text) → m ≤ n → count_rune c (take m s) ≤ count_rune c (take n s)
count_rune-take c zero n s h = omega arith
count_rune-take c (suc m) zero s h = absurd (omega arith)
count_rune-take c (suc m) (suc n) [] h = omega arith
count_rune-take c (suc m) (suc n) (r ∷ s) h =
    let q = count_rune-take c m n s (omega arith) in ground arith

Lies-earlier :
    (input : Text) (a c : ℕ) (l : List Item) (b : ℕ) → a ≤ c → Lies input c l b → Lies input a l b
Lies-earlier input a c [] b h k = omega arith
Lies-earlier input a c (item t p val ∷ l) b h (k, e, r) = (omega arith, e, r)
Lies-earlier input a c (item_error p e ∷ l) b h (k, r) = (omega arith, r)

-- What is unread lies behind the last item that was read.
abbrev Behind : Text → ℕ → ItemReader → Type 0
Behind input b r = Lies input r.last_pos r.unread b

module _ (input : Text) (b : ℕ) where
  next_of-Behind :
      (l : List Item) (r : ItemReader)
      → Behind input b r
      → Lies input r.last_pos l b
      → (r.last_pos ≤ (next_of l r).1.last_pos) × Behind input b (next_of l r).1
  next_of-Behind [] r g h = (omega arith, g)
  next_of-Behind (item t p val ∷ l) r g (h, e, k) =
      (h, Lies-earlier input p (p + length val) l b (omega arith) k)
  next_of-Behind (item_error p e ∷ l) r g (h, k) = (h, k)

  next_item-Behind :
      (r : ItemReader)
      → Behind input b r
      → (r.last_pos ≤ (next_item r).1.last_pos) × Behind input b (next_item r).1
  unfolding next_item
  next_item-Behind r h = next_of-Behind r.unread r h h

  read_items-Behind : (n : ℕ) (r : ItemReader) → Behind input b r → Behind input b (read_items n r)
  unfolding read_items
  read_items-Behind zero r h = h
  read_items-Behind (suc n) r h = (next_item-Behind _ (read_items-Behind n r h)).1

-- However many items of a run the client has read, reading one more never takes the line number back.
pub line_number-read_items :
    (is_word : ℕ → Bool) (d : Delims) (input : Text) (m : TemplateLexer)
    → run_lexer is_word d input ≡ some m
    → (n : ℕ)
    → line_number input (read_items n (reader m))
      ≤ line_number input (read_items (suc n) (reader m))
unfolding read_items line_number reader
line_number-read_items is_word d input m h n =
    let b = read_items-Behind input m.start n (reader m) (run_lexer-Lies input is_word d m h) in
    let q = (next_item-Behind input m.start (read_items n (reader m)) b).0 in
    omega (arith, count_rune-take 10 _ _ input q)
