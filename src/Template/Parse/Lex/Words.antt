-- ===== src/Template/Parse/Lex/Words.antt =====
-- template/parse/lex.go: the types of the words.
use sadbox.Prelude.{
  ◌&&◌, ◌||◌, ◌≡◌, refl, Bool, true, false, List, [], ◌∷◌, Text, arith, codes, not, text_lookup,
  text_eq, if_elim,
}
use sadbox.Template.Parse.Lex.{ItemType, keywords}
use sadbox.Template.Parse.Lex.Actions.{word_type, keyword_or, first_rune, is_rune}
use sadbox.Template.Parse.Lex.Slices.{is_eof}

-- No word has the type of the end.
opens : List (Text × ItemType) → Bool
opens [] = true
opens ((k, t) ∷ m) = not (is_eof t) && opens m

keyword_or-opens :
    (m : List (Text × ItemType)) (w : Text) (t : ItemType)
    → opens m ≡ true
    → is_eof t ≡ false
    → is_eof (keyword_or (text_lookup m w) t) ≡ false
unfolding opens keyword_or
keyword_or-opens [] w t h e = e
keyword_or-opens ((k, u) ∷ m) w t h e =
    if_elim (λ o. is_eof (keyword_or o t) ≡ false) (text_eq k w) (λ _. ground arith)
      (λ _. keyword_or-opens m w t (ground arith) e)

word_type-opens : (w : Text) → is_eof (word_type w) ≡ false
unfolding word_type
word_type-opens w =
    if_elim (λ t. is_eof t ≡ false) (is_rune (first_rune w) b'.') (λ _. refl)
      λ _.
        if_elim (λ t. is_eof t ≡ false) (is_rune (first_rune w) b'$') (λ _. refl)
          λ _.
            if_elim (λ t. is_eof t ≡ false) (text_eq w (codes "true") || text_eq w (codes "false"))
              (λ _. refl) λ _. refl

pub word-open : (w : Text) → is_eof (keyword_or (text_lookup keywords w) (word_type w)) ≡ false
unfolding opens
word-open w = keyword_or-opens keywords w (word_type w) refl (word_type-opens w)
