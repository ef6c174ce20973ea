-- ===== src/Gettext/Catalog/Answers.antt =====
-- gettext/gettext.go: what `Get` and `GetPlural` answer.
use sadbox.Prelude.{
  ◌≡◌, refl, sym, ap, ◌∙◌, ◌≤◌, arith, length, get_or, ℕ, zero, suc, ltb, get_elem?, if_elim, ◌∷◌,
  Option, none, some, List, [], Text, if◌then◌else◌,
}
use sadbox.Prelude.Int.{ℤ, pos, negsuc}
use sadbox.Gettext.Message
use sadbox.Gettext.Message.{Key, Message, PluralMessage, plural, form_at, key_eq}
use sadbox.Gettext.Catalog.{
  Catalog, new_catalog, add, clone, set_context, remove_context, find, get, get_plural, formatted,
}
use sadbox.Gettext.Catalog.Invariant.{
  IsValid, find_own, find-add, key_eq_lem, new_catalog-IsValid, add-IsValid, set_context-IsValid,
  remove_context-IsValid,
}
use sadbox.Gettext.Catalog.Clones.{clone-IsValid}
use sadbox.Gettext.Mo.Reader.{read_mo}
use sadbox.Gettext.Mo.Validity.{read_mo-IsValid}

-- The catalogs that the package's own operations make, reading a file among them, also one that is refused
-- half way. `lower` is `strings.ToLower` beyond ASCII.
pub data Reachable : Catalog → Type 0 where
  fresh : Reachable new_catalog
  added : {c : Catalog} (msg : Message) → Reachable c → Reachable (add c msg)
  in_context : {c : Catalog} (ctx : Text) → Reachable c → Reachable (set_context c ctx)
  out_of_context : {c : Catalog} → Reachable c → Reachable (remove_context c)
  cloned : {c : Catalog} → Reachable c → Reachable (clone c)
  read :
      {c : Catalog} (lower : Text → Text) (file : Text)
      → Reachable c
      → Reachable (read_mo lower c file).0

pub Reachable-IsValid : (c : Catalog) → Reachable c → IsValid c
Reachable-IsValid _ fresh = new_catalog-IsValid
Reachable-IsValid _ (added {c} msg r) = add-IsValid c msg (Reachable-IsValid c r)
Reachable-IsValid _ (in_context {c} ctx r) = set_context-IsValid c ctx (Reachable-IsValid c r)
Reachable-IsValid _ (out_of_context {c} r) = remove_context-IsValid c (Reachable-IsValid c r)
Reachable-IsValid _ (cloned {c} r) = clone-IsValid c (Reachable-IsValid c r)
Reachable-IsValid _ (read {c} lower file r) =
    (read_mo-IsValid lower c file (Reachable-IsValid c r)).0

-- In a catalog that the package's operations made, reading any file among them, a message that a look-up
-- finds has the source text that was asked for, and the context that is active: none if there is none.
pub find-Reachable :
    (c : Catalog) (src : Text) {msg : Message}
    → Reachable c
    → find c src ≡ some msg
    → (Message.key msg ≡ record { src = src; ctx = c.ctx; has_ctx = c.has_ctx })
      × (Message.context msg ≡ (if c.has_ctx then some c.ctx else none))
find-Reachable c src r e = find_own c src (Reachable-IsValid c r) e

abbrev text_or_empty : Option Text → Text
text_or_empty none = []
text_or_empty (some t) = t

-- The form with the number that was chosen, and the empty text where there is none; negative numbers have
-- none.
abbrev pub chosen : PluralMessage → Option ℤ → Option Text
chosen m none = none
chosen m (some (pos i)) = some (text_or_empty (get_elem? m.dst i))
chosen m (some (negsuc i)) = some []

get_or-get_elem : (ts : List Text) (i : ℕ) → get_or ts i [] ≡ text_or_empty (get_elem? ts i)
get_or-get_elem [] i = refl
get_or-get_elem (t ∷ ts) zero = refl
get_or-get_elem (t ∷ ts) (suc i) = get_or-get_elem ts i

get_or_beyond : (ts : List Text) (i : ℕ) → length ts ≤ i → get_or ts i [] ≡ []
get_or_beyond [] i h = refl
get_or_beyond (t ∷ ts) zero h = absurd (omega arith)
get_or_beyond (t ∷ ts) (suc i) h = get_or_beyond ts i (omega arith)

form_at-pos : (ts : List Text) (i : ℕ) → form_at ts (pos i) ≡ text_or_empty (get_elem? ts i)
form_at-pos ts i =
    if_elim (λ t. t ≡ text_or_empty (get_elem? ts i)) (ltb i (length ts))
      (λ _. get_or-get_elem ts i)
      λ e.
        let beyond : length ts ≤ i = ground arith in
        sym (get_or_beyond ts i beyond) ∙ get_or-get_elem ts i

-- After a plural message was added, `get_plural` at its source text and context, without arguments,
-- answers the form at the index that the plural function chooses, counted from 0, the empty text if
-- there is no form there, and panics only with the plural function; `get` answers the empty text.
pub get_plural-add {ℓ} :
    {Arg : Type ℓ} (sprintf : Text → List Arg → Text) (c : Catalog) (m : PluralMessage) (src : Text)
    (num : ℤ)
    → Message.key (plural m) ≡ record { src = src; ctx = c.ctx; has_ctx = c.has_ctx }
    → (get_plural sprintf (add c (plural m)) src num none ≡ chosen m (c.plural_func num))
      × (get sprintf (add c (plural m)) src none ≡ [])
unfolding get get_plural formatted Message.get Message.get_plural
get_plural-add sprintf c m src num e =
    (rw (get_plural, found) (unfold add in form (c.plural_func num)), rw (get, found) refl)
  where
    found : find (add c (plural m)) src ≡ some (plural m)
    found = rw (find-add c (plural m) src, (key_eq_lem _ _).1 e) refl

    form :
        (i : Option ℤ)
        → (elim i [
          | some index ↦
              some (formatted sprintf (plural m) (Message.get_plural (plural m) index) none)
          | none ↦ none
        ])
          ≡ chosen m i
    form none = refl
    form (some (pos i)) = ap some (form_at-pos m.dst i)
    form (some (negsuc i)) = refl
