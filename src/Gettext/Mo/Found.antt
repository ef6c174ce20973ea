-- ===== src/Gettext/Mo/Found.antt =====
-- gettext/gettext.go: what is found after a list of messages was added to a catalog, whatever their order.
use sadbox.Prelude.{
  ◌≡◌, refl, sym, ◌∙◌, Option, none, some, List, [], ◌∷◌, arith, if◌then◌else◌, look, look-put,
}
use mathlib.Core.List.{Permᴰ}
use sadbox.Gettext.Message
use sadbox.Gettext.Message.{Key, Message, key_eq}
use sadbox.Gettext.Catalog.{Catalog, add}
use sadbox.Gettext.Catalog.Invariant.{Keyed, key_eq_lem}
use sadbox.Gettext.Sorted.Permutation.{values}
use sadbox.Gettext.Mo.Entries.{as_read, key-as_read}

abbrev pub find_in : List Message → Key → Option Message
find_in [] k = none
find_in (m ∷ l) k = if key_eq (Message.key m) k then some m else find_in l k

abbrev pub DistinctKeys : List Message → Type 0
DistinctKeys [] = Unit {0}
DistinctKeys (m ∷ l) = (find_in l (Message.key m) ≡ none) × DistinctKeys l

-- The order of messages with distinct keys does not matter.
pub find_in-Permᴰ :
    {a b : List Message}
    → Permᴰ a b
    → DistinctKeys a
    → DistinctKeys b × ((k : Key) → find_in a k ≡ find_in b k)
find_in-Permᴰ Permᴰ.nil d = (d, λ k. refl)
find_in-Permᴰ (Permᴰ.cons {a} {b} {l₁} {l₂} e p) (fresh, d) =
    let (d', same) = find_in-Permᴰ p d in
    ((sym (same (Message.key b)) ∙ rw (← e) fresh, d'), λ k. ground (arith, same k, e))
find_in-Permᴰ (Permᴰ.swap {a} {b} {a'} {b'} {l} e f) (fresh, (fresh', d)) = (
  ground (
    arith,
    e,
    f,
    key_eq_lem (Message.key a) (Message.key b),
    key_eq_lem (Message.key b) (Message.key a),
  ),
  λ k. ground (
    arith,
    e,
    f,
    key_eq_lem (Message.key a) (Message.key b),
    key_eq_lem (Message.key b) (Message.key a),
    key_eq_lem (Message.key a) k,
    key_eq_lem (Message.key b) k,
  ),
)
find_in-Permᴰ (Permᴰ.trans p q) d =
    let (d', same) = find_in-Permᴰ p d in
    let (d'', same') = find_in-Permᴰ q d' in (d'', λ k. same k ∙ same' k)

pub find_in-values :
    (m : List (Key × Message)) (k : Key) → Keyed m → find_in (values m) k ≡ look key_eq m k
unfolding look
find_in-values [] k h = refl
find_in-values ((j, v) ∷ m) k (own, fresh, rest) = rw (own, find_in-values m k rest) refl

abbrev pub add_all : Catalog → List Message → Catalog
add_all c [] = c
add_all c (m ∷ l) = add_all (add c (as_read m)) l

abbrev pub read_or : Option Message → Option Message → Option Message
read_or none o = o
read_or (some m) o = some (as_read m)

pub look-add_all :
    (c : Catalog) (l : List Message) (k : Key)
    → DistinctKeys l
    → look key_eq (add_all c l).messages k ≡ read_or (find_in l k) (look key_eq c.messages k)
unfolding add
look-add_all c [] k d = refl
look-add_all c (m ∷ l) k (fresh, d) = ground (
  arith,
  look-add_all (add c (as_read m)) l k d,
  look-put key_eq key_eq_lem c.messages (Message.key (as_read m)) k (as_read m),
  key-as_read m,
  key_eq_lem (Message.key m) k,
)

pub Keyed-DistinctKeys : (m : List (Key × Message)) → Keyed m → DistinctKeys (values m)
Keyed-DistinctKeys [] h = tt
Keyed-DistinctKeys ((k, v) ∷ m) (own, fresh, rest) =
    (find_in-values m (Message.key v) rest ∙ rw (← own) fresh, Keyed-DistinctKeys m rest)
