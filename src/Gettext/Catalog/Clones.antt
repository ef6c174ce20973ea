-- ===== src/Gettext/Catalog/Clones.antt =====
-- gettext/gettext.go: what `Clone` copies.
use sadbox.Prelude.{
  ◌≡◌, refl, ap, Option, none, some, List, [], ◌∷◌, Text, arith, look, put, look-put,
}
use sadbox.Prelude.Int.{ℤ}
use sadbox.Gettext.Message
use sadbox.Gettext.Message.{
  Key, Message, MessageInfo, simple, plural, key_eq, copy, clone_info, clone_info?,
}
use sadbox.Gettext.Catalog.{Catalog, new_catalog, clone, add_clones, find, get, get_plural}
use sadbox.Gettext.Catalog.Invariant.{Keyed, IsValid, key_eq_lem, put-Keyed}

copy_lem : (ts : List Text) → copy ts ≡ ts
unfolding copy
copy_lem [] = refl
copy_lem (t ∷ ts) = ap (λ (l : List Text). t ∷ l) (copy_lem ts)

clone_info_lem : (i : MessageInfo) → clone_info i ≡ i
unfolding clone_info
clone_info_lem i = simp copy_lem

clone_info?_lem : (i : Option MessageInfo) → clone_info? i ≡ i
clone_info?_lem none = refl
clone_info?_lem (some i) = ap some (clone_info_lem i)

-- The copy of a message equals it.
pub clone_message : (msg : Message) → Message.clone msg ≡ msg
unfolding Message.clone
clone_message (simple m) = simp clone_info?_lem
clone_message (plural m) = simp (clone_info?_lem, copy_lem)

abbrev or_found : Option Message → Option Message → Option Message
or_found none o = o
or_found (some v) o = some v

look-add_clones :
    (m clones : List (Key × Message)) (k : Key)
    → Keyed m
    → look key_eq (add_clones m clones) k ≡ or_found (look key_eq m k) (look key_eq clones k)
unfolding look add_clones
look-add_clones [] clones k h = refl
look-add_clones ((j, v) ∷ m) clones k (own, fresh, rest) = ground (
  arith,
  look-add_clones m (put key_eq clones j (Message.clone v)) k rest,
  look-put key_eq key_eq_lem clones j k (Message.clone v),
  clone_message v,
  key_eq_lem j k,
)

-- A copy finds, under every text, the message that the catalog finds.
pub find-clone : (c : Catalog) (src : Text) → IsValid c → find (clone c) src ≡ find c src
unfolding find clone look
find-clone c src v = ground (
  arith,
  look-add_clones c.messages [] (record { src = src; ctx = c.ctx; has_ctx = c.has_ctx }) v.keyed,
)

add_clones-Keyed :
    (m clones : List (Key × Message)) → Keyed m → Keyed clones → Keyed (add_clones m clones)
unfolding add_clones
add_clones-Keyed [] clones h g = g
add_clones-Keyed ((j, v) ∷ m) clones (own, fresh, rest) g =
    let entry : put key_eq clones j (Message.clone v) ≡ put key_eq clones (Message.key v) v =
      rw (clone_message v, own) refl in
    add_clones-Keyed m _ rest (rw entry (put-Keyed clones v g))

pub clone-IsValid : (c : Catalog) → IsValid c → IsValid (clone c)
unfolding clone
clone-IsValid c v = record { keyed = add_clones-Keyed c.messages [] v.keyed tt; no_ctx = v.no_ctx }

-- A copy of a valid catalog is valid, answers every `get` and `get_plural` as the catalog does, and has
-- an empty header whatever the catalog's header is.
pub clone_answers {ℓ} :
    {Arg : Type ℓ} (sprintf : Text → List Arg → Text) (c : Catalog)
    → IsValid c
    → (src : Text) (num : ℤ) (a : Option (List Arg))
    → IsValid (clone c)
      × (get sprintf (clone c) src a ≡ get sprintf c src a)
      × (get_plural sprintf (clone c) src num a ≡ get_plural sprintf c src num a)
      × ((clone c).header ≡ [])
unfolding get get_plural
clone_answers sprintf c v src num a = (
  clone-IsValid c v,
  rw (get, find-clone c src v) refl,
  rw (get_plural, find-clone c src v) (unfold clone in refl),
  unfold clone new_catalog in refl,
)
