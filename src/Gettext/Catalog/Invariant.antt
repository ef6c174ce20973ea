-- ===== src/Gettext/Catalog/Invariant.antt =====
-- gettext/gettext.go: each message of a catalog stands under its own key, and every operation keeps it so.
use sadbox.Prelude.{
  ◌≡◌, refl, ◌∙◌, ◌↔◌, ◌⊎◌, inl, inr, Bool, true, false, none, some, List, [], ◌∷◌, Text, arith,
  if◌then◌else◌, text_eq_lem, look, put, look-put,
}
use sadbox.Gettext.Message
use sadbox.Gettext.Message.{Key, Message, simple, plural, key_eq, same_bool}
use sadbox.Gettext.Catalog.{Catalog, new_catalog, add, set_context, remove_context, find}

same_bool_lem : (a b : Bool) → (same_bool a b ≡ true) ↔ (a ≡ b)
same_bool_lem true true = ground arith
same_bool_lem true false = ground arith
same_bool_lem false true = ground arith
same_bool_lem false false = ground arith

pub key_eq_lem : (a b : Key) → (key_eq a b ≡ true) ↔ (a ≡ b)
key_eq_lem a b =
    ground
      (arith, text_eq_lem a.src b.src, text_eq_lem a.ctx b.ctx, same_bool_lem a.has_ctx b.has_ctx)

-- Each entry's key is its message's, and no key stands twice.
abbrev pub Keyed : List (Key × Message) → Type 0
Keyed [] = Unit {0}
Keyed ((k, v) ∷ m) = (k ≡ Message.key v) × (look key_eq m k ≡ none) × Keyed m

pub put-Keyed :
    (m : List (Key × Message)) (v : Message) → Keyed m → Keyed (put key_eq m (Message.key v) v)
unfolding put look
put-Keyed [] v h = (refl, refl, tt)
put-Keyed ((j, w) ∷ m) v (own, fresh, rest) = ground (
  arith,
  put-Keyed m v rest,
  key_eq_lem j (Message.key v),
  key_eq_lem (Message.key v) j,
  look-put key_eq key_eq_lem m (Message.key v) j v,
)

-- What a catalog keeps: its messages are keyed, and without an active context the context is empty.
pub record IsValid (c : Catalog) : Type 0 where
  pub keyed : Keyed c.messages
  pub no_ctx : (c.has_ctx ≡ true) ⊎ (c.ctx ≡ [])

pub new_catalog-IsValid : IsValid new_catalog
unfolding new_catalog
new_catalog-IsValid = record { keyed = tt; no_ctx = inr refl }

pub add-IsValid : (c : Catalog) (msg : Message) → IsValid c → IsValid (add c msg)
unfolding add
add-IsValid c msg v = record { keyed = put-Keyed c.messages msg v.keyed; no_ctx = v.no_ctx }

pub set_context-IsValid : (c : Catalog) (ctx : Text) → IsValid c → IsValid (set_context c ctx)
unfolding set_context
set_context-IsValid c ctx v = record { keyed = v.keyed; no_ctx = inl refl }

pub remove_context-IsValid : (c : Catalog) → IsValid c → IsValid (remove_context c)
unfolding remove_context
remove_context-IsValid c v = record { keyed = v.keyed; no_ctx = inr refl }

-- What a look-up in a keyed map finds has the key it was looked up by.
look-Keyed :
    (m : List (Key × Message)) (k : Key) {v : Message}
    → Keyed m
    → look key_eq m k ≡ some v
    → Message.key v ≡ k
unfolding look
look-Keyed [] k h e = cc
look-Keyed ((j, w) ∷ m) k {v} (own, fresh, rest) e =
    ground (arith, look-Keyed m k {v = v} rest, key_eq_lem j k)

-- The context of a message, read off its key.
context-key :
    (msg : Message)
    → Message.context msg ≡ (if (Message.key msg).has_ctx then some (Message.key msg).ctx else none)
unfolding Message.context Message.key
context-key (simple m) = ground arith
context-key (plural m) = ground arith

pub find_own :
    (c : Catalog) (src : Text) {msg : Message}
    → IsValid c
    → find c src ≡ some msg
    → (Message.key msg ≡ record { src = src; ctx = c.ctx; has_ctx = c.has_ctx })
      × (Message.context msg ≡ (if c.has_ctx then some c.ctx else none))
unfolding find
find_own c src {msg} v e =
    let own =
      look-Keyed c.messages (record { src = src; ctx = c.ctx; has_ctx = c.has_ctx }) v.keyed e in
    (own, context-key msg ∙ rw own refl)

-- A message is found under its source and context just after it was added, and the others are found
-- as before.
pub find-add :
    (c : Catalog) (msg : Message) (src : Text)
    → find (add c msg) src ≡ (
        if key_eq (Message.key msg) (record { src = src; ctx = c.ctx; has_ctx = c.has_ctx })
        then some msg
        else find c src)
unfolding find add
find-add c msg src = look-put key_eq key_eq_lem c.messages (Message.key msg) _ msg
