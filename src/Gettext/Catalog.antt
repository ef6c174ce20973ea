-- ===== src/Gettext/Catalog.antt =====
-- gettext/gettext.go: the catalog, its active context and its look-ups. A panic of the plural function
-- is the answer `none` of `get_plural`.
pub mod Invariant
pub mod Clones
pub mod Answers
use sadbox.Prelude.{Bool, true, false, Option, none, some, List, [], ◌∷◌, Text, look, put}
use sadbox.Prelude.Int.{ℤ}
use sadbox.PluralForms.Plural.{PluralFunc, default_plural_func}
use sadbox.Gettext.Message
use sadbox.Gettext.Message.{Key, Message, key_eq}

pub record Catalog : Type 0 where
  pub header : List (Text × Text)
  pub messages : List (Key × Message)
  pub plural_func : PluralFunc
  pub ctx : Text
  pub has_ctx : Bool

unfoldable pub new_catalog : Catalog
new_catalog = record {
  header = [];
  messages = [];
  plural_func = default_plural_func;
  ctx = [];
  has_ctx = false;
}

unfoldable pub add : Catalog → Message → Catalog
add c msg = record c { messages = put key_eq c.messages (Message.key msg) msg }

-- The loop of `Clone` over the messages.
unfoldable pub add_clones : List (Key × Message) → List (Key × Message) → List (Key × Message)
add_clones [] clones = clones
add_clones ((k, v) ∷ m) clones = add_clones m (put key_eq clones k (Message.clone v))

unfoldable pub clone : Catalog → Catalog
clone c = record new_catalog {
  plural_func = c.plural_func;
  ctx = c.ctx;
  has_ctx = c.has_ctx;
  messages = add_clones c.messages [];
}

unfoldable pub set_context : Catalog → Text → Catalog
set_context c ctx = record c { ctx = ctx; has_ctx = true }

unfoldable pub remove_context : Catalog → Catalog
remove_context c = record c { ctx = []; has_ctx = false }

-- The message under a source text in the active context.
unfoldable pub find : Catalog → Text → Option Message
find c key = look key_eq c.messages (record { src = key; ctx = c.ctx; has_ctx = c.has_ctx })

-- The extra arguments are a slice that may be nil.
module _ {ℓ} {Arg : Type ℓ} (sprintf : Text → List Arg → Text) where
  unfoldable pub formatted : Message → Text → Option (List Arg) → Text
  formatted msg s none = s
  formatted msg s (some a) = Message.format sprintf msg s a

  unfoldable pub get : Catalog → Text → Option (List Arg) → Text
  get c key a = elim (find c key) [ some msg ↦ formatted msg (Message.get msg) a | none ↦ [] ]

  unfoldable pub get_plural : Catalog → Text → ℤ → Option (List Arg) → Option Text
  get_plural c key num a = elim (find c key) [
    | some msg ↦ elim (c.plural_func num) [
      | some index ↦ some (formatted msg (Message.get_plural msg index) a)
      | none ↦ none
    ]
    | none ↦ some []
  ]
