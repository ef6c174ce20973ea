-- ===== src/Gettext/Message.antt =====
-- gettext/gettext.go: the keys of a catalog, the messages and their methods. A string is the list of its
-- bytes, a slice the list of its elements (a nil slice is the empty list), and a pointer that may be nil
-- an option. The arguments of `Format` have the type `Arg`; `fmt.Sprintf` is the parameter `sprintf`.
use sadbox.Prelude.{
  ◌&&◌, Bool, true, false, Option, none, some, List, [], ◌∷◌, Text, text_eq, length, get_or, ltb,
  if◌then◌else◌,
}
use sadbox.Prelude.Int.{ℤ, pos, negsuc}

pub record Key : Type 0 where
  pub src : Text
  pub ctx : Text
  pub has_ctx : Bool

abbrev pub same_bool : Bool → Bool → Bool
same_bool true b = b
same_bool false true = false
same_bool false false = true

-- `==` on keys: all the fields are equal.
abbrev pub key_eq : Key → Key → Bool
key_eq a b = text_eq a.src b.src && text_eq a.ctx b.ctx && same_bool a.has_ctx b.has_ctx

pub record MessageInfo : Type 0 where
  pub user_comments : List Text
  pub source_comments : List Text
  pub references : List Text
  pub flags : List Text
  pub prev_singular : Text
  pub prev_plural : Text
  pub prev_ctx : Text
  pub has_prev_ctx : Bool

-- `make` and `copy`: a new slice of the same elements.
unfoldable pub copy : List Text → List Text
copy [] = []
copy (t ∷ ts) = t ∷ copy ts

unfoldable pub clone_info : MessageInfo → MessageInfo
clone_info m = record {
  user_comments = copy m.user_comments;
  source_comments = copy m.source_comments;
  references = copy m.references;
  flags = copy m.flags;
  prev_singular = m.prev_singular;
  prev_plural = m.prev_plural;
  prev_ctx = m.prev_ctx;
  has_prev_ctx = m.has_prev_ctx;
}

abbrev pub empty_info : MessageInfo
empty_info = record {
  user_comments = [];
  source_comments = [];
  references = [];
  flags = [];
  prev_singular = [];
  prev_plural = [];
  prev_ctx = [];
  has_prev_ctx = false;
}

pub record SimpleMessage : Type 0 where
  pub src : Text
  pub dst : Text
  pub ctx : Text
  pub has_ctx : Bool
  pub info : Option MessageInfo

pub record PluralMessage : Type 0 where
  pub src : List Text
  pub dst : List Text
  pub ctx : Text
  pub has_ctx : Bool
  pub info : Option MessageInfo

-- The two implementations of the interface `Message`.
pub data Message : Type 0 where
  simple : SimpleMessage → Message
  plural : PluralMessage → Message

-- The key of a message with the source text `src`.
abbrev key_of : Text → Text → Bool → Key
key_of src ctx has_ctx =
    if has_ctx
    then record { src = src; ctx = ctx; has_ctx = true }
    else record { src = src; ctx = []; has_ctx = false }

-- `m.Src[0]`, or the empty string when there is none.
abbrev first : List Text → Text
first [] = []
first (t ∷ ts) = t

unfoldable pub key : Message → Key
key (simple m) = key_of m.src m.ctx m.has_ctx
key (plural m) = key_of (first m.src) m.ctx m.has_ctx

-- `Context`: `none` is `ErrMissingContext`.
abbrev pub context_of : Text → Bool → Option Text
context_of ctx has_ctx = if has_ctx then some ctx else none

unfoldable pub context : Message → Option Text
context (simple m) = context_of m.ctx m.has_ctx
context (plural m) = context_of m.ctx m.has_ctx

unfoldable pub get : Message → Text
get (simple m) = m.dst
get (plural m) = []

-- The index is an `int`, negative ones included.
abbrev pub form_at : List Text → ℤ → Text
form_at ts (pos i) = if ltb i (length ts) then get_or ts i [] else []
form_at ts (negsuc i) = []

unfoldable pub get_plural : Message → ℤ → Text
get_plural (simple m) index = []
get_plural (plural m) index = form_at m.dst index

module _ {ℓ} {Arg : Type ℓ} (sprintf : Text → List Arg → Text) where
  unfoldable pub format : Message → Text → List Arg → Text
  format (simple m) s a = sprintf s a
  format (plural m) s a = sprintf s a

abbrev pub clone_info? : Option MessageInfo → Option MessageInfo
clone_info? none = none
clone_info? (some i) = some (clone_info i)

unfoldable pub clone : Message → Message
clone (simple m) = simple (record {
  src = m.src;
  dst = m.dst;
  ctx = m.ctx;
  has_ctx = m.has_ctx;
  info = clone_info? m.info;
})
clone (plural m) = plural (record {
  src = copy m.src;
  dst = copy m.dst;
  ctx = m.ctx;
  has_ctx = m.has_ctx;
  info = clone_info? m.info;
})

-- `Info` puts empty meta-data into a message that has none, and returns what the message has then.
abbrev info_or_empty : Option MessageInfo → MessageInfo
info_or_empty none = empty_info
info_or_empty (some i) = i

unfoldable pub info : Message → Message × MessageInfo
info (simple m) = let i = info_or_empty m.info in (simple (record m { info = some i }), i)
info (plural m) = let i = info_or_empty m.info in (plural (record m { info = some i }), i)
