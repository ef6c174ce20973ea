-- ===== src/Gettext/Mo/Entries.antt =====
-- gettext/mo.go: the reader makes of an entry the message that the writer wrote.
use sadbox.Prelude.{
  ◌≡◌, ◌≢◌, refl, ap, ◌∙◌, Bool, true, false, none, some, List, [], ◌∷◌, ◌++◌, append_assoc, Text,
  arith, has_rune,
}
use sadbox.Gettext.Message
use sadbox.Gettext.Message.{Message, simple, plural, context_of}
use sadbox.Gettext.Bytes.{cut_at, join_at, split_at}
use sadbox.Gettext.Bytes.Separators.{Free, cut_at-append, cut_at-none, split_at-join_at}
use sadbox.Gettext.Catalog.{Catalog, add}
use sadbox.Gettext.Mo.Reader.{singular_or_plural, entry_message, store_entry}
use sadbox.Gettext.Mo.Writer.{ctx_prefix, entry_src, entry_dst}

-- A source text that can be told from one with a context, and from the file's header.
abbrev Plain : Bool → Text → Text → Type 0
Plain true ctx src = has_rune ctx 4 ≡ false
Plain false ctx src = (has_rune src 4 ≡ false) × (src ≢ [])

-- A list of two parts at least.
abbrev Several : List Text → Type 0
Several [] = ⊥
Several (t ∷ []) = ⊥
Several (t ∷ u ∷ ts) = Unit {0}

-- The messages that the format can hold: no separator stands in a text that it separates, a plural
-- message has two source texts at least, and a translation.
abbrev pub Survives : Message → Type 0
Survives (simple m) = Plain m.has_ctx m.ctx m.src × (has_rune m.src 0 ≡ false)
Survives (plural m) =
    Plain m.has_ctx m.ctx (join_at 0 m.src)
    × Several m.src
    × Free 0 m.src
    × (m.dst ≢ [])
    × Free 0 m.dst

abbrev active_ctx : Bool → Text → Text
active_ctx true ctx = ctx
active_ctx false ctx = []

-- What comes back: a message without its meta-data, and without a context that it does not have.
abbrev pub as_read : Message → Message
as_read (simple m) = simple (record m { ctx = active_ctx m.has_ctx m.ctx; info = none })
as_read (plural m) = plural (record m { ctx = active_ctx m.has_ctx m.ctx; info = none })

pub key-as_read : (msg : Message) → Message.key (as_read msg) ≡ Message.key msg
unfolding Message.key
key-as_read (simple m) = ground arith
key-as_read (plural m) = ground arith

join_at-Several :
    (ts : List Text)
    → Several ts
    → Free 0 ts
    → (b : Text) × (t : Text) × (cut_at 0 (join_at 0 ts) ≡ some (b, t))
unfolding join_at
join_at-Several [] s h = absurd s
join_at-Several (t ∷ []) s h = absurd s
join_at-Several (t ∷ u ∷ ts) s (h, hs) = (t, join_at 0 (u ∷ ts), cut_at-append 0 t _ h)

Several-ne : (ts : List Text) → Several ts → ts ≢ []
Several-ne [] s = absurd s
Several-ne (t ∷ ts) s = λ e. cc

split_at-join_at_cons : (ts : List Text) → ts ≢ [] → Free 0 ts → split_at 0 (join_at 0 ts) ≡ ts
split_at-join_at_cons [] s h = absurd (s refl)
split_at-join_at_cons (t ∷ ts) s h = split_at-join_at 0 t ts h

-- A source text with its context in front.
abbrev tagged : Bool → Text → Text → Text
tagged has_ctx ctx s = ctx_prefix (context_of ctx has_ctx) ++ s

entry_message-tagged :
    (has_ctx : Bool) (ctx s t : Text)
    → Plain has_ctx ctx s
    → entry_message (tagged has_ctx ctx s) t
      ≡ singular_or_plural s t (active_ctx has_ctx ctx) has_ctx
unfolding entry_message
entry_message-tagged true ctx s t p = rw (append_assoc, entry_message, cut_at-append 4 ctx s p) refl
entry_message-tagged false ctx s t (p, _) = rw (entry_message, cut_at-none 4 s p) refl

tagged_ne : (has_ctx : Bool) (ctx s : Text) → Plain has_ctx ctx s → tagged has_ctx ctx s ≢ []
tagged_ne true [] s p = λ e. cc
tagged_ne true (b ∷ ctx) s p = λ e. cc
tagged_ne false ctx s (_, ne) = ne

entry_src_ne : (msg : Message) → Survives msg → entry_src msg ≢ []
unfolding entry_src Message.context
entry_src_ne (simple m) v = tagged_ne m.has_ctx m.ctx m.src v.0
entry_src_ne (plural m) v = tagged_ne m.has_ctx m.ctx (join_at 0 m.src) v.0

entry_message_lem :
    (msg : Message) → Survives msg → entry_message (entry_src msg) (entry_dst msg) ≡ as_read msg
unfolding entry_src entry_dst Message.context
entry_message_lem (simple m) (p, h) =
    entry_message-tagged m.has_ctx m.ctx m.src m.dst p
    ∙ rw (singular_or_plural, cut_at-none 0 m.src h) refl
entry_message_lem (plural m) (p, s, h, d, hd) =
    let (_, _, cut) = join_at-Several m.src s h in
    entry_message-tagged m.has_ctx m.ctx (join_at 0 m.src) (join_at 0 m.dst) p
    ∙ rw
        (
          singular_or_plural,
          cut,
          split_at-join_at_cons m.src (Several-ne m.src s) h,
          split_at-join_at_cons m.dst d hd,
        )
        refl

store_entry_ne :
    (lower : Text → Text) (c : Catalog) (s t : Text)
    → s ≢ []
    → store_entry lower c (s, t) ≡ add c (entry_message s t)
unfolding store_entry
store_entry_ne lower c [] t h = absurd (h refl)
store_entry_ne lower c (b ∷ s) t h = refl

pub store_entry_lem :
    (lower : Text → Text) (c : Catalog) (msg : Message)
    → Survives msg
    → store_entry lower c (entry_src msg, entry_dst msg) ≡ add c (as_read msg)
store_entry_lem lower c msg v =
    store_entry_ne lower c _ _ (entry_src_ne msg v) ∙ ap (add c) (entry_message_lem msg v)
