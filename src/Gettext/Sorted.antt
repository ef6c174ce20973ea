-- ===== src/Gettext/Sorted.antt =====
-- gettext/gettext.go: `sortedMessages`. The list of entries stands in the order in which `range` visits
-- the map, which Go leaves open.
pub mod Permutation
use sadbox.Prelude.{
  Bool, true, false, Option, none, some, List, [], ◌∷◌, ◌++◌, map, Text, text_eq, if◌then◌else◌,
  leb, ltb, look, put,
}
use sadbox.Gettext.Message
use sadbox.Gettext.Message.{Key, Message}

-- A `map[string][]Message`.
abbrev pub Groups : Type 0
Groups = List (Text × List Message)

-- `m[k]`: the nil slice if there is none.
abbrev pub or_empty : Option (List Message) → List Message
or_empty none = []
or_empty (some l) = l

abbrev pub group_of : Groups → Text → List Message
group_of m k = or_empty (look text_eq m k)

-- `m[k] = append(m[k], v)`.
unfoldable pub append_to : Groups → Text → Message → Groups
append_to m k v = put text_eq m k (group_of m k ++ (v ∷ []))

-- The order of strings, bytewise.
unfoldable pub text_leb : Text → Text → Bool
text_leb [] b = true
text_leb (x ∷ a) [] = false
text_leb (x ∷ a) (y ∷ b) =
    let rest = text_leb a b in if ltb x y then true else if ltb y x then false else rest

-- `sort.Strings`.
unfoldable pub insert_string : Text → List Text → List Text
insert_string s [] = s ∷ []
insert_string s (k ∷ ks) =
    let rest = insert_string s ks in if text_leb s k then s ∷ k ∷ ks else k ∷ rest

unfoldable pub sort_strings : List Text → List Text
sort_strings [] = []
sort_strings (s ∷ ks) = insert_string s (sort_strings ks)

abbrev pub keys : Groups → List Text
keys [] = []
keys ((k, v) ∷ m) = k ∷ keys m

unfoldable pub sorted_message_keys : Groups → List Text
sorted_message_keys m = sort_strings (keys m)

-- The loop that groups the messages of the catalog by the source in their key.
unfoldable pub group_by_src : List (Key × Message) → Groups → Groups
group_by_src [] key_map = key_map
group_by_src ((k, v) ∷ m) key_map = group_by_src m (append_to key_map k.src v)

-- The loop over the messages of one source: those without context at once, the others into groups.
abbrev pub sift : Message → Option Text → List Message × Groups → List Message × Groups
sift msg none (msgs, ctx_map) = (msgs ++ (msg ∷ []), ctx_map)
sift msg (some ctx) (msgs, ctx_map) = (msgs, append_to ctx_map ctx msg)

unfoldable pub group_by_ctx : List Message → List Message × Groups → List Message × Groups
group_by_ctx [] s = s
group_by_ctx (msg ∷ l) s = group_by_ctx l (sift msg (Message.context msg) s)

-- The loop over the contexts.
unfoldable pub append_groups : Groups → List Text → List Message → List Message
append_groups ctx_map [] msgs = msgs
append_groups ctx_map (ctx ∷ ks) msgs = append_groups ctx_map ks (msgs ++ group_of ctx_map ctx)

unfoldable pub append_src : List Message → List Message → List Message
append_src l msgs =
    let (msgs', ctx_map) = group_by_ctx l (msgs, []) in
    append_groups ctx_map (sorted_message_keys ctx_map) msgs'

-- The loop over the sources.
unfoldable pub append_srcs : Groups → List Text → List Message → List Message
append_srcs key_map [] msgs = msgs
append_srcs key_map (v ∷ ks) msgs = append_srcs key_map ks (append_src (group_of key_map v) msgs)

unfoldable pub sorted_messages : List (Key × Message) → List Message
sorted_messages m =
    let key_map = group_by_src m [] in append_srcs key_map (sorted_message_keys key_map) []
