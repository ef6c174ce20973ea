-- ===== src/Gettext/Sorted/Permutation.antt =====
-- gettext/gettext.go: `sortedMessages` returns each message of the catalog as often as it stands there.
use sadbox.Prelude.{
  ◌≡◌, refl, sym, ap, ◌∙◌, inl, inr, Option, none, some, List, [], ◌∷◌, ◌++◌, append_assoc,
  append-nil, Text, arith, text_eq, text_eq_lem, Bool-cases, look, put, Distinct, put-Distinct,
}
use mathlib.Core.List.{Permᴰ, Perm}
use mathlib.Core.List.Permᴰ
use sadbox.Gettext.Message
use sadbox.Gettext.Message.{Key, Message}
use sadbox.Gettext.Sorted.{
  Groups, group_of, append_to, text_leb, insert_string, sort_strings, keys, sorted_message_keys,
  group_by_src, sift, group_by_ctx, append_groups, append_src, append_srcs, sorted_messages,
}

-- What the keys stand for, in their order.
abbrev pub flat : (Text → List Message) → List Text → List Message
flat f [] = []
flat f (k ∷ ks) = f k ++ flat f ks

abbrev pub all_of : Groups → List Message
all_of [] = []
all_of ((k, l) ∷ m) = l ++ all_of m

exchange : (a b c : List Message) → Permᴰ (a ++ (b ++ c)) (b ++ (a ++ c))
exchange a b c =
    rw (← append_assoc a b c, ← append_assoc b a c) (Permᴰ.append_right c (Permᴰ.append_comm a b))

flat-insert_string :
    (f : Text → List Message) (s : Text) (ks : List Text)
    → Permᴰ (flat f (insert_string s ks)) (f s ++ flat f ks)
unfolding insert_string
flat-insert_string f s [] = Permᴰ.refl _
flat-insert_string f s (k ∷ ks) = elim (Bool-cases (text_leb s k)) [
  | inl e ↦ rw e (Permᴰ.refl _)
  | inr e ↦ rw e (
      Permᴰ.trans (Permᴰ.append_left (f k) (flat-insert_string f s ks))
        (exchange (f k) (f s) (flat f ks)))
]

flat-sort_strings :
    (f : Text → List Message) (ks : List Text) → Permᴰ (flat f (sort_strings ks)) (flat f ks)
unfolding sort_strings
flat-sort_strings f [] = Permᴰ.refl _
flat-sort_strings f (k ∷ ks) =
    Permᴰ.trans (flat-insert_string f k (sort_strings ks))
      (Permᴰ.append_left (f k) (flat-sort_strings f ks))

-- A group in front is not reached by the keys of a map that does not have its key.
flat_skip :
    (m g : Groups) (j : Text) (l : List Message)
    → look text_eq m j ≡ none
    → flat (group_of ((j, l) ∷ g)) (keys m) ≡ flat (group_of g) (keys m)
unfolding look
flat_skip [] g j l e = refl
flat_skip ((k, w) ∷ m) g j l e = ground (arith, flat_skip m g j l, text_eq_lem j k, text_eq_lem k j)

flat-keys : (m : Groups) → Distinct text_eq m → flat (group_of m) (keys m) ≡ all_of m
unfolding look
flat-keys [] h = refl
flat-keys ((k, l) ∷ m) (fresh, rest) =
    rw ((text_eq_lem k k).1 refl)
      (ap (λ (t : List Message). l ++ t) (flat_skip m m k l fresh ∙ flat-keys m rest))

all_of-append_to :
    (m : Groups) (k : Text) (v : Message) → Permᴰ (all_of (append_to m k v)) (v ∷ all_of m)
unfolding append_to put look
all_of-append_to [] k v = Permᴰ.refl _
all_of-append_to ((j, l) ∷ m) k v = elim (Bool-cases (text_eq j k)) [
  | inl e ↦ rw (e, append_assoc) (Permᴰ.middle v l (all_of m))
  | inr e ↦
      rw e
        (Permᴰ.trans (Permᴰ.append_left l (all_of-append_to m k v)) (Permᴰ.middle v l (all_of m)))
]

append_to-Distinct :
    (m : Groups) (k : Text) (v : Message) → Distinct text_eq m → Distinct text_eq (append_to m k v)
unfolding append_to
append_to-Distinct m k v h = put-Distinct text_eq text_eq_lem m k _ h

abbrev pub values : List (Key × Message) → List Message
values [] = []
values ((k, v) ∷ m) = v ∷ values m

group_by_src-Distinct :
    (m : List (Key × Message)) (g : Groups)
    → Distinct text_eq g
    → Distinct text_eq (group_by_src m g)
unfolding group_by_src
group_by_src-Distinct [] g h = h
group_by_src-Distinct ((k, v) ∷ m) g h = group_by_src-Distinct m _ (append_to-Distinct g k.src v h)

all_of-group_by_src :
    (m : List (Key × Message)) (g : Groups)
    → Permᴰ (all_of (group_by_src m g)) (values m ++ all_of g)
unfolding group_by_src
all_of-group_by_src [] g = Permᴰ.refl _
all_of-group_by_src ((k, v) ∷ m) g = Permᴰ.trans (all_of-group_by_src m (append_to g k.src v)) (
    Permᴰ.trans (Permᴰ.append_left (values m) (all_of-append_to g k.src v))
      (Permᴰ.middle v (values m) (all_of g)))

-- The same for the loop over one source.
abbrev held : List Message × Groups → List Message
held (msgs, ctx_map) = msgs ++ all_of ctx_map

sift_held :
    (msg : Message) (o : Option Text) (s : List Message × Groups)
    → Permᴰ (held (sift msg o s)) (msg ∷ held s)
sift_held msg none (msgs, g) = rw append_assoc (Permᴰ.middle msg msgs (all_of g))
sift_held msg (some ctx) (msgs, g) =
    Permᴰ.trans (Permᴰ.append_left msgs (all_of-append_to g ctx msg))
      (Permᴰ.middle msg msgs (all_of g))

sift-Distinct :
    (msg : Message) (o : Option Text) (s : List Message × Groups)
    → Distinct text_eq s.1
    → Distinct text_eq (sift msg o s).1
sift-Distinct msg none (msgs, g) h = h
sift-Distinct msg (some ctx) (msgs, g) h = append_to-Distinct g ctx msg h

group_by_ctx-Distinct :
    (l : List Message) (s : List Message × Groups)
    → Distinct text_eq s.1
    → Distinct text_eq (group_by_ctx l s).1
unfolding group_by_ctx
group_by_ctx-Distinct [] s h = h
group_by_ctx-Distinct (msg ∷ l) s h = group_by_ctx-Distinct l _ (sift-Distinct msg _ s h)

group_by_ctx_held :
    (l : List Message) (s : List Message × Groups) → Permᴰ (held (group_by_ctx l s)) (l ++ held s)
unfolding group_by_ctx
group_by_ctx_held [] s = Permᴰ.refl _
group_by_ctx_held (msg ∷ l) s =
    Permᴰ.trans (group_by_ctx_held l (sift msg (Message.context msg) s)) (
      Permᴰ.trans (Permᴰ.append_left l (sift_held msg (Message.context msg) s))
        (Permᴰ.middle msg l (held s)))

append_groups_lem :
    (g : Groups) (ks : List Text) (msgs : List Message)
    → append_groups g ks msgs ≡ msgs ++ flat (group_of g) ks
unfolding append_groups
append_groups_lem g [] msgs = sym (append-nil msgs)
append_groups_lem g (k ∷ ks) msgs =
    append_groups_lem g ks (msgs ++ group_of g k) ∙ append_assoc msgs (group_of g k) _

-- The keys of a map in their sorted order give all that it holds.
flat-sorted_message_keys :
    (m : Groups) → Distinct text_eq m → Permᴰ (flat (group_of m) (sorted_message_keys m)) (all_of m)
unfolding sorted_message_keys
flat-sorted_message_keys m h = rw (← flat-keys m h) (flat-sort_strings (group_of m) (keys m))

append_src_lem : (l msgs : List Message) → Permᴰ (append_src l msgs) (l ++ msgs)
unfolding append_src
append_src_lem l msgs =
    let (msgs', g) = group_by_ctx l (msgs, []) in
    rw (append_groups_lem g (sorted_message_keys g) msgs') (
      Permᴰ.trans
        (Permᴰ.append_left msgs'
          (flat-sorted_message_keys g (group_by_ctx-Distinct l (msgs, []) tt)))
        (rw (append-nil msgs) at (group_by_ctx_held l (msgs, []))))

append_srcs_lem :
    (g : Groups) (ks : List Text) (msgs : List Message)
    → Permᴰ (append_srcs g ks msgs) (flat (group_of g) ks ++ msgs)
unfolding append_srcs
append_srcs_lem g [] msgs = Permᴰ.refl _
append_srcs_lem g (k ∷ ks) msgs = rw append_assoc (
    Permᴰ.trans (append_srcs_lem g ks (append_src (group_of g k) msgs)) (
      Permᴰ.trans (Permᴰ.append_left (flat (group_of g) ks) (append_src_lem (group_of g k) msgs))
        (exchange (flat (group_of g) ks) (group_of g k) msgs)))

pub sorted_messages-Permᴰ : (m : List (Key × Message)) → Permᴰ (sorted_messages m) (values m)
unfolding sorted_messages
sorted_messages-Permᴰ m =
    let g = group_by_src m [] in
    Permᴰ.trans (append_srcs_lem g (sorted_message_keys g) []) (
      rw append-nil (
        Permᴰ.trans (flat-sorted_message_keys g (group_by_src-Distinct m [] tt))
          (rw append-nil at (all_of-group_by_src m []))))

-- The sorted messages of a catalog are its messages in some order, whatever the order in which the map
-- is visited: none is lost and none stands twice that does not stand twice in the map.
pub sorted_messages-Perm : (m : List (Key × Message)) → Perm (sorted_messages m) (values m)
sorted_messages-Perm m = ∣ sorted_messages-Permᴰ m ∣₁
