-- ===== src/QueryString/Paths.antt =====
-- What a nested dictionary holds after `set_complex_key_item`, read by paths.
use swat4stats.Base.{
  ◌≡◌, ◌⊎◌, refl, sym, ap, ◌∙◌, true, false, Option, none, some, List, [], ◌∷◌, arith, Bool-cases,
  Option-cases, inl, inr,
}
use swat4stats.Base.Text.{Text, text_eq, text_eq_refl, eq_of_text_eq}
use swat4stats.QueryString.{
  Value, text, seq, nil, cons, join_values, dict, Items, end, item, get_item, set_item,
}
use swat4stats.QueryString.Complex.{merged, set_last, items_of, set_complex_key_item}

same_texts : (s t u : Text) → text_eq s t ≡ true → text_eq s u ≡ text_eq t u
same_texts s t u h = ap (λ x. text_eq x u) (eq_of_text_eq s t h)

get_item-set_item : (k : Text) (v : Value) (d : Items) → get_item k (set_item k v d) ≡ some v
get_item-set_item k v end = ground (arith, text_eq_refl k)
get_item-set_item k v (item l w d) = ground (arith, get_item-set_item k v d)

text_ne_sym : (j k : Text) → text_eq k j ≡ false → text_eq j k ≡ false
text_ne_sym j k h = elim (Bool-cases (text_eq j k)) [
  | inl e ↦ absurd (ground (arith, h, same_texts j k j e, text_eq_refl j))
  | inr e ↦ e
]

get_item-other :
    (j k : Text) (v : Value) (d : Items)
    → text_eq k j ≡ false
    → get_item j (set_item k v d) ≡ get_item j d
get_item-other j k v end h = rw (text_ne_sym j k h) refl
get_item-other j k v (item l w d) h = elim (Bool-cases (text_eq k l)) [
  | inl e ↦
      let n : text_eq j l ≡ false = text_ne_sym j l (sym (same_texts k l j e) ∙ h) in
      ground (arith, e, n)
  | inr e ↦ ground (arith, e, get_item-other j k v d h)
]

-- The value at the end of a path through dictionaries, the last component apart.
pub get_path : List Text → Text → Items → Option Value
get_path [] last d = get_item last d
get_path (k ∷ ks) last d = get_path ks last (items_of (get_item k d))

-- Two paths part at some component, before either ends.
abbrev pub Diverge : List Text → Text → List Text → Text → Type 0
Diverge [] last [] l = text_eq last l ≡ false
Diverge [] last (j ∷ js) l = text_eq last j ≡ false
Diverge (k ∷ ks) last [] l = text_eq k l ≡ false
Diverge (k ∷ ks) last (j ∷ js) l = (text_eq k j ≡ false) ⊎ Diverge ks last js l

-- What the call leaves at its path: the value at a free place; a list with the value at its end, or
-- with the values of a list; a list of an old text and the value; and a dictionary as it was.
abbrev pub left : Option Value → Value → Value
left none v = v
left (some (dict d)) v = dict d
left (some (text t)) v = seq (cons (text t) (cons v nil))
left (some (seq vs)) (text t) = seq (join_values vs (cons (text t) nil))
left (some (seq vs)) (dict d) = seq (join_values vs (cons (dict d) nil))
left (some (seq vs)) (seq ws) = seq (join_values vs ws)

merged-left : (w v : Value) → merged w v ≡ left (some w) v
merged-left (dict d) v = refl
merged-left (text t) v = refl
merged-left (seq vs) (text t) = refl
merged-left (seq vs) (dict d) = refl
merged-left (seq vs) (seq ws) = refl

set_last-own :
    (last : Text) (v : Value) (d : Items)
    → get_item last (set_last last v d) ≡ some (left (get_item last d) v)
unfolding set_last
set_last-own last v d = elim (Option-cases (get_item last d)) [
  | inl e ↦ rw (e, set_last) (get_item-set_item last v d)
  | inr (w, e) ↦
      rw (e, set_last) (get_item-set_item last (merged w v) d ∙ ap some (merged-left w v))
]

set_last-other :
    (last j : Text) (v : Value) (d : Items)
    → text_eq last j ≡ false
    → get_item j (set_last last v d) ≡ get_item j d
unfolding set_last
set_last-other last j v d h = elim (Option-cases (get_item last d)) [
  | inl e ↦ rw (e, set_last) (get_item-other j last v d h)
  | inr (w, e) ↦ rw (e, set_last) (get_item-other j last (merged w v) d h)
]

get_path-own :
    (ks : List Text) (last : Text) (v : Value) (d : Items)
    → get_path ks last (set_complex_key_item ks last v d) ≡ some (left (get_path ks last d) v)
unfolding get_path set_complex_key_item
get_path-own [] last v d = set_last-own last v d
get_path-own (k ∷ ks) last v d =
    ap (λ o. get_path ks last (items_of o)) (get_item-set_item k _ d)
    ∙ get_path-own ks last v (items_of (get_item k d))

get_path-other :
    (ks : List Text) (last : Text) (js : List Text) (l : Text) (v : Value) (d : Items)
    → Diverge ks last js l
    → get_path js l (set_complex_key_item ks last v d) ≡ get_path js l d
unfolding get_path set_complex_key_item
get_path-other [] last [] l v d h = set_last-other last l v d h
get_path-other [] last (j ∷ js) l v d h =
    ap (λ o. get_path js l (items_of o)) (set_last-other last j v d h)
get_path-other (k ∷ ks) last [] l v d h = get_item-other l k _ d h
get_path-other (k ∷ ks) last (j ∷ js) l v d (inl h) =
    ap (λ o. get_path js l (items_of o)) (get_item-other j k _ d h)
get_path-other (k ∷ ks) last (j ∷ js) l v d (inr h) = elim (Bool-cases (text_eq k j)) [
  | inr e ↦ ap (λ o. get_path js l (items_of o)) (get_item-other j k _ d e)
  | inl e ↦
      let same = eq_of_text_eq k j e in
      ap
        (λ i. get_path js l (
          items_of (
            get_item i
              (set_item k (dict (set_complex_key_item ks last v (items_of (get_item k d)))) d))))
        (sym same)
      ∙ ap (λ o. get_path js l (items_of o)) (get_item-set_item k _ d)
      ∙ get_path-other ks last js l v (items_of (get_item k d)) h
      ∙ ap (λ i. get_path js l (items_of (get_item i d))) same
]

-- After `set_complex_key_item` the path leads to the new value where nothing was there before; to the
-- old list with the value at its end, or with the values of a new list behind its own; to a list of
-- the old text and the value; and to the same dictionary where that was one. Every path that parts from it at some component leads
-- to what it did before.
pub set_complex_key_item-paths :
    (ks : List Text) (last : Text) (js : List Text) (l : Text) (v : Value) (d : Items)
    → Diverge ks last js l
    → (get_path ks last (set_complex_key_item ks last v d) ≡ some (left (get_path ks last d) v))
      × (get_path js l (set_complex_key_item ks last v d) ≡ get_path js l d)
set_complex_key_item-paths ks last js l v d h =
    (get_path-own ks last v d, get_path-other ks last js l v d h)
