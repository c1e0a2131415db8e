-- ===== src/Query/Order.antt =====
-- The players of an expanded payload: those that were collected, by the number of their id.
use swat4stats.Base.{
  ◌+◌, ◌≡◌, refl, sym, ap, ◌∙◌, Bool, true, false, Option, none, some, List, [], ◌∷◌, map, arith,
  if◌then◌else◌, All, Option-cases, inl, inr,
}
use mathlib.Core.Path.{subst}
use mathlib.Core.Option
use swat4stats.Base.Int.{ℤ, ◌≤ℤ◌}
use swat4stats.Base.Table.{count_where}
use swat4stats.Base.Sort.{sorted, IsSorted, IsSortedFrom, sorted-IsSorted}
use swat4stats.Base.Enumerate.{All-sorted}
use swat4stats.Base.First.{count_where-sorted}
use swat4stats.Base.Text.{Text, codes}
use swat4stats.Query.{parse_status_payload}
use swat4stats.Query.Number.{parse_int}
use swat4stats.Query.Expand.{
  Dict, Entry, rows, plain, Result, Outcome, ok, attribute_error, value_error, ServerInfo, get_item,
  player_number, numbered, number_before, sort_numbered, sort_entry, sort_players, expand_params,
  expand_status_payload, empty_result,
}

-- The text under "id" is the number.
abbrev pub HasId : ℤ → Dict → Type 0
HasId n d = (t : Text) × (get_item (codes "id") d ≡ some t) × (parse_int t ≡ some n)

abbrev pub IsNotAfter : Dict → Dict → Type 0
IsNotAfter d e = (m : ℤ) × (n : ℤ) × HasId m d × HasId n e × (m ≤ℤ n)

-- Each player stands left of those with the same or a greater id.
abbrev pub AreOrdered : List Dict → Type 0
AreOrdered [] = Unit
AreOrdered (d ∷ ds) = All (IsNotAfter d) ds × AreOrdered ds

abbrev dicts : {A : Type 0} → List (A × Dict) → List Dict
dicts = map (λ (k, d). d)

-- What becomes of the collected players: they are ordered, each as often as it was collected; or
-- the call fails, since some id is no number.
abbrev pub ArePlayers : List (Text × Dict) → Outcome ServerInfo → Type 0
ArePlayers ps (ok info) =
    AreOrdered info.players
    × ((t : Dict → Bool) → count_where t info.players ≡ count_where t (map (λ (k, d). d) ps))
ArePlayers ps attribute_error = ⊥
ArePlayers ps value_error = All (λ p. (n : ℤ) × HasId n p.1) ps → ⊥

abbrev pub IsSortedEntry : Entry (List (Text × Dict)) → Outcome ServerInfo → Type 0
IsSortedEntry (rows ps) o = ArePlayers ps o
IsSortedEntry (plain t) o = o ≡ attribute_error

abbrev pub IsExpanded : Outcome Result → Outcome ServerInfo → Type 0
IsExpanded (ok r) o = IsSortedEntry r.players o
IsExpanded attribute_error o = o ≡ attribute_error
IsExpanded value_error o = o ≡ value_error

number_asym : (x y : ℤ × Dict) → number_before x y ≡ true → number_before y x ≡ false
number_asym (a, d) (b, e) h = ground (arith, h)

number_cotrans :
    (x y z : ℤ × Dict)
    → number_before x y ≡ false
    → number_before y z ≡ false
    → number_before x z ≡ false
number_cotrans (a, d) (b, e) (c, f) h k = ground (arith, h, k)

abbrev Numbered : ℤ × Dict → Type 0
Numbered (n, d) = HasId n d

player_number-HasId : (d : Dict) (n : ℤ) → player_number d ≡ some n → HasId n d
unfolding player_number
player_number-HasId d n h = elim (Option-cases (get_item (codes "id") d)) [
  | inl e ↦ absurd (Option.none-ne-some n (rw (player_number, e) at h))
  | inr (t, e) ↦ (t, e, rw (player_number, e) at h)
]

HasId-player_number : (d : Dict) (n : ℤ) → HasId n d → player_number d ≡ some n
unfolding player_number
HasId-player_number d n (t, e, h) = rw (player_number, e) h

-- The numbers are those of the ids, and the players are kept.
abbrev AreNumbered : List (Text × Dict) → Option (List (ℤ × Dict)) → Type 0
AreNumbered ps (some ns) = All Numbered ns × (dicts ns ≡ dicts ps)
AreNumbered ps none = All (λ p. (n : ℤ) × HasId n p.1) ps → ⊥

numbered-AreNumbered : (ps : List (Text × Dict)) → AreNumbered ps (numbered ps)
unfolding numbered
numbered-AreNumbered [] = (tt, refl)
numbered-AreNumbered ((id, d) ∷ rest) = elim (Option-cases (player_number d)) [
  | inl e ↦
      rw (numbered, e) (λ h. Option.none-ne-some h.0.0 (sym e ∙ HasId-player_number d h.0.0 h.0.1))
  | inr (n, e) ↦ elim (Option-cases (numbered rest)) [
    | inl f ↦ rw (numbered, e, f) (λ h. (rw f at (numbered-AreNumbered rest)) h.1)
    | inr (ns, f) ↦
        let (ids, same) = subst (AreNumbered rest) f (numbered-AreNumbered rest) in
        rw (numbered, e, f) ((player_number-HasId d n e, ids), ap (λ ds. d ∷ ds) same)
  ]
]

IsSortedFrom-AreOrdered :
    (x : ℤ × Dict) (ys : List (ℤ × Dict))
    → Numbered x
    → All Numbered ys
    → IsSortedFrom number_before x ys
    → All (IsNotAfter x.1) (dicts ys)
IsSortedFrom-AreOrdered x [] h hs s = tt
IsSortedFrom-AreOrdered (m, d) ((n, e) ∷ ys) h hs s =
    ((m, n, h, hs.0, ground (arith, s.0)), IsSortedFrom-AreOrdered (m, d) ys h hs.1 s.1)

IsSorted-AreOrdered :
    (xs : List (ℤ × Dict)) → All Numbered xs → IsSorted number_before xs → AreOrdered (dicts xs)
IsSorted-AreOrdered [] h s = tt
IsSorted-AreOrdered (x ∷ xs) h s =
    (IsSortedFrom-AreOrdered x xs h.0 h.1 s.0, IsSorted-AreOrdered xs h.1 s.1)

count_where-dicts :
    (t : Dict → Bool) (xs : List (ℤ × Dict))
    → count_where t (dicts xs) ≡ count_where (λ x. t x.1) xs
count_where-dicts t [] = refl
count_where-dicts t ((n, d) ∷ xs) = ap (λ c. (if t d then 1 else 0) + c) (count_where-dicts t xs)

sort_numbered-ArePlayers :
    (r : Result) (ps : List (Text × Dict)) (o : Option (List (ℤ × Dict)))
    → AreNumbered ps o
    → ArePlayers ps (sort_numbered r o)
unfolding sort_numbered
sort_numbered-ArePlayers r ps none h = h
sort_numbered-ArePlayers r ps (some ns) h = (
  IsSorted-AreOrdered (sorted number_before ns) (All-sorted number_before Numbered ns h.0)
      (sorted-IsSorted number_before number_asym number_cotrans ns),
  λ t.
      count_where-dicts t (sorted number_before ns)
      ∙ count_where-sorted number_before (λ x. t x.1) ns
      ∙ sym (count_where-dicts t ns)
      ∙ ap (count_where t) h.1,
)

sort_entry-IsSortedEntry :
    (r : Result) (e : Entry (List (Text × Dict))) → IsSortedEntry e (sort_entry r e)
unfolding sort_entry
sort_entry-IsSortedEntry r (plain t) = refl
sort_entry-IsSortedEntry r (rows ps) =
    sort_numbered-ArePlayers r ps (numbered ps) (numbered-AreNumbered ps)

sort_players-IsExpanded : (o : Outcome Result) → IsExpanded o (sort_players o)
unfolding sort_players
sort_players-IsExpanded attribute_error = refl
sort_players-IsExpanded value_error = refl
sort_players-IsExpanded (ok r) = sort_entry-IsSortedEntry r r.players

-- The players that `expand_status_payload` returns are those that its loop has collected, each as
-- often, and stand in the order of the numbers that their ids spell. It fails with a `ValueError`
-- only where some id is no number, and with an `AttributeError` where a text stands in the place of
-- the players; an error of the loop is passed on.
pub expand_status_payload-IsExpanded :
    (raw : Text)
    → IsExpanded (expand_params (parse_status_payload raw) empty_result) (expand_status_payload raw)
unfolding expand_status_payload
expand_status_payload-IsExpanded raw =
    sort_players-IsExpanded (expand_params (parse_status_payload raw) empty_result)
