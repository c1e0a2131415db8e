-- ===== src/Query/Arrival.antt =====
-- Packets of a status may arrive in another order than that of their numbers.
use swat4stats.Base.{
  ◌≡◌, refl, sym, ap, ◌∙◌, Bool, true, false, ◌&&◌, ◌||◌, not, Option, none, some, List, [], ◌∷◌,
  if◌then◌else◌, length,
}
use swat4stats.Base.Int.{ℤ, pos}
use swat4stats.Base.Sort.{sorted, length-sorted}
use swat4stats.Base.Text.{Text}
use swat4stats.Query.{parse_status_payload}
use swat4stats.Query.Collect.{
  eq_ℤ, read_params, put, Collected, payload, incomplete, malformed, join, order_before, finish,
  place, collect, collect_status_payload,
}
use swat4stats.Query.Ordered.{put_ordered, eq_sym, put_ordered_comm, sorted-put}

-- Only the sorted dictionary matters in the end.
finish_ordered : Option ℤ → List (ℤ × Text) → Collected
finish_ordered none o = incomplete
finish_ordered (some count) o =
    if eq_ℤ count (pos 0) || not (eq_ℤ count (pos (length o))) then incomplete else payload (join o)

finish-sorted :
    (count : Option ℤ) (o : List (ℤ × Text))
    → finish count o ≡ finish_ordered count (sorted order_before o)
unfolding finish finish_ordered
finish-sorted none o = refl
finish-sorted (some count) o = rw (length-sorted order_before o) refl

-- Of a packet: its order, and whether it is the final one.
abbrev pub read : Text → Option ℤ × Bool
read packet = read_params (none, false) (parse_status_payload packet)

-- What follows a packet that was read.
collect_next : Option ℤ → List (ℤ × Text) → Option ℤ × Bool → Text → List Text → Collected
collect_next count o (none, f) packet ps = malformed
collect_next count o (some k, f) packet ps =
    collect (if f then some k else count) (put k packet o) ps

place-next :
    (count : Option ℤ) (o : List (ℤ × Text)) (r : Option ℤ × Bool) (p : Text) (ps : List Text)
    → elim (place count r p o) [
      | none ↦ malformed
      | some (count', ordered') ↦ collect count' ordered' ps
    ]
      ≡ collect_next count o r p ps
unfolding collect_next place
place-next count o (none, f) p ps = refl
place-next count o (some k, f) p ps = refl

collect-next :
    (count : Option ℤ) (o : List (ℤ × Text)) (p : Text) (ps : List Text)
    → collect count o (p ∷ ps) ≡ collect_next count o (read p) p ps
unfolding collect
collect-next count o p ps = place-next count o (read p) p ps

-- Dictionaries with the same sorted entries are finished alike.
same_step :
    (count : Option ℤ) (o o' : List (ℤ × Text)) (r : Option ℤ × Bool) (p : Text) (ps : List Text)
    → sorted order_before o ≡ sorted order_before o'
    → ((c : Option ℤ) (k k' : List (ℤ × Text))
        → sorted order_before k ≡ sorted order_before k'
        → collect c k ps ≡ collect c k' ps)
    → collect_next count o r p ps ≡ collect_next count o' r p ps
unfolding collect_next
same_step count o o' (none, f) p ps e h = refl
same_step count o o' (some k, f) p ps e h =
    h (if f then some k else count) (put k p o) (put k p o')
      (sorted-put k p o ∙ ap (put_ordered k p) e ∙ sym (sorted-put k p o'))

collect-sorted :
    (ps : List Text) (count : Option ℤ) (o o' : List (ℤ × Text))
    → sorted order_before o ≡ sorted order_before o'
    → collect count o ps ≡ collect count o' ps
unfolding collect
collect-sorted [] count o o' e =
    finish-sorted count o ∙ ap (finish_ordered count) e ∙ sym (finish-sorted count o')
collect-sorted (p ∷ ps) count o o' e =
    collect-next count o p ps
    ∙ same_step count o o' (read p) p ps e (collect-sorted ps)
    ∙ sym (collect-next count o' p ps)

-- Two packets whose order of arrival does not matter: they have different numbers and are not both
-- the final one, or one of them has no number.
abbrev pub AreApart : Option ℤ × Bool → Option ℤ × Bool → Type 0
AreApart (none, f) (b, g) = Unit
AreApart (some a, f) (none, g) = Unit
AreApart (some a, f) (some b, g) = (eq_ℤ a b ≡ false) × ((f && g) ≡ false)

counts :
    (f g : Bool) (a b : ℤ) (count : Option ℤ)
    → (f && g) ≡ false
    → (if g then some b else if f then some a else count)
      ≡ (if f then some a else if g then some b else count)
counts false g a b count h = refl
counts true false a b count h = refl
counts true true a b count h = cc

put-swapped :
    (a b : ℤ) (p q : Text) (o : List (ℤ × Text))
    → eq_ℤ a b ≡ false
    → sorted order_before (put b q (put a p o)) ≡ sorted order_before (put a p (put b q o))
put-swapped a b p q o d =
    sorted-put b q (put a p o)
    ∙ ap (put_ordered b q) (sorted-put a p o)
    ∙ put_ordered_comm b a q p (sorted order_before o) (eq_sym a b d)
    ∙ sym (sorted-put a p (put b q o) ∙ ap (put_ordered a p) (sorted-put b q o))

collect-both :
    (count : Option ℤ) (o : List (ℤ × Text)) (p q : Text) (ps : List Text) (a b : ℤ) (f g : Bool)
    → read p ≡ (some a, f)
    → read q ≡ (some b, g)
    → collect count o (p ∷ q ∷ ps)
      ≡ collect (if g then some b else if f then some a else count) (put b q (put a p o)) ps
unfolding collect_next
collect-both count o p q ps a b f g e h =
    collect-next count o p (q ∷ ps) ∙ rw e (collect-next _ (put a p o) q ps ∙ rw h refl)

swap-collect :
    (count : Option ℤ) (o : List (ℤ × Text)) (p q : Text) (ps : List Text) (r s : Option ℤ × Bool)
    → read p ≡ r
    → read q ≡ s
    → AreApart r s
    → collect count o (p ∷ q ∷ ps) ≡ collect count o (q ∷ p ∷ ps)
unfolding collect_next
swap-collect count o p q ps (none, f) (none, g) e h d =
    collect-next count o p (q ∷ ps) ∙ rw (e, h) refl ∙ sym (collect-next count o q (p ∷ ps))
swap-collect count o p q ps (none, f) (some b, g) e h d =
    collect-next count o p (q ∷ ps)
    ∙ rw (e, h) (sym (collect-next _ (put b q o) p ps ∙ rw e refl))
    ∙ sym (collect-next count o q (p ∷ ps))
swap-collect count o p q ps (some a, f) (none, g) e h d =
    collect-next count o p (q ∷ ps)
    ∙ rw (e, h) (collect-next _ (put a p o) q ps ∙ rw h refl)
    ∙ sym (collect-next count o q (p ∷ ps))
swap-collect count o p q ps (some a, f) (some b, g) e h d =
    collect-both count o p q ps a b f g e h
    ∙ ap (λ c. collect c (put b q (put a p o)) ps) (counts f g a b count d.1)
    ∙ collect-sorted ps _ _ _ (put-swapped a b p q o d.0)
    ∙ sym (collect-both count o q p ps b a g f h e)

after_packet :
    (count : Option ℤ) (o : List (ℤ × Text)) (r : Option ℤ × Bool) (p : Text) (ps qs : List Text)
    → ((c : Option ℤ) (k : List (ℤ × Text)) → collect c k ps ≡ collect c k qs)
    → collect_next count o r p ps ≡ collect_next count o r p qs
unfolding collect_next
after_packet count o (none, f) p ps qs h = refl
after_packet count o (some k, f) p ps qs h = h (if f then some k else count) (put k p o)

-- The packets in another order, by swaps of packets that arrive one behind the other.
pub data Reordered : List Text → List Text → Type 0 where
  same : (ps : List Text) → Reordered ps ps
  keep : (p : Text) (ps qs : List Text) → Reordered ps qs → Reordered (p ∷ ps) (p ∷ qs)
  swap :
      (p q : Text) (ps : List Text)
      → AreApart (read p) (read q)
      → Reordered (p ∷ q ∷ ps) (q ∷ p ∷ ps)
  next : (ps qs rs : List Text) → Reordered ps qs → Reordered qs rs → Reordered ps rs

collect-Reordered :
    (ps qs : List Text)
    → Reordered ps qs
    → (count : Option ℤ) (o : List (ℤ × Text)) → collect count o ps ≡ collect count o qs
collect-Reordered _ _ (same ps) count o = refl
collect-Reordered _ _ (keep p ps qs h) count o =
    collect-next count o p ps
    ∙ after_packet count o (read p) p ps qs (collect-Reordered ps qs h)
    ∙ sym (collect-next count o p qs)
collect-Reordered _ _ (swap p q ps d) count o =
    swap-collect count o p q ps (read p) (read q) refl refl d
collect-Reordered _ _ (next ps qs rs h k) count o =
    collect-Reordered ps qs h count o ∙ collect-Reordered qs rs k count o

-- Packets that arrive in another order are collected to the same payload, or the same error, where
-- the packets that change places have different numbers and are not both the final one.
pub collect_status_payload-Reordered :
    (ps qs : List Text) → Reordered ps qs → collect_status_payload ps ≡ collect_status_payload qs
unfolding collect_status_payload
collect_status_payload-Reordered ps qs h = collect-Reordered ps qs h none []
