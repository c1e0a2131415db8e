-- ===== src/QueryString/Render.antt =====
-- Query strings read back: parameters that were quoted and joined.
use swat4stats.Base.{
  ℕ, ◌≡◌, ◌≢◌, refl, sym, ap, ◌∙◌, false, Option, none, some, List, [], ◌∷◌, ◌++◌, map, arith, ◌==◌,
  All,
}
use mathlib.Core.Path.{subst}
use mathlib.Core.List.{append-nil}
use swat4stats.Base.Text.{Text}
use swat4stats.QueryString.{
  lstrip_char, keep_last, rstrip_char, strip_char, split_on, split_once, parse_param,
  parse_querystring, value_of,
}

-- The text does not have the character.
abbrev pub Lacks : ℕ → Text → Type 0
Lacks c [] = Unit
Lacks c (d ∷ s) = ((d == c) ≡ false) × Lacks c s

Lacks-append : (c : ℕ) (s t : Text) → Lacks c s → Lacks c t → Lacks c (s ++ t)
Lacks-append c [] t p q = q
Lacks-append c (d ∷ s) t p q = (p.0, Lacks-append c s t p.1 q)

lstrip_char-eq_self : (c : ℕ) (s t : Text) → Lacks c s → s ≢ [] → lstrip_char c (s ++ t) ≡ s ++ t
unfolding lstrip_char
lstrip_char-eq_self c [] t p n = absurd (n refl)
lstrip_char-eq_self c (d ∷ s) t p n = rw p.0 refl

rstrip_char-eq_self : (c : ℕ) (s : Text) → Lacks c s → rstrip_char c s ≡ s
unfolding rstrip_char
rstrip_char-eq_self c [] p = refl
rstrip_char-eq_self c (d ∷ []) p = rw p.0 refl
rstrip_char-eq_self c (d ∷ e ∷ s) p = rw (rstrip_char-eq_self c (e ∷ s) p.1) refl

-- An end that is not stripped keeps what stands before it.
rstrip_char-append :
    (c : ℕ) (s t : Text) → t ≢ [] → rstrip_char c t ≡ t → rstrip_char c (s ++ t) ≡ s ++ t
unfolding rstrip_char
rstrip_char-append c [] t n e = e
rstrip_char-append c (d ∷ s) t n e =
    ap (keep_last c d) (rstrip_char-append c s t n e) ∙ kept (s ++ t) (longer s t n)
  where
    kept : (r : Text) → r ≢ [] → keep_last c d r ≡ d ∷ r
    kept [] m = absurd (m refl)
    kept (x ∷ r) m = refl

    longer : (s t : Text) → t ≢ [] → s ++ t ≢ []
    longer [] t m = m
    longer (x ∷ s) t m = cc

split_once-eq : (c : ℕ) (s t : Text) → Lacks c s → split_once c (s ++ (c ∷ t)) ≡ (s, some t)
unfolding split_once
split_once-eq c [] t p = ground arith
split_once-eq c (d ∷ s) t p = rw (split_once-eq c s t p.1, p.0) refl

split_once-none : (c : ℕ) (s : Text) → Lacks c s → split_once c s ≡ (s, none)
unfolding split_once
split_once-none c [] p = refl
split_once-none c (d ∷ s) p = rw (split_once-none c s p.1, p.0) refl

-- The parts with the character between them.
abbrev pub join_on : ℕ → List Text → Text
join_on c [] = []
join_on c (t ∷ []) = t
join_on c (t ∷ u ∷ ts) = t ++ (c ∷ join_on c (u ∷ ts))

split_on-append : (c : ℕ) (s t : Text) → Lacks c s → split_on c (s ++ (c ∷ t)) ≡ s ∷ split_on c t
unfolding split_on
split_on-append c [] t p = ground arith
split_on-append c (d ∷ s) t p = rw (split_on-append c s t p.1, p.0) refl

split_on-eq : (c : ℕ) (s : Text) → Lacks c s → split_on c s ≡ s ∷ []
unfolding split_on
split_on-eq c [] p = refl
split_on-eq c (d ∷ s) p = rw (split_on-eq c s p.1, p.0) refl

split_on-join_on :
    (c : ℕ) (t : Text) (ts : List Text)
    → All (Lacks c) (t ∷ ts)
    → split_on c (join_on c (t ∷ ts)) ≡ t ∷ ts
split_on-join_on c t [] p = split_on-eq c t p.0
split_on-join_on c t (u ∷ ts) p =
    split_on-append c t (join_on c (u ∷ ts)) p.0 ∙ ap (λ us. t ∷ us) (split_on-join_on c u ts p.1)

cons-ne-nil : (c : ℕ) (t : Text) → c ∷ t ≢ []
cons-ne-nil c t = cc

join_on-ne-nil : (c : ℕ) (t : Text) (ts : List Text) → t ≢ [] → join_on c (t ∷ ts) ≢ []
join_on-ne-nil c [] ts n = absurd (n refl)
join_on-ne-nil c (d ∷ t) [] n = cc
join_on-ne-nil c (d ∷ t) (u ∷ ts) n = cc

lstrip_char-join_on :
    (c : ℕ) (t : Text) (ts : List Text)
    → Lacks c t
    → t ≢ []
    → lstrip_char c (join_on c (t ∷ ts)) ≡ join_on c (t ∷ ts)
lstrip_char-join_on c t [] p n =
    ap (lstrip_char c) (sym (append-nil t)) ∙ lstrip_char-eq_self c t [] p n ∙ append-nil t
lstrip_char-join_on c t (u ∷ ts) p n = lstrip_char-eq_self c t (c ∷ join_on c (u ∷ ts)) p n

rstrip_char-join_on :
    (c : ℕ) (t : Text) (ts : List Text)
    → All (Lacks c) (t ∷ ts)
    → All (λ s. s ≢ []) (t ∷ ts)
    → rstrip_char c (join_on c (t ∷ ts)) ≡ join_on c (t ∷ ts)
rstrip_char-join_on c t [] p n = rstrip_char-eq_self c t p.0
rstrip_char-join_on c t (u ∷ ts) p n =
    rstrip_char-append c t (c ∷ join_on c (u ∷ ts)) (cons-ne-nil c (join_on c (u ∷ ts))) (
      rstrip_char-append c (c ∷ []) (join_on c (u ∷ ts)) (join_on-ne-nil c u ts n.1.0)
        (rstrip_char-join_on c u ts p.1 n.1))

strip_char-join_on :
    (c : ℕ) (t : Text) (ts : List Text)
    → All (Lacks c) (t ∷ ts)
    → All (λ s. s ≢ []) (t ∷ ts)
    → strip_char c (join_on c (t ∷ ts)) ≡ join_on c (t ∷ ts)
unfolding strip_char
strip_char-join_on c t ts p n =
    ap (rstrip_char c) (lstrip_char-join_on c t ts p.0 n.0) ∙ rstrip_char-join_on c t ts p n

-- A parameter whose parts lack the character, stripped of it: an empty value loses it.
split_once-strip_char :
    (c : ℕ) (k v : Text)
    → Lacks c k
    → k ≢ []
    → Lacks c v
    → v ≢ []
    → split_once c (strip_char c (k ++ (c ∷ v))) ≡ (k, some v)
split_once-strip_char c k v p n q m =
    ap (split_once c) (strip_char-join_on c k (v ∷ []) (p, (q, tt)) (n, (m, tt)))
    ∙ split_once-eq c k v p

keep_last-eq : (c d : ℕ) (k : Text) → (d == c) ≡ false → keep_last c d k ≡ d ∷ k
keep_last-eq c d [] h = rw h refl
keep_last-eq c d (e ∷ k) h = refl

rstrip_char-bare : (c : ℕ) (k : Text) → Lacks c k → rstrip_char c (k ++ (c ∷ [])) ≡ k
unfolding rstrip_char
rstrip_char-bare c [] p = ground arith
rstrip_char-bare c (d ∷ k) p =
    ap (keep_last c d) (rstrip_char-bare c k p.1) ∙ keep_last-eq c d k p.0

split_once-strip_char_bare :
    (c : ℕ) (k : Text)
    → Lacks c k
    → k ≢ []
    → split_once c (strip_char c (k ++ (c ∷ []))) ≡ (k, none)
unfolding strip_char
split_once-strip_char_bare c k p n =
    ap (λ s. split_once c (rstrip_char c s)) (lstrip_char-eq_self c k (c ∷ []) p n)
    ∙ ap (split_once c) (rstrip_char-bare c k p)
    ∙ split_once-none c k p

module _ (unquote_plus quote_plus : Text → Text) where
  -- A text whose quoted form is undone, and has none of the separators.
  pub record IsQuoted (t : Text) : Type 0 where
    pub undone : unquote_plus (quote_plus t) ≡ t
    pub no_and : Lacks b'&' (quote_plus t)
    pub no_equals : Lacks b'=' (quote_plus t)

  abbrev pub IsParam : Text × Text → Type 0
  IsParam (k, v) = (k ≢ []) × IsQuoted k × IsQuoted v

  -- `key=value`
  abbrev pub render_param : Text × Text → Text
  render_param (k, v) = quote_plus k ++ (b'=' ∷ quote_plus v)

  abbrev pub render : List (Text × Text) → Text
  render ps = join_on b'&' (map render_param ps)

  module _ (empty : unquote_plus [] ≡ []) where
    quoted-ne-nil : (k : Text) → k ≢ [] → unquote_plus (quote_plus k) ≡ k → quote_plus k ≢ []
    quoted-ne-nil k n h e = n (sym h ∙ ap unquote_plus e ∙ empty)

    read : Text × Option Text → Text × Text
    read (name, value) = (unquote_plus name, value_of unquote_plus value)

    parse_param-render_param :
        (p : Text × Text) → IsParam p → parse_param unquote_plus (render_param p) ≡ p
    unfolding parse_param read
    parse_param-render_param (k, v) (n, qk, qv) = by_value (quote_plus v) refl
      where
        by_value :
            (q : Text)
            → quote_plus v ≡ q
            → parse_param unquote_plus (quote_plus k ++ (b'=' ∷ q)) ≡ (k, v)
        by_value [] e =
            let blank : [] ≡ v = sym empty ∙ ap unquote_plus (sym e) ∙ qv.undone in
            ap read (
              split_once-strip_char_bare b'=' (quote_plus k) qk.no_equals
                (quoted-ne-nil k n qk.undone))
            ∙ cc (qk.undone, blank)
        by_value (c ∷ q) e =
            ap read (
              split_once-strip_char b'=' (quote_plus k) (c ∷ q) qk.no_equals
                (quoted-ne-nil k n qk.undone) (subst (Lacks b'=') e qv.no_equals) cc)
            ∙ cc (qk.undone, ap unquote_plus (sym e) ∙ qv.undone)

    param-Lacks : (p : Text × Text) → IsParam p → Lacks b'&' (render_param p)
    param-Lacks (k, v) (n, qk, qv) =
        Lacks-append b'&' (quote_plus k) (b'=' ∷ quote_plus v) qk.no_and (ground arith, qv.no_and)

    param-ne-nil : (p : Text × Text) → IsParam p → render_param p ≢ []
    param-ne-nil (k, v) (n, qk, qv) = longer (quote_plus k)
      where
        longer : (s : Text) → s ++ (b'=' ∷ quote_plus v) ≢ []
        longer [] = cc
        longer (c ∷ s) = cc

    All-params :
        (P : Text → Type 0) (ps : List (Text × Text))
        → ((p : Text × Text) → IsParam p → P (render_param p))
        → All IsParam ps
        → All P (map render_param ps)
    All-params P [] f h = tt
    All-params P (p ∷ ps) f h = (f p h.0, All-params P ps f h.1)

    params-eq_self :
        (ps : List (Text × Text))
        → All IsParam ps
        → map (parse_param unquote_plus) (map render_param ps) ≡ ps
    params-eq_self [] h = refl
    params-eq_self (p ∷ ps) h = cc (parse_param-render_param p h.0, params-eq_self ps h.1)

    -- Where the empty text is unquoted to itself: parameters, at least one, whose keys are not empty
    -- and whose texts have quoted forms without the separators that are undone, are read back from
    -- their query string.
    pub parse_querystring-render :
        (p : Text × Text) (ps : List (Text × Text))
        → All IsParam (p ∷ ps)
        → parse_querystring unquote_plus (render (p ∷ ps)) ≡ p ∷ ps
    unfolding parse_querystring
    parse_querystring-render p ps h =
        let lacks = All-params (Lacks b'&') (p ∷ ps) param-Lacks h in
        ap (λ s. map (parse_param unquote_plus) (split_on b'&' s))
          (strip_char-join_on b'&' (render_param p) (map render_param ps) lacks
            (All-params (λ s. s ≢ []) (p ∷ ps) param-ne-nil h))
        ∙ ap (map (parse_param unquote_plus))
            (split_on-join_on b'&' (render_param p) (map render_param ps) lacks)
        ∙ params-eq_self (p ∷ ps) h
