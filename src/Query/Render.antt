-- ===== src/Query/Render.antt =====
-- Payloads read back: pairs that were written as a payload, and packets taken out of their frame.
use swat4stats.Base.{
  ℕ, ◌<◌, ==_refl, ◌≡◌, refl, ap, ◌∙◌, inl, inr, true, false, some, List, [], ◌∷◌, ◌++◌, arith,
  ◌==◌, All, Bool-cases, length, length-append,
}
use swat4stats.Base.Text.{Text, codes, text_eq}
use swat4stats.Query.{is_digit, split, pairs, parse_status_payload}
use swat4stats.Query.Payload.{
  after, span_digits, eof, until_eof, replacement, normalized, normalize_status_packet,
}

-- The pairs as a payload.
abbrev pub render : List (Text × Text) → Text
render [] = []
render ((k, v) ∷ kvs) = b'\\' ∷ (k ++ (b'\\' ∷ (v ++ render kvs)))

abbrev pub flat : List (Text × Text) → List Text
flat [] = []
flat ((k, v) ∷ kvs) = k ∷ v ∷ flat kvs

abbrev pub IsPlain : Text → Type 0
IsPlain [] = Unit
IsPlain (c ∷ s) = ((c == b'\\') ≡ false) × IsPlain s

abbrev pub IsPlainPair : Text × Text → Type 0
IsPlainPair (k, v) = IsPlain k × IsPlain v

split-append :
    (s t u : Text) (us : List Text) → IsPlain s → split t ≡ u ∷ us → split (s ++ t) ≡ (s ++ u) ∷ us
unfolding split
split-append [] t u us p e = e
split-append (c ∷ s) t u us p e = rw (p.0, split-append s t u us p.1 e) refl

append_nil : (s : Text) → s ++ [] ≡ s
append_nil [] = refl
append_nil (c ∷ s) = ap (λ t. c ∷ t) (append_nil s)

-- a part of the payload, up to the next backslash
split-part : (s t : Text) (us : List Text) → IsPlain s → split t ≡ [] ∷ us → split (s ++ t) ≡ s ∷ us
split-part s t us p e = split-append s t [] us p e ∙ ap (λ r. r ∷ us) (append_nil s)

split-render : (kvs : List (Text × Text)) → All IsPlainPair kvs → split (render kvs) ≡ [] ∷ flat kvs
unfolding split
split-render [] p = refl
split-render ((k, v) ∷ kvs) p =
    ap (λ ts. [] ∷ ts)
      (split-part k (b'\\' ∷ (v ++ render kvs)) (v ∷ flat kvs) p.0.0
        (ap (λ ts. [] ∷ ts) (split-part v (render kvs) (flat kvs) p.0.1 (split-render kvs p.1))))

pairs-flat : (kvs : List (Text × Text)) → pairs (flat kvs) ≡ kvs
unfolding pairs
pairs-flat [] = refl
pairs-flat ((k, v) ∷ kvs) = ap (λ t. (k, v) ∷ t) (pairs-flat kvs)

-- Pairs whose keys and values have no backslash are read back from their payload.
pub parse_status_payload-render :
    (kvs : List (Text × Text)) → All IsPlainPair kvs → parse_status_payload (render kvs) ≡ kvs
unfolding parse_status_payload
parse_status_payload-render kvs p = rw (split-render kvs p) (pairs-flat kvs)

abbrev pub IsDigits : Text → Type 0
IsDigits = All (λ c. is_digit c ≡ true)

text_eq-length : (s t : Text) → text_eq s t ≡ true → length s ≡ length t
text_eq-length [] [] h = refl
text_eq-length [] (d ∷ t) h = cc
text_eq-length (c ∷ s) [] h = cc
text_eq-length (c ∷ s) (d ∷ t) h = ground (arith, text_eq-length s t)

span_digits-append :
    (ds : Text) (c : ℕ) (s : Text)
    → IsDigits ds
    → is_digit c ≡ false
    → span_digits (ds ++ c ∷ s) ≡ (ds, c ∷ s)
unfolding span_digits
span_digits-append [] c s h n = rw n refl
span_digits-append (d ∷ ds) c s h n = rw (span_digits-append ds c s h.1 n, h.0) refl

-- no line break
abbrev pub IsLine : Text → Type 0
IsLine = All (λ c. (c == 10) ≡ false)

-- A text that is longer than another one is not that text.
longer : (s t : Text) → length t < length s → text_eq s t ≡ false
longer s t h = elim (Bool-cases (text_eq s t)) [
  | inl e ↦ absurd (omega (arith, h, text_eq-length s t e))
  | inr e ↦ e
]

until_eof-append : (s : Text) → IsLine s → until_eof (s ++ eof) ≡ some (s, [])
unfolding until_eof
until_eof-append [] h = refl
until_eof-append (c ∷ []) h = ground (arith, h.0)
until_eof-append (c ∷ d ∷ s) h =
    rw
      (
        longer (c ∷ d ∷ s ++ eof) eof (omega (arith, length-append s eof)),
        longer (c ∷ d ∷ s ++ eof) (eof ++ 10 ∷ []) (omega (arith, length-append s eof)),
        h.0,
        until_eof-append (d ∷ s) h.1,
      )
      refl

after-append : (p s : Text) → after p (p ++ s) ≡ some s
unfolding after
after-append [] s = refl
after-append (c ∷ p) s = rw (==_refl c) (after-append p s)

abbrev pub prefix : Text
prefix = codes "\\statusresponse\\"

replacement-some :
    (d : ℕ) (ds : Text) (c : ℕ) (s : Text) → replacement (d ∷ ds) (some (c ∷ s, [])) ≡ some (c ∷ s)
unfolding replacement
replacement-some d ds c s = ap some (append_nil (c ∷ s))

-- A text of one line that does not start with a digit is taken out of the frame of a packet,
-- whatever number the packet has.
pub normalize_status_packet-frame :
    (d : ℕ) (ds : Text) (c : ℕ) (s : Text)
    → IsDigits (d ∷ ds)
    → is_digit c ≡ false
    → IsLine (c ∷ s)
    → normalize_status_packet (prefix ++ ((d ∷ ds) ++ ((c ∷ s) ++ eof))) ≡ c ∷ s
unfolding normalize_status_packet normalized
normalize_status_packet-frame d ds c s h n l =
    rw
      (
        after-append prefix ((d ∷ ds) ++ ((c ∷ s) ++ eof)),
        normalized,
        span_digits-append (d ∷ ds) c (s ++ eof) h n,
        until_eof-append (c ∷ s) l,
        replacement-some d ds c s,
      )
      refl
